-- ===== src/Ledger/Store/Valid.antt =====
-- debbuilder/automation_ledger.py: a valid ledger stays valid when one generation is replaced.
use deb_builder.Base.{
  ℕ, zero, suc, ◌+◌, ◌<◌, ◌≡◌, refl, ap, subst, ◌∙◌, Text, List, [], ◌∷◌, some, length, get_elem?,
  set, arith, ok, ◌=t◌, =t_sound, Bool-cases, ◌≤◌, ◌↔◌, inl, inr, length-set, >>=-eq-ok,
  Result-cases,
}
use deb_builder.Platform.{Platform}
use deb_builder.Ledger.Row.{Generation, max_generations}
use deb_builder.Ledger.Validate.{Iso, validate_generation}
use deb_builder.Ledger.Validate.Table.{WellFormed}
use deb_builder.Ledger.Validate.Exact.{validate_generation-ok_iff}
use deb_builder.Ledger.Document.{
  Entry, Document, Limits, validate_document, validate_entry, validate_entries,
  validate_generations, count, distinct, max_recipes,
}
use deb_builder.Ledger.Store.{find_entry, put_entry, put_row}

-- Generations that are well formed at the positions from `i` on.
abbrev pub AllWellFormed : Iso → ℕ → List Generation → Type 0
AllWellFormed iso i [] = Unit {0}
AllWellFormed iso i (g ∷ gs) = WellFormed iso i g × AllWellFormed iso (suc i) gs

pub AllWellFormed-set :
    (iso : Iso) (i n j : ℕ) (gs : List Generation) (g : Generation)
    → j ≡ i + n
    → WellFormed iso j g
    → AllWellFormed iso i gs
    → AllWellFormed iso i (set gs n g)
AllWellFormed-set iso i n j [] g e w all = tt
AllWellFormed-set iso i zero j (x ∷ gs) g e w all =
    let same : j ≡ i = omega arith in (subst (λ k. WellFormed iso k g) same w, all.1)
AllWellFormed-set iso i (suc n) j (x ∷ gs) g e w all =
    (all.0, AllWellFormed-set iso (suc i) n j gs g (omega arith) w all.1)

pub AllWellFormed-get :
    (iso : Iso) (i n j : ℕ) (gs : List Generation) (g : Generation)
    → j ≡ i + n
    → AllWellFormed iso i gs
    → get_elem? gs n ≡ some g
    → WellFormed iso j g
AllWellFormed-get iso i n j [] g e all found = cc
AllWellFormed-get iso i zero j (x ∷ gs) g e all found =
    let same : j ≡ i = omega arith in
    let here : x ≡ g = cc in rw same (subst (λ y. WellFormed iso i y) here all.0)
AllWellFormed-get iso i (suc n) j (x ∷ gs) g e all found =
    AllWellFormed-get iso (suc i) n j gs g (omega arith) all.1 found

module _ (p : Platform) (bounds : Limits) where
  generations_cons :
      (i : ℕ) (g : Generation) (gs : List Generation)
      → (validate_generations p bounds i (g ∷ gs) ≡ ok tt) ↔ (
          (validate_generation p.iso i g ≡ ok g)
          × (validate_generations p bounds (suc i) gs ≡ ok tt))
  unfolding validate_generations
  generations_cons i g gs = (
    λ h.
        let (x, found, rest) =
          >>=-eq-ok (validate_generation p.iso i g) (λ _. validate_generations p bounds (suc i) gs)
            h in
        (found ∙ ap ok ((validate_generation-ok_iff p.iso i g x).0 found).1, rest),
    λ (a, b). rw a b,
  )

  pub generations_iff :
      (i : ℕ) (gs : List Generation)
      → (validate_generations p bounds i gs ≡ ok tt) ↔ AllWellFormed p.iso i gs
  generations_iff i [] = (λ h. tt, λ h. unfold validate_generations in refl)
  generations_iff i (g ∷ gs) = (
    λ h.
        let (a, b) = (generations_cons i g gs).0 h in
        (((validate_generation-ok_iff p.iso i g g).0 a).0, (generations_iff (suc i) gs).0 b),
    λ (a, b).
        (generations_cons i g gs).1
          ((validate_generation-ok_iff p.iso i g g).1 (a, refl), (generations_iff (suc i) gs).1 b),
  )

  -- What the loop over the attempts asks of one of them.
  pub record ValidEntry (met : List Text) (key : Text) (e : Entry) : Type 0 where
    pub entry : validate_entry p bounds key e ≡ ok tt
    pub some_generation : 0 < length e.generations
    pub few_generations : length e.generations ≤ max_generations
    pub few_attempts : count e.recipe_id met < bounds.max_attempts_per_recipe
    pub generations : AllWellFormed p.iso 0 e.generations

  entries_cons :
      (met m : List Text) (key : Text) (e : Entry) (rest : List (Text × Entry))
      → validate_entries p bounds met ((key, e) ∷ rest) ≡ ok m
      → ValidEntry met key e × (validate_entries p bounds (e.recipe_id ∷ met) rest ≡ ok m)
  unfolding validate_entries
  entries_cons met m key e rest h = (
    record {
      entry = ground arith;
      some_generation = ground arith;
      few_generations = ground arith;
      few_attempts = ground arith;
      generations = (generations_iff 0 e.generations).0 (ground arith);
    },
    ground arith,
  )

  cons_entries :
      (met m : List Text) (key : Text) (e : Entry) (rest : List (Text × Entry))
      → ValidEntry met key e
      → validate_entries p bounds (e.recipe_id ∷ met) rest ≡ ok m
      → validate_entries p bounds met ((key, e) ∷ rest) ≡ ok m
  unfolding validate_entries
  cons_entries met m key e rest v h =
      let fine = (generations_iff 0 e.generations).1 v.generations in
      let entry = v.entry in
      let some_generation = v.some_generation in
      let few = v.few_generations in let attempts = v.few_attempts in ground arith

  validate_entry-put :
      (k : Text) (n : ℕ) (g : Generation) (e : Entry)
      → validate_entry p bounds k (put_row n g e) ≡ validate_entry p bounds k e
  unfolding validate_entry
  validate_entry-put k n g e = refl

  ValidEntry-put :
      (met : List Text) (key : Text) (n : ℕ) (g : Generation) (e : Entry)
      → WellFormed p.iso n g
      → ValidEntry met key e
      → ValidEntry met key (put_row n g e)
  ValidEntry-put met key n g e w v = record {
    entry = validate_entry-put key n g e ∙ v.entry;
    some_generation = omega (arith, v.some_generation, length-set e.generations n g);
    few_generations = omega (arith, v.few_generations, length-set e.generations n g);
    few_attempts = v.few_attempts;
    generations = AllWellFormed-set p.iso 0 n n e.generations g (omega arith) w v.generations;
  }

  entries-put :
      (met m : List Text) (l : List (Text × Entry)) (key : Text) (n : ℕ) (g : Generation)
      (e : Entry)
      → WellFormed p.iso n g
      → find_entry key l ≡ some e
      → validate_entries p bounds met l ≡ ok m
      → validate_entries p bounds met (put_entry key (put_row n g e) l) ≡ ok m
  unfolding find_entry put_entry
  entries-put met m [] key n g e w found h = h
  entries-put met m ((k, x) ∷ rest) key n g e w found h =
      let (v, later) = entries_cons met m k x rest h in
      elim (Bool-cases (k =t key)) [
        | inl same ↦
            let here : x ≡ e = ground (arith, same) in
            rw same (
              subst (λ y. validate_entries p bounds met ((k, put_row n g y) ∷ rest) ≡ ok m) here
                (cons_entries met m k (put_row n g x) rest (ValidEntry-put met k n g x w v) later))
        | inr other ↦ rw other (
            cons_entries met m k x (put_entry key (put_row n g e) rest) v
              (entries-put (x.recipe_id ∷ met) m rest key n g e w (ground (arith, other)) later))
      ]

  length-put_entry :
      (key : Text) (e : Entry) (l : List (Text × Entry)) → length (put_entry key e l) ≡ length l
  unfolding put_entry
  length-put_entry key e [] = refl
  length-put_entry key e ((k, x) ∷ rest) = ground (arith, length-put_entry key e rest)

  -- What `_validate` asks of a document.
  pub record ValidDocument (d : Document) : Type 0 where
    pub few_attempts : length d.attempts ≤ bounds.max_attempts
    pub met : List Text
    pub entries : validate_entries p bounds [] d.attempts ≡ ok met
    pub few_recipes : distinct met ≤ max_recipes

  pub document-Valid :
      (d r : Document) → validate_document p bounds d ≡ ok r → ValidDocument d × (r ≡ d)
  unfolding validate_document
  document-Valid d r h = elim (Result-cases (validate_entries p bounds [] d.attempts)) [
    | inl (m, found) ↦ (
      record {
        few_attempts = ground (arith, found);
        met = m;
        entries = found;
        few_recipes = ground (arith, found);
      },
      ground (arith, found),
    )
    | inr (e, failed) ↦ absurd (ground (arith, failed))
  ]

  pub Valid-document : (d : Document) → ValidDocument d → validate_document p bounds d ≡ ok d
  unfolding validate_document
  Valid-document d v =
      let few = v.few_attempts in
      let entries = v.entries in let recipes = v.few_recipes in ground arith

  pub Valid-put :
      (d : Document) (key : Text) (n : ℕ) (g : Generation) (e : Entry)
      → ValidDocument d
      → WellFormed p.iso n g
      → find_entry key d.attempts ≡ some e
      → ValidDocument (record d { attempts = put_entry key (put_row n g e) d.attempts })
  Valid-put d key n g e v w found = record {
    few_attempts = omega (arith, v.few_attempts, length-put_entry key (put_row n g e) d.attempts);
    met = v.met;
    entries = entries-put [] v.met d.attempts key n g e w found v.entries;
    few_recipes = v.few_recipes;
  }

  -- An entry that is found is a valid one.
  entries-find :
      (met m : List Text) (l : List (Text × Entry)) (key : Text) (e : Entry)
      → validate_entries p bounds met l ≡ ok m
      → find_entry key l ≡ some e
      → (before : List Text) × ValidEntry before key e
  unfolding find_entry
  entries-find met m [] key e h found = cc
  entries-find met m ((k, x) ∷ rest) key e h found =
      let (v, later) = entries_cons met m k x rest h in
      elim (Bool-cases (k =t key)) [
        | inl same ↦
            let here : x ≡ e = ground (arith, same) in
            (
              met,
              subst (λ y. ValidEntry met key y) here
                  (subst (λ j. ValidEntry met j x) (=t_sound k key same) v),
            )
        | inr other ↦ entries-find (x.recipe_id ∷ met) m rest key e later (ground (arith, other))
      ]

  pub Valid-find :
      (d : Document) (key : Text) (e : Entry)
      → ValidDocument d
      → find_entry key d.attempts ≡ some e
      → (before : List Text) × ValidEntry before key e
  Valid-find d key e v found = entries-find [] v.met d.attempts key e v.entries found
