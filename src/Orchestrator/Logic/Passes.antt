-- ===== src/Orchestrator/Logic/Passes.antt =====
-- debbuilder/automation_orchestrator.py: `advance` and `advance_all` over the whole ledger.
use deb_builder.Base.{
  ℕ, ◌≡◌, ◌≢◌, ◌⊎◌, refl, ◌∙◌, ap, inl, inr, true, Text, List, [], ◌∷◌, none, some, Result, ok, err,
  get_elem?, Option-cases, Result-cases,
}
use deb_builder.Ledger.Row.{Generation, Policy}
use deb_builder.Ledger.Rows.Lifecycle.{here}
use deb_builder.Ledger.Document.{Entry, Document}
use deb_builder.Ledger.Store.{Host, load, find_entry}
use deb_builder.Ledger.Store.Update.{row?, row?-found}
use deb_builder.Ledger.Store.Commands.{Call, run_call, run_call_lem}
use deb_builder.Ledger.Store.Histories.{
  exec, exec_all, exec_all-loads, exec_all-Lives, Lives, Reach-trans,
}
use deb_builder.Orchestrator.Services.{Services, Raised}
use deb_builder.Orchestrator.Effects.{System, Action, give, ◌>>=◌, ◌>>◌, read_ledger, raised}
use deb_builder.Orchestrator.Authority.{Turn, active_turns}
use deb_builder.Orchestrator.Advancing.{
  advance, advance_raising, advance_entry, advance_each, advance_all, sort_turns,
}
use deb_builder.Orchestrator.Logic.{AllOwn}
use deb_builder.Orchestrator.Logic.Advancing.{advance_lem, advance-raising, bind-ok, found-key}
use deb_builder.Orchestrator.Logic.Invariant.{AllWithin, exec_all-AllWithin}

module _ {W : Type 0} (h : Host) (v : Services W) where
  exec-other :
      (e : Entry) (n : ℕ) (c : Call) (d : Document) (k : Text) (m : ℕ)
      → (k ≢ e.key) ⊎ (m ≢ n)
      → row? k m (exec h (e.key, n, c) d) ≡ row? k m d
  unfolding exec
  exec-other e n c d k m ne = elim (Result-cases (run_call h e.key n c d)) [
    | inr (x, r) ↦ rw r refl
    | inl (pair, r) ↦
        let (loads, now, stepped, others) = run_call_lem h e.key n c d pair.1 pair.0 r in
        rw r (others k m ne)
  ]

  -- Calls on one generation leave every other row as it was.
  exec_all-others :
      (e : Entry) (p : Policy) (Came : Generation → Type 0) (n : ℕ) (calls : List (Text × ℕ × Call))
      (d : Document) (k : Text) (m : ℕ)
      → AllOwn v e p Came n calls
      → (k ≢ e.key) ⊎ (m ≢ n)
      → row? k m (exec_all h calls d) ≡ row? k m d
  unfolding exec_all
  exec_all-others e p Came n [] d k m own ne = refl
  exec_all-others e p Came n ((k', m', c) ∷ rest) d k m (a, b, fits, own) ne =
      rw (a, b)
        (exec_all-others e p Came n rest (exec h (e.key, n, c) d) k m own ne
          ∙ exec-other e n c d k m ne)

  module _ (depth : ℕ) where
    -- A generation that is not there is left alone.
    absent_same :
        (key : Text) (n : ℕ) (s : System W)
        → load h s.disk ≡ ok s.disk
        → advance_entry h v depth s.disk key n (find_entry key s.disk.attempts) ≡ give tt
        → (advance h v depth key n s).1 ≡ s
    absent_same key n s loads absent =
        advance-raising h v depth key n s
        ∙ unfold advance_raising give in
          ap (λ q. q.1)
            (bind-ok h v depth (read_ledger h v)
                (λ d. advance_entry h v depth d key n (find_entry key d.attempts)) s s.disk
                (unfold read_ledger in ap (λ r. (raised r, s)) loads)
              ∙ ap (λ m. m s) absent)

    no_entry :
        (key : Text) (n : ℕ) (s : System W)
        → load h s.disk ≡ ok s.disk
        → find_entry key s.disk.attempts ≡ none
        → (advance h v depth key n s).1 ≡ s
    unfolding advance_entry
    no_entry key n s loads found = absent_same key n s loads (rw found refl)

    no_row :
        (key : Text) (n : ℕ) (s : System W) (e : Entry)
        → load h s.disk ≡ ok s.disk
        → find_entry key s.disk.attempts ≡ some e
        → get_elem? e.generations n ≡ none
        → (advance h v depth key n s).1 ≡ s
    unfolding advance_entry
    no_row key n s e loads found row =
        absent_same key n s loads (rw found (rw (advance_entry, row) refl))

    -- The ledger after a pass: it loads, all rows are at stages that their policies ask for, and every
    -- row has lived on.
    pub record Kept (before after : Document) : Type 0 where
      pub loads : load h after ≡ ok after
      pub within : AllWithin after
      pub lives :
          (key : Text) (n : ℕ) (g : Generation) → row? key n before ≡ some g → Lives h key n g after

    Kept-refl : (d : Document) → load h d ≡ ok d → AllWithin d → Kept d d
    Kept-refl d loads within = record {
      loads = loads;
      within = within;
      lives = λ key n g found. (g, found, here);
    }

    Kept-trans : (a b c : Document) → Kept a b → Kept b c → Kept a c
    Kept-trans a b c x y = record {
      loads = y.loads;
      within = y.within;
      lives = λ key n g found.
          let (g₁, found₁, r₁) = x.lives key n g found in
          let (g₂, found₂, r₂) = y.lives key n g₁ found₁ in (g₂, found₂, Reach-trans r₁ r₂);
    }

    advance_row-Kept :
        (key : Text) (n : ℕ) (s : System W) (e : Entry) (g : Generation)
        → load h s.disk ≡ ok s.disk
        → AllWithin s.disk
        → find_entry key s.disk.attempts ≡ some e
        → get_elem? e.generations n ≡ some g
        → Kept s.disk (advance h v depth key n s).1.disk
    advance_row-Kept key n s e g loads within found row =
        let at : row? key n s.disk ≡ some g = row?-found key n s.disk e found ∙ row in
        let same = found-key h s.disk key e loads found in
        let (calls, own, eq) =
          advance_lem h v depth key n s e g loads found row (within key n g at) in
        rw eq (record {
          loads = exec_all-loads h calls s.disk loads;
          within = exec_all-AllWithin h v _ e n calls s.disk g loads (rw same at) own within;
          lives = λ k m x is. exec_all-Lives h calls s.disk k m x is;
        })

    pub advance-Kept :
        (key : Text) (n : ℕ) (s : System W)
        → load h s.disk ≡ ok s.disk
        → AllWithin s.disk
        → Kept s.disk (advance h v depth key n s).1.disk
    advance-Kept key n s loads within = elim (Option-cases (find_entry key s.disk.attempts)) [
      | inl none_found ↦
          let same = no_entry key n s loads none_found in rw same (Kept-refl s.disk loads within)
      | inr (e, found) ↦ elim (Option-cases (get_elem? e.generations n)) [
        | inr (g, row) ↦ advance_row-Kept key n s e g loads within found row
        | inl none_found ↦
            let same = no_row key n s e loads found none_found in
            rw same (Kept-refl s.disk loads within)
      ]
    ]

    then_from :
        {A : Type 0} (d : Document) (q : Result Raised A × System W) (k : A → Action W (Unit {0}))
        → Kept d q.1.disk
        → ((a : A) (s : System W)
            → q.0 ≡ ok a
            → load h s.disk ≡ ok s.disk
            → AllWithin s.disk
            → Kept s.disk (k a s).1.disk)
        → let m : Action W A = λ _. q in Kept d ((m >>= k) q.1).1.disk
    unfolding ◌>>=◌
    then_from d (ok a, s) k kept next =
        Kept-trans d s.disk (k a s).1.disk kept (next a s refl kept.loads kept.within)
    then_from d (err x, s) k kept next = kept

    advance_each-Kept :
        (turns : List Turn) (s : System W)
        → load h s.disk ≡ ok s.disk
        → AllWithin s.disk
        → Kept s.disk (advance_each h v depth turns s).1.disk
    unfolding advance_each ◌>>◌ ◌>>=◌
    advance_each-Kept [] s loads within = unfold give in Kept-refl s.disk loads within
    advance_each-Kept ((created, key, n) ∷ rest) s loads within =
        then_from s.disk (advance h v depth key n s) (λ _. advance_each h v depth rest)
          (advance-Kept key n s loads within)
          (λ a s' eq loads' within'. advance_each-Kept rest s' loads' within')

    -- From a ledger that loads, with every row at a stage that its policy asks for, a pass over all
    -- active claims leaves such a ledger, whatever the collaborators answer or raise, and every row of
    -- it has lived on by operations that the ledger accepted.
    pub advance_all_lem :
        (s : System W)
        → load h s.disk ≡ ok s.disk
        → AllWithin s.disk
        → Kept s.disk (advance_all h v depth s).1.disk
    unfolding advance_all read_ledger ◌>>=◌
    advance_all_lem s loads within =
        then_from s.disk (read_ledger h v s)
          (λ d. advance_each h v depth (sort_turns (active_turns (λ _. true) d.attempts)))
          (Kept-refl s.disk loads within)
          (λ d s' eq loads' within'. advance_each-Kept _ s' loads' within')

  -- `advance` of a generation changes no other row of the ledger.
  pub advance-others :
      (depth : ℕ) (key : Text) (n : ℕ) (s : System W) (k : Text) (m : ℕ)
      → load h s.disk ≡ ok s.disk
      → AllWithin s.disk
      → (k ≢ key) ⊎ (m ≢ n)
      → row? k m (advance h v depth key n s).1.disk ≡ row? k m s.disk
  advance-others depth key n s k m loads within ne =
      elim (Option-cases (find_entry key s.disk.attempts)) [
        | inl none_found ↦ rw (no_entry depth key n s loads none_found) refl
        | inr (e, found) ↦ elim (Option-cases (get_elem? e.generations n)) [
          | inl none_found ↦ rw (no_row depth key n s e loads found none_found) refl
          | inr (g, row) ↦
              let at : row? key n s.disk ≡ some g = row?-found key n s.disk e found ∙ row in
              let (calls, own, eq) =
                advance_lem h v depth key n s e g loads found row (within key n g at) in
              let same = found-key h s.disk key e loads found in
              rw eq (exec_all-others e g.desired_policy _ n calls s.disk k m own (rw same ne))
        ]
      ]
