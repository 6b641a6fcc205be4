-- ===== src/Ledger/Store/Update.antt =====
-- debbuilder/automation_ledger.py: what a successful operation on one generation has done to the
-- ledger on disk.
use deb_builder.Base.{
  ℕ, zero, suc, ◌<◌, ◌≡◌, ◌≢◌, refl, sym, ap, subst, ◌∙◌, ◌⊎◌, inl, inr, true, Text, List, [], ◌∷◌,
  Option, none, some, length, get_elem?, set, arith, Result, ok, ◌=t◌, =t_sound, =t_refl,
  Bool-cases, Result-cases, >>=-eq-ok, get_elem?-set_self,
}
use deb_builder.Ledger.Row.{Error, Generation}
use deb_builder.Ledger.Rows.{Change, kept, changed, row_of}
use deb_builder.Ledger.Validate.Table.{WellFormed}
use deb_builder.Ledger.Document.{Entry, Document, validate_document}
use deb_builder.Ledger.Store.{
  Host, find_entry, put_entry, put_row, load, save, update, entry_of, row_at, write,
  update_document, update_entry, update_row,
}
use deb_builder.Ledger.Store.Valid.{
  ValidDocument, document-Valid, Valid-document, Valid-find, AllWellFormed-get,
}

-- Generation `n` of an attempt.
row_in : ℕ → Option Entry → Option Generation
row_in n none = none
row_in n (some e) = get_elem? e.generations n

unfoldable pub row? : Text → ℕ → Document → Option Generation
unfolding row_in
row? key n d = row_in n (find_entry key d.attempts)

pub save-Valid :
    (h : Host) (d r : Document) → save h d ≡ ok r → ValidDocument h.platform h.bounds r × (r ≡ d)
unfolding save
save-Valid h d r e = elim (Result-cases (validate_document h.platform h.bounds d)) [
  | inl (x, found) ↦
      let (valid, same) = document-Valid h.platform h.bounds d x found in
      let whole : r ≡ d = ground (arith, found, same) in (rw whole valid, whole)
  | inr (x, failed) ↦ absurd (ground (arith, failed))
]

pub load-Valid :
    (h : Host) (d r : Document) → load h d ≡ ok r → ValidDocument h.platform h.bounds r × (r ≡ d)
unfolding load
load-Valid h d r e =
    let (valid, same) = document-Valid h.platform h.bounds d r e in (rw same valid, same)

pub Valid-load : (h : Host) (d : Document) → ValidDocument h.platform h.bounds d → load h d ≡ ok d
unfolding load
Valid-load h d v = Valid-document h.platform h.bounds d v

-- What a successful `update` has read and written.
pub record Updated (h : Host) (key : Text) (n : ℕ) (f : Entry → Generation → Result Error Change)
    (disk after : Document) (g : Generation) : Type 0 where
  pub valid : ValidDocument h.platform h.bounds disk
  pub entry : Entry
  pub old : Generation
  pub change : Change
  pub found : find_entry key disk.attempts ≡ some entry
  pub row : get_elem? entry.generations n ≡ some old
  pub changes : f entry old ≡ ok change
  pub reply : g ≡ row_of change
  pub written :
      ((change ≡ kept g) × (after ≡ disk))
      ⊎ ((change ≡ changed g)
          × (after ≡ record disk { attempts = put_entry key (put_row n g entry) disk.attempts })
          × ValidDocument h.platform h.bounds after)

write_cases :
    (h : Host) (key : Text) (n : ℕ) (e : Entry) (d after : Document) (c : Change) (g : Generation)
    → write h key n e d c ≡ ok (g, after)
    → (g ≡ row_of c)
      × (((c ≡ kept g) × (after ≡ d))
          ⊎ ((c ≡ changed g)
              × (after ≡ record d { attempts = put_entry key (put_row n g e) d.attempts })
              × ValidDocument h.platform h.bounds after))
unfolding write
write_cases h key n e d after (kept x) g w = ground arith
write_cases h key n e d after (changed x) g w =
    let new : Document = record d { attempts = put_entry key (put_row n x e) d.attempts } in
    elim (Result-cases (save h new)) [
      | inl (y, saved) ↦
          let (valid, same) = save-Valid h new y saved in
          let row : g ≡ x = ground (arith, saved) in
          let disk : after ≡ y = ground (arith, saved) in
          (row, inr (ap changed (sym row), rw row (disk ∙ same), rw disk valid))
      | inr (y, failed) ↦ absurd (ground (arith, failed))
    ]

entry_of_sound :
    (h : Host) (key : Text) (d : Document) (e : Entry)
    → entry_of h key d ≡ ok e
    → find_entry key d.attempts ≡ some e
unfolding entry_of
entry_of_sound h key d e r = ground arith

row_at_sound : (h : Host) (o : Option Generation) (g : Generation) → row_at h o ≡ ok g → o ≡ some g
unfolding row_at
row_at_sound h none g r = cc
row_at_sound h (some x) g r = ground arith

update-document :
    (h : Host) (key : Text) (n : ℕ) (f : Entry → Generation → Result Error Change)
    (disk after : Document) (g : Generation)
    → update h key n f disk ≡ ok (g, after)
    → ValidDocument h.platform h.bounds disk × (update_document h key n f disk ≡ ok (g, after))
unfolding update
update-document h key n f disk after g u =
    let (d, loads, rest) = >>=-eq-ok (load h disk) (update_document h key n f) u in
    let (valid, same) = load-Valid h disk d loads in
    (
      subst (λ x. ValidDocument h.platform h.bounds x) same valid,
      subst (λ x. update_document h key n f x ≡ ok (g, after)) same rest,
    )

pub update-Updated :
    (h : Host) (key : Text) (n : ℕ) (f : Entry → Generation → Result Error Change)
    (disk after : Document) (g : Generation)
    → update h key n f disk ≡ ok (g, after)
    → Updated h key n f disk after g
unfolding update
update-Updated h key n f disk after g u =
    let (valid, u₁) = update-document h key n f disk after g u in
    let (e, found, u₂) = >>=-eq-ok (entry_of h key disk) (update_entry h key n f disk) u₁ in
    let (old, row, u₃) =
      >>=-eq-ok (row_at h (get_elem? e.generations n)) (update_row h key n f disk e) u₂ in
    let (c, changes, u₄) = >>=-eq-ok (f e old) (write h key n e disk) u₃ in
    let (reply, written) = write_cases h key n e disk after c g u₄ in
    record {
      valid = valid;
      entry = e;
      old = old;
      change = c;
      found = entry_of_sound h key disk e found;
      row = row_at_sound h (get_elem? e.generations n) old row;
      changes = changes;
      reply = reply;
      written = written;
    }

get_elem?-set_ne :
    (gs : List Generation) (n m : ℕ) (g : Generation)
    → m ≢ n
    → get_elem? (set gs n g) m ≡ get_elem? gs m
get_elem?-set_ne [] n m g ne = refl
get_elem?-set_ne (x ∷ gs) zero zero g ne = absurd (ne refl)
get_elem?-set_ne (x ∷ gs) zero (suc m) g ne = refl
get_elem?-set_ne (x ∷ gs) (suc n) zero g ne = refl
get_elem?-set_ne (x ∷ gs) (suc n) (suc m) g ne = get_elem?-set_ne gs n m g (λ e. ne (ap suc e))

pub find-put_self :
    (key : Text) (e new : Entry) (l : List (Text × Entry))
    → find_entry key l ≡ some e
    → find_entry key (put_entry key new l) ≡ some new
unfolding find_entry put_entry
find-put_self key e new [] h = cc
find-put_self key e new ((k, x) ∷ rest) h = ground (arith, find-put_self key e new rest)

pub find-put_ne :
    (key other : Text) (new : Entry) (l : List (Text × Entry))
    → other ≢ key
    → find_entry other (put_entry key new l) ≡ find_entry other l
unfolding find_entry put_entry
find-put_ne key other new [] ne = refl
find-put_ne key other new ((k, x) ∷ rest) ne =
    ground (arith, find-put_ne key other new rest ne, =t_sound k key, =t_sound k other)

get_elem?_bound :
    (gs : List Generation) (n : ℕ) (g : Generation) → get_elem? gs n ≡ some g → n < length gs
get_elem?_bound [] n g h = cc
get_elem?_bound (x ∷ gs) zero g h = omega arith
get_elem?_bound (x ∷ gs) (suc n) g h = omega (arith, get_elem?_bound gs n g h)

pub row?-found :
    (key : Text) (n : ℕ) (d : Document) (e : Entry)
    → find_entry key d.attempts ≡ some e
    → row? key n d ≡ get_elem? e.generations n
unfolding row?
row?-found key n d e h = rw h refl

module _ (h : Host) (key : Text) (n : ℕ) (f : Entry → Generation → Result Error Change)
    (disk after : Document) (g : Generation) (u : Updated h key n f disk after g) where
  pub Updated-before : row? key n disk ≡ some u.old
  Updated-before = row?-found key n disk u.entry u.found ∙ u.row

  -- The document after the write.
  put_document : Document
  put_document = record disk { attempts = put_entry key (put_row n g u.entry) disk.attempts }

  row?-put : row? key n put_document ≡ some g
  unfolding put_document
  row?-put =
      row?-found key n put_document (put_row n g u.entry)
        (find-put_self key u.entry (put_row n g u.entry) disk.attempts u.found)
      ∙ get_elem?-set_self u.entry.generations n g
          (get_elem?_bound u.entry.generations n u.old u.row)

  row?-put_key : (k : Text) (m : ℕ) → k ≢ key → row? k m put_document ≡ row? k m disk
  unfolding put_document row?
  row?-put_key k m ne = rw (find-put_ne key k (put_row n g u.entry) disk.attempts ne) refl

  row?-put_row : (m : ℕ) → m ≢ n → row? key m put_document ≡ row? key m disk
  unfolding put_document
  row?-put_row m ne =
      row?-found key m put_document (put_row n g u.entry)
        (find-put_self key u.entry (put_row n g u.entry) disk.attempts u.found)
      ∙ get_elem?-set_ne u.entry.generations n m g ne
      ∙ sym (row?-found key m disk u.entry u.found)

  row?-put_ne : (k : Text) (m : ℕ) → (k ≢ key) ⊎ (m ≢ n) → row? k m put_document ≡ row? k m disk
  row?-put_ne k m (inl ne) = row?-put_key k m ne
  row?-put_ne k m (inr ne) = elim (Bool-cases (k =t key)) [
    | inl same ↦
        subst (λ j. row? j m put_document ≡ row? j m disk) (sym (=t_sound k key same))
          (row?-put_row m ne)
    | inr other ↦
        row?-put_key k m (λ e. cc (other, subst (λ j. j =t key ≡ true) (sym e) (=t_refl key)))
  ]

  -- The ledger on disk loads again, the row that was returned stands in it, and every other row is
  -- as it was.
  pub Updated-loads : load h after ≡ ok after
  Updated-loads = elim u.written [
    | inl (c, same) ↦ rw same (Valid-load h disk u.valid)
    | inr (c, new, valid) ↦ Valid-load h after valid
  ]

  pub Updated-others : (k : Text) (m : ℕ) → (k ≢ key) ⊎ (m ≢ n) → row? k m after ≡ row? k m disk
  unfolding put_document
  Updated-others k m ne = elim u.written [
    | inl (c, same) ↦ rw same refl
    | inr (c, new, valid) ↦ rw new (row?-put_ne k m ne)
  ]

  pub Updated-row :
      ((e : Entry) (old x : Generation) → f e old ≡ ok (kept x) → x ≡ old)
      → row? key n after ≡ some g
  unfolding put_document
  Updated-row honest = elim u.written [
    | inl (c, same) ↦
        let still = honest u.entry u.old g (u.changes ∙ ap ok c) in
        rw same (Updated-before ∙ ap some (sym still))
    | inr (c, new, valid) ↦ rw new row?-put
  ]

  pub Updated-WellFormed : WellFormed h.platform.iso n u.old
  Updated-WellFormed =
      let (before, v) = Valid-find h.platform h.bounds disk key u.entry u.valid u.found in
      AllWellFormed-get h.platform.iso 0 n n u.entry.generations u.old (omega arith) v.generations
        u.row
