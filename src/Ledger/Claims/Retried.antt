-- ===== src/Ledger/Claims/Retried.antt =====
-- debbuilder/automation_ledger.py: what an explicit retry leaves in the ledger.
use deb_builder.Base.{
  ℕ, zero, suc, ◌≡◌, ◌≢◌, refl, sym, subst, ◌∙◌, inl, inr, Bool, true, false, not, Text, List, [],
  ◌∷◌, ◌++◌, Option, none, some, arith, ok, refuse, ◌=t◌, =t_refl, =t_sound, >>=-eq-ok,
  Result-cases, Bool-cases, length, get_elem?, get_last?, if◌then◌else◌,
}
use deb_builder.Ledger.Row.{Generation, attempt_not_found}
use deb_builder.Ledger.Rows.{new_generation}
use deb_builder.Ledger.Document.{Entry, Document}
use deb_builder.Ledger.Store.{Host, load, save, find_entry, put_entry}
use deb_builder.Ledger.Store.Update.{
  row?, row?-found, save-Valid, load-Valid, Valid-load, find-put_self, find-put_ne,
}
use deb_builder.Ledger.Claims.{
  Recipe, ClaimResult, explicit_retry, grant, repeated, check_retry, check_retry_recipe, or_missing,
}

-- A ledger that loads, in which every generation of an earlier one stands as it stood. A retry that is
-- created has added the generation of the reply, which is claimed and new.
pub record Retried (h : Host) (now key : Text) (disk after : Document) (r : ClaimResult)
    : Type 0 where
  pub loads : load h after ≡ ok after
  pub rows : (k : Text) (m : ℕ) (g : Generation) → row? k m disk ≡ some g → row? k m after ≡ some g
  pub repeats : r.created ≡ false → after ≡ disk
  pub granted :
      r.created ≡ true
      → (last : Generation) × (row? key r.generation disk ≡ none)
        × (row? key r.generation after
            ≡ some (new_generation now last.desired_policy last.detected_at r.generation))

get_elem?-append :
    (gs : List Generation) (m : ℕ) (g new : Generation)
    → get_elem? gs m ≡ some g
    → get_elem? (gs ++ new ∷ []) m ≡ some g
get_elem?-append [] m g new h = cc
get_elem?-append (x ∷ gs) zero g new h = h
get_elem?-append (x ∷ gs) (suc m) g new h = get_elem?-append gs m g new h

get_elem?-append_new :
    (gs : List Generation) (new : Generation) → get_elem? (gs ++ new ∷ []) (length gs) ≡ some new
get_elem?-append_new [] new = refl
get_elem?-append_new (x ∷ gs) new = get_elem?-append_new gs new

get_elem?-length : (gs : List Generation) → get_elem? gs (length gs) ≡ none
get_elem?-length [] = refl
get_elem?-length (x ∷ gs) = get_elem?-length gs

-- The entry with one generation more.
abbrev with_new : Entry → Generation → Entry
with_new e new = record e { generations = e.generations ++ new ∷ [] }

abbrev put_new : Text → Entry → Generation → Document → Document
put_new key e new d = record d { attempts = put_entry key (with_new e new) d.attempts }

row?-put_new :
    (key : Text) (e : Entry) (new : Generation) (d : Document)
    → find_entry key d.attempts ≡ some e
    → (k : Text) (m : ℕ) (g : Generation) → row? k m d ≡ some g
    → row? k m (put_new key e new d) ≡ some g
row?-put_new key e new d found k m g h = elim (Bool-cases (k =t key)) [
  | inl same ↦
      let at : k ≡ key = =t_sound k key same in
      subst (λ j. row? j m d ≡ some g → row? j m (put_new key e new d) ≡ some g) (sym at)
        (λ there.
          row?-found key m (put_new key e new d) (with_new e new)
            (find-put_self key e (with_new e new) d.attempts found)
          ∙ get_elem?-append e.generations m g new (sym (row?-found key m d e found) ∙ there))
        h
  | inr other ↦
      let ne : k ≢ key = λ same. cc (other, subst (λ j. k =t j ≡ true) same (=t_refl k)) in
      unfold row? in rw (find-put_ne key k (with_new e new) d.attempts ne) h
]

granted_row : Text → Entry → Generation → Generation
granted_row now e latest =
    new_generation now latest.desired_policy latest.detected_at (length e.generations)

grant-reply :
    (h : Host) (now key : Text) (e : Entry) (latest : Generation) (d after : Document)
    (r : ClaimResult)
    → grant h now key e latest d ≡ ok (r, after)
    → (save h (put_new key e (granted_row now e latest) d) ≡ ok after)
      × (r.created ≡ true)
      × (r.generation ≡ length e.generations)
unfolding grant granted_row
grant-reply h now key e latest d after r done =
    elim (Result-cases (save h (put_new key e (granted_row now e latest) d))) [
      | inl (x, saved) ↦ ground (arith, saved)
      | inr (x, failed) ↦ absurd (ground (arith, failed))
    ]

grant-Retried :
    (h : Host) (now key : Text) (e : Entry) (latest : Generation) (d after : Document)
    (r : ClaimResult)
    → find_entry key d.attempts ≡ some e
    → grant h now key e latest d ≡ ok (r, after)
    → Retried h now key d after r
unfolding granted_row
grant-Retried h now key e latest d after r found done =
    let (saved, fresh, n) = grant-reply h now key e latest d after r done in
    let new = granted_row now e latest in
    let (valid, same) = save-Valid h (put_new key e new d) after saved in
    record {
      loads = Valid-load h after valid;
      rows = λ k m g there. rw same (row?-put_new key e new d found k m g there);
      repeats = λ old. absurd (cc (old, fresh));
      granted = λ _. (
        latest,
        rw n (row?-found key (length e.generations) d e found ∙ get_elem?-length e.generations),
        rw (same, n)
            (row?-found key (length e.generations) (put_new key e new d) (with_new e new)
                (find-put_self key e (with_new e new) d.attempts found)
              ∙ get_elem?-append_new e.generations new),
      );
    }

or_missing-ok : {A : Type 0} (x : Option A) {a : A} → or_missing x ≡ ok a → x ≡ some a
unfolding or_missing
or_missing-ok none h = cc
or_missing-ok (some a) h = ground arith

answer-Retried :
    (h : Host) (now key : Text) (e : Entry) (latest : Generation) (duplicate : Bool)
    (d after : Document) (r : ClaimResult)
    → load h d ≡ ok d
    → find_entry key d.attempts ≡ some e
    → (if duplicate then ok (repeated h key e latest, d) else grant h now key e latest d)
      ≡ ok (r, after)
    → Retried h now key d after r
unfolding repeated
answer-Retried h now key e latest false d after r loads found done =
    grant-Retried h now key e latest d after r found done
answer-Retried h now key e latest true d after r loads found done =
    let same : after ≡ d = ground arith in
    let old : r.created ≡ false = ground arith in
    record {
      loads = rw same loads;
      rows = λ k m g there. rw same there;
      repeats = λ _. same;
      granted = λ fresh. absurd (cc (old, fresh));
    }

-- After an explicit retry that succeeds the ledger loads and every generation that was there stands as
-- it stood. A retry that only repeats an earlier one changes nothing, and one that is created has added
-- the generation of its reply, which was not there and is new.
pub explicit_retry_lem :
    (h : Host) (now recipe_id key : Text) (expected : ℕ) (seen : Option Text)
    (current : Option Recipe) (disk after : Document) (r : ClaimResult)
    → explicit_retry h now recipe_id key expected seen current disk ≡ ok (r, after)
    → Retried h now key disk after r
unfolding explicit_retry
explicit_retry_lem h now recipe_id key expected seen current disk after r done =
    let (d, loads, h1) = >>=-eq-ok (load h disk) _ done in
    let (e, found, h2) = >>=-eq-ok (or_missing (find_entry key d.attempts)) _ h1 in
    let (_, _, h3) = >>=-eq-ok (refuse (not (e.recipe_id =t recipe_id)) attempt_not_found) _ h2 in
    let (latest, _, h4) = >>=-eq-ok (or_missing (get_last? e.generations)) _ h3 in
    let (duplicate, _, h5) =
      >>=-eq-ok (check_retry h recipe_id key expected seen e latest d) _ h4 in
    let (_, _, h6) = >>=-eq-ok (check_retry_recipe h recipe_id e latest current) _ h5 in
    let (valid, same) = load-Valid h disk d loads in
    subst (λ (x : Document). Retried h now key x after r) same
      (answer-Retried h now key e latest duplicate d after r (Valid-load h d valid)
        (or_missing-ok (find_entry key d.attempts) found) h6)
