-- ===== src/Ledger/Claims/Kept.antt =====
-- debbuilder/automation_ledger.py: what a claim leaves in the ledger.
use deb_builder.Base.{
  ℕ, ◌≡◌, refl, subst, inl, inr, Bool, true, false, not, ◌&&◌, ◌||◌, Text, List, [], ◌∷◌, ◌++◌,
  Option, none, some, arith, ok, refuse, =t_refl, >>=-eq-ok, Result-cases, Option-cases,
}
use deb_builder.Base.Json.{Value, object}
use deb_builder.Identity.Check.{to_fields}
use deb_builder.Identity.Model.{Identity}
use deb_builder.Identity.Read.{lower_text}
use deb_builder.Identity.Normalize.{normalize, attempt_key}
use deb_builder.Ledger.Row.{
  Generation, Policy, is_manual, is_detect, policy_ineligible, recipe_changed_during_detection,
}
use deb_builder.Ledger.Validate.{timestamp}
use deb_builder.Ledger.Document.{Entry, Document, lift}
use deb_builder.Ledger.Store.{Host, load, save, find_entry}
use deb_builder.Ledger.Store.Update.{row?, save-Valid, load-Valid, Valid-load}
use deb_builder.Ledger.Claims.{
  Recipe, ClaimResult, claim, claim_locked, reuse, create, new_entry, has_history, may_claim,
  same_test,
}

-- A ledger that loads, in which every generation of an earlier one stands as it stood, and the attempt
-- of a reply stands under its key.
pub record Kept (h : Host) (disk after : Document) (r : ClaimResult) : Type 0 where
  pub loads : load h after ≡ ok after
  pub rows : (k : Text) (m : ℕ) (g : Generation) → row? k m disk ≡ some g → row? k m after ≡ some g
  pub replied : find_entry r.attempt_key after.attempts ≡ some r.entry
  pub existing : r.created ≡ false → after ≡ disk
  pub absent : r.created ≡ true → find_entry r.attempt_key disk.attempts ≡ none

find-append :
    (key k : Text) (new e : Entry) (l : List (Text × Entry))
    → find_entry k l ≡ some e
    → find_entry k (l ++ (key, new) ∷ []) ≡ some e
unfolding find_entry
find-append key k new e [] h = cc
find-append key k new e ((j, x) ∷ l) h = ground (arith, find-append key k new e l)

find-append_new :
    (key : Text) (new : Entry) (l : List (Text × Entry))
    → find_entry key l ≡ none
    → find_entry key (l ++ (key, new) ∷ []) ≡ some new
unfolding find_entry
find-append_new key new [] h = ground (arith, =t_refl key)
find-append_new key new ((j, x) ∷ l) h = ground (arith, find-append_new key new l)

row?-append :
    (key : Text) (new : Entry) (d : Document) (k : Text) (m : ℕ) (g : Generation)
    → row? k m d ≡ some g
    → row? k m (record { attempts = d.attempts ++ (key, new) ∷ [] }) ≡ some g
unfolding row?
row?-append key new d k m g h = elim (Option-cases (find_entry k d.attempts)) [
  | inl missing ↦ absurd (ground (arith, missing))
  | inr (e, found) ↦
      let there = find-append key k new e d.attempts found in rw there (rw found at h)
]

reuse-reply :
    (h : Host) (policy : Policy) (key : Text) (e : Entry) (d after : Document) (r : ClaimResult)
    → reuse h policy key e d ≡ ok (r, after)
    → (after ≡ d) × (r.created ≡ false) × (r.attempt_key ≡ key) × (r.entry ≡ e)
unfolding reuse
reuse-reply h policy key e d after r done = ground arith

reuse-Kept :
    (h : Host) (policy : Policy) (key : Text) (e : Entry) (d after : Document) (r : ClaimResult)
    → load h d ≡ ok d
    → find_entry key d.attempts ≡ some e
    → reuse h policy key e d ≡ ok (r, after)
    → Kept h d after r
reuse-Kept h policy key e d after r loads found done =
    let (same, old, at, entry) = reuse-reply h policy key e d after r done in
    record {
      loads = rw same loads;
      rows = λ k m g there. rw same there;
      replied = rw (same, at, entry) found;
      existing = λ _. same;
      absent = λ fresh. absurd (cc (old, fresh));
    }

create-reply :
    (h : Host) (e : Entry) (d after : Document) (r : ClaimResult)
    → create h e d ≡ ok (r, after)
    → (save h (record { attempts = d.attempts ++ (e.key, e) ∷ [] }) ≡ ok after)
      × (r.created ≡ true)
      × (r.attempt_key ≡ e.key)
      × (r.entry ≡ e)
unfolding create
create-reply h e d after r done =
    elim (Result-cases (save h (record { attempts = d.attempts ++ (e.key, e) ∷ [] }))) [
      | inl (x, saved) ↦ ground (arith, saved)
      | inr (x, failed) ↦ absurd (ground (arith, failed))
    ]

create-Kept :
    (h : Host) (e : Entry) (d after : Document) (r : ClaimResult)
    → find_entry e.key d.attempts ≡ none
    → create h e d ≡ ok (r, after)
    → Kept h d after r
create-Kept h e d after r missing done =
    let (saved, fresh, at, entry) = create-reply h e d after r done in
    let (valid, same) =
      save-Valid h (record { attempts = d.attempts ++ (e.key, e) ∷ [] }) after saved in
    record {
      loads = Valid-load h after valid;
      rows = λ k m g there. rw same (row?-append e.key e d k m g there);
      replied = rw (same, at, entry) (find-append_new e.key e d.attempts missing);
      existing = λ old. absurd (cc (old, fresh));
      absent = λ _. rw at missing;
    }

choice-Kept :
    (h : Host) (policy : Policy) (key : Text) (e : Entry) (d after : Document) (r : ClaimResult)
    → e.key ≡ key
    → load h d ≡ ok d
    → elim (find_entry key d.attempts) [
      | some existing ↦ reuse h policy key existing d
      | none ↦ create h e d
    ]
      ≡ ok (r, after)
    → Kept h d after r
choice-Kept h policy key e d after r at loads done =
    elim (Option-cases (find_entry key d.attempts)) [
      | inl missing ↦ create-Kept h e d after r (rw at missing) (rw missing at done)
      | inr (x, found) ↦ reuse-Kept h policy key x d after r loads found (rw found at done)
    ]

claim_locked-Kept :
    (h : Host) (now key recipe_id sha : Text) (i : Identity) (policy : Policy) (detected : Text)
    (detect_only first : Bool) (current : Option Recipe) (disk after : Document) (r : ClaimResult)
    → claim_locked h now key recipe_id sha i policy detected detect_only first current disk
      ≡ ok (r, after)
    → Kept h disk after r
unfolding claim_locked
claim_locked-Kept h now key recipe_id sha i policy detected detect_only first none disk after r
      done =
    cc
claim_locked-Kept h now key recipe_id sha i policy detected detect_only first (some x) disk after r
      done =
    let (_, _, h1) =
      >>=-eq-ok
        (refuse (not (may_claim h.platform recipe_id sha policy x)) recipe_changed_during_detection)
        _ done in
    let (d, loads, h2) = >>=-eq-ok (load h disk) _ h1 in
    let baseline = first && not (has_history recipe_id (lower_text h.platform sha) d.attempts) in
    let e =
      new_entry h now key recipe_id sha i policy detected (detect_only || baseline) baseline in
    let (valid, same) = load-Valid h disk d loads in
    subst (λ (x : Document). Kept h x after r) same
      (choice-Kept h policy key e d after r (unfold new_entry in refl) (Valid-load h d valid) h2)

-- After a claim that succeeds the ledger loads, every generation that was there stands as it stood, and
-- the attempt of the reply stands under its key. A claim of an attempt that was there changes nothing,
-- and one that is created was not there.
pub claim_lem :
    (h : Host) (now recipe_id : Text) (identity : Value) (sha : Text) (policy : Policy)
    (detect_only : Bool) (detected : Text) (first : Bool) (current : Option Recipe)
    (disk after : Document) (r : ClaimResult)
    → claim h now recipe_id identity sha policy detect_only detected first current disk
      ≡ ok (r, after)
    → Kept h disk after r
unfolding claim
claim_lem h now recipe_id identity sha policy detect_only detected first current disk after r done =
    let (_, _, h1) =
      >>=-eq-ok
        (refuse (is_manual policy || not (same_test detect_only (is_detect policy)))
          policy_ineligible)
        _ done in
    let (i, _, h2) = >>=-eq-ok (lift (normalize h.platform identity)) _ h1 in
    let (key, _, h3) =
      >>=-eq-ok (lift (attempt_key h.platform recipe_id (object (to_fields i)) sha)) _ h2 in
    let (_, _, h4) = >>=-eq-ok (timestamp h.platform.iso detected) _ h3 in
    claim_locked-Kept h now key recipe_id sha i policy detected detect_only first current disk after
      r h4
