-- ===== src/Ledger/Claims.antt =====
-- debbuilder/automation_ledger.py: `claim_current_recipe` and `explicit_retry_current_recipe`, which
-- add an attempt or a generation while the Recipe's lease is held.
pub mod Kept
pub mod Retried
use deb_builder.Base.{
  ℕ, suc, ◌+◌, Bool, true, false, not, ◌&&◌, ◌||◌, Text, List, [], ◌∷◌, ◌++◌, Option, none, some,
  length, get_elem?, get_last?, leb, Result, ok, err, ◌>>=◌, ◌>>◌, refuse, ◌=t◌, ◌==◌,
  if◌then◌else◌, text_less,
}
use deb_builder.Base.Json.{Value, object}
use deb_builder.Platform.{Platform}
use deb_builder.Identity.Model.{Identity}
use deb_builder.Identity.Check.{to_fields}
use deb_builder.Identity.Read.{lower_text}
use deb_builder.Identity.Normalize.{normalize, attempt_key}
use deb_builder.Ledger.Row.{
  Error, Generation, Policy, policy_ineligible, policy_mismatch, ledger_bounds_exceeded,
  attempt_not_found, retry_stale, retry_not_terminal, recipe_stale, recipe_changed_during_detection,
  same_policy, is_manual, is_detect, is_ended, max_generations,
}
use deb_builder.Ledger.Rows.{new_generation, settle}
use deb_builder.Ledger.Validate.{timestamp}
use deb_builder.Ledger.Document.{Entry, Document, lift}
use deb_builder.Ledger.Store.{Host, load, save, find_entry, put_entry}

-- What the guards read of a stored Recipe: `automation` is null where it is no object.
pub record Automation : Type 0 where
  pub enabled : Bool
  pub policy : Policy

pub record Recipe : Type 0 where
  pub name : Text
  pub sha256 : Text
  pub active : Bool
  pub automation : Option Automation

pub record ClaimResult : Type 0 where
  pub created : Bool
  pub attempt_key : Text
  pub generation : ℕ
  pub entry : Entry

abbrev pub automation_is : (Automation → Bool) → Option Automation → Bool
automation_is test none = false
automation_is test (some a) = test a

-- The guard of a claim on the live Recipe.
abbrev pub may_claim : Platform → Text → Text → Policy → Recipe → Bool
may_claim p recipe_id sha policy r =
    r.name =t recipe_id
    && r.sha256 =t lower_text p sha
    && r.active
    && automation_is (λ a. a.enabled && same_policy a.policy policy) r.automation

-- sum(entry["recipe_id"] == recipe_id for entry in …)
unfoldable pub attempts_of : Text → List (Text × Entry) → ℕ
attempts_of recipe_id [] = 0
attempts_of recipe_id ((k, e) ∷ rest) =
    let n = attempts_of recipe_id rest in if e.recipe_id =t recipe_id then suc n else n

-- any(previous has this Recipe and this revision)
abbrev pub has_history : Text → Text → List (Text × Entry) → Bool
has_history recipe_id sha [] = false
has_history recipe_id sha ((k, e) ∷ rest) =
    (e.recipe_id =t recipe_id && e.recipe_sha256 =t sha) || has_history recipe_id sha rest

first_times : List Generation → Text × Text
first_times [] = ([], [])
first_times (g ∷ rest) = (g.detected_at, g.created_at)

is_older : Entry → Entry → Bool
unfolding first_times
is_older a b =
    let (detected_a, created_a) = first_times a.generations in
    let (detected_b, created_b) = first_times b.generations in
    text_less detected_a detected_b
    || (detected_a =t detected_b
        && (text_less created_a created_b || (created_a =t created_b && text_less a.key b.key)))

-- The first maximum of the Recipe's attempts by detection time, creation time and key.
unfoldable pub newest : Text → Entry → List (Text × Entry) → Entry
unfolding is_older
newest recipe_id best [] = best
newest recipe_id best ((k, e) ∷ rest) =
    newest recipe_id (if e.recipe_id =t recipe_id && is_older best e then e else best) rest

-- `max(candidates, key=…)`; there is a candidate, the attempt itself
unfoldable pub newest_of : Text → Entry → List (Text × Entry) → Entry
newest_of recipe_id e [] = e
newest_of recipe_id e ((k, x) ∷ rest) =
    let others = newest_of recipe_id e rest in
    if x.recipe_id =t recipe_id then newest recipe_id x rest else others

unfoldable pub or_missing : {A : Type 0} → Option A → Result Error A
or_missing none = err attempt_not_found
or_missing (some a) = ok a

abbrev pub same_test : Bool → Bool → Bool
same_test true b = b
same_test false b = not b

module _ (h : Host) where
  open h use {platform, bounds}

  -- An attempt that is there already.
  unfoldable pub reuse : Policy → Text → Entry → Document → Result Error (ClaimResult × Document)
  unfolding or_missing
  reuse policy key e d = do
    latest ← or_missing (get_last? e.generations)
    refuse (not (same_policy latest.desired_policy policy)) policy_mismatch
    ok (record { created = false; attempt_key = key; generation = latest.generation; entry = e }, d)

  -- `_new_entry`, and for an attempt that only observes its settled row; `now` is every reading of the
  -- clock while the entry is made
  unfoldable pub new_entry :
      Text → Text → Text → Text → Identity → Policy → Text → Bool → Bool → Entry
  new_entry now key recipe_id sha i policy detected settled baseline =
      let g = new_generation now policy detected 0 in
      record {
        key = key;
        recipe_id = recipe_id;
        recipe_sha256 = lower_text platform sha;
        upstream_identity = i;
        generations = (if settled then settle now baseline g else g) ∷ [];
      }

  unfoldable pub create : Entry → Document → Result Error (ClaimResult × Document)
  create e d = do
    refuse (leb bounds.max_attempts (length d.attempts)) ledger_bounds_exceeded
    refuse (leb bounds.max_attempts_per_recipe (attempts_of e.recipe_id d.attempts))
        ledger_bounds_exceeded
    d' ← save h (record { attempts = d.attempts ++ (e.key, e) ∷ [] })
    ok (record { created = true; attempt_key = e.key; generation = 0; entry = e }, d')

  -- The part of a claim under both leases; `current` is null where the Recipe cannot be read.
  unfoldable pub claim_locked :
      Text
      → Text
      → Text
      → Text
      → Identity
      → Policy
      → Text
      → Bool
      → Bool
      → Option Recipe
      → Document
      → Result Error (ClaimResult × Document)
  claim_locked now key recipe_id sha i policy detected detect_only first none disk =
      err recipe_changed_during_detection
  claim_locked now key recipe_id sha i policy detected detect_only first (some r) disk = do
    refuse (not (may_claim platform recipe_id sha policy r)) recipe_changed_during_detection
    d ← load h disk
    let baseline = first && not (has_history recipe_id (lower_text platform sha) d.attempts)
    let e = new_entry now key recipe_id sha i policy detected (detect_only || baseline) baseline
    elim (find_entry key d.attempts) [
      | some existing ↦ reuse policy key existing d
      | none ↦ create e d
    ]

  -- claim_current_recipe; `detected_at or utc_now()` is given
  unfoldable pub claim :
      Text
      → Text
      → Value
      → Text
      → Policy
      → Bool
      → Text
      → Bool
      → Option Recipe
      → Document
      → Result Error (ClaimResult × Document)
  unfolding claim_locked reuse create new_entry
  claim now recipe_id identity sha policy detect_only detected first current disk = do
    refuse (is_manual policy || not (same_test detect_only (is_detect policy))) policy_ineligible
    i ← lift (normalize platform identity)
    key ← lift (attempt_key platform recipe_id (object (to_fields i)) sha)
    _ ← timestamp platform.iso detected
    claim_locked now key recipe_id sha i policy detected detect_only first current disk

  -- The tests of a retry that read the ledger alone; the reply is whether the request is a duplicate
  -- of one that was granted.
  unfoldable pub check_retry :
      Text → Text → ℕ → Option Text → Entry → Generation → Document → Result Error Bool
  unfolding or_missing
  check_retry recipe_id key expected seen e latest d = do
    refuse (not ((newest_of recipe_id e d.attempts).key =t key)) retry_stale
    let duplicate = latest.generation == expected + 1
    refuse (not duplicate && not (latest.generation == expected)) retry_stale
    observed ← or_missing (if duplicate then get_elem? e.generations expected else some latest)
    refuse (elim seen [ none ↦ false | some t ↦ not (observed.updated_at =t t) ]) retry_stale
    refuse (not duplicate && not (is_ended latest.state)) retry_not_terminal
    refuse (not duplicate && leb max_generations (length e.generations)) ledger_bounds_exceeded
    ok duplicate

  -- The guard of a retry on the live Recipe.
  unfoldable pub check_retry_recipe :
      Text → Entry → Generation → Option Recipe → Result Error (Unit {0})
  check_retry_recipe recipe_id e latest none = err recipe_stale
  check_retry_recipe recipe_id e latest (some r) = do
    refuse (not (r.name =t recipe_id)) recipe_stale
    refuse
        (not (
          r.sha256 =t e.recipe_sha256
          && r.active
          && automation_is
              (λ a.
                a.enabled && same_policy a.policy latest.desired_policy && not (is_manual a.policy))
              r.automation))
        recipe_stale

  unfoldable pub grant :
      Text → Text → Entry → Generation → Document → Result Error (ClaimResult × Document)
  grant now key e latest d = do
    let n = length e.generations
    let fresh = new_generation now latest.desired_policy latest.detected_at n
    let e' = record e { generations = e.generations ++ fresh ∷ [] }
    d' ← save h (record d { attempts = put_entry key e' d.attempts })
    ok (record { created = true; attempt_key = key; generation = n; entry = e' }, d')

  -- The generation that a duplicate request observes.
  unfoldable pub repeated : Text → Entry → Generation → ClaimResult
  repeated key e latest = record {
    created = false;
    attempt_key = key;
    generation = latest.generation;
    entry = e;
  }

  -- explicit_retry_current_recipe
  unfoldable pub explicit_retry :
      Text
      → Text
      → Text
      → ℕ
      → Option Text
      → Option Recipe
      → Document
      → Result Error (ClaimResult × Document)
  unfolding or_missing check_retry check_retry_recipe grant repeated
  explicit_retry now recipe_id key expected seen current disk = do
    d ← load h disk
    e ← or_missing (find_entry key d.attempts)
    refuse (not (e.recipe_id =t recipe_id)) attempt_not_found
    latest ← or_missing (get_last? e.generations)
    duplicate ← check_retry recipe_id key expected seen e latest d
    check_retry_recipe recipe_id e latest current
    let granted = grant now key e latest d
    if duplicate then ok (repeated key e latest, d) else granted
