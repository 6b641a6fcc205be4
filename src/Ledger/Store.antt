-- ===== src/Ledger/Store.antt =====
-- debbuilder/automation_ledger.py: loading and saving the ledger, and the operations on one
-- generation. An operation takes the document on disk and returns its reply with the document that
-- stands on disk afterwards; an error leaves the disk as it was.
pub mod Valid
pub mod Update
pub mod Commands
pub mod Histories
use deb_builder.Base.{
  ℕ, zero, suc, ◌+◌, Bool, true, false, not, ◌&&◌, ◌||◌, Text, List, [], ◌∷◌, codes, Option, none,
  some, length, get_elem?, set, truthy?, Result, ok, err, ◌>>=◌, ◌>>◌, refuse, ◌=t◌, ◌==◌,
  if◌then◌else◌,
}
use deb_builder.Platform.{Platform}
use deb_builder.Identity.Model.{Identity}
use deb_builder.Ledger.Row.{
  Error, Generation, Stage, Policy, Classification, ledger_invalid, ledger_bounds_exceeded,
  attempt_not_found, same_policy, run_not_found, run_binding_invalid, is_detect,
}
use deb_builder.Ledger.Rows.{
  Change, kept, changed, row_of, preallocate_row, link_row, finish_row, advance_row,
  check_active_stage, notify_row, Outcome, row_may_create_run,
}
use deb_builder.Ledger.Document.{Entry, Document, Limits, validate_document, same_identity}

-- The ledger object: its bounds, the platform, and whether the serialized document is within
-- MAX_LEDGER_BYTES (`json.dumps` with an indent is the library's).
pub record Host : Type 0 where
  pub platform : Platform
  pub bounds : Limits
  pub fits : Document → Bool

-- document["attempts"].get(key)
unfoldable pub find_entry : Text → List (Text × Entry) → Option Entry
find_entry key [] = none
find_entry key ((k, e) ∷ rest) = if k =t key then some e else find_entry key rest

-- The write through the reference that `_row` returned.
unfoldable pub put_entry : Text → Entry → List (Text × Entry) → List (Text × Entry)
put_entry key new [] = []
put_entry key new ((k, e) ∷ rest) =
    let others = put_entry key new rest in if k =t key then (k, new) ∷ rest else (k, e) ∷ others

abbrev pub put_row : ℕ → Generation → Entry → Entry
put_row n g e = record e { generations = set e.generations n g }

-- A stored Run, as far as its binding to a claim goes; `automation` is null for a manual Run.
pub record RunBinding : Type 0 where
  pub attempt_key : Text
  pub generation : ℕ
  pub policy : Policy
  pub expected_upstream_identity : Identity

pub record StoredRun : Type 0 where
  pub id : Text
  pub recipe_id : Text
  pub recipe_sha256 : Text
  pub automation : Option RunBinding

-- `_verify_run_binding`
abbrev pub is_bound : Entry → Generation → RunBinding → Bool
is_bound e g b =
    b.attempt_key =t e.key
    && b.generation == g.generation
    && same_policy b.policy g.desired_policy
    && same_identity b.expected_upstream_identity e.upstream_identity

abbrev pub is_id : Text → Option Text → Bool
is_id t none = false
is_id t (some s) = t =t s

unfoldable pub verify_run_binding : Entry → Generation → Option StoredRun → Result Error (Unit {0})
verify_run_binding e g none = err run_not_found
verify_run_binding e g (some r) =
    refuse
      (not (
        is_id r.id g.preallocated_run_id
        && r.recipe_id =t e.recipe_id
        && r.recipe_sha256 =t e.recipe_sha256
        && elim r.automation [ none ↦ false | some b ↦ is_bound e g b ]))
      run_binding_invalid

-- BuildStore.load: a Run, no Run, or a document that cannot be read
pub data Loaded : Type 0 where
  unreadable : Loaded
  loaded : Option StoredRun → Loaded

unfoldable pub verify_loaded : Entry → Generation → Loaded → Result Error (Unit {0})
unfolding verify_run_binding
verify_loaded e g unreadable = err run_binding_invalid
verify_loaded e g (loaded r) = verify_run_binding e g r

module _ (h : Host) where
  -- `_load_unlocked` of a document that decodes
  unfoldable pub load : Document → Result Error Document
  load disk = validate_document h.platform h.bounds disk

  -- `_save_unlocked`: what stands on disk afterwards; the attempts stand in the order in which they
  -- were added, in the file by their keys
  unfoldable pub save : Document → Result Error Document
  save d = do
    canonical ← validate_document h.platform h.bounds d
    refuse (not (h.fits canonical)) ledger_bounds_exceeded
    ok canonical

  row_at : Option Generation → Result Error Generation
  row_at none = err attempt_not_found
  row_at (some g) = ok g

  -- `_row`, with the entry in which it stands
  unfoldable pub entry_of : Text → Document → Result Error Entry
  entry_of key d = elim (find_entry key d.attempts) [ none ↦ err attempt_not_found | some e ↦ ok e ]

  write : Text → ℕ → Entry → Document → Change → Result Error (Generation × Document)
  write key n e d (kept g) = ok (g, d)
  write key n e d (changed g) = do
    d' ← save (record d { attempts = put_entry key (put_row n g e) d.attempts })
    ok (g, d')

  update_row :
      Text
      → ℕ
      → (Entry → Generation → Result Error Change)
      → Document
      → Entry
      → Generation
      → Result Error (Generation × Document)
  update_row key n f d e g = do c ← f e g; write key n e d c

  update_entry :
      Text
      → ℕ
      → (Entry → Generation → Result Error Change)
      → Document
      → Entry
      → Result Error (Generation × Document)
  update_entry key n f d e = do g ← row_at (get_elem? e.generations n); update_row key n f d e g

  update_document :
      Text
      → ℕ
      → (Entry → Generation → Result Error Change)
      → Document
      → Result Error (Generation × Document)
  update_document key n f d = do e ← entry_of key d; update_entry key n f d e

  -- An operation under the lock: load, find the row, change it, save.
  unfoldable pub update :
      Text
      → ℕ
      → (Entry → Generation → Result Error Change)
      → Document
      → Result Error (Generation × Document)
  unfolding row_at write update_row update_entry update_document
  update key n f disk = do d ← load disk; update_document key n f d

  unfoldable pub preallocate_run :
      Text → Text → Text → ℕ → Document → Result Error (Generation × Document)
  preallocate_run now candidate key n = update key n (λ e g. preallocate_row now candidate g)

  unfoldable pub link_run :
      Text → (Text → Loaded) → Text → ℕ → Text → Document → Result Error (Generation × Document)
  link_run now store key n id =
      update key n (λ e g. link_row now id (verify_loaded e g (store id)) g)

  unfoldable pub finish :
      Text → Text → ℕ → Classification → Outcome → Document → Result Error (Generation × Document)
  finish now key n c o = update key n (λ e g. ok (changed (finish_row now c o g)))

  unfoldable pub advance_lifecycle :
      Text
      → Text
      → ℕ
      → Stage
      → Option Text
      → Option Text
      → Document
      → Result Error (Generation × Document)
  advance_lifecycle now key n stage val pub_id disk = do
    check_active_stage stage
    update key n (λ e g. advance_row now stage val pub_id g) disk

  unfoldable pub mark_completion_notified :
      Text → Text → ℕ → Document → Result Error (Generation × Document)
  mark_completion_notified now key n = update key n (λ e g. notify_row now g)

  -- may_create_run
  unfoldable pub may_create_run : (Text → Bool) → Text → ℕ → Document → Result Error Bool
  may_create_run exists key n disk = do
    d ← load disk
    ok (elim (find_entry key d.attempts) [
      | none ↦ false
      | some e ↦ elim (get_elem? e.generations n) [
        | none ↦ false
        | some g ↦ row_may_create_run exists g
      ]
    ])
