-- ===== src/Orchestrator/Reserving.antt =====
-- debbuilder/automation_ledger.py: `reconcile_preallocated_run`, which recovers a Run that was
-- preallocated, and the reservation of the Run of a claim in `_admit_run`.
use deb_builder.Base.{
  ℕ, Bool, true, false, not, ◌&&◌, ◌||◌, Text, [], ◌∷◌, Option, none, some, truthy?, any, get_elem?,
  ◌=t◌, if◌then◌else◌, codes,
}
use deb_builder.Identity.Model.{Identity}
use deb_builder.Ledger.Row.{Generation, attempt_not_found, run_binding_invalid, test, same_policy}
use deb_builder.Ledger.Document.{Entry, Document, same_identity}
use deb_builder.Ledger.Store.{Host, Loaded, unreadable, loaded, find_entry}
use deb_builder.Ledger.Store.Commands
use deb_builder.Orchestrator.Services.{Services, Run, ledger_error, is_among}
use deb_builder.Orchestrator.Effects.{
  Action, give, throw, reads, asks, ◌>>=◌, ledger_call, read_ledger,
}
use deb_builder.Orchestrator.Records.{text_of}

pub record Reconciled : Type 0 where
  pub is_linked : Bool
  pub recovered_incomplete : Bool
  pub row : Generation

-- The identity that a Run was built from.
unfoldable pub identity_of : Run → Option Identity
identity_of r = elim r.automation [ some (key, n, i) ↦ some i | none ↦ r.manual_source_provenance ]

abbrev is_identity : Option Identity → Identity → Bool
is_identity none i = false
is_identity (some j) i = same_identity j i

-- The test of `_admit_run` on a stored Run.
unfoldable pub owns_identity : Entry → Generation → Run → Bool
unfolding identity_of
owns_identity e g r =
    r.recipe_id =t e.recipe_id
    && is_identity (identity_of r) e.upstream_identity
    && (r.mode =t codes "build" || same_policy g.desired_policy test)
    && is_among r.status (
        codes "pending"
        ∷ codes "queued"
        ∷ codes "running"
        ∷ codes "building"
        ∷ codes "prepared"
        ∷ codes "success"
        ∷ [])

-- `_row` of a document
unfoldable pub row_in : Text → ℕ → Document → Option Generation
row_in key n d = elim (find_entry key d.attempts) [
  | none ↦ none
  | some e ↦ get_elem? e.generations n
]

module _ {W : Type 0} (h : Host) (v : Services W) where
  -- ledger.link_run with the store's Run
  unfoldable pub link_created : Entry → Generation → Text → Action W Generation
  link_created e g id = do
    found ← reads (v.bound_run id)
    ledger_call h v e.key g.generation (λ now. Commands.link now (λ _. found) id)

  unfoldable pub discard : Generation → Text → Action W Reconciled
  discard g id = do
    discarded ← asks (v.discard_incomplete_creation id)
    if discarded
        then give (record { is_linked = false; recovered_incomplete = true; row = g })
        else throw (ledger_error run_binding_invalid)

  unfoldable pub reconcile_loaded : Entry → Generation → Text → Loaded → Action W Reconciled
  unfolding discard
  reconcile_loaded e g id unreadable = throw (ledger_error run_binding_invalid)
  reconcile_loaded e g id (loaded none) = do
    exists_now ← reads (v.run_dir_exists id)
    if exists_now
        then discard g id
        else give (record { is_linked = false; recovered_incomplete = false; row = g })
  reconcile_loaded e g id (loaded (some r)) = do
    linked ← link_created e g id
    give (record { is_linked = true; recovered_incomplete = false; row = linked })

  unfoldable pub reconcile_row : Entry → Option Generation → Action W Reconciled
  unfolding reconcile_loaded
  reconcile_row e none = throw (ledger_error attempt_not_found)
  reconcile_row e (some g) =
      if truthy? g.run_id
      then give (record { is_linked = true; recovered_incomplete = false; row = g })
      else if not (truthy? g.preallocated_run_id)
      then give (record { is_linked = false; recovered_incomplete = false; row = g })
      else (do
        found ← reads (v.bound_run (text_of g.preallocated_run_id))
        reconcile_loaded e g (text_of g.preallocated_run_id) found)

  unfoldable pub reconcile_preallocated_run : Entry → ℕ → Action W Reconciled
  unfolding reconcile_row
  reconcile_preallocated_run e n = do
    document ← read_ledger h v
    reconcile_row e (row_in e.key n document)

  unfoldable pub preallocate : Entry → Generation → Action W Generation
  preallocate e g = do
    candidate ← reads v.allocate_run_id
    ledger_call h v e.key g.generation (λ now. Commands.preallocate now candidate)

  -- The row whose Run is reserved.
  unfoldable pub reserve : Entry → Generation → Action W Generation
  unfolding preallocate
  reserve e g =
      if truthy? g.preallocated_run_id
      then (do reconciled ← reconcile_preallocated_run e g.generation; give reconciled.row)
      else preallocate e g

  -- Whether a stored Run was already built from the identity of a claim without a Run.
  unfoldable pub is_owned : Entry → Generation → Action W Bool
  is_owned e g =
      if truthy? g.preallocated_run_id
      then give false
      else (do runs ← asks v.list_runs; give (any (λ r. owns_identity e g r) runs))
