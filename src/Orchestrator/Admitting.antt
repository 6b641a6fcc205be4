-- ===== src/Orchestrator/Admitting.antt =====
-- debbuilder/automation_orchestrator.py: `_admit_run` and `_handle_run`, which call each other. `depth`
-- bounds the calls as Python's recursion depth does.
use deb_builder.Base.{
  ℕ, zero, suc, Bool, true, false, not, ◌&&◌, Text, [], ◌∷◌, codes, Option, none, some, ok, err,
  truthy?, ◌=t◌, if◌then◌else◌,
}
use deb_builder.Ledger.Row.{
  Generation, Policy, success, blocked_manual, terminal_failure, cancelled, disabled, test, build,
  run, same_policy,
}
use deb_builder.Ledger.Document.{Entry}
use deb_builder.Ledger.Store.{Host}
use deb_builder.Ledger.Store.Commands
use deb_builder.Orchestrator.Services.{
  Services, Raised, Recipe, Run, other_error, recursion_error, or_text, is_among, code_or,
}
use deb_builder.Orchestrator.Effects.{
  Action, give, throw, reads, asks, when, ◌>>=◌, ledger_call, read_ledger,
}
use deb_builder.Orchestrator.Authority.{initial_authorized, downstream_authorized}
use deb_builder.Orchestrator.Records.{text_of, schedule_retry, finish_claim}
use deb_builder.Orchestrator.Publishing.{is_closing}
use deb_builder.Orchestrator.Validating.{admit_validation, handle_validation}
use deb_builder.Orchestrator.Reserving.{row_in}
use deb_builder.Orchestrator.Enqueuing.{
  Verdict, owned, created, stale, stale_code, stale_diagnostic, try_admit_run,
}

-- RUN_ADMISSION_TRANSIENT_CODES
unfoldable pub is_transient_admission : Text → Bool
is_transient_admission code = is_among code (
    codes "execution_queue_full"
    ∷ codes "execution_manager_unavailable"
    ∷ codes "execution_recovery_unresolved"
    ∷ codes "storage_pressure_admission_blocked"
    ∷ codes "storage_measurement_unavailable"
    ∷ [])

-- TERMINAL_RUN_STATUSES
unfoldable pub is_terminal_run : Text → Bool
is_terminal_run s =
    is_among s (codes "prepared" ∷ codes "success" ∷ codes "failed" ∷ codes "cancelled" ∷ [])

-- The statuses that a finished Run of this policy succeeds with.
unfoldable pub is_successful_run : Policy → Text → Bool
is_successful_run p s = if same_policy p test then s =t codes "prepared" else s =t codes "success"

module _ {W : Type 0} (h : Host) (v : Services W) where
  unfoldable pub settle_run_raise : Entry → Generation → Raised → Action W (Unit {0})
  settle_run_raise e g x = do
    let code = code_or (codes "execution_admission_failed") x
    closing ← is_closing h v code
    when (not closing) (
        if is_transient_admission code
        then (do
          open_now ← reads v.admission_open
          when open_now (schedule_retry h v e g code (codes "run_admission_delayed")))
        else finish_claim h v e g terminal_failure code (codes "run_admission_failed"))

  unfoldable pub row_or_raise : Option Generation → Action W Generation
  row_or_raise none = throw (other_error none)
  row_or_raise (some row) = give row

  -- self.ledger.read()["attempts"][key]["generations"][generation], with the KeyError or IndexError
  unfoldable pub current_row : Entry → Generation → Action W Generation
  current_row e g = do document ← read_ledger h v; row_or_raise (row_in e.key g.generation document)

  unfoldable pub is_ended_run : Option Run → Bool
  is_ended_run none = false
  is_ended_run (some r) = is_terminal_run r.status

  module _ (handle : Entry → Generation → Action W (Unit {0})) where
    -- A Run that has ended already is handled at once.
    unfoldable pub follow_run : Entry → Generation → Action W (Unit {0})
    unfolding current_row is_ended_run
    follow_run e g = do
      linked ← current_row e g
      _ ← ledger_call h v e.key g.generation (λ now. Commands.advance now run none none)
      current ← asks (v.load_run (text_of linked.run_id))
      when (is_ended_run current) (do row ← current_row e g; handle e row)

    unfoldable pub settle_verdict : Entry → Generation → Bool → Verdict → Action W (Unit {0})
    unfolding stale_diagnostic
    settle_verdict e g existing owned =
        finish_claim h v e g success (codes "existing_run_owns_identity")
          (codes "existing_run_owns_identity")
    settle_verdict e g existing (stale code) =
        finish_claim h v e g disabled code (stale_diagnostic existing)
    settle_verdict e g existing created = follow_run e g

    unfoldable pub admit_recipe : Entry → Generation → Recipe → Bool → Action W (Unit {0})
    admit_recipe e g recipe existing = do
      tried ← try_admit_run h v e g recipe existing
      elim tried.1 [
        | err x ↦ settle_run_raise e tried.0 x
        | ok verdict ↦ settle_verdict e tried.0 existing verdict
      ]

    unfoldable pub admit_loaded : Entry → Generation → Option Recipe → Bool → Action W (Unit {0})
    admit_loaded e g none existing =
        finish_claim h v e g disabled (codes "recipe_unavailable") (codes "stale_claim_suppressed")
    admit_loaded e g (some recipe) existing = admit_recipe e g recipe existing

    unfoldable pub admit_snapshot : Entry → Generation → Action W (Unit {0})
    admit_snapshot e g = do
      snapshot ← reads (v.load_snapshot (text_of g.run_id))
      elim snapshot [
        | none ↦
            finish_claim h v e g blocked_manual (codes "build_run_snapshot_invalid")
              (codes "run_state_unavailable")
        | some recipe ↦ admit_recipe e g recipe true
      ]

    -- `_admit_run`
    unfoldable pub admit_run : Entry → Generation → Option Recipe → Bool → Action W (Unit {0})
    unfolding admit_loaded admit_snapshot stale_code stale_diagnostic
    admit_run e g recipe existing = do
      open_now ← reads v.admission_open
      when open_now (
          if not existing && not (initial_authorized e g recipe)
          then finish_claim h v e g disabled (stale_code false) (stale_diagnostic false)
          else if existing && not (downstream_authorized recipe g.desired_policy)
          then finish_claim h v e g disabled (stale_code true) (stale_diagnostic true)
          else if existing && truthy? g.run_id
          then admit_snapshot e g
          else admit_loaded e g recipe existing)

  -- A Run that has succeeded for its policy.
  unfoldable pub settle_success : ℕ → Entry → Generation → Action W (Unit {0})
  settle_success depth e g =
      if same_policy g.desired_policy test
      then finish_claim h v e g success [] (codes "test_succeeded")
      else if same_policy g.desired_policy build
      then finish_claim h v e g success [] (codes "build_succeeded")
      else admit_validation h v (handle_validation h v depth) e g

  -- A Run that is no longer pending.
  unfoldable pub settle_run : ℕ → Entry → Generation → Run → Action W (Unit {0})
  settle_run depth e g r =
      if not (is_terminal_run r.status)
      then give tt
      else if r.status =t codes "cancelled"
      then finish_claim h v e g cancelled (or_text r.error_code (codes "execution_cancelled"))
          (codes "run_cancelled")
      else if not (is_successful_run g.desired_policy r.status)
      then finish_claim h v e g terminal_failure (or_text r.error_code (codes "execution_failed"))
          (codes "run_failed")
      else settle_success depth e g

  module _ (handle : Entry → Generation → Action W (Unit {0})) where
    unfoldable pub handle_loaded : ℕ → Entry → Generation → Option Run → Action W (Unit {0})
    handle_loaded depth e g none =
        finish_claim h v e g blocked_manual (codes "automation_run_not_found")
          (codes "run_state_unavailable")
    handle_loaded depth e g (some r) =
        if r.status =t codes "pending"
        then (do recipe ← reads (v.load_recipe e.recipe_id); admit_run handle e g recipe true)
        else settle_run depth e g r

  -- `_handle_run`
  unfoldable pub handle_run : ℕ → Entry → Generation → Action W (Unit {0})
  handle_run zero e g = throw recursion_error
  handle_run (suc depth) e g = do
    stored ← asks (v.load_run (text_of g.run_id))
    handle_loaded (handle_run depth) depth e g stored
