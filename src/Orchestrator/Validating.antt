-- ===== src/Orchestrator/Validating.antt =====
-- debbuilder/automation_orchestrator.py: `_admit_validation` and `_handle_validation`, which call each
-- other. `depth` bounds these calls as Python's recursion depth does.
use deb_builder.Base.{
  ℕ, zero, suc, Bool, true, false, not, ◌&&◌, Text, [], ◌∷◌, codes, Option, none, some, Result, ok,
  err, truthy?, ltb, ◌=t◌, if◌then◌else◌,
}
use deb_builder.Ledger.Row.{
  Generation, Policy, success, blocked_manual, terminal_failure, cancelled, disabled, full,
  build_validate, validation, validation_admission, same_policy,
}
use deb_builder.Ledger.Document.{Entry}
use deb_builder.Ledger.Store.{Host}
use deb_builder.Ledger.Store.Commands
use deb_builder.Orchestrator.Services.{
  Services, Raised, Attempt, admission_error, value_error, other_error, ledger_error,
  recursion_error, is_value_error, or_text, is_among, code_or,
}
use deb_builder.Orchestrator.Effects.{
  Action, give, throw, reads, asks, caught, when, ◌>>=◌, ◌>>◌, ledger_call, with_lease,
}
use deb_builder.Orchestrator.Authority.{max_validation_retries, downstream_authorized}
use deb_builder.Orchestrator.Records.{
  text_of, claim_of, schedule_retry, finish_claim, reconcile_validation_link,
}
use deb_builder.Orchestrator.Publishing.{is_closing, publish_claim}

-- VALIDATION_TRANSIENT_CODES
unfoldable pub is_transient_validation : Text → Bool
is_transient_validation code = is_among code (
    codes "dependency_preparation_failed"
    ∷ codes "dependency_download_failed"
    ∷ codes "dependency_repository_unavailable"
    ∷ codes "apt_update_failed"
    ∷ codes "validation_preparation_failed"
    ∷ codes "validation_preparation_interrupted"
    ∷ codes "validation_image_unavailable"
    ∷ codes "validation_worker_error"
    ∷ [])

-- ACTIVE_STATUSES and TERMINAL_STATUSES of validation_service
unfoldable pub is_active_attempt : Text → Bool
is_active_attempt s = is_among s (codes "queued" ∷ codes "running" ∷ codes "cancelling" ∷ [])

unfoldable pub is_terminal_attempt : Text → Bool
is_terminal_attempt s = is_among s (codes "cancelled" ∷ codes "success" ∷ codes "failed" ∷ [])

unfoldable pub is_full_queue : Text → Bool
is_full_queue code =
    is_among code (codes "validation_queue_full" ∷ codes "validation_manager_shutting_down" ∷ [])

abbrev pub required_policy : Policy → Policy
required_policy p = if same_policy p full then full else build_validate

abbrev pub row_or : Generation → Option Generation → Generation
row_or g none = g
row_or g (some g') = g'

module _ {W : Type 0} (h : Host) (v : Services W) where
  unfoldable pub forget_intent : Generation → Action W (Unit {0})
  forget_intent g = when (truthy? g.validation_attempt_id) (do
    done ←
        caught
          (asks (v.cancel_publication_intent (text_of g.run_id) (text_of g.validation_attempt_id)))
    elim done [ err x ↦ if is_value_error x then give tt else throw x | ok _ ↦ give tt ])

  unfoldable pub disable_downstream : Entry → Generation → Action W (Unit {0})
  unfolding forget_intent
  disable_downstream e g = do
    forget_intent g
    finish_claim h v e g disabled (codes "automation_downstream_disabled")
        (codes "downstream_admission_disabled")

  unfoldable pub start_admission : Entry → Generation → Action W Generation
  start_admission e g =
      ledger_call h v e.key g.generation
        (λ now. Commands.advance now validation_admission none none)

  -- There is no Validation manager.
  unfoldable pub delay_admission : Entry → Generation → Action W (Unit {0})
  unfolding start_admission
  delay_admission e g = do
    entered ← caught (with_lease h v (start_admission e g))
    elim entered [
      | err x ↦ do closing ← is_closing h v (code_or [] x); if closing then give tt else throw x
      | ok row ↦
          schedule_retry h v e row (codes "validation_manager_unavailable")
            (codes "validation_admission_delayed")
    ]

  -- The row as the body of `try` left it, with the admitted attempt or what was raised.
  unfoldable pub try_admit_row : Entry → Generation → Action W (Generation × Result Raised Text)
  try_admit_row e g = do
    entered ← caught (start_admission e g)
    elim entered [
      | err x ↦ give (g, err x)
      | ok row ↦ do
        result ← caught (
            asks
              (v.admit (text_of row.run_id) (same_policy row.desired_policy full) (claim_of e row)))
        give (row, result)
    ]

  unfoldable pub try_admit : Entry → Generation → Action W (Generation × Result Raised Text)
  unfolding try_admit_row start_admission
  try_admit e g = do
    tried ← caught (with_lease h v (try_admit_row e g))
    elim tried [ err x ↦ give (g, err x) | ok pair ↦ give pair ]

  unfoldable pub refused_admission : Entry → Generation → Text → Action W (Unit {0})
  refused_admission e g code =
      if is_full_queue code
      then (do
        open_now ← reads v.admission_open
        when open_now (schedule_retry h v e g code (codes "validation_admission_delayed")))
      else finish_claim h v e g terminal_failure code (codes "validation_admission_failed")

  unfoldable pub failed_admission : Entry → Generation → Raised → Action W (Unit {0})
  failed_admission e g x = do
    let code = code_or (codes "validation_admission_failed") x
    closing ← is_closing h v code
    when (not closing)
        (finish_claim h v e g terminal_failure code (codes "validation_admission_failed"))

  -- The two `except` clauses around the admission.
  unfoldable pub settle_admission : Entry → Generation → Raised → Action W (Unit {0})
  unfolding refused_admission failed_admission is_full_queue
  settle_admission e g (admission_error code) = refused_admission e g code
  settle_admission e g (ledger_error x) = failed_admission e g (ledger_error x)
  settle_admission e g (value_error code) = failed_admission e g (value_error code)
  settle_admission e g (other_error code) = failed_admission e g (other_error code)
  settle_admission e g recursion_error = failed_admission e g recursion_error

  unfoldable pub is_admission_error : Raised → Bool
  is_admission_error (admission_error code) = true
  is_admission_error _ = false

  -- An attempt that failed is tried again only if it failed in preparation.
  unfoldable pub validation_failed : Entry → Generation → Text → Action W (Unit {0})
  validation_failed e g error_code = do
    let code = or_text error_code (codes "validation_failed")
    phase ← asks (v.failure_phase (text_of g.run_id) (text_of g.validation_attempt_id))
    if phase =t codes "preparation"
          && is_transient_validation code
          && ltb g.validation_retry_count max_validation_retries
        then schedule_retry h v e g code (codes "validation_transient_retry")
        else finish_claim h v e g terminal_failure code (codes "validation_failed")

  -- What follows from the status of an attempt.
  unfoldable pub settle_attempt : Entry → Generation → Attempt → Action W (Unit {0})
  settle_attempt e g a =
      if is_active_attempt a.status
      then give tt
      else if a.status =t codes "cancelled"
      then finish_claim h v e g cancelled (or_text a.error_code (codes "validation_cancelled"))
          (codes "validation_cancelled")
      else if a.status =t codes "failed"
      then validation_failed e g a.error_code
      else if same_policy g.desired_policy build_validate
      then finish_claim h v e g success [] (codes "validation_succeeded")
      else publish_claim h v e g (text_of g.validation_attempt_id)

  -- A load that failed for a reason of its own blocks the claim.
  unfoldable pub settle_loaded : Entry → Generation → Result Raised Attempt → Action W (Unit {0})
  settle_loaded e g (ok a) = settle_attempt e g a
  settle_loaded e g (err (admission_error code)) =
      finish_claim h v e g blocked_manual code (codes "validation_state_unavailable")
  settle_loaded e g (err (ledger_error x)) = throw (ledger_error x)
  settle_loaded e g (err (value_error code)) = throw (value_error code)
  settle_loaded e g (err (other_error code)) = throw (other_error code)
  settle_loaded e g (err recursion_error) = throw recursion_error

  module _ (handle : Entry → Generation → Action W (Unit {0})) where
    -- The attempt that was admitted may have ended already.
    unfoldable pub follow_admission : Entry → Generation → Text → Action W (Unit {0})
    unfolding is_admission_error
    follow_admission e g id = do
      row ←
          ledger_call h v e.key g.generation (λ now. Commands.advance now validation (some id) none)
      current ← caught (asks (v.load_attempt (text_of g.run_id) id))
      elim current [
        | err x ↦ if is_admission_error x then give tt else throw x
        | ok a ↦ when (is_terminal_attempt a.status) (handle e row)
      ]

    unfoldable pub request_validation : Entry → Generation → Action W (Unit {0})
    request_validation e g = do
      tried ← try_admit e g
      elim tried.1 [ err x ↦ settle_admission e tried.0 x | ok id ↦ follow_admission e tried.0 id ]

    unfoldable pub admit_unlinked : Entry → Generation → Action W (Unit {0})
    admit_unlinked e g = do
      recipe ← reads (v.load_recipe e.recipe_id)
      if downstream_authorized recipe (required_policy g.desired_policy)
          then (do
            manager ← reads v.has_validation_manager
            if manager then request_validation e g else delay_admission e g)
          else disable_downstream e g

    -- `_admit_validation`
    unfoldable pub admit_validation : Entry → Generation → Action W (Unit {0})
    admit_validation e g = do
      open_now ← reads v.admission_open
      when open_now (do
        reconciled ← reconcile_validation_link h v e g
        elim reconciled [ some row ↦ handle e row | none ↦ admit_unlinked e g ])

  -- `_handle_validation`
  unfoldable pub handle_validation : ℕ → Entry → Generation → Action W (Unit {0})
  handle_validation zero e g = throw recursion_error
  handle_validation (suc depth) e g = do
    reconciled ← reconcile_validation_link h v e g
    let row = row_or g reconciled
    if truthy? row.validation_attempt_id
        then (do
          loaded ←
              caught
                (asks (v.load_attempt (text_of row.run_id) (text_of row.validation_attempt_id)))
          settle_loaded e row loaded)
        else admit_validation (handle_validation depth) e row
