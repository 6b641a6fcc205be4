-- ===== src/Orchestrator/Publishing.antt =====
-- debbuilder/automation_orchestrator.py: `_publish`, the publication of a validated Run.
use deb_builder.Base.{
  Bool, true, false, not, ◌&&◌, Text, List, [], ◌∷◌, codes, Option, none, some, Result, ok, err,
  truthy, ltb, ◌=t◌, if◌then◌else◌, get_last?,
}
use deb_builder.Ledger.Row.{
  Generation, Classification, success, blocked_manual, terminal_failure, disabled, full,
  publication, is_retry_delayed,
}
use deb_builder.Ledger.Document.{Entry}
use deb_builder.Ledger.Store.{Host}
use deb_builder.Ledger.Store.Commands
use deb_builder.PostBuild.{publication_confirmation}
use deb_builder.Orchestrator.Services.{
  Services, Raised, Run, Publication, or_text, is_among, code_or,
}
use deb_builder.Orchestrator.Effects.{
  Action, give, reads, asks, caught, when, ◌>>=◌, ledger_call, with_lease,
}
use deb_builder.Orchestrator.Authority.{max_publication_retries, downstream_authorized}
use deb_builder.Orchestrator.Records.{text_of, schedule_retry, finish_claim}

-- PUBLICATION_TRANSIENT_CODES
unfoldable pub is_transient_publication : Text → Bool
is_transient_publication code = is_among code (
    codes "repository_mutation_busy"
    ∷ codes "publication_execution_failed"
    ∷ codes "publication_reconciliation_failed"
    ∷ codes "publication_interrupted"
    ∷ codes "reprepro_include_failed"
    ∷ [])

-- PUBLICATION_BLOCKED_CODES
unfoldable pub is_blocked_publication : Text → Bool
is_blocked_publication code = is_among code (
    codes "downgrade_refused"
    ∷ codes "publication_identity_conflict"
    ∷ codes "publication_proof_failed"
    ∷ codes "publication_proof_invalid"
    ∷ codes "artifact_not_ready"
    ∷ codes "artifact_mutated"
    ∷ codes "artifact_identity_mismatch"
    ∷ codes "artifact_not_available"
    ∷ codes "publication_confirmation_required"
    ∷ codes "component_not_configured"
    ∷ codes "repository_configuration_unsupported"
    ∷ [])

-- The publication of a Run with the id that `publish` returned.
unfoldable pub find_publication : Text → List Publication → Option Publication
find_publication id [] = none
find_publication id (p ∷ rest) =
    let later = find_publication id rest in if p.id =t id then some p else later

abbrev pub publications_of : Option Run → List Publication
publications_of none = []
publications_of (some r) = r.publications

abbrev pub failure_class : Text → Classification
failure_class code = if is_blocked_publication code then blocked_manual else terminal_failure

-- The code of a result that is no proved success.
unfoldable pub result_code : Publication → Text
result_code p = or_text p.error_code (
    if p.status =t codes "success"
    then codes "publication_proof_invalid"
    else codes "publication_execution_failed")

module _ {W : Type 0} (h : Host) (v : Services W) where
  -- `code == "application_shutting_down" or not self.admission_open()`
  unfoldable pub is_closing : Text → Action W Bool
  is_closing code =
      if code =t codes "application_shutting_down"
      then give true
      else (do open_now ← reads v.admission_open; give (not open_now))

  unfoldable pub proves : Option Publication → Option Run → Bool
  proves (some p) (some r) = v.is_proof p r
  proves _ _ = false

  -- `_last_publication`
  unfoldable pub last_publication : Generation → Action W (Option Publication)
  last_publication g = do
    run ← asks (v.load_run (text_of g.run_id))
    give (get_last? (publications_of run))

  unfoldable pub publication_failed : Entry → Generation → Text → Text → Action W (Unit {0})
  publication_failed e g attempt_id code =
      if is_transient_publication code && ltb g.publication_retry_count max_publication_retries
      then schedule_retry h v e g code (codes "publication_transient_retry")
      else (do
        _ ← asks (v.cancel_publication_intent (text_of g.run_id) attempt_id)
        finish_claim h v e g (failure_class code) code (codes "publication_failed"))

  -- A failed attempt that the ledger has not accounted for.
  unfoldable pub settle_previous : Entry → Generation → Text → Publication → Action W (Unit {0})
  settle_previous e g attempt_id p = do
    row ←
        ledger_call h v e.key g.generation
          (λ now. Commands.advance now publication none (some p.id))
    publication_failed e row attempt_id
        (or_text p.error_code (codes "publication_execution_failed"))

  -- The row as the body of `try` left it, with the result of `publish` or what was raised.
  unfoldable pub try_publish_row :
      Entry → Generation → Run → Action W (Generation × Result Raised Publication)
  try_publish_row e g r = do
    advanced ←
        caught
          (ledger_call h v e.key g.generation (λ now. Commands.advance now publication none none))
    elim advanced [
      | err x ↦ give (g, err x)
      | ok row ↦ do
        result ← caught (asks (v.publish (text_of row.run_id) (publication_confirmation r)))
        give (row, result)
    ]

  unfoldable pub try_publish :
      Entry → Generation → Run → Action W (Generation × Result Raised Publication)
  unfolding try_publish_row
  try_publish e g r = do
    tried ← caught (with_lease h v (try_publish_row e g r))
    elim tried [ err x ↦ give (g, err x) | ok pair ↦ give pair ]

  unfoldable pub link_publication : Entry → Generation → Text → Action W Generation
  link_publication e g id =
      if truthy id
      then ledger_call h v e.key g.generation
          (λ now. Commands.advance now publication none (some id))
      else give g

  -- What follows a `publish` that returned.
  unfoldable pub settle_result : Entry → Generation → Text → Publication → Action W (Unit {0})
  unfolding link_publication
  settle_result e g attempt_id result = do
    row ← link_publication e g result.id
    run ← asks (v.load_run (text_of row.run_id))
    if proves (find_publication result.id (publications_of run)) run
        then (do
          _ ← asks (v.complete_publication_intent (text_of row.run_id) attempt_id)
          finish_claim h v e row success [] (codes "publication_succeeded"))
        else publication_failed e row attempt_id (result_code result)

  -- What follows a `publish` that raised.
  unfoldable pub settle_raise : Entry → Generation → Text → Raised → Action W (Unit {0})
  settle_raise e g attempt_id x = do
    let code = code_or (codes "publication_execution_failed") x
    closing ← is_closing code
    when (not closing) (publication_failed e g attempt_id code)

  unfoldable pub publish_run : Entry → Generation → Text → Option Run → Action W (Unit {0})
  publish_run e g attempt_id none =
      finish_claim h v e g blocked_manual (codes "build_run_not_found")
        (codes "publication_state_unavailable")
  publish_run e g attempt_id (some r) = do
    tried ← try_publish e g r
    elim tried.1 [
      | err x ↦ settle_raise e tried.0 attempt_id x
      | ok result ↦ settle_result e tried.0 attempt_id result
    ]

  -- `previous and previous.get("status") == "failed" and row["state"] != "retry_delayed"`
  unfoldable pub is_unsettled : Generation → Option Publication → Bool
  is_unsettled g none = false
  is_unsettled g (some p) = p.status =t codes "failed" && not (is_retry_delayed g.state)

  unfoldable pub publish_allowed :
      Entry → Generation → Text → Option Publication → Action W (Unit {0})
  unfolding is_unsettled
  publish_allowed e g attempt_id none = do
    run ← asks (v.load_run (text_of g.run_id))
    publish_run e g attempt_id run
  publish_allowed e g attempt_id (some p) =
      if is_unsettled g (some p)
      then settle_previous e g attempt_id p
      else (do run ← asks (v.load_run (text_of g.run_id)); publish_run e g attempt_id run)

  -- `_publish`
  unfoldable pub publish_claim : Entry → Generation → Text → Action W (Unit {0})
  publish_claim e g attempt_id = do
    open_now ← reads v.admission_open
    when open_now (do
      recipe ← reads (v.load_recipe e.recipe_id)
      if downstream_authorized recipe full
          then (do previous ← last_publication g; publish_allowed e g attempt_id previous)
          else (do
            _ ← asks (v.cancel_publication_intent (text_of g.run_id) attempt_id)
            finish_claim h v e g disabled (codes "automation_publication_disabled")
                (codes "publication_admission_disabled")))
