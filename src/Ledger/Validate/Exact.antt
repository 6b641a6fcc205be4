-- ===== src/Ledger/Validate/Exact.antt =====
-- debbuilder/automation_ledger.py: `_validate_generation` accepts exactly the generations of the table.
use deb_builder.Base.{ℕ, ◌≡◌, ◌↔◌, ok}
use deb_builder.Ledger.Row.{Generation}
use deb_builder.Ledger.Validate.{Iso, validate_generation}
use deb_builder.Ledger.Validate.Table.{WellFormed, SafeIds, Passed}
use deb_builder.Ledger.Validate.Groups.{
  check_header-eq-ok, check_header_lem, check_ids_lem, check_ids-eq-ok, SafeIds-Truths,
  check_links_lem, check_links-eq-ok, check_stage_lem, check_stage-eq-ok, check_stage_links_lem,
  check_stage_links-eq-ok, check_notice_lem, check_notice-eq-ok, check_result_lem,
  check_result-eq-ok, check_lifecycle_lem, check_lifecycle-eq-ok, validate-Passed, Passed-validate,
}

Passed-WellFormed : (iso : Iso) (n : ℕ) (g : Generation) → Passed iso n g → WellFormed iso n g
Passed-WellFormed iso n g p =
    let safe = check_ids_lem g p.1 p.4 in
    let truths = SafeIds-Truths g safe in
    let header = check_header_lem n g p.0 in
    let links = check_links_lem g truths p.2 in
    let stage = check_stage_lem g truths p.4 in
    let notice = check_notice_lem g p.6 in
    let result = check_result_lem iso g p.7 in
    record {
      position = header.0;
      automated = header.1;
      counters = header.2;
      safe_run = safe.0;
      safe_preallocated = safe.1;
      safe_validation = safe.2;
      safe_publication = safe.3;
      run_is_preallocated = links.0;
      preallocated_has_run = links.1;
      admitted_is_linked = links.2;
      detect_has_no_run = links.3;
      outcome = check_lifecycle_lem g p.3;
      final_is_stopped = stage.0;
      publication_is_validated = stage.1;
      stage_links = check_stage_links_lem g truths p.5;
      notified_is_final = notice.0;
      safe_error = notice.1;
      safe_diagnostic = result.0;
      detected = result.1;
      created = result.2;
      updated = result.3;
      not_before = result.4;
    }

WellFormed-Passed : (iso : Iso) (n : ℕ) (g : Generation) → WellFormed iso n g → Passed iso n g
WellFormed-Passed iso n g w =
    let safe : SafeIds g =
      (w.safe_run, w.safe_preallocated, w.safe_validation, w.safe_publication) in
    let truths = SafeIds-Truths g safe in
    (
      check_header-eq-ok n g w.position w.automated w.counters,
      check_ids-eq-ok g safe,
      check_links-eq-ok g truths (
        w.run_is_preallocated, w.preallocated_has_run, w.admitted_is_linked, w.detect_has_no_run,
      ),
      check_lifecycle-eq-ok g w.outcome,
      check_stage-eq-ok g safe truths (w.final_is_stopped, w.publication_is_validated),
      check_stage_links-eq-ok g truths w.stage_links,
      check_notice-eq-ok g (w.notified_is_final, w.safe_error),
      check_result-eq-ok iso g (w.safe_diagnostic, w.detected, w.created, w.updated, w.not_before),
    )

-- `_validate_generation` returns a generation exactly when it is well formed, and then unchanged.
pub validate_generation-ok_iff :
    (iso : Iso) (n : ℕ) (g r : Generation)
    → (validate_generation iso n g ≡ ok r) ↔ (WellFormed iso n g × (r ≡ g))
validate_generation-ok_iff iso n g r = (
  λ h. let (passed, same) = validate-Passed iso n g r h in (Passed-WellFormed iso n g passed, same),
  λ (w, same). rw same (Passed-validate iso n g (WellFormed-Passed iso n g w)),
)
