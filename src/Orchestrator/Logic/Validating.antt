-- ===== src/Orchestrator/Logic/Validating.antt =====
-- debbuilder/automation_orchestrator.py: `_admit_validation` and `_handle_validation` record a success
-- without a Publication only under the policy build_validate and of an attempt that has succeeded.
use deb_builder.Base.{
  ℕ, zero, suc, ◌≡◌, refl, ◌&&◌, Text, Option, none, some, ok, err, truthy?, ltb, ◌=t◌, codes,
}
use deb_builder.Ledger.Row.{Generation, build_validate, same_policy}
use deb_builder.Orchestrator.Services.{
  Raised, Attempt, admission_error, value_error, other_error, ledger_error, recursion_error,
  is_value_error, or_text,
}
use deb_builder.Orchestrator.Effects.{Action}
use deb_builder.Ledger.Document.{Entry}
use deb_builder.Orchestrator.Records.{text_of}
use deb_builder.Orchestrator.Authority.{max_validation_retries, downstream_authorized}
use deb_builder.Orchestrator.Validating.{
  is_transient_validation, is_active_attempt, is_full_queue, required_policy, row_or, forget_intent,
  disable_downstream, start_admission, delay_admission, try_admit_row, try_admit, refused_admission,
  failed_admission, settle_admission, validation_failed, settle_attempt, settle_loaded,
  follow_admission, request_validation, admit_unlinked, admit_validation, handle_validation,
  is_admission_error,
}
use deb_builder.Orchestrator.Logic.{Setting, policy, IsRow, Does, Any, GoesOn}
use deb_builder.Orchestrator.Logic
use deb_builder.Orchestrator.Logic.Rules.{
  does_give, does_throw, does_if, does_reads, does_asks, does_caught, does_bind, does_when,
  does_ledger, does_lease, does_try, does_pair, does_maybe, does_then,
}
use deb_builder.Orchestrator.Logic.Records.{
  does_schedule_retry, does_stop, does_succeed, does_reconcile, IsRow?,
}
use deb_builder.Orchestrator.Logic.Publishing.{does_is_closing, does_publish_claim}

module _ {W : Type 0} (c : Setting W) where
  does_forget_intent : (g : Generation) → Does c (forget_intent c.host c.services g) (Any c)
  unfolding forget_intent
  does_forget_intent g = does_when c _ _ (λ b.
      does_try c _ _ (does_asks c _)
        (λ x. does_if c (is_value_error x) _ _ (λ b. does_give c tt tt) (λ b. does_throw c x))
        (λ o q. does_give c tt tt))

  does_disable_downstream :
      (g : Generation) → IsRow c g → Does c (disable_downstream c.host c.services c.entry g) (Any c)
  unfolding disable_downstream
  does_disable_downstream g row =
      does_then c _ _ (does_forget_intent g) (does_stop c g _ _ _ row refl)

  does_start_admission :
      (g : Generation)
      → IsRow c g
      → GoesOn (policy c)
      → Does c (start_admission c.host c.services c.entry g) (IsRow c)
  unfolding start_admission
  does_start_admission g row on = does_ledger c g _ row (λ now. on)

  does_delay_admission :
      (g : Generation)
      → IsRow c g
      → GoesOn (policy c)
      → Does c (delay_admission c.host c.services c.entry g) (Any c)
  unfolding delay_admission
  does_delay_admission g row on =
      does_try c _ _ (does_lease c _ (does_start_admission g row on))
        (λ x.
          does_bind c _ _ (does_is_closing c _)
            (λ o q. does_if c o _ _ (λ b. does_give c tt tt) (λ b. does_throw c x)))
        (λ g' q. does_schedule_retry c g' _ _ q)

  does_try_admit_row :
      (g : Generation)
      → IsRow c g
      → GoesOn (policy c)
      → Does c (try_admit_row c.host c.services c.entry g) (λ pair. IsRow c pair.0)
  unfolding try_admit_row
  does_try_admit_row g row on =
      does_try c _ _ (does_start_admission g row on) (λ x. does_give c (g, err x) row)
        (λ g' q. does_bind c _ _ (does_caught c _ (does_asks c _)) (λ o q'. does_give c (g', o) q))

  does_try_admit :
      (g : Generation)
      → IsRow c g
      → GoesOn (policy c)
      → Does c (try_admit c.host c.services c.entry g) (λ pair. IsRow c pair.0)
  unfolding try_admit
  does_try_admit g row on =
      does_try c _ _ (does_lease c _ (does_try_admit_row g row on))
        (λ x. does_give c (g, err x) row) (λ pair q. does_give c pair q)

  does_refused_admission :
      (g : Generation) (code : Text)
      → IsRow c g
      → Does c (refused_admission c.host c.services c.entry g code) (Any c)
  unfolding refused_admission
  does_refused_admission g code row =
      does_if c (is_full_queue code) _ _
        (λ b.
          does_bind c _ _ (does_reads c _)
            (λ o q. does_when c _ _ (λ b. does_schedule_retry c g code _ row)))
        (λ b. does_stop c g _ _ _ row refl)

  does_failed_admission :
      (g : Generation) (x : Raised)
      → IsRow c g
      → Does c (failed_admission c.host c.services c.entry g x) (Any c)
  unfolding failed_admission
  does_failed_admission g x row =
      does_bind c _ _ (does_is_closing c _)
        (λ o q. does_when c _ _ (λ b. does_stop c g _ _ _ row refl))

  does_settle_admission :
      (g : Generation) (x : Raised)
      → IsRow c g
      → Does c (settle_admission c.host c.services c.entry g x) (Any c)
  unfolding settle_admission
  does_settle_admission g (admission_error code) row = does_refused_admission g code row
  does_settle_admission g (ledger_error x) row = does_failed_admission g _ row
  does_settle_admission g (value_error code) row = does_failed_admission g _ row
  does_settle_admission g (other_error code) row = does_failed_admission g _ row
  does_settle_admission g recursion_error row = does_failed_admission g _ row

  does_validation_failed :
      (g : Generation) (code : Text)
      → IsRow c g
      → Does c (validation_failed c.host c.services c.entry g code) (Any c)
  unfolding validation_failed
  does_validation_failed g code row = does_bind c _ _ (does_asks c _) (λ phase q.
      does_if c
        (phase =t codes "preparation"
          && is_transient_validation (or_text code (codes "validation_failed"))
          && ltb g.validation_retry_count max_validation_retries)
        _ _ (λ b. does_schedule_retry c g _ _ row) (λ b. does_stop c g _ _ _ row refl))

  does_settle_attempt :
      (g : Generation) (w : W) (a : Attempt)
      → IsRow c g
      → GoesOn (policy c)
      → (c.services.load_attempt (text_of g.run_id) (text_of g.validation_attempt_id) w).0 ≡ ok a
      → Does c (settle_attempt c.host c.services c.entry g a) (Any c)
  unfolding settle_attempt
  does_settle_attempt g w a row on answer =
      does_if c (is_active_attempt a.status) _ _ (λ b. does_give c tt tt)
        (λ active.
          does_if c (a.status =t codes "cancelled") _ _ (λ b. does_stop c g _ _ _ row refl)
            (λ cancelled.
              does_if c (a.status =t codes "failed") _ _
                (λ b. does_validation_failed g a.error_code row)
                (λ failed.
                  does_if c (same_policy g.desired_policy build_validate) _ _
                    (λ b.
                      does_succeed c g _ _ row (
                        Logic.validated w g a row.2 answer (rw row.1 at b) active cancelled failed))
                    (λ b. does_publish_claim c g _ row (on, rw row.1 at b)))))

  does_settle_raised :
      (g : Generation) (x : Raised)
      → IsRow c g
      → Does c (settle_loaded c.host c.services c.entry g (err x)) (Any c)
  unfolding settle_loaded
  does_settle_raised g (admission_error code) row = does_stop c g _ _ _ row refl
  does_settle_raised g (ledger_error x) row = does_throw c _
  does_settle_raised g (value_error code) row = does_throw c _
  does_settle_raised g (other_error code) row = does_throw c _
  does_settle_raised g recursion_error row = does_throw c _

  module _ (handle : Entry → Generation → Action W (Unit {0}))
      (does_handle : (g : Generation) → IsRow c g → Does c (handle c.entry g) (Any c)) where
    does_follow_admission :
        (g : Generation) (id : Text)
        → IsRow c g
        → GoesOn (policy c)
        → Does c (follow_admission c.host c.services handle c.entry g id) (Any c)
    unfolding follow_admission
    does_follow_admission g id row on = does_bind c _ _ (does_ledger c g _ row (λ now. on)) (λ g' q.
        does_try c _ _ (does_asks c _)
          (λ x.
            does_if c (is_admission_error c.host c.services x) _ _ (λ b. does_give c tt tt)
              (λ b. does_throw c x))
          (λ a q'. does_when c _ _ (λ b. does_handle g' q)))

    does_request_validation :
        (g : Generation)
        → IsRow c g
        → GoesOn (policy c)
        → Does c (request_validation c.host c.services handle c.entry g) (Any c)
    unfolding request_validation
    does_request_validation g row on =
        does_pair c _ _ (does_try_admit g row on) (λ g' x q. does_settle_admission g' x q)
          (λ g' id q. does_follow_admission g' id q on)

    does_admit_unlinked :
        (g : Generation)
        → IsRow c g
        → GoesOn (policy c)
        → Does c (admit_unlinked c.host c.services handle c.entry g) (Any c)
    unfolding admit_unlinked
    does_admit_unlinked g row on = does_bind c _ _ (does_reads c _) (λ recipe q.
        does_if c (downstream_authorized recipe (required_policy g.desired_policy)) _ _
          (λ b. does_bind c _ _ (does_reads c _) (λ manager q.
            does_if c manager _ _ (λ b. does_request_validation g row on)
              (λ b. does_delay_admission g row on)))
          (λ b. does_disable_downstream g row))

    pub does_admit_validation :
        (g : Generation)
        → IsRow c g
        → GoesOn (policy c)
        → Does c (admit_validation c.host c.services handle c.entry g) (Any c)
    unfolding admit_validation
    does_admit_validation g row on = does_bind c _ _ (does_reads c _) (λ o q. does_when c _ _ (λ b.
        does_maybe c _ _ (does_reconcile c g row on) (λ q. does_admit_unlinked g row on)
          (λ g' q. does_handle g' q)))

  row_or-IsRow :
      (g : Generation) (r : Option Generation) → IsRow c g → IsRow? c r → IsRow c (row_or g r)
  row_or-IsRow g none row q = row
  row_or-IsRow g (some g') row q = q

  pub does_handle_validation :
      (depth : ℕ) (g : Generation)
      → IsRow c g
      → GoesOn (policy c)
      → Does c (handle_validation c.host c.services depth c.entry g) (Any c)
  unfolding handle_validation
  does_handle_validation zero g row on = does_throw c _
  does_handle_validation (suc depth) g row on = does_bind c _ _ (does_reconcile c g row on) (λ r q.
      let is = row_or-IsRow g r row q in
      does_if c (truthy? (row_or g r).validation_attempt_id) _ _
        (λ b.
          does_try c _ _ (does_asks c _) (λ x. does_settle_raised (row_or g r) x is)
            (λ a (w, answer).
              unfold settle_loaded in does_settle_attempt (row_or g r) w a is on answer))
        (λ b.
          does_admit_validation (handle_validation c.host c.services depth)
            (λ g' q'. does_handle_validation depth g' q' on) (row_or g r) is on))
