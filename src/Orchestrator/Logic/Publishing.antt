-- ===== src/Orchestrator/Logic/Publishing.antt =====
-- debbuilder/automation_orchestrator.py: `_publish` records a success only of a Run in which the store
-- has shown a proved Publication.
use deb_builder.Base.{
  ◌≡◌, refl, true, not, ◌&&◌, Text, Option, none, some, inl, inr, ok, err, truthy, ltb, ◌=t◌, arith,
  Option-cases, codes,
}
use deb_builder.Ledger.Row.{Generation, full}
use deb_builder.Orchestrator.Services.{Raised, Run, Publication}
use deb_builder.Orchestrator.Authority.{max_publication_retries, downstream_authorized}
use deb_builder.Orchestrator.Records.{text_of}
use deb_builder.Orchestrator.Publishing.{
  is_transient_publication, find_publication, publications_of, failure_class, result_code,
  is_closing, proves, last_publication, publication_failed, settle_previous, try_publish_row,
  try_publish, link_publication, settle_result, settle_raise, publish_run, is_unsettled,
  publish_allowed, publish_claim,
}
use deb_builder.Orchestrator.Logic.{Setting, policy, Came, IsRow, Does, Any, Publishes, Evidence}
use deb_builder.Orchestrator.Logic
use deb_builder.Orchestrator.Logic.Rules.{
  does_give, does_if, does_reads, does_asks, does_caught, does_bind, does_when, does_ledger,
  does_lease, does_try, does_pair,
}
use deb_builder.Orchestrator.Logic.Records.{does_schedule_retry, does_stop, does_succeed, is_stop}

module _ {W : Type 0} (c : Setting W) where
  pub does_is_closing : (code : Text) → Does c (is_closing c.host c.services code) (Any c)
  unfolding is_closing
  does_is_closing code =
      does_if c (code =t codes "application_shutting_down") _ _ (λ b. does_give c true tt)
        (λ b. does_bind c _ _ (does_reads c _) (λ o q. does_give c (not o) tt))

  failure_class-is_stop : (code : Text) → is_stop (failure_class code) ≡ true
  failure_class-is_stop code = ground arith

  does_publication_failed :
      (g : Generation) (attempt_id code : Text)
      → IsRow c g
      → Does c (publication_failed c.host c.services c.entry g attempt_id code) (Any c)
  unfolding publication_failed
  does_publication_failed g attempt_id code row =
      does_if c
        (is_transient_publication code && ltb g.publication_retry_count max_publication_retries) _ _
        (λ b. does_schedule_retry c g code _ row)
        (λ b.
          does_bind c _ _ (does_asks c _)
            (λ o q. does_stop c g (failure_class code) code _ row (failure_class-is_stop code)))

  does_settle_previous :
      (g : Generation) (attempt_id : Text) (p : Publication)
      → IsRow c g
      → Publishes (policy c)
      → Does c (settle_previous c.host c.services c.entry g attempt_id p) (Any c)
  unfolding settle_previous
  does_settle_previous g attempt_id p row on =
      does_bind c _ _ (does_ledger c g _ row (λ now. on))
        (λ r q. does_publication_failed r attempt_id _ q)

  does_try_publish_row :
      (g : Generation) (r : Run)
      → IsRow c g
      → Publishes (policy c)
      → Does c (try_publish_row c.host c.services c.entry g r) (λ pair. IsRow c pair.0)
  unfolding try_publish_row
  does_try_publish_row g r row on =
      does_try c _ _ (does_ledger c g _ row (λ now. on)) (λ x. does_give c (g, err x) row)
        (λ g' q. does_bind c _ _ (does_caught c _ (does_asks c _)) (λ o q'. does_give c (g', o) q))

  does_try_publish :
      (g : Generation) (r : Run)
      → IsRow c g
      → Publishes (policy c)
      → Does c (try_publish c.host c.services c.entry g r) (λ pair. IsRow c pair.0)
  unfolding try_publish
  does_try_publish g r row on =
      does_try c _ _ (does_lease c _ (does_try_publish_row g r row on))
        (λ x. does_give c (g, err x) row) (λ pair q. does_give c pair q)

  -- What the store showed when a Publication is taken as proved.
  proves-Evidence :
      (w : W) (g : Generation) (found : Text) (run : Option Run)
      → Came c g
      → (c.services.load_run (text_of g.run_id) w).0 ≡ ok run
      → proves c.host c.services (find_publication found (publications_of run)) run ≡ true
      → Publishes (policy c)
      → Evidence c.services c.entry (policy c) (Came c)
  unfolding proves
  proves-Evidence w g found none row answer proved on = absurd (ground (arith, proved))
  proves-Evidence w g found (some r) row answer proved on =
      elim (Option-cases (find_publication found r.publications)) [
        | inl absent ↦ absurd (ground (arith, absent))
        | inr (q, is) ↦ Logic.published w g found r q row answer is (ground (arith, is)) on
      ]

  does_settle_result :
      (g : Generation) (attempt_id : Text) (result : Publication)
      → IsRow c g
      → Publishes (policy c)
      → Does c (settle_result c.host c.services c.entry g attempt_id result) (Any c)
  unfolding settle_result link_publication
  does_settle_result g attempt_id result row on =
      does_bind c _ _
        (does_if c (truthy result.id) _ _ (λ b. does_ledger c g _ row (λ now. on))
          (λ b. does_give c g row))
        (λ g' q. does_bind c _ _ (does_asks c _) (λ run (w, answer).
          does_if c
            (proves c.host c.services (find_publication result.id (publications_of run)) run) _ _
            (λ proved. does_bind c _ _ (does_asks c _) (λ o q'.
              does_succeed c g' _ _ q (proves-Evidence w g' result.id run q.2 answer proved on)))
            (λ b. does_publication_failed g' attempt_id (result_code result) q)))

  does_settle_raise :
      (g : Generation) (attempt_id : Text) (x : Raised)
      → IsRow c g
      → Does c (settle_raise c.host c.services c.entry g attempt_id x) (Any c)
  unfolding settle_raise
  does_settle_raise g attempt_id x row =
      does_bind c _ _ (does_is_closing _)
        (λ o q. does_when c _ _ (λ b. does_publication_failed g attempt_id _ row))

  does_publish_run :
      (g : Generation) (attempt_id : Text) (run : Option Run)
      → IsRow c g
      → Publishes (policy c)
      → Does c (publish_run c.host c.services c.entry g attempt_id run) (Any c)
  unfolding publish_run
  does_publish_run g attempt_id none row on = does_stop c g _ _ _ row refl
  does_publish_run g attempt_id (some r) row on =
      does_pair c _ _ (does_try_publish g r row on) (λ g' x q. does_settle_raise g' attempt_id x q)
        (λ g' result q. does_settle_result g' attempt_id result q on)

  does_publish_allowed :
      (g : Generation) (attempt_id : Text) (previous : Option Publication)
      → IsRow c g
      → Publishes (policy c)
      → Does c (publish_allowed c.host c.services c.entry g attempt_id previous) (Any c)
  unfolding publish_allowed
  does_publish_allowed g attempt_id none row on =
      does_bind c _ _ (does_asks c _) (λ run q. does_publish_run g attempt_id run row on)
  does_publish_allowed g attempt_id (some p) row on =
      does_if c (is_unsettled c.host c.services g (some p)) _ _
        (λ b. does_settle_previous g attempt_id p row on)
        (λ b. does_bind c _ _ (does_asks c _) (λ run q. does_publish_run g attempt_id run row on))

  does_last_publication : (g : Generation) → Does c (last_publication c.host c.services g) (Any c)
  unfolding last_publication
  does_last_publication g = does_bind c _ _ (does_asks c _) (λ run q. does_give c _ tt)

  pub does_publish_claim :
      (g : Generation) (attempt_id : Text)
      → IsRow c g
      → Publishes (policy c)
      → Does c (publish_claim c.host c.services c.entry g attempt_id) (Any c)
  unfolding publish_claim
  does_publish_claim g attempt_id row on = does_bind c _ _ (does_reads c _) (λ o q.
      does_when c _ _ (λ b. does_bind c _ _ (does_reads c _) (λ recipe q.
        does_if c (downstream_authorized recipe full) _ _
          (λ b.
            does_bind c _ _ (does_last_publication g)
              (λ previous q. does_publish_allowed g attempt_id previous row on))
          (λ b. does_bind c _ _ (does_asks c _) (λ o q. does_stop c g _ _ _ row refl)))))
