-- ===== src/Orchestrator/Logic/Admitting.antt =====
-- debbuilder/automation_orchestrator.py: `_admit_run` and `_handle_run` record a success only of a Run
-- that has ended well under a policy that asks for no more, or whose identity a stored Run owns.
use deb_builder.Base.{
  ℕ, zero, suc, ◌≡◌, refl, Bool, true, not, ◌&&◌, Option, none, some, ok, truthy?, ◌=t◌, codes,
  arith,
}
use deb_builder.Ledger.Row.{Generation, test, build, same_policy}
use deb_builder.Ledger.Document.{Entry}
use deb_builder.Orchestrator.Services.{Raised, Recipe, Run, code_or}
use deb_builder.Orchestrator.Effects.{Action}
use deb_builder.Orchestrator.Records.{text_of}
use deb_builder.Orchestrator.Authority.{initial_authorized, downstream_authorized}
use deb_builder.Orchestrator.Validating.{handle_validation}
use deb_builder.Orchestrator.Admitting.{
  settle_run_raise, row_or_raise, current_row, follow_run, settle_verdict, admit_recipe,
  admit_loaded, admit_snapshot, admit_run, settle_success, settle_run, handle_loaded, handle_run,
  is_transient_admission, is_terminal_run, is_successful_run,
}
use deb_builder.Orchestrator.Logic.{Setting, policy, Came, IsRow, Does, Any, GoesOn, Evidence}
use deb_builder.Orchestrator.Logic
use deb_builder.Orchestrator.Logic.Rules.{
  does_give, does_throw, does_if, does_reads, does_asks, does_bind, does_when, does_ledger,
  does_read, does_pair, does_maybe,
}
use deb_builder.Orchestrator.Logic.Records.{does_schedule_retry, does_stop, does_succeed}
use deb_builder.Orchestrator.Logic.Publishing.{does_is_closing}
use deb_builder.Orchestrator.Logic.Validating.{does_admit_validation, does_handle_validation}
use deb_builder.Orchestrator.Logic.Reserving.{read-IsRow}
use deb_builder.Orchestrator.Enqueuing.{Verdict, owned, created, stale}
use deb_builder.Orchestrator.Logic.Enqueuing.{does_try_admit_run}

module _ {W : Type 0} (c : Setting W) where
  does_settle_run_raise :
      (g : Generation) (x : Raised)
      → IsRow c g
      → Does c (settle_run_raise c.host c.services c.entry g x) (Any c)
  unfolding settle_run_raise
  does_settle_run_raise g x row = does_bind c _ _ (does_is_closing c _) (λ o q.
      does_when c _ _ (λ b.
        does_if c (is_transient_admission (code_or (codes "execution_admission_failed") x)) _ _
          (λ b.
            does_bind c _ _ (does_reads c _)
              (λ o q. does_when c _ _ (λ b. does_schedule_retry c g _ _ row)))
          (λ b. does_stop c g _ _ _ row refl)))

  does_row_or_raise :
      (found : Option Generation)
      → ((g : Generation) → found ≡ some g → IsRow c g)
      → Does c (row_or_raise c.host c.services found) (IsRow c)
  unfolding row_or_raise
  does_row_or_raise none is = does_throw c _
  does_row_or_raise (some g) is = does_give c g (is g refl)

  does_current_row :
      (g : Generation) → IsRow c g → Does c (current_row c.host c.services c.entry g) (IsRow c)
  unfolding current_row
  does_current_row g row =
      does_bind c _ _ (does_read c)
        (λ d q. does_row_or_raise _ (read-IsRow c d g.generation row.0 q))

  module _ (handle : Entry → Generation → Action W (Unit {0}))
      (does_handle : (g : Generation) → IsRow c g → Does c (handle c.entry g) (Any c)) where
    does_follow_run :
        (g : Generation)
        → IsRow c g
        → Does c (follow_run c.host c.services handle c.entry g) (Any c)
    unfolding follow_run
    does_follow_run g row = does_bind c _ _ (does_current_row g row) (λ linked q.
        does_bind c _ _ (does_ledger c g _ row (λ now. tt)) (λ r q.
          does_bind c _ _ (does_asks c _) (λ current q.
            does_when c _ _
              (λ b. does_bind c _ _ (does_current_row g row) (λ g' q'. does_handle g' q')))))

    does_settle_verdict :
        (g : Generation) (existing : Bool) (verdict : Verdict)
        → IsRow c g
        → (verdict ≡ owned → Evidence c.services c.entry (policy c) (Came c))
        → Does c (settle_verdict c.host c.services handle c.entry g existing verdict) (Any c)
    unfolding settle_verdict
    does_settle_verdict g existing owned row proof = does_succeed c g _ _ row (proof refl)
    does_settle_verdict g existing (stale code) row proof = does_stop c g _ _ _ row refl
    does_settle_verdict g existing created row proof = does_follow_run g row

    does_admit_recipe :
        (g : Generation) (recipe : Recipe) (existing : Bool)
        → IsRow c g
        → Does c (admit_recipe c.host c.services handle c.entry g recipe existing) (Any c)
    unfolding admit_recipe
    does_admit_recipe g recipe existing row =
        does_pair c _ _ (does_try_admit_run c g recipe existing row)
          (λ g' x q. does_settle_run_raise g' x q.0)
          (λ g' verdict q. does_settle_verdict g' existing verdict q.0 (λ eq. q.1 (cc)))

    does_admit_loaded :
        (g : Generation) (recipe : Option Recipe) (existing : Bool)
        → IsRow c g
        → Does c (admit_loaded c.host c.services handle c.entry g recipe existing) (Any c)
    unfolding admit_loaded
    does_admit_loaded g none existing row = does_stop c g _ _ _ row refl
    does_admit_loaded g (some recipe) existing row = does_admit_recipe g recipe existing row

    does_admit_snapshot :
        (g : Generation)
        → IsRow c g
        → Does c (admit_snapshot c.host c.services handle c.entry g) (Any c)
    unfolding admit_snapshot
    does_admit_snapshot g row =
        does_maybe c _ _ (does_reads c _) (λ q. does_stop c g _ _ _ row refl)
          (λ recipe q. does_admit_recipe g recipe true row)

    pub does_admit_run :
        (g : Generation) (recipe : Option Recipe) (existing : Bool)
        → IsRow c g
        → Does c (admit_run c.host c.services handle c.entry g recipe existing) (Any c)
    unfolding admit_run
    does_admit_run g recipe existing row = does_bind c _ _ (does_reads c _) (λ o q.
        does_when c _ _ (λ b.
          does_if c (not existing && not (initial_authorized c.entry g recipe)) _ _
            (λ b. does_stop c g _ _ _ row refl)
            (λ b.
              does_if c (existing && not (downstream_authorized recipe g.desired_policy)) _ _
                (λ b. does_stop c g _ _ _ row refl)
                (λ b.
                  does_if c (existing && truthy? g.run_id) _ _ (λ b. does_admit_snapshot g row)
                    (λ b. does_admit_loaded g recipe existing row)))))

  -- The Run of a claim has ended well.
  does_settle_success :
      (depth : ℕ) (g : Generation) (w : W) (r : Run)
      → IsRow c g
      → (c.services.load_run (text_of g.run_id) w).0 ≡ ok (some r)
      → is_successful_run g.desired_policy r.status ≡ true
      → Does c (settle_success c.host c.services depth c.entry g) (Any c)
  unfolding settle_success
  does_settle_success depth g w r row answer good =
      let good' : is_successful_run (policy c) r.status ≡ true = rw row.1 at good in
      does_if c (same_policy g.desired_policy test) _ _
        (λ b. does_succeed c g _ _ row (
          let t : same_policy (policy c) test ≡ true = rw row.1 at b in
          Logic.ended_run w g r row.2 answer (ground (arith, t)) good'))
        (λ b.
          does_if c (same_policy g.desired_policy build) _ _
            (λ b'. does_succeed c g _ _ row (
              let t : same_policy (policy c) build ≡ true = rw row.1 at b' in
              Logic.ended_run w g r row.2 answer (ground (arith, t)) good'))
            (λ b'.
              does_admit_validation c (handle_validation c.host c.services depth)
                (λ g' q. does_handle_validation c depth g' q (rw row.1 at b, rw row.1 at b')) g row
                (rw row.1 at b, rw row.1 at b')))

  does_settle_run :
      (depth : ℕ) (g : Generation) (w : W) (r : Run)
      → IsRow c g
      → (c.services.load_run (text_of g.run_id) w).0 ≡ ok (some r)
      → Does c (settle_run c.host c.services depth c.entry g r) (Any c)
  unfolding settle_run
  does_settle_run depth g w r row answer =
      does_if c (not (is_terminal_run r.status)) _ _ (λ b. does_give c tt tt)
        (λ b.
          does_if c (r.status =t codes "cancelled") _ _ (λ b. does_stop c g _ _ _ row refl)
            (λ b.
              does_if c (not (is_successful_run g.desired_policy r.status)) _ _
                (λ b. does_stop c g _ _ _ row refl)
                (λ good. does_settle_success depth g w r row answer (ground (arith, good)))))

  does_handle_loaded :
      (handle : Entry → Generation → Action W (Unit {0}))
      → ((g : Generation) → IsRow c g → Does c (handle c.entry g) (Any c))
      → (depth : ℕ) (g : Generation) (w : W) (r : Run) → IsRow c g
      → (c.services.load_run (text_of g.run_id) w).0 ≡ ok (some r)
      → Does c (handle_loaded c.host c.services handle depth c.entry g (some r)) (Any c)
  unfolding handle_loaded
  does_handle_loaded handle does_handle depth g w r row answer =
      does_if c (r.status =t codes "pending") _ _
        (λ b.
          does_bind c _ _ (does_reads c _)
            (λ recipe q. does_admit_run handle does_handle g recipe true row))
        (λ b. does_settle_run depth g w r row answer)

  pub does_handle_run :
      (depth : ℕ) (g : Generation)
      → IsRow c g
      → Does c (handle_run c.host c.services depth c.entry g) (Any c)
  unfolding handle_run
  does_handle_run zero g row = does_throw c _
  does_handle_run (suc depth) g row =
      does_maybe c _ _ (does_asks c _) (λ q. unfold handle_loaded in does_stop c g _ _ _ row refl)
        (λ r (w, answer).
          does_handle_loaded (handle_run c.host c.services depth) (does_handle_run depth) depth g w
            r row answer)
