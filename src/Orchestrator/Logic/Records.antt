-- ===== src/Orchestrator/Logic/Records.antt =====
-- debbuilder/automation_orchestrator.py: the outcomes that the orchestrator records fit their
-- classification, and a claim is linked to a Validation only under a policy that validates.
use deb_builder.Base.{
  ℕ, ◌≡◌, ◌≢◌, refl, Bool, true, false, Text, List, [], ◌∷◌, Option, none, some, arith,
}
use deb_builder.Ledger.Row.{
  Generation, Classification, success, terminal_failure, transient_retryable, blocked_manual,
  cancelled, disabled,
}
use deb_builder.Ledger.Store.{is_id}
use deb_builder.Orchestrator.Records.{
  schedule_retry, finish_claim, tell, delay, retry_outcome, final_outcome, find_link, link_attempt,
  reconcile_validation_link,
}
use deb_builder.Orchestrator.Logic.{
  Setting, policy, Came, IsRow, Does, Any, FitsFinish, GoesOn, Evidence,
}
use deb_builder.Orchestrator.Logic.Rules.{
  does_give, does_throw, does_if, does_reads, does_asks, does_caught, does_bind, does_when,
  does_ledger, does_then, does_last, does_try,
}

abbrev pub is_stop : Classification → Bool
is_stop success = false
is_stop transient_retryable = false
is_stop _ = true

module _ {W : Type 0} (c : Setting W) where
  does_delay : (count : ℕ) → Does c (delay c.host c.services count) (Any c)
  unfolding delay
  does_delay count = does_bind c _ _ (does_reads c _) (λ a q. does_give c _ tt)

  pub does_schedule_retry :
      (g : Generation) (code diagnostic : Text)
      → IsRow c g
      → Does c (schedule_retry c.host c.services c.entry g code diagnostic) (Any c)
  unfolding schedule_retry retry_outcome
  does_schedule_retry g code diagnostic row =
      does_bind c _ _ (does_delay _)
        (λ t q. does_last c _ (does_ledger c g _ row (λ now. (refl, omega arith, refl))))

  final_outcome-fits :
      (g : Generation) (kind : Classification) (code diagnostic : Text)
      → kind ≢ transient_retryable
      → (kind ≡ success → Evidence c.services c.entry (policy c) (Came c))
      → FitsFinish c.services c.entry
          (policy c)
          (Came c)
          kind
          (final_outcome g kind code diagnostic)
  unfolding final_outcome
  final_outcome-fits g success code diagnostic ne proof = (refl, refl, proof refl)
  final_outcome-fits g terminal_failure code diagnostic ne proof = (refl, refl)
  final_outcome-fits g transient_retryable code diagnostic ne proof = absurd (ne refl)
  final_outcome-fits g blocked_manual code diagnostic ne proof = (refl, refl)
  final_outcome-fits g cancelled code diagnostic ne proof = (refl, refl)
  final_outcome-fits g disabled code diagnostic ne proof = (refl, refl)

  does_tell :
      (g : Generation) (kind : Classification) (code : Text)
      → Does c (tell c.host c.services c.entry g kind code) (Any c)
  unfolding tell
  does_tell g kind code = does_when c _ _ (λ b. does_last c _ (does_caught c _ (does_asks c _)))

  -- An outcome is recorded with the arguments that go with its classification, and a success with what
  -- speaks for it.
  does_finish :
      (g : Generation) (kind : Classification) (code diagnostic : Text)
      → IsRow c g
      → kind ≢ transient_retryable
      → (kind ≡ success → Evidence c.services c.entry (policy c) (Came c))
      → Does c (finish_claim c.host c.services c.entry g kind code diagnostic) (Any c)
  unfolding finish_claim
  does_finish g kind code diagnostic row ne proof =
      does_bind c _ _
        (does_ledger c g _ row (λ now. final_outcome-fits g kind code diagnostic ne proof))
        (λ r q. does_when c _ _ (λ b.
          does_then c _ _ (does_tell g kind code)
            (does_last c _ (does_ledger c g _ row (λ now. tt)))))

  pub does_stop :
      (g : Generation) (kind : Classification) (code diagnostic : Text)
      → IsRow c g
      → is_stop kind ≡ true
      → Does c (finish_claim c.host c.services c.entry g kind code diagnostic) (Any c)
  does_stop g kind code diagnostic row stops =
      does_finish g kind code diagnostic row (λ eq. cc) (λ eq. cc)

  pub does_succeed :
      (g : Generation) (code diagnostic : Text)
      → IsRow c g
      → Evidence c.services c.entry (policy c) (Came c)
      → Does c (finish_claim c.host c.services c.entry g success code diagnostic) (Any c)
  does_succeed g code diagnostic row proof =
      does_finish g success code diagnostic row (λ eq. cc) (λ eq. proof)

  -- What reconciliation returns is a row of the claim.
  abbrev pub IsRow? : Option Generation → Type 0
  IsRow? none = Unit {0}
  IsRow? (some g) = IsRow c g

  does_link :
      (g : Generation) (id : Text)
      → IsRow c g
      → GoesOn (policy c)
      → Does c (link_attempt c.host c.services c.entry g id) IsRow?
  unfolding link_attempt
  does_link g id row on =
      does_if c (is_id id g.validation_attempt_id) _ _ (λ b. does_give c none tt)
        (λ b. does_bind c _ _ (does_ledger c g _ row (λ now. on)) (λ r q. does_give c (some r) q))

  does_find_link :
      (g : Generation) (attempts : List Text)
      → IsRow c g
      → GoesOn (policy c)
      → Does c (find_link c.host c.services c.entry g attempts) IsRow?
  unfolding find_link
  does_find_link g [] row on = does_give c none tt
  does_find_link g (id ∷ rest) row on =
      does_try c _ _ (does_asks c _)
        (λ x. does_if c _ _ _ (λ b. does_find_link g rest row on) (λ b. does_throw c x))
        (λ m q. does_if c _ _ _ (λ b. does_link g id row on) (λ b. does_find_link g rest row on))

  pub does_reconcile :
      (g : Generation)
      → IsRow c g
      → GoesOn (policy c)
      → Does c (reconcile_validation_link c.host c.services c.entry g) IsRow?
  unfolding reconcile_validation_link
  does_reconcile g row on = does_bind c _ _ (does_asks c _) (λ ids q. does_find_link g _ row on)
