-- ===== src/Orchestrator/Logic/Enqueuing.antt =====
-- debbuilder/automation_orchestrator.py: the admission under the lease makes only calls on its claim.
use deb_builder.Base.{◌≡◌, ◌≢◌, refl, Bool, Option, none, some, Result, ok, err}
use deb_builder.Ledger.Row.{Generation}
use deb_builder.Orchestrator.Services.{Raised, Recipe}
use deb_builder.Orchestrator.Authority.{initial_authorized, downstream_authorized}
use deb_builder.Orchestrator.Enqueuing.{
  Verdict, owned, created, enqueue, enqueue_live, enqueue_current, try_reserved, try_unowned,
  try_admit_run,
}
use deb_builder.Orchestrator.Logic.{Setting, policy, Came, IsRow, Does, Evidence}
use deb_builder.Orchestrator.Logic.Rules.{
  does_give, does_if, does_reads, does_asks, does_caught, does_bind, does_read, does_lease,
  does_try,
}
use deb_builder.Orchestrator.Logic.Reserving.{does_link_created, does_reserve, does_is_owned}

module _ {W : Type 0} (c : Setting W) where
  -- An admission leaves a row of the claim, and says that the identity is owned only if it is.
  abbrev pub IsTried : Generation × Result Raised Verdict → Type 0
  IsTried pair =
      IsRow c pair.0 × (pair.1 ≡ ok owned → Evidence c.services c.entry (policy c) (Came c))

  abbrev IsNew : Verdict → Type 0
  IsNew verdict = verdict ≢ owned

  does_enqueue :
      (g : Generation) (recipe : Recipe)
      → IsRow c g
      → Does c (enqueue c.host c.services c.entry g recipe) IsNew
  unfolding enqueue
  does_enqueue g recipe row = does_bind c _ _ (does_read c) (λ d q.
      does_bind c _ _ (does_asks c _) (λ id q.
        does_bind c _ _ (does_link_created c g id row)
          (λ g' q. does_bind c _ _ (does_asks c _) (λ o q. does_give c created (λ eq. cc)))))

  does_enqueue_live :
      (g : Generation) (live : Option Recipe)
      → IsRow c g
      → Does c (enqueue_live c.host c.services c.entry g live) IsNew
  unfolding enqueue_live
  does_enqueue_live g none row = does_give c _ (λ eq. cc)
  does_enqueue_live g (some live) row =
      does_if c (initial_authorized c.entry g (some live)) _ _ (λ b. does_enqueue g live row)
        (λ b. does_give c _ (λ eq. cc))

  does_enqueue_current :
      (g : Generation) (recipe : Recipe) (existing : Bool)
      → IsRow c g
      → Does c (enqueue_current c.host c.services c.entry g recipe existing) IsNew
  unfolding enqueue_current
  does_enqueue_current g recipe existing row = does_bind c _ _ (does_reads c _) (λ live q.
      does_if c existing _ _
        (λ b.
          does_if c (downstream_authorized live g.desired_policy) _ _
            (λ b. does_enqueue g recipe row) (λ b. does_give c _ (λ eq. cc)))
        (λ b. does_enqueue_live g live row))

  does_try_reserved :
      (g : Generation) (recipe : Recipe) (existing : Bool)
      → IsRow c g
      → Does c (try_reserved c.host c.services c.entry g recipe existing) IsTried
  unfolding try_reserved
  does_try_reserved g recipe existing row =
      does_try c _ _ (does_reserve c g row) (λ x. does_give c (g, err x) (row, λ eq. cc))
        (λ g' q.
          does_bind c _ _ (does_caught c _ (does_enqueue_current g' recipe existing q))
            (λ o q'. does_give c (g', o) (q, λ eq. absurd (q' owned eq refl))))

  does_try_unowned :
      (g : Generation) (recipe : Recipe) (existing : Bool)
      → IsRow c g
      → Does c (try_unowned c.host c.services c.entry g recipe existing) IsTried
  unfolding try_unowned
  does_try_unowned g recipe existing row =
      does_try c _ _ (does_is_owned c g row) (λ x. does_give c (g, err x) (row, λ eq. cc))
        (λ is q.
          does_if c is _ _ (λ b. does_give c (g, ok owned) (row, λ eq. q b))
            (λ b. does_try_reserved g recipe existing row))

  pub does_try_admit_run :
      (g : Generation) (recipe : Recipe) (existing : Bool)
      → IsRow c g
      → Does c (try_admit_run c.host c.services c.entry g recipe existing) IsTried
  unfolding try_admit_run
  does_try_admit_run g recipe existing row =
      does_try c _ _ (does_lease c _ (does_try_unowned g recipe existing row))
        (λ x. does_give c (g, err x) (row, λ eq. cc)) (λ pair q. does_give c pair q)
