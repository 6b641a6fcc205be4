-- ===== src/Orchestrator/Logic.antt =====
-- debbuilder/automation_orchestrator.py: what an action on one claim may do to the ledger: calls of
-- the ledger's operations on that claim, each of a kind that the claim's policy allows.
pub mod Rules
pub mod Records
pub mod Publishing
pub mod Validating
pub mod Reserving
pub mod Enqueuing
pub mod Admitting
pub mod Advancing
pub mod Invariant
pub mod Passes
use deb_builder.Base.{
  ℕ, ◌≤◌, ◌≡◌, refl, sym, ◌∙◌, subst, ap, ◌⊎◌, Bool, true, false, any, Text, List, [], ◌∷◌, ◌++◌,
  codes, Option, none, some, is_some, Result, ok, err, if◌then◌else◌, arith, Result-cases,
  Option-cases, ◌=t◌, ◌&&◌, ◌||◌,
}
use deb_builder.Base
use deb_builder.Ledger.Row.{
  Error, Generation, Policy, Stage, Classification, success, transient_retryable, blocked_manual,
  terminal_failure, cancelled, disabled, no_retry, transient, operator, test, build, build_validate,
  run, validation, validation_admission, publication, same_policy,
}
use deb_builder.Ledger.Rows.{Outcome}
use deb_builder.Ledger.Rows.Lifecycle.{Reach, Reach-Monotone, Monotone}
use deb_builder.Ledger.Validate.Table.{WellFormed, IsAbsent, IsPresent}
use deb_builder.Ledger.Document.{Entry, Document}
use deb_builder.Ledger.Store.{Host, load}
use deb_builder.Ledger.Store.Update.{row?, load-Valid}
use deb_builder.Ledger.Store.Commands.{Call, run_call, run_call_lem, row?-WellFormed}
use deb_builder.Ledger.Store.Commands
use deb_builder.Ledger.Store.Histories.{
  exec, exec_all, exec_all-loads, exec_all-Lives, exec_all-append, exec-one, outcome, Reach-trans,
  Lives,
}
use deb_builder.Orchestrator.Services.{
  Services, Raised, Run, Publication, Attempt, Reads, Asks, ledger_error,
}
use deb_builder.Orchestrator.Effects.{
  System, Action, give, throw, reads, asks, caught, when, ◌>>=◌, ledger_call, read_ledger,
  with_lease,
}
use deb_builder.Orchestrator.Publishing.{find_publication}
use deb_builder.Orchestrator.Records.{text_of}
use deb_builder.Orchestrator.Reserving.{owns_identity}
use deb_builder.Orchestrator.Admitting.{is_successful_run}
use deb_builder.Orchestrator.Validating.{is_active_attempt}

-- The policies that go on after a Build, and those that publish.
abbrev pub GoesOn : Policy → Type 0
GoesOn p = (same_policy p test ≡ false) × (same_policy p build ≡ false)

abbrev pub Publishes : Policy → Type 0
Publishes p = GoesOn p × (same_policy p build_validate ≡ false)

-- The stages to which a claim under a policy may advance.
abbrev pub AllowsStage : Policy → Stage → Type 0
AllowsStage p run = Unit {0}
AllowsStage p validation_admission = GoesOn p
AllowsStage p validation = GoesOn p
AllowsStage p publication = Publishes p
AllowsStage p _ = false ≡ true

module _ {W : Type 0} (v : Services W) (e : Entry) (p : Policy) (Came : Generation → Type 0) where
  -- What a collaborator has answered before a claim is recorded as a success, asked about the Run and
  -- the attempt of a row `g` that the claim has come to.
  pub data Evidence : Type 0 where
    owned_run :
        (w : W) (g : Generation) (runs : List Run)
        → (v.list_runs w).0 ≡ ok runs
        → Came g
        → any (λ r. owns_identity e g r) runs ≡ true
        → Evidence
    ended_run :
        (w : W) (g : Generation) (r : Run)
        → Came g
        → (v.load_run (text_of g.run_id) w).0 ≡ ok (some r)
        → (same_policy p test || same_policy p build) ≡ true
        → is_successful_run p r.status ≡ true
        → Evidence
    validated :
        (w : W) (g : Generation) (a : Attempt)
        → Came g
        → (v.load_attempt (text_of g.run_id) (text_of g.validation_attempt_id) w).0 ≡ ok a
        → same_policy p build_validate ≡ true
        → is_active_attempt a.status ≡ false
        → a.status =t codes "cancelled" ≡ false
        → a.status =t codes "failed" ≡ false
        → Evidence
    published :
        (w : W) (g : Generation) (found : Text) (r : Run) (q : Publication)
        → Came g
        → (v.load_run (text_of g.run_id) w).0 ≡ ok (some r)
        → find_publication found r.publications ≡ some q
        → v.is_proof q r ≡ true
        → Publishes p
        → Evidence

  -- The arguments of `finish` that go with a classification.
  abbrev pub FitsFinish : Classification → Outcome → Type 0
  FitsFinish transient_retryable o =
      (o.retry_class ≡ transient) × (1 ≤ o.retry_count) × IsPresent o.not_before
  FitsFinish blocked_manual o = (o.retry_class ≡ operator) × IsAbsent o.not_before
  FitsFinish success o = (o.retry_class ≡ no_retry) × IsAbsent o.not_before × Evidence
  FitsFinish _ o = (o.retry_class ≡ no_retry) × IsAbsent o.not_before

  abbrev pub Fits : Call → Type 0
  Fits (Commands.finish_call now c o) = FitsFinish c o
  Fits (Commands.advance now stage val pub_id) = AllowsStage p stage
  Fits _ = Unit {0}

-- Calls on generation `n` of an attempt, under its policy.
abbrev pub AllOwn :
    {W : Type 0}
    → Services W
    → Entry
    → Policy
    → (Generation → Type 0)
    → ℕ
    → List (Text × ℕ × Call)
    → Type 0
AllOwn v e p Came n [] = Unit {0}
AllOwn v e p Came n ((k, m, c) ∷ rest) =
    (k ≡ e.key) × (m ≡ n) × Fits v e p Came c × AllOwn v e p Came n rest

-- A claim: generation `n` of an attempt, as it was when it was taken up.
pub record Setting (W : Type 0) : Type 0 where
  pub host : Host
  pub services : Services W
  pub entry : Entry
  pub n : ℕ
  pub start : Generation
  pub is_formed : WellFormed host.platform.iso n start

module _ {W : Type 0} (c : Setting W) where
  abbrev pub policy : Policy
  policy = c.start.desired_policy

  -- The ledger loads, and the claim's row has lived on from the start.
  abbrev pub Holds : Document → Type 0
  Holds d = (load c.host d ≡ ok d) × Lives c.host c.entry.key c.n c.start d

  -- A row to which accepted operations lead from the start.
  abbrev pub Came : Generation → Type 0
  Came r = Reach c.host.platform.iso c.n c.start r

  -- A row that the ledger returned for the claim.
  abbrev pub IsRow : Generation → Type 0
  IsRow r = (r.generation ≡ c.n) × (r.desired_policy ≡ policy) × Came r

  abbrev pub Did : Document → Document → Type 0
  Did before after =
      (calls : List (Text × ℕ × Call)) × AllOwn c.services c.entry policy Came c.n calls
      × (after ≡ exec_all c.host calls before)

  -- An action makes only such calls, and a value that it returns has the property `P`.
  pub record Does {A : Type 0} (m : Action W A) (P : A → Type 0) : Type 0 where
    pub does :
        (s : System W) → Holds s.disk → Did s.disk (m s).1.disk × ((a : A) → (m s).0 ≡ ok a → P a)

  abbrev pub Any : {A : Type 0} → A → Type 0
  Any a = Unit {0}
