-- ===== src/Orchestrator/Enqueuing.antt =====
-- debbuilder/automation_orchestrator.py: the part of `_admit_run` under the lease.
use deb_builder.Base.{
  Bool, true, false, Text, codes, Option, none, some, Result, ok, err, if◌then◌else◌,
}
use deb_builder.Ledger.Row.{Generation, test, same_policy}
use deb_builder.Ledger.Document.{Entry}
use deb_builder.Ledger.Store.{Host}
use deb_builder.Orchestrator.Services.{Services, Raised, Recipe}
use deb_builder.Orchestrator.Effects.{
  Action, give, reads, asks, caught, ◌>>=◌, read_ledger, with_lease,
}
use deb_builder.Orchestrator.Authority.{initial_authorized, downstream_authorized}
use deb_builder.Orchestrator.Records.{text_of, claim_of}
use deb_builder.Orchestrator.Reserving.{link_created, reserve, is_owned}
use deb_builder.Orchestrator.Reasons.{reason}

-- How the admission under the lease ended.
pub data Verdict : Type 0 where
  owned created : Verdict
  stale : Text → Verdict

unfoldable pub stale_code : Bool → Text
stale_code existing =
    if existing
    then codes "automation_run_admission_disabled"
    else codes "recipe_changed_before_run"

unfoldable pub stale_diagnostic : Bool → Text
stale_diagnostic existing =
    if existing then codes "pending_run_admission_disabled" else codes "stale_claim_suppressed"

module _ {W : Type 0} (h : Host) (v : Services W) where
  -- enqueue_run with its `created_callback`
  unfoldable pub enqueue : Entry → Generation → Recipe → Action W Verdict
  enqueue e g recipe = do
    document ← read_ledger h v
    id ← asks (
        v.create (record {
          recipe = recipe;
          run_id = text_of g.preallocated_run_id;
          dry_run = same_policy g.desired_policy test;
          reason = reason e document;
          claim = claim_of e g;
          expected_upstream_identity = e.upstream_identity;
        }))
    _ ← link_created h v e g id
    _ ← asks (v.submit id)
    give created

  unfoldable pub enqueue_live : Entry → Generation → Option Recipe → Action W Verdict
  unfolding stale_code
  enqueue_live e g none = give (stale (stale_code false))
  enqueue_live e g (some live) =
      if initial_authorized e g (some live)
      then enqueue e g live
      else give (stale (stale_code false))

  -- The Recipe is read again under the lease: the snapshot of a pending Run still needs the policy, a
  -- new Run the unchanged Recipe.
  unfoldable pub enqueue_current : Entry → Generation → Recipe → Bool → Action W Verdict
  unfolding enqueue_live stale_code
  enqueue_current e g recipe existing = do
    live ← reads (v.load_recipe e.recipe_id)
    if existing
        then (if downstream_authorized live g.desired_policy
            then enqueue e g recipe
            else give (stale (stale_code true)))
        else enqueue_live e g live

  -- The row as the body of `try` left it, with its end or what was raised.
  unfoldable pub try_reserved :
      Entry → Generation → Recipe → Bool → Action W (Generation × Result Raised Verdict)
  try_reserved e g recipe existing = do
    reserved ← caught (reserve h v e g)
    elim reserved [
      | err x ↦ give (g, err x)
      | ok row ↦ do verdict ← caught (enqueue_current e row recipe existing); give (row, verdict)
    ]

  unfoldable pub try_unowned :
      Entry → Generation → Recipe → Bool → Action W (Generation × Result Raised Verdict)
  unfolding try_reserved
  try_unowned e g recipe existing = do
    ownership ← caught (is_owned h v e g)
    elim ownership [
      | err x ↦ give (g, err x)
      | ok is ↦ if is then give (g, ok owned) else try_reserved e g recipe existing
    ]

  unfoldable pub try_admit_run :
      Entry → Generation → Recipe → Bool → Action W (Generation × Result Raised Verdict)
  unfolding try_unowned
  try_admit_run e g recipe existing = do
    tried ← caught (with_lease h v (try_unowned e g recipe existing))
    elim tried [ err x ↦ give (g, err x) | ok pair ↦ give pair ]
