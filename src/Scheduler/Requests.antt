-- ===== src/Scheduler/Requests.antt =====
-- debbuilder/automation_scheduler.py: the requests to `AutomationScheduler` and the parts of `run_pass`
-- and `_run` under its condition. Each part is one step; the work of a pass between them is left out.
pub mod Covered
use deb_builder.Base.{
  ℕ, ◌==◌, zero, suc, Bool, true, false, not, ◌&&◌, ◌||◌, Text, List, [], ◌∷◌, Option, none, some,
  any, leb, length, ◌=t◌, is_id_char, matches_class, Result, ok, err, ◌>>=◌, ◌>>◌, refuse,
  if◌then◌else◌,
}
use deb_builder.Scheduler.RetryStore.{max_recipes}

pub data Refusal : Type 0 where
  unsafe_name scheduler_unavailable scheduler_disabled admission_blocked : Refusal
  recipe_capacity scheduler_busy : Refusal

-- A set of Recipe IDs.
unfoldable pub has : Text → List Text → Bool
has t [] = false
has t (s ∷ rest) = s =t t || has t rest

unfoldable pub add : Text → List Text → List Text
add t s = if has t s then s else t ∷ s

unfoldable pub discard : Text → List Text → List Text
discard t [] = []
discard t (s ∷ rest) = let others = discard t rest in if s =t t then others else s ∷ others

unfoldable pub minus : List Text → List Text → List Text
minus [] taken = []
minus (s ∷ rest) taken = let others = minus rest taken in if has s taken then others else s ∷ others

unfoldable pub common : List Text → List Text → List Text
common [] s = []
common (t ∷ rest) s = let others = common rest s in if has t s then t ∷ others else others

unfoldable pub union : List Text → List Text → List Text
union [] s = s
union (t ∷ rest) s = add t (union rest s)

pub record Scheduler : Type 0 where
  pub wake_requested : Bool
  pub stop_requested : Bool
  pub pass_active : Bool
  pub inventory_ready : Bool
  pub accept_followup : Bool
  pub running : Bool
  pub accepting : Bool
  pub enabled : Bool
  pub pass_recipes : List Text
  pub inflight : List Text
  pub observation_only : List Text
  pub requested_recipes : List Text
  pub requested_observations : List Text

unfoldable pub new_scheduler : Bool → Scheduler
new_scheduler enabled = record {
  wake_requested = true;
  stop_requested = false;
  pass_active = false;
  inventory_ready = false;
  accept_followup = false;
  running = true;
  accepting = true;
  enabled = enabled;
  pass_recipes = [];
  inflight = [];
  observation_only = [];
  requested_recipes = [];
  requested_observations = [];
}

-- request
unfoldable pub request : Scheduler → Bool × Scheduler
request s =
    if s.stop_requested || (s.pass_active && not s.accept_followup)
    then (false, s)
    else (true, record s { wake_requested = true })

abbrev pub is_unavailable : Scheduler → Bool
is_unavailable s = s.stop_requested || not s.running || not s.accepting

-- request_orchestration
unfoldable pub request_orchestration : Scheduler → Bool × Scheduler
request_orchestration s =
    if is_unavailable s || (s.pass_active && not s.accept_followup)
    then (false, s)
    else (true, record s { wake_requested = true })

abbrev pub in_pass : Text → Scheduler → Bool
in_pass t s = s.pass_active && s.inventory_ready && has t s.pass_recipes

abbrev pub is_observed : Text → Scheduler → Bool
is_observed t s = has t s.inflight && has t s.observation_only

-- `existing` of `request_recipe`
unfoldable pub is_existing : Text → Scheduler → Bool
is_existing t s =
    not (is_observed t s)
    && ((has t s.inflight && not (is_observed t s)) || has t s.requested_recipes || in_pass t s)

-- The request is queued, and wakes the thread outside a pass.
queue : Text → Scheduler → Scheduler
queue t s = record s {
  requested_recipes = add t s.requested_recipes;
  wake_requested = s.wake_requested || not s.pass_active;
}

-- The last lines of `request_recipe`: the check is no observation any more.
promote : Text → Scheduler → Scheduler
promote t s = record s {
  requested_observations = discard t s.requested_observations;
  observation_only = discard t s.observation_only;
}

-- request_recipe; `open_` is the answer of `admission_open`, and the reply is whether it was created
unfoldable pub request_recipe : Bool → Text → Scheduler → Result Refusal (Bool × Scheduler)
unfolding queue promote
request_recipe open_ t s = do
  refuse (not (matches_class is_id_char t)) unsafe_name
  refuse (is_unavailable s) scheduler_unavailable
  refuse (not s.enabled) scheduler_disabled
  refuse (not open_) admission_blocked
  let existing = is_existing t s
  refuse (not existing && leb max_recipes (length s.requested_recipes)) recipe_capacity
  refuse (not existing && s.pass_active && not s.accept_followup) scheduler_busy
  ok (not existing, promote t (if existing then s else queue t s))

-- `existing` of `request_observation`
unfoldable pub is_served : Text → Scheduler → Bool
is_served t s = has t s.inflight || has t s.requested_recipes || in_pass t s

-- request_observation
unfoldable pub request_observation : Text → Scheduler → Result Refusal (Bool × Scheduler)
unfolding queue
request_observation t s = do
  refuse (not (matches_class is_id_char t)) unsafe_name
  refuse (is_unavailable s) scheduler_unavailable
  let existing = is_served t s
  refuse (not existing && leb max_recipes (length s.requested_recipes)) recipe_capacity
  let queued : Scheduler = record (queue t s) {
    requested_observations = add t s.requested_observations;
  }
  ok (not existing, if existing then s else queued)

-- recipe_activity: queued and checking
unfoldable pub recipe_activity : Text → Scheduler → Result Refusal (Bool × Bool)
recipe_activity t s = do
  refuse (not (matches_class is_id_char t)) unsafe_name
  ok (has t s.requested_recipes, has t s.inflight)

-- stop
unfoldable pub stop : Scheduler → Scheduler
stop s = record s {
  accepting = false;
  stop_requested = true;
  wake_requested = false;
  requested_recipes = [];
  requested_observations = [];
}

-- `_run` leaves its wait.
unfoldable pub take_wake : Scheduler → Scheduler
take_wake s = record s { wake_requested = false }

-- `_eligible` of a Recipe whose retry is delayed.
unfoldable pub only_observe : Text → Scheduler → Scheduler
only_observe t s = record s { observation_only = add t s.observation_only }

-- The first part of `run_pass`; `none`: it returns at once.
unfoldable pub begin_pass : Bool → Scheduler → Option Scheduler
begin_pass followup s =
    if s.pass_active || s.stop_requested
    then none
    else some (record s {
      pass_active = true;
      inventory_ready = false;
      pass_recipes = [];
      observation_only = [];
      accept_followup = followup;
    })

-- The part of `run_pass` that takes the inventory of the Recipes that it found.
unfoldable pub take_inventory : List Text → Scheduler → Scheduler
take_inventory recipe_ids s =
    let satisfied = common s.requested_recipes recipe_ids in
    let taken = if s.accept_followup then satisfied else s.requested_recipes in
    record s {
      pass_recipes = recipe_ids;
      inventory_ready = true;
      observation_only = union (common s.requested_observations satisfied) s.observation_only;
      requested_recipes = minus s.requested_recipes taken;
      requested_observations = minus s.requested_observations taken;
    }

-- A check of a Recipe starts, unless the scheduler stops or one is running.
unfoldable pub begin_check : Text → Scheduler → Scheduler
begin_check t s =
    if s.stop_requested || has t s.inflight then s else record s { inflight = add t s.inflight }

-- The `finally` of `_worker`; `_future_finished` of a check that was cancelled does the same.
unfoldable pub check_finished : Text → Scheduler → Scheduler
check_finished t s = record s { inflight = discard t s.inflight }

-- A result and its handoff are complete.
unfoldable pub result_complete : Text → Scheduler → Scheduler
result_complete t s = record s { pass_recipes = discard t s.pass_recipes }

-- The `finally` of `run_pass`.
unfoldable pub end_pass : Scheduler → Scheduler
end_pass s = record s {
  pass_active = false;
  inventory_ready = false;
  pass_recipes = [];
  observation_only = [];
}

-- The part of `_run` after a pass: whether the next pass is a follow-up.
unfoldable pub after_pass : Bool → Scheduler → Bool × Scheduler
after_pass followup s =
    if s.stop_requested
    then (followup, s)
    else if not followup && (s.wake_requested || not (length s.requested_recipes == 0))
    then (true, record s { wake_requested = true; accept_followup = false })
    else (false, record s { wake_requested = false; accept_followup = false })
