-- ===== src/Tests/Requests.antt =====
-- Requests to the scheduler, at one Recipe.
use deb_builder.Base.{
  ◌≤◌, ◌≡◌, ◌≢◌, Bool, true, false, Text, List, [], ◌∷◌, codes, none, length, ok, arith,
}
use deb_builder.Scheduler.RetryStore.{max_recipes}
use deb_builder.Scheduler.Requests.{
  Scheduler, request, request_orchestration, request_recipe, request_observation, stop, begin_pass,
}
use deb_builder.Scheduler.Requests.Covered.{
  happen_all, asked_recipe, asked_observation, begun, inventory, ended, asked, IsStopped,
  happen_all_bounded, request_observation_lem, stop_is_final,
}
use deb_builder.Scheduler.Requests.Covered

abbrev fresh : Scheduler
fresh = record {
  wake_requested = true;
  stop_requested = false;
  pass_active = false;
  inventory_ready = false;
  accept_followup = false;
  running = true;
  accepting = true;
  enabled = true;
  pass_recipes = [];
  inflight = [];
  observation_only = [];
  requested_recipes = [];
  requested_observations = [];
}

abbrev tool : Text
tool = codes "tool"

abbrev busy_hour : List Covered.Event
busy_hour =
    asked_recipe true tool
    ∷ begun true
    ∷ inventory (tool ∷ [])
    ∷ asked_observation tool
    ∷ ended
    ∷ []

happen_all_bounded_example : length (happen_all fresh busy_hour).requested_recipes ≤ max_recipes
happen_all_bounded_example = happen_all_bounded fresh busy_hour (omega arith)

abbrev queued : Scheduler
queued = record fresh { requested_recipes = tool ∷ [] }

abbrev observed : Scheduler
observed = record queued { requested_observations = tool ∷ [] }

stop_is_final_example :
    IsStopped (happen_all (stop queued) busy_hour)
    × (begin_pass true (happen_all (stop queued) busy_hour) ≡ none)
    × ((request (happen_all (stop queued) busy_hour)).0 ≡ false)
    × ((request_orchestration (happen_all (stop queued) busy_hour)).0 ≡ false)
    × ((r : Bool × Scheduler)
        → request_recipe true tool (happen_all (stop queued) busy_hour) ≢ ok r)
    × ((r : Bool × Scheduler)
        → request_observation tool (happen_all (stop queued) busy_hour) ≢ ok r)
stop_is_final_example = stop_is_final queued busy_hour true true tool
