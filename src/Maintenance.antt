-- ===== src/Maintenance.antt =====
-- debbuilder/maintenance.py: `MaintenanceService`, one worker that observes storage and cleans up.
-- Its flags change under the condition, so each part between two acquisitions is one step.
pub mod Trace
use deb_builder.Base.{Bool, true, false, not, ◌&&◌, ◌||◌, List, [], ◌∷◌, if◌then◌else◌}

pub record Service : Type 0 where
  pub refresh_requested : Bool
  pub cleanup_requested : Bool
  pub stop_requested : Bool
  pub pass_active : Bool
  pub accept_followup : Bool

unfoldable pub new_service : Service
new_service = record {
  refresh_requested = true;
  cleanup_requested = false;
  stop_requested = false;
  pass_active = false;
  accept_followup = false;
}

-- `request`; the inventory's `invalidate` is its own, and `invalidates` is whether it is called.
unfoldable pub request : Bool → Bool → Service → Service
request refresh cleanup s =
    if s.stop_requested then s else if s.pass_active && not s.accept_followup then s else record s {
      refresh_requested = s.refresh_requested || refresh;
      cleanup_requested = s.cleanup_requested || cleanup;
    }

unfoldable pub invalidates : Bool → Bool → Service → Bool
invalidates refresh cleanup s = not s.stop_requested && (refresh || cleanup)

unfoldable pub stop : Service → Service
stop s = record s { stop_requested = true; refresh_requested = false; cleanup_requested = false }

-- Where the worker is: in the wait, in a round of a pass with what it was asked for, or gone.
pub data Place : Type 0 where
  waiting gone : Place
  working : Bool → Bool → Place

pub record Worker : Type 0 where
  pub service : Service
  pub place : Place

clear : Service → Service
clear s = record s { refresh_requested = false; cleanup_requested = false }

-- One waking of the wait; `due` is whether the periodic deadline has passed.
unfoldable pub wake : Bool → Service → Worker
unfolding clear
wake due s =
    let idle = not (s.refresh_requested || s.cleanup_requested || s.stop_requested) in
    let s' : Service =
      if idle && due then record s { refresh_requested = true; cleanup_requested = true } else s in
    if s'.stop_requested
    then record { service = clear s'; place = gone }
    else if idle && not due
    then record { service = s; place = waiting }
    else record {
      service = record (clear s') { pass_active = true; accept_followup = true };
      place = working s'.refresh_requested s'.cleanup_requested;
    }

-- What a round does before it takes the condition again: the cleanup, then the collection, unless a
-- stop is seen between them.
pub data Action : Type 0 where
  clean_up collect : Action

unfoldable pub actions : Bool → Bool → Bool → List Action
actions refresh cleanup stopping =
    let collects = if not stopping && (refresh || cleanup) then collect ∷ [] else [] in
    if cleanup then clean_up ∷ collects else collects

-- The end of a round; `needs` is the inventory's answer to `needs_refresh`.
unfoldable pub end_round : Bool → Service → Worker
unfolding clear
end_round needs s =
    let finished : Service = record (clear s) { pass_active = false; accept_followup = false } in
    if s.stop_requested
    then record { service = finished; place = gone }
    else if s.accept_followup && (s.refresh_requested || s.cleanup_requested)
    then record {
      service = record (clear s) { accept_followup = false };
      place = working s.refresh_requested s.cleanup_requested;
    }
    else if needs
    then record { service = record s { accept_followup = false }; place = working true false }
    else record { service = finished; place = waiting }
