-- ===== src/Scheduler/Requests/Covered.antt =====
-- debbuilder/automation_scheduler.py: which requests are kept, and how many, under any interleaving of
-- callers, passes and checks.
use deb_builder.Base.{
  suc, ◌≤◌, ◌≡◌, ◌≢◌, refl, Bool, true, false, not, Text, List, [], ◌∷◌, Option, none, some, length,
  =t_refl, Result, ok, err, if◌then◌else◌, arith,
}
use deb_builder.Scheduler.RetryStore.{max_recipes}
use deb_builder.Scheduler.Requests.{
  Refusal, has, add, minus, common, Scheduler, request, request_orchestration, is_served,
  request_recipe, request_observation, stop, take_wake, only_observe, begin_pass, take_inventory,
  begin_check, check_finished, result_complete, end_pass, after_pass,
}

has-add : (t : Text) (s : List Text) → has t (add t s) ≡ true
unfolding add has
has-add t s = ground (arith, =t_refl t)

length-add : (t : Text) (s : List Text) → length (add t s) ≤ suc (length s)
unfolding add
length-add t s = ground arith

length-minus : (s taken : List Text) → length (minus s taken) ≤ length s
unfolding minus
length-minus [] taken = omega arith
length-minus (t ∷ s) taken = ground (arith, length-minus s taken)

-- What a caller, the scheduler's thread or a worker does next.
pub data Event : Type 0 where
  asked asked_orchestration stopped woken ended : Event
  asked_recipe : Bool → Text → Event
  asked_observation : Text → Event
  begun : Bool → Event
  delayed check_begun check_ended result_ended : Text → Event
  inventory : List Text → Event
  pass_over : Bool → Event

after_request : Scheduler → Result Refusal (Bool × Scheduler) → Scheduler
after_request s (ok (created, s')) = s'
after_request s (err e) = s

after_begin : Scheduler → Option Scheduler → Scheduler
after_begin s none = s
after_begin s (some s') = s'

unfoldable pub happen : Scheduler → Event → Scheduler
unfolding after_request after_begin
happen s asked = (request s).1
happen s asked_orchestration = (request_orchestration s).1
happen s (asked_recipe open_ t) = after_request s (request_recipe open_ t s)
happen s (asked_observation t) = after_request s (request_observation t s)
happen s stopped = stop s
happen s woken = take_wake s
happen s (begun followup) = after_begin s (begin_pass followup s)
happen s (delayed t) = only_observe t s
happen s (check_begun t) = begin_check t s
happen s (check_ended t) = check_finished t s
happen s (result_ended t) = result_complete t s
happen s (inventory recipe_ids) = take_inventory recipe_ids s
happen s ended = end_pass s
happen s (pass_over followup) = (after_pass followup s).1

unfoldable pub happen_all : Scheduler → List Event → Scheduler
happen_all s [] = s
happen_all s (e ∷ es) = happen_all (happen s e) es

recipe_bounded :
    (open_ : Bool) (t : Text) (s : Scheduler)
    → length s.requested_recipes ≤ max_recipes
    → length (after_request s (request_recipe open_ t s)).requested_recipes ≤ max_recipes
unfolding after_request request_recipe
recipe_bounded open_ t s h = ground (arith, length-add t s.requested_recipes)

observation_bounded :
    (t : Text) (s : Scheduler)
    → length s.requested_recipes ≤ max_recipes
    → length (after_request s (request_observation t s)).requested_recipes ≤ max_recipes
unfolding after_request request_observation
observation_bounded t s h = ground (arith, length-add t s.requested_recipes)

happen_bounded :
    (s : Scheduler) (e : Event)
    → length s.requested_recipes ≤ max_recipes
    → length (happen s e).requested_recipes ≤ max_recipes
unfolding happen request request_orchestration stop take_wake begin_pass only_observe begin_check
    check_finished result_complete take_inventory end_pass after_pass
happen_bounded s (asked_recipe open_ t) h = recipe_bounded open_ t s h
happen_bounded s (asked_observation t) h = observation_bounded t s h
happen_bounded s (inventory recipe_ids) h = omega (
  arith,
  length-minus s.requested_recipes
      (if s.accept_followup then common s.requested_recipes recipe_ids else s.requested_recipes),
)
happen_bounded s (begun followup) h = ground arith
happen_bounded s asked h = ground arith
happen_bounded s asked_orchestration h = ground arith
happen_bounded s (check_begun t) h = ground arith
happen_bounded s (pass_over followup) h = ground arith
happen_bounded s stopped h = omega arith
happen_bounded s _ h = h

-- Whatever happens, a scheduler whose queue is within the capacity of 256 Recipes keeps it there.
pub happen_all_bounded :
    (s : Scheduler) (es : List Event)
    → length s.requested_recipes ≤ max_recipes
    → length (happen_all s es).requested_recipes ≤ max_recipes
unfolding happen_all
happen_all_bounded s [] h = h
happen_all_bounded s (e ∷ es) h = happen_all_bounded (happen s e) es (happen_bounded s e h)

-- An observation that is accepted is served: the Recipe is queued, or a check of it is running, or the
-- pass has still to come to it. It was created exactly if it was not served before, and is then queued
-- as an observation.
pub request_observation_lem :
    (t : Text) (s after : Scheduler) (created : Bool)
    → request_observation t s ≡ ok (created, after)
    → (created ≡ not (is_served t s))
      × (is_served t after ≡ true)
      × (created ≡ true → (has t after.requested_observations ≡ true))
unfolding request_observation is_served
request_observation_lem t s after created h = (
  ground arith,
  ground (arith, has-add t s.requested_recipes),
  λ fresh. ground (arith, has-add t s.requested_observations),
)

-- A scheduler that has stopped.
pub record IsStopped (s : Scheduler) : Type 0 where
  pub stopping : s.stop_requested ≡ true
  pub closed : s.accepting ≡ false
  pub empty_queue : s.requested_recipes ≡ []

minus-empty : (s taken : List Text) → s ≡ [] → minus s taken ≡ []
unfolding minus
minus-empty s taken h = rw h

recipe_refused :
    (open_ : Bool) (t : Text) (s : Scheduler)
    → IsStopped s
    → (r : Bool × Scheduler) → request_recipe open_ t s ≢ ok r
unfolding request_recipe
recipe_refused open_ t s h r e = ground arith

observation_refused :
    (t : Text) (s : Scheduler)
    → IsStopped s
    → (r : Bool × Scheduler) → request_observation t s ≢ ok r
unfolding request_observation
observation_refused t s h r e = ground arith

after_refused :
    (s : Scheduler) (r : Result Refusal (Bool × Scheduler))
    → IsStopped s
    → ((x : Bool × Scheduler) → r ≢ ok x)
    → IsStopped (after_request s r)
unfolding after_request
after_refused s (ok x) h none_ok = absurd (none_ok x refl)
after_refused s (err e) h none_ok = h

happen-IsStopped : (s : Scheduler) (e : Event) → IsStopped s → IsStopped (happen s e)
unfolding happen request request_orchestration stop take_wake begin_pass only_observe begin_check
    check_finished result_complete take_inventory end_pass after_pass
happen-IsStopped s (asked_recipe open_ t) h =
    after_refused s (request_recipe open_ t s) h (recipe_refused open_ t s h)
happen-IsStopped s (asked_observation t) h =
    after_refused s (request_observation t s) h (observation_refused t s h)
happen-IsStopped s (inventory recipe_ids) h = record {
  stopping = h.stopping;
  closed = h.closed;
  empty_queue = minus-empty s.requested_recipes _ h.empty_queue;
}
happen-IsStopped s (begun followup) h = ground arith
happen-IsStopped s asked h = ground arith
happen-IsStopped s asked_orchestration h = ground arith
happen-IsStopped s (check_begun t) h = ground arith
happen-IsStopped s (pass_over followup) h = ground arith
happen-IsStopped s stopped h = record { stopping = refl; closed = refl; empty_queue = refl }
happen-IsStopped s woken h = ground arith
happen-IsStopped s ended h = ground arith
happen-IsStopped s (delayed t) h = ground arith
happen-IsStopped s (check_ended t) h = ground arith
happen-IsStopped s (result_ended t) h = ground arith

happen_all-IsStopped : (s : Scheduler) (es : List Event) → IsStopped s → IsStopped (happen_all s es)
unfolding happen_all
happen_all-IsStopped s [] h = h
happen_all-IsStopped s (e ∷ es) h = happen_all-IsStopped (happen s e) es (happen-IsStopped s e h)

pass_refused : (followup : Bool) (s : Scheduler) → IsStopped s → begin_pass followup s ≡ none
unfolding begin_pass
pass_refused followup s h = ground arith

request_refused :
    (s : Scheduler) → IsStopped s → ((request s).0 ≡ false) × ((request_orchestration s).0 ≡ false)
unfolding request request_orchestration
request_refused s h = (ground arith, ground arith)

-- After a stop, whatever happens, the scheduler stays stopped with an empty queue, no pass begins, and
-- each kind of request is refused.
pub stop_is_final :
    (s : Scheduler) (es : List Event) (followup open_ : Bool) (t : Text)
    → IsStopped (happen_all (stop s) es)
      × (begin_pass followup (happen_all (stop s) es) ≡ none)
      × ((request (happen_all (stop s) es)).0 ≡ false)
      × ((request_orchestration (happen_all (stop s) es)).0 ≡ false)
      × ((r : Bool × Scheduler) → request_recipe open_ t (happen_all (stop s) es) ≢ ok r)
      × ((r : Bool × Scheduler) → request_observation t (happen_all (stop s) es) ≢ ok r)
stop_is_final s es followup open_ t =
    let begun : IsStopped (stop s) =
      unfold stop in record { stopping = refl; closed = refl; empty_queue = refl } in
    let h = happen_all-IsStopped (stop s) es begun in
    let (asked_none, orchestration_none) = request_refused (happen_all (stop s) es) h in
    (
      h,
      pass_refused followup (happen_all (stop s) es) h,
      asked_none,
      orchestration_none,
      recipe_refused open_ t (happen_all (stop s) es) h,
      observation_refused t (happen_all (stop s) es) h,
    )
