-- ===== src/Tests/Services.antt =====
-- The properties of the services that run in threads, at short runs.
use deb_builder.Base.{
  ℕ, ◌≤◌, ◌<◌, ◌+◌, ◌-◌, ◌≡◌, ◌≢◌, ◌↔◌, ◌⊎◌, refl, inl, inr, Bool, true, false, Text, List, [], ◌∷◌,
  ◌++◌, codes, Option, none, some, arith, min, Result, ok, err, ◌=t◌, ◌||◌,
}
use deb_builder.Base
use deb_builder.Base.Dict.{Dict, lookup, insert, remove}
use deb_builder.Gate.{Gate, Report, wait_for_quiescence}
use deb_builder.Gate.Trace as Trace
use deb_builder.Gate.Trace.{
  enter, leave, shutdown, active-eq-held, closed_stays, wait_for_quiescence_lem,
  wait_for_quiescence_answers,
}
use deb_builder.Cancellation.{new_control}
use deb_builder.Cancellation.Settle
use deb_builder.Cancellation.Settle.{
  cancel, terminal, call_all-IsConsistent, count_wins-le-one, settled_stays,
}
use deb_builder.Maintenance.{Worker, waiting}
use deb_builder.Maintenance.Trace as Rounds
use deb_builder.Maintenance.Trace.{
  asked, stopped, advances, happen_all-IsConsistent, request_served, stop_ends, followup_ends,
  Covers,
}
use deb_builder.Scheduler.RetryStore.{
  Row, transient, validate, record_row, clear_row, same_row, check_row, is_timestamp, check_rows,
  save, recorded,
}
use deb_builder.Scheduler.RetryStore.Laws.{record_row_lem}
use deb_builder.Scheduler.Outcome.{Detection, Clock, retry_row}
use deb_builder.Scheduler.Outcome.Counting.{retry_row_lem, DelayedAs}
use deb_builder.Tests.Data.{some_hex, noon, one, plain}

abbrev two_events : List Trace.Event
two_events = enter ∷ enter ∷ leave ∷ shutdown ∷ enter ∷ []

active-eq-held_example :
    (Trace.happen_all Trace.start two_events).gate.active
    ≡ (Trace.happen_all Trace.start two_events).held
active-eq-held_example = active-eq-held two_events

abbrev closing : Trace.World
closing = record { gate = record { accepting = false; active = 2 }; held = 2 }

abbrev wakings : List (ℕ × Gate)
wakings = (3, closing.gate) ∷ (10, closing.gate) ∷ []

abbrev late : Report
late = record { complete = false; admission_closed = true; active_mutations = 2; timed_out = true }

wait_for_quiescence_lem_example : Trace.Answers (some 8) wakings late
unfolding wait_for_quiescence
wait_for_quiescence_lem_example = wait_for_quiescence_lem (some 8) wakings late refl

abbrev both : List Settle.Call
both = terminal ∷ cancel (codes "stop") noon ∷ []

count_wins-le-one_example : Settle.count_wins new_control both ≤ 1
count_wins-le-one_example = count_wins-le-one new_control both

abbrev idle : Worker
idle = record {
  service = record {
    refresh_requested = false;
    cleanup_requested = false;
    stop_requested = false;
    pass_active = false;
    accept_followup = false;
  };
  place = waiting;
}

abbrev round : List Rounds.Event
round = advances false ∷ asked false true ∷ advances false ∷ stopped ∷ []

happen_all-IsConsistent_example : Rounds.IsConsistent (Rounds.happen_all Rounds.start round)
happen_all-IsConsistent_example = happen_all-IsConsistent round

idle-IsConsistent : Rounds.IsConsistent idle
idle-IsConsistent = ground arith

request_served_example :
    Covers false true (Rounds.happen (Rounds.happen idle (asked false true)) (advances false)).place
request_served_example =
    request_served idle false true false idle-IsConsistent (refl, inl refl) refl

abbrev hash : Text → ℕ → ℕ
hash t n = n + 7

abbrev tool_row : Row
tool_row = record {
  recipe_id = codes "tool";
  recipe_sha256 = some_hex;
  retry_class = transient;
  classification = codes "rate_limited";
  diagnostic = codes "upstream_busy";
  retry_count = 2;
  not_before = some one;
  updated_at = noon;
}

abbrev roomy : Dict Row → Bool
roomy rows = true

abbrev one_row : Dict Row
one_row = (codes "tool", tool_row) ∷ []

recorded_now : record_row plain.iso roomy tool_row [] ≡ ok one_row
unfolding record_row validate save check_rows check_row is_timestamp recorded lookup insert
    Base.◌=t◌
recorded_now = refl

cleared_now : clear_row plain.iso roomy (codes "tool") one_row ≡ ok []
unfolding clear_row validate save check_rows check_row is_timestamp lookup remove Base.◌=t◌
cleared_now = refl

record_row_lem_example :
    (validate plain.iso roomy one_row ≡ ok one_row)
    × ((x : Row) × (lookup (codes "tool") one_row ≡ some x) × (same_row x tool_row ≡ true))
    × ((other : Text)
        → other =t codes "tool" ≡ false
        → codes "tool" =t other ≡ false
        → lookup other one_row ≡ lookup other [])
record_row_lem_example = record_row_lem plain.iso roomy tool_row [] one_row recorded_now

abbrev clock : Clock
clock = record { now = 1000; hash = hash; iso_at = λ t. one }

abbrev unreachable : Detection
unreachable = record {
  recipe_id = codes "tool";
  recipe_sha256 = some_hex;
  classification = codes "rate_limited";
  diagnostic = [];
  has_identity = false;
  ineligible = false;
  retry_after = some 90;
  rate_limit_reset = none;
}

retry_row_lem_example :
    (check_row plain.iso (codes "tool") (retry_row clock unreachable (some tool_row)) ≡ ok tt)
    × DelayedAs clock unreachable (some tool_row)
unfolding is_timestamp
retry_row_lem_example =
    retry_row_lem plain.iso clock unreachable (some tool_row) refl (inr refl) (inl refl) (λ t. refl)
