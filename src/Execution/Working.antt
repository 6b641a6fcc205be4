-- ===== src/Execution/Working.antt =====
-- debbuilder/execution_manager.py: cancellation, the worker's sections and the shutdown keep the
-- manager orderly.
use deb_builder.Base.{
  Keeps, returns, raises, if_rule, bind_rule, ℕ, ◌≤◌, ◌≡◌, refl, Bool, true, false, not, ◌&&◌, ◌||◌,
  Text, List, [], ◌∷◌, codes, Option, none, some, length, arith, ap, if◌then◌else◌, Result, ok, err,
}
use deb_builder.Cancellation.{Control, Answer, Refused, request_cancel}
use deb_builder.Execution.Manager.{Manager, Error, has_run, drop_run, is_run}
use deb_builder.Execution.Admission.{capture, settle}
use deb_builder.Execution.Worker.{
  answered, ask_active, cancel, stop, unused, settle_all, capture_all, freeze, keep_control,
  ask_shutdown, begin_shutdown, Kind, queued, admission, active, resolved_kind, record_result,
  Round, waits, ends, takes, take_first, round, fail_closed, fail_fatal, end_run, is_settled,
  no_runs,
}
use deb_builder.Execution.Counts.{count, length-drop_run_le, count-drop_run_le}
use deb_builder.Execution.Orderly.{load, places, IsOrderly, settle-IsOrderly}
use deb_builder.Execution.Stored.{Stored, is_terminal_run, answer_active, ask_later, cancel_loaded}
use deb_builder.Execution.Settled.{either_way}

settle_all-IsOrderly :
    (tokens : List ℕ) (m : Manager) → IsOrderly m → IsOrderly (settle_all tokens m)
unfolding settle_all
settle_all-IsOrderly [] m h = h
settle_all-IsOrderly (t ∷ tokens) m h =
    settle_all-IsOrderly tokens (settle t m) (settle-IsOrderly t m h)

pub stop-IsOrderly : (m : Manager) → IsOrderly m → IsOrderly (stop m)
unfolding stop
stop-IsOrderly m h =
    settle_all-IsOrderly (unused m.reservation_run_ids m.admission_leases) _
      (record { room = h.room; once = h.once; closed = λ on. ((h.closed on).0, refl) })

dequeued-IsOrderly :
    (r : Text) (m : Manager) → IsOrderly m → IsOrderly (record m { queue = drop_run r m.queue })
unfolding drop_run
dequeued-IsOrderly r m h = record {
  room = omega (arith, h.room, length-drop_run_le r m.queue);
  once = λ x. omega (arith, h.once x, count-drop_run_le x r m.queue);
  closed = λ on. (rw (h.closed on).0 refl, (h.closed on).1);
}

answered-IsOrderly :
    (answer : Result Refused (Answer × Control)) (m : Manager)
    → IsOrderly m
    → Keeps (λ x. IsOrderly x.1) (answered answer m)
unfolding answered
answered-IsOrderly (err x) m h = raises
answered-IsOrderly (ok (a, c)) m h =
    returns (record { room = h.room; once = h.once; closed = h.closed })

ask_active-IsOrderly :
    (now : Text) (c : Option Control) (m : Manager)
    → IsOrderly m
    → Keeps (λ x. IsOrderly x.1) (ask_active now c m)
unfolding ask_active
ask_active-IsOrderly now none m h = raises
ask_active-IsOrderly now (some c) m h =
    answered-IsOrderly (request_cancel (codes "user_requested") now c) m h

pub cancel-IsOrderly :
    (now : Text) (persisted : Result Error (Unit {0})) (r : Text) (m : Manager)
    → IsOrderly m
    → Keeps (λ x. IsOrderly x.1) (cancel now persisted r m)
unfolding cancel
cancel-IsOrderly now persisted r m h =
    if_rule (has_run r m.queue)
      (λ has. bind_rule persisted λ u done. returns (dequeued-IsOrderly r m h))
      λ out.
        if_rule (is_run r m.active_run_id) (λ act. ask_active-IsOrderly now m.active_control m h)
          λ other. returns h

answer_active-IsOrderly :
    (answer : Result Refused (Answer × Control)) (run : Option Stored) (m : Manager)
    → IsOrderly m
    → Keeps (λ x. IsOrderly x.1) (answer_active answer run m)
unfolding answer_active
answer_active-IsOrderly (err x) run m h = raises
answer_active-IsOrderly (ok (a, c)) run m h =
    if_rule a.accepted (λ y. returns (record { room = h.room; once = h.once; closed = h.closed }))
      λ n. returns (record { room = h.room; once = h.once; closed = h.closed })

ask_later-IsOrderly :
    (now : Text) (c : Option Control) (run : Option Stored) (m : Manager)
    → IsOrderly m
    → Keeps (λ x. IsOrderly x.1) (ask_later now c run m)
unfolding ask_later
ask_later-IsOrderly now none run m h = raises
ask_later-IsOrderly now (some c) run m h =
    answer_active-IsOrderly (request_cancel (codes "user_requested") now c) run m h

pub cancel_loaded-IsOrderly :
    (now : Text) (run : Option Stored) (r : Text) (m : Manager)
    → IsOrderly m
    → Keeps (λ x. IsOrderly x.1) (cancel_loaded now run r m)
unfolding cancel_loaded
cancel_loaded-IsOrderly now run r m h =
    if_rule (is_run r m.active_run_id && not (is_terminal_run run))
      (λ act. ask_later-IsOrderly now m.active_control run m h) λ other. returns h

capture_all-IsOrderly :
    (runs : List Text) (m : Manager)
    → load (record m { queue = runs }) ≤ m.queue_capacity
    → ((x : Text) → places x m ≤ 1)
    → m.accepting ≡ false
    → IsOrderly (capture_all runs m)
unfolding capture_all capture count
capture_all-IsOrderly [] m room once shut = record {
  room = room;
  once = λ x. omega (arith, once x);
  closed = λ on. (refl, shut);
}
capture_all-IsOrderly (r ∷ runs) m room once shut =
    capture_all-IsOrderly runs (capture r m) (omega (arith, room)) once shut

freeze-IsOrderly : (m : Manager) → IsOrderly m → IsOrderly (freeze m)
unfolding freeze
freeze-IsOrderly m h =
    either_way m.shutdown_started (λ on. h)
      λ off.
        let h' =
          capture_all-IsOrderly m.queue
            (record m { shutdown_started = true; accepting = false; stopping = true }) h.room h.once
            refl in
        record { room = h'.room; once = h'.once; closed = h'.closed }

kept-IsOrderly :
    (answer : Result Refused (Answer × Control)) (m : Manager)
    → IsOrderly m
    → IsOrderly (keep_control answer m)
unfolding keep_control
kept-IsOrderly (err x) m h = h
kept-IsOrderly (ok (a, c)) m h = record { room = h.room; once = h.once; closed = h.closed }

ask_shutdown-IsOrderly :
    (now : Text) (c : Option Control) (m : Manager) → IsOrderly m → IsOrderly (ask_shutdown now c m)
unfolding ask_shutdown
ask_shutdown-IsOrderly now none m h = h
ask_shutdown-IsOrderly now (some c) m h =
    kept-IsOrderly (request_cancel (codes "server_shutdown") now c) m h

pub begin_shutdown-IsOrderly :
    (now : Text) (request_active : Bool) (m : Manager)
    → IsOrderly m
    → IsOrderly (begin_shutdown now request_active m)
unfolding begin_shutdown
begin_shutdown-IsOrderly now request_active m h =
    let h' = freeze-IsOrderly m h in
    either_way (request_active && not (freeze m).shutdown_active_requested)
      (λ first.
        ask_shutdown-IsOrderly now _ _
          (record { room = h'.room; once = h'.once; closed = h'.closed }))
      λ again. h'

resolved-IsOrderly :
    (kind : Kind) (r : Text) (m : Manager) → IsOrderly m → IsOrderly (resolved_kind kind r m)
unfolding resolved_kind
resolved-IsOrderly queued r m h = record { room = h.room; once = h.once; closed = h.closed }
resolved-IsOrderly admission r m h = record { room = h.room; once = h.once; closed = h.closed }
resolved-IsOrderly active r m h = record { room = h.room; once = h.once; closed = h.closed }

pub record_result-IsOrderly :
    (kind : Kind) (r : Text) (resolved : Bool) (m : Manager)
    → IsOrderly m
    → IsOrderly (record_result kind r resolved m)
unfolding record_result
record_result-IsOrderly kind r false m h = record {
  room = h.room;
  once = h.once;
  closed = h.closed;
}
record_result-IsOrderly kind r true m h =
    let h' = resolved-IsOrderly kind r m h in
    record { room = h'.room; once = h'.once; closed = h'.closed }

fail_closed-IsOrderly :
    (r : Text) (resolved : Bool) (m : Manager) → IsOrderly m → IsOrderly (fail_closed r resolved m)
unfolding fail_closed
fail_closed-IsOrderly r true m h = h
fail_closed-IsOrderly r false m h = record {
  room = h.room;
  once = h.once;
  closed = λ on. ((h.closed on).0, refl);
}

fail_fatal-IsOrderly :
    (r : Text) (fatal : Bool) (m : Manager) → IsOrderly m → IsOrderly (fail_fatal r fatal m)
unfolding fail_fatal
fail_fatal-IsOrderly r false m h = h
fail_fatal-IsOrderly r true m h = record {
  room = h.room;
  once = h.once;
  closed = λ on. ((h.closed on).0, refl);
}

pub end_run-IsOrderly :
    (r : Text) (resolved fatal : Bool) (m : Manager)
    → IsOrderly m
    → IsOrderly (end_run r resolved fatal m)
unfolding end_run
end_run-IsOrderly r resolved fatal m h =
    let h' = fail_fatal-IsOrderly r fatal _ (fail_closed-IsOrderly r resolved m h) in
    record { room = h'.room; once = λ x. omega (arith, h'.once x); closed = h'.closed }

-- A round that takes a Run, or leaves the manager as it is.
pub data Takes (P : Manager → Type 0) : Round → Type 0 where
  taken : {r : Text} {m : Manager} → P m → Takes P (takes r m)
  waited : Takes P waits
  ended : Takes P ends

round_rule :
    {P : Manager → Type 0} (b : Bool) {x y : Round}
    → (b ≡ true → Takes P x)
    → (b ≡ false → Takes P y)
    → Takes P (if b then x else y)
round_rule true first second = first refl
round_rule false first second = second refl

take_first-IsOrderly :
    (runs : List Text) (m : Manager)
    → m.queue ≡ runs
    → IsOrderly m
    → m.active_run_id ≡ none
    → m.shutdown_started ≡ false
    → Takes IsOrderly (take_first runs m)
unfolding take_first count
take_first-IsOrderly [] m e h idle off =
    round_rule (m.stopping && is_settled m) (λ s. ended) λ s. waited
take_first-IsOrderly (r ∷ runs) m e h idle off = taken (record {
  room = omega (arith, h.room, ap length e);
  once = λ x. omega (arith, h.once x, ap (count x) e);
  closed = λ on. absurd cc;
})

pub round-IsOrderly :
    (m : Manager) → IsOrderly m → m.active_run_id ≡ none → Takes IsOrderly (round m)
unfolding round
round-IsOrderly m h idle =
    round_rule (not (not (no_runs m.queue) || (m.stopping && is_settled m))) (λ w. waited)
      λ woken.
        round_rule m.shutdown_started (λ on. round_rule (is_settled m) (λ s. ended) λ s. waited)
          λ off. take_first-IsOrderly m.queue m refl h idle off
