-- ===== src/Execution/Worker.antt =====
-- debbuilder/execution_manager.py: cancellation, the worker's loop and the shutdown.
use deb_builder.Base.{
  ℕ, Bool, true, false, not, ◌&&◌, ◌||◌, Text, List, [], ◌∷◌, codes, Option, none, some, is_some,
  is_none, Result, ok, err, ◌>>◌, if◌then◌else◌,
}
use deb_builder.Cancellation.{Control, Answer, new_control, request_cancel, Refused}
use deb_builder.Execution.Manager.{
  Manager, Error, control_missing, cancel_refused, has_run, drop_run, with_run, run_of, is_run,
}
use deb_builder.Execution.Admission.{capture, settle}

-- The first section of `cancel`: the Run was queued and is cancelled, it is active, or neither.
pub data Cancelled : Type 0 where
  queued_cancelled : Cancelled
  active_asked : Bool → Bool → Cancelled
  not_owned : Cancelled

unfoldable pub answered :
    Result Refused (Answer × Control) → Manager → Result Error (Cancelled × Manager)
answered (err x) m = err cancel_refused
answered (ok (a, c)) m =
    ok (active_asked a.accepted a.first_request, record m { active_control = some c })

unfoldable pub ask_active : Text → Option Control → Manager → Result Error (Cancelled × Manager)
unfolding answered
ask_active now none m = err control_missing
ask_active now (some c) m = answered (request_cancel (codes "user_requested") now c) m

-- `persisted` is the result of `_persist_queued_cancellation`
unfoldable pub cancel :
    Text → Result Error (Unit {0}) → Text → Manager → Result Error (Cancelled × Manager)
unfolding ask_active
cancel now persisted r m =
    if has_run r m.queue
    then (do persisted; ok (queued_cancelled, record m { queue = drop_run r m.queue }))
    else if is_run r m.active_run_id
    then ask_active now m.active_control m
    else ok (not_owned, m)

-- Tokens without a Run.
unfoldable pub unused : List (ℕ × Text) → List ℕ → List ℕ
unused tracked [] = []
unused tracked (t ∷ rest) =
    let others = unused tracked rest in if is_some (run_of t tracked) then others else t ∷ others

unfoldable pub settle_all : List ℕ → Manager → Manager
settle_all [] m = m
settle_all (t ∷ rest) m = settle_all rest (settle t m)

-- stop, before it joins the worker
unfoldable pub stop : Manager → Manager
unfolding unused settle_all
stop m =
    settle_all (unused m.reservation_run_ids m.admission_leases)
      (record m { accepting = false; stopping = true })

-- while self._queue: capture(self._queue.popleft())
unfoldable pub capture_all : List Text → Manager → Manager
capture_all [] m = record m { queue = [] }
capture_all (r ∷ rest) m = capture_all rest (capture r m)

unfoldable pub freeze : Manager → Manager
freeze m =
    if m.shutdown_started
    then m
    else record (capture_all m.queue
        (record m { shutdown_started = true; accepting = false; stopping = true })) {
          shutdown_active_run_id = m.active_run_id;
        }

unfoldable pub keep_control : Result Refused (Answer × Control) → Manager → Manager
keep_control (err x) m = m
keep_control (ok (a, c)) m = record m { active_control = some c }

unfoldable pub ask_shutdown : Text → Option Control → Manager → Manager
unfolding keep_control
ask_shutdown now none m = m
ask_shutdown now (some c) m = keep_control (request_cancel (codes "server_shutdown") now c) m

-- `_begin_shutdown_locked`
unfoldable pub begin_shutdown : Text → Bool → Manager → Manager
unfolding freeze ask_shutdown
begin_shutdown now request_active m =
    let m' = freeze m in
    if request_active && not m'.shutdown_active_requested
    then ask_shutdown now m'.active_control (record m' { shutdown_active_requested = true })
    else m'

pub data Kind : Type 0 where
  queued admission active : Kind

unfoldable pub resolved_kind : Kind → Text → Manager → Manager
resolved_kind queued r m = record m {
  shutdown_pending = drop_run r m.shutdown_pending;
  shutdown_cancelled = with_run r m.shutdown_cancelled;
}
resolved_kind admission r m = record m { unresolved_admission = drop_run r m.unresolved_admission }
resolved_kind active r m = record m { unresolved_active = drop_run r m.unresolved_active }

-- `_record_shutdown_task_result`
unfoldable pub record_result : Kind → Text → Bool → Manager → Manager
unfolding resolved_kind
record_result kind r resolved m =
    if resolved
    then (let m' = resolved_kind kind r m in
        record m' { shutdown_failures = drop_run r m'.shutdown_failures })
    else record m { shutdown_failures = with_run r m.shutdown_failures }

abbrev no_tokens : List ℕ → Bool
no_tokens [] = true
no_tokens (t ∷ rest) = false

abbrev pub no_runs : List Text → Bool
no_runs [] = true
no_runs (r ∷ rest) = false

-- not self._admission_leases and not self._submitting_run_ids
unfoldable pub is_settled : Manager → Bool
is_settled m = no_tokens m.admission_leases && no_runs m.submitting_run_ids

-- One round of the worker up to its work: it waits, ends, or has taken a Run.
pub data Round : Type 0 where
  waits ends : Round
  takes : Text → Manager → Round

unfoldable pub take_first : List Text → Manager → Round
take_first [] m = if m.stopping && is_settled m then ends else waits
take_first (r ∷ rest) m =
    takes r (record m { queue = rest; active_run_id = some r; active_control = some new_control })

unfoldable pub round : Manager → Round
unfolding take_first
round m =
    if not (not (no_runs m.queue) || (m.stopping && is_settled m))
    then waits
    else if m.shutdown_started
    then (if is_settled m then ends else waits)
    else take_first m.queue m

unfoldable pub fail_closed : Text → Bool → Manager → Manager
fail_closed r resolved m = if resolved then m else record m {
  unresolved_active = with_run r m.unresolved_active;
  shutdown_failures = with_run r m.shutdown_failures;
  accepting = false;
  stopping = true;
}

unfoldable pub fail_fatal : Text → Bool → Manager → Manager
fail_fatal r fatal m =
    if fatal
    then record m { worker_fatal_error = some r; accepting = false; stopping = true }
    else m

-- The last section of a round: `resolved` is whether the store shows the Run terminal.
unfoldable pub end_run : Text → Bool → Bool → Manager → Manager
unfolding fail_closed fail_fatal
end_run r resolved fatal m = record (fail_fatal r fatal (fail_closed r resolved m)) {
  active_run_id = none;
  active_control = none;
}

-- `complete` in `_shutdown_result`
unfoldable pub is_complete : Bool → Manager → Bool
is_complete joined m =
    m.shutdown_started
    && joined
    && no_runs m.shutdown_pending
    && no_runs m.unresolved_admission
    && no_runs m.unresolved_active
    && is_none m.active_run_id
    && is_settled m
    && is_none m.worker_fatal_error
