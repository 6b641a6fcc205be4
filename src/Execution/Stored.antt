-- ===== src/Execution/Stored.antt =====
-- debbuilder/execution_manager.py: what the manager writes to a stored Run. A stored Run is given by
-- its status, its cancellation and the code of its error; none is a Run that does not load.
use deb_builder.Base.{
  Bool, true, false, not, ◌&&◌, ◌||◌, Text, ◌=t◌, codes, [], ◌∷◌, Option, none, some, if◌then◌else◌,
  Result, ok, err, any,
}
use deb_builder.Cancellation.{Control, Answer, Refused, request_cancel}
use deb_builder.Execution.Manager.{
  Manager, Error, run_not_found, run_not_pending, run_not_queued, control_missing, cancel_refused,
  is_run,
}

pub record Cancellation : Type 0 where
  pub code : Text
  pub reason : Text
  pub phase : Text

pub record Stored : Type 0 where
  pub status : Text
  pub cancellation : Option Cancellation
  pub error : Option Text

-- TERMINAL_RUN_STATUSES
abbrev pub is_terminal_status : Text → Bool
is_terminal_status s =
    any (λ t. s =t t) (codes "prepared" ∷ codes "success" ∷ codes "failed" ∷ codes "cancelled" ∷ [])

-- is_terminal_run
unfoldable pub is_terminal_run : Option Stored → Bool
is_terminal_run none = false
is_terminal_run (some run) = is_terminal_status run.status

-- `_mark_queued`, with the transition of the store that it asks for
unfoldable pub mark_queued : Option Stored → Result Error Stored
mark_queued none = err run_not_found
mark_queued (some run) =
    if run.status =t codes "pending"
    then ok (record run { status = codes "queued" })
    else err run_not_pending

abbrev is_queue_cancellation : Text → Option Cancellation → Bool
is_queue_cancellation reason none = false
is_queue_cancellation reason (some c) =
    c.code =t codes "execution_cancelled" && c.reason =t reason && c.phase =t codes "queue"

-- `_persist_queued_cancellation`
unfoldable pub persist_queued_cancellation : Text → Option Stored → Result Error Stored
persist_queued_cancellation reason none = err run_not_found
persist_queued_cancellation reason (some run) =
    if run.status =t codes "cancelled" && is_queue_cancellation reason run.cancellation
    then ok run
    else if not (run.status =t codes "queued")
    then err run_not_queued
    else ok (record {
      status = codes "cancelled";
      cancellation =
          some
            (record { code = codes "execution_cancelled"; reason = reason; phase = codes "queue" });
      error = none;
    })

-- How a write of the Run ends; one that raises may have changed what is on disk.
pub data Saving : Type 0 where
  saves : Saving
  raises_with : Option Stored → Saving

saved : Saving → Stored → Bool × Option Stored
saved saves run = (true, some run)
saved (raises_with disk) run = (is_terminal_run disk, disk)

-- `_terminalize_unresolved_admission`: whether the failure is of a creation, and whether the
-- workspace without a Run could be discarded. A load that raises is a missing Run outside a creation:
-- the load of `_durably_terminal` then raises as well, and the answer is no.
unfoldable pub terminalize : Bool → Bool → Saving → Option Stored → Bool × Option Stored
unfolding saved
terminalize creation discarded saving none = (creation && discarded, none)
terminalize creation discarded saving (some run) =
    if is_terminal_status run.status
    then (true, some run)
    else if not (run.status =t codes "pending" || run.status =t codes "queued")
    then (false, some run)
    else saved saving
        (record run { status = codes "failed"; error = some (codes "execution_enqueue_failed") })

-- `_finalize_worker_error`, without the step that was running
unfoldable pub finalize : Saving → Option Stored → Bool × Option Stored
unfolding saved
finalize saving none = (false, none)
finalize saving (some run) =
    if is_terminal_status run.status
    then (true, some run)
    else if not (
        run.status =t codes "queued"
        || run.status =t codes "running"
        || run.status =t codes "cancelling")
    then (false, some run)
    else saved saving
        (record run { status = codes "failed"; error = some (codes "execution_worker_error") })

-- The answers of `cancel` to a Run that the manager does not own.
pub data Unowned : Type 0 where
  active_cancel_requested : Bool → Unowned
  not_found already_cancelled : Unowned
  terminal_not_cancellable : Text → Unowned

abbrev pub of_stored : Option Stored → Unowned
of_stored none = not_found
of_stored (some run) =
    if run.status =t codes "cancelled"
    then already_cancelled
    else terminal_not_cancellable run.status

unfoldable pub answer_active :
    Result Refused (Answer × Control) → Option Stored → Manager → Result Error (Unowned × Manager)
answer_active (err x) run m = err cancel_refused
answer_active (ok (a, c)) run m =
    if a.accepted
    then ok (active_cancel_requested a.first_request, record m { active_control = some c })
    else ok (of_stored run, record m { active_control = some c })

unfoldable pub ask_later :
    Text → Option Control → Option Stored → Manager → Result Error (Unowned × Manager)
ask_later now none run m = err control_missing
ask_later now (some c) run m = answer_active (request_cancel (codes "user_requested") now c) run m

-- The second section of `cancel`, once the Run has been read.
unfoldable pub cancel_loaded :
    Text → Option Stored → Text → Manager → Result Error (Unowned × Manager)
unfolding answer_active ask_later
cancel_loaded now run r m =
    if is_run r m.active_run_id && not (is_terminal_run run)
    then ask_later now m.active_control run m
    else ok (of_stored run, m)
