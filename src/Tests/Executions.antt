-- ===== src/Tests/Executions.antt =====
-- The properties of the execution manager, on a manager with room for two Runs.
use deb_builder.Base.{
  ◌≡◌, refl, true, false, List, [], ◌∷◌, Text, codes, arith, Option, none, some, ok, ◌=t◌, ◌≢◌, ◌⊎◌,
}
use deb_builder.Execution.Manager.{Manager, has_run, drop_run, has_token, run_of, new_manager}
use deb_builder.Execution.Admission.{capture}
use deb_builder.Execution.Worker.{
  queued, begin_shutdown, record_result, is_complete, is_settled, capture_all,
}
use deb_builder.Execution.Trace.{
  Event, starts, reserves, submits, persists, tracks, works, begins_shutdown, records, happen,
  happen_all,
}
use deb_builder.Execution.Orderly.{IsOrderly}
use deb_builder.Execution.Reachable.{happen_all-IsOrderly}
use deb_builder.Execution.Accounts.{complete_shutdown_cancels}
use deb_builder.Execution.Stored.{
  Stored, is_terminal_run, mark_queued, persist_queued_cancellation, saves, terminalize, finalize,
}
use deb_builder.Execution.Resolved.{resolved_lem, terminal_stays}
use deb_builder.Execution.Release.{release, is_kept, release_lem}

abbrev fresh : Manager
fresh = record {
  queue_capacity = 2;
  queue = [];
  reservations = [];
  admission_leases = [];
  reservation_run_ids = [];
  submitting_run_ids = [];
  worker = false;
  active_run_id = none;
  active_control = none;
  accepting = false;
  stopping = false;
  admission_blocker = none;
  shutdown_started = false;
  shutdown_pending = [];
  shutdown_run_ids = [];
  shutdown_cancelled = [];
  shutdown_failures = [];
  unresolved_admission = [];
  unresolved_active = [];
  worker_fatal_error = none;
  shutdown_active_run_id = none;
  shutdown_active_requested = false;
  next_token = 0;
}

abbrev first_run : Text
first_run = codes "run-1"

abbrev second_run : Text
second_run = codes "run-2"

abbrev a_day : List Event
a_day =
    starts none true
    ∷ submits first_run
    ∷ persists first_run none
    ∷ works
    ∷ reserves
    ∷ tracks 0 second_run
    ∷ begins_shutdown (codes "2026-01-01T00:00:00+00:00") true
    ∷ []

happen_all-IsOrderly_example : IsOrderly (happen_all fresh a_day)
unfolding new_manager
happen_all-IsOrderly_example = happen_all-IsOrderly 2 fresh a_day refl

abbrev waiting : Manager
waiting = record fresh { accepting = true; queue = first_run ∷ [] }

abbrev after_shutdown : Manager
after_shutdown =
    happen_all (begin_shutdown first_run true waiting) (records queued first_run true ∷ [])

complete_shutdown_cancels_example : has_run first_run after_shutdown.shutdown_cancelled ≡ true
unfolding happen_all happen begin_shutdown record_result is_complete is_settled capture_all capture
    drop_run ◌=t◌
complete_shutdown_cancels_example =
    complete_shutdown_cancels waiting first_run first_run true true
      (records queued first_run true ∷ []) refl refl refl

abbrev leased : Manager
leased = record fresh {
  reservations = 0 ∷ [];
  admission_leases = 0 ∷ [];
  reservation_run_ids = (0, first_run) ∷ [];
  next_token = 1;
}

release_lem_example :
    (m : Manager) × (release (tracks 0 first_run ∷ []) [] false 0 leased ≡ ok m)
    × (has_token 0 m.admission_leases ≡ false)
    × (has_token 0 leased.admission_leases ≡ true
        → is_kept false 0
            (run_of 0 leased.reservation_run_ids)
            (happen_all (happen_all leased (tracks 0 first_run ∷ [])) [])
            m
          ≡ true)
release_lem_example = release_lem (tracks 0 first_run ∷ []) [] false 0 leased (omega arith)

abbrev cancelled_run : Option Stored
cancelled_run = some (record { status = codes "cancelled"; cancellation = none; error = none })

terminal_stays_example :
    (terminalize true true saves cancelled_run ≡ (true, cancelled_run))
    × (finalize saves cancelled_run ≡ (true, cancelled_run))
    × ((left : Stored)
        → persist_queued_cancellation first_run cancelled_run ≡ ok left
        → some left ≡ cancelled_run)
    × ((left : Stored) → mark_queued cancelled_run ≢ ok left)
unfolding is_terminal_run ◌=t◌
terminal_stays_example = terminal_stays true true saves first_run cancelled_run refl

abbrev queued_run : Option Stored
queued_run = some (record { status = codes "queued"; cancellation = none; error = none })

resolved_lem_example :
    ((terminalize false false saves queued_run).0 ≡ true
      → (is_terminal_run (terminalize false false saves queued_run).1 ≡ true)
        ⊎ ((queued_run ≡ none) × (false ≡ true) × (false ≡ true)))
    × ((finalize saves queued_run).0 ≡ true → is_terminal_run (finalize saves queued_run).1 ≡ true)
    × ((left : Stored)
        → persist_queued_cancellation first_run queued_run ≡ ok left
        → left.status =t codes "cancelled" ≡ true)
resolved_lem_example = resolved_lem false false saves first_run queued_run
