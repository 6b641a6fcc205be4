-- ===== src/Execution/Trace.antt =====
-- debbuilder/execution_manager.py: what happens to a manager, one section under its condition after
-- another, in any order.
use deb_builder.Base.{ℕ, Bool, Text, List, [], ◌∷◌, Option, is_none, Result, ok, err, if◌then◌else◌}
use deb_builder.Execution.Manager.{Manager, Error, has_run, is_run, start}
use deb_builder.Execution.Admission.{
  reserve, submit, submit_reserved, enqueue_persisted, enqueue_failed, track, confirm, transfer,
  resolve_failed_creation, release_begin,
}
use deb_builder.Execution.Worker.{
  cancel, stop, begin_shutdown, Kind, record_result, Round, waits, ends, takes, round, end_run,
}
use deb_builder.Execution.Stored.{Stored, cancel_loaded}

pub data Event : Type 0 where
  starts : Option Text → Bool → Event
  reserves : Event
  submits : Text → Event
  submits_reserved : ℕ → Text → Event
  persists : Text → Option ℕ → Event
  fails_to_persist : Text → Option ℕ → Bool → Event
  tracks : ℕ → Text → Event
  confirms : Bool → ℕ → Text → Event
  transfers : ℕ → Text → Event
  resolves : Option Bool → Bool → Bool → ℕ → Text → Event
  releases : ℕ → Event
  cancels : Text → Result Error (Unit {0}) → Text → Event
  cancels_loaded : Text → Option Stored → Text → Event
  stops : Event
  begins_shutdown : Text → Bool → Event
  records : Kind → Text → Bool → Event
  works : Event
  ends_run : Text → Bool → Bool → Event

-- A section that raises leaves the manager as it was.
abbrev pub settled : Manager → Result Error Manager → Manager
settled m (ok m') = m'
settled m (err x) = m

abbrev pub second : {A : Type 0} → Manager → Result Error (A × Manager) → Manager
second m (ok (a, m')) = m'
second m (err x) = m

abbrev pub after_round : Manager → Round → Manager
after_round m waits = m
after_round m ends = m
after_round m (takes r m') = m'

-- A submission is persisted or fails only once it was begun, the one worker takes a Run only when it
-- has ended the last, and ends the Run that it has.
-- The worker of the code ends after a Run that is not resolved; here it may go on, which only adds
-- sequences.
unfoldable pub happen : Manager → Event → Manager
happen m (starts blocker alive) = settled m (start blocker alive m)
happen m reserves = second m (reserve m)
happen m (submits r) = settled m (submit r m)
happen m (submits_reserved t r) = settled m (submit_reserved t r m)
happen m (persists r t) = if has_run r m.submitting_run_ids then enqueue_persisted r t m else m
happen m (fails_to_persist r t u) =
    if has_run r m.submitting_run_ids then enqueue_failed r t u m else m
happen m (tracks t r) = settled m (track t r m)
happen m (confirms shown t r) = (confirm shown t r m).1
happen m (transfers t r) = settled m (transfer t r m)
happen m (resolves answer terminal absent t r) =
    (resolve_failed_creation answer terminal absent t r m).1
happen m (releases t) = (release_begin t m).1
happen m (cancels now persisted r) = second m (cancel now persisted r m)
happen m (cancels_loaded now run r) = second m (cancel_loaded now run r m)
happen m stops = stop m
happen m (begins_shutdown now request_active) = begin_shutdown now request_active m
happen m (records kind r resolved) = record_result kind r resolved m
happen m works = if is_none m.active_run_id then after_round m (round m) else m
happen m (ends_run r resolved fatal) =
    if is_run r m.active_run_id then end_run r resolved fatal m else m

unfoldable pub happen_all : Manager → List Event → Manager
happen_all m [] = m
happen_all m (e ∷ rest) = happen_all (happen m e) rest
