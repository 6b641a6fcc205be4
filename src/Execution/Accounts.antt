-- ===== src/Execution/Accounts.antt =====
-- debbuilder/execution_manager.py: what shutdown has taken from the queue stays accounted for.
use deb_builder.Base.{
  ℕ, ◌≡◌, Bool, true, false, not, ◌&&◌, ◌||◌, Text, ◌=t◌, =t_sound, =t_refl, List, [], ◌∷◌, ◌++◌,
  Option, none, some, arith, Bool-cases, inl, inr,
}
use deb_builder.Cancellation.{Control}
use deb_builder.Execution.Manager.{Manager, has_run, with_run, drop_run, start}
use deb_builder.Execution.Admission.{
  reserve, submit, submit_reserved, track, transfer, release_begin, capture, settle,
  enqueue_persisted, enqueue_failed, confirm, resolve_failed_creation,
}
use deb_builder.Execution.Worker.{
  cancel, round, stop, unused, settle_all, capture_all, freeze, ask_shutdown, resolved_kind,
  begin_shutdown, record_result, end_run, Kind, queued, admission, active, is_complete, no_runs,
}
use deb_builder.Execution.Stored.{cancel_loaded}
use deb_builder.Execution.Trace.{
  Event, starts, reserves, submits, submits_reserved, persists, fails_to_persist, tracks, confirms,
  transfers, resolves, releases, cancels, cancels_loaded, stops, begins_shutdown, records, works,
  ends_run, happen, happen_all,
}

-- A Run that shutdown took is still to be cancelled or has been.
abbrev pub accounted : Text → Manager → Bool
accounted r m = has_run r m.shutdown_pending || has_run r m.shutdown_cancelled

has_run-append :
    (r t : Text) (runs : List Text) → has_run r (runs ++ t ∷ []) ≡ has_run r runs || r =t t
has_run-append r t [] = ground arith
has_run-append r t (u ∷ runs) = ground (arith, has_run-append r t runs)

pub has_run-with_run :
    (r t : Text) (runs : List Text) → has_run r runs ≡ true → has_run r (with_run t runs) ≡ true
has_run-with_run r t runs h = ground (arith, has_run-append r t runs)

pub has_run-with_run_self : (r : Text) (runs : List Text) → has_run r (with_run r runs) ≡ true
has_run-with_run_self r runs = ground (arith, has_run-append r r runs, =t_refl r)

pub has_run-drop_run :
    (r t : Text) (runs : List Text)
    → r =t t ≡ false
    → has_run r runs ≡ true
    → has_run r (drop_run t runs) ≡ true
unfolding drop_run
has_run-drop_run r t [] n h = cc
has_run-drop_run r t (u ∷ runs) n h = ground (arith, has_run-drop_run r t runs n, =t_sound t u)

persist_accounts :
    (r s : Text) (t : Option ℕ) (m : Manager)
    → accounted r m ≡ true
    → accounted r (enqueue_persisted s t m) ≡ true
unfolding enqueue_persisted capture settle
persist_accounts r s none m h = ground (arith, has_run-with_run r s m.shutdown_pending)
persist_accounts r s (some t) m h = ground (arith, has_run-with_run r s m.shutdown_pending)

settle_all_accounts :
    (r : Text) (tokens : List ℕ) (m : Manager)
    → accounted r m ≡ true
    → accounted r (settle_all tokens m) ≡ true
unfolding settle_all settle
settle_all_accounts r [] m h = h
settle_all_accounts r (t ∷ tokens) m h = settle_all_accounts r tokens (settle t m) h

capture_all_accounts :
    (r : Text) (runs : List Text) (m : Manager)
    → accounted r m || has_run r runs ≡ true
    → accounted r (capture_all runs m) ≡ true
unfolding capture_all capture
capture_all_accounts r [] m h = ground arith
capture_all_accounts r (s ∷ runs) m h = capture_all_accounts r runs (capture s m) (
    ground (
      arith,
      has_run-with_run r s m.shutdown_pending,
      has_run-with_run_self s m.shutdown_pending,
      =t_sound r s,
    ))

keep_control_accounts :
    (r now : Text) (c : Option Control) (m : Manager)
    → accounted r m ≡ true
    → accounted r (ask_shutdown now c m) ≡ true
unfolding ask_shutdown
keep_control_accounts r now none m h = h
keep_control_accounts r now (some c) m h = ground arith

freeze_accounts :
    (r : Text) (m : Manager)
    → accounted r m || (not m.shutdown_started && has_run r m.queue) ≡ true
    → accounted r (freeze m) ≡ true
unfolding freeze
freeze_accounts r m h = elim (Bool-cases m.shutdown_started) [
  | inl on ↦ ground (arith, on)
  | inr off ↦ ground (
    arith,
    off,
    capture_all_accounts r m.queue
        (record m { shutdown_started = true; accepting = false; stopping = true }),
  )
]

-- The Runs that wait when shutdown begins are accounted for, and those that were before.
pub begin_shutdown_accounts :
    (r now : Text) (a : Bool) (m : Manager)
    → accounted r m || (not m.shutdown_started && has_run r m.queue) ≡ true
    → accounted r (begin_shutdown now a m) ≡ true
unfolding begin_shutdown
begin_shutdown_accounts r now a m h = ground (
  arith,
  freeze_accounts r m h,
  keep_control_accounts r now (freeze m).active_control
      (record (freeze m) { shutdown_active_requested = true }),
)

record_accounts :
    (r : Text) (k : Kind) (s : Text) (b : Bool) (m : Manager)
    → accounted r m ≡ true
    → accounted r (record_result k s b m) ≡ true
unfolding record_result resolved_kind
record_accounts r queued s b m h = ground (
  arith,
  has_run-with_run r s m.shutdown_cancelled,
  has_run-with_run_self s m.shutdown_cancelled,
  =t_sound r s,
  has_run-drop_run r s m.shutdown_pending,
)
record_accounts r admission s b m h = ground arith
record_accounts r active s b m h = ground arith

happen_accounts :
    (r : Text) (m : Manager) (e : Event) → accounted r m ≡ true → accounted r (happen m e) ≡ true
unfolding happen start reserve submit submit_reserved track transfer release_begin confirm
    resolve_failed_creation settle enqueue_failed cancel cancel_loaded stop round end_run
happen_accounts r m (persists s t) h = ground (arith, persist_accounts r s t m h)
happen_accounts r m stops h =
    settle_all_accounts r (unused m.reservation_run_ids m.admission_leases) _ h
happen_accounts r m (begins_shutdown now a) h =
    begin_shutdown_accounts r now a m (ground (arith, h))
happen_accounts r m (records k s b) h = record_accounts r k s b m h
happen_accounts r m (starts b a) h = ground arith
happen_accounts r m reserves h = ground arith
happen_accounts r m (submits s) h = ground arith
happen_accounts r m (submits_reserved t s) h = ground arith
happen_accounts r m (fails_to_persist s t u) h = ground arith
happen_accounts r m (tracks t s) h = ground arith
happen_accounts r m (confirms shown t s) h = ground arith
happen_accounts r m (transfers t s) h = ground arith
happen_accounts r m (resolves a b c t s) h = ground arith
happen_accounts r m (releases t) h = ground arith
happen_accounts r m (cancels now p s) h = ground arith
happen_accounts r m (cancels_loaded now run s) h = ground arith
happen_accounts r m works h = ground arith
happen_accounts r m (ends_run s a b) h = ground arith

happen_all_accounts :
    (r : Text) (m : Manager) (es : List Event)
    → accounted r m ≡ true
    → accounted r (happen_all m es) ≡ true
unfolding happen_all
happen_all_accounts r m [] h = h
happen_all_accounts r m (e ∷ es) h = happen_all_accounts r (happen m e) es (happen_accounts r m e h)

accounted_done :
    (r : Text) (m : Manager)
    → accounted r m ≡ true
    → no_runs m.shutdown_pending ≡ true
    → has_run r m.shutdown_cancelled ≡ true
accounted_done r m h empty = ground arith

-- A Run that waits in the queue when shutdown begins: if shutdown is later reported complete, after
-- any events in between, the Run is among those recorded as cancelled.
pub complete_shutdown_cancels :
    (m : Manager) (r now : Text) (a joined : Bool) (es : List Event)
    → m.shutdown_started ≡ false
    → has_run r m.queue ≡ true
    → is_complete joined (happen_all (begin_shutdown now a m) es) ≡ true
    → has_run r (happen_all (begin_shutdown now a m) es).shutdown_cancelled ≡ true
unfolding is_complete
complete_shutdown_cancels m r now a joined es off waiting complete =
    accounted_done r (happen_all (begin_shutdown now a m) es)
      (happen_all_accounts r _ es
        (begin_shutdown_accounts r now a m (ground (arith, off, waiting))))
      (ground (arith, complete))
