-- ===== src/Execution/Reachable.antt =====
-- debbuilder/execution_manager.py: every manager that events lead to is orderly.
use deb_builder.Base.{
  Keeps, returns, raises, keeps_value, ℕ, zero, suc, ◌≡◌, true, List, [], ◌∷◌, none, is_none, arith,
  Result, ok, err,
}
use deb_builder.Execution.Manager.{Manager, Error, new_manager, has_run, is_run, start}
use deb_builder.Execution.Admission.{reserve, submit, submit_reserved, track, transfer}
use deb_builder.Execution.Worker.{cancel, Round, waits, ends, takes, round}
use deb_builder.Execution.Stored.{cancel_loaded}
use deb_builder.Execution.Trace.{
  Event, starts, reserves, submits, submits_reserved, persists, fails_to_persist, tracks, confirms,
  transfers, resolves, releases, cancels, cancels_loaded, stops, begins_shutdown, records, works,
  ends_run, settled, second, after_round, happen, happen_all,
}
use deb_builder.Execution.Counts.{count}
use deb_builder.Execution.Orderly.{
  IsOrderly, start-IsOrderly, reserve-IsOrderly, submit-IsOrderly, submit_reserved-IsOrderly,
}
use deb_builder.Execution.Settled.{
  either_way, enqueue_persisted-IsOrderly, enqueue_failed-IsOrderly, track-IsOrderly,
  confirm-IsOrderly, transfer-IsOrderly, resolve_failed_creation-IsOrderly, release_begin-IsOrderly,
}
use deb_builder.Execution.Working.{
  stop-IsOrderly, cancel-IsOrderly, cancel_loaded-IsOrderly, begin_shutdown-IsOrderly,
  record_result-IsOrderly, end_run-IsOrderly, Takes, taken, waited, ended, round-IsOrderly,
}

settled-IsOrderly :
    (m : Manager) (r : Result Error Manager)
    → IsOrderly m
    → Keeps IsOrderly r
    → IsOrderly (settled m r)
settled-IsOrderly m (ok m') h (returns h') = h'
settled-IsOrderly m (err x) h raises = h

second-IsOrderly :
    {A : Type 0} (m : Manager) (r : Result Error (A × Manager))
    → IsOrderly m
    → Keeps (λ x. IsOrderly x.1) r
    → IsOrderly (second m r)
second-IsOrderly m (ok (a, m')) h (returns h') = h'
second-IsOrderly m (err x) h raises = h

round_keeps :
    (m : Manager) (r : Round) → IsOrderly m → Takes IsOrderly r → IsOrderly (after_round m r)
round_keeps m waits h waited = h
round_keeps m ends h ended = h
round_keeps m (takes r m') h (taken h') = h'

idle : (m : Manager) → is_none m.active_run_id ≡ true → m.active_run_id ≡ none
idle m h = ground arith

pub happen-IsOrderly : (m : Manager) (e : Event) → IsOrderly m → IsOrderly (happen m e)
unfolding happen
happen-IsOrderly m (starts b a) h = settled-IsOrderly m (start b a m) h (start-IsOrderly b a m h)
happen-IsOrderly m reserves h = second-IsOrderly m (reserve m) h (reserve-IsOrderly m h)
happen-IsOrderly m (submits r) h = settled-IsOrderly m (submit r m) h (submit-IsOrderly r m h)
happen-IsOrderly m (submits_reserved t r) h =
    settled-IsOrderly m (submit_reserved t r m) h (submit_reserved-IsOrderly t r m h)
happen-IsOrderly m (persists r t) h =
    either_way (has_run r m.submitting_run_ids) (enqueue_persisted-IsOrderly r t m h) λ n. h
happen-IsOrderly m (fails_to_persist r t u) h =
    either_way (has_run r m.submitting_run_ids) (λ y. enqueue_failed-IsOrderly r t u m h) λ n. h
happen-IsOrderly m (tracks t r) h = settled-IsOrderly m (track t r m) h (track-IsOrderly t r m h)
happen-IsOrderly m (confirms shown t r) h = confirm-IsOrderly shown t r m h
happen-IsOrderly m (transfers t r) h =
    settled-IsOrderly m (transfer t r m) h (transfer-IsOrderly t r m h)
happen-IsOrderly m (resolves answer terminal absent t r) h =
    resolve_failed_creation-IsOrderly answer terminal absent t r m h
happen-IsOrderly m (releases t) h = release_begin-IsOrderly t m h
happen-IsOrderly m (cancels now persisted r) h =
    second-IsOrderly m (cancel now persisted r m) h (cancel-IsOrderly now persisted r m h)
happen-IsOrderly m (cancels_loaded now run r) h =
    second-IsOrderly m (cancel_loaded now run r m) h (cancel_loaded-IsOrderly now run r m h)
happen-IsOrderly m stops h = stop-IsOrderly m h
happen-IsOrderly m (begins_shutdown now a) h = begin_shutdown-IsOrderly now a m h
happen-IsOrderly m (records kind r resolved) h = record_result-IsOrderly kind r resolved m h
happen-IsOrderly m works h =
    either_way (is_none m.active_run_id)
      (λ i. round_keeps m (round m) h (round-IsOrderly m h (idle m i))) λ n. h
happen-IsOrderly m (ends_run r resolved fatal) h =
    either_way (is_run r m.active_run_id) (λ y. end_run-IsOrderly r resolved fatal m h) λ n. h

happen_all_keeps : (m : Manager) (es : List Event) → IsOrderly m → IsOrderly (happen_all m es)
unfolding happen_all
happen_all_keeps m [] h = h
happen_all_keeps m (e ∷ es) h = happen_all_keeps (happen m e) es (happen-IsOrderly m e h)

new_manager-IsOrderly : (n : ℕ) → Keeps IsOrderly (new_manager n)
unfolding new_manager count
new_manager-IsOrderly zero = raises
new_manager-IsOrderly (suc n) =
    returns (record { room = omega arith; once = λ x. omega arith; closed = λ on. absurd cc })

-- Any sequence of events from a new manager, with any answers of the store, leaves it orderly: the
-- Runs that wait, the reservations and the submissions under way are at most the capacity; a Run is
-- active, waiting or on its way into the queue at most once; and once shutdown has begun no Run waits
-- and none is accepted.
pub happen_all-IsOrderly :
    (n : ℕ) (m : Manager) (es : List Event) → new_manager n ≡ ok m → IsOrderly (happen_all m es)
happen_all-IsOrderly n m es h =
    happen_all_keeps m es (keeps_value (new_manager n) h (new_manager-IsOrderly n))
