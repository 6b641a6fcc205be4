-- ===== src/Execution/Admission.antt =====
-- debbuilder/execution_manager.py: reservations, and the way of a Run into the queue. A method that
-- leaves the condition to read or write the store is one step before and one after, with what the
-- store answered as an argument.
use deb_builder.Base.{
  ℕ, ◌+◌, Bool, true, false, not, ◌||◌, Text, ◌=t◌, [], ◌∷◌, ◌++◌, Option, none, some, Result, ok,
  ◌>>◌, refuse, if◌then◌else◌,
}
use deb_builder.Execution.Manager.{
  Manager, Error, reservation_inactive, reservation_run_mismatch, has_run, has_token, drop_run,
  drop_token, with_run, run_of, forget_token, is_run, require_accepting, require_capacity,
  require_not_submitted,
}

-- reserve, up to its `yield`
unfoldable pub reserve : Manager → Result Error (ℕ × Manager)
reserve m = do
  require_accepting m
  require_capacity m
  ok (
    m.next_token,
    record m {
      reservations = m.next_token ∷ m.reservations;
      admission_leases = m.next_token ∷ m.admission_leases;
      next_token = m.next_token + 1;
    },
  )

-- submit, before `_persist_and_enqueue`
unfoldable pub submit : Text → Manager → Result Error Manager
submit r m = do
  require_accepting m
  require_not_submitted r m
  require_capacity m
  ok (record m { submitting_run_ids = r ∷ m.submitting_run_ids })

-- `_submit_reserved`, before `_persist_and_enqueue`
unfoldable pub submit_reserved : ℕ → Text → Manager → Result Error Manager
submit_reserved t r m = do
  refuse (not (has_token t m.reservations)) reservation_inactive
  refuse (not (is_run r (run_of t m.reservation_run_ids))) reservation_run_mismatch
  require_not_submitted r m
  ok (record m {
    reservations = drop_token t m.reservations;
    submitting_run_ids = r ∷ m.submitting_run_ids;
  })

-- `_capture_shutdown_run_locked`
unfoldable pub capture : Text → Manager → Manager
capture r m = record m {
  shutdown_run_ids = with_run r m.shutdown_run_ids;
  shutdown_pending = with_run r m.shutdown_pending;
}

-- `_settle_reservation_locked`
unfoldable pub settle : ℕ → Manager → Manager
settle t m = record m {
  reservations = drop_token t m.reservations;
  admission_leases = drop_token t m.admission_leases;
  reservation_run_ids = forget_token t m.reservation_run_ids;
}

settle_if : Option ℕ → Manager → Manager
settle_if none m = m
settle_if (some t) m = settle t m

enqueue : Text → Manager → Manager
enqueue r m = if m.shutdown_started then capture r m else record m { queue = m.queue ++ r ∷ [] }

-- `_persist_and_enqueue` after the Run is stored as queued
unfoldable pub enqueue_persisted : Text → Option ℕ → Manager → Manager
unfolding settle_if enqueue
enqueue_persisted r t m =
    settle_if t (enqueue r (record m { submitting_run_ids = drop_run r m.submitting_run_ids }))

keep_unresolved : Text → Bool → Manager → Manager
keep_unresolved r unresolved m =
    if unresolved
    then record m {
      unresolved_admission = with_run r m.unresolved_admission;
      shutdown_failures = with_run r m.shutdown_failures;
    }
    else m

-- `_persist_and_enqueue` after that has raised; `unresolved` is what the store then shows
unfoldable pub enqueue_failed : Text → Option ℕ → Bool → Manager → Manager
unfolding keep_unresolved
enqueue_failed r t unresolved m =
    let kept = keep_unresolved r (elim t [ none ↦ unresolved | some u ↦ false ]) m in
    record kept { submitting_run_ids = drop_run r kept.submitting_run_ids }

-- tracked is not None and tracked != run_id
abbrev pub is_other : Text → Option Text → Bool
is_other r none = false
is_other r (some owned) = not (r =t owned)

-- `_track_reservation`
unfoldable pub track : ℕ → Text → Manager → Result Error Manager
track t r m = do
  refuse (not (has_token t m.admission_leases)) reservation_inactive
  refuse (is_other r (run_of t m.reservation_run_ids)) reservation_run_mismatch
  ok (record m { reservation_run_ids = (t, r) ∷ forget_token t m.reservation_run_ids })

-- `_confirm_reservation_terminal` and `_confirm_reservation_absent`, with what the store shows
unfoldable pub confirm : Bool → ℕ → Text → Manager → Bool × Manager
confirm shown t r m =
    if not shown
    then (false, m)
    else if is_run r (run_of t m.reservation_run_ids)
    then (true, settle t m)
    else (not (has_token t m.admission_leases), m)

-- `_transfer_reservation_unresolved`
unfoldable pub transfer : ℕ → Text → Manager → Result Error Manager
transfer t r m = if not (has_token t m.admission_leases) then ok m else do
  refuse (not (is_run r (run_of t m.reservation_run_ids))) reservation_run_mismatch
  ok (
      settle t (record m {
        unresolved_admission = with_run r m.unresolved_admission;
        shutdown_failures = with_run r m.shutdown_failures;
      }))

-- `_resolve_failed_creation`, whose two sections are those of `confirm`, with nothing between: whether terminalization returned true, false or raised, and what the
-- store shows
unfoldable pub resolve_failed_creation :
    Option Bool → Bool → Bool → ℕ → Text → Manager → Bool × Manager
resolve_failed_creation (some false) terminal absent t r m = (false, m)
resolve_failed_creation _ terminal absent t r m =
    let (settled, m') = confirm terminal t r m in
    if settled then (true, m') else confirm absent t r m'

unfoldable pub is_owned : Text → Manager → Bool
is_owned r m =
    is_run r m.active_run_id
    || has_run r m.queue
    || has_run r m.submitting_run_ids
    || has_run r m.shutdown_pending

unfoldable pub begin_leased : Option Text → ℕ → Manager → Option Text × Manager
unfolding is_owned
begin_leased none t m = (none, settle t m)
begin_leased (some r) t m = if is_owned r m then (none, settle t m) else (some r, m)

-- The section of `_release_reservation` under the condition, with the Run that is left to confirm or to
-- transfer.
unfoldable pub release_begin : ℕ → Manager → Option Text × Manager
unfolding begin_leased
release_begin t m =
    if not (has_token t m.admission_leases)
    then (none, m)
    else begin_leased (run_of t m.reservation_run_ids) t m
