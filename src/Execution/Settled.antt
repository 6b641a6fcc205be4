-- ===== src/Execution/Settled.antt =====
-- debbuilder/execution_manager.py: a submission that ends, and reservations that are given up, keep
-- the manager orderly.
use deb_builder.Base.{
  Keeps, returns, if_rule, refuse_rule, ℕ, ◌≡◌, refl, Bool, true, false, not, Text, [], ◌∷◌, ◌++◌,
  Option, none, some, length-append, arith, if◌then◌else◌, Bool-cases, inl, inr,
}
use deb_builder.Execution.Manager.{Manager, has_run, has_token, drop_run, is_run, run_of}
use deb_builder.Execution.Admission.{
  capture, is_other, is_owned, begin_leased, enqueue_persisted, enqueue_failed, track, confirm,
  transfer, resolve_failed_creation, release_begin,
}
use deb_builder.Execution.Counts.{
  count-append, count-drop_run, length-drop_run, length-drop_run_le, count-drop_run_le,
}
use deb_builder.Execution.Orderly.{IsOrderly, settle-IsOrderly}

pub either_way :
    (b : Bool) {x y : Manager}
    → (b ≡ true → IsOrderly x)
    → (b ≡ false → IsOrderly y)
    → IsOrderly (if b then x else y)
either_way true taken other = taken refl
either_way false taken other = other refl

pub capture-IsOrderly : (r : Text) (m : Manager) → IsOrderly m → IsOrderly (capture r m)
unfolding capture
capture-IsOrderly r m h = record { room = h.room; once = h.once; closed = h.closed }

dropped-IsOrderly :
    (r : Text) (m : Manager)
    → IsOrderly m
    → IsOrderly (record m { submitting_run_ids = drop_run r m.submitting_run_ids })
dropped-IsOrderly r m h = record {
  room = omega (arith, h.room, length-drop_run_le r m.submitting_run_ids);
  once = λ x. omega (arith, h.once x, count-drop_run_le x r m.submitting_run_ids);
  closed = h.closed;
}

appended-IsOrderly :
    (r : Text) (m : Manager)
    → IsOrderly m
    → has_run r m.submitting_run_ids ≡ true
    → m.shutdown_started ≡ false
    → IsOrderly (record m {
      submitting_run_ids = drop_run r m.submitting_run_ids;
      queue = m.queue ++ r ∷ [];
    })
appended-IsOrderly r m h has off = record {
  room =
      omega
        (arith, h.room, length-drop_run r m.submitting_run_ids has, length-append m.queue (r ∷ []));
  once = λ x.
      omega
        (arith, h.once x, count-drop_run x r m.submitting_run_ids has, count-append x m.queue r);
  closed = λ on. absurd cc;
}

pub enqueue_persisted-IsOrderly :
    (r : Text) (t : Option ℕ) (m : Manager)
    → IsOrderly m
    → has_run r m.submitting_run_ids ≡ true
    → IsOrderly (enqueue_persisted r t m)
unfolding enqueue_persisted
enqueue_persisted-IsOrderly r none m h has =
    either_way m.shutdown_started (λ on. capture-IsOrderly r _ (dropped-IsOrderly r m h))
      (appended-IsOrderly r m h has)
enqueue_persisted-IsOrderly r (some t) m h has = settle-IsOrderly t _ (
    either_way m.shutdown_started (λ on. capture-IsOrderly r _ (dropped-IsOrderly r m h))
      (appended-IsOrderly r m h has))

pub enqueue_failed-IsOrderly :
    (r : Text) (t : Option ℕ) (u : Bool) (m : Manager)
    → IsOrderly m
    → IsOrderly (enqueue_failed r t u m)
unfolding enqueue_failed
enqueue_failed-IsOrderly r none false m h = dropped-IsOrderly r m h
enqueue_failed-IsOrderly r none true m h =
    dropped-IsOrderly r _ (record { room = h.room; once = h.once; closed = h.closed })
enqueue_failed-IsOrderly r (some t) u m h = dropped-IsOrderly r m h

pub track-IsOrderly : (t : ℕ) (r : Text) (m : Manager) → IsOrderly m → Keeps IsOrderly (track t r m)
unfolding track
track-IsOrderly t r m h = refuse_rule (not (has_token t m.admission_leases)) _ _ λ active.
    refuse_rule (is_other r (run_of t m.reservation_run_ids)) _ _
      λ own. returns (record { room = h.room; once = h.once; closed = h.closed })

pub confirm-IsOrderly :
    (shown : Bool) (t : ℕ) (r : Text) (m : Manager)
    → IsOrderly m
    → IsOrderly (confirm shown t r m).1
unfolding confirm
confirm-IsOrderly false t r m h = h
confirm-IsOrderly true t r m h = elim (Bool-cases (is_run r (run_of t m.reservation_run_ids))) [
  | inl own ↦ rw own (settle-IsOrderly t m h)
  | inr other ↦ rw other h
]

pub transfer-IsOrderly :
    (t : ℕ) (r : Text) (m : Manager) → IsOrderly m → Keeps IsOrderly (transfer t r m)
unfolding transfer
transfer-IsOrderly t r m h =
    if_rule (not (has_token t m.admission_leases)) (λ gone. returns h)
      λ leased. refuse_rule (not (is_run r (run_of t m.reservation_run_ids))) _ _ λ own.
        returns (settle-IsOrderly t _ (record { room = h.room; once = h.once; closed = h.closed }))

-- The second half of `_resolve_failed_creation`.
confirmed-IsOrderly :
    (settled : Bool) (absent : Bool) (t : ℕ) (r : Text) (m : Manager)
    → IsOrderly m
    → IsOrderly (if settled then (true, m) else confirm absent t r m).1
confirmed-IsOrderly true absent t r m h = h
confirmed-IsOrderly false absent t r m h = confirm-IsOrderly absent t r m h

pub resolve_failed_creation-IsOrderly :
    (answer : Option Bool) (terminal absent : Bool) (t : ℕ) (r : Text) (m : Manager)
    → IsOrderly m
    → IsOrderly (resolve_failed_creation answer terminal absent t r m).1
unfolding resolve_failed_creation
resolve_failed_creation-IsOrderly (some false) terminal absent t r m h = h
resolve_failed_creation-IsOrderly (some true) terminal absent t r m h =
    confirmed-IsOrderly (confirm terminal t r m).0 absent t r (confirm terminal t r m).1
      (confirm-IsOrderly terminal t r m h)
resolve_failed_creation-IsOrderly none terminal absent t r m h =
    confirmed-IsOrderly (confirm terminal t r m).0 absent t r (confirm terminal t r m).1
      (confirm-IsOrderly terminal t r m h)

leased-IsOrderly :
    (tracked : Option Text) (t : ℕ) (m : Manager)
    → IsOrderly m
    → IsOrderly (begin_leased tracked t m).1
unfolding begin_leased
leased-IsOrderly none t m h = settle-IsOrderly t m h
leased-IsOrderly (some r) t m h = elim (Bool-cases (is_owned r m)) [
  | inl own ↦ rw own (settle-IsOrderly t m h)
  | inr free ↦ rw free h
]

pub release_begin-IsOrderly : (t : ℕ) (m : Manager) → IsOrderly m → IsOrderly (release_begin t m).1
unfolding release_begin
release_begin-IsOrderly t m h = elim (Bool-cases (has_token t m.admission_leases)) [
  | inl leased ↦ rw leased (leased-IsOrderly (run_of t m.reservation_run_ids) t m h)
  | inr gone ↦ rw gone h
]
