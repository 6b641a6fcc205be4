-- ===== src/Execution/Orderly.antt =====
-- debbuilder/execution_manager.py: what the sections of admission keep of the queue.
use deb_builder.Base.{
  Keeps, returns, raises, if_rule, bind_rule, refuse_rule, ℕ, ◌+◌, ◌≤◌, suc, ◌≡◌, Bool, true, false,
  not, Text, ◌=t◌, =t_sound, [], ◌∷◌, Option, length, arith, Bool-cases, inl, inr, ◌⊎◌, ok,
}
use deb_builder.Execution.Manager.{
  Manager, has_token, is_run, start, require_accepting, require_capacity, require_not_submitted,
}
use deb_builder.Execution.Admission.{reserve, submit, submit_reserved, settle}
use deb_builder.Execution.Counts.{bit, count, count-absent, length-drop_token, length-drop_token_le}

-- The places of the queue that are filled or promised.
abbrev pub load : Manager → ℕ
load m = length m.queue + length m.reservations + length m.submitting_run_ids

-- In how many places the manager has a Run: active, waiting, on its way into the queue.
abbrev pub places : Text → Manager → ℕ
places x m = bit (is_run x m.active_run_id) + count x m.queue + count x m.submitting_run_ids

pub record IsOrderly (m : Manager) : Type 0 where
  pub room : load m ≤ m.queue_capacity
  pub once : (x : Text) → places x m ≤ 1
  pub closed : m.shutdown_started ≡ true → (m.queue ≡ []) × (m.accepting ≡ false)

is_accepting : (m : Manager) (u : Unit {0}) → require_accepting m ≡ ok u → m.accepting ≡ true
unfolding require_accepting
is_accepting m u h = ground arith

has_room :
    (m : Manager) (u : Unit {0}) → require_capacity m ≡ ok u → suc (load m) ≤ m.queue_capacity
unfolding require_capacity
has_room m u h = ground arith

is_new : (r : Text) (m : Manager) (u : Unit {0}) → require_not_submitted r m ≡ ok u → places r m ≡ 0
unfolding require_not_submitted
is_new r m u h = ground (arith, count-absent r m.queue, count-absent r m.submitting_run_ids)

pub start-IsOrderly :
    (blocker : Option Text) (alive : Bool) (m : Manager)
    → IsOrderly m
    → Keeps IsOrderly (start blocker alive m)
unfolding start
start-IsOrderly blocker alive m h =
    if_rule m.shutdown_started (λ on. raises)
      λ off.
        if_rule m.worker (λ has. if_rule alive (λ a. returns h) λ d. raises)
          λ new. returns (record { room = h.room; once = h.once; closed = λ on. absurd cc })

pub settle-IsOrderly : (t : ℕ) (m : Manager) → IsOrderly m → IsOrderly (settle t m)
unfolding settle
settle-IsOrderly t m h = record {
  room = omega (arith, h.room, length-drop_token_le t m.reservations);
  once = h.once;
  closed = h.closed;
}

pub reserve-IsOrderly : (m : Manager) → IsOrderly m → Keeps (λ x. IsOrderly x.1) (reserve m)
unfolding reserve
reserve-IsOrderly m h = bind_rule (require_accepting m) λ u accepting.
    bind_rule (require_capacity m) λ u free.
      returns (record { room = omega (arith, has_room m u free); once = h.once; closed = h.closed })

-- One more place for a Run that had none.
placed_once :
    (m : Manager) (r : Text)
    → IsOrderly m
    → places r m ≡ 0
    → (x : Text) → suc (places x m) ≤ 1 ⊎ (x =t r ≡ false)
placed_once m r h new x = elim (Bool-cases (x =t r)) [
  | inl same ↦ inl (rw (=t_sound x r same) (omega (arith, new)))
  | inr other ↦ inr other
]

submitting_once :
    (m : Manager) (r : Text)
    → IsOrderly m
    → places r m ≡ 0
    → (x : Text)
    → bit (is_run x m.active_run_id) + count x m.queue + count x (r ∷ m.submitting_run_ids) ≤ 1
unfolding count
submitting_once m r h new x = elim (placed_once m r h new x) [
  | inl none_yet ↦ ground (arith, none_yet)
  | inr other ↦ ground (arith, other, h.once x)
]

pub submit-IsOrderly : (r : Text) (m : Manager) → IsOrderly m → Keeps IsOrderly (submit r m)
unfolding submit
submit-IsOrderly r m h = bind_rule (require_accepting m) λ u accepting.
    bind_rule (require_not_submitted r m) λ u new. bind_rule (require_capacity m) λ u free.
      returns (record {
        room = omega (arith, has_room m u free);
        once = submitting_once m r h (is_new r m u new);
        closed = h.closed;
      })

pub submit_reserved-IsOrderly :
    (t : ℕ) (r : Text) (m : Manager) → IsOrderly m → Keeps IsOrderly (submit_reserved t r m)
unfolding submit_reserved
submit_reserved-IsOrderly t r m h = refuse_rule (not (has_token t m.reservations)) _ _ λ has.
    refuse_rule (not (is_run r _)) _ _ λ own. bind_rule (require_not_submitted r m) λ u new.
      returns (record {
        room = omega (arith, h.room, length-drop_token t m.reservations (ground (arith, has)));
        once = submitting_once m r h (is_new r m u new);
        closed = h.closed;
      })
