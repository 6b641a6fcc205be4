-- ===== src/Execution/Manager.antt =====
-- debbuilder/execution_manager.py: the state that the manager's condition protects. A token of a
-- reservation is a number; of a recorded failure only the Run is kept, and the answer to the
-- cancellation that shutdown asks for is not.
use deb_builder.Base.{
  ℕ, ◌+◌, zero, suc, Bool, true, false, not, ◌||◌, Text, List, [], ◌∷◌, ◌++◌, Option, none, some,
  any, length, leb, ◌==◌, ◌=t◌, Result, ok, err, refuse, if◌then◌else◌, is_some,
}
use deb_builder.Cancellation.{Control}

-- The codes of ExecutionManagerError, and the ValueError of the constructor.
pub data Error : Type 0 where
  invalid_capacity manager_stopped not_accepting queue_full reservation_inactive : Error
  reservation_run_mismatch already_submitted run_not_found run_not_pending run_not_queued : Error
  control_missing cancel_refused : Error
  recovery_blocked : Text → Error

pub record Manager : Type 0 where
  pub queue_capacity : ℕ
  pub queue : List Text
  pub reservations : List ℕ
  pub admission_leases : List ℕ
  pub reservation_run_ids : List (ℕ × Text)
  pub submitting_run_ids : List Text
  pub worker : Bool
  pub active_run_id : Option Text
  pub active_control : Option Control
  pub accepting : Bool
  pub stopping : Bool
  pub admission_blocker : Option Text
  pub shutdown_started : Bool
  pub shutdown_pending : List Text
  pub shutdown_run_ids : List Text
  pub shutdown_cancelled : List Text
  pub shutdown_failures : List Text
  pub unresolved_admission : List Text
  pub unresolved_active : List Text
  pub worker_fatal_error : Option Text
  pub shutdown_active_run_id : Option Text
  pub shutdown_active_requested : Bool
  pub next_token : ℕ

-- __init__
unfoldable pub new_manager : ℕ → Result Error Manager
new_manager zero = err invalid_capacity
new_manager (suc n) = ok (record {
  queue_capacity = suc n;
  queue = [];
  reservations = [];
  admission_leases = [];
  reservation_run_ids = [];
  submitting_run_ids = [];
  worker = false;
  active_run_id = none;
  active_control = none;
  accepting = false;
  stopping = false;
  admission_blocker = none;
  shutdown_started = false;
  shutdown_pending = [];
  shutdown_run_ids = [];
  shutdown_cancelled = [];
  shutdown_failures = [];
  unresolved_admission = [];
  unresolved_active = [];
  worker_fatal_error = none;
  shutdown_active_run_id = none;
  shutdown_active_requested = false;
  next_token = 0;
})

abbrev pub has_run : Text → List Text → Bool
has_run r runs = any (λ t. r =t t) runs

abbrev pub has_token : ℕ → List ℕ → Bool
has_token t tokens = any (λ u. t == u) tokens

-- deque.remove: the first that is equal
unfoldable pub drop_run : Text → List Text → List Text
drop_run r [] = []
drop_run r (t ∷ rest) = let others = drop_run r rest in if r =t t then rest else t ∷ others

-- set.discard
unfoldable pub drop_token : ℕ → List ℕ → List ℕ
drop_token t [] = []
drop_token t (u ∷ rest) = let others = drop_token t rest in if t == u then others else u ∷ others

-- `if run_id not in list: list.append(run_id)`, also a dict's `setdefault`
abbrev pub with_run : Text → List Text → List Text
with_run r runs = if has_run r runs then runs else runs ++ r ∷ []

unfoldable pub run_of : ℕ → List (ℕ × Text) → Option Text
run_of t [] = none
run_of t ((u, r) ∷ rest) = if t == u then some r else run_of t rest

unfoldable pub forget_token : ℕ → List (ℕ × Text) → List (ℕ × Text)
forget_token t [] = []
forget_token t ((u, r) ∷ rest) =
    let others = forget_token t rest in if t == u then others else (u, r) ∷ others

abbrev pub is_run : Text → Option Text → Bool
is_run r none = false
is_run r (some t) = r =t t

-- start
unfoldable pub start : Option Text → Bool → Manager → Result Error Manager
start blocker alive m =
    if m.shutdown_started
    then err manager_stopped
    else if m.worker
    then (if alive then ok m else err manager_stopped)
    else ok (record m {
      admission_blocker = blocker;
      accepting = not (is_some blocker);
      stopping = false;
      worker = true;
    })

-- `_require_accepting`
unfoldable pub require_accepting : Manager → Result Error (Unit {0})
require_accepting m = if m.accepting then ok tt else elim m.admission_blocker [
  | none ↦ err not_accepting
  | some code ↦ err (recovery_blocked code)
]

-- `_require_capacity`
unfoldable pub require_capacity : Manager → Result Error (Unit {0})
require_capacity m =
    refuse
      (leb m.queue_capacity (length m.queue + length m.reservations + length m.submitting_run_ids))
      queue_full

-- `_require_not_submitted`
unfoldable pub require_not_submitted : Text → Manager → Result Error (Unit {0})
require_not_submitted r m =
    refuse (is_run r m.active_run_id || has_run r m.queue || has_run r m.submitting_run_ids)
      already_submitted
