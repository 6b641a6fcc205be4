-- ===== src/Gate.antt =====
-- debbuilder/lifecycle.py: `MutationGate`, the admission gate and lease count of durable mutations.
-- Each method runs under the gate's condition, so it is one step. Times are counted in ticks of the
-- monotonic clock.
pub mod Trace
use deb_builder.Base.{
  ℕ, zero, suc, ◌+◌, ◌-◌, Bool, true, false, not, ◌&&◌, ◌||◌, List, [], ◌∷◌, Option, none, some,
  ltb, leb, ◌==◌, is_some, Result, ok, err, if◌then◌else◌,
}

pub data Closed : Type 0 where
  mutation_gate_closed : Closed

pub record Gate : Type 0 where
  pub accepting : Bool
  pub active : ℕ

unfoldable pub new_gate : Gate
new_gate = record { accepting = true; active = 0 }

unfoldable pub begin_shutdown : Gate → Gate
begin_shutdown g = record g { accepting = false }

-- The part of `lease` before the `yield`.
unfoldable pub acquire : Gate → Result Closed Gate
acquire g =
    if g.accepting then ok (record g { active = g.active + 1 }) else err mutation_gate_closed

-- The `finally` of `lease`, which runs once for each acquired lease.
unfoldable pub release : Gate → Gate
release g = record g { active = g.active - 1 }

-- The dictionary that `wait_for_quiescence` returns; "status" is "complete" where `complete` is true.
pub record Report : Type 0 where
  pub complete : Bool
  pub admission_closed : Bool
  pub active_mutations : ℕ
  pub timed_out : Bool

report : Option ℕ → Gate → Report
report deadline g =
    let complete = g.active == 0 in
    record {
      complete = complete;
      admission_closed = not g.accepting;
      active_mutations = g.active;
      timed_out = not complete && is_some deadline;
    }

-- max(0, deadline - now) == 0
expired : Option ℕ → ℕ → Bool
expired none now = false
expired (some deadline) now = leb deadline now

-- `wait_for_quiescence` after its tests of the timeout: the loop looks at the gate each time that it
-- wakes, and `wakings` has the clock and the gate then. `none`: it still waits.
unfoldable pub wait_for_quiescence : Option ℕ → List (ℕ × Gate) → Option Report
unfolding report expired
wait_for_quiescence deadline [] = none
wait_for_quiescence deadline ((now, g) ∷ later) =
    let rest = wait_for_quiescence deadline later in
    if g.active == 0 || expired deadline now then some (report deadline g) else rest
