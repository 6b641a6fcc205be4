-- ===== src/Execution/Resolved.antt =====
-- debbuilder/execution_manager.py: a stored Run counts as resolved only when it is.
use deb_builder.Base.{
  ◌≡◌, ◌≢◌, refl, Bool, true, false, Text, ◌=t◌, codes, Option, none, some, arith, ok, ◌⊎◌, inl,
  inr, Bool-cases, =t_sound, ap,
}
use deb_builder.Execution.Stored.{
  Stored, is_terminal_status, is_terminal_run, mark_queued, persist_queued_cancellation, Saving,
  saves, raises_with, terminalize, finalize,
}

-- The tasks of a shutdown, and of a worker that failed, count a Run as resolved only if the Run that
-- is then on disk is terminal, or if a creation left no Run and its workspace could be discarded. A
-- cancellation of a queued Run that does not raise leaves a Run that is cancelled.
pub resolved_lem :
    (creation discarded : Bool) (saving : Saving) (reason : Text) (run : Option Stored)
    → ((terminalize creation discarded saving run).0 ≡ true
        → (is_terminal_run (terminalize creation discarded saving run).1 ≡ true)
          ⊎ ((run ≡ none) × (creation ≡ true) × (discarded ≡ true)))
      × ((finalize saving run).0 ≡ true → is_terminal_run (finalize saving run).1 ≡ true)
      × ((left : Stored)
          → persist_queued_cancellation reason run ≡ ok left
          → left.status =t codes "cancelled" ≡ true)
unfolding terminalize finalize persist_queued_cancellation is_terminal_run ◌=t◌
resolved_lem creation discarded saving reason none =
    (λ h. inr (refl, ground arith, ground arith), λ h. cc, λ left h. cc)
resolved_lem creation discarded saves reason (some run) =
    (λ h. inl (ground arith), λ h. ground arith, λ left h. ground arith)
resolved_lem creation discarded (raises_with disk) reason (some run) =
    (λ h. inl (ground arith), λ h. ground arith, λ left h. ground arith)

is_not : (s t : Text) → is_terminal_status s ≡ true → is_terminal_status t ≡ false → s =t t ≡ false
is_not s t h n = elim (Bool-cases (s =t t)) [
  | inl same ↦ absurd (ground (arith, ap is_terminal_status (=t_sound s t same)))
  | inr other ↦ other
]

-- A terminal Run stays: both resolutions report it and write nothing, a cancellation leaves it or
-- raises, and it is never queued again.
pub terminal_stays :
    (creation discarded : Bool) (saving : Saving) (reason : Text) (run : Option Stored)
    → is_terminal_run run ≡ true
    → (terminalize creation discarded saving run ≡ (true, run))
      × (finalize saving run ≡ (true, run))
      × ((left : Stored) → persist_queued_cancellation reason run ≡ ok left → some left ≡ run)
      × ((left : Stored) → mark_queued run ≢ ok left)
unfolding terminalize finalize persist_queued_cancellation mark_queued is_terminal_run ◌=t◌
terminal_stays creation discarded saving reason none h = absurd cc
terminal_stays creation discarded saving reason (some run) h = (
  ground (arith, h),
  ground (arith, h),
  (λ left e. ground (arith, e, is_not run.status (codes "queued") h refl)),
  λ left e. ground (arith, e, is_not run.status (codes "pending") h refl),
)
