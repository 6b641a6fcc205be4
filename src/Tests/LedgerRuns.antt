-- ===== src/Tests/LedgerRuns.antt =====
-- The properties of the ledger, at the ledgers of `Data`.
use deb_builder.Base.{
  ℕ, ◌≤◌, ◌≡◌, ◌≢◌, ◌↔◌, ◌⊎◌, refl, inl, inr, Bool, true, false, Text, List, [], ◌∷◌, codes, Option,
  none, some, arith, Result, ok, err, ◌=t◌,
}
use deb_builder.Base
use deb_builder.Ledger.Row.{
  Generation, build, terminal_failure, no_retry, is_final, validation_admission,
}
use deb_builder.Ledger.Rows.{
  changed, new_generation, preallocate_row, finish_row, advance_row, notify_row, Outcome, advanced,
}
use deb_builder.Ledger.Validate.{validate_generation}
use deb_builder.Ledger.Validate.Table.{WellFormed}
use deb_builder.Ledger.Validate.Exact.{validate_generation-ok_iff}
use deb_builder.Ledger.Rows.Accepted.{OutcomeTexts, FinishArguments}
use deb_builder.Ledger.Rows.Lifecycle.{Step, Reach, here, next, Monotone, Reach-Monotone}
use deb_builder.Ledger.Rows.Lifecycle
use deb_builder.Ledger.Rows.Final.{Reach-IsCoherent, IsCoherent, Step-final, Reopens}
use deb_builder.Ledger.Rows.Exact.{finish_accepted, advance_accepted, AdvanceLinks}
use deb_builder.Ledger.Store.{load, save, update, find_entry, put_entry, preallocate_run, entry_of}
use deb_builder.Ledger.Store.Update.{row?}
use deb_builder.Ledger.Store.Histories.{exec_all, exec_all-Monotone}
use deb_builder.Ledger.Store.Commands.{Call, run_call, run_call_lem, row?-WellFormed}
use deb_builder.Ledger.Store.Commands
use deb_builder.Tests.Data.{
  plain, host, ledger, first, second, done, told, running, tool_key, noon, one, ledgers_load,
}

abbrev calls : List (Text × ℕ × Call)
calls =
    (tool_key, 0, Commands.preallocate one (codes "run-1"))
    ∷ (tool_key, 3, Commands.notify one)
    ∷ []

-- The rows of the ledgers are well formed.
well_formed :
    (g : Generation) → load host (ledger (g ∷ [])) ≡ ok (ledger (g ∷ [])) → WellFormed plain.iso 0 g
unfolding row? find_entry Base.◌=t◌
well_formed g loads = row?-WellFormed host (ledger (g ∷ [])) tool_key 0 g loads refl

validated :
    (g : Generation)
    → load host (ledger (g ∷ [])) ≡ ok (ledger (g ∷ []))
    → validate_generation plain.iso 0 g ≡ ok g
validated g loads = (validate_generation-ok_iff plain.iso 0 g g).1 (well_formed g loads, refl)

run_preallocate :
    run_call host tool_key 0 (Commands.preallocate one (codes "run-1")) (ledger (first ∷ []))
    ≡ ok (second, ledger (second ∷ []))
unfolding run_call preallocate_run update preallocate_row put_entry find_entry save load Base.◌=t◌
    entry_of
run_preallocate = rw (ledgers_load.0, ledgers_load.1)

run_call_lem_example :
    (load host (ledger (second ∷ [])) ≡ ok (ledger (second ∷ [])))
    × (row? tool_key 0 (ledger (second ∷ [])) ≡ some second)
    × ((old : Generation) × (row? tool_key 0 (ledger (first ∷ [])) ≡ some old)
        × Step plain.iso 0 old second)
    × ((k : Text) (m : ℕ)
        → (k ≢ tool_key) ⊎ (m ≢ 0)
        → row? k m (ledger (second ∷ [])) ≡ row? k m (ledger (first ∷ [])))
run_call_lem_example =
    run_call_lem host tool_key 0 (Commands.preallocate one (codes "run-1")) (ledger (first ∷ []))
      (ledger (second ∷ [])) second run_preallocate

exec_all-Monotone_example :
    (g : Generation) × (row? tool_key 0 (exec_all host calls (ledger (first ∷ []))) ≡ some g)
    × Monotone first g
unfolding row? find_entry Base.◌=t◌
exec_all-Monotone_example =
    exec_all-Monotone host calls (ledger (first ∷ [])) tool_key 0 first (ledgers_load.0) refl

validate_generation-ok_iff_example :
    (validate_generation plain.iso 0 second ≡ ok second)
    ↔ (WellFormed plain.iso 0 second × (second ≡ second))
validate_generation-ok_iff_example = validate_generation-ok_iff plain.iso 0 second second

-- The step from `first` to `second`, and the notice of `done`.
abbrev preallocation : Step plain.iso 0 first second
unfolding preallocate_row
preallocation =
    Lifecycle.preallocate one (codes "run-1") (changed second) refl refl
      (validated second (ledgers_load.1))

abbrev notice : Step plain.iso 0 done told
unfolding notify_row
notice = Lifecycle.notify one (changed told) refl refl (validated told (ledgers_load.3))

Reach-IsCoherent_example : IsCoherent second
unfolding new_generation
Reach-IsCoherent_example =
    Reach-IsCoherent plain.iso 0 noon build noon second (next here preallocation)

Step-final_example : (is_final told.state ≡ true) ⊎ Reopens done told
Step-final_example =
    Step-final plain.iso 0 done told (well_formed done (ledgers_load.2)) refl notice

abbrev failed : Outcome
failed = record {
  retry_class = no_retry;
  retry_count = 0;
  not_before = none;
  last_error_code = none;
  diagnostic = some (codes "build_failed");
}

finish_accepted_example :
    (validate_generation plain.iso 0 (finish_row one terminal_failure failed running)
      ≡ ok (finish_row one terminal_failure failed running))
    ↔ (OutcomeTexts plain.iso failed × FinishArguments plain.iso terminal_failure failed running)
finish_accepted_example =
    finish_accepted plain.iso 0 one terminal_failure failed running
      (well_formed running (ledgers_load.4)) (refl, omega arith, refl)

abbrev validating : Generation
validating = record running {
  validation_attempt_id = some (codes "validation-1");
  stage = validation_admission;
}

advance_accepted_example :
    (validate_generation plain.iso 0 validating ≡ ok validating)
    ↔ AdvanceLinks validation_admission (some (codes "validation-1")) none running
unfolding advance_row advanced Base.◌=t◌
advance_accepted_example =
    advance_accepted plain.iso 0 one validation_admission (some (codes "validation-1")) none running
      (changed validating) (well_formed running (ledgers_load.4)) refl (λ e. cc)
      (refl, omega arith, refl) (refl, refl) tt refl
