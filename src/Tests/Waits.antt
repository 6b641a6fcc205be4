-- ===== src/Tests/Waits.antt =====
-- The wait of a retry, with a clock whose readings are written as texts of one character.
use deb_builder.Base.{
  ℕ, ◌≤◌, ◌≡◌, ◌+◌, ◌*◌, refl, true, Text, [], ◌∷◌, codes, Option, none, some, ok,
}
use deb_builder.Ledger.Row.{transient_retryable}
use deb_builder.Ledger.Rows.{Outcome, finish_row, count_retry}
use deb_builder.Base
use deb_builder.Ledger.Store.{finish, update, save, load, put_entry, find_entry, entry_of}
use deb_builder.Ledger.Store.Commands.{run_call}
use deb_builder.Ledger.Store.Commands
use deb_builder.Ledger.Store.Update.{row?}
use deb_builder.Orchestrator.Services.{Services}
use deb_builder.Orchestrator.Effects.{
  System, reads, give, ◌>>=◌, >>=-of, ledger_call, ledger_call-of,
}
use deb_builder.Orchestrator.Authority.{
  retries, retry_seconds, min_retry_seconds, max_retry_seconds,
}
use deb_builder.Orchestrator.Records.{schedule_retry, delay, retry_due, retry_outcome}
use deb_builder.Orchestrator.Records.Waits.{clock, schedule_retry_lem}
use deb_builder.Tests.Data.{host, ledger, first, later, ledgers_load, tool_key, tool_entry, one}
use deb_builder.Tests.Passes.{collaborators, start}

abbrev first_code : Text → Option ℕ
first_code [] = none
first_code (c ∷ t) = some c

abbrev timed : Services ℕ
timed = record collaborators { iso_text = λ time. time ∷ []; timestamp = first_code }

abbrev delayed : System ℕ
delayed = record { disk = ledger (later ∷ []); world = 0 }

abbrev outcome : Outcome
outcome = retry_outcome 1 (60000000 ∷ []) (codes "busy") (codes "busy")

is_finished :
    run_call host tool_key 0
      (Commands.finish_call one transient_retryable outcome)
      (ledger (first ∷ []))
    ≡ ok (later, ledger (later ∷ []))
unfolding run_call finish update save load put_entry find_entry finish_row count_retry retry_outcome
    Base.◌=t◌ entry_of
is_finished = rw (ledgers_load.0, ledgers_load.5)

is_scheduled :
    schedule_retry host timed (tool_entry (first ∷ [])) first (codes "busy") (codes "busy") start
    ≡ (ok tt, delayed)
unfolding schedule_retry delay reads give ◌>>=◌ retries retry_seconds
is_scheduled =
    >>=-of
      (ledger_call host timed tool_key 0
        (λ now. Commands.finish_call now transient_retryable outcome))
      (λ row. give tt) start delayed later
      (ledger_call-of host timed tool_key 0
        (λ now. Commands.finish_call now transient_retryable outcome) start later
        (ledger (later ∷ [])) is_finished)

is_found : row? tool_key 0 delayed.disk ≡ some later
unfolding row? find_entry Base.◌=t◌
is_found = refl

-- A thousand seconds after the start.
abbrev afterwards : System ℕ
afterwards = record delayed { world = 1000000000 }

schedule_retry_lem_example :
    ((retry_due host timed later afterwards).0 ≡ ok true
      → clock host timed start + min_retry_seconds * 1000000 ≤ clock host timed afterwards)
    × (clock host timed start + max_retry_seconds * 1000000 ≤ clock host timed afterwards
        → (retry_due host timed later afterwards).0 ≡ ok true)
schedule_retry_lem_example =
    schedule_retry_lem host timed (λ time. refl) (tool_entry (first ∷ [])) first (codes "busy")
      (codes "busy") start delayed afterwards later is_scheduled is_found
