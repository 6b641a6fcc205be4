-- ===== src/Orchestrator/Records.antt =====
-- debbuilder/automation_orchestrator.py: the outcomes that the orchestrator writes into the ledger,
-- and the link of a claim to its Validation attempt.
pub mod Waits
use deb_builder.Base.{
  ℕ, ◌+◌, ◌*◌, Bool, true, false, not, ◌&&◌, Text, List, [], ◌∷◌, ◌++◌, codes, Option, none, some,
  ok, err, truthy, ◌==◌, ◌=t◌, if◌then◌else◌, leb,
}
use deb_builder.Ledger.Row.{
  Generation, Classification, success, transient_retryable, cancelled, disabled, no_retry,
  transient, operator, validation, same_policy, is_blocked_manual, is_retry_delayed,
}
use deb_builder.Ledger.Rows.{Outcome}
use deb_builder.Ledger.Document.{Entry}
use deb_builder.Ledger.Store.{Host, is_id}
use deb_builder.Ledger.Store.Commands
use deb_builder.Orchestrator.Services.{Services, Claim, Notice, is_value_error}
use deb_builder.Orchestrator.Effects.{
  Action, give, throw, reads, asks, caught, when, ◌>>=◌, ◌>>◌, ledger_call,
}
use deb_builder.Orchestrator.Authority.{retries, retry_seconds}

abbrev pub text_of : Option Text → Text
text_of none = []
text_of (some t) = t

-- `code or None`
abbrev some_text : Text → Option Text
some_text code = if truthy code then some code else none

abbrev pub claim_of : Entry → Generation → Claim
claim_of e g = record { attempt_key = e.key; generation = g.generation; policy = g.desired_policy }

-- `classification in {"cancelled", "disabled"}`
abbrev pub is_silent : Classification → Bool
is_silent cancelled = true
is_silent disabled = true
is_silent _ = false

abbrev pub is_success : Classification → Bool
is_success success = true
is_success _ = false

-- The arguments of `ledger.finish` in `_schedule_retry` and in `_finish`.
unfoldable pub retry_outcome : ℕ → Text → Text → Text → Outcome
retry_outcome count not_before code diagnostic = record {
  retry_class = transient;
  retry_count = count;
  not_before = some not_before;
  last_error_code = some code;
  diagnostic = some diagnostic;
}

unfoldable pub final_outcome : Generation → Classification → Text → Text → Outcome
final_outcome g c code diagnostic = record {
  retry_class = if is_blocked_manual (some c) then operator else no_retry;
  retry_count = g.retry_count;
  not_before = none;
  last_error_code = some_text code;
  diagnostic = some diagnostic;
}

abbrev pub notice_of : Entry → Generation → Classification → Text → Notice
notice_of e g c code = record {
  run_id = text_of g.run_id;
  status = if is_success c then codes "success" else codes "failed";
  claim = claim_of e g;
  code = code;
}

abbrev pub unless_early : Option ℕ → ℕ → Bool
unless_early none now = false
unless_early (some due) now = leb due now

-- `timestamp(row["not_before"])`; a missing time is a TypeError
abbrev pub time_of : (Text → Option ℕ) → Option Text → Option ℕ
time_of timestamp none = none
time_of timestamp (some t) = timestamp t

-- The test of `_reconcile_validation_link` on the metadata of an attempt.
unfoldable pub is_claim_of : Entry → Generation → Option Claim → Bool
is_claim_of e g none = false
is_claim_of e g (some m) =
    m.attempt_key =t e.key && m.generation == g.generation && same_policy m.policy g.desired_policy

unfoldable pub reversed : List Text → List Text
reversed [] = []
reversed (t ∷ rest) = reversed rest ++ (t ∷ [])

module _ {W : Type 0} (h : Host) (v : Services W) where
  unfoldable pub retry_due : Generation → Action W Bool
  retry_due g =
      if is_retry_delayed g.state
      then (do now ← reads v.wall_clock; give (unless_early (time_of v.timestamp g.not_before) now))
      else give true

  -- `_delay`
  unfoldable pub delay : ℕ → Action W Text
  delay count = do now ← reads v.wall_clock; give (v.iso_text (now + retry_seconds count * 1000000))

  unfoldable pub schedule_retry : Entry → Generation → Text → Text → Action W (Unit {0})
  schedule_retry e g code diagnostic = do
    let count = retries g + 1
    not_before ← delay count
    _ ← ledger_call h v e.key g.generation (λ now.
        Commands.finish_call now transient_retryable
          (retry_outcome count not_before code diagnostic))
    give tt

  -- The completion notice, whose failure is logged.
  unfoldable pub tell : Entry → Generation → Classification → Text → Action W (Unit {0})
  tell e g c code =
      when (not (is_silent c))
        (do _ ← caught (asks (v.notify_completion (notice_of e g c code))); give tt)

  -- `_finish`
  unfoldable pub finish_claim :
      Entry → Generation → Classification → Text → Text → Action W (Unit {0})
  finish_claim e g c code diagnostic = do
    finished ←
        ledger_call h v e.key g.generation
          (λ now. Commands.finish_call now c (final_outcome g c code diagnostic))
    when (not finished.completion_notified) (do
      tell e g c code
      _ ← ledger_call h v e.key g.generation (λ now. Commands.notify now)
      give tt)

  unfoldable pub link_attempt : Entry → Generation → Text → Action W (Option Generation)
  link_attempt e g id = if is_id id g.validation_attempt_id then give none else do
    linked ←
        ledger_call h v e.key g.generation (λ now. Commands.advance now validation (some id) none)
    give (some linked)

  -- The loop over the attempts, from the last one.
  unfoldable pub find_link : Entry → Generation → List Text → Action W (Option Generation)
  unfolding link_attempt
  find_link e g [] = give none
  find_link e g (id ∷ rest) = do
    metadata ← caught (asks (v.load_claim (text_of g.run_id) id))
    elim metadata [
      | err x ↦ if is_value_error x then find_link e g rest else throw x
      | ok m ↦ if is_claim_of e g m then link_attempt e g id else find_link e g rest
    ]

  -- `_reconcile_validation_link`; `none` is the row that it was given
  unfoldable pub reconcile_validation_link : Entry → Generation → Action W (Option Generation)
  reconcile_validation_link e g = do
    attempts ← asks (v.list_attempts (text_of g.run_id))
    find_link e g (reversed attempts)
