-- ===== src/Ledger/Validate/Table.antt =====
-- debbuilder/automation_ledger.py: what `_validate_generation` accepts, as a table over the state
-- and the stage of a generation.
use deb_builder.Base.{
  ℕ, ◌≤◌, ◌≡◌, ◌≢◌, ◌↔◌, Bool, true, all, Text, Option, none, some, is_some, is_id_char,
  is_code_char, truthy, truthy?, length, ok,
}
use deb_builder.Ledger.Row.{
  Generation, State, Stage, Classification, RetryClass, run_preallocated, admitted, terminal,
  retry_delayed, blocked, manual, detect, transient_retryable, blocked_manual, no_retry, transient,
  operator, detection, run_admission, run, validation_admission, validation, publication, stopped,
  max_retry_count, max_diagnostic, max_error_code, is_final,
}
use deb_builder.Ledger.Validate.{
  Iso, check_header, check_ids, check_links, check_lifecycle, check_stage, check_stage_links,
  check_notice, check_result, is_bounded_text, is_attempt_char,
}

abbrev pub IsAbsent : Option Text → Type 0
IsAbsent o = o ≡ none

abbrev pub IsPresent : Option Text → Type 0
IsPresent o = is_some o ≡ true

-- How a state and its outcome fields go together.
abbrev pub Outcome : State → Option Classification → RetryClass → Option Text → Type 0
Outcome retry_delayed c r later = (c ≡ some transient_retryable) × (r ≡ transient) × IsPresent later
Outcome blocked c r later = (c ≡ some blocked_manual) × (r ≡ operator) × IsAbsent later
Outcome terminal c r later =
    (is_some c ≡ true)
    × (c ≢ some transient_retryable)
    × (c ≢ some blocked_manual)
    × (r ≡ no_retry)
    × IsAbsent later
Outcome _ c r later = (c ≡ none) × (r ≡ no_retry) × IsAbsent later

-- A text that is null, or bounded and of one character class.
abbrev pub IsSafe : (ℕ → Bool) → ℕ → Option Text → Type 0
IsSafe p maximum none = Unit {0}
IsSafe p maximum (some t) = (is_bounded_text maximum t ≡ true) × (all p t ≡ true)

-- The links that a stage carries: the preallocated Run, the linked Run, the Validation attempt and
-- the Publication attempt.
abbrev pub StageLinks : Stage → Option Text → Option Text → Option Text → Option Text → Type 0
StageLinks detection pre linked val pub_id =
    IsAbsent pre × IsAbsent linked × IsAbsent val × IsAbsent pub_id
StageLinks run_admission pre linked val pub_id =
    IsPresent pre × IsAbsent linked × IsAbsent val × IsAbsent pub_id
StageLinks run pre linked val pub_id = IsPresent linked × IsAbsent val × IsAbsent pub_id
StageLinks validation_admission pre linked val pub_id = IsPresent linked × IsAbsent pub_id
StageLinks validation pre linked val pub_id = IsPresent linked × IsPresent val × IsAbsent pub_id
StageLinks publication pre linked val pub_id = IsPresent linked × IsPresent val
StageLinks stopped pre linked val pub_id = Unit {0}

abbrev pub Counters : Generation → Type 0
Counters g =
    (g.retry_count ≤ max_retry_count)
    × (g.run_retry_count ≤ max_retry_count)
    × (g.validation_retry_count ≤ max_retry_count)
    × (g.publication_retry_count ≤ max_retry_count)

abbrev pub IsTimestamp : Iso → Text → Type 0
IsTimestamp iso t = (truthy t ≡ true) × (length t ≤ 64) × (iso t ≡ some true)

abbrev pub IsTimestamp? : Iso → Option Text → Type 0
IsTimestamp? iso none = Unit {0}
IsTimestamp? iso (some t) = IsTimestamp iso t

-- The table.
pub record WellFormed (iso : Iso) (expected : ℕ) (g : Generation) : Type 0 where
  pub position : g.generation ≡ expected
  pub automated : g.desired_policy ≢ manual
  pub counters : Counters g
  pub safe_run : IsSafe is_id_char 128 g.run_id
  pub safe_preallocated : IsSafe is_id_char 128 g.preallocated_run_id
  pub safe_validation : IsSafe is_attempt_char 128 g.validation_attempt_id
  pub safe_publication : IsSafe is_attempt_char 128 g.publication_attempt_id
  pub run_is_preallocated : IsPresent g.run_id → g.run_id ≡ g.preallocated_run_id
  pub preallocated_has_run : g.state ≡ run_preallocated → IsPresent g.preallocated_run_id
  pub admitted_is_linked : g.state ≡ admitted → IsPresent g.run_id
  pub detect_has_no_run :
      g.desired_policy ≡ detect
      → IsAbsent g.preallocated_run_id
        × IsAbsent g.run_id
        × (g.state ≢ run_preallocated)
        × (g.state ≢ admitted)
  pub outcome : Outcome g.state g.terminal_classification g.retry_class g.not_before
  pub final_is_stopped : (is_final g.state ≡ true) ↔ (g.stage ≡ stopped)
  pub publication_is_validated :
      IsPresent g.publication_attempt_id → IsPresent g.validation_attempt_id
  pub stage_links :
      StageLinks g.stage g.preallocated_run_id g.run_id g.validation_attempt_id
        g.publication_attempt_id
  pub notified_is_final : g.completion_notified ≡ true → is_final g.state ≡ true
  pub safe_error : IsSafe is_code_char max_error_code g.last_error_code
  pub safe_diagnostic : IsSafe is_code_char max_diagnostic g.diagnostic
  pub detected : IsTimestamp iso g.detected_at
  pub created : IsTimestamp iso g.created_at
  pub updated : IsTimestamp iso g.updated_at
  pub not_before : IsTimestamp? iso g.not_before

abbrev pub SafeIds : Generation → Type 0
SafeIds g =
    IsSafe is_id_char 128 g.run_id
    × IsSafe is_id_char 128 g.preallocated_run_id
    × IsSafe is_attempt_char 128 g.validation_attempt_id
    × IsSafe is_attempt_char 128 g.publication_attempt_id

abbrev pub Truths : Generation → Type 0
Truths g =
    (truthy? g.run_id ≡ is_some g.run_id)
    × (truthy? g.preallocated_run_id ≡ is_some g.preallocated_run_id)
    × (truthy? g.validation_attempt_id ≡ is_some g.validation_attempt_id)
    × (truthy? g.publication_attempt_id ≡ is_some g.publication_attempt_id)

abbrev pub LinkFacts : Generation → Type 0
LinkFacts g =
    (IsPresent g.run_id → g.run_id ≡ g.preallocated_run_id)
    × (g.state ≡ run_preallocated → IsPresent g.preallocated_run_id)
    × (g.state ≡ admitted → IsPresent g.run_id)
    × (g.desired_policy ≡ detect
        → IsAbsent g.preallocated_run_id
          × IsAbsent g.run_id
          × (g.state ≢ run_preallocated)
          × (g.state ≢ admitted))

abbrev pub StageFacts : Generation → Type 0
StageFacts g =
    ((is_final g.state ≡ true) ↔ (g.stage ≡ stopped))
    × (IsPresent g.publication_attempt_id → IsPresent g.validation_attempt_id)

abbrev pub StageLinksOf : Generation → Type 0
StageLinksOf g =
    StageLinks g.stage g.preallocated_run_id g.run_id g.validation_attempt_id
      g.publication_attempt_id

abbrev pub NoticeFacts : Generation → Type 0
NoticeFacts g =
    (g.completion_notified ≡ true → is_final g.state ≡ true)
    × IsSafe is_code_char max_error_code g.last_error_code

abbrev pub ResultFacts : Iso → Generation → Type 0
ResultFacts iso g =
    IsSafe is_code_char max_diagnostic g.diagnostic
    × IsTimestamp iso g.detected_at
    × IsTimestamp iso g.created_at
    × IsTimestamp iso g.updated_at
    × IsTimestamp? iso g.not_before

-- The eight groups of tests have all passed.
abbrev pub Passed : Iso → ℕ → Generation → Type 0
Passed iso n g =
    (check_header n g ≡ ok tt)
    × (check_ids g ≡ ok tt)
    × (check_links g ≡ ok tt)
    × (check_lifecycle g ≡ ok tt)
    × (check_stage g ≡ ok tt)
    × (check_stage_links g ≡ ok tt)
    × (check_notice g ≡ ok tt)
    × (check_result iso g ≡ ok tt)
