-- ===== src/Ledger/Row.antt =====
-- debbuilder/automation_ledger.py: the constants, the enumerations and one generation of an
-- attempt. A field that JSON holds as an enumerated string is a data type here.
use deb_builder.Base.{ℕ, Bool, true, false, Text, Option, some, ◌==◌}
use deb_builder.Identity

-- MAX_GENERATIONS, MAX_DIAGNOSTIC, MAX_ERROR_CODE and the bound on a retry counter
abbrev pub max_generations : ℕ
max_generations = 8

abbrev pub max_diagnostic : ℕ
max_diagnostic = 80

abbrev pub max_error_code : ℕ
max_error_code = 80

abbrev pub max_retry_count : ℕ
max_retry_count = 1000

pub data State : Type 0 where
  claimed run_preallocated admitted terminal retry_delayed blocked : State

pub data Classification : Type 0 where
  success terminal_failure transient_retryable blocked_manual cancelled disabled : Classification

pub data RetryClass : Type 0 where
  no_retry transient operator : RetryClass

pub data Policy : Type 0 where
  manual detect test build build_validate full : Policy

pub data Stage : Type 0 where
  detection run_admission run validation_admission validation publication stopped : Stage

-- The codes of `AutomationLedgerError` and of the errors that it lets through.
pub data Error : Type 0 where
  ledger_invalid ledger_bounds_exceeded attempt_not_found state_conflict : Error
  policy_ineligible policy_mismatch run_not_found run_binding_invalid run_mismatch : Error
  run_not_linked stage_invalid validation_mismatch not_terminal : Error
  retry_stale retry_not_terminal recipe_stale recipe_changed_during_detection : Error
  identity_refused : Identity.Model.Error → Error

pub record Generation : Type 0 where
  pub generation : ℕ
  pub state : State
  pub desired_policy : Policy
  pub detected_at : Text
  pub created_at : Text
  pub updated_at : Text
  pub preallocated_run_id : Option Text
  pub run_id : Option Text
  pub terminal_classification : Option Classification
  pub retry_class : RetryClass
  pub retry_count : ℕ
  pub not_before : Option Text
  pub last_error_code : Option Text
  pub diagnostic : Option Text
  pub stage : Stage
  pub validation_attempt_id : Option Text
  pub publication_attempt_id : Option Text
  pub completion_notified : Bool
  pub run_retry_count : ℕ
  pub validation_retry_count : ℕ
  pub publication_retry_count : ℕ

-- state in {"terminal", "blocked"}
abbrev pub is_final : State → Bool
is_final terminal = true
is_final blocked = true
is_final _ = false

-- state in {"terminal", "retry_delayed", "blocked"}
abbrev pub is_ended : State → Bool
is_ended terminal = true
is_ended retry_delayed = true
is_ended blocked = true
is_ended _ = false

abbrev pub is_retry_delayed : State → Bool
is_retry_delayed retry_delayed = true
is_retry_delayed _ = false

abbrev pub is_blocked : State → Bool
is_blocked blocked = true
is_blocked _ = false

abbrev pub is_terminal : State → Bool
is_terminal terminal = true
is_terminal _ = false

abbrev pub is_claimed : State → Bool
is_claimed claimed = true
is_claimed _ = false

abbrev pub is_admitted : State → Bool
is_admitted admitted = true
is_admitted _ = false

abbrev pub is_preallocated : State → Bool
is_preallocated run_preallocated = true
is_preallocated _ = false

abbrev pub is_transient : Option Classification → Bool
is_transient (some transient_retryable) = true
is_transient _ = false

abbrev pub is_blocked_manual : Option Classification → Bool
is_blocked_manual (some blocked_manual) = true
is_blocked_manual _ = false

abbrev pub retries_none : RetryClass → Bool
retries_none no_retry = true
retries_none _ = false

abbrev pub retries_transient : RetryClass → Bool
retries_transient transient = true
retries_transient _ = false

abbrev pub retries_operator : RetryClass → Bool
retries_operator operator = true
retries_operator _ = false

abbrev pub is_manual : Policy → Bool
is_manual manual = true
is_manual _ = false

abbrev pub is_detect : Policy → Bool
is_detect detect = true
is_detect _ = false

abbrev policy_index : Policy → ℕ
policy_index manual = 0
policy_index detect = 1
policy_index test = 2
policy_index build = 3
policy_index build_validate = 4
policy_index full = 5

abbrev pub same_policy : Policy → Policy → Bool
same_policy a b = policy_index a == policy_index b

abbrev pub stage_index : Stage → ℕ
stage_index detection = 0
stage_index run_admission = 1
stage_index run = 2
stage_index validation_admission = 3
stage_index validation = 4
stage_index publication = 5
stage_index stopped = 6

abbrev pub same_stage : Stage → Stage → Bool
same_stage a b = stage_index a == stage_index b
