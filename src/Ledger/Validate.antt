-- ===== src/Ledger/Validate.antt =====
-- debbuilder/automation_ledger.py: `_timestamp`, `_optional_text`, `_diagnostic` and
-- `_validate_generation`, in the order of the source. The tests on a value's Python type are the
-- types of the record, and a test of an enumerated string is its data type.
pub mod Table
mod Groups
pub mod Exact
use deb_builder.Base.{
  ℕ, Bool, true, false, not, ◌&&◌, ◌||◌, Text, Option, none, some, truthy, truthy?, is_some,
  is_none, length, all, any, ltb, ◌==◌, is_id_char, is_code_char, matches_class, ◌=t◌, Result, ok,
  err, ◌>>=◌, ◌>>◌, refuse,
}
use deb_builder.Ledger.Row.{
  Generation, Error, ledger_invalid, max_diagnostic, max_error_code, max_retry_count, is_final,
  is_ended, is_retry_delayed, is_blocked, is_terminal, is_admitted, is_preallocated, is_transient,
  is_blocked_manual, retries_none, retries_transient, retries_operator, is_manual, is_detect,
  same_stage, detection, run_admission, run, validation_admission, validation, publication, stopped,
}

-- `datetime.fromisoformat`: `none` is a ValueError, else whether the value carries a timezone.
abbrev pub Iso : Type 0
Iso = Text → Option Bool

invalid : Bool → Result Error (Unit {0})
invalid b = refuse b ledger_invalid

zoned : Option Bool → Result Error (Unit {0})
zoned (some true) = ok tt
zoned _ = err ledger_invalid

unfoldable pub timestamp : Iso → Text → Result Error Text
unfolding invalid zoned
timestamp iso t = do invalid (not (truthy t) || ltb 64 (length t)); zoned (iso t); ok t

optional_timestamp : Iso → Option Text → Result Error (Unit {0})
unfolding timestamp
optional_timestamp iso none = ok tt
optional_timestamp iso (some t) = do _ ← timestamp iso t; ok tt

-- the part of `_optional_text` under `value is not None`
abbrev pub is_bounded_text : ℕ → Text → Bool
is_bounded_text maximum t = truthy t && not (ltb maximum (length t)) && all (λ c. not (ltb c 32)) t

optional_text : ℕ → Option Text → Result Error (Unit {0})
unfolding invalid
optional_text maximum none = ok tt
optional_text maximum (some t) = invalid (not (is_bounded_text maximum t))

-- `if value and not re.fullmatch("[class]+", value)`
abbrev pub fails_class : (ℕ → Bool) → Option Text → Bool
fails_class p none = false
fails_class p (some t) = truthy t && not (matches_class p t)

-- [A-Za-z0-9_.:+-]
abbrev pub is_attempt_char : ℕ → Bool
is_attempt_char c = is_id_char c || c == b':'

unfoldable pub check_header : ℕ → Generation → Result Error (Unit {0})
unfolding invalid
check_header expected g = do
  invalid (not (g.generation == expected))
  invalid (is_manual g.desired_policy)
  invalid (ltb max_retry_count g.retry_count)
  invalid (ltb max_retry_count g.run_retry_count)
  invalid (ltb max_retry_count g.validation_retry_count)
  invalid (ltb max_retry_count g.publication_retry_count)

unfoldable pub check_ids : Generation → Result Error (Unit {0})
unfolding invalid optional_text
check_ids g = do
  optional_text 128 g.run_id
  optional_text 128 g.preallocated_run_id
  optional_text 128 g.validation_attempt_id
  optional_text 128 g.publication_attempt_id
  invalid (fails_class is_id_char g.run_id)
  invalid (fails_class is_id_char g.preallocated_run_id)

-- `run_id != preallocated`, where both may be null
abbrev pub same_text? : Option Text → Option Text → Bool
same_text? none none = true
same_text? (some s) (some t) = s =t t
same_text? _ _ = false

unfoldable pub check_links : Generation → Result Error (Unit {0})
unfolding invalid
check_links g = do
  invalid (truthy? g.run_id && not (same_text? g.run_id g.preallocated_run_id))
  invalid ((is_preallocated g.state || is_admitted g.state) && not (truthy? g.preallocated_run_id))
  invalid (
      is_detect g.desired_policy
      && (truthy? g.preallocated_run_id
          || truthy? g.run_id
          || is_preallocated g.state
          || is_admitted g.state))
  invalid (is_admitted g.state && not (truthy? g.run_id))

unfoldable pub check_lifecycle : Generation → Result Error (Unit {0})
unfolding invalid
check_lifecycle g = do
  invalid (is_ended g.state && is_none g.terminal_classification)
  invalid (is_retry_delayed g.state && not (is_transient g.terminal_classification))
  invalid (is_blocked g.state && not (is_blocked_manual g.terminal_classification))
  invalid (is_blocked g.state && not (retries_operator g.retry_class))
  invalid (
      is_terminal g.state
      && (is_transient g.terminal_classification || is_blocked_manual g.terminal_classification))
  invalid (is_terminal g.state && not (retries_none g.retry_class))
  invalid (not (is_ended g.state) && is_some g.terminal_classification)
  invalid (not (is_ended g.state) && not (retries_none g.retry_class))
  invalid
      (is_retry_delayed g.state && (not (retries_transient g.retry_class) || is_none g.not_before))
  invalid (not (is_retry_delayed g.state) && is_some g.not_before)

unfoldable pub check_stage : Generation → Result Error (Unit {0})
unfolding invalid
check_stage g = do
  invalid (is_final g.state && not (same_stage g.stage stopped))
  invalid (not (is_final g.state) && same_stage g.stage stopped)
  invalid (fails_class is_attempt_char g.validation_attempt_id)
  invalid (fails_class is_attempt_char g.publication_attempt_id)
  invalid (truthy? g.publication_attempt_id && not (truthy? g.validation_attempt_id))

unfoldable pub check_stage_links : Generation → Result Error (Unit {0})
unfolding invalid
check_stage_links g =
    let pre = truthy? g.preallocated_run_id in
    let linked = truthy? g.run_id in
    let validated = truthy? g.validation_attempt_id in
    let published = truthy? g.publication_attempt_id in
    do
      invalid (same_stage g.stage detection && (pre || linked || validated || published))
      invalid (same_stage g.stage run_admission && (not pre || linked || validated || published))
      invalid (same_stage g.stage run && (not linked || validated || published))
      invalid (same_stage g.stage validation_admission && (not linked || published))
      invalid (same_stage g.stage validation && (not linked || not validated || published))
      invalid (same_stage g.stage publication && (not linked || not validated))

unfoldable pub check_notice : Generation → Result Error (Unit {0})
unfolding invalid optional_text
check_notice g = do
  invalid (g.completion_notified && not (is_final g.state))
  optional_text max_error_code g.last_error_code
  invalid (fails_class is_code_char g.last_error_code)

-- the timestamps and `_diagnostic`, read while the result is built
unfoldable pub check_result : Iso → Generation → Result Error (Unit {0})
unfolding invalid optional_text timestamp optional_timestamp
check_result iso g = do
  _ ← timestamp iso g.detected_at
  _ ← timestamp iso g.created_at
  _ ← timestamp iso g.updated_at
  optional_timestamp iso g.not_before
  optional_text max_diagnostic g.diagnostic
  invalid (fails_class is_code_char g.diagnostic)

unfoldable pub validate_generation : Iso → ℕ → Generation → Result Error Generation
validate_generation iso expected g = do
  check_header expected g
  check_ids g
  check_links g
  check_lifecycle g
  check_stage g
  check_stage_links g
  check_notice g
  check_result iso g
  ok g
