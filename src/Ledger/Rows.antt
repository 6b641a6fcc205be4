-- ===== src/Ledger/Rows.antt =====
-- debbuilder/automation_ledger.py: what each operation does to the generation that it finds. A row
-- that is `kept` is returned without a write; a row that is `changed` is written with the ledger.
pub mod Accepted
pub mod Lifecycle
pub mod Final
pub mod Exact
use deb_builder.Base.{
  ℕ, Bool, true, false, not, ◌&&◌, ◌||◌, Text, List, [], ◌∷◌, codes, Option, none, some, is_some,
  is_none, truthy?, Result, ok, err, ◌>>=◌, ◌>>◌, refuse, if◌then◌else◌, ◌=t◌,
}
use deb_builder.Ledger.Row.{
  Generation, State, Stage, Policy, Classification, RetryClass, Error, claimed, run_preallocated,
  admitted, terminal, retry_delayed, blocked, success, transient_retryable, blocked_manual,
  no_retry, detection, run_admission, run, validation_admission, validation, publication, stopped,
  is_final, is_claimed, is_detect, is_transient, state_conflict, policy_ineligible, run_mismatch,
  run_not_linked, stage_invalid, validation_mismatch, not_terminal, same_stage,
}

pub data Change : Type 0 where
  kept changed : Generation → Change

abbrev pub row_of : Change → Generation
row_of (kept g) = g
row_of (changed g) = g

-- `_generation(policy, detected_at, generation)`
unfoldable pub new_generation : Text → Policy → Text → ℕ → Generation
new_generation now policy detected_at generation = record {
  generation = generation;
  state = claimed;
  desired_policy = policy;
  detected_at = detected_at;
  created_at = now;
  updated_at = now;
  preallocated_run_id = none;
  run_id = none;
  terminal_classification = none;
  retry_class = no_retry;
  retry_count = 0;
  not_before = none;
  last_error_code = none;
  diagnostic = none;
  stage = detection;
  validation_attempt_id = none;
  publication_attempt_id = none;
  completion_notified = false;
  run_retry_count = 0;
  validation_retry_count = 0;
  publication_retry_count = 0;
}

-- The update of a first generation that is a baseline or handled by detection alone.
unfoldable pub settle : Text → Bool → Generation → Generation
settle now baseline g = record g {
  state = terminal;
  terminal_classification = some success;
  diagnostic = some (if baseline then codes "initial_baseline" else codes "detect_only_handled");
  updated_at = now;
  stage = stopped;
}

-- preallocate_run
unfoldable pub preallocate_row : Text → Text → Generation → Result Error Change
preallocate_row now candidate g = if truthy? g.preallocated_run_id then ok (kept g) else do
  refuse (not (is_claimed g.state)) state_conflict
  refuse (is_detect g.desired_policy) policy_ineligible
  ok (
      changed (record g {
        preallocated_run_id = some candidate;
        state = run_preallocated;
        stage = run_admission;
        updated_at = now;
      }))

-- The update that `link_run` and `advance_lifecycle` share: active again, with no outcome.
unfoldable pub activate : Text → Stage → Generation → Generation
activate now stage g = record g {
  state = admitted;
  stage = stage;
  terminal_classification = none;
  retry_class = no_retry;
  not_before = none;
  last_error_code = none;
  diagnostic = none;
  updated_at = now;
}

-- `value != text`, where the value may be null
abbrev pub is_text : Text → Option Text → Bool
is_text t none = false
is_text t (some s) = s =t t

-- The row that `link_run` writes.
unfoldable pub linked : Text → Text → Generation → Generation
unfolding activate
linked now id g = activate now run (record g { run_id = some id })

-- link_run; `bound` is the result of `_verify_run_binding` on the stored Run
unfoldable pub link_row : Text → Text → Result Error (Unit {0}) → Generation → Result Error Change
link_row now id bound g =
    if truthy? g.run_id
    then (do refuse (not (is_text id g.run_id)) run_mismatch; ok (kept g))
    else do
      refuse (not (truthy? g.preallocated_run_id) || not (is_text id g.preallocated_run_id))
          run_mismatch
      bound
      ok (changed (linked now id g))

abbrev pub finished_state : Classification → State
finished_state transient_retryable = retry_delayed
finished_state blocked_manual = blocked
finished_state _ = terminal

-- The arguments of `finish` after the classification.
pub record Outcome : Type 0 where
  pub retry_class : RetryClass
  pub retry_count : ℕ
  pub not_before : Option Text
  pub last_error_code : Option Text
  pub diagnostic : Option Text

-- The stage's retry counter, which only a transient failure writes.
unfoldable pub count_retry : Stage → ℕ → Generation → Generation
count_retry run_admission n g = record g { run_retry_count = n }
count_retry validation_admission n g = record g { validation_retry_count = n }
count_retry validation n g = record g { validation_retry_count = n }
count_retry publication n g = record g { publication_retry_count = n }
count_retry _ n g = g

-- finish
unfoldable pub finish_row : Text → Classification → Outcome → Generation → Generation
unfolding count_retry
finish_row now c o g =
    let state = finished_state c in
    let row : Generation = record g {
      state = state;
      stage = if is_final state then stopped else g.stage;
      terminal_classification = some c;
      retry_class = o.retry_class;
      retry_count = o.retry_count;
      not_before = o.not_before;
      last_error_code = o.last_error_code;
      diagnostic = o.diagnostic;
      updated_at = now;
    } in
    if is_transient (some c) then count_retry g.stage o.retry_count row else row

-- `x if x is not None else current`
abbrev pub given_or : Option Text → Option Text → Option Text
given_or none current = current
given_or (some x) current = some x

-- `current and current != validation_attempt_id and stage not in {…}`
abbrev pub relinks : Option Text → Option Text → Stage → Bool
relinks none current stage = false
relinks (some x) current stage =
    truthy? current
    && not (is_text x current)
    && not (same_stage stage validation_admission || same_stage stage validation)

-- The row that `advance_lifecycle` writes.
unfoldable pub advanced : Text → Stage → Option Text → Option Text → Generation → Generation
unfolding activate
advanced now stage validation_id publication_id g = activate now stage (record g {
  validation_attempt_id = given_or validation_id g.validation_attempt_id;
  publication_attempt_id = given_or publication_id g.publication_attempt_id;
})

-- `stage not in STAGES or stage in {"detection", "terminal"}`
unfoldable pub check_active_stage : Stage → Result Error (Unit {0})
check_active_stage stage =
    refuse (same_stage stage detection || same_stage stage stopped) stage_invalid

-- advance_lifecycle, after its test of the stage
unfoldable pub advance_row :
    Text → Stage → Option Text → Option Text → Generation → Result Error Change
advance_row now stage validation_id publication_id g = if is_final g.state then ok (kept g) else do
  refuse (not (truthy? g.run_id)) run_not_linked
  refuse (relinks validation_id g.validation_attempt_id stage) validation_mismatch
  ok (changed (advanced now stage validation_id publication_id g))

-- mark_completion_notified
unfoldable pub notify_row : Text → Generation → Result Error Change
notify_row now g = do
  refuse (not (is_final g.state)) not_terminal
  let told = record g { completion_notified = true; updated_at = now }
  if g.completion_notified then ok (kept g) else ok (changed told)

-- The part of `may_create_run` that reads the row; `exists` is whether the Run's folder exists.
unfoldable pub row_may_create_run : (Text → Bool) → Generation → Bool
row_may_create_run exists g = not (is_detect g.desired_policy) && elim g.state [
  | claimed ↦ is_none g.run_id
  | run_preallocated ↦
      is_none g.run_id && not (elim g.preallocated_run_id [ none ↦ false | some id ↦ exists id ])
  | _ ↦ false
]
