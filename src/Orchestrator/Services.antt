-- ===== src/Orchestrator/Services.antt =====
-- debbuilder/automation_orchestrator.py: what the orchestrator asks of the stores and managers that
-- its constructor takes. Their state is a type `W` that the model leaves open: each call may change
-- it, and a call of the same function may answer differently the next time.
use deb_builder.Base.{
  ℕ, Bool, true, false, Text, List, codes, Option, none, some, any, truthy, Result, ◌=t◌,
  if◌then◌else◌,
}
use deb_builder.Identity
use deb_builder.Identity.Model.{Identity}
use deb_builder.Ledger.Row.{
  Error, Policy, ledger_invalid, ledger_bounds_exceeded, attempt_not_found, state_conflict,
  policy_ineligible, policy_mismatch, run_not_found, run_binding_invalid, run_mismatch,
  run_not_linked, stage_invalid, validation_mismatch, not_terminal, retry_stale, retry_not_terminal,
  recipe_stale, recipe_changed_during_detection, identity_refused,
}
use deb_builder.Ledger.Store.{Loaded}

-- An exception: of the ledger, a ValidationAdmissionError with its code, an OSError or ValueError, any
-- other one, with its `code` where it has one, or the end of Python's recursion depth.
pub data Raised : Type 0 where
  ledger_error : Error → Raised
  admission_error : Text → Raised
  value_error other_error : Option Text → Raised
  recursion_error : Raised

identity_code : Identity.Model.Error → Text
identity_code Identity.Model.invalid_identity = codes "invalid_upstream_identity"
identity_code Identity.Model.unsafe_field = codes "unsafe_upstream_identity_field"
identity_code Identity.Model.future_version = codes "future_upstream_identity_version"
identity_code Identity.Model.invalid_version = codes "invalid_upstream_identity_version"
identity_code Identity.Model.completeness_mismatch = codes "upstream_identity_completeness_mismatch"
identity_code Identity.Model.too_large = codes "upstream_identity_too_large"
identity_code Identity.Model.changed = codes "upstream_identity_changed"
identity_code Identity.Model.incomplete = codes "incomplete_upstream_identity"
identity_code Identity.Model.size_mismatch = codes "upstream_payload_size_mismatch"
identity_code Identity.Model.checksum_mismatch = codes "upstream_payload_checksum_mismatch"
identity_code Identity.Model.invalid_attempt_recipe = codes "invalid_attempt_recipe"
identity_code Identity.Model.invalid_attempt_sha = codes "invalid_attempt_recipe_sha256"

-- The `code` of an error that the ledger raises.
unfoldable pub ledger_code : Error → Text
unfolding identity_code
ledger_code ledger_invalid = codes "automation_ledger_invalid"
ledger_code ledger_bounds_exceeded = codes "automation_ledger_bounds_exceeded"
ledger_code attempt_not_found = codes "automation_attempt_not_found"
ledger_code state_conflict = codes "automation_state_conflict"
ledger_code policy_ineligible = codes "automation_policy_ineligible"
ledger_code policy_mismatch = codes "automation_policy_mismatch"
ledger_code run_not_found = codes "automation_run_not_found"
ledger_code run_binding_invalid = codes "automation_run_binding_invalid"
ledger_code run_mismatch = codes "automation_run_mismatch"
ledger_code run_not_linked = codes "automation_run_not_linked"
ledger_code stage_invalid = codes "automation_stage_invalid"
ledger_code validation_mismatch = codes "automation_validation_mismatch"
ledger_code not_terminal = codes "automation_not_terminal"
ledger_code retry_stale = codes "automation_retry_stale"
ledger_code retry_not_terminal = codes "automation_retry_not_terminal"
ledger_code recipe_stale = codes "automation_recipe_stale"
ledger_code recipe_changed_during_detection = codes "recipe_changed_during_detection"
ledger_code (identity_refused e) = identity_code e

abbrev given : Text → Option Text → Text
given default none = default
given default (some code) = code

-- str(getattr(exc, "code", default))
unfoldable pub code_or : Text → Raised → Text
unfolding ledger_code
code_or default (ledger_error e) = ledger_code e
code_or default (admission_error code) = code
code_or default (value_error code) = given default code
code_or default (other_error code) = given default code
code_or default recursion_error = default

-- `except (OSError, ValueError)`; an error of the identity is a ValueError
abbrev pub is_value_error : Raised → Bool
is_value_error (value_error code) = true
is_value_error (ledger_error (identity_refused e)) = true
is_value_error _ = false

-- `except AutomationLedgerError`
abbrev pub is_ledger_error : Raised → Bool
is_ledger_error (ledger_error (identity_refused e)) = false
is_ledger_error (ledger_error e) = true
is_ledger_error _ = false

-- `value or default`, for a text
abbrev pub or_text : Text → Text → Text
or_text value default = if truthy value then value else default

-- `text in {…}`
abbrev pub is_among : Text → List Text → Bool
is_among t options = any (λ o. t =t o) options

-- The part of a Recipe that decides on its automation; a policy that is none of the six is `none`.
pub record Automation : Type 0 where
  pub enabled : Bool
  pub policy : Option Policy

pub record Recipe : Type 0 where
  pub active : Bool
  pub automation : Option Automation
  pub sha256 : Text

-- One attempt to publish, as it stands in a Run; a missing text is empty.
pub record Publication : Type 0 where
  pub id : Text
  pub status : Text
  pub error_code : Text

-- A Run document, as far as the orchestrator reads it; a missing text is empty.
pub record Run : Type 0 where
  pub id : Text
  pub recipe_id : Text
  pub mode : Text
  pub status : Text
  pub error_code : Text
  pub automation : Option (Text × ℕ × Identity)
  pub manual_source_provenance : Option Identity
  pub publications : List Publication
  pub inspected_package : Text
  pub inspected_version : Text
  pub package_name : Text
  pub debian_version : Text

-- A Validation attempt and the automation metadata beside it.
pub record Attempt : Type 0 where
  pub status : Text
  pub error_code : Text

pub record Claim : Type 0 where
  pub attempt_key : Text
  pub generation : ℕ
  pub policy : Policy

-- What `enqueue_run` is asked to create.
pub record Admission : Type 0 where
  pub recipe : Recipe
  pub run_id : Text
  pub dry_run : Bool
  pub reason : Text
  pub claim : Claim
  pub expected_upstream_identity : Identity

-- What `notify_completion` is told.
pub record Notice : Type 0 where
  pub run_id : Text
  pub status : Text
  pub claim : Claim
  pub code : Text

-- A call that may raise, and one that does not.
abbrev pub Asks : Type 0 → Type 0 → Type 0
Asks W A = W → Result Raised A × W

abbrev pub Reads : Type 0 → Type 0 → Type 0
Reads W A = W → A × W

-- The collaborators. Clock readings and timestamps are in microseconds.
pub record Services (W : Type 0) : Type 0 where
  pub utc_now : Reads W Text
  pub wall_clock : Reads W ℕ
  -- datetime.fromisoformat(text).timestamp(); `none` is a ValueError
  pub timestamp : Text → Option ℕ
  -- datetime.fromtimestamp(time, timezone.utc).isoformat()
  pub iso_text : ℕ → Text
  pub allocate_run_id : Reads W Text
  pub admission_open : Reads W Bool
  -- mutation_lease: entering may raise, and the lease is left on every path
  pub enter_lease : Asks W (Unit {0})
  pub leave_lease : W → W
  -- `_recipe`, and the snapshot of the Recipe in the folder of a Run
  pub load_recipe : Text → Reads W (Option Recipe)
  pub load_snapshot : Text → Reads W (Option Recipe)
  -- BuildStore
  pub load_run : Text → Asks W (Option Run)
  pub list_runs : Asks W (List Run)
  pub bound_run : Text → Reads W Loaded
  pub run_dir_exists : Text → Reads W Bool
  pub discard_incomplete_creation : Text → Asks W Bool
  -- validation_service; attempts are in the order of the inventory
  pub list_attempts : Text → Asks W (List Text)
  pub load_claim : Text → Text → Asks W (Option Claim)
  pub load_attempt : Text → Text → Asks W Attempt
  pub failure_phase : Text → Text → Asks W Text
  pub cancel_publication_intent : Text → Text → Asks W (Unit {0})
  pub complete_publication_intent : Text → Text → Asks W (Unit {0})
  -- whether there is a Validation manager, and its `admit` with `publish_after_success`
  pub has_validation_manager : Reads W Bool
  pub admit : Text → Bool → Claim → Asks W Text
  -- `publish(run_id, {"confirm": …})`, and whether an attempt proves the publication of a Run
  pub publish : Text → Text → Asks W Publication
  pub is_proof : Publication → Run → Bool
  pub notify_completion : Notice → Asks W (Unit {0})
  -- enqueue_run before and after its call of `created_callback`
  pub create : Admission → Asks W Text
  pub submit : Text → Asks W (Unit {0})
