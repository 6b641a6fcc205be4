-- ===== src/Runs/Validation.antt =====
-- debbuilder/validation_automation.py: `normalize_validation_automation`.
use deb_builder.Base.{
  ℕ, Bool, true, false, not, ◌&&◌, ◌||◌, Text, List, [], ◌∷◌, codes, Option, none, some, all, any,
  ltb, ◌=t◌, if◌then◌else◌, Result, ok, err, ◌>>=◌, ◌>>◌,
}
use deb_builder.Base.Json.{Value, bool, int, text, object, Fields, get, keys, dict}
use deb_builder.Ledger.Row.{Policy, build_validate, full}
use deb_builder.Ledger.Document.{is_attempt_key}
use deb_builder.Runs.Texts.{Error, value_error, invalid, policy_name, named, text_of}

pub data PublicationState : Type 0 where
  not_requested pending complete cancelled : PublicationState

abbrev pub publication_name : PublicationState → Text
publication_name not_requested = codes "not_requested"
publication_name pending = codes "pending"
publication_name complete = codes "complete"
publication_name cancelled = codes "cancelled"

abbrev pub publication_states : List PublicationState
publication_states = not_requested ∷ pending ∷ complete ∷ cancelled ∷ []

pub record Coordination : Type 0 where
  pub attempt_key : Text
  pub generation : ℕ
  pub policy : Policy

pub record ValidationAutomation : Type 0 where
  pub automatic : Bool
  pub publish_after_success : Bool
  pub publication_state : PublicationState
  pub coordination : Option Coordination

abbrev pub required_keys : List Text
required_keys = codes "automatic" ∷ codes "publish_after_success" ∷ codes "publication_state" ∷ []

abbrev pub coordination_keys : List Text
coordination_keys = codes "attempt_key" ∷ codes "generation" ∷ codes "policy" ∷ []

abbrev pub has_key : Fields → Text → Bool
has_key v name = any (λ k. k =t name) (keys v)

abbrev pub is_allowed_key : Text → Bool
is_allowed_key k = any (λ n. k =t n) required_keys || any (λ n. k =t n) coordination_keys

unfoldable pub read_flag : Option Value → Result Error Bool
read_flag (some (bool b)) = ok b
read_flag _ = err value_error

abbrev pub is_not_requested : PublicationState → Bool
is_not_requested not_requested = true
is_not_requested _ = false

unfoldable pub read_state : Option Value → Result Error PublicationState
read_state v = do t ← text_of v; named publication_name publication_states t

-- The last tests, on the coordination fields.
unfoldable pub read_validation_policy : Bool → Option Value → Result Error Policy
read_validation_policy publish v = do
  t ← text_of v
  policy ← named policy_name (build_validate ∷ full ∷ []) t
  invalid (if publish then t =t policy_name build_validate else t =t policy_name full)
  ok policy

unfoldable pub read_key : Option Value → Result Error Text
read_key v = do t ← text_of v; invalid (not (is_attempt_key t)); ok t

unfoldable pub read_generation : Option Value → Result Error ℕ
read_generation (some (int n)) = do invalid (not (ltb n 8)); ok n
read_generation _ = err value_error

unfoldable pub read_coordination_fields : Bool → Bool → Fields → Result Error Coordination
unfolding read_key read_generation
read_coordination_fields automatic publish v = do
  invalid (not automatic)
  key ← read_key (get (codes "attempt_key") v)
  generation ← read_generation (get (codes "generation") v)
  policy ← read_validation_policy publish (get (codes "policy") v)
  ok (record { attempt_key = key; generation = generation; policy = policy })

unfoldable pub read_optional_coordination :
    Bool → Bool → Fields → Result Error (Option Coordination)
read_optional_coordination automatic publish v =
    let given = read_coordination_fields automatic publish v >>= λ c. ok (some c) in
    if any (has_key v) coordination_keys then given else ok none

-- The tests on the keys.
unfoldable pub check_keys : Fields → Result Error (Unit {0})
check_keys v = do
  invalid (not (all (has_key v) required_keys))
  invalid (not (all is_allowed_key (keys v)))
  invalid (any (has_key v) coordination_keys && not (all (has_key v) coordination_keys))

unfoldable pub check_publication : Bool → Bool → PublicationState → Result Error (Unit {0})
check_publication automatic publish state = do
  invalid (publish && not automatic)
  invalid ((not publish && not (is_not_requested state)) || (publish && is_not_requested state))

unfoldable pub read_fields : Fields → Result Error ValidationAutomation
read_fields v = do
  automatic ← read_flag (get (codes "automatic") v)
  publish ← read_flag (get (codes "publish_after_success") v)
  state ← read_state (get (codes "publication_state") v)
  check_publication automatic publish state
  coordination ← read_optional_coordination automatic publish v
  ok (record {
    automatic = automatic;
    publish_after_success = publish;
    publication_state = state;
    coordination = coordination;
  })

unfoldable pub normalize_validation_automation : Value → Result Error ValidationAutomation
normalize_validation_automation (object v) = do check_keys v; read_fields v
normalize_validation_automation _ = err value_error

-- The dictionary that is returned.
abbrev pub validation_fields : ValidationAutomation → List (Text × Value) → List (Text × Value)
validation_fields a rest =
    (codes "automatic", bool a.automatic)
    ∷ (codes "publish_after_success", bool a.publish_after_success)
    ∷ (codes "publication_state", text (publication_name a.publication_state))
    ∷ rest

abbrev pub coordination_fields : Option Coordination → List (Text × Value)
coordination_fields none = []
coordination_fields (some c) =
    (codes "attempt_key", text c.attempt_key)
    ∷ (codes "generation", int c.generation)
    ∷ (codes "policy", text (policy_name c.policy))
    ∷ []

abbrev pub validation_value : ValidationAutomation → Value
validation_value a = object (dict (validation_fields a (coordination_fields a.coordination)))
