-- ===== src/Runs/Texts.antt =====
-- debbuilder/build_models.py: the enumerated strings of a Run's admission metadata and how they are read.
use deb_builder.Base.{
  ℕ, Bool, not, ◌&&◌, ◌||◌, Text, List, [], ◌∷◌, codes, Option, none, some, truthy, length, all,
  any, ltb, ◌=t◌, if◌then◌else◌, Result, ok, err, ◌>>◌, refuse,
}
use deb_builder.Base.Json.{Value, null, text, Fields, keys}
use deb_builder.Identity
use deb_builder.Ledger.Row.{Policy, manual, detect, test, build, build_validate, full}

-- ValueError, and the errors of `automation_identity` that pass through
pub data Error : Type 0 where
  value_error : Error
  identity_refused : Identity.Model.Error → Error

abbrev pub invalid : Bool → Result Error (Unit {0})
invalid b = refuse b value_error

-- RUN_ORIGINS, RUN_TRIGGERS and RUN_REASONS
pub data Kind : Type 0 where
  manual_run automation automation_check_now : Kind

pub data Trigger : Type 0 where
  by_hand upstream_change operator_check_now : Trigger

pub data Reason : Type 0 where
  new_release release_asset_changed ref_advanced recipe_revision_changed check_now : Reason

abbrev pub kind_name : Kind → Text
kind_name manual_run = codes "manual"
kind_name automation = codes "automation"
kind_name automation_check_now = codes "automation_check_now"

abbrev pub trigger_name : Trigger → Text
trigger_name by_hand = codes "manual"
trigger_name upstream_change = codes "upstream_change"
trigger_name operator_check_now = codes "operator_check_now"

abbrev pub reason_name : Reason → Text
reason_name new_release = codes "new_release"
reason_name release_asset_changed = codes "release_asset_changed"
reason_name ref_advanced = codes "ref_advanced"
reason_name recipe_revision_changed = codes "recipe_revision_changed"
reason_name check_now = codes "operator_check_now"

-- AUTOMATION_POLICIES
abbrev pub policy_name : Policy → Text
policy_name manual = codes "manual"
policy_name detect = codes "detect"
policy_name test = codes "test"
policy_name build = codes "build"
policy_name build_validate = codes "build_validate"
policy_name full = codes "full"

-- `value in names`: the one that has this name
unfoldable pub named : {A : Type 0} → (A → Text) → List A → Text → Result Error A
named name [] t = err value_error
named name (a ∷ rest) t = if t =t name a then ok a else named name rest t

abbrev pub kinds : List Kind
kinds = manual_run ∷ automation ∷ automation_check_now ∷ []

abbrev pub triggers : List Trigger
triggers = by_hand ∷ upstream_change ∷ operator_check_now ∷ []

abbrev pub reasons : List Reason
reasons =
    new_release ∷ release_asset_changed ∷ ref_advanced ∷ recipe_revision_changed ∷ check_now ∷ []

abbrev pub policies : List Policy
policies = manual ∷ detect ∷ test ∷ build ∷ build_validate ∷ full ∷ []

-- `_bounded_optional_text`
unfoldable pub bounded_optional_text : ℕ → Option Value → Result Error (Option Text)
bounded_optional_text maximum none = ok none
bounded_optional_text maximum (some null) = ok none
bounded_optional_text maximum (some (text t)) = do
  invalid (not (truthy t) || ltb maximum (length t) || any (λ c. ltb c 32) t)
  ok (some t)
bounded_optional_text maximum (some _) = err value_error

abbrev pub text_of : Option Value → Result Error Text
text_of (some (text t)) = ok t
text_of _ = err value_error

-- `set(value) == names`
abbrev pub has_keys : List Text → Fields → Bool
has_keys names fields =
    all (λ k. any (λ n. k =t n) names) (keys fields)
    && all (λ n. any (λ k. k =t n) (keys fields)) names
