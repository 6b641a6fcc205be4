-- ===== src/Resources/Contract.antt =====
-- debbuilder/resource_limits.py: `admission_contract`, `default_contract` and `validate_contract`.
use deb_builder.Base.{
  ℕ, Bool, true, false, not, ◌&&◌, ◌||◌, Text, List, [], ◌∷◌, codes, Option, none, some, all, any,
  ltb, ◌==◌, ◌=t◌, Result, ok, err, ◌>>=◌, ◌>>◌, refuse, length, map,
}
use deb_builder.Base.Json.{
  Value, null, bool, int, text, array, object, Items, nil, item, Fields, get, keys, dict,
}
use deb_builder.Resources.Policy.{
  Error, invalid_resource_contract, Policy, Origin, unset, recipe, global, global_and_recipe,
  Origins, memory_max_bytes, tasks_max, cpu_quota_percent, io_read_bandwidth_max_bytes_per_sec,
  io_write_bandwidth_max_bytes_per_sec, limits, limit, limit_name, origin, policy_value,
  empty_policy, normalize_policy, resolve_limits, requested_controls, enforcement_required,
}

abbrev pub origin_name : Origin → Text
origin_name unset = codes "unset"
origin_name recipe = codes "recipe"
origin_name global = codes "global"
origin_name global_and_recipe = codes "global_and_recipe"

abbrev pub origins_value : Origins → Value
origins_value o = object (
    dict (
      (limit_name memory_max_bytes, text (origin_name o.memory_origin))
      ∷ (limit_name tasks_max, text (origin_name o.tasks_origin))
      ∷ (limit_name cpu_quota_percent, text (origin_name o.cpu_origin))
      ∷ (limit_name io_read_bandwidth_max_bytes_per_sec, text (origin_name o.io_read_origin))
      ∷ (limit_name io_write_bandwidth_max_bytes_per_sec, text (origin_name o.io_write_origin))
      ∷ []))

-- `value == n` for a decoded value, where True is 1 and False is 0
unfoldable pub eq_int : ℕ → Option Value → Bool
eq_int n (some (int m)) = m == n
eq_int n (some (bool true)) = n == 1
eq_int n (some (bool false)) = n == 0
eq_int n _ = false

unfoldable pub eq_limit : Option ℕ → Option Value → Bool
unfolding eq_int
eq_limit none (some null) = true
eq_limit none _ = false
eq_limit (some n) v = eq_int n v

unfoldable pub eq_text : Text → Option Value → Bool
eq_text t (some (text s)) = s =t t
eq_text t _ = false

unfoldable pub eq_texts : List Text → Items → Bool
eq_texts [] nil = true
eq_texts [] (item v rest) = false
eq_texts (t ∷ ts) nil = false
eq_texts (t ∷ ts) (item (text s) rest) = s =t t && eq_texts ts rest
eq_texts (t ∷ ts) (item _ rest) = false

-- `set(value) == names`
abbrev pub has_keys : List Text → Fields → Bool
has_keys names fields =
    all (λ k. any (λ n. k =t n) names) (keys fields)
    && all (λ n. any (λ k. k =t n) (keys fields)) names

abbrev pub contract_fields : List Text
contract_fields =
    codes "policy_schema_version"
    ∷ codes "scope"
    ∷ codes "global"
    ∷ codes "recipe"
    ∷ codes "effective"
    ∷ codes "origins"
    ∷ codes "enforcement_required"
    ∷ codes "admission_capability"
    ∷ []

abbrev pub capability_fields : List Text
capability_fields =
    codes "backend" ∷ codes "available" ∷ codes "requested_controls" ∷ codes "reason" ∷ []

-- `value.get("effective") == effective`
unfoldable pub eq_policy : Policy → Option Value → Bool
eq_policy p (some (object fields)) =
    has_keys (map limit_name limits) fields
    && all (λ f. eq_limit (limit p f) (get (limit_name f) fields)) limits
eq_policy p _ = false

-- `value.get("origins") == origins`
unfoldable pub eq_origins : Origins → Option Value → Bool
eq_origins o (some (object fields)) =
    has_keys (map limit_name limits) fields
    && all (λ f. eq_text (origin_name (origin o f)) (get (limit_name f) fields)) limits
eq_origins o _ = false

-- `value.get("enforcement_required") is b`
unfoldable pub is_bool : Bool → Option Value → Bool
is_bool true (some (bool b)) = b
is_bool false (some (bool b)) = not b
is_bool b _ = false

-- `normalize_policy(value.get(field))` after the test that it is a dictionary
unfoldable pub read_policy : Option Value → Result Error Policy
read_policy (some (object fields)) = normalize_policy (object fields)
read_policy _ = err invalid_resource_contract

unfoldable pub is_object : Option Value → Bool
is_object (some (object fields)) = true
is_object _ = false

is_backend : Option Value → Bool
is_backend v =
    eq_text (codes "systemd_cgroup") v
    || eq_text (codes "process_group") v
    || eq_text (codes "not_evaluated") v

is_some_bool : Option Value → Bool
is_some_bool (some (bool b)) = true
is_some_bool _ = false

is_reason : Option Value → Bool
is_reason (some (text t)) = not (ltb 500 (length t))
is_reason _ = false

-- `capability.get("requested_controls") == requested_controls(effective)`
unfoldable pub names_controls : Policy → Option Value → Bool
names_controls p (some (array items)) = eq_texts (requested_controls p) items
names_controls p _ = false

-- The shape of an admission capability.
unfoldable pub is_capability : Fields → Bool
unfolding is_backend is_some_bool is_reason
is_capability c =
    has_keys capability_fields c
    && is_backend (get (codes "backend") c)
    && is_some_bool (get (codes "available") c)
    && is_reason (get (codes "reason") c)

-- The capability against the effective policy.
unfoldable pub check_enforced : Policy → Fields → Result Error (Unit {0})
check_enforced effective c = do
  let required = enforcement_required effective
  refuse (required && not (is_bool true (get (codes "available") c))) invalid_resource_contract
  refuse (required && not (eq_text (codes "systemd_cgroup") (get (codes "backend") c)))
      invalid_resource_contract
  refuse (not (names_controls effective (get (codes "requested_controls") c)))
      invalid_resource_contract

unfoldable pub check_capability : Policy → Option Value → Result Error (Unit {0})
check_capability effective (some (object c)) = do
  refuse (not (is_capability c)) invalid_resource_contract
  check_enforced effective c
check_capability effective _ = err invalid_resource_contract

unfoldable pub check_contract_shape : Fields → Result Error (Unit {0})
check_contract_shape v = do
  refuse (not (has_keys contract_fields v)) invalid_resource_contract
  refuse (not (eq_int 1 (get (codes "policy_schema_version") v))) invalid_resource_contract
  refuse (not (eq_text (codes "each_command_cgroup") (get (codes "scope") v)))
      invalid_resource_contract
  refuse
      (not (
        is_object (get (codes "global") v)
        && is_object (get (codes "recipe") v)
        && is_object (get (codes "effective") v)))
      invalid_resource_contract

unfoldable pub check_contract : Fields → Result Error (Unit {0})
check_contract v = do
  check_contract_shape v
  g ← read_policy (get (codes "global") v)
  r ← read_policy (get (codes "recipe") v)
  let resolved = resolve_limits g r
  refuse (not (eq_policy resolved.0 (get (codes "effective") v))) invalid_resource_contract
  refuse (not (eq_origins resolved.1 (get (codes "origins") v))) invalid_resource_contract
  refuse (not (is_bool (enforcement_required resolved.0) (get (codes "enforcement_required") v)))
      invalid_resource_contract
  check_capability resolved.0 (get (codes "admission_capability") v)

unfoldable pub validate_contract : Value → Result Error Value
validate_contract (object v) = do check_contract v; ok (object v)
validate_contract _ = err invalid_resource_contract

-- The dictionary of `admission_contract` for policies that are normalized.
abbrev pub contract_value : Policy → Policy → Value → Fields
contract_value g r capability =
    let resolved = resolve_limits g r in
    dict (
      (codes "policy_schema_version", int 1)
      ∷ (codes "scope", text (codes "each_command_cgroup"))
      ∷ (codes "global", policy_value g)
      ∷ (codes "recipe", policy_value r)
      ∷ (codes "effective", policy_value resolved.0)
      ∷ (codes "origins", origins_value resolved.1)
      ∷ (codes "enforcement_required", bool (enforcement_required resolved.0))
      ∷ (codes "admission_capability", capability)
      ∷ [])

unfoldable pub admission_contract : Value → Value → Value → Result Error Value
admission_contract global_policy recipe_policy capability = do
  g ← normalize_policy global_policy
  r ← normalize_policy recipe_policy
  ok (object (contract_value g r capability))

unfoldable pub default_contract : Result Error Value
default_contract = admission_contract (policy_value empty_policy) (policy_value empty_policy) (
    object (
      dict (
        (codes "backend", text (codes "not_evaluated"))
        ∷ (codes "available", bool true)
        ∷ (codes "requested_controls", array nil)
        ∷ (codes "reason", text (codes "no finite resource control was requested"))
        ∷ [])))
