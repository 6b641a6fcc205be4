-- ===== src/Resources/Policy.antt =====
-- debbuilder/resource_limits.py: the limits of a policy, how they are read and how the global and the
-- recipe's are combined.
use deb_builder.Base.{
  ℕ, ◌-◌, ◌*◌, ◌/◌, ◌^◌, min, Bool, true, false, not, Text, List, [], ◌∷◌, codes, Option, none,
  some, all, any, ltb, ◌==◌, ◌=t◌, if◌then◌else◌, Result, ok, err, ◌>>=◌, ◌>>◌, refuse,
}
use deb_builder.Base.Json.{Value, null, int, object, Fields, end, get, keys, dict}

pub data Error : Type 0 where
  invalid_resource_limits unknown_resource_limit invalid_resource_limit : Error
  resource_limit_out_of_range resource_limits_unavailable invalid_resource_contract : Error
  -- a failed `assert`
  assertion_error : Error

-- FIELDS
pub data Limit : Type 0 where
  memory_max_bytes tasks_max cpu_quota_percent : Limit
  io_read_bandwidth_max_bytes_per_sec io_write_bandwidth_max_bytes_per_sec : Limit

abbrev pub limits : List Limit
limits =
    memory_max_bytes ∷ tasks_max ∷ cpu_quota_percent ∷ io_read_bandwidth_max_bytes_per_sec
    ∷ io_write_bandwidth_max_bytes_per_sec ∷ []

abbrev pub limit_name : Limit → Text
limit_name memory_max_bytes = codes "memory_max_bytes"
limit_name tasks_max = codes "tasks_max"
limit_name cpu_quota_percent = codes "cpu_quota_percent"
limit_name io_read_bandwidth_max_bytes_per_sec = codes "io_read_bandwidth_max_bytes_per_sec"
limit_name io_write_bandwidth_max_bytes_per_sec = codes "io_write_bandwidth_max_bytes_per_sec"

-- CONTROL_FOR_FIELD
abbrev pub control_for_field : Limit → Text
control_for_field memory_max_bytes = codes "memory"
control_for_field tasks_max = codes "tasks"
control_for_field cpu_quota_percent = codes "cpu"
control_for_field io_read_bandwidth_max_bytes_per_sec = codes "io_read"
control_for_field io_write_bandwidth_max_bytes_per_sec = codes "io_write"

abbrev pub js_safe_integer : ℕ
js_safe_integer = 2 ^ 53 - 1

abbrev pub dbus_uint64_max : ℕ
dbus_uint64_max = 2 ^ 64 - 1

-- MAXIMUMS
abbrev pub maximum : Limit → ℕ
maximum cpu_quota_percent = min js_safe_integer (dbus_uint64_max / 10000)
maximum _ = js_safe_integer

-- A normalized policy: None is no limit.
pub record Policy : Type 0 where
  pub memory : Option ℕ
  pub tasks : Option ℕ
  pub cpu : Option ℕ
  pub io_read : Option ℕ
  pub io_write : Option ℕ

abbrev pub limit : Policy → Limit → Option ℕ
limit p memory_max_bytes = p.memory
limit p tasks_max = p.tasks
limit p cpu_quota_percent = p.cpu
limit p io_read_bandwidth_max_bytes_per_sec = p.io_read
limit p io_write_bandwidth_max_bytes_per_sec = p.io_write

abbrev pub empty_policy : Policy
empty_policy = record { memory = none; tasks = none; cpu = none; io_read = none; io_write = none }

abbrev pub is_limit_name : Text → Bool
is_limit_name k = any (λ f. k =t limit_name f) limits

-- The loop's body for one field.
unfoldable pub read_limit : Limit → Option Value → Result Error (Option ℕ)
read_limit f none = ok none
read_limit f (some null) = ok none
read_limit f (some (int n)) =
    if n == 0
    then err invalid_resource_limit
    else if ltb (maximum f) n
    then err resource_limit_out_of_range
    else ok (some n)
read_limit f (some _) = err invalid_resource_limit

unfoldable pub read_limits : Fields → Result Error Policy
read_limits fields = do
  refuse (not (all is_limit_name (keys fields))) unknown_resource_limit
  memory ← read_limit memory_max_bytes (get (limit_name memory_max_bytes) fields)
  tasks ← read_limit tasks_max (get (limit_name tasks_max) fields)
  cpu ← read_limit cpu_quota_percent (get (limit_name cpu_quota_percent) fields)
  reads ←
      read_limit io_read_bandwidth_max_bytes_per_sec
        (get (limit_name io_read_bandwidth_max_bytes_per_sec) fields)
  writes ←
      read_limit io_write_bandwidth_max_bytes_per_sec
        (get (limit_name io_write_bandwidth_max_bytes_per_sec) fields)
  ok record { memory = memory; tasks = tasks; cpu = cpu; io_read = reads; io_write = writes }

-- `normalize_policy`
unfoldable pub normalize_policy : Value → Result Error Policy
normalize_policy null = read_limits end
normalize_policy (object fields) = read_limits fields
normalize_policy _ = err invalid_resource_limits

-- The dictionary that `normalize_policy` returns.
abbrev pub limit_value : Option ℕ → Value
limit_value none = null
limit_value (some n) = int n

abbrev pub policy_value : Policy → Value
policy_value p = object (
    dict (
      (limit_name memory_max_bytes, limit_value p.memory)
      ∷ (limit_name tasks_max, limit_value p.tasks)
      ∷ (limit_name cpu_quota_percent, limit_value p.cpu)
      ∷ (limit_name io_read_bandwidth_max_bytes_per_sec, limit_value p.io_read)
      ∷ (limit_name io_write_bandwidth_max_bytes_per_sec, limit_value p.io_write)
      ∷ []))

pub data Origin : Type 0 where
  unset recipe global global_and_recipe : Origin

pub record Origins : Type 0 where
  pub memory_origin : Origin
  pub tasks_origin : Origin
  pub cpu_origin : Origin
  pub io_read_origin : Origin
  pub io_write_origin : Origin

abbrev pub origin : Origins → Limit → Origin
origin o memory_max_bytes = o.memory_origin
origin o tasks_max = o.tasks_origin
origin o cpu_quota_percent = o.cpu_origin
origin o io_read_bandwidth_max_bytes_per_sec = o.io_read_origin
origin o io_write_bandwidth_max_bytes_per_sec = o.io_write_origin

-- The branches of the loop of `resolve_policy`: the effective limit and its origin.
unfoldable pub resolve_limit : Option ℕ → Option ℕ → Option ℕ × Origin
resolve_limit none none = (none, unset)
resolve_limit none (some r) = (some r, recipe)
resolve_limit (some g) none = (some g, global)
resolve_limit (some g) (some r) =
    if ltb g r
    then (some g, global)
    else if ltb r g
    then (some r, recipe)
    else (some g, global_and_recipe)

unfoldable pub resolve_limits : Policy → Policy → Policy × Origins
resolve_limits g r =
    let memory = resolve_limit g.memory r.memory in
    let tasks = resolve_limit g.tasks r.tasks in
    let cpu = resolve_limit g.cpu r.cpu in
    let reads = resolve_limit g.io_read r.io_read in
    let writes = resolve_limit g.io_write r.io_write in
    (
      record {
        memory = memory.0;
        tasks = tasks.0;
        cpu = cpu.0;
        io_read = reads.0;
        io_write = writes.0;
      },
      record {
        memory_origin = memory.1;
        tasks_origin = tasks.1;
        cpu_origin = cpu.1;
        io_read_origin = reads.1;
        io_write_origin = writes.1;
      },
    )

-- `resolve_policy`
unfoldable pub resolve_policy : Value → Value → Result Error (Policy × Origins)
resolve_policy global_policy recipe_policy = do
  g ← normalize_policy global_policy
  r ← normalize_policy recipe_policy
  ok (resolve_limits g r)

unfoldable pub controls_of : List Limit → Policy → List Text
controls_of [] p = []
controls_of (f ∷ rest) p = elim (limit p f) [
  | none ↦ controls_of rest p
  | some _ ↦ control_for_field f ∷ controls_of rest p
]

-- `requested_controls` of a policy that is normalized
unfoldable pub requested_controls : Policy → List Text
unfolding controls_of
requested_controls p = controls_of limits p

-- `bool(requested_controls(policy))`
unfoldable pub enforcement_required : Policy → Bool
enforcement_required p = elim (requested_controls p) [ [] ↦ false | _ ∷ _ ↦ true ]

-- `validate_host_enforceability`: the host's page size, None when it cannot be told
unfoldable pub validate_host_enforceability : Option ℕ → Value → Result Error Policy
validate_host_enforceability page_size policy = do
  canonical ← normalize_policy policy
  elim canonical.memory [
    | none ↦ ok canonical
    | some memory ↦ elim page_size [
      | none ↦ err resource_limits_unavailable
      | some size ↦ do
        refuse (size == 0) resource_limits_unavailable
        refuse (ltb memory size) resource_limits_unavailable
        ok canonical
    ]
  ]

unfoldable pub cpu_quota_usec : Value → Result Error ℕ
cpu_quota_usec percent = do
  canonical ← normalize_policy (object (dict ((limit_name cpu_quota_percent, percent) ∷ [])))
  elim canonical.cpu [
    | none ↦ err assertion_error
    | some value ↦
        if ltb dbus_uint64_max (value * 10000)
        then err resource_limit_out_of_range
        else ok (value * 10000)
  ]
