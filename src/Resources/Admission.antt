-- ===== src/Resources/Admission.antt =====
-- debbuilder/resource_limits.py: the contracts that `validate_contract` accepts.
use deb_builder.Base.{
  ℕ, Bool, true, false, not, codes, ◌=t◌, =t_refl, Option, none, some, Result, ok, ◌>>◌, refuse,
  >>=-eq-ok, ◌≡◌, refl, arith,
}
use deb_builder.Base.Json.{Value, bool, int, text, object, Fields, get}
use deb_builder.Resources.Policy.{
  Error, Policy, limit_value, policy_value, Origin, Origins, resolve_limits, normalize_policy,
  enforcement_required,
}
use deb_builder.Resources.Bounds.{normalize_policy-IsPolicy, normalize_policy-policy_value}
use deb_builder.Resources.Contract.{
  eq_int, eq_limit, eq_text, eq_policy, eq_origins, origin_name, origins_value, is_bool,
  read_policy, is_object, names_controls, is_capability, check_enforced, check_capability,
  check_contract, check_contract_shape, validate_contract, contract_value, admission_contract,
}

eq_int_refl : (n : ℕ) → eq_int n (some (int n)) ≡ true
unfolding eq_int
eq_int_refl n = ground arith

eq_limit_refl : (r : Option ℕ) → eq_limit r (some (limit_value r)) ≡ true
unfolding eq_limit
eq_limit_refl none = refl
eq_limit_refl (some n) = eq_int_refl n

eq_origin_refl : (o : Origin) → eq_text (origin_name o) (some (text (origin_name o))) ≡ true
unfolding eq_text
eq_origin_refl o = =t_refl (origin_name o)

eq_policy_refl : (p : Policy) → eq_policy p (some (policy_value p)) ≡ true
unfolding eq_policy get ◌=t◌
eq_policy_refl p = rw (
  eq_limit_refl p.memory,
  eq_limit_refl p.tasks,
  eq_limit_refl p.cpu,
  eq_limit_refl p.io_read,
  eq_limit_refl p.io_write,
)

eq_origins_refl : (o : Origins) → eq_origins o (some (origins_value o)) ≡ true
unfolding eq_origins get ◌=t◌
eq_origins_refl o = rw (
  eq_origin_refl o.memory_origin,
  eq_origin_refl o.tasks_origin,
  eq_origin_refl o.cpu_origin,
  eq_origin_refl o.io_read_origin,
  eq_origin_refl o.io_write_origin,
)

is_bool_refl : (b : Bool) → is_bool b (some (bool b)) ≡ true
unfolding is_bool
is_bool_refl true = refl
is_bool_refl false = refl

-- From two policies that are well-formed `admission_contract` makes a contract, and
-- `validate_contract` of that contract comes to the test of its capability alone: where the capability
-- passes the test for the effective policy the contract is returned unchanged, and elsewhere the
-- error is that of the test.
pub validate-admission :
    (v w : Value) (c : Fields) {g r : Policy}
    → normalize_policy v ≡ ok g
    → normalize_policy w ≡ ok r
    → (admission_contract v w (object c) ≡ ok (object (contract_value g r (object c))))
      × (validate_contract (object (contract_value g r (object c))) ≡ (
          check_capability (resolve_limits g r).0 (some (object c))
          >> ok (object (contract_value g r (object c)))))
unfolding admission_contract validate_contract check_contract check_contract_shape read_policy
    is_object get ◌=t◌ eq_text eq_int
validate-admission v w c {g} {r} hg hr = (
  rw (hg, hr),
  rw
      (
        normalize_policy-policy_value g (normalize_policy-IsPolicy v hg),
        normalize_policy-policy_value r (normalize_policy-IsPolicy w hr),
        eq_policy_refl (resolve_limits g r).0,
        eq_origins_refl (resolve_limits g r).1,
        is_bool_refl (enforcement_required (resolve_limits g r).0),
      )
      refl,
)

passed :
    (b : Bool) (e : Error) {A : Type 0} (k : Result Error A) {x : A}
    → (refuse b e >> k) ≡ ok x
    → (b ≡ false) × (k ≡ ok x)
passed true e k h = cc
passed false e k h = (refl, h)

check_capability-ok :
    (e : Policy) (v : Option Value) {x : Unit {0}}
    → check_capability e v ≡ ok x
    → (c : Fields) × (v ≡ some (object c))
      × (is_capability c ≡ true)
      × (names_controls e (get (codes "requested_controls") c) ≡ true)
      × (enforcement_required e ≡ true
          → (eq_text (codes "systemd_cgroup") (get (codes "backend") c) ≡ true)
            × (is_bool true (get (codes "available") c) ≡ true))
unfolding check_capability check_enforced
check_capability-ok e (some (object c)) h =
    let (shape, h1) = passed (not (is_capability c)) _ (check_enforced e c) h in
    (c, refl, ground arith, ground arith, λ limited. (ground arith, ground arith))
check_capability-ok e v h = cc

-- In a contract that `validate_contract` accepts the effective policy is the one that its global and
-- recipe's policies resolve to, the capability names exactly the controls of its limits, and if there
-- is any limit, then the capability is available and its backend is systemd_cgroup.
pub validate_contract-enforced :
    (v : Fields) {x : Value}
    → validate_contract (object v) ≡ ok x
    → (g : Policy) × (r : Policy) × (c : Fields) × (read_policy (get (codes "global") v) ≡ ok g)
      × (read_policy (get (codes "recipe") v) ≡ ok r)
      × (eq_policy (resolve_limits g r).0 (get (codes "effective") v) ≡ true)
      × (get (codes "admission_capability") v ≡ some (object c))
      × (names_controls (resolve_limits g r).0 (get (codes "requested_controls") c) ≡ true)
      × (enforcement_required (resolve_limits g r).0 ≡ true
          → (eq_text (codes "systemd_cgroup") (get (codes "backend") c) ≡ true)
            × (is_bool true (get (codes "available") c) ≡ true))
unfolding validate_contract check_contract
validate_contract-enforced v h =
    let (u, checked, _) = >>=-eq-ok (check_contract v) _ h in
    let (_, _, h4) = >>=-eq-ok (check_contract_shape v) _ checked in
    let (g, eg, h5) = >>=-eq-ok (read_policy (get (codes "global") v)) _ h4 in
    let (r, er, h6) = >>=-eq-ok (read_policy (get (codes "recipe") v)) _ h5 in
    let e = (resolve_limits g r).0 in
    let (same, h7) = passed (not (eq_policy e (get (codes "effective") v))) _ _ h6 in
    let (_, h8) =
      passed (not (eq_origins (resolve_limits g r).1 (get (codes "origins") v))) _ _ h7 in
    let (_, h9) =
      passed (not (is_bool (enforcement_required e) (get (codes "enforcement_required") v))) _ _
        h8 in
    let (c, ec, _, controls, enforced) =
      check_capability-ok (resolve_limits g r).0 (get (codes "admission_capability") v) h9 in
    (g, r, c, eg, er, ground arith, ec, controls, enforced)
