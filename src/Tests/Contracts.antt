-- ===== src/Tests/Contracts.antt =====
-- The properties of resource policies and of a Run's admission metadata, at small documents.
use deb_builder.Base.{
  ap, ◌∙◌, ◌>>◌, ℕ, ◌≤◌, ◌*◌, ◌≡◌, ◌≢◌, ◌↔◌, ◌⊎◌, refl, inl, inr, Bool, true, false, Text, List, [],
  ◌∷◌, codes, Option, none, some, arith, Result, ok, err, ◌=t◌,
}
use deb_builder.Base
use deb_builder.Base.Json.{null, bool, text, array, object, Fields, dict, item, nil, get}
use deb_builder.Resources.Policy.{
  Policy, Limit, limit, normalize_policy, read_limits, read_limit, policy_value, resolve_limits,
  resolve_limit, resolve_policy, requested_controls, enforcement_required, origin, controls_of,
  empty_policy,
}
use deb_builder.Resources.Bounds.{IsPolicy, normalize_policy-IsPolicy}
use deb_builder.Resources.Meet.{Allows, Explains, resolve_policy_lem}
use deb_builder.Resources.Contract.{
  admission_contract, validate_contract, contract_value, check_capability, is_capability,
  check_enforced, eq_text, eq_texts, is_bool, names_controls, eq_policy, read_policy,
}
use deb_builder.Resources.Admission.{validate-admission, validate_contract-enforced}
use deb_builder.Runs.Texts.{manual_run, by_hand, named, bounded_optional_text}
use deb_builder.Runs.Origin
use deb_builder.Runs.Validation.{
  ValidationAutomation, normalize_validation_automation, validation_value, pending,
}
use deb_builder.Runs.Published.{
  IsValidation, IsPublication, IsCoordination, IsPolicyFor,
  normalize_validation_automation-validation_value,
}
use deb_builder.Ledger.Row.{full}
use deb_builder.Ledger.Document.{is_attempt_key}
use deb_builder.Tests.Data.{plain, tool_key}

abbrev half : Policy
half = record empty_policy { memory = some 4096; cpu = some 50 }

abbrev wide : Policy
wide = record empty_policy { memory = some 8192; tasks = some 100 }

half_read : normalize_policy (policy_value half) ≡ ok half
unfolding normalize_policy read_limits read_limit get Base.◌=t◌
half_read = refl

wide_read : normalize_policy (policy_value wide) ≡ ok wide
unfolding normalize_policy read_limits read_limit get Base.◌=t◌
wide_read = refl

normalize_policy-IsPolicy_example : IsPolicy half
normalize_policy-IsPolicy_example = normalize_policy-IsPolicy (policy_value half) half_read

resolve_policy_lem_example :
    (resolve_policy (policy_value half) (policy_value wide) ≡ ok (resolve_limits half wide))
    × ((f : Limit)
        → ((n : ℕ)
            → Allows (limit (resolve_limits half wide).0 f) n
              ↔ Allows (limit half f) n × Allows (limit wide f) n)
          × Explains
              (origin (resolve_limits half wide).1 f)
              (limit (resolve_limits half wide).0 f)
              (limit half f)
              (limit wide f))
resolve_policy_lem_example =
    resolve_policy_lem (policy_value half) (policy_value wide) half_read wide_read

abbrev systemd : Fields
systemd = dict (
    (codes "backend", text (codes "systemd_cgroup"))
    ∷ (codes "available", bool true)
    ∷ (
      codes "requested_controls",
      array (
          item (text (codes "memory"))
            (item (text (codes "tasks")) (item (text (codes "cpu")) nil))),
    )
    ∷ (codes "reason", text [])
    ∷ [])

systemd_fits : check_capability (resolve_limits half wide).0 (some (object systemd)) ≡ ok tt
unfolding check_capability check_enforced is_capability eq_text eq_texts is_bool names_controls get
    requested_controls controls_of enforcement_required resolve_limits resolve_limit Base.◌=t◌
systemd_fits = refl

validate-admission_example :
    (admission_contract (policy_value half) (policy_value wide) (object systemd)
      ≡ ok (object (contract_value half wide (object systemd))))
    × (validate_contract (object (contract_value half wide (object systemd))) ≡ (
        check_capability (resolve_limits half wide).0 (some (object systemd))
        >> ok (object (contract_value half wide (object systemd)))))
validate-admission_example =
    validate-admission (policy_value half) (policy_value wide) systemd half_read wide_read

abbrev contract : Fields
contract = contract_value half wide (object systemd)

contract_accepted : validate_contract (object contract) ≡ ok (object contract)
contract_accepted =
    (validate-admission (policy_value half) (policy_value wide) systemd half_read wide_read).1
    ∙ ap (λ r. r >> ok (object contract)) systemd_fits

validate_contract-enforced_example :
    (g : Policy) × (r : Policy) × (c : Fields) × (read_policy (get (codes "global") contract)
      ≡ ok g)
    × (read_policy (get (codes "recipe") contract) ≡ ok r)
    × (eq_policy (resolve_limits g r).0 (get (codes "effective") contract) ≡ true)
    × (get (codes "admission_capability") contract ≡ some (object c))
    × (names_controls (resolve_limits g r).0 (get (codes "requested_controls") c) ≡ true)
    × (enforcement_required (resolve_limits g r).0 ≡ true
        → (eq_text (codes "systemd_cgroup") (get (codes "backend") c) ≡ true)
          × (is_bool true (get (codes "available") c) ≡ true))
validate_contract-enforced_example = validate_contract-enforced contract contract_accepted

abbrev started_by_hand : Origin.RunOrigin
started_by_hand = record { kind = manual_run; trigger = by_hand; reason = none }

manual_read : Origin.normalize_run_origin plain null null ≡ ok (started_by_hand, none)
unfolding Origin.normalize_run_origin Origin.read_origin Origin.read_trigger Origin.read_reason
    Origin.check_origin Origin.read_coordination named bounded_optional_text get Base.◌=t◌
manual_read = refl

abbrev published : ValidationAutomation
published = record {
  automatic = true;
  publish_after_success = true;
  publication_state = pending;
  coordination = some (record { attempt_key = tool_key; generation = 2; policy = full });
}

published-IsValidation : IsValidation published
unfolding IsValidation IsPublication IsCoordination IsPolicyFor is_attempt_key Base.starts_with
published-IsValidation =
    ((λ e. refl, (λ e f. ground arith, λ e. refl)), (refl, refl, omega arith, inl (refl, refl)))

normalize_validation_automation-validation_value_example :
    normalize_validation_automation (validation_value published) ≡ ok published
normalize_validation_automation-validation_value_example =
    normalize_validation_automation-validation_value published published-IsValidation
