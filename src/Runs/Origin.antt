-- ===== src/Runs/Origin.antt =====
-- debbuilder/build_models.py: `normalize_run_origin`, `require_automation_mode` and
-- `_normalize_manual_source_provenance`.
use deb_builder.Base.{
  ℕ, Bool, true, false, not, Text, List, [], ◌∷◌, codes, Option, none, some, ltb, ◌=t◌, Result, ok,
  err, ◌>>=◌, ◌>>◌,
}
use deb_builder.Base.Json.{Value, null, int, text, object, get, dict}
use deb_builder.Platform.{Platform}
use deb_builder.Identity.Model.{Identity}
use deb_builder.Identity.Check.{is_complete}
use deb_builder.Identity.Normalize.{normalize}
use deb_builder.Identity
use deb_builder.Ledger.Row.{Policy, manual, detect, test}
use deb_builder.Ledger.Document.{is_attempt_key}
use deb_builder.Runs.Texts.{
  Error, value_error, identity_refused, invalid, Kind, manual_run, automation, automation_check_now,
  Trigger, by_hand, upstream_change, operator_check_now, Reason, check_now, kind_name, trigger_name,
  reason_name, policy_name, named, kinds, triggers, reasons, policies, bounded_optional_text,
  text_of, has_keys,
}

pub record RunOrigin : Type 0 where
  pub kind : Kind
  pub trigger : Trigger
  pub reason : Option Reason

pub record RunAutomation : Type 0 where
  pub attempt_key : Text
  pub generation : ℕ
  pub policy : Policy
  pub expected_upstream_identity : Identity

abbrev pub lift : {A : Type 0} → Result Identity.Model.Error A → Result Error A
lift (ok a) = ok a
lift (err e) = err (identity_refused e)

abbrev pub origin_keys : List Text
origin_keys = codes "kind" ∷ codes "trigger" ∷ codes "reason" ∷ []

abbrev pub automation_keys : List Text
automation_keys =
    codes "attempt_key"
    ∷ codes "generation"
    ∷ codes "policy"
    ∷ codes "expected_upstream_identity"
    ∷ []

-- The default of an origin that is None.
abbrev pub given_origin : Value → Value
given_origin null = object (
    dict (
      (codes "kind", text (codes "manual"))
      ∷ (codes "trigger", text (codes "manual"))
      ∷ (codes "reason", null)
      ∷ []))
given_origin v = v

unfoldable pub read_trigger : Option Value → Result Error Trigger
read_trigger v = do
  t ← bounded_optional_text 80 v
  elim t [ none ↦ err value_error | some name ↦ named trigger_name triggers name ]

read_some_reason : Option Text → Result Error (Option Reason)
read_some_reason none = ok none
read_some_reason (some name) = do r ← named reason_name reasons name; ok (some r)

unfoldable pub read_reason : Option Value → Result Error (Option Reason)
unfolding read_some_reason
read_reason v = do t ← bounded_optional_text 240 v; read_some_reason t

abbrev pub is_check_now : Option Reason → Bool
is_check_now (some check_now) = true
is_check_now _ = false

-- The tests of the trigger and the reason against the kind.
unfoldable pub check_origin : Kind → Trigger → Option Reason → Result Error (Unit {0})
check_origin manual_run by_hand none = ok tt
check_origin automation upstream_change r = invalid (is_check_now r)
check_origin automation_check_now operator_check_now none = ok tt
check_origin automation_check_now operator_check_now (some check_now) = ok tt
check_origin _ _ _ = err value_error

unfoldable pub read_origin : Value → Result Error RunOrigin
read_origin (object v) = do
  invalid (not (has_keys origin_keys v))
  kind_text ← text_of (get (codes "kind") v)
  kind ← named kind_name kinds kind_text
  trigger ← read_trigger (get (codes "trigger") v)
  reason ← read_reason (get (codes "reason") v)
  check_origin kind trigger reason
  ok (record { kind = kind; trigger = trigger; reason = reason })
read_origin _ = err value_error

unfoldable pub read_generation : Option Value → Result Error ℕ
read_generation (some (int n)) = do invalid (not (ltb n 8)); ok n
read_generation _ = err value_error

abbrev pub runs_nothing : Policy → Bool
runs_nothing manual = true
runs_nothing detect = true
runs_nothing _ = false

unfoldable pub read_key : Option Value → Result Error Text
read_key v = do t ← text_of v; invalid (not (is_attempt_key t)); ok t

unfoldable pub read_policy : Option Value → Result Error Policy
read_policy v = do
  t ← text_of v
  policy ← named policy_name policies t
  invalid (runs_nothing policy)
  ok policy

abbrev pub or_null : Option Value → Value
or_null none = null
or_null (some v) = v

unfoldable pub read_complete : Platform → Value → Result Error Identity
read_complete p v = do i ← lift (normalize p v); invalid (not (is_complete i)); ok i

unfoldable pub read_automation : Platform → Value → Result Error RunAutomation
read_automation p (object v) = do
  invalid (not (has_keys automation_keys v))
  key ← read_key (get (codes "attempt_key") v)
  generation ← read_generation (get (codes "generation") v)
  policy ← read_policy (get (codes "policy") v)
  i ← read_complete p (or_null (get (codes "expected_upstream_identity") v))
  ok (record {
    attempt_key = key;
    generation = generation;
    policy = policy;
    expected_upstream_identity = i;
  })
read_automation p _ = err value_error

-- What goes with the kind.
unfoldable pub read_coordination : Platform → Kind → Value → Result Error (Option RunAutomation)
read_coordination p manual_run null = ok none
read_coordination p manual_run _ = err value_error
read_coordination p _ v = do a ← read_automation p v; ok (some a)

-- `normalize_run_origin`
unfoldable pub normalize_run_origin :
    Platform → Value → Value → Result Error (RunOrigin × Option RunAutomation)
normalize_run_origin p value metadata = do
  origin ← read_origin (given_origin value)
  a ← read_coordination p origin.kind metadata
  ok (origin, a)

-- `require_automation_mode`
unfoldable pub require_automation_mode : Policy → Text → Result Error (Unit {0})
require_automation_mode test mode = invalid (not (mode =t codes "dry_run"))
require_automation_mode _ mode = invalid (not (mode =t codes "build"))

-- `_normalize_manual_source_provenance`
unfoldable pub normalize_manual_source_provenance :
    Platform → Value → Option RunAutomation → Result Error (Option Identity)
normalize_manual_source_provenance p null (some a) = ok none
normalize_manual_source_provenance p v (some a) = err value_error
normalize_manual_source_provenance p null none = ok none
normalize_manual_source_provenance p v none = do i ← read_complete p v; ok (some i)
