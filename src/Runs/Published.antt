-- ===== src/Runs/Published.antt =====
-- debbuilder/validation_automation.py: the metadata that `normalize_validation_automation` accepts, and
-- its round trip.
use deb_builder.Base.{
  ℕ, ◌<◌, Bool, true, false, not, Text, codes, Option, none, some, ltb, ◌=t◌, Result, ok, err,
  ◌>>=◌, >>=-eq-ok, ◌≡◌, ◌≢◌, ◌↔◌, ◌⊎◌, inl, inr, refl, arith, subst,
}
use deb_builder.Base.Json.{Value, int, text, object, Fields, get, dict}
use deb_builder.Ledger.Row.{Policy, build_validate, full}
use deb_builder.Ledger.Document.{is_attempt_key}
use deb_builder.Runs.Texts.{Error, invalid, policy_name, named}
use deb_builder.Runs.Validation.{
  ValidationAutomation, Coordination, PublicationState, not_requested, pending, complete, cancelled,
  publication_name, check_publication, read_validation_policy, read_coordination_fields,
  read_optional_coordination, read_flag, read_state, read_fields, check_keys,
  normalize_validation_automation, validation_value, validation_fields, coordination_fields,
  read_key, read_generation,
}

-- A Validation is published after it succeeds exactly under the policy full.
unfoldable pub IsPolicyFor : Bool → Policy → Type 0
IsPolicyFor publish q = ((q ≡ full) × (publish ≡ true)) ⊎ ((q ≡ build_validate) × (publish ≡ false))

unfoldable pub IsCoordination : Bool → Bool → Option Coordination → Type 0
IsCoordination automatic publish none = Unit
IsCoordination automatic publish (some c) =
    (automatic ≡ true)
    × (is_attempt_key c.attempt_key ≡ true)
    × (c.generation < 8)
    × IsPolicyFor publish c.policy

unfoldable pub IsPublication : Bool → Bool → PublicationState → Type 0
IsPublication automatic publish state =
    (publish ≡ true → automatic ≡ true) × ((publish ≡ true) ↔ (state ≢ not_requested))

unfoldable pub IsValidation : ValidationAutomation → Type 0
IsValidation a =
    IsPublication a.automatic a.publish_after_success a.publication_state
    × IsCoordination a.automatic a.publish_after_success a.coordination

check_publication-IsPublication :
    (a p : Bool) (s : PublicationState) {x : Unit {0}}
    → check_publication a p s ≡ ok x
    → IsPublication a p s
unfolding check_publication IsPublication
check_publication-IsPublication a p s h =
    (λ e. ground arith, (λ e e'. ground arith, λ e. ground arith))

policy-IsPolicyFor :
    (p : Bool) (v : Option Value) {q : Policy} → read_validation_policy p v ≡ ok q → IsPolicyFor p q
unfolding read_validation_policy named IsPolicyFor ◌=t◌
policy-IsPolicyFor p (some (text t)) h = ground arith
policy-IsPolicyFor p v h = cc

key-accepted : (v : Option Value) {t : Text} → read_key v ≡ ok t → is_attempt_key t ≡ true
unfolding read_key
key-accepted (some (text t)) h = ground arith
key-accepted v h = cc

generation-lt : (v : Option Value) {n : ℕ} → read_generation v ≡ ok n → n < 8
unfolding read_generation
generation-lt (some (int n)) h = ground arith
generation-lt v h = cc

read_three : Result Error Text → Result Error ℕ → Result Error Policy → Result Error Coordination
read_three a b c = do
  key ← a
  generation ← b
  policy ← c
  ok (record { attempt_key = key; generation = generation; policy = policy })

read_three-ok :
    (a : Result Error Text) (b : Result Error ℕ) (c : Result Error Policy) {r : Coordination}
    → read_three a b c ≡ ok r
    → (a ≡ ok r.attempt_key) × (b ≡ ok r.generation) × (c ≡ ok r.policy)
unfolding read_three
read_three-ok a b c h = ground arith

fields-IsCoordination :
    (a p : Bool) (v : Fields) {c : Coordination}
    → read_coordination_fields a p v ≡ ok c
    → IsCoordination a p (some c)
unfolding read_coordination_fields read_three IsCoordination
fields-IsCoordination a p v h =
    let (_, automatic, reads) = >>=-eq-ok (invalid (not a)) _ h in
    let (key, n, q) =
      read_three-ok (read_key (get (codes "attempt_key") v))
        (read_generation (get (codes "generation") v))
        (read_validation_policy p (get (codes "policy") v)) reads in
    (
      ground arith,
      key-accepted _ key,
      generation-lt (get (codes "generation") v) n,
      policy-IsPolicyFor p _ q,
    )

optional-IsCoordination :
    (a p : Bool) (v : Fields) (c : Option Coordination)
    → read_optional_coordination a p v ≡ ok c
    → IsCoordination a p c
unfolding read_optional_coordination IsCoordination
optional-IsCoordination a p v none h = tt
optional-IsCoordination a p v (some c) h = fields-IsCoordination a p v (ground arith)

IsAcceptedAs : Result Error ValidationAutomation → Type 0
IsAcceptedAs (ok a) = IsValidation a
IsAcceptedAs (err e) = Unit

read_fields-IsValidation :
    (v : Fields) {a : ValidationAutomation} → read_fields v ≡ ok a → IsValidation a
unfolding read_fields IsValidation IsAcceptedAs
read_fields-IsValidation v h =
    let (a, _, h1) = >>=-eq-ok (read_flag (get (codes "automatic") v)) _ h in
    let (p, _, h2) = >>=-eq-ok (read_flag (get (codes "publish_after_success") v)) _ h1 in
    let (s, _, h3) = >>=-eq-ok (read_state (get (codes "publication_state") v)) _ h2 in
    let (_, publication, h4) = >>=-eq-ok (check_publication a p s) _ h3 in
    let (c, coordination, done) = >>=-eq-ok (read_optional_coordination a p v) _ h4 in
    subst IsAcceptedAs done (
      check_publication-IsPublication a p s publication,
      optional-IsCoordination a p v c coordination,
    )

-- The metadata that `normalize_validation_automation` returns publishes only an automatic Validation,
-- has a publication state other than not_requested exactly if it publishes, and has coordination
-- fields only where the Validation is automatic, with an attempt key of the right form, a generation
-- below eight, and the policy full if it publishes and build_validate if it does not.
pub normalize_validation_automation-IsValidation :
    (v : Value) {a : ValidationAutomation}
    → normalize_validation_automation v ≡ ok a
    → IsValidation a
unfolding normalize_validation_automation
normalize_validation_automation-IsValidation (object v) h =
    let (_, _, fields) = >>=-eq-ok (check_keys v) _ h in read_fields-IsValidation v fields
normalize_validation_automation-IsValidation v h = cc

read_state_name : (s : PublicationState) → read_state (some (text (publication_name s))) ≡ ok s
unfolding read_state named ◌=t◌
read_state_name not_requested = refl
read_state_name pending = refl
read_state_name complete = refl
read_state_name cancelled = refl

false-true : false ≢ true
false-true e = cc

check_publication-ok :
    (a p : Bool) (s : PublicationState) → IsPublication a p s → check_publication a p s ≡ ok tt
unfolding check_publication IsPublication
check_publication-ok a true not_requested (automatic, (asked, _)) = absurd (asked refl refl)
check_publication-ok a true pending (automatic, _) = rw (automatic refl)
check_publication-ok a true complete (automatic, _) = rw (automatic refl)
check_publication-ok a true cancelled (automatic, _) = rw (automatic refl)
check_publication-ok a false not_requested _ = refl
check_publication-ok a false pending (_, (_, unasked)) =
    absurd (false-true (unasked (λ e. ground arith)))
check_publication-ok a false complete (_, (_, unasked)) =
    absurd (false-true (unasked (λ e. ground arith)))
check_publication-ok a false cancelled (_, (_, unasked)) =
    absurd (false-true (unasked (λ e. ground arith)))

read_policy_name :
    (p : Bool) (q : Policy)
    → IsPolicyFor p q
    → read_validation_policy p (some (text (policy_name q))) ≡ ok q
unfolding read_validation_policy named IsPolicyFor ◌=t◌
read_policy_name p q (inl (is_full, published)) = rw (is_full, published)
read_policy_name p q (inr (is_validate, unpublished)) = rw (is_validate, unpublished)

coordination_read :
    (a : ValidationAutomation) (c : Coordination)
    → IsCoordination a.automatic a.publish_after_success (some c)
    → read_coordination_fields a.automatic a.publish_after_success
        (dict (validation_fields a (coordination_fields (some c))))
      ≡ ok c
unfolding read_coordination_fields IsCoordination get ◌=t◌ read_key read_generation
coordination_read a c (automatic, key, below, policy) =
    let n : ltb c.generation 8 ≡ true = ground arith in
    rw (automatic, key, n, read_policy_name a.publish_after_success c.policy policy)

optional_read :
    (a : ValidationAutomation) (c : Option Coordination)
    → IsCoordination a.automatic a.publish_after_success c
    → (check_keys (dict (validation_fields a (coordination_fields c))) ≡ ok tt)
      × (read_optional_coordination a.automatic a.publish_after_success
            (dict (validation_fields a (coordination_fields c)))
          ≡ ok c)
unfolding check_keys read_optional_coordination ◌=t◌
optional_read a none h = (refl, refl)
optional_read a (some c) h = (refl, rw (coordination_read a c h))

-- Reading what `normalize_validation_automation` returned gives the same again.
pub normalize_validation_automation-validation_value :
    (a : ValidationAutomation)
    → IsValidation a
    → normalize_validation_automation (validation_value a) ≡ ok a
unfolding normalize_validation_automation IsValidation read_fields get ◌=t◌ read_flag
normalize_validation_automation-validation_value a (publication, coordination) =
    let (known, read) = optional_read a a.coordination coordination in
    rw (
      known,
      read_state_name a.publication_state,
      check_publication-ok a.automatic a.publish_after_success a.publication_state publication,
      read,
    )
