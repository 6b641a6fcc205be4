-- ===== src/Runs/Coherent.antt =====
-- debbuilder/build_models.py and debbuilder/validation_automation.py: what the admission metadata that
-- is accepted says.
use deb_builder.Base.{
  ℕ, ◌<◌, true, not, Text, codes, Option, none, some, Result, ok, err, ◌>>=◌, ◌>>◌, >>=-eq-ok, ◌≡◌,
  subst, ◌≢◌, ◌⊎◌, arith,
}
use deb_builder.Base.Json.{Value, null, int, text, object, get}
use deb_builder.Platform.{Platform}
use deb_builder.Identity.Model.{Identity}
use deb_builder.Identity.Check.{is_complete}
use deb_builder.Ledger.Row.{Policy, manual, detect}
use deb_builder.Ledger.Document.{is_attempt_key}
use deb_builder.Runs.Texts.{
  Error, invalid, Kind, manual_run, automation, automation_check_now, Trigger, by_hand,
  upstream_change, operator_check_now, Reason, check_now, policy_name, named, kind_name, kinds,
  policies, text_of, has_keys,
}
use deb_builder.Runs.Origin

-- The trigger and the reasons of each kind of Run.
pub IsTriggered : Origin.RunOrigin → Type 0
IsTriggered o =
    ((o.kind ≡ manual_run) × (o.trigger ≡ by_hand) × (o.reason ≡ none))
    ⊎ ((o.kind ≡ automation) × (o.trigger ≡ upstream_change) × (o.reason ≢ some check_now))
    ⊎ ((o.kind ≡ automation_check_now)
        × (o.trigger ≡ operator_check_now)
        × ((o.reason ≡ none) ⊎ (o.reason ≡ some check_now)))

-- What the coordination metadata of an automated Run holds.
pub IsCoordinated : Origin.RunAutomation → Type 0
IsCoordinated a =
    (is_attempt_key a.attempt_key ≡ true)
    × (a.generation < 8)
    × (a.policy ≢ manual)
    × (a.policy ≢ detect)
    × (is_complete a.expected_upstream_identity ≡ true)

pub MatchesKind : Kind → Option Origin.RunAutomation → Type 0
MatchesKind manual_run a = a ≡ none
MatchesKind automation none = ⊥
MatchesKind automation (some a) = IsCoordinated a
MatchesKind automation_check_now none = ⊥
MatchesKind automation_check_now (some a) = IsCoordinated a

read_generation-lt : (v : Option Value) {n : ℕ} → Origin.read_generation v ≡ ok n → n < 8
unfolding Origin.read_generation
read_generation-lt (some (int n)) h = ground arith
read_generation-lt v h = cc

read_key-is_attempt_key :
    (v : Option Value) {t : Text} → Origin.read_key v ≡ ok t → is_attempt_key t ≡ true
unfolding Origin.read_key
read_key-is_attempt_key (some (text t)) h = ground arith
read_key-is_attempt_key v h = cc

runs :
    (p : Policy) {q : Policy}
    → (invalid (Origin.runs_nothing p) >> ok p) ≡ ok q
    → (q ≢ manual) × (q ≢ detect)
runs p h = ground arith

read_policy-runs :
    (v : Option Value) {q : Policy} → Origin.read_policy v ≡ ok q → (q ≢ manual) × (q ≢ detect)
unfolding Origin.read_policy
read_policy-runs (some (text t)) {q} h =
    let (p, _, h1) = >>=-eq-ok (named policy_name policies t) _ h in runs p h1
read_policy-runs v h = cc

read_complete-is_complete :
    (p : Platform) (v : Value) {i : Identity}
    → Origin.read_complete p v ≡ ok i
    → is_complete i ≡ true
unfolding Origin.read_complete
read_complete-is_complete p v h = ground arith

-- The four reads of `read_automation`, in order.
read_all :
    Result Error Text
    → Result Error ℕ
    → Result Error Policy
    → Result Error Identity
    → Result Error Origin.RunAutomation
read_all a b c d = do
  key ← a
  generation ← b
  policy ← c
  i ← d
  ok (record {
    attempt_key = key;
    generation = generation;
    policy = policy;
    expected_upstream_identity = i;
  })

read_all-ok :
    (a : Result Error Text) (b : Result Error ℕ) (c : Result Error Policy)
    (d : Result Error Identity) {r : Origin.RunAutomation}
    → read_all a b c d ≡ ok r
    → (a ≡ ok r.attempt_key)
      × (b ≡ ok r.generation)
      × (c ≡ ok r.policy)
      × (d ≡ ok r.expected_upstream_identity)
unfolding read_all
read_all-ok a b c d h = ground arith

read_automation-IsCoordinated :
    (p : Platform) (v : Value) {a : Origin.RunAutomation}
    → Origin.read_automation p v ≡ ok a
    → IsCoordinated a
unfolding Origin.read_automation IsCoordinated read_all
read_automation-IsCoordinated p (object v) h =
    let (_, _, reads) = >>=-eq-ok (invalid (not (has_keys Origin.automation_keys v))) _ h in
    let (key, n, q, i) =
      read_all-ok (Origin.read_key (get (codes "attempt_key") v))
        (Origin.read_generation (get (codes "generation") v))
        (Origin.read_policy (get (codes "policy") v))
        (Origin.read_complete p (Origin.or_null (get (codes "expected_upstream_identity") v)))
        reads in
    let (not_manual, not_detect) = read_policy-runs _ q in
    (
      read_key-is_attempt_key _ key,
      read_generation-lt _ n,
      not_manual,
      not_detect,
      read_complete-is_complete p _ i,
    )
read_automation-IsCoordinated p v h = cc

read_coordination-MatchesKind :
    (p : Platform) (k : Kind) (v : Value) (a : Option Origin.RunAutomation)
    → Origin.read_coordination p k v ≡ ok a
    → MatchesKind k a
unfolding Origin.read_coordination MatchesKind
read_coordination-MatchesKind p manual_run null a h = ground arith
read_coordination-MatchesKind p manual_run v a h = cc
read_coordination-MatchesKind p automation v none h = ground arith
read_coordination-MatchesKind p automation v (some a) h =
    read_automation-IsCoordinated p v (ground arith)
read_coordination-MatchesKind p automation_check_now v none h = ground arith
read_coordination-MatchesKind p automation_check_now v (some a) h =
    read_automation-IsCoordinated p v (ground arith)

checked-IsTriggered :
    (k : Kind) (t : Trigger) (r : Option Reason) {o : Origin.RunOrigin}
    → (Origin.check_origin k t r >> ok (record { kind = k; trigger = t; reason = r })) ≡ ok o
    → IsTriggered o
unfolding Origin.check_origin IsTriggered
checked-IsTriggered k t r h = ground arith

read_origin-IsTriggered :
    (v : Value) {o : Origin.RunOrigin} → Origin.read_origin v ≡ ok o → IsTriggered o
unfolding Origin.read_origin
read_origin-IsTriggered (object v) h =
    let (_, _, h0) = >>=-eq-ok (invalid (not (has_keys Origin.origin_keys v))) _ h in
    let (name, _, h1) = >>=-eq-ok (text_of (get (codes "kind") v)) _ h0 in
    let (k, _, h2) = >>=-eq-ok (named kind_name kinds name) _ h1 in
    let (t, _, h3) = >>=-eq-ok (Origin.read_trigger (get (codes "trigger") v)) _ h2 in
    let (r, _, h4) = >>=-eq-ok (Origin.read_reason (get (codes "reason") v)) _ h3 in
    checked-IsTriggered k t r h4
read_origin-IsTriggered v h = cc

AcceptedAs : Result Error (Origin.RunOrigin × Option Origin.RunAutomation) → Type 0
AcceptedAs (ok (o, a)) = IsTriggered o × MatchesKind o.kind a
AcceptedAs (err e) = Unit

-- In the admission metadata that `normalize_run_origin` accepts the kind of the Run determines its
-- trigger and limits its reasons; a manual Run has no coordination metadata, and any other has it, with
-- an attempt key of the right form, a generation below eight, a policy that runs something and a
-- complete identity.
pub normalize_run_origin-coherent :
    (p : Platform) (v w : Value) {o : Origin.RunOrigin} {a : Option Origin.RunAutomation}
    → Origin.normalize_run_origin p v w ≡ ok (o, a)
    → IsTriggered o × MatchesKind o.kind a
unfolding Origin.normalize_run_origin AcceptedAs
normalize_run_origin-coherent p v w h =
    let (o, origin, h1) = >>=-eq-ok (Origin.read_origin (Origin.given_origin v)) _ h in
    let (a, coordination, done) = >>=-eq-ok (Origin.read_coordination p o.kind w) _ h1 in
    subst (λ (r : Result Error (Origin.RunOrigin × Option Origin.RunAutomation)). AcceptedAs r) done
      (read_origin-IsTriggered _ origin, read_coordination-MatchesKind p o.kind w a coordination)
