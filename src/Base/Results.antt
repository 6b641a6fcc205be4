-- ===== src/Base/Results.antt =====
-- Calls that may raise: a value or the error that was raised.
use mathlib.Core.Path.{◌≡◌, refl, subst}
use mathlib.Core.Logic.{◌⊎◌, inl, inr}
use mathlib.Core.Bool.{Bool, true, false}
use deb_builder.Base.Tests.{if◌then◌else◌}

pub data Result (E : Type 0) (A : Type 0) : Type 0 where
  ok : A → Result E A
  err : E → Result E A

module _ {E : Type 0} where
  -- `if bad: raise e`
  abbrev pub refuse : Bool → E → Result E (Unit {0})
  refuse true raised = err raised
  refuse false raised = ok tt

  -- A call whose value the rest of the function goes on with; an error ends it.
  infixl 5 ◌>>=◌
  abbrev pub ◌>>=◌ : {A B : Type 0} → Result E A → (A → Result E B) → Result E B
  err raised >>= rest = err raised
  ok value >>= rest = rest value

  -- A call without a value.
  infixl 5 ◌>>◌
  abbrev pub ◌>>◌ : {A : Type 0} → Result E (Unit {0}) → Result E A → Result E A
  checks >> rest = checks >>= λ done. rest

  -- A sequence of two calls that succeeds: the value between them.
  pub >>=-eq-ok :
      {A B : Type 0} (call : Result E A) (rest : A → Result E B) {last : B}
      → (call >>= rest) ≡ ok last
      → (between : A) × (call ≡ ok between) × (rest between ≡ ok last)
  >>=-eq-ok (err raised) rest success = cc
  >>=-eq-ok (ok between) rest success = (between, refl, success)

  pub Result-cases :
      {A : Type 0} (r : Result E A) → ((a : A) × (r ≡ ok a)) ⊎ ((e : E) × (r ≡ err e))
  Result-cases (ok a) = inl (a, refl)
  Result-cases (err e) = inr (e, refl)

-- What a call that may raise promises of the value it returns.
pub data Keeps {E : Type 0} {A : Type 0} (P : A → Type 0) : Result E A → Type 0 where
  returns : {a : A} → P a → Keeps P (ok a)
  raises : {x : E} → Keeps P (err x)

module _ {E : Type 0} {A : Type 0} {P : A → Type 0} where
  pub if_rule :
      (b : Bool) {x y : Result E A}
      → (b ≡ true → Keeps P x)
      → (b ≡ false → Keeps P y)
      → Keeps P (if b then x else y)
  if_rule true taken other = taken refl
  if_rule false taken other = other refl

  pub bind_rule :
      {B : Type 0} (c : Result E B) {f : B → Result E A}
      → ((b : B) → c ≡ ok b → Keeps P (f b))
      → Keeps P (c >>= f)
  bind_rule (ok b) rest = rest b refl
  bind_rule (err x) rest = raises

  pub refuse_rule :
      (b : Bool) (x : E) (f : Unit {0} → Result E A)
      → (b ≡ false → Keeps P (f tt))
      → Keeps P (refuse b x >>= f)
  refuse_rule true x f rest = raises
  refuse_rule false x f rest = rest refl

  returned : {a : A} → Keeps {E = E} P (ok a) → P a
  returned (returns h) = h

  pub keeps_value : (r : Result E A) {a : A} → r ≡ ok a → Keeps P r → P a
  keeps_value r e h = returned (subst (Keeps P) e h)

pub weaken_rule :
    {E A : Type 0} {P Q : A → Type 0} {r : Result E A}
    → ((a : A) → P a → Q a)
    → Keeps P r
    → Keeps Q r
weaken_rule {r = ok a} weaken (returns h) = returns (weaken a h)
weaken_rule {r = err x} weaken raises = raises
