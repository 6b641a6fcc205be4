-- ===== src/Resources/Meet.antt =====
-- debbuilder/resource_limits.py: what `resolve_policy` and `requested_controls` give.
use deb_builder.Base.{
  ℕ, ◌≤◌, Text, true, false, Option, none, some, ok, ◌≡◌, ◌≢◌, ◌↔◌, ◌⊎◌, inl, inr, List, [], ◌∷◌,
  refl, arith,
}
use deb_builder.Base.Json.{Value}
use deb_builder.Resources.Policy.{
  Limit, memory_max_bytes, tasks_max, cpu_quota_percent, io_read_bandwidth_max_bytes_per_sec,
  io_write_bandwidth_max_bytes_per_sec, Policy, limit, Origin, unset, recipe, global,
  global_and_recipe, origin, resolve_limit, resolve_limits, resolve_policy, normalize_policy,
  requested_controls, enforcement_required, controls_of, limits, control_for_field,
}

-- A use of n is within the limit.
pub Allows : Option ℕ → ℕ → Type 0
Allows none n = Unit
Allows (some most) n = n ≤ most

-- What an origin says of the effective, the global and the recipe's limit.
pub Explains : Origin → Option ℕ → Option ℕ → Option ℕ → Type 0
Explains unset e g r = (e ≡ none) × (g ≡ none) × (r ≡ none)
Explains recipe e g r = (e ≡ r) × (r ≢ none) × (e ≢ g)
Explains global e g r = (e ≡ g) × (g ≢ none) × (e ≢ r)
Explains global_and_recipe e g r = (e ≡ g) × (e ≡ r) × (e ≢ none)

Allows-both : (g r : Option ℕ) (n : ℕ) → Allows (resolve_limit g r).0 n ↔ Allows g n × Allows r n
unfolding Allows resolve_limit
Allows-both none none n = ground arith
Allows-both none (some r) n = ground arith
Allows-both (some g) none n = ground arith
Allows-both (some g) (some r) n = ground arith

Explains-resolve : (g r : Option ℕ) → Explains (resolve_limit g r).1 (resolve_limit g r).0 g r
unfolding Explains resolve_limit
Explains-resolve none none = ground arith
Explains-resolve none (some r) = ground arith
Explains-resolve (some g) none = ground arith
Explains-resolve (some g) (some r) = ground arith

limit-resolve :
    (g r : Policy) (f : Limit)
    → (limit (resolve_limits g r).0 f ≡ (resolve_limit (limit g f) (limit r f)).0)
      × (origin (resolve_limits g r).1 f ≡ (resolve_limit (limit g f) (limit r f)).1)
unfolding resolve_limits
limit-resolve g r memory_max_bytes = (refl, refl)
limit-resolve g r tasks_max = (refl, refl)
limit-resolve g r cpu_quota_percent = (refl, refl)
limit-resolve g r io_read_bandwidth_max_bytes_per_sec = (refl, refl)
limit-resolve g r io_write_bandwidth_max_bytes_per_sec = (refl, refl)

-- Where both policies are read, `resolve_policy` returns for each field a limit that allows exactly what
-- the global and the recipe's limit both allow, and an origin that names the policies it comes from.
pub resolve_policy_lem :
    (v w : Value) {g r : Policy}
    → normalize_policy v ≡ ok g
    → normalize_policy w ≡ ok r
    → (resolve_policy v w ≡ ok (resolve_limits g r))
      × ((f : Limit)
          → ((n : ℕ)
              → Allows (limit (resolve_limits g r).0 f) n
                ↔ Allows (limit g f) n × Allows (limit r f) n)
            × Explains
                (origin (resolve_limits g r).1 f)
                (limit (resolve_limits g r).0 f)
                (limit g f)
                (limit r f))
unfolding resolve_policy
resolve_policy_lem v w {g} {r} hg hr = (
  rw (hg, hr),
  λ f.
      let (e, o) = limit-resolve g r f in
      rw (e, o)
        (λ n. Allows-both (limit g f) (limit r f) n, Explains-resolve (limit g f) (limit r f)),
)

controls-none :
    (fs : List Limit) (p : Policy)
    → (controls_of fs p ≡ []) ⊎ ((f : Limit) × (n : ℕ) × (limit p f ≡ some n))
unfolding controls_of
controls-none [] p = inl refl
controls-none (f ∷ fs) p =
    elim (limit p f)
        as (λ r.
          limit p f ≡ r
          → (elim r [ none ↦ controls_of fs p | some _ ↦ control_for_field f ∷ controls_of fs p ]
              ≡ [])
            ⊎ ((f : Limit) × (n : ℕ) × (limit p f ≡ some n))) [
              | none ↦ λ _. controls-none fs p
              | some n ↦ λ e. inr (f, n, e)
            ]
      refl

required-some :
    (p : Policy) (f : Limit) (n : ℕ) → limit p f ≡ some n → enforcement_required p ≡ true
unfolding enforcement_required requested_controls controls_of
required-some p memory_max_bytes n h = ground arith
required-some p tasks_max n h = ground arith
required-some p cpu_quota_percent n h = ground arith
required-some p io_read_bandwidth_max_bytes_per_sec n h = ground arith
required-some p io_write_bandwidth_max_bytes_per_sec n h = ground arith

no_controls : (l : List Text) → l ≡ [] → elim l [ [] ↦ false | _ ∷ _ ↦ true ] ≢ true
no_controls [] e h = cc
no_controls (t ∷ l) e h = cc

some-required :
    (p : Policy) → enforcement_required p ≡ true → (f : Limit) × (n : ℕ) × (limit p f ≡ some n)
unfolding enforcement_required requested_controls
some-required p h =
    elim (controls-none limits p) as (λ _. (f : Limit) × (n : ℕ) × (limit p f ≡ some n)) [
      | inl nothing ↦ absurd (no_controls (controls_of limits p) nothing h)
      | inr found ↦ found
    ]

-- A Run is enforced exactly if its policy limits something.
pub enforcement_required_iff :
    (p : Policy) → (enforcement_required p ≡ true) ↔ ((f : Limit) × (n : ℕ) × (limit p f ≡ some n))
enforcement_required_iff p = (some-required p, λ (f, n, h). required-some p f n h)
