-- ===== src/Base/Dict.antt =====
-- Python's `dict` with text keys: an association list in insertion order, each key once.
use Prim.Native.Nat.{suc, ◌≤◌}
use mathlib.Core.Path.{◌≡◌, refl}
use mathlib.Core.Bool.{Bool, true, false}
use mathlib.Core.Option.{Option, none, some}
use mathlib.Core.List.{List, [], ◌∷◌}
use native.Mathlib.Omega.{arith}
use deb_builder.Base.Tests.{if◌then◌else◌}
use deb_builder.Base.Lists.{length}
use deb_builder.Base.Texts.{Text, ◌=t◌, =t_sound, =t_refl}

abbrev pub Dict {ℓ} : Type ℓ → Type ℓ
Dict V = List (Text × V)

module _ {ℓ} {V : Type ℓ} where
  -- d.get(key)
  unfoldable pub lookup : Text → Dict V → Option V
  lookup key [] = none
  lookup key ((k, v) ∷ rest) = if k =t key then some v else lookup key rest

  -- d[key] = value
  unfoldable pub insert : Text → V → Dict V → Dict V
  insert key new [] = (key, new) ∷ []
  insert key new ((k, v) ∷ rest) =
      let others = insert key new rest in if k =t key then (k, new) ∷ rest else (k, v) ∷ others

  -- del d[key], of a key that is there
  unfoldable pub remove : Text → Dict V → Dict V
  remove key [] = []
  remove key ((k, v) ∷ rest) =
      let others = remove key rest in if k =t key then others else (k, v) ∷ others

  pub lookup-insert_self : (key : Text) (v : V) (d : Dict V) → lookup key (insert key v d) ≡ some v
  unfolding lookup insert
  lookup-insert_self key v [] = ground (arith, =t_refl key)
  lookup-insert_self key v ((k, w) ∷ rest) = ground (arith, lookup-insert_self key v rest)

  pub lookup-remove_self : (key : Text) (d : Dict V) → lookup key (remove key d) ≡ none
  unfolding lookup remove
  lookup-remove_self key [] = refl
  lookup-remove_self key ((k, w) ∷ rest) = ground (arith, lookup-remove_self key rest)

  pub lookup-insert_ne :
      (key other : Text) (v : V) (d : Dict V)
      → other =t key ≡ false
      → key =t other ≡ false
      → lookup other (insert key v d) ≡ lookup other d
  unfolding lookup insert
  lookup-insert_ne key other v [] ne ne' = ground arith
  lookup-insert_ne key other v ((k, w) ∷ rest) ne ne' =
      ground
        (arith, lookup-insert_ne key other v rest, =t_sound k key, =t_sound k other, =t_refl key)

  pub lookup-remove_ne :
      (key other : Text) (d : Dict V)
      → key =t other ≡ false
      → lookup other (remove key d) ≡ lookup other d
  unfolding lookup remove
  lookup-remove_ne key other [] ne = refl
  lookup-remove_ne key other ((k, w) ∷ rest) ne =
      ground (arith, lookup-remove_ne key other rest, =t_sound k key)

  -- `key in d`
  abbrev pub has_key : Text → Dict V → Bool
  has_key key d = elim (lookup key d) [ none ↦ false | some _ ↦ true ]

  pub length-insert :
      (key : Text) (v : V) (d : Dict V)
      → length (insert key v d) ≡ (if has_key key d then length d else suc (length d))
  unfolding lookup insert
  length-insert key v [] = refl
  length-insert key v ((k, w) ∷ rest) = ground (arith, length-insert key v rest)

  pub length-remove : (key : Text) (d : Dict V) → length (remove key d) ≤ length d
  unfolding remove
  length-remove key [] = omega arith
  length-remove key ((k, w) ∷ rest) = ground (arith, length-remove key rest)
