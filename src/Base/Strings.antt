-- ===== src/Base/Strings.antt =====
-- Python's string methods on code points, over the character tables of the platform.
use Prim.Native.Nat.{ℕ}
use mathlib.Core.Path.{◌≡◌, refl}
use mathlib.Core.Bool.{Bool, true, false, ◌&&◌, ◌||◌}
use mathlib.Core.Option.{Option, none, some}
use mathlib.Core.List.{[], ◌∷◌}
use native.Mathlib.Omega.{arith}
use deb_builder.Base.Tests.{◌==◌, if◌then◌else◌}
use deb_builder.Base.Lists.{any, all}
use deb_builder.Base.Texts.{Text}

-- t.startswith(s), in Python's argument order
unfoldable pub starts_with : Text → Text → Bool
starts_with t [] = true
starts_with [] (b ∷ s) = false
starts_with (a ∷ t) (b ∷ s) = a == b && starts_with t s

-- `s in t`
unfoldable pub has_infix : Text → Text → Bool
unfolding starts_with
has_infix [] s = starts_with [] s
has_infix (a ∷ t) s = starts_with (a ∷ t) s || has_infix t s

abbrev pub has_char : ℕ → Text → Bool
has_char c t = any (λ a. a == c) t

unfoldable pub ends_with_char : ℕ → Text → Bool
ends_with_char c [] = false
ends_with_char c (a ∷ []) = a == c
ends_with_char c (a ∷ b ∷ t) = ends_with_char c (b ∷ t)

-- text.partition(c): what stands before the first `c`, and what stands after it
unfoldable pub before_char : ℕ → Text → Text
before_char c [] = []
before_char c (a ∷ t) = if a == c then [] else a ∷ before_char c t

unfoldable pub after_char : ℕ → Text → Option Text
after_char c [] = none
after_char c (a ∷ t) = if a == c then some t else after_char c t

module _ (is_space : ℕ → Bool) where
  unfoldable pub lstrip : Text → Text
  lstrip [] = []
  lstrip (c ∷ t) = if is_space c then lstrip t else c ∷ t

  trim : ℕ → Text → Text
  trim c [] = if is_space c then [] else c ∷ []
  trim c (d ∷ t) = c ∷ d ∷ t

  unfoldable pub rstrip : Text → Text
  unfolding trim
  rstrip [] = []
  rstrip (c ∷ t) = trim c (rstrip t)

  -- text.strip()
  unfoldable pub strip : Text → Text
  unfolding lstrip rstrip
  strip t = rstrip (lstrip t)

  rstrip-trim : (c : ℕ) (t : Text) → rstrip t ≡ t → rstrip (trim c t) ≡ trim c t
  unfolding rstrip
  rstrip-trim c [] h = ground arith
  rstrip-trim c (d ∷ t) h = ground arith

  rstrip-rstrip : (t : Text) → rstrip (rstrip t) ≡ rstrip t
  unfolding rstrip
  rstrip-rstrip [] = refl
  rstrip-rstrip (c ∷ t) = rstrip-trim c (rstrip t) (rstrip-rstrip t)

  -- a text whose first character, if any, is no space
  abbrev StartsDark : Text → Type 0
  StartsDark [] = Unit {0}
  StartsDark (c ∷ t) = is_space c ≡ false

  lstrip-StartsDark : (t : Text) → StartsDark (lstrip t)
  unfolding lstrip
  lstrip-StartsDark [] = tt
  lstrip-StartsDark (c ∷ t) = ground (arith, lstrip-StartsDark t)

  trim-StartsDark : (c : ℕ) (t : Text) → is_space c ≡ false → StartsDark (trim c t)
  unfolding trim
  trim-StartsDark c [] h = ground arith
  trim-StartsDark c (d ∷ t) h = h

  rstrip-StartsDark : (t : Text) → StartsDark t → StartsDark (rstrip t)
  unfolding rstrip
  rstrip-StartsDark [] h = tt
  rstrip-StartsDark (c ∷ t) h = trim-StartsDark c (rstrip t) h

  lstrip_of_StartsDark : (t : Text) → StartsDark t → lstrip t ≡ t
  unfolding lstrip
  lstrip_of_StartsDark [] h = refl
  lstrip_of_StartsDark (c ∷ t) h = ground arith

  -- A stripped text is left as it is.
  pub strip-strip : (t : Text) → strip (strip t) ≡ strip t
  unfolding strip
  strip-strip t =
      rw
        (lstrip_of_StartsDark (rstrip (lstrip t))
          (rstrip-StartsDark (lstrip t) (lstrip-StartsDark t)))
        (rstrip-rstrip (lstrip t))

  rstrip-all : (t : Text) → all (λ c. if is_space c then false else true) t ≡ true → rstrip t ≡ t
  unfolding rstrip trim
  rstrip-all [] h = refl
  rstrip-all (c ∷ []) h = ground arith
  rstrip-all (c ∷ d ∷ t) h = ground (arith, rstrip-all (d ∷ t))

  pub strip-all : (t : Text) → all (λ c. if is_space c then false else true) t ≡ true → strip t ≡ t
  unfolding strip lstrip
  strip-all [] h = unfold rstrip in refl
  strip-all (c ∷ t) h = ground (arith, rstrip-all (c ∷ t))
