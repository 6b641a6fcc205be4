-- ===== src/Base/Texts.antt =====
-- Python's `str` as a list of code points, with the character classes of the regular expressions.
use Prim.Native.Nat.{ℕ}
use Prim.Native.Char.{code}
use Prim.Native.String.{String}
use mathlib.Core.Path.{◌≡◌, refl}
use mathlib.Core.Bool.{Bool, true, false, ◌&&◌, ◌||◌}
use mathlib.Core.Option.{Option, none, some}
use mathlib.Core.List.{List, [], ◌∷◌}
use native.Mathlib.Omega.{arith}
use deb_builder.Base.Tests.{leb, ltb, ◌==◌}
use deb_builder.Base.Lists.{all}

abbrev pub Text : Type 0
Text = List ℕ

abbrev pub codes : String → Text
codes String.[] = []
codes (String.◌∷◌ c s) = code c ∷ codes s

infix 50 ◌=t◌
unfoldable pub ◌=t◌ : Text → Text → Bool
[] =t [] = true
(a ∷ s) =t (b ∷ t) = a == b && s =t t
_ =t _ = false

pub =t_sound : (s t : Text) → s =t t ≡ true → s ≡ t
unfolding ◌=t◌
=t_sound [] [] h = refl
=t_sound [] (b ∷ t) h = cc
=t_sound (a ∷ s) [] h = cc
=t_sound (a ∷ s) (b ∷ t) h = ground (arith, =t_sound s t)

pub =t_refl : (s : Text) → s =t s ≡ true
unfolding ◌=t◌
=t_refl [] = refl
=t_refl (a ∷ s) = ground (arith, =t_refl s)

-- Python's `<` on two texts.
unfoldable pub text_less : Text → Text → Bool
text_less s [] = false
text_less [] (b ∷ t) = true
text_less (a ∷ s) (b ∷ t) = ltb a b || (a == b && text_less s t)

-- `if text:`
abbrev pub truthy : Text → Bool
truthy [] = false
truthy (_ ∷ _) = true

abbrev pub truthy? : Option Text → Bool
truthy? none = false
truthy? (some t) = truthy t

abbrev pub is_digit : ℕ → Bool
is_digit c = leb b'0' c && leb c b'9'

abbrev pub is_lower : ℕ → Bool
is_lower c = leb b'a' c && leb c b'z'

abbrev pub is_upper : ℕ → Bool
is_upper c = leb b'A' c && leb c b'Z'

abbrev pub is_hex : ℕ → Bool
is_hex c = is_digit c || (leb b'a' c && leb c b'f')

-- [a-z0-9_.-]
abbrev pub is_code_char : ℕ → Bool
is_code_char c = is_lower c || is_digit c || c == b'_' || c == b'.' || c == b'-'

-- [A-Za-z0-9_.+-]
abbrev pub is_id_char : ℕ → Bool
is_id_char c = is_code_char c || is_upper c || c == b'+'

-- re.fullmatch("[class]+", text)
abbrev pub matches_class : (ℕ → Bool) → Text → Bool
matches_class p t = truthy t && all p t
