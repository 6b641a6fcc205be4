-- ===== src/Execution/Counts.antt =====
-- debbuilder/execution_manager.py: how often a Run stands in a list, and what the sets and queues do
-- to it.
use deb_builder.Base.{
  ℕ, ◌+◌, ◌≤◌, suc, ◌≡◌, refl, Bool, true, false, Text, ◌=t◌, =t_sound, List, [], ◌∷◌, ◌++◌, length,
  arith, Bool-cases, inl, inr,
}
use deb_builder.Execution.Manager.{has_run, has_token, drop_run, drop_token}

abbrev pub bit : Bool → ℕ
bit true = 1
bit false = 0

unfoldable pub count : Text → List Text → ℕ
count x [] = 0
count x (r ∷ rest) = bit (x =t r) + count x rest

pub count-append :
    (x : Text) (runs : List Text) (r : Text)
    → count x (runs ++ r ∷ []) ≡ count x runs + bit (x =t r)
unfolding count
count-append x [] r = omega arith
count-append x (t ∷ runs) r = omega (arith, count-append x runs r)

pub count-absent : (x : Text) (runs : List Text) → has_run x runs ≡ false → count x runs ≡ 0
unfolding count
count-absent x [] h = refl
count-absent x (t ∷ runs) h = ground (arith, count-absent x runs)

same_bit : (x r t : Text) → r =t t ≡ true → bit (x =t t) ≡ bit (x =t r)
same_bit x r t h = rw (=t_sound r t h) refl

pub count-drop_run :
    (x r : Text) (runs : List Text)
    → has_run r runs ≡ true
    → count x (drop_run r runs) + bit (x =t r) ≡ count x runs
unfolding count drop_run
count-drop_run x r [] h = cc
count-drop_run x r (t ∷ runs) h = elim (Bool-cases (r =t t)) [
  | inl same ↦ rw same (omega (arith, same_bit x r t same))
  | inr other ↦ rw other (omega (arith, count-drop_run x r runs (ground (arith, other, h))))
]

pub count-drop_run_le : (x r : Text) (runs : List Text) → count x (drop_run r runs) ≤ count x runs
unfolding count drop_run
count-drop_run_le x r [] = omega arith
count-drop_run_le x r (t ∷ runs) = ground (arith, count-drop_run_le x r runs)

pub length-drop_run :
    (r : Text) (runs : List Text)
    → has_run r runs ≡ true
    → suc (length (drop_run r runs)) ≡ length runs
unfolding drop_run
length-drop_run r [] h = cc
length-drop_run r (t ∷ runs) h = ground (arith, length-drop_run r runs)

pub length-drop_run_le : (r : Text) (runs : List Text) → length (drop_run r runs) ≤ length runs
unfolding drop_run
length-drop_run_le r [] = omega arith
length-drop_run_le r (t ∷ runs) = ground (arith, length-drop_run_le r runs)

pub length-drop_token_le : (t : ℕ) (tokens : List ℕ) → length (drop_token t tokens) ≤ length tokens
unfolding drop_token
length-drop_token_le t [] = omega arith
length-drop_token_le t (u ∷ tokens) = ground (arith, length-drop_token_le t tokens)

pub length-drop_token :
    (t : ℕ) (tokens : List ℕ)
    → has_token t tokens ≡ true
    → suc (length (drop_token t tokens)) ≤ length tokens
unfolding drop_token
length-drop_token t [] h = cc
length-drop_token t (u ∷ tokens) h =
    ground (arith, length-drop_token t tokens, length-drop_token_le t tokens)

pub has_token-drop_token : (t : ℕ) (tokens : List ℕ) → has_token t (drop_token t tokens) ≡ false
unfolding drop_token
has_token-drop_token t [] = refl
has_token-drop_token t (u ∷ tokens) = ground (arith, has_token-drop_token t tokens)
