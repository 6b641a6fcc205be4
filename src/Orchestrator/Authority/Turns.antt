-- ===== src/Orchestrator/Authority/Turns.antt =====
-- debbuilder/automation_orchestrator.py: a Recipe's turn is that of its earliest active claim.
use deb_builder.Base.{
  ℕ, ◌≡◌, ◌⊎◌, subst, refl, sym, ◌∙◌, ap, true, ◌&&◌, Text, List, ◌∷◌, arith, =t_sound, ==_iff,
  and_parts, ◌=t◌, ◌==◌, text_less, false, [], ◌||◌, Bool-cases, inl, inr, if◌then◌else◌,
}
use deb_builder.Ledger.Row.{Generation}
use deb_builder.Ledger.Document.{Document}
use deb_builder.Orchestrator.Authority.{
  Turn, turn_less, least, is_recipe_turn, is_least, active_turns, of_recipe, same_turn,
}

same_turn_sound : (t u : Turn) → same_turn t u ≡ true → t ≡ u
same_turn_sound (c, k, n) (c', k', n') h =
    let (ck, c₃) = and_parts (c =t c' && k =t k') (n == n') h in
    let (c₁, c₂) = and_parts (c =t c') (k =t k') ck in
    let e₁ = =t_sound c c' c₁ in
    let e₂ = =t_sound k k' c₂ in let e₃ = (==_iff n n').0 c₃ in rw (e₁, e₂, e₃) refl

least_unique :
    (turns : List Turn) (t u v : Turn)
    → is_least (v ∷ turns) t ≡ true
    → is_least (v ∷ turns) u ≡ true
    → t ≡ u
unfolding is_least
least_unique turns t u v a b =
    sym (same_turn_sound (least v turns) t a) ∙ same_turn_sound (least v turns) u b

-- The order of code points in texts, and the order of turns that it gives.
text-split : (x y z : Text) → text_less x z ≡ true → (text_less x y || text_less y z) ≡ true
unfolding text_less
text-split x [] [] h = h
text-split [] [] (c ∷ z) h = refl
text-split (a ∷ x) [] (c ∷ z) h = refl
text-split x (b ∷ y) [] h = absurd (cc)
text-split [] (b ∷ y) (c ∷ z) h = refl
text-split (a ∷ x) (b ∷ y) (c ∷ z) h = let ih = text-split x y z in ground (arith, ih)

text-irreflexive : (x : Text) → text_less x x ≡ false
unfolding text_less
text-irreflexive [] = refl
text-irreflexive (a ∷ x) = let ih = text-irreflexive x in ground (arith, ih)

text-total : (x y : Text) → (x =t y || (text_less x y || text_less y x)) ≡ true
unfolding text_less ◌=t◌
text-total [] [] = refl
text-total [] (b ∷ y) = refl
text-total (a ∷ x) [] = refl
text-total (a ∷ x) (b ∷ y) = let ih = text-total x y in ground (arith, ih)

text-asymmetric : (x y : Text) → text_less x y ≡ true → text_less y x ≡ false
unfolding text_less
text-asymmetric [] [] h = refl
text-asymmetric [] (b ∷ y) h = refl
text-asymmetric (a ∷ x) [] h = absurd (cc)
text-asymmetric (a ∷ x) (b ∷ y) h = let ih = text-asymmetric x y in ground (arith, ih)

turn-split : (x y z : Turn) → turn_less x z ≡ true → (turn_less x y || turn_less y z) ≡ true
unfolding turn_less
turn-split (c, k, n) (c', k', n') (d, l, m) h = ground (
  arith,
  h,
  text-split c c' d,
  text-total c c',
  =t_sound c c',
  =t_sound c d,
  =t_sound c' d,
  =t_sound k k',
  =t_sound k l,
  text-split k k' l,
  text-total k k',
  text-total c' d,
  text-total k' l,
  =t_sound k' l,
)

turn-asymmetric : (x y : Turn) → turn_less x y ≡ true → turn_less y x ≡ false
unfolding turn_less
turn-asymmetric (c, k, n) (c', k', n') h = ground (
  arith,
  h,
  text-asymmetric c c',
  text-asymmetric k k',
  =t_sound c' c,
  =t_sound k' k,
  =t_sound c c',
  =t_sound k k',
  text-irreflexive c,
  text-irreflexive k,
)

turn-irreflexive : (t : Turn) → turn_less t t ≡ false
unfolding turn_less
turn-irreflexive (c, k, n) = ground (arith, text-irreflexive c, text-irreflexive k)

-- A turn is one of a list, and no turn of the list is before it.
abbrev pub IsOne : Turn → List Turn → Type 0
IsOne t [] = false ≡ true
IsOne t (u ∷ rest) = (t ≡ u) ⊎ IsOne t rest

abbrev pub NoneBefore : Turn → List Turn → Type 0
NoneBefore t [] = Unit {0}
NoneBefore t (u ∷ rest) = (turn_less u t ≡ false) × NoneBefore t rest

abbrev earlier : Turn → Turn → Turn
earlier t u = if turn_less u t then u else t

not-before : (x y z : Turn) → turn_less x y ≡ false → turn_less y z ≡ false → turn_less x z ≡ false
not-before x y z a b = elim (Bool-cases (turn_less x z)) [
  | inl less ↦ let one = turn-split x y z less in absurd (ground (arith, a, b, one))
  | inr more ↦ more
]

earlier-first :
    (t u : Turn) → (turn_less t (earlier t u) ≡ false) × (turn_less u (earlier t u) ≡ false)
earlier-first t u = elim (Bool-cases (turn_less u t)) [
  | inl less ↦ rw less (turn-asymmetric u t less, turn-irreflexive u)
  | inr more ↦ rw more (turn-irreflexive t, more)
]

earlier-one : (t u : Turn) → (earlier t u ≡ t) ⊎ (earlier t u ≡ u)
earlier-one t u = elim (Bool-cases (turn_less u t)) [
  | inl less ↦ inr (rw less refl)
  | inr more ↦ inl (rw more refl)
]

least-NoneBefore : (t : Turn) (rest : List Turn) → NoneBefore (least t rest) (t ∷ rest)
unfolding least
least-NoneBefore t [] = (turn-irreflexive t, tt)
least-NoneBefore t (u ∷ rest) =
    let m = least (earlier t u) rest in
    let (kept, others) = least-NoneBefore (earlier t u) rest in
    let (first, second) = earlier-first t u in
    (not-before t (earlier t u) m first kept, (not-before u (earlier t u) m second kept, others))

least-IsOne : (t : Turn) (rest : List Turn) → IsOne (least t rest) (t ∷ rest)
unfolding least
least-IsOne t [] = inl refl
least-IsOne t (u ∷ rest) = elim (least-IsOne (earlier t u) rest) [
  | inr later ↦ inr (inr later)
  | inl is ↦ elim (earlier-one t u) [ inl a ↦ inl (is ∙ a) | inr b ↦ inr (inl (is ∙ b)) ]
]

-- While a Recipe has an active claim, the generation that has the Recipe's turn is one of the active
-- claims of the Recipe, none of them was created before it, by (created_at, key, generation), and no
-- other generation has the turn.
pub is_recipe_turn_lem :
    (d : Document) (recipe_id key : Text) (n : ℕ) (g : Generation) (t : Turn) (rest : List Turn)
    → active_turns (of_recipe recipe_id) d.attempts ≡ t ∷ rest
    → is_recipe_turn d key n g recipe_id ≡ true
    → IsOne (g.created_at, key, n) (t ∷ rest)
      × NoneBefore (g.created_at, key, n) (t ∷ rest)
      × ((key' : Text) (n' : ℕ) (g' : Generation)
          → is_recipe_turn d key' n' g' recipe_id ≡ true
          → (key' ≡ key) × (n' ≡ n))
unfolding is_recipe_turn is_least
is_recipe_turn_lem d recipe_id key n g t rest active a =
    let mine : is_least (t ∷ rest) (g.created_at, key, n) ≡ true = rw active at a in
    let is : least t rest ≡ (g.created_at, key, n) = same_turn_sound (least t rest) _ mine in
    (
      subst (λ m. IsOne m (t ∷ rest)) is (least-IsOne t rest),
      subst (λ m. NoneBefore m (t ∷ rest)) is (least-NoneBefore t rest),
      λ key' n' g' b.
          let eq =
            least_unique rest (g'.created_at, key', n') (g.created_at, key, n) t (rw active at b)
              mine in
          (ap (λ x. x.1) eq, ap (λ x. x.2) eq),
    )
