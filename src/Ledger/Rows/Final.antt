-- ===== src/Ledger/Rows/Final.antt =====
-- debbuilder/automation_ledger.py: which stages go with the early states, and the ways out of a
-- stopped generation.
use deb_builder.Base.{ℕ, ◌≡◌, refl, ◌⊎◌, inl, inr, true, Text, Option, some, arith, ok, is_id_char}
use deb_builder.Ledger.Row.{
  Generation, Stage, Policy, Classification, claimed, run_preallocated, admitted, detection,
  run_admission, is_final, transient_retryable,
}
use deb_builder.Ledger.Validate.{Iso}
use deb_builder.Ledger.Validate.Table.{WellFormed, IsAbsent}
use deb_builder.Ledger.Rows.{
  Change, row_of, new_generation, preallocate_row, finish_row, notify_row, Outcome, linked,
  advanced,
}
use deb_builder.Ledger.Rows.Accepted.{
  link_row-cases, is_text_sound, present_truthy, advance_row-cases, WellFormed-finish,
}
use deb_builder.Ledger.Rows.Lifecycle.{
  Step, preallocate, link, finish, advance, notify, Reach, here, next, Step-WellFormed,
}

-- A claimed generation is in detection, and a preallocated one in Run admission.
abbrev pub IsCoherent : Generation → Type 0
IsCoherent g =
    (g.state ≡ claimed → g.stage ≡ detection)
    × (g.state ≡ run_preallocated → g.stage ≡ run_admission)

linked-IsCoherent : (now id : Text) (g : Generation) → IsCoherent (linked now id g)
unfolding linked
linked-IsCoherent now id g = ground arith

advanced-IsCoherent :
    (now : Text) (stage : Stage) (val pub_id : Option Text) (g : Generation)
    → IsCoherent (advanced now stage val pub_id g)
unfolding advanced
advanced-IsCoherent now stage val pub_id g = ground arith

finish-IsCoherent :
    (now : Text) (kind : Classification) (o : Outcome) (g : Generation)
    → IsCoherent (finish_row now kind o g)
unfolding finish_row
finish-IsCoherent now kind o g = ground arith

preallocate-IsCoherent :
    (now candidate : Text) (g : Generation) {c : Change}
    → IsCoherent g
    → preallocate_row now candidate g ≡ ok c
    → IsCoherent (row_of c)
unfolding preallocate_row
preallocate-IsCoherent now candidate g i e = ground arith

notify-IsCoherent :
    (now : Text) (g : Generation) {c : Change}
    → IsCoherent g
    → notify_row now g ≡ ok c
    → IsCoherent (row_of c)
unfolding notify_row
notify-IsCoherent now g i e = ground arith

Step-IsCoherent :
    {iso : Iso} {n : ℕ} {g h : Generation} → Step iso n g h → IsCoherent g → IsCoherent h
Step-IsCoherent {g = g} (preallocate now candidate c e r v) i =
    rw r (preallocate-IsCoherent now candidate g i e)
Step-IsCoherent {g = g} (link now id bound c e r v) i = elim (link_row-cases now id bound g e) [
  | inl found ↦ rw r (rw found.2 i)
  | inr found ↦ rw r (rw found.4 (linked-IsCoherent now id g))
]
Step-IsCoherent {g = g} (finish now kind o r v) i = rw r (finish-IsCoherent now kind o g)
Step-IsCoherent {g = g} (advance now stage val pub_id c a e r v) i =
    elim (advance_row-cases now stage val pub_id g e) [
      | inl found ↦ rw r (rw found.1 i)
      | inr found ↦ rw r (rw found.2 (advanced-IsCoherent now stage val pub_id g))
    ]
Step-IsCoherent {g = g} (notify now c e r v) i = rw r (notify-IsCoherent now g i e)

Reach-keeps-IsCoherent :
    {iso : Iso} {n : ℕ} {g h : Generation} → IsCoherent g → Reach iso n g h → IsCoherent h
Reach-keeps-IsCoherent i here = i
Reach-keeps-IsCoherent i (next r s) = Step-IsCoherent s (Reach-keeps-IsCoherent i r)

new_generation-IsCoherent :
    (now : Text) (policy : Policy) (detected : Text) (n : ℕ)
    → IsCoherent (new_generation now policy detected n)
unfolding new_generation
new_generation-IsCoherent now policy detected n = ground arith

-- In every life of a new generation, a claimed row stands in the detection stage and a preallocated
-- row in the Run-admission stage, which the validation alone does not ask for.
pub Reach-IsCoherent :
    (iso : Iso) (n : ℕ) (now : Text) (policy : Policy) (detected : Text) (h : Generation)
    → Reach iso n (new_generation now policy detected n) h
    → IsCoherent h
Reach-IsCoherent iso n now policy detected h r =
    Reach-keeps-IsCoherent (new_generation-IsCoherent now policy detected n) r

-- The Run that `link_run` puts under a stopped generation.
abbrev pub Reopens : Generation → Generation → Type 0
Reopens g h =
    (id : Text) × IsAbsent g.run_id
    × (g.preallocated_run_id ≡ some id)
    × (h.run_id ≡ some id)
    × (h.state ≡ admitted)

linked-Reopens :
    (now id : Text) (g : Generation)
    → IsAbsent g.run_id
    → g.preallocated_run_id ≡ some id
    → Reopens g (linked now id g)
unfolding linked
linked-Reopens now id g a p = (id, a, p, refl, refl)

preallocate_final :
    (now candidate : Text) (g : Generation) {c : Change}
    → is_final g.state ≡ true
    → preallocate_row now candidate g ≡ ok c
    → is_final (row_of c).state ≡ true
unfolding preallocate_row
preallocate_final now candidate g f e = ground arith

notify_final :
    (now : Text) (g : Generation) {c : Change}
    → notify_row now g ≡ ok c
    → is_final (row_of c).state ≡ true
unfolding notify_row
notify_final now g e = ground arith

finish_final :
    (iso : Iso) (n : ℕ) (now : Text) (kind : Classification) (o : Outcome) (g : Generation)
    → WellFormed iso n g
    → is_final g.state ≡ true
    → WellFormed iso n (finish_row now kind o g)
    → is_final (finish_row now kind o g).state ≡ true
finish_final iso n now transient_retryable o g w f v =
    let facts = WellFormed-finish iso n now g w transient_retryable o v in ground (arith, facts.1.0)
finish_final iso n now _ o g w f v = unfold finish_row in refl

-- A step of a well-formed stopped generation leaves it stopped, unless it links the Run that was
-- preallocated for it and never linked.
pub Step-final :
    (iso : Iso) (n : ℕ) (g h : Generation)
    → WellFormed iso n g
    → is_final g.state ≡ true
    → Step iso n g h
    → (is_final h.state ≡ true) ⊎ Reopens g h
Step-final iso n g h w f (preallocate now candidate c e r v) =
    inl (rw r (preallocate_final now candidate g f e))
Step-final iso n g h w f (link now id bound c e r v) = elim (link_row-cases now id bound g e) [
  | inl found ↦ inl (rw r (rw found.2 f))
  | inr found ↦ inr (
      rw r (
        rw found.4 (
          linked-Reopens now id g (ground (arith, found.0, present_truthy is_id_char 128 g.run_id))
            (is_text_sound id g.preallocated_run_id found.2))))
]
Step-final iso n g h w f (finish now kind o r v) =
    let step : Step iso n g h = finish now kind o r v in
    inl (rw r (finish_final iso n now kind o g w f (rw r at (Step-WellFormed step))))
Step-final iso n g h w f (advance now stage val pub_id c a e r v) =
    elim (advance_row-cases now stage val pub_id g e) [
      | inl found ↦ inl (rw r (rw found.1 f))
      | inr found ↦ absurd (ground (arith, found.0))
    ]
Step-final iso n g h w f (notify now c e r v) = inl (rw r (notify_final now g e))
