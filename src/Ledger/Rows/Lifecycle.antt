-- ===== src/Ledger/Rows/Lifecycle.antt =====
-- debbuilder/automation_ledger.py: the life of one generation, as steps of the operations whose
-- written row the validation accepts.
use deb_builder.Base.{
  ℕ, ◌≡◌, inl, inr, Text, Option, is_some, arith, Result, ok, is_id_char, truthy?,
}
use deb_builder.Ledger.Row.{Generation, Stage, Classification, Error}
use deb_builder.Ledger.Validate.{Iso, validate_generation}
use deb_builder.Ledger.Validate.Table.{WellFormed, IsPresent, IsAbsent}
use deb_builder.Ledger.Validate.Exact.{validate_generation-ok_iff}
use deb_builder.Ledger.Rows.{
  Change, row_of, preallocate_row, link_row, finish_row, advance_row, check_active_stage,
  notify_row, Outcome, linked, advanced,
}
use deb_builder.Ledger.Rows.Accepted.{link_row-cases, present_truthy, advance_row-cases}

-- One operation on generation `n`, whose row is accepted when the ledger is written.
pub data Step (iso : Iso) (n : ℕ) (g h : Generation) : Type 0 where
  preallocate :
      (now candidate : Text) (c : Change)
      → preallocate_row now candidate g ≡ ok c
      → h ≡ row_of c
      → validate_generation iso n h ≡ ok h
      → Step iso n g h
  link :
      (now id : Text) (bound : Result Error (Unit {0})) (c : Change)
      → link_row now id bound g ≡ ok c
      → h ≡ row_of c
      → validate_generation iso n h ≡ ok h
      → Step iso n g h
  finish :
      (now : Text) (kind : Classification) (o : Outcome)
      → h ≡ finish_row now kind o g
      → validate_generation iso n h ≡ ok h
      → Step iso n g h
  advance :
      (now : Text) (stage : Stage) (val pub_id : Option Text) (c : Change)
      → check_active_stage stage ≡ ok tt
      → advance_row now stage val pub_id g ≡ ok c
      → h ≡ row_of c
      → validate_generation iso n h ≡ ok h
      → Step iso n g h
  notify :
      (now : Text) (c : Change)
      → notify_row now g ≡ ok c
      → h ≡ row_of c
      → validate_generation iso n h ≡ ok h
      → Step iso n g h

pub data Reach (iso : Iso) (n : ℕ) (g : Generation) : Generation → Type 0 where
  here : Reach iso n g g
  next : {h k : Generation} → Reach iso n g h → Step iso n h k → Reach iso n g k

-- The validation that every step has passed.
written :
    {iso : Iso} {n : ℕ} {g h : Generation} → Step iso n g h → validate_generation iso n h ≡ ok h
written (preallocate now candidate c e r v) = v
written (link now id bound c e r v) = v
written (finish now kind o r v) = v
written (advance now stage val pub_id c a e r v) = v
written (notify now c e r v) = v

pub Step-WellFormed : {iso : Iso} {n : ℕ} {g h : Generation} → Step iso n g h → WellFormed iso n h
Step-WellFormed {iso} {n} {h = h} s = ((validate_generation-ok_iff iso n h h).0 (written s)).0

pub Reach-WellFormed :
    {iso : Iso} {n : ℕ} {g h : Generation}
    → WellFormed iso n g
    → Reach iso n g h
    → WellFormed iso n h
Reach-WellFormed w here = w
Reach-WellFormed w (next r s) = Step-WellFormed s

-- What no operation takes back.
pub record Monotone (g h : Generation) : Type 0 where
  pub preallocated : IsPresent g.preallocated_run_id → h.preallocated_run_id ≡ g.preallocated_run_id
  pub linked_run : IsPresent g.run_id → h.run_id ≡ g.run_id
  pub validated_stays : IsPresent g.validation_attempt_id → IsPresent h.validation_attempt_id
  pub published_stays : IsPresent g.publication_attempt_id → IsPresent h.publication_attempt_id
  pub same_policy : h.desired_policy ≡ g.desired_policy
  pub same_detection : h.detected_at ≡ g.detected_at
  pub same_creation : h.created_at ≡ g.created_at

finish-Monotone :
    (now : Text) (kind : Classification) (o : Outcome) (g : Generation)
    → Monotone g (finish_row now kind o g)
unfolding finish_row
finish-Monotone now kind o g = ground arith

linked-Monotone :
    (now id : Text) (g : Generation) → IsAbsent g.run_id → Monotone g (linked now id g)
unfolding linked
linked-Monotone now id g h = ground arith

Monotone-refl : (g : Generation) → Monotone g g
Monotone-refl g = ground arith

advanced-Monotone :
    (now : Text) (stage : Stage) (val pub_id : Option Text) (g : Generation)
    → Monotone g (advanced now stage val pub_id g)
unfolding advanced
advanced-Monotone now stage val pub_id g = ground arith

preallocate-Monotone :
    (now candidate : Text) (g : Generation) {c : Change}
    → truthy? g.preallocated_run_id ≡ is_some g.preallocated_run_id
    → preallocate_row now candidate g ≡ ok c
    → Monotone g (row_of c)
unfolding preallocate_row
preallocate-Monotone now candidate g t e = ground arith

link-Monotone :
    (now id : Text) (bound : Result Error (Unit {0})) (g : Generation) {c : Change}
    → truthy? g.run_id ≡ is_some g.run_id
    → link_row now id bound g ≡ ok c
    → Monotone g (row_of c)
link-Monotone now id bound g t e = elim (link_row-cases now id bound g e) [
  | inl found ↦ rw found.2 (Monotone-refl g)
  | inr found ↦ rw found.4 (linked-Monotone now id g (ground (arith, found.0)))
]

advance-Monotone :
    (now : Text) (stage : Stage) (val pub_id : Option Text) (g : Generation) {c : Change}
    → advance_row now stage val pub_id g ≡ ok c
    → Monotone g (row_of c)
advance-Monotone now stage val pub_id g e = elim (advance_row-cases now stage val pub_id g e) [
  | inl found ↦ rw found.1 (Monotone-refl g)
  | inr found ↦ rw found.2 (advanced-Monotone now stage val pub_id g)
]

notify-Monotone :
    (now : Text) (g : Generation) {c : Change} → notify_row now g ≡ ok c → Monotone g (row_of c)
unfolding notify_row
notify-Monotone now g e = ground arith

Step-Monotone :
    {iso : Iso} {n : ℕ} {g h : Generation} → WellFormed iso n g → Step iso n g h → Monotone g h
Step-Monotone {g = g} w (preallocate now candidate c e r v) = rw r (
    preallocate-Monotone now candidate g
      (present_truthy is_id_char 128 g.preallocated_run_id w.safe_preallocated) e)
Step-Monotone {g = g} w (link now id bound c e r v) =
    rw r (link-Monotone now id bound g (present_truthy is_id_char 128 g.run_id w.safe_run) e)
Step-Monotone {g = g} w (finish now kind o r v) = rw r (finish-Monotone now kind o g)
Step-Monotone {g = g} w (advance now stage val pub_id c a e r v) =
    rw r (advance-Monotone now stage val pub_id g e)
Step-Monotone {g = g} w (notify now c e r v) = rw r (notify-Monotone now g e)

Monotone-trans : {g h k : Generation} → Monotone g h → Monotone h k → Monotone g k
Monotone-trans a b = ground arith

-- Whatever the operations do to a well-formed generation, its policy and times of detection and
-- creation stay, a preallocated or linked Run is never replaced or dropped, and a Validation or
-- Publication link never disappears.
pub Reach-Monotone :
    (iso : Iso) (n : ℕ) (g h : Generation) → WellFormed iso n g → Reach iso n g h → Monotone g h
Reach-Monotone iso n g h w here = Monotone-refl g
Reach-Monotone iso n g h w (next {h = k} r s) =
    Monotone-trans (Reach-Monotone iso n g k w r) (Step-Monotone (Reach-WellFormed w r) s)
