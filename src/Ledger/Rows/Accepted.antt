-- ===== src/Ledger/Rows/Accepted.antt =====
-- debbuilder/automation_ledger.py: which changed generations the validation at the write accepts.
use deb_builder.Base.{
  ℕ, ◌≤◌, ◌≡◌, refl, ◌≢◌, ◌⊎◌, inl, inr, Bool, true, false, Text, [], ◌∷◌, Option, none, some,
  is_some, arith, Result, ok, err, is_id_char, is_code_char, truthy?, ap, =t_sound,
}
use deb_builder.Ledger.Row.{
  Generation, Stage, Policy, Classification, Error, transient_retryable, blocked_manual, no_retry,
  transient, operator, stopped, is_final, manual, max_retry_count, max_diagnostic, max_error_code,
}
use deb_builder.Ledger.Validate.{Iso, is_attempt_char}
use deb_builder.Ledger.Validate.Table.{
  WellFormed, IsSafe, IsTimestamp, IsTimestamp?, IsAbsent, IsPresent, StageLinks,
}
use deb_builder.Ledger.Rows.{
  Change, kept, changed, row_of, new_generation, settle, preallocate_row, link_row, finish_row,
  advance_row, notify_row, linked, advanced, Outcome, given_or, is_text,
}

-- A truthy test of a safe text is a test for null.
pub present_truthy : (p : ℕ → Bool) (m : ℕ) (o : Option Text) → IsSafe p m o → truthy? o ≡ is_some o
present_truthy p m none h = refl
present_truthy p m (some []) h = ground arith
present_truthy p m (some (c ∷ t)) h = refl

pub is_text_sound : (t : Text) (o : Option Text) → is_text t o ≡ true → o ≡ some t
is_text_sound t none h = cc
is_text_sound t (some s) h = ap some (=t_sound s t h)

-- A new generation is well formed.
pub new_generation-WellFormed :
    (iso : Iso) (now : Text) (policy : Policy) (detected : Text) (n : ℕ)
    → policy ≢ manual
    → IsTimestamp iso now
    → IsTimestamp iso detected
    → WellFormed iso n (new_generation now policy detected n)
unfolding new_generation
new_generation-WellFormed iso now policy detected n a t d = ground arith

pub preallocate-WellFormed :
    (iso : Iso) (n : ℕ) (now candidate : Text) (g : Generation) {c : Change}
    → WellFormed iso n g
    → IsTimestamp iso now
    → IsSafe is_id_char 128 (some candidate)
    → preallocate_row now candidate g ≡ ok c
    → WellFormed iso n (row_of c)
unfolding preallocate_row
preallocate-WellFormed iso n now candidate g w t s h =
    ground (arith, present_truthy is_id_char 128 g.preallocated_run_id)

pub settle-WellFormed :
    (iso : Iso) (now : Text) (policy : Policy) (detected : Text) (baseline : Bool)
    → policy ≢ manual
    → IsTimestamp iso now
    → IsTimestamp iso detected
    → WellFormed iso 0 (settle now baseline (new_generation now policy detected 0))
unfolding settle new_generation
settle-WellFormed iso now policy detected true a t d = ground arith
settle-WellFormed iso now policy detected false a t d = ground arith

-- What a successful `link_run` has found and returns.
pub link_row-cases :
    (now id : Text) (bound : Result Error (Unit {0})) (g : Generation) {c : Change}
    → link_row now id bound g ≡ ok c
    → ((truthy? g.run_id ≡ true) × (is_text id g.run_id ≡ true) × (c ≡ kept g))
      ⊎ ((truthy? g.run_id ≡ false)
          × (truthy? g.preallocated_run_id ≡ true)
          × (is_text id g.preallocated_run_id ≡ true)
          × (bound ≡ ok tt)
          × (c ≡ changed (linked now id g)))
unfolding link_row
link_row-cases now id (ok u) g h = ground arith
link_row-cases now id (err e) g h = ground arith

linked-WellFormed :
    (iso : Iso) (n : ℕ) (now id : Text) (g : Generation)
    → WellFormed iso n g
    → is_final g.state ≡ false
    → IsTimestamp iso now
    → truthy? g.run_id ≡ is_some g.run_id
    → truthy? g.run_id ≡ false
    → g.preallocated_run_id ≡ some id
    → WellFormed iso n (linked now id g)
unfolding linked
linked-WellFormed iso n now id g w a t s u e = ground arith

pub link-WellFormed :
    (iso : Iso) (n : ℕ) (now id : Text) (bound : Result Error (Unit {0})) (g : Generation)
    {c : Change}
    → WellFormed iso n g
    → is_final g.state ≡ false
    → IsTimestamp iso now
    → link_row now id bound g ≡ ok c
    → WellFormed iso n (row_of c)
link-WellFormed iso n now id bound g w a t h = elim (link_row-cases now id bound g h) [
  | inl found ↦ rw found.2 w
  | inr found ↦ rw found.4 (
      linked-WellFormed iso n now id g w a t (present_truthy is_id_char 128 g.run_id w.safe_run)
        found.0 (is_text_sound id g.preallocated_run_id found.2))
]

-- What `finish` must be given for its write to be accepted.
abbrev pub FinishArguments : Iso → Classification → Outcome → Generation → Type 0
FinishArguments iso transient_retryable o g =
    (is_final g.state ≡ false) × (o.retry_class ≡ transient) × IsPresent o.not_before
FinishArguments iso blocked_manual o g = (o.retry_class ≡ operator) × IsAbsent o.not_before
FinishArguments iso _ o g = (o.retry_class ≡ no_retry) × IsAbsent o.not_before

abbrev pub OutcomeTexts : Iso → Outcome → Type 0
OutcomeTexts iso o =
    (o.retry_count ≤ max_retry_count)
    × IsSafe is_code_char max_error_code o.last_error_code
    × IsSafe is_code_char max_diagnostic o.diagnostic
    × IsTimestamp? iso o.not_before

module _ (iso : Iso) (n : ℕ) (now : Text) (g : Generation) (w : WellFormed iso n g) where
  pub finish-WellFormed :
      (c : Classification) (o : Outcome)
      → IsTimestamp iso now
      → OutcomeTexts iso o
      → FinishArguments iso c o g
      → WellFormed iso n (finish_row now c o g)
  unfolding finish_row
  finish-WellFormed transient_retryable o t x f = ground arith
  finish-WellFormed _ o t x f = ground arith

  pub WellFormed-finish :
      (c : Classification) (o : Outcome)
      → WellFormed iso n (finish_row now c o g)
      → OutcomeTexts iso o × FinishArguments iso c o g
  unfolding finish_row
  WellFormed-finish transient_retryable o r = ground arith
  WellFormed-finish _ o r = ground arith

-- The links that `advance_lifecycle` would write.
abbrev pub new_validation : Option Text → Generation → Option Text
new_validation validation_id g = given_or validation_id g.validation_attempt_id

abbrev pub new_publication : Option Text → Generation → Option Text
new_publication publication_id g = given_or publication_id g.publication_attempt_id

-- What a successful `advance_lifecycle` has found and returns.
pub advance_row-cases :
    (now : Text) (stage : Stage) (val pub_id : Option Text) (g : Generation) {c : Change}
    → advance_row now stage val pub_id g ≡ ok c
    → ((is_final g.state ≡ true) × (c ≡ kept g))
      ⊎ ((is_final g.state ≡ false)
          × (truthy? g.run_id ≡ true)
          × (c ≡ changed (advanced now stage val pub_id g)))
unfolding advance_row
advance_row-cases now stage val pub_id g h = ground arith

module _ (iso : Iso) (n : ℕ) (now : Text) (stage : Stage) (val pub_id : Option Text)
    (g : Generation) (w : WellFormed iso n g) (active : is_final g.state ≡ false) where
  pub advanced-WellFormed :
      IsTimestamp iso now
      → IsSafe is_attempt_char 128 (new_validation val g)
      → IsSafe is_attempt_char 128 (new_publication pub_id g)
      → (IsPresent (new_publication pub_id g) → IsPresent (new_validation val g))
      → StageLinks stage g.preallocated_run_id g.run_id
          (new_validation val g)
          (new_publication pub_id g)
      → stage ≢ stopped
      → IsPresent g.run_id
      → WellFormed iso n (advanced now stage val pub_id g)
  unfolding advanced
  advanced-WellFormed t sv sp order links ne linked = ground arith

  pub WellFormed-advanced :
      WellFormed iso n (advanced now stage val pub_id g)
      → StageLinks stage g.preallocated_run_id g.run_id
          (new_validation val g)
          (new_publication pub_id g)
        × (IsPresent (new_publication pub_id g) → IsPresent (new_validation val g))
  unfolding advanced
  WellFormed-advanced r = (r.stage_links, r.publication_is_validated)

pub notify-WellFormed :
    (iso : Iso) (n : ℕ) (now : Text) (g : Generation) {c : Change}
    → WellFormed iso n g
    → IsTimestamp iso now
    → notify_row now g ≡ ok c
    → WellFormed iso n (row_of c) × ((row_of c).completion_notified ≡ true)
unfolding notify_row
notify-WellFormed iso n now g w t h = ground arith
