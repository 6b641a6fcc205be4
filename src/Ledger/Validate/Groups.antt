-- ===== src/Ledger/Validate/Groups.antt =====
-- debbuilder/automation_ledger.py: each group of tests of `_validate_generation` against its rows of
-- the table.
use deb_builder.Base.{
  ℕ, ◌≡◌, refl, ap, ◌≢◌, Bool, true, Text, Option, none, some, is_some, is_id_char, truthy?, [],
  ◌∷◌, ok, arith, =t_sound, =t_refl,
}
use deb_builder.Ledger.Row.{Generation, manual}
use deb_builder.Ledger.Validate.{
  Iso, check_header, check_ids, check_links, check_lifecycle, check_stage, check_stage_links,
  check_notice, check_result, validate_generation, is_attempt_char, same_text?,
}
use deb_builder.Ledger.Validate.Table.{
  Outcome, IsSafe, Counters, SafeIds, Truths, LinkFacts, StageFacts, StageLinksOf, NoticeFacts,
  ResultFacts, Passed,
}

pub check_header-eq-ok :
    (n : ℕ) (g : Generation)
    → g.generation ≡ n
    → g.desired_policy ≢ manual
    → Counters g
    → check_header n g ≡ ok tt
unfolding check_header
check_header-eq-ok n g p a c = ground arith

pub check_header_lem :
    (n : ℕ) (g : Generation)
    → check_header n g ≡ ok tt
    → (g.generation ≡ n) × (g.desired_policy ≢ manual) × Counters g
unfolding check_header
check_header_lem n g h = ground arith

pub IsSafe-truthy : (p : ℕ → Bool) (m : ℕ) (o : Option Text) → IsSafe p m o → truthy? o ≡ is_some o
IsSafe-truthy p m none h = refl
IsSafe-truthy p m (some []) h = ground arith
IsSafe-truthy p m (some (c ∷ t)) h = refl

pub check_ids_lem : (g : Generation) → check_ids g ≡ ok tt → check_stage g ≡ ok tt → SafeIds g
unfolding check_ids check_stage
check_ids_lem g h k = ground arith

pub check_ids-eq-ok : (g : Generation) → SafeIds g → check_ids g ≡ ok tt
unfolding check_ids
check_ids-eq-ok g h = ground arith

pub same_text?_sound : (a b : Option Text) → same_text? a b ≡ true → a ≡ b
same_text?_sound none none h = refl
same_text?_sound (some s) (some t) h = ap some (=t_sound s t h)
same_text?_sound none (some t) h = cc
same_text?_sound (some s) none h = cc

pub same_text?_refl : (a : Option Text) → same_text? a a ≡ true
same_text?_refl none = refl
same_text?_refl (some s) = =t_refl s

pub same_text?-eq : (a b : Option Text) → a ≡ b → same_text? a b ≡ true
same_text?-eq a b e = rw e (same_text?_refl b)

pub SafeIds-Truths : (g : Generation) → SafeIds g → Truths g
SafeIds-Truths g h = (
  IsSafe-truthy is_id_char 128 g.run_id h.0,
  IsSafe-truthy is_id_char 128 g.preallocated_run_id h.1,
  IsSafe-truthy is_attempt_char 128 g.validation_attempt_id h.2,
  IsSafe-truthy is_attempt_char 128 g.publication_attempt_id h.3,
)

pub check_links_lem : (g : Generation) → Truths g → check_links g ≡ ok tt → LinkFacts g
unfolding check_links
check_links_lem g t h = (
  λ p. ground (arith, same_text?_sound g.run_id g.preallocated_run_id),
  λ p. ground arith,
  λ p. ground arith,
  λ p. ground arith,
)

pub check_links-eq-ok : (g : Generation) → Truths g → LinkFacts g → check_links g ≡ ok tt
unfolding check_links
check_links-eq-ok g t h = ground (arith, same_text?-eq g.run_id g.preallocated_run_id)

pub check_stage_lem : (g : Generation) → Truths g → check_stage g ≡ ok tt → StageFacts g
unfolding check_stage
check_stage_lem g t h = ((λ p. ground arith, λ p. ground arith), λ p. ground arith)

pub check_stage-eq-ok :
    (g : Generation) → SafeIds g → Truths g → StageFacts g → check_stage g ≡ ok tt
unfolding check_stage
check_stage-eq-ok g s t h = ground arith

pub check_stage_links_lem :
    (g : Generation) → Truths g → check_stage_links g ≡ ok tt → StageLinksOf g
unfolding check_stage_links
check_stage_links_lem g t h = ground arith

pub check_stage_links-eq-ok :
    (g : Generation) → Truths g → StageLinksOf g → check_stage_links g ≡ ok tt
unfolding check_stage_links
check_stage_links-eq-ok g t h = ground arith

pub check_notice_lem : (g : Generation) → check_notice g ≡ ok tt → NoticeFacts g
unfolding check_notice
check_notice_lem g h = (λ p. ground arith, ground arith)

pub check_notice-eq-ok : (g : Generation) → NoticeFacts g → check_notice g ≡ ok tt
unfolding check_notice
check_notice-eq-ok g h = ground arith

pub check_result_lem : (iso : Iso) (g : Generation) → check_result iso g ≡ ok tt → ResultFacts iso g
unfolding check_result
check_result_lem iso g h = ground arith

pub check_result-eq-ok :
    (iso : Iso) (g : Generation) → ResultFacts iso g → check_result iso g ≡ ok tt
unfolding check_result
check_result-eq-ok iso g h = ground arith

pub check_lifecycle_lem :
    (g : Generation)
    → check_lifecycle g ≡ ok tt
    → Outcome g.state g.terminal_classification g.retry_class g.not_before
unfolding check_lifecycle
check_lifecycle_lem g h = ground arith

pub check_lifecycle-eq-ok :
    (g : Generation)
    → Outcome g.state g.terminal_classification g.retry_class g.not_before
    → check_lifecycle g ≡ ok tt
unfolding check_lifecycle
check_lifecycle-eq-ok g h = ground arith

pub validate-Passed :
    (iso : Iso) (n : ℕ) (g r : Generation)
    → validate_generation iso n g ≡ ok r
    → Passed iso n g × (r ≡ g)
unfolding validate_generation
validate-Passed iso n g r h = ground arith

pub Passed-validate :
    (iso : Iso) (n : ℕ) (g : Generation) → Passed iso n g → validate_generation iso n g ≡ ok g
unfolding validate_generation
Passed-validate iso n g h = ground arith
