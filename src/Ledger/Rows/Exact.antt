-- ===== src/Ledger/Rows/Exact.antt =====
-- debbuilder/automation_ledger.py: which calls of `finish` and `advance_lifecycle` the validation at
-- the write lets through.
use deb_builder.Base.{ℕ, ◌≡◌, refl, ◌≢◌, ◌↔◌, inl, inr, false, Text, Option, arith, ok, is_id_char}
use deb_builder.Ledger.Row.{Generation, Stage, Classification, is_final, stopped}
use deb_builder.Ledger.Validate.{Iso, validate_generation, is_attempt_char}
use deb_builder.Ledger.Validate.Table.{WellFormed, IsPresent, IsTimestamp, IsSafe, StageLinks}
use deb_builder.Ledger.Validate.Exact.{validate_generation-ok_iff}
use deb_builder.Ledger.Rows.{Change, row_of, finish_row, advance_row, Outcome, advanced}
use deb_builder.Ledger.Rows.Accepted.{
  OutcomeTexts, FinishArguments, finish-WellFormed, WellFormed-finish, advanced-WellFormed,
  WellFormed-advanced, new_validation, new_publication, present_truthy, advance_row-cases,
}

accepted :
    (iso : Iso) (n : ℕ) (g : Generation) → WellFormed iso n g → validate_generation iso n g ≡ ok g
accepted iso n g w = (validate_generation-ok_iff iso n g g).1 (w, refl)

well_formed :
    (iso : Iso) (n : ℕ) (g : Generation) → validate_generation iso n g ≡ ok g → WellFormed iso n g
well_formed iso n g v = ((validate_generation-ok_iff iso n g g).0 v).0

-- For a well-formed generation and a proper time, the row that `finish` writes is accepted exactly
-- when the outcome's counter and texts are in range and fit the classification: a transient failure
-- needs an active generation, the transient retry class and a time, a block needs operator retry and
-- no time, and any other classification no retry and no time.
pub finish_accepted :
    (iso : Iso) (n : ℕ) (now : Text) (c : Classification) (o : Outcome) (g : Generation)
    → WellFormed iso n g
    → IsTimestamp iso now
    → (validate_generation iso n (finish_row now c o g) ≡ ok (finish_row now c o g))
      ↔ (OutcomeTexts iso o × FinishArguments iso c o g)
finish_accepted iso n now c o g w t = (
  λ v.
      let facts =
        WellFormed-finish iso n now g w c o (well_formed iso n (finish_row now c o g) v) in
      (facts.0, facts.1),
  λ f. accepted iso n (finish_row now c o g) (finish-WellFormed iso n now g w c o t f.0 f.1),
)

-- The links that an accepted advance to a stage has.
abbrev pub AdvanceLinks : Stage → Option Text → Option Text → Generation → Type 0
AdvanceLinks stage val pub_id g =
    StageLinks stage g.preallocated_run_id g.run_id (new_validation val g)
      (new_publication pub_id g)
    × (IsPresent (new_publication pub_id g) → IsPresent (new_validation val g))

-- For a well-formed active generation, a stage that is not the terminal one and safe attempt ids, the row that a successful
-- `advance_lifecycle` returns is accepted exactly when the old and new links together are those of
-- the new stage and a Publication link comes with a Validation link.
pub advance_accepted :
    (iso : Iso) (n : ℕ) (now : Text) (stage : Stage) (val pub_id : Option Text) (g : Generation)
    (c : Change)
    → WellFormed iso n g
    → is_final g.state ≡ false
    → stage ≢ stopped
    → IsTimestamp iso now
    → IsSafe is_attempt_char 128 (new_validation val g)
    → IsSafe is_attempt_char 128 (new_publication pub_id g)
    → advance_row now stage val pub_id g ≡ ok c
    → (validate_generation iso n (row_of c) ≡ ok (row_of c)) ↔ AdvanceLinks stage val pub_id g
advance_accepted iso n now stage val pub_id g c w active ne t sv sp e =
    elim (advance_row-cases now stage val pub_id g e) [
      | inl found ↦ absurd (ground (arith, found.0))
      | inr found ↦ rw found.2 (
          let row = advanced now stage val pub_id g in
          (
            λ v.
                WellFormed-advanced iso n now stage val pub_id g w active (well_formed iso n row v),
            λ links. accepted iso n row (
                advanced-WellFormed iso n now stage val pub_id g w active t sv sp links.1 links.0 ne
                  (ground (arith, found.1, present_truthy is_id_char 128 g.run_id w.safe_run))),
          ))
    ]
