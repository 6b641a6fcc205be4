-- ===== src/Scheduler/RetryStore/Laws.antt =====
-- debbuilder/automation_scheduler.py: what the retry state holds after it was written.
use deb_builder.Base.{
  ◌≡◌, refl, sym, ap, subst, ◌∙◌, ◌⊎◌, inl, inr, Bool, true, false, Text, [], ◌∷◌, Option, none,
  some, arith, ok, ◌=t◌, =t_refl, Bool-cases, Option-cases, Result-cases,
}
use deb_builder.Base.Dict.{
  Dict, lookup, insert, remove, lookup-insert_self, lookup-insert_ne, lookup-remove_self,
  lookup-remove_ne,
}
use deb_builder.Scheduler.RetryStore.{
  RetryClass, transient, source_absent, operator, Row, check_rows, validate, save, same_row,
  same_class, same_time, recorded, record_row, clear_row,
}

same_row_refl : (r : Row) → same_row r r ≡ true
unfolding same_row
same_row_refl r = ground (
  arith,
  =t_refl r.recipe_id,
  =t_refl r.recipe_sha256,
  =t_refl r.classification,
  =t_refl r.diagnostic,
  same_class_refl r.retry_class,
  same_time_refl r.not_before,
)
  where
    same_class_refl : (c : RetryClass) → same_class c c ≡ true
    same_class_refl transient = refl
    same_class_refl source_absent = refl
    same_class_refl operator = refl

    same_time_refl : (t : Option Text) → same_time t t ≡ true
    same_time_refl none = refl
    same_time_refl (some t) = =t_refl t

recorded_row :
    (r : Row) (disk : Dict Row)
    → recorded r disk ≡ true
    → (x : Row) × (lookup r.recipe_id disk ≡ some x) × (same_row x r ≡ true)
unfolding recorded
recorded_row r disk old = elim (Option-cases (lookup r.recipe_id disk)) [
  | inl absent ↦ absurd (ground (arith, absent))
  | inr (x, found) ↦ (x, found, ground (arith, found))
]

module _ (iso : Text → Option Bool) (fits : Dict Row → Bool) where
  validate_same : (rows r : Dict Row) → validate iso fits rows ≡ ok r → r ≡ rows
  unfolding validate
  validate_same rows r h = elim (Result-cases (check_rows iso fits rows)) [
    | inl (u, fine) ↦ ground (arith, fine)
    | inr (e, bad) ↦ ground (arith, bad)
  ]

  validate-valid : (rows r : Dict Row) → validate iso fits rows ≡ ok r → validate iso fits r ≡ ok r
  validate-valid rows r h = subst (λ x. validate iso fits x ≡ ok r) (sym (validate_same rows r h)) h

  save-valid :
      (rows r : Dict Row) → save iso fits rows ≡ ok r → (validate iso fits r ≡ ok r) × (r ≡ rows)
  unfolding save
  save-valid rows r h = elim (Result-cases (validate iso fits rows)) [
    | inl (c, valid) ↦
        let same = validate_same rows c valid in
        let whole : r ≡ c = ground (arith, valid) in
        (rw whole (validate-valid rows c valid), whole ∙ same)
    | inr (e, failed) ↦ absurd (ground (arith, failed))
  ]

  -- What `record` leaves: the state that was there, if it has the row but for its time, or the state
  -- with the row put in.
  record_row-cases :
      (r : Row) (disk after : Dict Row)
      → record_row iso fits r disk ≡ ok after
      → (validate iso fits after ≡ ok after)
        × (((recorded r disk ≡ true) × (after ≡ disk)) ⊎ (after ≡ insert r.recipe_id r disk))
  unfolding record_row
  record_row-cases r disk after h =
      elim (Result-cases (validate iso fits ((r.recipe_id, r) ∷ []))) [
        | inr (e, bad) ↦ absurd (ground (arith, bad))
        | inl (x, good) ↦ elim (Result-cases (validate iso fits disk)) [
          | inr (e, bad) ↦ absurd (ground (arith, good, bad))
          | inl (rows, valid) ↦
              let same = validate_same disk rows valid in
              elim (Bool-cases (recorded r rows)) [
                | inl old ↦
                    let kept : after ≡ rows = ground (arith, good, valid, old) in
                    (rw kept (validate-valid disk rows valid), inl (rw same at old, kept ∙ same))
                | inr new ↦
                    let saved : save iso fits (insert r.recipe_id r rows) ≡ ok after =
                      ground (arith, good, valid, new) in
                    let (fine, put) = save-valid (insert r.recipe_id r rows) after saved in
                    (fine, inr (rw same at put))
              ]
        ]
      ]

  -- After `record` succeeds the state is valid, so it loads again; it holds the recorded row, up to
  -- the time of the update, and every other Recipe's row is as it was.
  pub record_row_lem :
      (r : Row) (disk after : Dict Row)
      → record_row iso fits r disk ≡ ok after
      → (validate iso fits after ≡ ok after)
        × ((x : Row) × (lookup r.recipe_id after ≡ some x) × (same_row x r ≡ true))
        × ((other : Text)
            → other =t r.recipe_id ≡ false
            → r.recipe_id =t other ≡ false
            → lookup other after ≡ lookup other disk)
  record_row_lem r disk after h =
      let (valid, left) = record_row-cases r disk after h in
      elim left [
        | inl (old, same) ↦ (valid, rw same (recorded_row r disk old), λ other ne ne'. rw same refl)
        | inr put ↦ (
          valid,
          (r, rw put (lookup-insert_self r.recipe_id r disk), same_row_refl r),
          λ other ne ne'. rw put (lookup-insert_ne r.recipe_id other r disk ne ne'),
        )
      ]

  -- After `clear` succeeds the state is valid, it has no row of the Recipe, and every other Recipe's
  -- row is as it was.
  pub clear_row_lem :
      (recipe_id : Text) (disk after : Dict Row)
      → clear_row iso fits recipe_id disk ≡ ok after
      → (validate iso fits after ≡ ok after)
        × (lookup recipe_id after ≡ none)
        × ((other : Text) → recipe_id =t other ≡ false → lookup other after ≡ lookup other disk)
  unfolding clear_row
  clear_row_lem recipe_id disk after h = elim (Result-cases (validate iso fits disk)) [
    | inr (e, bad) ↦ absurd (ground (arith, bad))
    | inl (rows, valid) ↦
        let same = validate_same disk rows valid in
        elim (Option-cases (lookup recipe_id rows)) [
          | inl absent ↦
              let kept : after ≡ rows = ground (arith, valid, absent) in
              (
                rw kept (validate-valid disk rows valid),
                rw kept absent,
                λ other ne. rw (kept ∙ same) refl,
              )
          | inr (x, found) ↦
              let saved : save iso fits (remove recipe_id rows) ≡ ok after =
                ground (arith, valid, found) in
              let (fine, put) = save-valid (remove recipe_id rows) after saved in
              (
                fine,
                rw put (lookup-remove_self recipe_id rows),
                λ other ne. rw put (
                    lookup-remove_ne recipe_id other rows ne
                    ∙ ap (λ (d : Dict Row). lookup other d) same),
              )
        ]
  ]
