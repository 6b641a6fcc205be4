-- ===== src/Scheduler/Outcome/Counting.antt =====
-- debbuilder/automation_scheduler.py: the rows that `_record_outcome` writes.
use deb_builder.Base.{
  ℕ, zero, suc, ◌+◌, ◌≤◌, ◌≡◌, refl, sym, ap, subst, ◌⊎◌, inl, inr, Bool, true, false, Text, [],
  ◌∷◌, Option, none, some, arith, codes, ok, ◌=t◌, =t_refl, Bool-cases, length, take, min,
}
use deb_builder.Ledger.Document.{is_sha256}
use deb_builder.Identity.Normalize.{is_recipe_id}
use deb_builder.Scheduler.Delay.{
  max_retry_count, min_backoff_seconds, max_backoff_seconds, retry_delay, retry_delay_bounds,
}
use deb_builder.Scheduler.RetryStore.{
  Row, RetryClass, transient, source_absent, operator, is_operator, check_row, is_stable_code,
  is_timestamp, same_class,
}
use deb_builder.Scheduler.Outcome.{
  Detection, retry_class_of, known_sha, next_count, text_or, Clock, retry_row,
}

same_class_refl : (c : RetryClass) → same_class c c ≡ true
unfolding same_class
same_class_refl transient = refl
same_class_refl source_absent = refl
same_class_refl operator = refl

-- The count of a written row is from 1 to 8: one more than that of a previous row of the same
-- Recipe revision and retry class, as far as 8, and 1 without such a row.
pub next_count_lem :
    (previous : Option Row) (sha : Text) (c : RetryClass)
    → (1 ≤ next_count previous sha c)
      × (next_count previous sha c ≤ max_retry_count)
      × ((r : Row)
          → previous ≡ some r
          → r.recipe_sha256 ≡ sha
          → r.retry_class ≡ c
          → next_count previous sha c ≡ min max_retry_count (r.retry_count + 1))
unfolding next_count
next_count_lem none sha c = (ground arith, ground arith, λ r e. cc)
next_count_lem (some p) sha c = (
  ground arith,
  ground arith,
  λ r e same kind.
      let here : p ≡ r = ground (arith, e) in
      rw here (ground (arith, same, kind, =t_refl sha, same_class_refl c, ap (λ t. t =t sha) same)),
)

take_short : (n : ℕ) (t : Text) → length t ≤ n → take n t ≡ t
take_short zero [] h = refl
take_short zero (c ∷ t) h = absurd (omega arith)
take_short (suc n) [] h = refl
take_short (suc n) (c ∷ t) h = ap (λ (r : Text). c ∷ r) (take_short n t (omega arith))

-- A text that is empty or a stable code becomes a stable code.
text_or-stable :
    (default t : Text)
    → is_stable_code (take 80 default) ≡ true
    → (t ≡ []) ⊎ (is_stable_code t ≡ true)
    → is_stable_code (text_or default t) ≡ true
text_or-stable default [] d h = d
text_or-stable default (c ∷ t) d (inl e) = cc
text_or-stable default (c ∷ t) d (inr s) =
    subst (λ x. is_stable_code x ≡ true) (sym (take_short 80 (c ∷ t) (ground arith))) s

known_sha-is_sha256 : (sha : Text) → is_sha256 (known_sha sha) ≡ true
unfolding known_sha
known_sha-is_sha256 sha = elim (Bool-cases (is_sha256 sha)) [
  | inl good ↦ rw good good
  | inr bad ↦ rw bad refl
]

abbrev pub IsCode : Text → Type 0
IsCode t = (t ≡ []) ⊎ (is_stable_code t ≡ true)

-- When the store's test of a row passes.
check_row-eq-ok :
    (iso : Text → Option Bool) (key : Text) (r : Row)
    → is_recipe_id key ≡ true
    → r.recipe_id ≡ key
    → is_sha256 r.recipe_sha256 ≡ true
    → 1 ≤ r.retry_count
    → r.retry_count ≤ max_retry_count
    → is_stable_code r.classification ≡ true
    → is_stable_code r.diagnostic ≡ true
    → is_timestamp iso r.updated_at ≡ true
    → ((is_operator r.retry_class ≡ true) × (r.not_before ≡ none))
      ⊎ ((is_operator r.retry_class ≡ false)
          × ((t : Text) × (r.not_before ≡ some t) × (is_timestamp iso t ≡ true)))
    → check_row iso key r ≡ ok tt
unfolding check_row
check_row-eq-ok iso key r a b c d e f g u (inl (op, absent)) =
    ground (arith, =t_refl key, ap (λ t. t =t key) b)
check_row-eq-ok iso key r a b c d e f g u (inr (op, (t, later, proper))) =
    ground (arith, =t_refl key, ap (λ t. t =t key) b, op, later, proper)

abbrev pub DelayedAs : Clock → Detection → Option Row → Type 0
DelayedAs clock d previous =
    ((is_operator (retry_class_of d.classification) ≡ true)
      × ((retry_row clock d previous).not_before ≡ none))
    ⊎ ((is_operator (retry_class_of d.classification) ≡ false)
        × ((delay : ℕ) × ((retry_row clock d previous).not_before
              ≡ some (clock.iso_at (clock.now + delay)))
            × (min_backoff_seconds ≤ delay)
            × (delay ≤ max_backoff_seconds)))

retry_row-delayed :
    (clock : Clock) (d : Detection) (previous : Option Row) → DelayedAs clock d previous
unfolding retry_row
retry_row-delayed clock d previous =
    let count = next_count previous (known_sha d.recipe_sha256) (retry_class_of d.classification) in
    let delay =
      retry_delay clock.hash clock.now d.recipe_id count d.retry_after d.rate_limit_reset in
    let (least, most) =
      retry_delay_bounds clock.hash clock.now d.recipe_id count d.retry_after d.rate_limit_reset in
    elim (Bool-cases (is_operator (retry_class_of d.classification))) [
      | inl op ↦ inl (op, rw op refl)
      | inr no_op ↦ inr (no_op, (delay, rw no_op refl, least, most))
    ]

-- The row of a failure, for a proper Recipe ID, a classification and a diagnostic that are empty or
-- stable codes and a clock that writes proper timestamps: the retry store accepts it, and it is
-- delayed exactly when its class is not the operator's, and then by a minute at least and six hours
-- at most.
pub retry_row_lem :
    (iso : Text → Option Bool) (clock : Clock) (d : Detection) (previous : Option Row)
    → is_recipe_id d.recipe_id ≡ true
    → IsCode d.classification
    → IsCode d.diagnostic
    → ((t : ℕ) → is_timestamp iso (clock.iso_at t) ≡ true)
    → (check_row iso d.recipe_id (retry_row clock d previous) ≡ ok tt) × DelayedAs clock d previous
unfolding retry_row
retry_row_lem iso clock d previous id c g times =
    let sha = known_sha d.recipe_sha256 in
    let kind = retry_class_of d.classification in
    let counted = next_count_lem previous sha kind in
    let delayed = retry_row-delayed clock d previous in
    (
      check_row-eq-ok iso d.recipe_id (retry_row clock d previous) id refl
          (known_sha-is_sha256 d.recipe_sha256) counted.0 counted.1
          (text_or-stable (codes "upstream_unavailable") d.classification refl c)
          (text_or-stable (codes "automation_detection_failed") d.diagnostic refl g)
          (times clock.now)
          (elim delayed [
            | inl absent ↦ inl absent
            | inr (op, (delay, at, least, most)) ↦
                inr (op, (clock.iso_at (clock.now + delay), at, times (clock.now + delay)))
          ]),
      delayed,
    )
