-- ===== src/Scheduler/Outcome.antt =====
-- debbuilder/automation_scheduler.py: `_record_outcome`, what a detection result does to the retry
-- state. The observation cache and the log lines are left out.
pub mod Counting
use deb_builder.Base.{
  ℕ, zero, suc, ◌+◌, Bool, true, false, not, ◌&&◌, ◌||◌, Text, List, [], ◌∷◌, codes, Option, none,
  some, min, take, ◌==◌, ◌=t◌, truthy, if◌then◌else◌, is_some,
}
use deb_builder.Ledger.Document.{is_sha256}
use deb_builder.Scheduler.Delay.{max_retry_count, retry_delay}
use deb_builder.Scheduler.RetryStore.{
  Row, RetryClass, transient, source_absent, operator, is_operator, same_class,
}

-- The fields of a detection result that are read; a text that is null is empty.
pub record Detection : Type 0 where
  pub recipe_id : Text
  pub recipe_sha256 : Text
  pub classification : Text
  pub diagnostic : Text
  pub has_identity : Bool
  pub ineligible : Bool
  pub retry_after : Option ℕ
  pub rate_limit_reset : Option ℕ

pub data Effect : Type 0 where
  nothing : Effect
  clear : Text → Effect
  record_retry : Row → Effect

-- TRANSIENT_CLASSIFICATIONS and SOURCE_ABSENT_CLASSIFICATIONS
unfoldable pub retry_class_of : Text → RetryClass
retry_class_of c =
    if c =t codes "upstream_unavailable" || c =t codes "rate_limited"
    then transient
    else if c =t codes "source_not_found"
    then source_absent
    else operator

abbrev pub zero_sha : Text
zero_sha = codes "0000000000000000000000000000000000000000000000000000000000000000"

-- A malformed digest is replaced by zeros.
unfoldable pub known_sha : Text → Text
known_sha sha = if is_sha256 sha then sha else zero_sha

-- `prior_count`
unfoldable pub prior_count : Option Row → Text → RetryClass → ℕ
prior_count none sha c = 0
prior_count (some previous) sha c =
    if previous.recipe_sha256 =t sha && same_class previous.retry_class c
    then previous.retry_count
    else 0

unfoldable pub next_count : Option Row → Text → RetryClass → ℕ
unfolding prior_count
next_count previous sha c = min max_retry_count (prior_count previous sha c + 1)

-- `str(value or default)[:80]`
abbrev pub text_or : Text → Text → Text
text_or default t = take 80 (if truthy t then t else default)

-- The clock: seconds, the jitter's hash, and the ISO text of an instant.
pub record Clock : Type 0 where
  pub now : ℕ
  pub hash : Text → ℕ → ℕ
  pub iso_at : ℕ → Text

unfoldable pub retry_row : Clock → Detection → Option Row → Row
retry_row clock d previous =
    let sha = known_sha d.recipe_sha256 in
    let c = retry_class_of d.classification in
    let count = next_count previous sha c in
    let delay =
      retry_delay clock.hash clock.now d.recipe_id count d.retry_after d.rate_limit_reset in
    record {
      recipe_id = d.recipe_id;
      recipe_sha256 = sha;
      retry_class = c;
      classification = text_or (codes "upstream_unavailable") d.classification;
      diagnostic = text_or (codes "automation_detection_failed") d.diagnostic;
      retry_count = count;
      not_before = if is_operator c then none else some (clock.iso_at (clock.now + delay));
      updated_at = clock.iso_at clock.now;
    }

-- `_record_outcome(result, previous)`
unfoldable pub record_outcome : Clock → Detection → Option Row → Effect
record_outcome clock d previous =
    if d.classification =t codes "observed"
    then nothing
    else if d.has_identity
    then clear d.recipe_id
    else if d.ineligible
    then nothing
    else if d.classification =t codes "shutting_down"
        || d.diagnostic =t codes "automation_shutting_down"
    then nothing
    else record_retry (retry_row clock d previous)
