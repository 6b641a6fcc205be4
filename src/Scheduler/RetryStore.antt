-- ===== src/Scheduler/RetryStore.antt =====
-- debbuilder/automation_scheduler.py: `AutomationRetryStore`, the retry state of failures that have no
-- attempt identity. An operation takes the state on disk and returns the state that stands there
-- afterwards; an error leaves it as it was.
pub mod Laws
use deb_builder.Base.{
  ℕ, zero, suc, ◌+◌, Bool, true, false, not, ◌&&◌, ◌||◌, Text, List, [], ◌∷◌, Option, none, some,
  is_some, is_none, length, all, ltb, leb, ◌==◌, ◌=t◌, is_code_char, truthy, Result, ok, err, ◌>>=◌,
  ◌>>◌, refuse, if◌then◌else◌,
}
use deb_builder.Base.Dict.{Dict, lookup, insert, remove, has_key}
use deb_builder.Identity.Normalize.{is_recipe_id}
use deb_builder.Ledger.Document.{is_sha256}
use deb_builder.Scheduler.Delay.{max_retry_count}

pub data Error : Type 0 where
  state_malformed state_capacity : Error

pub data RetryClass : Type 0 where
  transient source_absent operator : RetryClass

pub record Row : Type 0 where
  pub recipe_id : Text
  pub recipe_sha256 : Text
  pub retry_class : RetryClass
  pub classification : Text
  pub diagnostic : Text
  pub retry_count : ℕ
  pub not_before : Option Text
  pub updated_at : Text

-- `automation_ledger.MAX_RECIPES`
abbrev pub max_recipes : ℕ
max_recipes = 256

abbrev pub is_operator : RetryClass → Bool
is_operator operator = true
is_operator _ = false

-- re.fullmatch("[a-z0-9_.-]{1,80}", text)
abbrev pub is_stable_code : Text → Bool
is_stable_code t = truthy t && not (ltb 80 (length t)) && all is_code_char t

-- `_timestamp`; `iso` is `datetime.fromisoformat`, `none` a ValueError, else whether a zone is given
unfoldable pub is_timestamp : (Text → Option Bool) → Text → Bool
is_timestamp iso t =
    truthy t && not (ltb 64 (length t)) && elim (iso t) [ none ↦ false | some zoned ↦ zoned ]

is_timestamp? : (Text → Option Bool) → Option Text → Bool
is_timestamp? iso none = true
is_timestamp? iso (some t) = is_timestamp iso t

invalid : Bool → Result Error (Unit {0})
invalid b = refuse b state_malformed

-- The tests of `_validate` on one row, in their order.
unfoldable pub check_row : (Text → Option Bool) → Text → Row → Result Error (Unit {0})
unfolding invalid is_timestamp?
check_row iso key r = do
  invalid (not (is_recipe_id key))
  invalid (not (r.recipe_id =t key))
  invalid (not (is_sha256 r.recipe_sha256))
  invalid (r.retry_count == 0 || ltb max_retry_count r.retry_count)
  invalid (not (is_stable_code r.classification))
  invalid (not (is_stable_code r.diagnostic))
  invalid (not (is_timestamp? iso r.not_before))
  invalid (not (is_operator r.retry_class) && is_none r.not_before)
  invalid (is_operator r.retry_class && is_some r.not_before)
  invalid (not (is_timestamp iso r.updated_at))

-- Equality of two rows but for `updated_at`.
unfoldable pub same_class : RetryClass → RetryClass → Bool
same_class transient transient = true
same_class source_absent source_absent = true
same_class operator operator = true
same_class _ _ = false

same_time : Option Text → Option Text → Bool
same_time none none = true
same_time (some s) (some t) = s =t t
same_time _ _ = false

unfoldable pub same_row : Row → Row → Bool
unfolding same_class same_time
same_row a b =
    a.recipe_id =t b.recipe_id
    && a.recipe_sha256 =t b.recipe_sha256
    && same_class a.retry_class b.retry_class
    && a.classification =t b.classification
    && a.diagnostic =t b.diagnostic
    && a.retry_count == b.retry_count
    && same_time a.not_before b.not_before

unfoldable pub recorded : Row → Dict Row → Bool
recorded r rows = elim (lookup r.recipe_id rows) [ none ↦ false | some old ↦ same_row old r ]

module _ (iso : Text → Option Bool) (fits : Dict Row → Bool) where
  unfoldable pub check_rows : Dict Row → Result Error (Unit {0})
  check_rows [] = ok tt
  check_rows ((key, r) ∷ rest) = do check_row iso key r; check_rows rest

  -- `_validate` of a document of the current schema
  unfoldable pub validate : Dict Row → Result Error (Dict Row)
  validate rows = do refuse (ltb max_recipes (length rows)) state_capacity; check_rows rows; ok rows

  -- `_save_unlocked`; `fits` is whether the serialized state is within MAX_STATE_BYTES
  unfoldable pub save : Dict Row → Result Error (Dict Row)
  save rows = do
    canonical ← validate rows
    refuse (not (fits canonical)) state_capacity
    ok canonical

  -- record
  unfoldable pub record_row : Row → Dict Row → Result Error (Dict Row)
  record_row r disk = do
    _ ← validate ((r.recipe_id, r) ∷ [])
    rows ← validate disk
    let full = not (has_key r.recipe_id rows) && leb max_recipes (length rows)
    let saved = save (insert r.recipe_id r rows)
    if recorded r rows then ok rows else (do refuse full state_capacity; saved)

  -- clear
  unfoldable pub clear_row : Text → Dict Row → Result Error (Dict Row)
  clear_row recipe_id disk = do
    rows ← validate disk
    if has_key recipe_id rows then save (remove recipe_id rows) else ok rows
