-- ===== src/Scheduler/Delay.antt =====
-- debbuilder/automation_scheduler.py: the backoff constants and `_retry_delay`. Times are whole
-- seconds, as `int(self.wall_clock())` reads them.
use native.Mathlib.Nat.{pow-suc}
use deb_builder.Base.{
  ℕ, suc, ◌+◌, ◌-◌, ◌*◌, ◌/◌, ◌%◌, ◌^◌, ◌≤◌, ◌<◌, ◌≡◌, min, max, Option, none, some, arith, Text,
}

abbrev pub max_retry_count : ℕ
max_retry_count = 8

abbrev pub min_backoff_seconds : ℕ
min_backoff_seconds = 60

abbrev pub max_backoff_seconds : ℕ
max_backoff_seconds = 6 * 60 * 60

-- `base`, before the jitter
unfoldable pub base_delay : ℕ → ℕ
base_delay count = min max_backoff_seconds (min_backoff_seconds * 2 ^ (count - 1))

-- `computed`; `stable` is the jitter that the hash of the Recipe and the count gives, below 16
unfoldable pub computed_delay : ℕ → ℕ → ℕ
unfolding base_delay
computed_delay stable count =
    min max_backoff_seconds (base_delay count + base_delay count * stable / 100)

-- max(hints) over what the hints add to `computed`
hinted : Option ℕ → ℕ → ℕ
hinted none d = d
hinted (some hint) d = max d hint

-- `reset - int(self.wall_clock())`, at least 0
until : ℕ → Option ℕ → Option ℕ
until now none = none
until now (some reset) = some (reset - now)

-- `_retry_delay`; a hint that is no int, or a negative `retry_after`, is `none`
unfoldable pub retry_delay : (Text → ℕ → ℕ) → ℕ → Text → ℕ → Option ℕ → Option ℕ → ℕ
unfolding hinted until computed_delay
retry_delay hash now recipe_id count retry_after reset = max min_backoff_seconds (
    min max_backoff_seconds (
      hinted (until now reset)
        (hinted retry_after (computed_delay (hash recipe_id count % 16) count))))

-- A retry never comes earlier than a minute or later than six hours.
pub retry_delay_bounds :
    (hash : Text → ℕ → ℕ) (now : ℕ) (recipe_id : Text) (count : ℕ) (retry_after reset : Option ℕ)
    → (min_backoff_seconds ≤ retry_delay hash now recipe_id count retry_after reset)
      × (retry_delay hash now recipe_id count retry_after reset ≤ max_backoff_seconds)
unfolding retry_delay
retry_delay_bounds hash now recipe_id count retry_after reset = (omega arith, omega arith)

-- The delay waits for a hint of the server, as far as six hours allow.
pub retry_delay_honours_hints :
    (hash : Text → ℕ → ℕ) (now : ℕ) (recipe_id : Text) (count after reset : ℕ)
    → (min max_backoff_seconds after
        ≤ retry_delay hash now recipe_id count (some after) (some reset))
      × (min max_backoff_seconds (reset - now)
          ≤ retry_delay hash now recipe_id count (some after) (some reset))
unfolding retry_delay
retry_delay_honours_hints hash now recipe_id count after reset = (omega arith, omega arith)

base_delay_doubles :
    (n : ℕ) → base_delay (suc (suc n)) ≡ min max_backoff_seconds (2 * base_delay (suc n))
unfolding base_delay
base_delay_doubles n =
    let one : suc (suc n) - 1 ≡ suc n = omega arith in
    let none_left : suc n - 1 ≡ n = omega arith in
    let power : 2 ^ suc n ≡ 2 * 2 ^ n = rw pow-suc (omega arith) in
    rw (one, none_left, power) (omega arith)

computed_le :
    (s t b c : ℕ)
    → s < 16
    → c ≡ min max_backoff_seconds (2 * b)
    → min max_backoff_seconds (b + b * s / 100) ≤ min max_backoff_seconds (c + c * t / 100)
computed_le s t b c h e = let jitter : b * s ≤ b * 15 = grind arith in omega arith

-- Whatever the jitter of the two counts, the computed delay does not fall as failures follow.
pub computed_delay_mono :
    (s t n : ℕ) → s < 16 → computed_delay s (suc n) ≤ computed_delay t (suc (suc n))
unfolding computed_delay
computed_delay_mono s t n h =
    computed_le s t (base_delay (suc n)) (base_delay (suc (suc n))) h (base_delay_doubles n)
