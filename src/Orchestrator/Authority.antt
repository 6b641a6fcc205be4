-- ===== src/Orchestrator/Authority.antt =====
-- debbuilder/automation_orchestrator.py: the policies that allow a stage, a Recipe's turn, and the
-- delay of a retry.
pub mod Turns
use deb_builder.Base.{
  ℕ, ◌+◌, ◌-◌, ◌*◌, ◌^◌, ◌≤◌, ◌<◌, ◌≡◌, Bool, true, false, not, ◌&&◌, ◌||◌, min, Text, List, [],
  ◌∷◌, ◌++◌, codes, Option, none, some, leb, ltb, ◌==◌, ◌=t◌, text_less, is_some, if◌then◌else◌,
  arith,
}
use deb_builder.Ledger.Row.{
  Generation, Policy, Stage, manual, detect, test, build, build_validate, full, run_admission,
  validation_admission, validation, publication, is_final, is_retry_delayed, same_policy,
}
use deb_builder.Ledger.Document.{Entry, Document}
use deb_builder.Ledger.Store.{find_entry}
use deb_builder.Ledger.Store.Update.{row?}
use deb_builder.Orchestrator.Services.{Recipe, Automation}

abbrev pub policy_rank : Policy → ℕ
policy_rank manual = 0
policy_rank detect = 1
policy_rank test = 2
policy_rank build = 3
policy_rank build_validate = 4
policy_rank full = 5

abbrev pub max_validation_retries : ℕ
max_validation_retries = 2

abbrev pub max_publication_retries : ℕ
max_publication_retries = 3

abbrev pub min_retry_seconds : ℕ
min_retry_seconds = 60

abbrev pub max_retry_seconds : ℕ
max_retry_seconds = 15 * 60

-- `automation.get("policy") == policy`
abbrev has_policy : Option Policy → Policy → Bool
has_policy none p = false
has_policy (some q) p = same_policy q p

-- POLICY_RANK.get(current, 0)
abbrev rank_or_zero : Option Policy → ℕ
rank_or_zero none = 0
rank_or_zero (some q) = policy_rank q

abbrev initially : Text → Policy → Recipe → Option Automation → Bool
initially sha policy r none = false
initially sha policy r (some a) =
    r.active && a.enabled && has_policy a.policy policy && r.sha256 =t sha

unfoldable pub initial_authorized : Entry → Generation → Option Recipe → Bool
initial_authorized e g none = false
initial_authorized e g (some r) = initially e.recipe_sha256 g.desired_policy r r.automation

abbrev later : Policy → Recipe → Option Automation → Bool
later required r none = false
later required r (some a) =
    r.active && a.enabled && leb (policy_rank required) (rank_or_zero a.policy)

unfoldable pub downstream_authorized : Option Recipe → Policy → Bool
downstream_authorized none required = false
downstream_authorized (some r) required = later required r r.automation

-- The tuple (created_at, key, generation), and Python's `<` on such tuples.
abbrev pub Turn : Type 0
Turn = Text × Text × ℕ

unfoldable pub turn_less : Turn → Turn → Bool
turn_less (c, k, n) (c', k', n') =
    text_less c c' || (c =t c' && (text_less k k' || (k =t k' && ltb n n')))

abbrev pub same_turn : Turn → Turn → Bool
same_turn (c, k, n) (c', k', n') = c =t c' && k =t k' && n == n'

-- min(…) of a list that is not empty
unfoldable pub least : Turn → List Turn → Turn
least t [] = t
least t (u ∷ rest) = least (if turn_less u t then u else t) rest

-- The rows of an attempt that are neither terminal nor blocked.
unfoldable pub active_rows : Text → List Generation → List Turn
active_rows key [] = []
active_rows key (g ∷ rest) =
    let others = active_rows key rest in
    if is_final g.state then others else (g.created_at, key, g.generation) ∷ others

-- Those of the attempts of one Recipe, or of all.
unfoldable pub active_turns : (Entry → Bool) → List (Text × Entry) → List Turn
unfolding active_rows
active_turns wanted [] = []
active_turns wanted ((key, e) ∷ rest) =
    let others = active_turns wanted rest in
    if wanted e then active_rows key e.generations ++ others else others

abbrev pub of_recipe : Text → Entry → Bool
of_recipe id e = e.recipe_id =t id

unfoldable pub is_least : List Turn → Turn → Bool
is_least [] t = true
is_least (u ∷ rest) t = same_turn (least u rest) t

unfoldable pub is_recipe_turn : Document → Text → ℕ → Generation → Text → Bool
unfolding is_least
is_recipe_turn d key n g recipe_id =
    is_least (active_turns (of_recipe recipe_id) d.attempts) (g.created_at, key, n)

-- `seconds` in `_delay`
unfoldable pub retry_seconds : ℕ → ℕ
retry_seconds count = min max_retry_seconds (min_retry_seconds * 2 ^ (count - 1))

-- The counter that `_schedule_retry` reads.
unfoldable pub retries : Generation → ℕ
retries g = elim g.stage [
  | run_admission ↦ g.run_retry_count
  | validation_admission ↦ g.validation_retry_count
  | validation ↦ g.validation_retry_count
  | publication ↦ g.publication_retry_count
  | _ ↦ g.retry_count
]
