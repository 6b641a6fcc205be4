-- ===== src/Orchestrator/Advancing.antt =====
-- debbuilder/automation_orchestrator.py: `advance` and what calls it. The lock of a generation, which
-- lets a second `advance` of it return at once, is left out: the calls here follow one another.
use deb_builder.Base.{
  ℕ, ◌-◌, Bool, true, false, not, ◌&&◌, ◌||◌, min, Text, List, [], ◌∷◌, ◌++◌, Option, none, some,
  Result, ok, err, truthy, truthy?, get_elem?, if◌then◌else◌,
}
use deb_builder.Ledger.Row.{
  Generation, validation, validation_admission, publication, is_final, is_retry_delayed, same_stage,
}
use deb_builder.Ledger.Document.{Entry, Document}
use deb_builder.Ledger.Store.{Host, find_entry}
use deb_builder.Orchestrator.Services.{
  Services, Raised, Run, Claim, admission_error, is_value_error, is_ledger_error, other_error,
}
use deb_builder.Orchestrator.Effects.{
  Action, give, throw, reads, asks, caught, when, ◌>>=◌, ◌>>◌, read_ledger,
}
use deb_builder.Orchestrator.Authority.{Turn, turn_less, active_turns, is_recipe_turn}
use deb_builder.Orchestrator.Records.{retry_due, time_of}
use deb_builder.Orchestrator.Validating.{admit_validation, handle_validation}
use deb_builder.Orchestrator.Admitting.{admit_run, handle_run}

-- sorted(…)
unfoldable pub insert_turn : Turn → List Turn → List Turn
insert_turn t [] = t ∷ []
insert_turn t (u ∷ rest) =
    let later = insert_turn t rest in if turn_less u t then u ∷ later else t ∷ u ∷ rest

unfoldable pub sort_turns : List Turn → List Turn
unfolding insert_turn
sort_turns [] = []
sort_turns (t ∷ rest) = insert_turn t (sort_turns rest)

-- The times that delayed rows wait for.
delays_of : (Text → Option ℕ) → ℕ → List Generation → List (Option ℕ)
delays_of timestamp now [] = []
delays_of timestamp now (g ∷ rest) =
    let others = delays_of timestamp now rest in
    if is_retry_delayed g.state && truthy? g.not_before
    then elim (time_of timestamp g.not_before) [ none ↦ none | some due ↦ some (due - now) ]
      ∷ others
    else others

all_delays : (Text → Option ℕ) → ℕ → List (Text × Entry) → List (Option ℕ)
unfolding delays_of
all_delays timestamp now [] = []
all_delays timestamp now ((key, e) ∷ rest) =
    delays_of timestamp now e.generations ++ all_delays timestamp now rest

-- min(delays), where a time that cannot be read is a ValueError
shortest : List (Option ℕ) → Result Raised (Option ℕ)
shortest [] = ok none
shortest (none ∷ rest) = err (other_error none)
shortest (some d ∷ rest) = elim (shortest rest) [
  | err x ↦ err x
  | ok none ↦ ok (some d)
  | ok (some d') ↦ ok (some (min d d'))
]

-- `metadata["attempt_key"], metadata["generation"]` of a Run
abbrev claimed_by : Option Run → Option (Text × ℕ)
claimed_by none = none
claimed_by (some r) = elim r.automation [ none ↦ none | some (key, n, i) ↦ some (key, n) ]

abbrev claim_place : Option Claim → Option (Text × ℕ)
claim_place none = none
claim_place (some c) = if truthy c.attempt_key then some (c.attempt_key, c.generation) else none

module _ {W : Type 0} (h : Host) (v : Services W) (depth : ℕ) where
  -- What is done for a row whose turn it is, by the stage that it has reached.
  unfoldable pub dispatch : Entry → Generation → Action W (Unit {0})
  dispatch e g =
      if not (truthy? g.run_id)
      then (do
        recipe ← reads (v.load_recipe e.recipe_id)
        admit_run h v (handle_run h v depth) e g recipe false)
      else if same_stage g.stage validation_admission || same_stage g.stage validation
      then (if is_retry_delayed g.state || same_stage g.stage validation_admission
          then admit_validation h v (handle_validation h v depth) e g
          else handle_validation h v depth e g)
      else if same_stage g.stage publication
      then handle_validation h v depth e g
      else handle_run h v depth e g

  -- A row that has ended, whose retry is not due, or whose Recipe has an earlier one, is left alone.
  unfoldable pub advance_found : Document → Text → ℕ → Entry → Generation → Action W (Unit {0})
  advance_found d key n e g =
      when (not (is_final g.state)) (do
        due ← retry_due h v g
        when (due && is_recipe_turn d key n g e.recipe_id) (dispatch e g))

  unfoldable pub advance_entry : Document → Text → ℕ → Option Entry → Action W (Unit {0})
  advance_entry d key n none = give tt
  advance_entry d key n (some e) = elim (get_elem? e.generations n) [
    | none ↦ give tt
    | some g ↦ advance_found d key n e g
  ]

  unfoldable pub advance_raising : Text → ℕ → Action W (Unit {0})
  unfolding advance_entry
  advance_raising key n = do
    document ← read_ledger h v
    advance_entry document key n (find_entry key document.attempts)

  unfoldable pub settle_end : Result Raised (Unit {0}) → Action W (Unit {0})
  settle_end (ok _) = give tt
  settle_end (err x) = if is_ledger_error x then give tt else throw x

  -- An error of the ledger is logged; anything else goes on to the caller.
  unfoldable pub advance : Text → ℕ → Action W (Unit {0})
  advance key n = do ended ← caught (advance_raising key n); settle_end ended

  unfoldable pub advance_each : List Turn → Action W (Unit {0})
  advance_each [] = give tt
  advance_each ((created, key, n) ∷ rest) = advance key n >> advance_each rest

  unfoldable pub advance_all : Action W (Unit {0})
  advance_all = do
    document ← read_ledger h v
    advance_each (sort_turns (active_turns (λ _. true) document.attempts))

  -- on_detection, with a key and a generation
  unfoldable pub on_detection : Text → ℕ → Action W (Unit {0})
  on_detection key n = advance key n

  unfoldable pub advance_place : Option (Text × ℕ) → Action W (Unit {0})
  advance_place none = give tt
  advance_place (some (key, n)) = advance key n >> advance_all

  unfoldable pub on_run_terminal : Text → Action W (Unit {0})
  unfolding advance_place
  on_run_terminal run_id = do stored ← asks (v.load_run run_id); advance_place (claimed_by stored)

  is_unreadable : Raised → Bool
  is_unreadable (admission_error code) = true
  is_unreadable x = is_value_error x

  unfoldable pub on_validation_terminal : Text → Text → Action W (Unit {0})
  unfolding advance_place is_unreadable
  on_validation_terminal run_id attempt_id = do
    metadata ← caught (asks (v.load_claim run_id attempt_id))
    elim metadata [
      | err x ↦ if is_unreadable x then give tt else throw x
      | ok claim ↦ advance_place (claim_place claim)
    ]

  -- next_retry_delay, in microseconds
  unfoldable pub next_retry_delay : Action W (Option ℕ)
  unfolding all_delays shortest
  next_retry_delay = do
    document ← read_ledger h v
    now ← reads v.wall_clock
    elim (shortest (all_delays v.timestamp now document.attempts)) [
      | err x ↦ throw x
      | ok d ↦ give d
    ]
