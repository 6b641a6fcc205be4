-- ===== src/Tests/Passes.antt =====
-- The properties of the orchestrator, on a ledger of one claim and collaborators that answer alike.
use deb_builder.Base.{
  ℕ, ◌≤◌, ◌≡◌, ◌≢◌, ◌⊎◌, refl, inl, inr, true, false, Text, [], ◌∷◌, codes, Option, none, some,
  Result, ok, err, ◌=t◌, arith, zero, suc, ◌*◌, get_elem?, Bool-cases, subst,
}
use deb_builder.Base
use deb_builder.Ledger.Row.{Generation, build}
use deb_builder.Ledger.Store.{find_entry, unreadable}
use deb_builder.Ledger.Store.Update.{row?}
use deb_builder.Orchestrator.Services.{Services, Recipe, Run, Publication, Raised}
use deb_builder.Orchestrator.Effects.{System}
use deb_builder.PostBuild.{Callbacks, Settings, Report, run_post_build}
use deb_builder.PostBuild.Order.{other, IsProven, run_post_build_lem}
use deb_builder.Orchestrator.Authority.{
  is_recipe_turn, is_least, active_turns, active_rows, of_recipe, least,
}
use deb_builder.Orchestrator.Authority.Turns.{IsOne, NoneBefore, is_recipe_turn_lem}
use deb_builder.Orchestrator.Advancing.{advance, advance_all}
use deb_builder.Orchestrator.Logic.Advancing.{IsWithin}
use deb_builder.Orchestrator.Logic.Passes.{Kept, advance_all_lem, advance-others}
use deb_builder.Tests.Data.{host, ledger, first, tool_key, noon, one, some_hex, ledgers_load}

abbrev recipe : Recipe
recipe = record {
  active = true;
  automation = some (record { enabled = true; policy = some build });
  sha256 = some_hex;
}

abbrev built : Run
built = record {
  id = codes "run-1";
  recipe_id = codes "tool";
  mode = codes "build";
  status = codes "success";
  error_code = [];
  automation = none;
  manual_source_provenance = none;
  publications = [];
  inspected_package = codes "tool";
  inspected_version = codes "1.0";
  package_name = [];
  debian_version = [];
}

abbrev printed : Publication
printed = record { id = codes "p1"; status = codes "success"; error_code = [] }

-- The state of the collaborators counts the calls that change something.
abbrev pub collaborators : Services ℕ
collaborators = record {
  utc_now = λ w. (one, w);
  wall_clock = λ w. (w, w);
  timestamp = λ t. some 0;
  iso_text = λ t. one;
  allocate_run_id = λ w. (codes "run-1", w);
  admission_open = λ w. (true, w);
  enter_lease = λ w. (ok tt, w);
  leave_lease = λ w. w;
  load_recipe = λ id w. (some recipe, w);
  load_snapshot = λ id w. (some recipe, w);
  load_run = λ id w. (ok (some built), w);
  list_runs = λ w. (ok [], w);
  bound_run = λ id w. (unreadable, w);
  run_dir_exists = λ id w. (false, w);
  discard_incomplete_creation = λ id w. (ok true, w);
  list_attempts = λ id w. (ok [], w);
  load_claim = λ id attempt w. (ok none, w);
  load_attempt = λ id attempt w. (ok (record { status = codes "success"; error_code = [] }), w);
  failure_phase = λ id attempt w. (ok (codes "preparation"), w);
  cancel_publication_intent = λ id attempt w. (ok tt, w);
  complete_publication_intent = λ id attempt w. (ok tt, w);
  has_validation_manager = λ w. (true, w);
  admit = λ id publish claim w. (ok (codes "v1"), suc w);
  publish = λ id confirm w. (ok printed, suc w);
  is_proof = λ p r. true;
  notify_completion = λ notice w. (ok tt, suc w);
  create = λ admission w. (ok (codes "run-1"), suc w);
  submit = λ id w. (ok tt, suc w);
}

abbrev pub start : System ℕ
start = record { disk = ledger (first ∷ []); world = 0 }

in_first : (n : ℕ) (g : Generation) → get_elem? (first ∷ []) n ≡ some g → IsWithin g
in_first zero g is = let same : first ≡ g = cc in subst (λ x. IsWithin x) same tt
in_first (suc n) g is = cc

-- The only row of the ledger is `first`.
only_first : (key : Text) (n : ℕ) (g : Generation) → row? key n start.disk ≡ some g → IsWithin g
unfolding row? find_entry
only_first key n g is = elim (Bool-cases (tool_key =t key)) [
  | inl b ↦ in_first n g (rw b at is)
  | inr b ↦ let no : none ≡ some g = rw b at is in absurd (cc)
]

advance_all_lem_example :
    Kept host collaborators 3 start.disk (advance_all host collaborators 3 start).1.disk
advance_all_lem_example = advance_all_lem host collaborators 3 start ledgers_load.0 only_first

advance-others_example :
    row? tool_key 1 (advance host collaborators 3 tool_key 0 start).1.disk
    ≡ row? tool_key 1 start.disk
advance-others_example =
    advance-others host collaborators 3 tool_key 0 start tool_key 1 ledgers_load.0 only_first
      (inr (λ e. omega arith))

turns : active_turns (of_recipe (codes "tool")) start.disk.attempts ≡ (noon, tool_key, 0) ∷ []
unfolding active_turns active_rows Base.◌=t◌
turns = refl

its_turn : is_recipe_turn start.disk tool_key 0 first (codes "tool") ≡ true
unfolding is_recipe_turn is_least least active_turns active_rows Base.◌=t◌
its_turn = refl

is_recipe_turn_lem_example :
    IsOne (first.created_at, tool_key, 0) ((noon, tool_key, 0) ∷ [])
    × NoneBefore (first.created_at, tool_key, 0) ((noon, tool_key, 0) ∷ [])
    × ((key : Text) (n : ℕ) (g : Generation)
        → is_recipe_turn start.disk key n g (codes "tool") ≡ true
        → (key ≡ tool_key) × (n ≡ 0))
is_recipe_turn_lem_example =
    is_recipe_turn_lem start.disk (codes "tool") tool_key 0 first (noon, tool_key, 0) [] turns
      its_turn

abbrev callbacks : Callbacks ℕ
callbacks = record {
  load = λ id w.
      (ok (some (record { run = built; artifact_path = codes "a.deb"; is_pruned = false })), w);
  validate = λ id w. (ok (record { status = codes "success" }), suc w);
  publish = λ id confirm w. (ok (record { status = codes "success" }), suc w);
}

abbrev both : Settings
both = record { validates = true; publishes = true }

-- A Publication that would not be counted.
abbrev silent : Text → Text → ℕ → Result Raised Report × ℕ
silent id confirm w = (ok (record { status = codes "failed" }), w)

run_post_build_lem_example :
    (run_post_build (other callbacks silent (codes "run-1") both) (codes "run-1") false both start
      ≡ run_post_build callbacks (codes "run-1") false both start)
    ⊎ ((false ≡ false)
        × (both.validates ≡ true)
        × (both.publishes ≡ true)
        × IsProven callbacks silent (codes "run-1") both 0)
run_post_build_lem_example = run_post_build_lem callbacks silent (codes "run-1") both false start
