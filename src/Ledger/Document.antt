-- ===== src/Ledger/Document.antt =====
-- debbuilder/automation_ledger.py: the whole ledger document and `AutomationLedger._validate`.
use deb_builder.Base.{
  ℕ, suc, Bool, true, false, not, ◌&&◌, ◌||◌, Text, List, [], ◌∷◌, codes, Option, none, some,
  length, drop, all, any, ltb, min, max, ◌==◌, ◌=t◌, is_hex, Result, ok, err, ◌>>=◌, ◌>>◌, refuse,
  starts_with, if◌then◌else◌,
}
use deb_builder.Base.Json.{object}
use deb_builder.Platform.{Platform}
use deb_builder.Identity.Model.{Identity, tracking_name, source_name, payload_name}
use deb_builder.Identity.Check.{is_complete, to_fields}
use deb_builder.Identity.Normalize.{normalize, attempt_key, is_recipe_id}
use deb_builder.Identity
use deb_builder.Ledger.Row.{
  Error, ledger_invalid, ledger_bounds_exceeded, identity_refused, Generation, max_generations,
}
use deb_builder.Ledger.Validate.{validate_generation}

pub record Entry : Type 0 where
  pub key : Text
  pub recipe_id : Text
  pub recipe_sha256 : Text
  pub upstream_identity : Identity
  pub generations : List Generation

-- document["attempts"], in the dictionary's order
pub record Document : Type 0 where
  pub attempts : List (Text × Entry)

abbrev pub empty_document : Document
empty_document = record { attempts = [] }

-- The bounds of one `AutomationLedger`, which its constructor clamps.
pub record Limits : Type 0 where
  pub max_attempts : ℕ
  pub max_attempts_per_recipe : ℕ

abbrev pub max_recipes : ℕ
max_recipes = 256

unfoldable pub limits : ℕ → ℕ → Limits
limits attempts per_recipe = record {
  max_attempts = min (max 1 attempts) 2048;
  max_attempts_per_recipe = min (max 1 per_recipe) 128;
}

-- An error of `automation_identity` passes through the ledger.
abbrev pub lift : {A : Type 0} → Result Identity.Model.Error A → Result Error A
lift (ok a) = ok a
lift (err e) = err (identity_refused e)

-- re.fullmatch("automation-v1-[0-9a-f]{64}", key)
unfoldable pub is_attempt_key : Text → Bool
is_attempt_key t =
    starts_with t (codes "automation-v1-") && length t == 78 && all is_hex (drop 14 t)

abbrev pub is_sha256 : Text → Bool
is_sha256 t = length t == 64 && all is_hex t

unfoldable pub same_size : Option ℕ → Option ℕ → Bool
same_size none none = true
same_size (some a) (some b) = a == b
same_size _ _ = false

-- Equality of two normalized dictionaries.
unfoldable pub same_identity : Identity → Identity → Bool
same_identity a b =
    a.repository =t b.repository
    && tracking_name a.tracking =t tracking_name b.tracking
    && source_name a.source_type =t source_name b.source_type
    && payload_name a.payload_kind =t payload_name b.payload_kind
    && a.requested_ref =t b.requested_ref
    && a.release_id =t b.release_id
    && a.asset_id =t b.asset_id
    && a.commit_sha =t b.commit_sha
    && a.ref_object_sha =t b.ref_object_sha
    && a.resolved_ref =t b.resolved_ref
    && a.resolved_version =t b.resolved_version
    && a.content_sha256 =t b.content_sha256
    && a.asset_name =t b.asset_name
    && same_size a.expected_size b.expected_size
    && a.source_archive_format =t b.source_archive_format
    && a.expected_package =t b.expected_package
    && a.expected_architecture =t b.expected_architecture

-- How often a Recipe was met.
unfoldable pub count : Text → List Text → ℕ
count t [] = 0
count t (s ∷ rest) = let n = count t rest in if s =t t then suc n else n

-- The number of different Recipes among those that were met.
unfoldable pub distinct : List Text → ℕ
distinct [] = 0
distinct (t ∷ rest) = let n = distinct rest in if any (λ s. s =t t) rest then n else suc n

module _ (p : Platform) (bounds : Limits) where
  -- The generations at positions `index` and up.
  unfoldable pub validate_generations : ℕ → List Generation → Result Error (Unit {0})
  validate_generations index [] = ok tt
  validate_generations index (g ∷ rest) = do
    _ ← validate_generation p.iso index g
    validate_generations (suc index) rest

  -- The tests on one attempt, without those on its generations.
  unfoldable pub validate_entry : Text → Entry → Result Error (Unit {0})
  validate_entry key e = do
    refuse (not (is_attempt_key key)) ledger_invalid
    refuse (not (e.key =t key)) ledger_invalid
    refuse (not (is_recipe_id e.recipe_id)) ledger_invalid
    refuse (not (is_sha256 e.recipe_sha256)) ledger_invalid
    i ← lift (normalize p (object (to_fields e.upstream_identity)))
    refuse (not (same_identity e.upstream_identity i)) ledger_invalid
    refuse (not (is_complete i)) ledger_invalid
    k ← lift (attempt_key p e.recipe_id (object (to_fields i)) e.recipe_sha256)
    refuse (not (k =t key)) ledger_invalid

  -- The loop over the attempts; `met` are the Recipes of those before.
  unfoldable pub validate_entries : List Text → List (Text × Entry) → Result Error (List Text)
  validate_entries met [] = ok met
  validate_entries met ((key, e) ∷ rest) = do
    validate_entry key e
    refuse (length e.generations == 0 || ltb max_generations (length e.generations))
        ledger_bounds_exceeded
    refuse (ltb bounds.max_attempts_per_recipe (suc (count e.recipe_id met))) ledger_bounds_exceeded
    validate_generations 0 e.generations
    validate_entries (e.recipe_id ∷ met) rest

  -- _validate(document)
  unfoldable pub validate_document : Document → Result Error Document
  validate_document d = do
    refuse (ltb bounds.max_attempts (length d.attempts)) ledger_bounds_exceeded
    met ← validate_entries [] d.attempts
    refuse (ltb max_recipes (distinct met)) ledger_bounds_exceeded
    ok d
