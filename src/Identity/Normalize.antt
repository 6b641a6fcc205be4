-- ===== src/Identity/Normalize.antt =====
-- debbuilder/automation_identity.py: `normalize_upstream_identity`, `automation_attempt_key` and the
-- checks that execution makes of an admitted identity.
use deb_builder.Base.{
  ℕ, Bool, true, false, not, ◌&&◌, ◌||◌, Text, List, [], ◌∷◌, ◌++◌, codes, Option, none, some,
  truthy, length, all, any, leb, ltb, ◌==◌, ◌=t◌, is_id_char, is_digit, Result, ok, err, ◌>>=◌,
  ◌>>◌, refuse, if◌then◌else◌,
}
use deb_builder.Base.Json.{
  Value, int, text, array, object, Items, nil, item, Fields, get, keys, json_size, dict,
}
use deb_builder.Platform.{Platform}
use deb_builder.Identity.Model.{
  Error, invalid_identity, unsafe_field, future_version, invalid_version, completeness_mismatch,
  too_large, incomplete, invalid_attempt_recipe, invalid_attempt_sha, Identity,
}
use deb_builder.Identity.Read.{
  invalid, read_text, read_sha, read_ref, read_version, read_size, read_tracking, read_source,
  read_payload, is_repository, lower_text, max_text,
}
use deb_builder.Identity.Check.{
  check_kind, check_values, check_irrelevant, missing, is_complete, completeness, to_fields,
}

-- FIELDS
abbrev field_names : List Text
field_names =
    codes "schema_version"
    ∷ codes "provider"
    ∷ codes "repository"
    ∷ codes "tracking"
    ∷ codes "source_type"
    ∷ codes "payload_kind"
    ∷ codes "requested_ref"
    ∷ codes "release_id"
    ∷ codes "asset_id"
    ∷ codes "commit_sha"
    ∷ codes "resolved_ref"
    ∷ codes "resolved_version"
    ∷ codes "content_sha256"
    ∷ codes "completeness"
    ∷ codes "missing_fields"
    ∷ codes "asset_name"
    ∷ codes "expected_size"
    ∷ codes "source_archive_format"
    ∷ codes "expected_package"
    ∷ codes "expected_architecture"
    ∷ codes "ref_object_sha"
    ∷ []

unfoldable pub is_known : Text → Bool
is_known k = any (λ name. k =t name) field_names

abbrev max_identity_bytes : ℕ
max_identity_bytes = 4096

-- The version tests; a version that is absent is the current one.
unfoldable pub check_version : Option Value → Result Error (Unit {0})
check_version none = ok tt
check_version (some (int n)) =
    if n == 1 then ok tt else if ltb 1 n then err future_version else err invalid_version
check_version (some _) = err invalid_version

same_items : Items → List Text → Bool
same_items nil [] = true
same_items (item (text s) rest) (t ∷ others) = s =t t && same_items rest others
same_items _ _ = false

-- The declared completeness and missing fields, where they are present.
unfoldable pub check_declared : Fields → Identity → Result Error (Unit {0})
unfolding same_items
check_declared d i = do
  refuse
      (elim (get (codes "completeness") d) [
        | none ↦ false
        | some (text t) ↦ not (t =t completeness i)
        | some _ ↦ true
      ])
      completeness_mismatch
  refuse
      (elim (get (codes "missing_fields") d) [
        | none ↦ false
        | some (array items) ↦ not (same_items items (missing i))
        | some _ ↦ true
      ])
      completeness_mismatch

module _ (p : Platform) where
  unfoldable pub read_repository : Option Value → Result Error Text
  read_repository v = do
    t ← read_text p true max_text v
    let repository = lower_text p t
    invalid (not (is_repository repository))
    ok repository

  unfoldable pub check_provider : Option Value → Result Error (Unit {0})
  check_provider v = do t ← read_text p true 32 v; invalid (not (lower_text p t =t codes "github"))

  -- The normalized fields, in the order in which they are read.
  unfoldable pub read_identity : Fields → Result Error Identity
  read_identity d = do
    check_provider (get (codes "provider") d)
    repository ← read_repository (get (codes "repository") d)
    tracking_text ← read_text p true 32 (get (codes "tracking") d)
    source_text ← read_text p true 32 (get (codes "source_type") d)
    payload_text ← read_text p true 32 (get (codes "payload_kind") d)
    tracking ← read_tracking tracking_text
    source_type ← read_source source_text
    payload_kind ← read_payload payload_text
    check_kind tracking source_type payload_kind
    requested_ref ← read_ref p (get (codes "requested_ref") d)
    release_id ← read_text p false 40 (get (codes "release_id") d)
    asset_id ← read_text p false 40 (get (codes "asset_id") d)
    commit_sha ← read_sha p (λ n. n == 40 || n == 64) (get (codes "commit_sha") d)
    ref_object_sha ← read_sha p (λ n. n == 40 || n == 64) (get (codes "ref_object_sha") d)
    resolved_ref ← read_ref p (get (codes "resolved_ref") d)
    resolved_version ← read_version p (get (codes "resolved_version") d)
    content_sha256 ← read_sha p (λ n. n == 64) (get (codes "content_sha256") d)
    asset_name ← read_text p false max_text (get (codes "asset_name") d)
    expected_size ← read_size (get (codes "expected_size") d)
    source_archive_format ← read_text p false 16 (get (codes "source_archive_format") d)
    expected_package ← read_text p false max_text (get (codes "expected_package") d)
    expected_architecture ← read_text p false 16 (get (codes "expected_architecture") d)
    ok (record {
      repository = repository;
      tracking = tracking;
      source_type = source_type;
      payload_kind = payload_kind;
      requested_ref = requested_ref;
      release_id = release_id;
      asset_id = asset_id;
      commit_sha = commit_sha;
      ref_object_sha = ref_object_sha;
      resolved_ref = resolved_ref;
      resolved_version = resolved_version;
      content_sha256 = content_sha256;
      asset_name = asset_name;
      expected_size = expected_size;
      source_archive_format = source_archive_format;
      expected_package = expected_package;
      expected_architecture = expected_architecture;
    })

  -- The tests after the fields are read.
  unfoldable pub check_identity : Fields → Identity → Result Error (Unit {0})
  check_identity d i = do
    check_values p i
    check_irrelevant i
    check_declared d i
    refuse (ltb max_identity_bytes (json_size (object (to_fields i)))) too_large

  unfoldable pub normalize_fields : Fields → Result Error Identity
  normalize_fields d = do
    refuse (not (all is_known (keys d))) unsafe_field
    check_version (get (codes "schema_version") d)
    i ← read_identity d
    check_identity d i
    ok i

  -- normalize_upstream_identity(value)
  unfoldable pub normalize : Value → Result Error Identity
  normalize (object d) = normalize_fields d
  normalize _ = err invalid_identity

abbrev pub is_hex_any : ℕ → Bool
is_hex_any c = is_digit c || (leb b'a' c && leb c b'f') || (leb b'A' c && leb c b'F')

-- re.fullmatch("[A-Za-z0-9_.+-]{1,128}", recipe_id)
abbrev pub is_recipe_id : Text → Bool
is_recipe_id t = truthy t && not (ltb 128 (length t)) && all is_id_char t

-- The payload that is sealed.
abbrev pub seal_payload : Text → Identity → Text → Fields
seal_payload recipe_id i sha = dict (
    (codes "schema_version", int 1)
    ∷ (codes "recipe_id", text recipe_id)
    ∷ (codes "recipe_sha256", text sha)
    ∷ (codes "upstream_identity", object (to_fields i))
    ∷ [])

-- automation_attempt_key(recipe_id, identity, recipe_sha256)
unfoldable pub attempt_key : Platform → Text → Value → Text → Result Error Text
attempt_key p recipe_id identity sha = do
  refuse (not (is_recipe_id recipe_id)) invalid_attempt_recipe
  refuse (not (length sha == 64 && all is_hex_any sha)) invalid_attempt_sha
  i ← normalize p identity
  refuse (not (is_complete i)) incomplete
  ok (codes "automation-v1-" ++ p.digest (seal_payload recipe_id i (lower_text p sha)))
