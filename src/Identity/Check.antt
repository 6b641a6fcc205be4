-- ===== src/Identity/Check.antt =====
-- debbuilder/automation_identity.py: the tests of `normalize_upstream_identity` on the fields that it
-- has read, `_required_fields` and the dictionary that it returns.
use deb_builder.Base.{
  ℕ, Bool, true, false, not, ◌&&◌, ◌||◌, Text, List, [], ◌∷◌, codes, Option, none, some, truthy,
  is_some, all, any, ◌=t◌, Result, ◌>>◌, has_char, if◌then◌else◌,
}
use deb_builder.Base.Json.{Value, null, int, text, array, Fields, dict, texts}
use deb_builder.Platform.{Platform}
use deb_builder.Identity.Model.{
  Error, Identity, Tracking, latest_release, tag, manual, SourceType, release_asset,
  github_source_archive, git_ref, PayloadKind, deb, source_archive, tracking_name, source_name,
  payload_name,
}
use deb_builder.Identity.Read.{invalid}

abbrev is_latest : Tracking → Bool
is_latest latest_release = true
is_latest _ = false

abbrev is_tag : Tracking → Bool
is_tag tag = true
is_tag _ = false

abbrev is_manual : Tracking → Bool
is_manual manual = true
is_manual _ = false

abbrev pub is_asset : SourceType → Bool
is_asset release_asset = true
is_asset _ = false

abbrev is_generated : SourceType → Bool
is_generated github_source_archive = true
is_generated _ = false

abbrev is_git : SourceType → Bool
is_git git_ref = true
is_git _ = false

abbrev is_deb : PayloadKind → Bool
is_deb deb = true
is_deb _ = false

abbrev is_source : PayloadKind → Bool
is_source source_archive = true
is_source _ = false

-- The tests on tracking, source and payload.
unfoldable pub check_kind : Tracking → SourceType → PayloadKind → Result Error (Unit {0})
check_kind t s k = do
  invalid (is_latest t && is_git s)
  invalid (not (is_latest t) && not (is_git s))
  invalid (is_asset s && is_source k)
  invalid (is_generated s && not (is_source k))
  invalid (is_git s && not (is_source k))

-- text.isdigit()
abbrev is_numeric : Platform → Text → Bool
is_numeric p t = truthy t && all p.is_number t

abbrev one_of : List Text → Text → Bool
one_of names t = any (λ name. t =t name) names

unfoldable pub check_values : Platform → Identity → Result Error (Unit {0})
check_values p i = do
  invalid (truthy i.release_id && not (is_numeric p i.release_id))
  invalid (truthy i.asset_id && not (is_numeric p i.asset_id))
  invalid (
      truthy i.source_archive_format
      && not (one_of (codes "tar.gz" ∷ codes "zip" ∷ []) i.source_archive_format))
  invalid (
      truthy i.expected_architecture
      && not (
          one_of (codes "all" ∷ codes "amd64" ∷ codes "arm64" ∷ codes "armhf" ∷ [])
            i.expected_architecture))

-- The tests on fields that do not belong to the source type.
unfoldable pub check_irrelevant : Identity → Result Error (Unit {0})
check_irrelevant i = do
  invalid (
      is_asset i.source_type
      && (truthy i.requested_ref
          || truthy i.commit_sha
          || truthy i.ref_object_sha
          || truthy i.source_archive_format))
  invalid (
      is_generated i.source_type
      && (truthy i.requested_ref
          || truthy i.asset_id
          || truthy i.asset_name
          || is_some i.expected_size
          || truthy i.expected_package
          || truthy i.expected_architecture))
  invalid (
      is_git i.source_type
      && (truthy i.release_id
          || truthy i.asset_id
          || truthy i.asset_name
          || is_some i.expected_size
          || truthy i.expected_package
          || truthy i.expected_architecture
          || truthy i.content_sha256))
  invalid (is_git i.source_type && is_manual i.tracking && truthy i.ref_object_sha)
  invalid (
      is_asset i.source_type
      && not (is_deb i.payload_kind)
      && (truthy i.expected_package || truthy i.expected_architecture))
  invalid (
      truthy i.asset_name
      && (one_of (codes "." ∷ codes ".." ∷ []) i.asset_name
          || has_char b'/' i.asset_name
          || has_char 92 i.asset_name))

-- `_required_fields`: the names with the values that stand under them.
required : Identity → List (Text × Text)
required i = (codes "resolved_ref", i.resolved_ref) ∷ elim i.source_type [
  | release_asset ↦
      (codes "release_id", i.release_id)
      ∷ (codes "asset_id", i.asset_id)
      ∷ (codes "asset_name", i.asset_name)
      ∷ (if is_deb i.payload_kind
          then (codes "expected_package", i.expected_package)
            ∷ (codes "expected_architecture", i.expected_architecture)
            ∷ []
          else [])
  | github_source_archive ↦
      (codes "release_id", i.release_id)
      ∷ (codes "commit_sha", i.commit_sha)
      ∷ (codes "ref_object_sha", i.ref_object_sha)
      ∷ (codes "source_archive_format", i.source_archive_format)
      ∷ []
  | git_ref ↦
      (codes "requested_ref", i.requested_ref)
      ∷ (codes "commit_sha", i.commit_sha)
      ∷ (codes "source_archive_format", i.source_archive_format)
      ∷ (if is_tag i.tracking then (codes "ref_object_sha", i.ref_object_sha) ∷ [] else [])
]

missing_of : List (Text × Text) → List Text
missing_of [] = []
missing_of ((name, value) ∷ rest) =
    let others = missing_of rest in if truthy value then others else name ∷ others

-- missing = tuple(field for field in _required_fields(normalized) if not normalized[field])
unfoldable pub missing : Identity → List Text
unfolding required missing_of
missing i = missing_of (required i)

abbrev no_texts : List Text → Bool
no_texts [] = true
no_texts (_ ∷ _) = false

-- identity["completeness"] == "complete"
unfoldable pub is_complete : Identity → Bool
is_complete i = no_texts (missing i)

unfoldable pub completeness : Identity → Text
completeness i = if is_complete i then codes "complete" else codes "partial"

abbrev pub size_value : Option ℕ → Value
size_value none = null
size_value (some n) = int n

-- The returned dictionary.
unfoldable pub to_fields : Identity → Fields
to_fields i = dict (
    (codes "schema_version", int 1)
    ∷ (codes "provider", text (codes "github"))
    ∷ (codes "repository", text i.repository)
    ∷ (codes "tracking", text (tracking_name i.tracking))
    ∷ (codes "source_type", text (source_name i.source_type))
    ∷ (codes "payload_kind", text (payload_name i.payload_kind))
    ∷ (codes "requested_ref", text i.requested_ref)
    ∷ (codes "release_id", text i.release_id)
    ∷ (codes "asset_id", text i.asset_id)
    ∷ (codes "commit_sha", text i.commit_sha)
    ∷ (codes "ref_object_sha", text i.ref_object_sha)
    ∷ (codes "resolved_ref", text i.resolved_ref)
    ∷ (codes "resolved_version", text i.resolved_version)
    ∷ (codes "content_sha256", text i.content_sha256)
    ∷ (codes "asset_name", text i.asset_name)
    ∷ (codes "expected_size", size_value i.expected_size)
    ∷ (codes "source_archive_format", text i.source_archive_format)
    ∷ (codes "expected_package", text i.expected_package)
    ∷ (codes "expected_architecture", text i.expected_architecture)
    ∷ (codes "completeness", text (completeness i))
    ∷ (codes "missing_fields", array (texts (missing i)))
    ∷ [])
