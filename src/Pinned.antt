-- ===== src/Pinned.antt =====
-- debbuilder/automation_identity.py: the identities that detection makes of releases and archives, and
-- the checks that execution makes of an admitted identity.
pub mod Checked
use deb_builder.Base.{
  ℕ, Bool, true, false, not, ◌&&◌, ◌||◌, Text, List, [], ◌∷◌, codes, Option, none, some, truthy,
  length, drop, all, ◌==◌, ◌=t◌, starts_with, Result, ok, err, ◌>>=◌, ◌>>◌, refuse, if◌then◌else◌,
  >>=-eq-ok, ◌≡◌, arith, refl, Bool-cases, inl, inr,
}
use deb_builder.Base.Json.{
  Value, null, bool, int, negative, text, array, object, Items, nil, item, Fields, end, field, dict,
}
use deb_builder.Platform.{Platform}
use deb_builder.Identity.Model.{
  Error, changed, incomplete, size_mismatch, checksum_mismatch, completeness_mismatch, Identity,
  release_asset,
}
use deb_builder.Identity.Read.{lower_text}
use deb_builder.Identity.Check.{is_complete, is_asset}
use deb_builder.Identity.Normalize.{normalize, is_hex_any}
use deb_builder.Ledger.Document.{same_identity}

-- bool(value)
unfoldable pub truth : Option Value → Bool
truth none = false
truth (some null) = false
truth (some (bool b)) = b
truth (some (int n)) = not (n == 0)
truth (some (negative n)) = true
truth (some (text t)) = truthy t
truth (some (array nil)) = false
truth (some (array (item v rest))) = true
truth (some (object end)) = false
truth (some (object (field k v rest))) = true

abbrev pub or_null : Option Value → Value
or_null none = null
or_null (some v) = v

-- `a or b`
unfoldable pub or_else : Option Value → Option Value → Value
or_else a b = if truth a then or_null a else or_null b

-- `_github_digest`
unfoldable pub github_digest : Platform → Option Value → Text
github_digest p (some (text t)) =
    if starts_with t (codes "sha256:") && length t == 71 && all is_hex_any (drop 7 t)
    then lower_text p (drop 7 t)
    else []
github_digest p _ = []

-- What the two constructors read of a resolved release or ref, each by `get`.
pub record Resolved : Type 0 where
  pub repository : Option Value
  pub release_id : Option Value
  pub tag : Option Value
  pub ref : Option Value
  pub commit : Option Value
  pub ref_object_sha : Option Value
  pub upstream_version : Option Value

-- An asset of a release.
pub record Asset : Type 0 where
  pub asset_id : Option Value
  pub name : Option Value
  pub size : Option Value
  pub digest : Option Value

-- What they read of the Recipe.
pub record Source : Type 0 where
  pub repository : Option Value
  pub tracking : Text
  pub ref : Option Value
  pub package_name : Text
  pub architecture : Text

-- `size if type(size) is int else None`
abbrev pub int_or_null : Option Value → Value
int_or_null (some (int n)) = int n
int_or_null (some (negative n)) = negative n
int_or_null _ = null

unfoldable pub release_asset_identity :
    Platform → Source → Resolved → Asset → Text → Result Error Identity
release_asset_identity p source release asset kind =
    let is_deb = kind =t codes "deb" in
    normalize p (
      object (
        dict (
          (codes "schema_version", int 1)
          ∷ (codes "provider", text (codes "github"))
          ∷ (codes "repository", or_else release.repository source.repository)
          ∷ (codes "tracking", text (codes "latest_release"))
          ∷ (codes "source_type", text (codes "release_asset"))
          ∷ (codes "payload_kind", text kind)
          ∷ (codes "release_id", or_null release.release_id)
          ∷ (codes "asset_id", or_null asset.asset_id)
          ∷ (codes "asset_name", or_null asset.name)
          ∷ (codes "expected_size", int_or_null asset.size)
          ∷ (codes "resolved_ref", or_else release.tag release.ref)
          ∷ (codes "resolved_version", or_null release.upstream_version)
          ∷ (codes "content_sha256", text (github_digest p asset.digest))
          ∷ (codes "expected_package", text (if is_deb then source.package_name else []))
          ∷ (codes "expected_architecture", text (if is_deb then source.architecture else []))
          ∷ [])))

-- The fields that depend on `generated_release`.
abbrev pub archive_fields : Bool → Source → Resolved → List (Text × Value)
archive_fields true source resolved =
    (codes "source_type", text (codes "github_source_archive"))
    ∷ (codes "release_id", or_null resolved.release_id)
    ∷ []
archive_fields false source resolved =
    (codes "source_type", text (codes "git_ref")) ∷ (codes "requested_ref", or_null source.ref) ∷ []

unfoldable pub source_archive_identity :
    Platform → Source → Resolved → Bool → Text → Result Error Identity
source_archive_identity p source resolved generated format =
    let object_sha =
      if generated || source.tracking =t codes "tag"
      then or_null resolved.ref_object_sha
      else text [] in
    normalize p (
      object (
        dict (
          (codes "schema_version", int 1)
          ∷ (codes "provider", text (codes "github"))
          ∷ (codes "repository", or_else resolved.repository source.repository)
          ∷ (codes "tracking", text source.tracking)
          ∷ (codes "payload_kind", text (codes "source_archive"))
          ∷ (codes "commit_sha", or_null resolved.commit)
          ∷ (codes "ref_object_sha", object_sha)
          ∷ (codes "resolved_ref", or_else resolved.tag resolved.ref)
          ∷ (codes "resolved_version", or_null resolved.upstream_version)
          ∷ (codes "source_archive_format", text format)
          ∷ archive_fields generated source resolved)))

-- The error of an identity that execution resolved.
unfoldable pub as_changed : {A : Type 0} → Result Error A → Result Error A
as_changed (err completeness_mismatch) = err changed
as_changed r = r

unfoldable pub compared : Identity → Identity → Result Error (Option Identity)
compared wanted normalized = do
  refuse (not (is_complete wanted) || not (is_complete normalized)) incomplete
  refuse (not (same_identity wanted normalized)) changed
  ok (some normalized)

given : Platform → Option Value → Result Error (Option Identity)
given p actual =
    let read = normalize p (or_null actual) >>= λ i. ok (some i) in
    if truth actual then read else ok none

-- `verify_expected_upstream_identity`; the empty dictionary is `none`
unfoldable pub verify_expected : Platform → Option Value → Value → Result Error (Option Identity)
unfolding given compared
verify_expected p none actual = given p (some actual)
verify_expected p (some expected) actual = do
  normalized ← as_changed (normalize p actual)
  wanted ← normalize p expected
  compared wanted normalized

unfoldable pub payload_matches : Platform → ℕ → Text → Identity → Result Error (Unit {0})
payload_matches p size sha i = do
  refuse (elim i.expected_size [ none ↦ false | some n ↦ not (size == n) ]) size_mismatch
  refuse (truthy i.content_sha256 && not (lower_text p sha =t i.content_sha256)) checksum_mismatch

-- `verify_acquired_payload`
unfoldable pub verify_acquired_payload : Platform → Value → ℕ → Text → Result Error (Unit {0})
unfolding payload_matches
verify_acquired_payload p identity size sha = do
  i ← normalize p identity
  let matches = payload_matches p size sha i
  if is_asset i.source_type then matches else ok tt
