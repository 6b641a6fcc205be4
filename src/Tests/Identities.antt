-- ===== src/Tests/Identities.antt =====
-- The checks of an admitted identity, at a branch and at a release asset.
use deb_builder.Base.{
  ℕ, true, [], codes, some, ◌=t◌, ok, ◌≡◌, refl, truthy, starts_with, ends_with_char, has_infix,
  before_char, after_char, lstrip, rstrip, strip,
}
use deb_builder.Base.Json.{Value, object, get, json_size, string_size, decimal}
use deb_builder.Identity.Check.{
  check_irrelevant, check_kind, check_values, completeness, is_complete, missing, to_fields,
}
use deb_builder.Identity.Normalize.{
  normalize, normalize_fields, is_known, check_version, read_identity, check_provider,
  read_repository, check_declared, check_identity,
}
use deb_builder.Identity.Read.{
  read_text, read_sha, lower_text, read_payload, read_ref, read_size, read_source, read_tracking,
  read_version, is_repository,
}
use deb_builder.Identity.Model.{Identity, latest_release, release_asset, raw_file}
use deb_builder.Ledger.Document.{same_identity, same_size}
use deb_builder.Pinned.{
  as_changed, compared, payload_matches, verify_expected, verify_acquired_payload,
}
use deb_builder.Pinned.Checked.{verify_expected_lem, verify_acquired_lem}
use deb_builder.Tests.Data.{plain, branch, some_hex}

abbrev asset : Identity
asset = record branch {
  tracking = latest_release;
  source_type = release_asset;
  payload_kind = raw_file;
  requested_ref = [];
  commit_sha = [];
  source_archive_format = [];
  release_id = codes "17";
  asset_id = codes "42";
  asset_name = codes "tool.bin";
  expected_size = some 1024;
  content_sha256 = some_hex;
}

abbrev branch_value : Value
branch_value = object (to_fields branch)

abbrev asset_value : Value
asset_value = object (to_fields asset)

-- Both are read as they are, and pass the checks.
checks_pass :
    (verify_expected plain (some branch_value) branch_value ≡ ok (some branch))
    × (normalize plain asset_value ≡ ok asset)
    × (verify_acquired_payload plain asset_value 1024 some_hex ≡ ok tt)
unfolding starts_with ends_with_char has_infix before_char after_char lstrip rstrip strip get
    json_size string_size decimal ◌=t◌ check_irrelevant check_kind check_values completeness
    is_complete missing to_fields normalize normalize_fields is_known check_version read_identity
    check_provider read_repository check_declared check_identity read_text read_sha lower_text
    read_payload read_ref read_size read_source read_tracking read_version is_repository
    same_identity verify_expected as_changed compared verify_acquired_payload payload_matches
    same_size
checks_pass = (refl, refl, refl)

verify_expected_lem_example :
    (wanted : Identity) × (i : Identity) × (normalize plain branch_value ≡ ok wanted)
    × (normalize plain branch_value ≡ ok i)
    × (some branch ≡ some i)
    × (is_complete wanted ≡ true)
    × (is_complete i ≡ true)
    × (same_identity wanted i ≡ true)
verify_expected_lem_example = verify_expected_lem plain branch_value branch_value (checks_pass.0)

verify_acquired_lem_example :
    ((n : ℕ) → some 1024 ≡ some n → 1024 ≡ n)
    × (truthy some_hex ≡ true → lower_text plain some_hex ≡ some_hex)
verify_acquired_lem_example =
    verify_acquired_lem plain asset_value 1024 some_hex asset (checks_pass.1) refl (checks_pass.2)
