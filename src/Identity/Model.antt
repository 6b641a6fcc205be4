-- ===== src/Identity/Model.antt =====
-- debbuilder/automation_identity.py: the fields of a canonical identity and the errors.
use deb_builder.Base.{ℕ, Text, Option, codes}

pub data Error : Type 0 where
  invalid_identity unsafe_field future_version invalid_version : Error
  completeness_mismatch too_large changed incomplete : Error
  size_mismatch checksum_mismatch invalid_attempt_recipe invalid_attempt_sha : Error

pub data Tracking : Type 0 where
  latest_release tag manual : Tracking

pub data SourceType : Type 0 where
  release_asset github_source_archive git_ref : SourceType

pub data PayloadKind : Type 0 where
  deb archive raw_file source_archive : PayloadKind

-- The normalized dictionary; `completeness` is derived from `missing_fields`.
pub record Identity : Type 0 where
  pub repository : Text
  pub tracking : Tracking
  pub source_type : SourceType
  pub payload_kind : PayloadKind
  pub requested_ref : Text
  pub release_id : Text
  pub asset_id : Text
  pub commit_sha : Text
  pub ref_object_sha : Text
  pub resolved_ref : Text
  pub resolved_version : Text
  pub content_sha256 : Text
  pub asset_name : Text
  pub expected_size : Option ℕ
  pub source_archive_format : Text
  pub expected_package : Text
  pub expected_architecture : Text

abbrev pub tracking_name : Tracking → Text
tracking_name latest_release = codes "latest_release"
tracking_name tag = codes "tag"
tracking_name manual = codes "manual"

abbrev pub source_name : SourceType → Text
source_name release_asset = codes "release_asset"
source_name github_source_archive = codes "github_source_archive"
source_name git_ref = codes "git_ref"

abbrev pub payload_name : PayloadKind → Text
payload_name deb = codes "deb"
payload_name archive = codes "archive"
payload_name raw_file = codes "raw_file"
payload_name source_archive = codes "source_archive"
