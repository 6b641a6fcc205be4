-- ===== src/Tests/Data.antt =====
-- A platform, an identity and a ledger of one attempt, on which the properties are tried.
use deb_builder.Base.{
  true, false, Text, List, [], ◌∷◌, codes, none, some, is_digit, ◌==◌, ◌=t◌, ok, ◌≡◌, refl,
  starts_with, ends_with_char, has_infix, before_char, after_char, lstrip, rstrip, strip,
}
use deb_builder.Base.Json.{get, json_size, string_size, decimal}
use deb_builder.Platform.{Platform}
use deb_builder.Identity.Model.{Identity, manual, git_ref, source_archive}
use deb_builder.Ledger.Row.{
  Generation, build, claimed, no_retry, detection, run_preallocated, run_admission, terminal,
  success, stopped, admitted, run, retry_delayed, transient_retryable, transient,
}
use deb_builder.Identity.Check.{
  check_irrelevant, check_kind, check_values, completeness, is_complete, missing, to_fields,
}
use deb_builder.Identity.Normalize.{
  normalize, normalize_fields, is_known, check_version, read_identity, check_provider,
  read_repository, check_declared, check_identity, attempt_key,
}
use deb_builder.Identity.Read.{
  read_text, read_sha, lower_text, read_payload, read_ref, read_size, read_source, read_tracking,
  read_version, is_repository,
}
use deb_builder.Ledger.Document.{
  validate_document, validate_entries, validate_entry, is_attempt_key, count, distinct,
  same_identity, same_size, validate_generations, Entry, Document,
}
use deb_builder.Ledger.Validate.{
  check_header, check_ids, check_lifecycle, check_links, check_notice, check_result, check_stage,
  check_stage_links, timestamp, validate_generation,
}
use deb_builder.Ledger.Store.{Host, load}

abbrev pub some_hex : Text
some_hex = codes "aaaaaaaaaaaaaaaaaaaaaaaaaaaaaaaaaaaaaaaaaaaaaaaaaaaaaaaaaaaaaaaa"

-- ASCII texts without capitals; every text that is asked for is a time with a zone.
abbrev pub plain : Platform
plain = record {
  is_space = λ c. c == 32;
  lower = λ c. c ∷ [];
  is_number = is_digit;
  iso = λ t. some true;
  digest = λ payload. some_hex;
}

abbrev pub branch : Identity
branch = record {
  repository = codes "acme/tool";
  tracking = manual;
  source_type = git_ref;
  payload_kind = source_archive;
  requested_ref = codes "main";
  release_id = [];
  asset_id = [];
  commit_sha = codes "bbbbbbbbbbbbbbbbbbbbbbbbbbbbbbbbbbbbbbbb";
  ref_object_sha = [];
  resolved_ref = codes "main";
  resolved_version = [];
  content_sha256 = [];
  asset_name = [];
  expected_size = none;
  source_archive_format = codes "tar.gz";
  expected_package = [];
  expected_architecture = [];
}

abbrev pub noon : Text
noon = codes "2026-01-01T12:00:00+00:00"

abbrev pub one : Text
one = codes "2026-01-01T13:00:00+00:00"

abbrev pub tool_key : Text
tool_key = codes "automation-v1-aaaaaaaaaaaaaaaaaaaaaaaaaaaaaaaaaaaaaaaaaaaaaaaaaaaaaaaaaaaaaaaa"

abbrev pub first : Generation
first = record {
  generation = 0;
  state = claimed;
  desired_policy = build;
  detected_at = noon;
  created_at = noon;
  updated_at = noon;
  preallocated_run_id = none;
  run_id = none;
  terminal_classification = none;
  retry_class = no_retry;
  retry_count = 0;
  not_before = none;
  last_error_code = none;
  diagnostic = none;
  stage = detection;
  validation_attempt_id = none;
  publication_attempt_id = none;
  completion_notified = false;
  run_retry_count = 0;
  validation_retry_count = 0;
  publication_retry_count = 0;
}

abbrev pub tool_entry : List Generation → Entry
tool_entry gs = record {
  key = tool_key;
  recipe_id = codes "tool";
  recipe_sha256 = some_hex;
  upstream_identity = branch;
  generations = gs;
}

abbrev pub ledger : List Generation → Document
ledger gs = record { attempts = (tool_key, tool_entry gs) ∷ [] }

abbrev pub host : Host
host = record {
  platform = plain;
  bounds = record { max_attempts = 8; max_attempts_per_recipe = 4 };
  fits = λ d. true;
}

-- `first` with a Run preallocated, and stopped.
abbrev pub second : Generation
second = record first {
  preallocated_run_id = some (codes "run-1");
  state = run_preallocated;
  stage = run_admission;
  updated_at = one;
}

abbrev pub done : Generation
done = record first {
  state = terminal;
  terminal_classification = some success;
  stage = stopped;
  updated_at = one;
}

abbrev pub told : Generation
told = record done { completion_notified = true; updated_at = one }

-- A generation whose Run is linked.
abbrev pub running : Generation
running = record first {
  preallocated_run_id = some (codes "run-1");
  run_id = some (codes "run-1");
  state = admitted;
  stage = run;
  updated_at = one;
}

-- `first` after a failure that may pass: due a minute past the start of a clock whose reading is a code.
abbrev pub later : Generation
later = record first {
  state = retry_delayed;
  terminal_classification = some transient_retryable;
  retry_class = transient;
  retry_count = 1;
  not_before = some (60000000 ∷ []);
  last_error_code = some (codes "busy");
  diagnostic = some (codes "busy");
  updated_at = one;
}

abbrev Loads : Generation → Type 0
Loads g = load host (ledger (g ∷ [])) ≡ ok (ledger (g ∷ []))

-- Each of these stands alone in a ledger that loads.
pub ledgers_load :
    Loads first × Loads second × Loads done × Loads told × Loads running × Loads later
unfolding load starts_with ends_with_char has_infix before_char after_char lstrip rstrip strip get
    json_size string_size decimal ◌=t◌ check_irrelevant check_kind check_values completeness
    is_complete missing to_fields normalize normalize_fields is_known check_version read_identity
    check_provider read_repository check_declared check_identity attempt_key read_text read_sha
    lower_text read_payload read_ref read_size read_source read_tracking read_version is_repository
    validate_document validate_entries validate_entry is_attempt_key count distinct same_identity
    same_size validate_generations check_header check_ids check_lifecycle check_links check_notice
    check_result check_stage check_stage_links timestamp validate_generation
ledgers_load = (refl, refl, refl, refl, refl, refl)
