-- ===== src/Tests/Claims.antt =====
-- A claim of the branch of `Data` in an empty ledger, and a retry of an attempt that is done.
use deb_builder.Base.{
  true, false, [], ◌∷◌, codes, some, ◌=t◌, ok, ◌≡◌, refl, starts_with, ends_with_char, has_infix,
  before_char, after_char, lstrip, rstrip, strip,
}
use deb_builder.Base.Json.{object, get, json_size, string_size, decimal}
use deb_builder.Identity.Check.{
  check_irrelevant, check_kind, check_values, completeness, is_complete, missing, to_fields,
}
use deb_builder.Identity.Normalize.{
  normalize, normalize_fields, is_known, check_version, read_identity, check_provider,
  read_repository, check_declared, check_identity, attempt_key,
}
use deb_builder.Identity.Read.{
  read_text, read_sha, lower_text, read_payload, read_ref, read_size, read_source, read_tracking,
  read_version, is_repository,
}
use deb_builder.Ledger.Document.{
  empty_document, validate_document, validate_entries, validate_entry, is_attempt_key, count,
  distinct, same_identity, same_size, validate_generations,
}
use deb_builder.Ledger.Validate.{
  check_header, check_ids, check_lifecycle, check_links, check_notice, check_result, check_stage,
  check_stage_links, timestamp, validate_generation,
}
use deb_builder.Ledger.Row.{build, Generation}
use deb_builder.Ledger.Rows.{new_generation}
use deb_builder.Ledger.Store.{load, save, find_entry, put_entry}
use deb_builder.Ledger.Claims.{
  Recipe, ClaimResult, claim, claim_locked, create, new_entry, attempts_of, explicit_retry,
  check_retry, check_retry_recipe, grant, or_missing, newest_of, newest,
}
use deb_builder.Ledger.Claims.Retried.{Retried, explicit_retry_lem}
use deb_builder.Ledger.Claims.Kept.{Kept, claim_lem}
use deb_builder.Tests.Data.{
  host, branch, some_hex, noon, one, done, tool_key, tool_entry, first, ledger,
}

abbrev tool_recipe : Recipe
tool_recipe = record {
  name = codes "tool";
  sha256 = some_hex;
  active = true;
  automation = some (record { enabled = true; policy = build });
}

abbrev claimed_now : ClaimResult
claimed_now = record {
  created = true;
  attempt_key = tool_key;
  generation = 0;
  entry = tool_entry (first ∷ []);
}

claim_runs :
    claim host noon
      (codes "tool")
      (object (to_fields branch))
      some_hex
      build
      false
      noon
      false
      (some tool_recipe)
      empty_document
    ≡ ok (claimed_now, ledger (first ∷ []))
unfolding load starts_with ends_with_char has_infix before_char after_char lstrip rstrip strip get
    json_size string_size decimal ◌=t◌ check_irrelevant check_kind check_values completeness
    is_complete missing to_fields normalize normalize_fields is_known check_version read_identity
    check_provider read_repository check_declared check_identity attempt_key read_text read_sha
    lower_text read_payload read_ref read_size read_source read_tracking read_version is_repository
    validate_document validate_entries validate_entry is_attempt_key count distinct same_identity
    same_size validate_generations check_header check_ids check_lifecycle check_links check_notice
    check_result check_stage check_stage_links timestamp validate_generation claim claim_locked
    create new_entry new_generation attempts_of find_entry save
claim_runs = refl

claim_lem_example : Kept host empty_document (ledger (first ∷ [])) claimed_now
claim_lem_example =
    claim_lem host noon (codes "tool") (object (to_fields branch)) some_hex build false noon false
      (some tool_recipe) empty_document (ledger (first ∷ [])) claimed_now claim_runs

-- The generation that a retry of `done` adds.
abbrev again : Generation
again = record first { generation = 1; created_at = one; updated_at = one }

retry_runs :
    explicit_retry host one
      (codes "tool")
      tool_key
      0
      (some one)
      (some tool_recipe)
      (ledger (done ∷ []))
    ≡ ok (
      record {
        created = true;
        attempt_key = tool_key;
        generation = 1;
        entry = tool_entry (done ∷ again ∷ []);
      },
      ledger (done ∷ again ∷ []),
    )
unfolding load starts_with ends_with_char has_infix before_char after_char lstrip rstrip strip get
    json_size string_size decimal ◌=t◌ check_irrelevant check_kind check_values completeness
    is_complete missing to_fields normalize normalize_fields is_known check_version read_identity
    check_provider read_repository check_declared check_identity attempt_key read_text read_sha
    lower_text read_payload read_ref read_size read_source read_tracking read_version is_repository
    validate_document validate_entries validate_entry is_attempt_key count distinct same_identity
    same_size validate_generations check_header check_ids check_lifecycle check_links check_notice
    check_result check_stage check_stage_links timestamp validate_generation claim claim_locked
    create new_entry new_generation explicit_retry check_retry check_retry_recipe grant or_missing
    newest_of newest put_entry attempts_of find_entry save
retry_runs = refl

explicit_retry_lem_example :
    Retried host one tool_key (ledger (done ∷ [])) (ledger (done ∷ again ∷ [])) (record {
      created = true;
      attempt_key = tool_key;
      generation = 1;
      entry = tool_entry (done ∷ again ∷ []);
    })
explicit_retry_lem_example =
    explicit_retry_lem host one (codes "tool") tool_key 0 (some one) (some tool_recipe)
      (ledger (done ∷ [])) (ledger (done ∷ again ∷ [])) _ retry_runs
