-- ===== src/PostBuild.antt =====
-- debbuilder/automation_service.py: Validation and Publication after a Build. The callbacks act on a
-- state `W` of their own; what they return is a status and a text.
pub mod Order
use deb_builder.Base.{
  Bool, true, false, not, ◌&&◌, ◌||◌, Text, codes, ◌++◌, Option, none, some, Result, ok, err,
  truthy, ◌=t◌, if◌then◌else◌,
}
use deb_builder.Orchestrator.Services.{Raised, Run, or_text, Asks}
use deb_builder.Orchestrator.Effects.{Action, System, give, asks, when, ◌>>=◌, ◌>>◌, caught}

-- f"publish:{package}:{version}"
unfoldable pub publication_confirmation : Run → Text
publication_confirmation r =
    let package_name = or_text r.inspected_package (or_text r.package_name r.recipe_id) in
    let version = or_text r.inspected_version r.debian_version in
    codes "publish:" ++ package_name ++ codes ":" ++ version

-- What a Validation or a Publication reports, by its status.
pub record Report : Type 0 where
  pub status : Text

-- settings["automation"]
pub record Settings : Type 0 where
  pub validates : Bool
  pub publishes : Bool

-- A stored Run with the part of its artifact that the automation reads.
pub record StoredBuild : Type 0 where
  pub run : Run
  pub artifact_path : Text
  pub is_pruned : Bool

pub record Summary : Type 0 where
  pub settings : Settings
  pub validation : Option Report
  pub publication : Option Report

pub record Callbacks (W : Type 0) : Type 0 where
  pub load : Text → Asks W (Option StoredBuild)
  pub validate : Text → Asks W Report
  pub publish : Text → Text → Asks W Report

abbrev pub blank : Settings → Summary
blank s = record { settings = s; validation = none; publication = none }

-- `run.get("mode") != "build" or … or artifact.get("pruning") is not None`, of a Run that is there
unfoldable pub is_publishable : StoredBuild → Bool
is_publishable b =
    b.run.mode =t codes "build"
    && b.run.status =t codes "success"
    && truthy b.artifact_path
    && not b.is_pruned

abbrev pub is_success : Report → Bool
is_success r = r.status =t codes "success"

-- `store.load(run_id) or run`
abbrev pub current_or : StoredBuild → Option StoredBuild → StoredBuild
current_or b none = b
current_or b (some b') = b'

module _ {W : Type 0} (c : Callbacks W) where
  unfoldable publish_after : Text → Summary → StoredBuild → Action W Summary
  publish_after run_id summary b = do
    current ← asks (c.load run_id)
    published ← asks (c.publish run_id (publication_confirmation (current_or b current).run))
    give (record summary { publication = some published })

  unfoldable publish_validated : Text → Settings → StoredBuild → Report → Action W Summary
  unfolding publish_after
  publish_validated run_id s b validated =
      let summary = record (blank s) { validation = some validated } in
      if not (is_success validated) || not s.publishes
      then give summary
      else publish_after run_id summary b

  unfoldable validate_run : Text → Settings → StoredBuild → Action W Summary
  unfolding publish_validated
  validate_run run_id s b = do
    validated ← asks (c.validate run_id)
    publish_validated run_id s b validated

  unfoldable automate : Text → Settings → Option StoredBuild → Action W Summary
  unfolding validate_run
  automate run_id s none = give (blank s)
  automate run_id s (some b) = if is_publishable b then validate_run run_id s b else give (blank s)

  unfoldable pub run_post_build : Text → Bool → Settings → Action W Summary
  unfolding automate
  run_post_build run_id dry_run s =
      if dry_run || not s.validates
      then give (blank s)
      else (do stored ← asks (c.load run_id); automate run_id s stored)

-- The result of a Run that was executed, with what the automation adds.
pub record Completion : Type 0 where
  pub run_id : Text
  pub status : Text
  pub validation : Option Report
  pub publication : Option Report
  pub automation : Option Summary

-- `if automation.get(…): result[…] = automation[…]`
abbrev or_else : Option Report → Option Report → Option Report
or_else none old = old
or_else (some r) old = some r

abbrev with_summary : Completion → Summary → Completion
with_summary r s = record r {
  validation = or_else s.validation r.validation;
  publication = or_else s.publication r.publication;
  automation = some s;
}

module _ {W : Type 0} (automate_run : Text → Bool → Asks W Summary)
    (notify_completion : Completion → Asks W (Unit {0})) where
  unfoldable automated : Completion → Bool → Action W Completion
  automated r dry_run =
      if truthy r.run_id && r.status =t codes "success"
      then (do summary ← asks (automate_run r.run_id dry_run); give (with_summary r summary))
      else give r

  unfoldable pub complete_with_automation : Completion → Bool → Action W Completion
  unfolding automated
  complete_with_automation r dry_run = do
    completed ← automated r dry_run
    when (not dry_run && not (completed.status =t codes "cancelled"))
        (asks (notify_completion completed))
    give completed
