-- ===== src/Lib.antt =====
-- DebBuilder's coordination core: the part of the program that decides which automatic work may
-- start, remembers it durably and ends it once.
--
-- A detection result is an upstream identity (debbuilder/automation_identity.py) of a Recipe
-- revision. Identity and revision together are the key of an attempt in the automation ledger
-- (debbuilder/automation_ledger.py), which holds the attempt's generations; each generation goes
-- through claim, Run, Validation and Publication, and every write of the ledger is validated as a
-- whole. A failure without an identity goes to the scheduler's retry state
-- (debbuilder/automation_scheduler.py). A Run carries its resource contract
-- (debbuilder/resource_limits.py), its origin (debbuilder/build_models.py) and, for its
-- Validation, the automation metadata of debbuilder/validation_automation.py. While work runs, the
-- mutation gate (debbuilder/lifecycle.py) counts it for the shutdown, the cancellation control
-- (debbuilder/execution_cancellation.py) settles who ends it, and the maintenance service
-- (debbuilder/maintenance.py) collects storage beside it. The execution manager
-- (debbuilder/execution_manager.py) holds the queue of Runs, executes one at a time, and at shutdown
-- cancels those that wait. A preparation
-- is solved against an APT status that is modelled (debbuilder/apt_state_model.py).
--
-- The files:
--   Base       shared types: texts as lists of code points, results of calls that may raise, JSON values,
--              association lists, the string operations of Python that the code uses.
--   Platform   what is taken from Python and not defined here: Unicode tables, datetime.fromisoformat,
--              and json.dumps with SHA-256, as one record of functions that the definitions take.
--   Identity   Read: _text, _sha, _github_ref, _version, _size. Check, Normalize: the parts of
--              normalize_upstream_identity in their order, _required_fields, automation_attempt_key.
--   Pinned     release_asset_identity, source_archive_identity, verify_expected_upstream_identity and
--              verify_acquired_payload.
--   Ledger     Row: the fields of a generation. Validate: _validate_generation, by its groups of tests.
--              Document: AutomationLedger._validate. Rows: what each operation does to a row. Store:
--              _load_unlocked, _save_unlocked, _row, _verify_run_binding and the operations
--              preallocate_run, link_run, finish, advance_lifecycle, mark_completion_notified,
--              may_create_run. Claims: claim_current_recipe, explicit_retry_current_recipe.
--   Execution  ExecutionManager (debbuilder/execution_manager.py). Manager: the state under its condition,
--              start, _require_accepting, _require_capacity, _require_not_submitted. Admission: reservations
--              and _persist_and_enqueue. Worker: the first section of cancel, stop, _begin_shutdown_locked,
--              _record_shutdown_task_result, _worker_main, `complete` of _shutdown_result. Stored:
--              _mark_queued, _persist_queued_cancellation, _terminalize_unresolved_admission,
--              _finalize_worker_error, the second section of cancel. Trace: these sections as the steps of
--              one state. Counts, Orderly, Settled, Working, Reachable: what every sequence of steps
--              keeps. Accounts, Tracked, Release, Resolved: shutdown, leases, stored Runs.
--   Gate       MutationGate. Cancellation: CancellationControl. Maintenance: MaintenanceService.
--   Scheduler  Delay: _retry_delay. RetryStore: AutomationRetryStore. Outcome: _record_outcome. Requests:
--              request, request_orchestration, request_recipe, request_observation, recipe_activity, stop
--              and the parts of run_pass and _run under the scheduler's condition.
--   Resources  normalize_policy, resolve_policy, requested_controls, enforcement_required,
--              validate_host_enforceability, cpu_quota_usec, admission_contract, validate_contract.
--   Runs       normalize_run_origin, require_automation_mode, _normalize_manual_source_provenance,
--              normalize_validation_automation.
--   Orchestrator  AutomationOrchestrator. Services: what its constructor takes, as a record of calls on a
--              state that is left open. Effects: an action on the ledger on disk and that state.
--              Authority: POLICY_RANK, _initial_authorized, _downstream_authorized, _is_recipe_turn.
--              Records: _schedule_retry, _retry_due, _finish, _reconcile_validation_link. Publishing: _publish.
--              Validating: _admit_validation, _handle_validation. Reserving: the ledger's
--              reconcile_preallocated_run and the reservation of a Run. Reasons: _reason. Enqueuing,
--              Admitting: _admit_run, _handle_run. Advancing: advance, advance_all, on_detection, on_run_terminal,
--              on_validation_terminal, next_retry_delay. Logic: what an action on a claim may do to the
--              ledger, the rules that show it, and the methods of each file in turn.
--   PostBuild  publication_confirmation, run_post_build, complete_with_automation.
--   Apt        debbuilder/apt_state_model.py: parse_stanzas, render_stanzas, package_stanza,
--              artifact_stanza, build_modeled_status. Keys, Parsed: stanzas as dicts whose keys stand
--              once. Built, Artifact: what the added stanzas make of those of the base.
--   Tests      the properties at concrete inputs.
--
-- How state and calls are modelled. An operation on a file takes the document on disk and returns
-- its reply with the document that stands on disk afterwards; one that raises leaves the disk as
-- it was, since files are written in one replacement. An operation under a lock is one step;
-- interleavings are lists of steps. A clock reading, a Run's name or the answer of another
-- component is an argument. A raised error is its code; message and path are left out.
--
-- Bounds. The ledger's limits (8 generations, 2048 attempts, 128 per Recipe, 256 Recipes) and all
-- limits on texts and counters are the source's. Whether the serialized ledger is within 16 MiB is
-- a parameter, as the indented json.dumps is the library's; the size of an identity is computed.
-- The only recursion on fuel is the printing of a decimal number, on one more step than the
-- number. Python integers are natural numbers here; a negative number that JSON may hold is a
-- constructor of its own. The methods of the orchestrator that call each other do so to a depth,
-- whose end is Python's RecursionError.
--
-- Not modelled. A ledger row is decoded into typed fields before it is validated: the tests that a
-- field is a string, an integer or one of an enumeration, and that the keys are the expected ones,
-- are the types. Floating-point numbers of JSON are left out, as are file modes, locks between
-- processes, and thread start and join. The ledger keeps the order in which its attempts were added, where
-- the file is written with sorted keys, and a new entry is dated by one reading of the clock, where the
-- source takes two. The orchestrator's lock of a generation and its logging
-- are left out; the managers and stores that it asks are the interface Services. Of the
-- execution manager the loop that drains shutdown until its deadline, the join of its thread and the
-- texts of failures are left out; a Run that is missing and one whose load raises are not told apart by
-- terminalize; in its Trace a submission is persisted only after it was begun, and
-- the worker begins a round only after it has ended the last. The build and
-- validation pipelines, storage and the web application are not part of this library: they access
-- files, processes and the network.
pub mod Apt
pub mod Base
pub mod Platform
pub mod Identity
pub mod Ledger
pub mod Orchestrator
pub mod Pinned
pub mod PostBuild
pub mod Gate
pub mod Execution
pub mod Cancellation
pub mod Scheduler
pub mod Maintenance
pub mod Resources
pub mod Runs
mod Tests
