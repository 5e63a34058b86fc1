-- ===== src/Lib.antt =====
-- honua-migrate: assessment of Esri estates and durable migration runs.
--
-- The program scans an Esri estate into a footprint, an artifact in JSON; it derives from a
-- footprint a migratability verdict, a readiness report and the capability keys that a target
-- needs; and it executes a migration plan by a run whose artifact is written ahead of each step,
-- so that an interrupted run can be resumed. The verdict uses the report's dependency order, and
-- the capability keys use the verdict's registry. The run engine stands apart: it calls an adapter
-- of the target service and a contract validation.
--
-- Base holds what the others share: Boolean tests, equality and `in` of Python, lists, stable
-- sorting, texts by code points, integers. Json has the values that `json.loads` gives.
--
-- Runs models src/honua_migrate/runs/orchestration.py with the records of contracts.py:
--   * Contracts: exit codes, errors, `MigrationPlan`, `MigrationRun`, checkpoints;
--   * Interface: the contract validation and the executor, as records that the engine takes; the
--     adapter's state is any type, and whether a write reaches the disk, how the lock file opens
--     and what `inspect` and `execute` give are functions of that state;
--   * Effect: effects that may raise and keep the state that they leave;
--   * Checkpoints: `_validated_actions`, `_checkpoint`, `_replace_checkpoint`, `_complete`,
--     `_validated_checkpoints`;
--   * Store: `RunStore` (create, save, load, lease) with `_atomic_write_new` and
--     `atomic_write_text` of src/honua_esri_assess/output_io.py, and the list of what was done;
--   * Execute: `_execute_one` and `start_run`;
--   * Resume: `_bound` and `resume_run`.
-- The other modules of Runs carry the proofs. A crash is the world at any event of the list: the
-- artifact on disk is what the latest write event holds. The loops over actions and checkpoints
-- recurse on the lists, without fuel.
--
-- Verdict models src/honua_esri_assess/verdict/registry.py (Registry) and engine.py: Detect
-- (`_inventory_items`, `_detected_entries`, `_lock_in_extents`, `_format_extent`,
-- `_enriched_detail`), Profile (`_entries_for_profile`, `_verdict_for_entries`, `_effort_band`,
-- `_boundaries`), Signals (`_non_feature_map_service_kinds`, `_advanced_roles`,
-- `_usage_ranked_steps`, `_migration_order`, `evaluate`), Rationale (`_rationale`).
--
-- Report models src/honua_esri_assess/report/heuristics.py: Counts (the roll-ups and the bucket of
-- `score_complexity`), Dependency (`dependency_edges`, `dependency_order`), Items (labels, ranks and
-- sort keys), Ordering (`recommended_order`), Review (`manual_review_items`); Reasons says
-- why an item needs a review, apart from how that is collected. The loop `while ready`
-- of the dependency order runs on fuel, the number of nodes and the sum of the in-degrees; each round
-- takes a node off and turns at most the units of in-degree that it takes into ready nodes, so that
-- this is enough, which is proved. Python's text of a list or a dictionary and `str.lower`, which
-- reads the tables of Unicode, are parameters of the sort keys. The text lines of `score_complexity`
-- are not modelled.
--
-- Caps models src/honua_esri_assess/caps/crosswalk.py (Crosswalk) and mapper.py (Mapper), of a
-- document that is already loaded.
--
-- Footprint models src/honua_esri_assess/footprint/binding.py (Binding): storage types, binding modes
-- and the usage ranking, with the dictionaries that the artifact carries.
--
-- Secrets models `assert_artifact_safe` of src/honua_migrate/contract_validation.py and
-- `_redact_value` and `redact_config` of src/honua_migrate/runs/orchestration.py: Keys (the pattern of
-- sensitive keys, searched for with Python's case folding) and Artifact. `urlsplit`, `urlunsplit`
-- and the search for a bearer token are parameters; `urlsplit` may raise.
--
-- Reconcile models src/honua_migrate/runs/reconciliation.py: Same (`==` of JSON values), Compare (the
-- checks and the status), Files (`load_snapshot`, `write_reconciliation`, `reconcile_run`). The
-- scan of an artifact for secrets, the contract validation and `json.dumps`, which only orders the
-- items of a list, are parameters.
--
-- Http models the read-only clients. Wire has requests, replies and parameters; Fetch is
-- src/honua_esri_assess/scanners/http.py (`fetch_json`, `_decode_response`); Server is `get_json` with
-- `_request_with_retry` and `_compute_delay` of src/honua_esri_assess/server/client.py; Portal is
-- `get_json` with `_retry_delay`, `_api_error` and `_status_error` of portal/client.py beside it;
-- Pages is `iter_paginated` of portal/pagination.py. A session is a parameter, by how many requests
-- it has had; so are floating-point numbers and dates, of which it is only used that no number is
-- below itself. An error is its class; its message, the URL in its context and the log are left out.
-- The loop of the server client runs on fuel, one round more than `max_attempts`, and the walk over
-- pages on any fuel; that these are enough is proved, of the walk where the starts that the server
-- names are bounded or where it pages a list.
--
-- Readiness models src/honua_migrate/services/target_readiness.py: Words (the patterns, and what is
-- let through of a server's texts), Manifest (`_observed`, `_declarations`, `_problem`), Report (the
-- reports and their messages), Preflight (`_get`, `_from_manifest`, `_capability`,
-- `preflight_target`). The target answers by path and by how many requests it has had; `urlsplit`
-- and `urlunsplit` are parameters.
--
-- Arcgis models parts of src/honua_migrate/services/arcgis.py: Tables (`_derived_table_name`), Expand
-- (`expand_service_plan`), Client (`ArcGisClient.request`, `normalize_job_status`), Wait
-- (`wait_for_terminal`), Redact (`_redact`, and `sanitize_handoff_url` of
-- src/honua_esri_assess/redaction.py), Apply (`_apply`, with `_emit` as what it prints, redacted, and
-- how it ends). Hidden is about the redaction, Queued and Applied are about the apply.
-- Texts of table names are lists of code points. The target answers by the calls it has had; the
-- clock is a parameter, by how often it was read, and the wait runs on fuel, which is enough where
-- the clock reaches the deadline. Lengths of sleeps and timeouts are left out.
--
-- Geoserver models the dry run and the apply of src/honua_migrate/services/geoserver.py: Checks
-- (`validate_url`, `_load_completed_plan`, `_validate_completed_job`, and `MigrationPlan.verify` of contracts.py),
-- Client (`HonuaMigrationClient.request`), Apply (`_verify_plan_job`, `apply_command`). The contract
-- validation, the digest and `urlsplit` are parameters, and the target answers by the calls that it
-- has had; Wait has the waits and the dry run of `plan_command`, on fuel, which is enough where
-- the clock, a parameter by how often it was read, reaches the deadline; Options has
-- `_build_start_request`, `_workspace_mappings` and `_plan_request_without_credentials`.
-- Restarted compares what a dry run starts with what the apply of its plan starts. Loaded and
-- Reviewed are about the apply, Built about the request, and Planned about the dry run.
--
-- The handoff of services/arcgis.py is in Arcgis too: Artifact (`_read_artifact`,
-- `_plan_action_requests`), Scope (`_handoff_job_ids`, `_handoff_scope`), Urls (`_safe_url`), Handoff
-- (`_handoff_mode_fields`, `_handoff_source_changes`, `_handoff_outcome`, `_handoff_effort`), Command
-- (`_handoff_status`, `handoff_command` up to the artifact that it gives to `_emit`, which redacts it
-- before it prints it). The files are a function of their paths. The artifact is a record without its
-- constants, whose lists are not yet sorted; its validation with the scan for secrets is a parameter.
-- Targets, Entries and Origins are about one entry of the manifest, Collect and Scoped about all of
-- them, Worst, Declared and Handed about the options.
--
-- Not modelled: scanners, clients and renderers, which read services and print; the JSON Schema
-- validator and other third-party code; command lines; the packages in other languages. Numbers in
-- artifacts are integers; a floating-point number does not occur where the modelled code reads one.
pub mod Base
pub mod Json
pub mod Runs
pub mod Verdict
pub mod Secrets
pub mod Reconcile
pub mod Report
pub mod Footprint
pub mod Caps
pub mod Http
pub mod Readiness
pub mod Arcgis
pub mod Geoserver
