-- ===== src/Reconcile/Tests.antt =====
-- The reconciliation of a small run.
use honua_migrate.Base.{
  ◌≡◌, refl, Bool, true, List, [], ◌∷◌, ◌++◌, none, some, map, ℕ, string_eq, nat_eq, bool_eq,
}
use honua_migrate.Base.Int.{pos, int_le}
use honua_migrate.Json.{Json, int, str, obj, end, field, get, get_field, to_list}
use honua_migrate.Runs.Contracts.{Result, ok, Run, apply, Outcome}
use honua_migrate.Runs.Interface.{Contracts}
use honua_migrate.Reconcile.Same.{same}
use honua_migrate.Reconcile.Compare.{
  Reconciliation, Reconciled, reconcile_snapshots, result_of, status_of, checks_of, comparisons,
  compare_category, compare_metadata, compare_supported, in_order, items_of, select, names_of,
}
use honua_migrate.Reconcile.Files.{reconcile_run}
use honua_migrate.Reconcile.Status.{status_severity, worst, reconcile_snapshots-worst}
use honua_migrate.Reconcile.Bound.{Leaves, reconcile_run-Leaves}

abbrev no_dumps : Json → List ℕ
no_dumps v = []

abbrev all_safe : Json → Result (Unit {0})
all_safe v = ok tt

abbrev all_valid : Reconciliation → Result (Unit {0})
all_valid r = ok tt

abbrev counted_town : Json
counted_town = obj (
    field "run_id" (str "r") (
      field "plan_id" (str "p") (
        field "plan_digest" (str "d") (
          field "service" (str "s") (field "counts" (obj (field "roads" (int (pos 3)) end)) end)))))

abbrev only_counts : Reconciliation
only_counts = result_of no_dumps all_safe all_valid "r" counted_town counted_town

counts_only_is_partial : only_counts.status ≡ Reconciled.partial
unfolding result_of status_of checks_of compare_category compare_metadata compare_supported in_order
    items_of same select names_of get get_field to_list string_eq nat_eq int_le
counts_only_is_partial = refl

reconciled_town :
    reconcile_snapshots no_dumps all_safe all_valid "r" counted_town counted_town ≡ ok only_counts
unfolding reconcile_snapshots
reconciled_town = refl

reconcile_snapshots-worst_example :
    (map (λ c. c.name) only_counts.checks ≡ comparisons ++ ("metadata" ∷ []))
    × (status_severity only_counts.status ≡ worst only_counts.checks)
reconcile_snapshots-worst_example =
    reconcile_snapshots-worst no_dumps all_safe all_valid "r" counted_town counted_town only_counts
      reconciled_town

abbrev plain : Contracts
plain = record {
  Config = Bool;
  Evidence = Bool;
  same_config = λ x y. true;
  redact_config = λ config. ok config;
  has_entries = λ e. e;
  evidence_safe = λ e. ok tt;
  is_job_id = λ j. true;
  job_id_safe = λ j. ok tt;
  validate_run = λ run. ok tt;
}

abbrev finished_run : Run Bool Bool
finished_run = record {
  id = "r";
  plan_id = "p";
  plan_digest = "d";
  service = "s";
  safety_mode = apply;
  config = true;
  job_ids = [];
  checkpoints = [];
  outcome = Outcome.succeeded;
}

reconcile_run-Leaves_example :
    Leaves plain no_dumps all_safe all_valid
      (ok finished_run)
      (some counted_town)
      (some counted_town)
      (none, true)
      (reconcile_run plain no_dumps all_safe all_valid
        (ok finished_run)
        (some counted_town)
        (some counted_town)
        (none, true))
reconcile_run-Leaves_example =
    reconcile_run-Leaves plain no_dumps all_safe all_valid (ok finished_run) (some counted_town)
      (some counted_town) (none, true)
