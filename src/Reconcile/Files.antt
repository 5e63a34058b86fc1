-- ===== src/Reconcile/Files.antt =====
-- runs/reconciliation.py: the reconciliation of a run, from its artifact and two snapshots to the
-- artifact of the result.
use honua_migrate.Base.{Bool, true, false, ◌&&◌, List, String, Option, none, some, ℕ, if◌then◌else◌}
use honua_migrate.Json.{Json, str, obj, get}
use honua_migrate.Runs.Contracts.{
  Result, ok, err, migration, then_result, exit_input_error, exit_validation_error,
  exit_apply_refused, Outcome, Run,
}
use honua_migrate.Runs.Interface.{Contracts}
use honua_migrate.Reconcile.Same.{same}
use honua_migrate.Reconcile.Compare.{Reconciliation, reconcile_snapshots}

-- `_BINDING_FIELDS`
abbrev pub is_bound_field : Json → String → String → Bool
is_bound_field snapshot name expected = same (get name snapshot) (str expected)

module _ (c : Contracts) (dumps : Json → List ℕ) (assert_artifact_safe : Json → Result (Unit {0}))
    (validate_reconciliation : Reconciliation → Result (Unit {0})) where
  abbrev pub Artifact : Type 0
  Artifact = Run c.Config c.Evidence

  -- `load_snapshot`, of a file that is unreadable or holds a value
  unfoldable pub load_snapshot : Option Json → Result Json
  load_snapshot none = err (migration exit_input_error)
  load_snapshot (some (obj fs)) = then_result (assert_artifact_safe (obj fs)) λ _. ok (obj fs)
  load_snapshot (some _) = err (migration exit_validation_error)

  -- `_validate_snapshot_binding`
  unfoldable pub bound_to : Artifact → Json → Bool
  unfolding get same
  bound_to run snapshot =
      is_bound_field snapshot "run_id" run.id
      && is_bound_field snapshot "plan_id" run.plan_id
      && is_bound_field snapshot "plan_digest" run.plan_digest
      && is_bound_field snapshot "service" run.service

  unfoldable pub validate_snapshot_binding : Artifact → Json → Result (Unit {0})
  unfolding bound_to
  validate_snapshot_binding run snapshot =
      if bound_to run snapshot then ok tt else err (migration exit_validation_error)

  -- The output: what is there already, and whether a write of it reaches the disk.
  abbrev pub Output : Type 0
  Output = Option Reconciliation × Bool

  -- `write_reconciliation`, which installs a new file and refuses one that is there.
  abbrev pub install : Reconciliation → Output → Result (Unit {0}) × Option Reconciliation
  install r (some old, true) = (err (migration exit_apply_refused), some old)
  install r (none, true) = (ok tt, some r)
  install r (file, false) = (err (migration exit_input_error), file)

  abbrev pub install_valid :
      Result (Unit {0}) → Reconciliation → Output → Result (Unit {0}) × Option Reconciliation
  install_valid (ok _) r out = install r out
  install_valid (err e) r (file, _) = (err e, file)

  unfoldable pub write_reconciliation :
      Reconciliation → Output → Result (Unit {0}) × Option Reconciliation
  write_reconciliation r out = install_valid (validate_reconciliation r) r out

  abbrev pub require_succeeded : Outcome → Result (Unit {0})
  require_succeeded Outcome.succeeded = ok tt
  require_succeeded _ = err (migration exit_apply_refused)

  -- What is done before anything is written
  unfoldable pub reconciled : Result Artifact → Option Json → Option Json → Result Reconciliation
  unfolding load_snapshot validate_snapshot_binding reconcile_snapshots
  reconciled loaded source_file target_file = then_result loaded λ run.
      then_result (require_succeeded run.outcome) λ _.
        then_result (load_snapshot source_file) λ source.
          then_result (load_snapshot target_file) λ target.
            then_result (validate_snapshot_binding run source) λ _.
              then_result (validate_snapshot_binding run target) λ _.
                reconcile_snapshots dumps assert_artifact_safe validate_reconciliation run.id source
                  target

  abbrev pub written :
      Reconciliation
      → Result (Unit {0}) × Option Reconciliation
      → Result Reconciliation × Option Reconciliation
  written r (ok _, file) = (ok r, file)
  written r (err e, file) = (err e, file)

  abbrev pub write_result :
      Result Reconciliation → Output → Result Reconciliation × Option Reconciliation
  write_result (err e) (file, _) = (err e, file)
  write_result (ok r) out = written r (write_reconciliation r out)

  -- `reconcile_run`, of the run as `RunStore.load` gives it
  unfoldable pub reconcile_run :
      Result Artifact
      → Option Json
      → Option Json
      → Output
      → Result Reconciliation × Option Reconciliation
  unfolding reconciled write_reconciliation
  reconcile_run loaded source_file target_file out =
      write_result (reconciled loaded source_file target_file) out
