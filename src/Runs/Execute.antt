-- ===== src/Runs/Execute.antt =====
-- runs/orchestration.py: `_execute_one` and `start_run`.
use honua_migrate.Base.{Bool, not, ◌&&◌, List, [], ◌∷◌, any, if◌then◌else◌, ℕ, ◌==◌, nat_eq, ◌||◌}
use honua_migrate.Runs.Contracts.{
  Exc, migration, interrupted, other, Action, Outcome, Status, read_only, apply, exit_partial,
  exit_remote_error, exit_apply_refused, exit_unavailable,
}
use honua_migrate.Runs.Interface.{Contracts, Adapter, Receipt}
use honua_migrate.Runs.Effect.{pure, raise, lift, attempt, ◌>>=◌, ◌>>◌}
use honua_migrate.Runs.Checkpoints.{checkpoint, replace_checkpoint, complete}
use honua_migrate.Runs.Store.{executed, RunRecord, RunEffect, create, save, lease}
use honua_migrate.Base.{String}

-- The exit codes that `_execute_one` passes on; all others become a remote error.
unfoldable pub safe_code : ℕ → ℕ
safe_code n =
    if n == exit_apply_refused
      || n == exit_partial
      || n == exit_remote_error
      || n == exit_unavailable
    then n
    else exit_remote_error

-- The exit code of each `except` clause.
unfoldable pub failure_code : Exc → ℕ
unfolding safe_code
failure_code interrupted = exit_partial
failure_code (migration n) = safe_code n
failure_code other = exit_remote_error

-- The authenticated plan, with its actions validated.
pub record Plan : Type 0 where
  pub id : String
  pub plan_digest : String
  pub service : String
  pub actions : List Action

unfoldable pub writes : List Action → Bool
writes actions = any (λ x. x.write) actions

module _ (c : Contracts) (a : Adapter c.Evidence) where
  unfoldable pub call_execute : Action → RunEffect c a (Receipt c.Evidence)
  call_execute x w =
      let (r, s) = a.execute x w.state in
      (r, record w { state = s; events = executed x ∷ w.events })

  -- The artifact before the call, and after a failure of it.
  unfoldable pub started_run : RunRecord c a → Action → RunRecord c a
  unfolding replace_checkpoint checkpoint
  started_run run x = record (replace_checkpoint c run x (checkpoint c x Status.started)) {
    outcome = Outcome.running;
  }

  unfoldable pub partial_run : RunRecord c a → Action → RunRecord c a
  unfolding started_run
  partial_run run x = record (started_run run x) { outcome = Outcome.partial }

  -- The body of the `try`, which works on a copy of the run.
  unfoldable pub perform : RunRecord c a → Action → RunEffect c a (RunRecord c a)
  unfolding call_execute ◌>>=◌
  perform run x = do
    receipt ← call_execute x
    completed ← lift (complete c (started_run run x) x receipt)
    save c a completed
    pure completed

  -- The `except` clauses, which differ in the exit code.
  unfoldable pub recover : RunRecord c a → Action → Exc → RunEffect c a (RunRecord c a)
  unfolding failure_code ◌>>=◌
  recover run x e = do save c a (partial_run run x); raise (migration (failure_code e))

  unfoldable pub execute_one : RunRecord c a → Action → RunEffect c a (RunRecord c a)
  unfolding perform recover attempt
  execute_one run x = do save c a (started_run run x); attempt (perform run x) (recover run x)

  unfoldable pub execute_all : RunRecord c a → List Action → RunEffect c a (RunRecord c a)
  execute_all run [] = pure run
  execute_all run (x ∷ xs) = execute_one run x >>= λ run'. execute_all run' xs

  -- The last two statements of `start_run` and of `resume_run`.
  unfoldable pub finish : RunRecord c a → RunEffect c a (RunRecord c a)
  finish run = do let done = record run { outcome = Outcome.succeeded }; save c a done; pure done

  unfoldable pub initial_run : Plan → String → c.Config → RunRecord c a
  unfolding writes
  initial_run plan run_id config = record {
    id = run_id;
    plan_id = plan.id;
    plan_digest = plan.plan_digest;
    service = plan.service;
    safety_mode = if writes plan.actions then apply else read_only;
    config = config;
    job_ids = [];
    checkpoints = [];
    outcome = Outcome.pending;
  }

  unfoldable pub begin : RunRecord c a → List Action → RunEffect c a (RunRecord c a)
  begin run actions = do create c a run; done ← execute_all run actions; finish done

  -- `start_run` after `load_plan`; `run_id` is the caller's, or the plan's with `-run` behind it.
  unfoldable pub start_run : Plan → String → c.Config → Bool → RunEffect c a (RunRecord c a)
  unfolding begin writes execute_all finish initial_run ◌>>=◌
  start_run plan run_id config acknowledged =
      if writes plan.actions && not acknowledged then raise (migration exit_apply_refused) else (do
        redacted ← lift (c.redact_config config)
        lease c a (begin (initial_run plan run_id redacted) plan.actions))
