-- ===== src/Runs/Resume.antt =====
-- runs/orchestration.py: `_bound` and `resume_run`.
use honua_migrate.Base.{
  Bool, true, false, not, ◌&&◌, Option, none, some, List, [], ◌∷◌, any, ◌==◌, string_eq, option_eq,
  if◌then◌else◌,
}
use honua_migrate.Runs.Contracts.{
  migration, Result, ok, then_result, Action, Run, Outcome, Checkpoint, exit_remote_error,
  exit_apply_refused,
}
use honua_migrate.Runs.Interface.{Contracts, Adapter, Receipt}
use honua_migrate.Runs.Effect.{pure, raise, lift, attempt, ◌>>=◌, ◌>>◌}
use honua_migrate.Runs.Checkpoints.{
  complete, find, validated_checkpoints, is_started, is_succeeded, invalid,
}
use honua_migrate.Runs.Store.{inspected, RunRecord, RunEffect, save, load, lease}
use honua_migrate.Runs.Execute.{Plan, execute_one, finish}

module _ (c : Contracts) where
  unfoldable pub is_bound : Plan → Run c.Config c.Evidence → c.Config → Bool
  is_bound plan run redacted =
      run.plan_id == plan.id
      && run.plan_digest == plan.plan_digest
      && run.service == plan.service
      && c.same_config run.config redacted

  unfoldable pub bound : Plan → Run c.Config c.Evidence → c.Config → Result (Unit {0})
  unfolding is_bound
  bound plan run config =
      then_result (c.redact_config config)
        λ redacted. if is_bound plan run redacted then ok tt else invalid

-- What the checkpoint of an action asks of `resume_run`.
pub data Progress : Type 0 where
  not_begun begun finished : Progress

unfoldable pub progress_of : {E : Type 0} → Option (Checkpoint E) → Progress
progress_of none = not_begun
progress_of (some cp) =
    if is_succeeded cp.status then finished else if is_started cp.status then begun else not_begun

module _ (c : Contracts) (a : Adapter c.Evidence) where
  unfoldable pub call_inspect : Action → RunEffect c a (Option (Receipt c.Evidence))
  call_inspect x w =
      let (r, s) = a.inspect x w.state in
      (r, record w { state = s; events = inspected x ∷ w.events })

  -- The tail of the loop's body: the acknowledgement, then the execution.
  unfoldable pub execute_acknowledged :
      RunRecord c a → Action → Bool → RunEffect c a (RunRecord c a)
  execute_acknowledged run x acknowledged =
      if x.write && not acknowledged
      then raise (migration exit_apply_refused)
      else execute_one c a run x

  unfoldable pub after_inspect :
      RunRecord c a → Action → Bool → Option (Receipt c.Evidence) → RunEffect c a (RunRecord c a)
  unfolding execute_acknowledged
  after_inspect run x acknowledged (some observed) = do
    completed ← attempt (lift (complete c run x observed)) λ e. raise (migration exit_remote_error)
    save c a completed
    pure completed
  after_inspect run x acknowledged none =
      if x.write && not x.idempotent
      then raise (migration exit_apply_refused)
      else execute_acknowledged run x acknowledged

  -- The body of the loop, by what the checkpoint says.
  unfoldable pub resume_one :
      RunRecord c a → Action → Bool → Progress → RunEffect c a (RunRecord c a)
  unfolding call_inspect after_inspect execute_acknowledged ◌>>=◌ attempt
  resume_one run x acknowledged finished = pure run
  resume_one run x acknowledged not_begun = execute_acknowledged run x acknowledged
  resume_one run x acknowledged begun = do
    observed ← attempt (call_inspect x) (λ e. raise (migration exit_remote_error))
    after_inspect run x acknowledged observed

  -- `checkpoints` is what validation returned. The loop's own writes to it are at identities that
  -- are met no more, since the identities of a plan are distinct.
  unfoldable pub resume_all :
      List (Checkpoint c.Evidence)
      → RunRecord c a
      → List Action
      → Bool
      → RunEffect c a (RunRecord c a)
  unfolding resume_one progress_of find
  resume_all checkpoints run [] acknowledged = pure run
  resume_all checkpoints run (x ∷ xs) acknowledged =
      resume_one run x acknowledged (progress_of (find c x.id checkpoints)) >>= λ run'.
      resume_all checkpoints run' xs acknowledged

  abbrev pub is_done : Outcome → Bool
  is_done Outcome.succeeded = true
  is_done _ = false

  unfoldable pub continue_run :
      Plan → Bool → RunRecord c a → List (Checkpoint c.Evidence) → RunEffect c a (RunRecord c a)
  continue_run plan acknowledged run checkpoints =
      if is_done run.outcome
      then (if any (λ x. x.write && not x.idempotent) plan.actions
          then raise (migration exit_apply_refused)
          else pure run)
      else (resume_all checkpoints run plan.actions acknowledged >>= finish c a)

  unfoldable pub resume_loaded : Plan → c.Config → Bool → RunEffect c a (RunRecord c a)
  unfolding continue_run
  resume_loaded plan config acknowledged = do
    run ← load c a
    lift (bound c plan run config)
    checkpoints ← lift (validated_checkpoints c plan.actions run)
    continue_run plan acknowledged run checkpoints

  -- `resume_run` after `load_plan`
  unfoldable pub resume_run : Plan → c.Config → Bool → RunEffect c a (RunRecord c a)
  unfolding resume_loaded resume_all ◌>>=◌
  resume_run plan config acknowledged = lease c a (resume_loaded plan config acknowledged)
