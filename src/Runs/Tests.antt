-- ===== src/Runs/Tests.antt =====
-- Runs at concrete data, and the theorems where their hypotheses hold.
use honua_migrate.Base.{
  ◌≡◌, refl, ℕ, suc, Bool, true, false, not, ◌&&◌, none, some, List, [], ◌∷◌, ◌++◌, All, ◌==◌,
  bool_eq, string_eq, ◌≢◌, length, option_eq, nat_eq,
}
use honua_migrate.Runs.Contracts.{
  ok, err, migration, Action, Checkpoint, Status, JobField, Outcome, exit_apply_refused, apply,
}
use honua_migrate.Runs.Interface.{Contracts, Adapter, opened}
use honua_migrate.Runs.Checkpoints.{
  RawAction, object, missing, flag, validated_actions, validated_checkpoints, find, checkpoint,
  complete,
}
use honua_migrate.Runs.Store.{wrote, inspected, RunRecord, RunWorld, save, create, lease}
use honua_migrate.Runs.Execute.{Plan, writes, started_run, execute_one, start_run}
use honua_migrate.Runs.Resume.{Progress, progress_of, resume_run, resume_all}
use honua_migrate.Runs.Preserve.{Cleared}
use honua_migrate.Runs.Trail.{Fresh}
use honua_migrate.Runs.Journal.{WriteAhead, start_run-WriteAhead, resume_run-WriteAhead}
use honua_migrate.Runs.Consent.{Justified, start_run-consent, resume_run-no_replay}
use honua_migrate.Runs.Crash.{LeavesResumable, start_run-Resumable}
use honua_migrate.Runs.Success.{Succeeded, start_run-Succeeded}
use honua_migrate.Runs.Actions.{validated_actions-Fresh}
use honua_migrate.Runs.Stuck.{resume_all-stuck}

-- Contracts that accept everything, over Booleans.
abbrev lenient : Contracts
lenient = record {
  Config = Bool;
  Evidence = Bool;
  same_config = λ x y. x == y;
  redact_config = λ config. ok config;
  has_entries = λ e. e;
  evidence_safe = λ e. ok tt;
  is_job_id = λ j. true;
  job_id_safe = λ j. ok tt;
  validate_run = λ run. ok tt;
}

-- An adapter that counts its calls and always finds the work done.
abbrev counting : Adapter Bool
counting = record {
  State = ℕ;
  inspect = λ x s. (ok (some (record { job_id = none; evidence = true })), suc s);
  execute = λ x s. (ok (record { job_id = some "job-1"; evidence = true }), suc s);
  write_file = λ s. (true, s);
  open_lock = λ s. (opened, s);
}

abbrev load_layer : Action
load_layer = record { id = "layer"; write = true; idempotent = false }

abbrev publish : Action
publish = record { id = "publish"; write = true; idempotent = true }

abbrev plan : Plan
plan = record {
  id = "p";
  plan_digest = "sha256:0";
  service = "arcgis";
  actions = load_layer ∷ publish ∷ [];
}

abbrev fresh_world : RunWorld lenient counting
fresh_world = record { file = none; locked = false; state = 0; events = [] }

plan-Fresh : Fresh [] plan.actions
unfolding string_eq
plan-Fresh = (refl, (refl, tt))

-- What the first action leaves where the process dies in its call.
abbrev interrupted_run : RunRecord lenient counting
interrupted_run = record {
  id = "p-run";
  plan_id = "p";
  plan_digest = "sha256:0";
  service = "arcgis";
  safety_mode = apply;
  config = true;
  job_ids = [];
  checkpoints =
      record {
        action_id = some "layer";
        write = some true;
        idempotent = some false;
        status = Status.started;
        job_id = JobField.absent;
        evidence = none;
      }
      ∷ [];
  outcome = Outcome.partial;
}

abbrev interrupted_world : RunWorld lenient counting
interrupted_world = record { file = some interrupted_run; locked = false; state = 1; events = [] }

abbrev completed_run : RunRecord lenient counting
completed_run = record interrupted_run {
  checkpoints =
      record {
        action_id = some "layer";
        write = some true;
        idempotent = some false;
        status = Status.succeeded;
        job_id = JobField.absent;
        evidence = some true;
      }
      ∷ [];
}

start_run-WriteAhead_example :
    WriteAhead lenient counting
      (start_run lenient counting plan "p-run" true true fresh_world).1.events
start_run-WriteAhead_example =
    start_run-WriteAhead lenient counting plan "p-run" true true fresh_world tt

resume_run-WriteAhead_example :
    WriteAhead lenient counting
      (resume_run lenient counting plan true true interrupted_world).1.events
resume_run-WriteAhead_example =
    resume_run-WriteAhead lenient counting plan true true interrupted_world tt

start_run-consent_example :
    All
      (Justified (λ x. (x.write && not true) ≡ false))
      (start_run lenient counting plan "p-run" true true fresh_world).1.events
start_run-consent_example =
    start_run-consent lenient counting plan "p-run" true true fresh_world refl

resume_run-no_replay_example :
    All
      (Justified
        (λ x. Cleared true x (progress_of (find lenient x.id interrupted_run.checkpoints))))
      (resume_run lenient counting plan true true interrupted_world).1.events
resume_run-no_replay_example =
    resume_run-no_replay lenient counting plan true true interrupted_world interrupted_run refl refl

start_run-Resumable_example :
    All
      (LeavesResumable lenient counting plan.actions)
      (start_run lenient counting plan "p-run" true true fresh_world).1.events
start_run-Resumable_example =
    start_run-Resumable lenient counting plan "p-run" true true fresh_world plan-Fresh refl

abbrev finished_checkpoint : Action → Checkpoint Bool
finished_checkpoint x = record {
  action_id = some x.id;
  write = some x.write;
  idempotent = some x.idempotent;
  status = Status.succeeded;
  job_id = JobField.text "job-1";
  evidence = some true;
}

abbrev finished_run : RunRecord lenient counting
finished_run = record interrupted_run {
  job_ids = "job-1" ∷ [];
  checkpoints = finished_checkpoint load_layer ∷ finished_checkpoint publish ∷ [];
  outcome = Outcome.succeeded;
}

started_to_end : (start_run lenient counting plan "p-run" true true fresh_world).0 ≡ ok finished_run
unfolding start_run save create lease string_eq option_eq complete writes execute_one started_run
started_to_end = refl

start_run-Succeeded_example :
    Succeeded lenient counting plan.actions finished_run
      (start_run lenient counting plan "p-run" true true fresh_world).1
start_run-Succeeded_example =
    start_run-Succeeded lenient counting plan "p-run" true true fresh_world finished_run plan-Fresh
      refl started_to_end

abbrev raw_actions : List RawAction
raw_actions =
    object (some "layer") missing missing ∷ object (some "publish") missing (flag true) ∷ []

raw_actions-validated : validated_actions raw_actions [] ≡ ok plan.actions
unfolding validated_actions string_eq
raw_actions-validated = refl

validated_actions-Fresh_example :
    Fresh [] plan.actions
    × All (λ x. x.id ≢ "") plan.actions
    × (length plan.actions ≡ length raw_actions)
validated_actions-Fresh_example = validated_actions-Fresh raw_actions raw_actions-validated

completed-found :
    complete lenient interrupted_run load_layer (record { job_id = none; evidence = true })
    ≡ ok completed_run
unfolding complete option_eq string_eq
completed-found = refl

first-begun : progress_of (find lenient "layer" interrupted_run.checkpoints) ≡ Progress.begun
unfolding progress_of find option_eq string_eq
first-begun = refl

second-not_begun :
    progress_of (find lenient "publish" interrupted_run.checkpoints) ≡ Progress.not_begun
unfolding progress_of find option_eq string_eq
second-not_begun = refl

started_shape :
    interrupted_run.checkpoints ≡ [] ++ (checkpoint lenient load_layer Status.started ∷ [])
unfolding checkpoint
started_shape = refl

resume_all-stuck_example :
    (resume_all lenient counting interrupted_run.checkpoints interrupted_run
        (load_layer ∷ publish ∷ [])
        false
        interrupted_world
      ≡ (
        err (migration exit_apply_refused),
        record interrupted_world {
          file = some completed_run;
          state = 2;
          events = wrote completed_run ∷ inspected load_layer ∷ [];
        },
      ))
    × ((actions : List Action) (found : List (Checkpoint Bool))
        → ¬ (validated_checkpoints lenient actions completed_run ≡ ok found))
resume_all-stuck_example =
    resume_all-stuck lenient counting [] load_layer publish [] [] interrupted_run.checkpoints
      interrupted_run completed_run interrupted_world (record { job_id = none; evidence = true }) 2
      2 refl refl started_shape refl first-begun second-not_begun refl refl completed-found refl
      refl
