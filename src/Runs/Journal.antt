-- ===== src/Runs/Journal.antt =====
-- What the events of a run say of the artifact: each call of the executor is announced first.
use honua_migrate.Base.{
  ◌≡◌, refl, Bool, some, List, [], ◌∷◌, String, arith, string_eq, option_eq, All-of,
}
use honua_migrate.Runs.Contracts.{Action, Outcome, Status, Checkpoint}
use honua_migrate.Runs.Interface.{Contracts, Adapter}
use honua_migrate.Runs.Effect.{Keeps}
use honua_migrate.Runs.Checkpoints.{checkpoint, replace_in, find}
use honua_migrate.Runs.Store.{Event, wrote, inspected, executed, RunRecord, RunWorld}
use honua_migrate.Runs.Rules.{execute_one_rule}
use honua_migrate.Runs.Ends.{world_of_Ends}
use honua_migrate.Runs.Execute.{started_run, execute_one, start_run, Plan}
use honua_migrate.Runs.Resume.{resume_run}
use honua_migrate.Runs.Preserve.{Keeps-start_run, resume_run-events}

module _ (c : Contracts) where
  find-replace_in :
      (cps : List (Checkpoint c.Evidence)) (id : String) (new : Checkpoint c.Evidence)
      → new.action_id ≡ some id
      → find c id (replace_in c cps id new) ≡ some new
  unfolding find replace_in option_eq
  find-replace_in [] id new e = ground arith
  find-replace_in (cp ∷ cps) id new e = ground (arith, find-replace_in cps id new e)

module _ (c : Contracts) (a : Adapter c.Evidence) where
  abbrev pub Announces : Action → List (Event (RunRecord c a)) → Type 0
  Announces x [] = ⊥
  Announces x (wrote r ∷ events) =
      (r.outcome ≡ Outcome.running)
      × (find c x.id r.checkpoints ≡ some (checkpoint c x Status.started))
  Announces x (_ ∷ events) = ⊥

  started_run-announces :
      (run : RunRecord c a) (x : Action)
      → ((started_run c a run x).outcome ≡ Outcome.running)
        × (find c x.id (started_run c a run x).checkpoints ≡ some (checkpoint c x Status.started))
  unfolding started_run
  started_run-announces run x = (
    refl,
    find-replace_in c run.checkpoints x.id (checkpoint c x Status.started)
        (unfold checkpoint in refl),
  )

  abbrev pub WriteAhead : List (Event (RunRecord c a)) → Type 0
  WriteAhead [] = Unit
  WriteAhead (wrote r ∷ events) = WriteAhead events
  WriteAhead (inspected x ∷ events) = WriteAhead events
  WriteAhead (executed x ∷ events) = Announces x events × WriteAhead events

  -- If every call of the executor so far was announced by the write before it, the same holds after
  -- one more action, however that action ends.
  pub execute_one-WriteAhead :
      (run : RunRecord c a) (x : Action) → Keeps (λ w. WriteAhead w.events) (execute_one c a run x)
  execute_one-WriteAhead run x = record {
    at = λ w h.
        let begun : Announces x (wrote (started_run c a run x) ∷ w.events) × WriteAhead w.events =
          (started_run-announces run x, h) in
        world_of_Ends (λ w'. WriteAhead w'.events) _
          (execute_one_rule c a run x w (λ e s. h) (λ _ _ _ _. begun) (λ _ _. begun)
            (λ _ _. begun));
  }

  -- If every call of the executor so far is announced by the write just before it, which put an
  -- artifact in place whose outcome is `running` and whose checkpoint of the action is `started`,
  -- then so is every call after `start_run`, however it ends.
  pub start_run-WriteAhead :
      (plan : Plan) (run_id : String) (config : c.Config) (acknowledged : Bool) (w : RunWorld c a)
      → WriteAhead w.events
      → WriteAhead (start_run c a plan run_id config acknowledged w).1.events
  start_run-WriteAhead plan run_id config acknowledged w h =
      (Keeps-start_run c a WriteAhead (λ _. Unit {0}) (λ _ _ k. k) (λ _ _ k. k)
          (λ run x _. execute_one-WriteAhead run x) plan run_id config acknowledged
          (λ _. All-of _ (λ _. tt) plan.actions)).at
        w h

  -- The same of `resume_run`: it calls the executor only behind such an announcement.
  pub resume_run-WriteAhead :
      (plan : Plan) (config : c.Config) (acknowledged : Bool) (w : RunWorld c a)
      → WriteAhead w.events
      → WriteAhead (resume_run c a plan config acknowledged w).1.events
  resume_run-WriteAhead plan config acknowledged w h =
      resume_run-events c a WriteAhead (λ _. Unit {0}) (λ _ _ k. k) (λ _ _ k. k)
        (λ run x _. execute_one-WriteAhead run x) plan config acknowledged w
        (λ run _. All-of _ (λ _ _. tt) plan.actions) h
