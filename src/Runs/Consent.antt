-- ===== src/Runs/Consent.antt =====
-- Which actions a run calls the executor with: writes wait for the acknowledgement, and a resumed
-- run replays nothing that was done.
use honua_migrate.Base.{
  ◌≡◌, sym, Bool, false, not, ◌&&◌, List, [], ◌∷◌, String, some, arith, All, All-of, ◌∙◌,
}
use mathlib.Core.Option.{some-injective}
use honua_migrate.Runs.Contracts.{Action}
use honua_migrate.Runs.Interface.{Contracts, Adapter}
use honua_migrate.Runs.Effect.{Keeps}
use honua_migrate.Runs.Checkpoints.{find}
use honua_migrate.Runs.Store.{Event, wrote, inspected, executed, RunRecord, RunWorld}
use honua_migrate.Runs.Execute.{Plan, writes, execute_one, start_run}
use honua_migrate.Runs.Resume.{progress_of, resume_run}
use honua_migrate.Runs.Rules.{execute_one_rule}
use honua_migrate.Runs.Ends.{world_of_Ends}
use honua_migrate.Runs.Preserve.{Cleared, Keeps-start_run, resume_run-events}

-- An event is justified if it is no call of `execute`, or a call with an action that `P` allows.
abbrev pub Justified : {R : Type 0} → (Action → Type 0) → Event R → Type 0
Justified P (wrote r) = Unit
Justified P (inspected x) = Unit
Justified P (executed x) = P x

module _ (c : Contracts) (a : Adapter c.Evidence) where
  execute_one-Justified :
      (P : Action → Type 0) (run : RunRecord c a) (x : Action)
      → P x
      → Keeps (λ w. All (Justified P) w.events) (execute_one c a run x)
  execute_one-Justified P run x p = record {
    at = λ w h.
        world_of_Ends (λ w'. All (Justified P) w'.events) _
          (execute_one_rule c a run x w (λ e s. h) (λ _ _ _ _. (tt, (p, (tt, h))))
            (λ _ _. (tt, (p, (tt, h)))) (λ _ _. (p, (tt, h))));
  }

  consented_of_writes :
      (acknowledged : Bool) (xs : List Action)
      → (writes xs && not acknowledged) ≡ false
      → All (λ x. (x.write && not acknowledged) ≡ false) xs
  unfolding writes
  consented_of_writes acknowledged [] h = tt
  consented_of_writes acknowledged (x ∷ xs) h =
      (ground arith, consented_of_writes acknowledged xs (ground arith))

  -- `start_run` calls the executor with a write only if the caller has acknowledged writes.
  pub start_run-consent :
      (plan : Plan) (run_id : String) (config : c.Config) (acknowledged : Bool) (w : RunWorld c a)
      → w.events ≡ []
      → All
          (Justified (λ x. (x.write && not acknowledged) ≡ false))
          (start_run c a plan run_id config acknowledged w).1.events
  start_run-consent plan run_id config acknowledged w e =
      (Keeps-start_run c a (All (Justified P)) P (λ _ _ h. (tt, h)) (λ _ _ h. (tt, h))
          (execute_one-Justified P) plan run_id config acknowledged
          (consented_of_writes acknowledged plan.actions)).at
        w (rw e tt)
    where
      P : Action → Type 0
      P x = (x.write && not acknowledged) ≡ false

  -- `resume_run` calls the executor with an action only if the loaded run does not say that it
  -- succeeded, if it is acknowledged or no write, and, where the run says that it was started, if
  -- it is idempotent or no write.
  pub resume_run-no_replay :
      (plan : Plan) (config : c.Config) (acknowledged : Bool) (w : RunWorld c a)
      (run : RunRecord c a)
      → w.file ≡ some run
      → w.events ≡ []
      → All
          (Justified (λ x. Cleared acknowledged x (progress_of (find c x.id run.checkpoints))))
          (resume_run c a plan config acknowledged w).1.events
  resume_run-no_replay plan config acknowledged w run f e =
      resume_run-events c a (All (Justified P)) P (λ _ _ h. (tt, h)) (λ _ _ h. (tt, h))
        (execute_one-Justified P) plan config acknowledged w
        (λ run' g. rw (← some-injective _ _ (sym f ∙ g)) (All-of _ (λ x p. p) plan.actions))
        (rw e tt)
    where
      P : Action → Type 0
      P x = Cleared acknowledged x (progress_of (find c x.id run.checkpoints))
