-- ===== src/Runs/Crash.antt =====
-- Wherever `start_run` stops, the artifact on the disk can be resumed.
use mathlib.Core.List.{append-nil, append_assoc}
use honua_migrate.Base.{
  ◌≡◌, refl, subst, ◌∙◌, inl, inr, Bool, false, not, ◌&&◌, some, List, [], ◌∷◌, ◌++◌, String, All,
  contains, string_eq, option_eq, Bool-cases,
}
use honua_migrate.Runs.Contracts.{Action, Status, Outcome}
use honua_migrate.Runs.Interface.{Contracts, Adapter}
use honua_migrate.Runs.Effect.{Keeps-bind-lift}
use honua_migrate.Runs.Checkpoints.{checkpoint}
use honua_migrate.Runs.Store.{Event, wrote, inspected, executed, RunRecord, RunWorld, create, save}
use honua_migrate.Runs.Execute.{
  Plan, started_run, partial_run, execute_one, execute_all, finish, begin, initial_run, start_run,
  writes,
}
use honua_migrate.Runs.Rules.{save_rule, create_rule, execute_one_rule, lease-events}
use honua_migrate.Runs.Ends.{Ends, returns, bind_rule, Ends-mono, world_of_Ends}
use honua_migrate.Runs.Trail.{ids, Fresh, Fresh-middle}
use honua_migrate.Runs.Resumable.{
  Resumable, Reached, running-Resumable, succeeded-Resumable, started-Resumable, pending-Resumable,
}
use honua_migrate.Runs.Noted.{
  started_run-checkpoints, started_run-job_ids, started_run-outcome, complete-Trail,
}

module _ (c : Contracts) (a : Adapter c.Evidence) where
  -- The event leaves a resumable artifact, if it is a write.
  abbrev pub LeavesResumable : List Action → Event (RunRecord c a) → Type 0
  LeavesResumable actions (wrote run) = Resumable c actions run
  LeavesResumable actions (inspected x) = Unit
  LeavesResumable actions (executed x) = Unit

  abbrev Safe : List Action → RunWorld c a → Type 0
  Safe actions w = All (LeavesResumable actions) w.events

  started_run-Resumable :
      (done : List Action) (x : Action) (more : List Action) (run : RunRecord c a)
      → Fresh [] (done ++ (x ∷ more))
      → Reached c done run
      → Resumable c (done ++ (x ∷ more)) (started_run c a run x)
        × Resumable c (done ++ (x ∷ more)) (partial_run c a run x)
  unfolding partial_run
  started_run-Resumable done x more run f t =
      let shape : (started_run c a run x).checkpoints
          ≡ run.checkpoints ++ (checkpoint c x Status.started ∷ []) =
        started_run-checkpoints c a done run x t (Fresh-middle [] done x more f) in
      (
        started-Resumable c done x more (started_run c a run x) run.checkpoints f t shape
            (inl refl),
        started-Resumable c done x more (partial_run c a run x) run.checkpoints f t shape
            (inr refl),
      )

  completed-Resumable :
      (done : List Action) (x : Action) (more : List Action) (run : RunRecord c a)
      → Fresh [] (done ++ (x ∷ more))
      → Reached c (done ++ (x ∷ [])) run
      → run.outcome ≡ Outcome.running
      → Resumable c (done ++ (x ∷ more)) run
  completed-Resumable done x more run f t o =
      subst (λ l. Resumable c l run) (append_assoc done (x ∷ []) more)
        (running-Resumable c done x more run (rw append_assoc f) t o)

  execute_one-Safe :
      (done : List Action) (x : Action) (more : List Action) (run : RunRecord c a)
      (w : RunWorld c a)
      → Fresh [] (done ++ (x ∷ more))
      → Reached c done run
      → Safe (done ++ (x ∷ more)) w
      → Ends
          (λ run' w'. Reached c (done ++ (x ∷ [])) run' × Safe (done ++ (x ∷ more)) w')
          (λ _ w'. Safe (done ++ (x ∷ more)) w')
          (execute_one c a run x w)
  execute_one-Safe done x more run w f t h =
      let (s, p) = started_run-Resumable done x more run f t in
      execute_one_rule c a run x w (λ e _. h)
        (λ receipt run' _ e.
          let new : contains (ids done) x.id ≡ false = Fresh-middle [] done x more f in
          let (t', o) =
            complete-Trail c done run.checkpoints (started_run c a run x) x receipt
              (rw (started_run-job_ids c a run x) t) (started_run-checkpoints c a done run x t new)
              new e in
          (
            t',
            (
              completed-Resumable done x more run' f t' (o ∙ started_run-outcome c a run x),
              (tt, (s, h)),
            ),
          ))
        (λ e _. (p, (tt, (s, h)))) (λ e _. (tt, (s, h)))

  execute_all-Safe :
      (done more : List Action) (run : RunRecord c a) (w : RunWorld c a)
      → Fresh [] (done ++ more)
      → Reached c done run
      → Safe (done ++ more) w
      → Ends
          (λ run' w'. Reached c (done ++ more) run' × Safe (done ++ more) w')
          (λ _ w'. Safe (done ++ more) w')
          (execute_all c a run more w)
  unfolding execute_all
  execute_all-Safe done [] run w f t h = returns (rw append-nil t, h)
  execute_all-Safe done (x ∷ more) run w f t h =
      bind_rule (execute_one c a run x) _ w (execute_one-Safe done x more run w f t h)
        λ run' w' (t', h').
          subst
            (λ l.
              Ends (λ r v. Reached c l r × Safe l v) (λ _ v. Safe l v)
                (execute_all c a run' more w'))
            (append_assoc done (x ∷ []) more)
            (execute_all-Safe (done ++ (x ∷ [])) more run' w' (rw append_assoc f) t'
              (rw append_assoc h'))

  -- What `start_run` returns: every action's checkpoint, succeeded, and the run on the disk.
  abbrev pub Finished : List Action → RunRecord c a → RunWorld c a → Type 0
  Finished actions run w =
      Reached c actions run × (run.outcome ≡ Outcome.succeeded) × (w.file ≡ some run)

  finish-Safe :
      (actions : List Action) (run : RunRecord c a) (w : RunWorld c a)
      → Fresh [] actions
      → Reached c actions run
      → Safe actions w
      → Ends
          (λ run' w'. Finished actions run' w' × Safe actions w')
          (λ _ w'. Safe actions w')
          (finish c a run w)
  unfolding finish
  finish-Safe actions run w f t h =
      let done : RunRecord c a = record run { outcome = Outcome.succeeded } in
      bind_rule (save c a done) _ w
        (save_rule c a {Q = λ _ w'. (w'.file ≡ some done) × Safe actions w'} done w
          (λ s. (refl, (succeeded-Resumable c actions done f t refl, h))) (λ e s. h))
        λ _ w' (p, h'). returns ((t, refl, p), h')

  pub begin-Safe :
      (plan : Plan) (run_id : String) (config : c.Config) (w : RunWorld c a)
      → Fresh [] plan.actions
      → Safe plan.actions w
      → Ends
          (λ run w'. Finished plan.actions run w' × Safe plan.actions w')
          (λ _ w'. Safe plan.actions w')
          (begin c a (initial_run c a plan run_id config) plan.actions w)
  unfolding begin initial_run
  begin-Safe plan run_id config w f h =
      let run : RunRecord c a = initial_run c a plan run_id config in
      bind_rule (create c a run) _ w
        (create_rule c a {Q = λ _ w'. Safe plan.actions w'} run w
          (λ s. (pending-Resumable c plan.actions run refl refl refl, h)) (λ e s. h))
        λ _ w' h'.
          bind_rule (execute_all c a run plan.actions) _ w'
            (execute_all-Safe [] plan.actions run w' f refl h')
            λ run' w'' (t, h''). finish-Safe plan.actions run' w'' f t h''

  -- If no identity of the plan's actions is used twice, every artifact that `start_run` writes, at
  -- whatever point it stops or fails, passes the checkpoint validation of `resume_run`.
  pub start_run-Resumable :
      (plan : Plan) (run_id : String) (config : c.Config) (acknowledged : Bool) (w : RunWorld c a)
      → Fresh [] plan.actions
      → w.events ≡ []
      → All
          (LeavesResumable plan.actions)
          (start_run c a plan run_id config acknowledged w).1.events
  unfolding start_run
  start_run-Resumable plan run_id config acknowledged w f e =
      elim (Bool-cases (writes plan.actions && not acknowledged)) [
        | inl refused ↦ rw (refused, e) tt
        | inr going ↦ rw going (
            (Keeps-bind-lift {P = Safe plan.actions} (c.redact_config config) _ (λ redacted _.
                record {
                  at = λ w' h'.
                      lease-events c a (All (LeavesResumable plan.actions)) _ w'
                        (λ w'' _ h''. world_of_Ends (Safe plan.actions) _ (
                          Ends-mono _ (begin-Safe plan run_id redacted w'' f h'') (λ _ _ q. q.1)
                            (λ _ _ q. q)))
                        h';
                })).at
              w (rw e tt))
      ]
