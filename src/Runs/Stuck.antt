-- ===== src/Runs/Stuck.antt =====
-- A path of `resume_run` that leaves an artifact which no later `resume_run` accepts: an action
-- that an inspection completes is saved under the old outcome `partial`.
use honua_migrate.Base.{
  ℕ, String, ◌≡◌, refl, ◌∙◌, true, false, some, List, [], ◌∷◌, ◌++◌, map, length, arith, contains,
  string_eq,
}
use honua_migrate.Runs.Contracts.{
  migration, ok, err, then_result-eq-ok, Action, Run, Checkpoint, Status, Outcome,
  exit_apply_refused,
}
use honua_migrate.Runs.Interface.{Contracts, Adapter, Receipt}
use honua_migrate.Runs.Checkpoints.{
  checkpoint, complete, find, check_loop, check_outcome, last_started, validated_checkpoints,
}
use honua_migrate.Runs.Store.{wrote, inspected, RunRecord, RunWorld, save, write_to}
use honua_migrate.Runs.Resume.{progress_of, begun, not_begun, resume_all}
use honua_migrate.Runs.Trail.{ids, Trail}
use honua_migrate.Runs.Noted.{complete-Trail}

module _ (c : Contracts) where
  open c use {Config, Evidence}

  refused_outcome :
      (run : Run Config Evidence) (n : ℕ)
      → run.outcome ≡ Outcome.partial
      → last_started c (map (λ cp. cp.status) run.checkpoints) ≡ false
      → check_outcome c run.outcome (map (λ cp. cp.status) run.checkpoints) n ≡ ok tt
      → ⊥
  unfolding check_outcome
  refused_outcome run n o l h = ground arith

  partial-refused :
      (actions : List Action) (run : Run Config Evidence) (cps : List (Checkpoint Evidence))
      → run.outcome ≡ Outcome.partial
      → last_started c (map (λ cp. cp.status) run.checkpoints) ≡ false
      → ¬ (validated_checkpoints c actions run ≡ ok cps)
  unfolding validated_checkpoints
  partial-refused actions run cps o l h =
      let ((found, jobs), _, h₁) =
        then_result-eq-ok (check_loop c actions run.checkpoints [] []) _ h in
      let (u, checked, _) =
        then_result-eq-ok
          (check_outcome c run.outcome (map (λ cp. cp.status) run.checkpoints) (length actions)) _
          h₁ in
      refused_outcome run (length actions) o l checked

  last_started-Trail :
      (done : List Action) (x : Action) (cps : List (Checkpoint Evidence))
      (jobs jobs' : List String)
      → Trail c (done ++ (x ∷ [])) cps jobs jobs'
      → last_started c (map (λ cp. cp.status) cps) ≡ false
  last_started-Trail [] x [] jobs jobs' t = refl
  last_started-Trail [] x (cp ∷ []) jobs jobs' t = rw t.0.done
  last_started-Trail [] x (cp ∷ q ∷ cps) jobs jobs' (d, (next, e, t)) = elim t [ ]
  last_started-Trail (y ∷ done) x [] jobs jobs' t = refl
  last_started-Trail (y ∷ []) x (cp ∷ []) jobs jobs' (d, (next, e, t)) = elim t [ ]
  last_started-Trail (y ∷ z ∷ done) x (cp ∷ []) jobs jobs' (d, (next, e, t)) = elim t [ ]
  last_started-Trail (y ∷ done) x (cp ∷ q ∷ cps) jobs jobs' (d, (next, e, t)) =
      last_started-Trail done x (q ∷ cps) next jobs' t

module _ (c : Contracts) (a : Adapter c.Evidence) where
  -- Let the artifact hold an interrupted run: outcome `partial`, a trail of succeeded actions, and
  -- behind it the started checkpoint of `x`. Let the inspection of `x` find it done, let the run
  -- completed with what was found be valid and its write reach the disk, and let the next action `y`
  -- be a write that is not begun. Without the acknowledgement `resume_run`'s loop is refused, and
  -- what it leaves on the disk is a run whose checkpoints no plan's validation accepts any more.
  pub resume_all-stuck :
      (done : List Action) (x y : Action) (rest : List Action)
      (trail cps : List (Checkpoint c.Evidence)) (run completed : RunRecord c a) (w : RunWorld c a)
      (receipt : Receipt c.Evidence) (s s' : a.State)
      → run.outcome ≡ Outcome.partial
      → Trail c done trail [] run.job_ids
      → run.checkpoints ≡ trail ++ (checkpoint c x Status.started ∷ [])
      → contains (ids done) x.id ≡ false
      → progress_of (find c x.id cps) ≡ begun
      → progress_of (find c y.id cps) ≡ not_begun
      → y.write ≡ true
      → a.inspect x w.state ≡ (ok (some receipt), s)
      → complete c run x receipt ≡ ok completed
      → c.validate_run completed ≡ ok tt
      → a.write_file s ≡ (true, s')
      → (resume_all c a cps run (x ∷ y ∷ rest) false w ≡ (
        err (migration exit_apply_refused),
        record w {
          file = some completed;
          state = s';
          events = wrote completed ∷ inspected x ∷ w.events;
        },
      ))
        × ((actions : List Action) (found : List (Checkpoint c.Evidence))
            → ¬ (validated_checkpoints c actions completed ≡ ok found))
  unfolding resume_all save write_to
  resume_all-stuck done x y rest trail cps run completed w receipt s s' o t shape new px py wy i e v
        d =
      let (t', o') = complete-Trail c done trail run x receipt t shape new e in
      (
        rw (px, py, i, e, v, d, wy),
        λ actions found.
            partial-refused c actions completed found (o' ∙ o)
              (last_started-Trail c done x completed.checkpoints [] completed.job_ids t'),
      )
