-- ===== src/Runs/Preserve.antt =====
-- A property of the events that holds through each write, each inspection and each execution that
-- the code lets through holds through `start_run` and `resume_run`.
use honua_migrate.Base.{
  ◌≡◌, refl, sym, ◌∙◌, ◌≢◌, Bool, true, false, not, ◌&&◌, Option, none, some, List, [], ◌∷◌, String,
  map, length, arith, All, Bool-cases, inl, inr, if◌then◌else◌, any,
}
use honua_migrate.Runs.Contracts.{ok, then_result-eq-ok, Action, Run, Checkpoint}
use honua_migrate.Runs.Interface.{Contracts, Adapter, Receipt}
use honua_migrate.Runs.Effect.{
  Keeps, Keeps-bind, Keeps-pure, Keeps-raise, Keeps-lift, Keeps-attempt, Keeps-bind-lift, lift,
}
use honua_migrate.Runs.Checkpoints.{
  find, validated_checkpoints, check_loop, check_outcome, same_texts, invalid,
}
use honua_migrate.Runs.Store.{
  Event, wrote, inspected, RunRecord, RunWorld, create, save, load, load_file,
}
use honua_migrate.Runs.Execute.{Plan, writes, begin, execute_one, execute_all, finish, start_run}
use honua_migrate.Runs.Resume.{
  Progress, begun, finished, not_begun, progress_of, call_inspect, after_inspect,
  execute_acknowledged, resume_one, resume_all, continue_run, resume_loaded, is_done, resume_run,
  bound,
}
use honua_migrate.Runs.Rules.{save_rule, create_rule, Keeps-lease, lease-events}
use honua_migrate.Runs.Ends.{
  Ends, returns, raises, Ends-mono, bind_rule, lift_rule, Ends-of_world, world_of_Ends,
}

-- What the loop of `resume_run` has tested of an action before it executes it.
pub record Cleared (acknowledged : Bool) (x : Action) (progress : Progress) : Type 0 where
  pub unfinished : progress ≢ finished
  pub consented : (x.write && not acknowledged) ≡ false
  pub repeatable : progress ≡ begun → (x.write && not x.idempotent) ≡ false

ok_of_test : {A : Type 0} (b : Bool) {x y : A} → (if b then ok x else invalid) ≡ ok y → y ≡ x
ok_of_test true h = ground arith
ok_of_test false h = cc

module _ (c : Contracts) where
  pub validated_checkpoints-same :
      (actions : List Action) (run : Run c.Config c.Evidence) {cps : List (Checkpoint c.Evidence)}
      → validated_checkpoints c actions run ≡ ok cps
      → cps ≡ run.checkpoints
  unfolding validated_checkpoints
  validated_checkpoints-same actions run {cps} h =
      let ((found, jobs), _, h₁) =
        then_result-eq-ok (check_loop c actions run.checkpoints [] []) _ h in
      let (_, _, h₂) =
        then_result-eq-ok
          (check_outcome c run.outcome (map (λ cp. cp.status) run.checkpoints) (length actions)) _
          h₁ in
      ok_of_test (same_texts run.job_ids jobs) h₂

module _ (c : Contracts) (a : Adapter c.Evidence) (P : List (Event (RunRecord c a)) → Type 0)
    (Allowed : Action → Type 0)
    (noted : (run : RunRecord c a) (events : List (Event (RunRecord c a)))
      → P events
      → P (wrote run ∷ events))
    (looked : (x : Action) (events : List (Event (RunRecord c a)))
      → P events
      → P (inspected x ∷ events))
    (one : (run : RunRecord c a) (x : Action)
      → Allowed x
      → Keeps (λ w. P w.events) (execute_one c a run x)) where
  Keeps-save : (run : RunRecord c a) → Keeps (λ w. P w.events) (save c a run)
  Keeps-save run = record {
    at = λ w h.
        world_of_Ends (λ w'. P w'.events) _
          (save_rule c a run w (λ s. noted run w.events h) (λ e s. h));
  }

  Keeps-create : (run : RunRecord c a) → Keeps (λ w. P w.events) (create c a run)
  Keeps-create run = record {
    at = λ w h.
        world_of_Ends (λ w'. P w'.events) _
          (create_rule c a run w (λ s. noted run w.events h) (λ e s. h));
  }

  Keeps-finish : (run : RunRecord c a) → Keeps (λ w. P w.events) (finish c a run)
  unfolding finish
  Keeps-finish run = Keeps-bind _ _ (Keeps-save _) (λ _. Keeps-pure _)

  Keeps-execute_all :
      (run : RunRecord c a) (xs : List Action)
      → All Allowed xs
      → Keeps (λ w. P w.events) (execute_all c a run xs)
  unfolding execute_all
  Keeps-execute_all run [] h = Keeps-pure run
  Keeps-execute_all run (x ∷ xs) (hx, hxs) =
      Keeps-bind _ _ (one run x hx) (λ run'. Keeps-execute_all run' xs hxs)

  Keeps-begin :
      (run : RunRecord c a) (xs : List Action)
      → All Allowed xs
      → Keeps (λ w. P w.events) (begin c a run xs)
  unfolding begin
  Keeps-begin run xs h =
      Keeps-bind _ _ (Keeps-create run)
        (λ _. Keeps-bind _ _ (Keeps-execute_all run xs h) (λ done. Keeps-finish done))

  pub Keeps-start_run :
      (plan : Plan) (run_id : String) (config : c.Config) (acknowledged : Bool)
      → ((writes plan.actions && not acknowledged) ≡ false → All Allowed plan.actions)
      → Keeps (λ w. P w.events) (start_run c a plan run_id config acknowledged)
  unfolding start_run
  Keeps-start_run plan run_id config acknowledged h =
      elim (Bool-cases (writes plan.actions && not acknowledged)) [
        | inl refused ↦ rw refused (Keeps-raise _)
        | inr going ↦ rw going (
            Keeps-bind _ _ (Keeps-lift (c.redact_config config))
              (λ redacted. Keeps-lease c a P _ (Keeps-begin _ plan.actions (h going))))
      ]

  Keeps-execute_acknowledged :
      (run : RunRecord c a) (x : Action) (acknowledged : Bool)
      → ((x.write && not acknowledged) ≡ false → Allowed x)
      → Keeps (λ w. P w.events) (execute_acknowledged c a run x acknowledged)
  unfolding execute_acknowledged
  Keeps-execute_acknowledged run x acknowledged h =
      elim (Bool-cases (x.write && not acknowledged)) [
        | inl refused ↦ rw refused (Keeps-raise _)
        | inr going ↦ rw going (one run x (h going))
      ]

  Keeps-inspect : (x : Action) → Keeps (λ w. P w.events) (call_inspect c a x)
  unfolding call_inspect
  Keeps-inspect x = record { at = λ w h. looked x w.events h }

  Keeps-after_inspect :
      (run : RunRecord c a) (x : Action) (acknowledged : Bool) (o : Option (Receipt c.Evidence))
      → (Cleared acknowledged x begun → Allowed x)
      → Keeps (λ w. P w.events) (after_inspect c a run x acknowledged o)
  unfolding after_inspect
  Keeps-after_inspect run x acknowledged (some observed) h =
      Keeps-bind _ _ (Keeps-attempt _ _ (Keeps-lift _) (λ e. Keeps-raise _))
        (λ done. Keeps-bind _ _ (Keeps-save done) (λ _. Keeps-pure done))
  Keeps-after_inspect run x acknowledged none h = elim (Bool-cases (x.write && not x.idempotent)) [
    | inl refused ↦ rw refused (Keeps-raise _)
    | inr going ↦ rw going (
        Keeps-execute_acknowledged run x acknowledged λ consented.
          h (record { unfinished = λ p. cc; consented = consented; repeatable = λ _. going }))
  ]

  Keeps-resume_one :
      (run : RunRecord c a) (x : Action) (acknowledged : Bool) (progress : Progress)
      → (Cleared acknowledged x progress → Allowed x)
      → Keeps (λ w. P w.events) (resume_one c a run x acknowledged progress)
  unfolding resume_one
  Keeps-resume_one run x acknowledged finished h = Keeps-pure run
  Keeps-resume_one run x acknowledged not_begun h =
      Keeps-execute_acknowledged run x acknowledged λ consented.
        h (record { unfinished = λ p. cc; consented = consented; repeatable = λ p. cc })
  Keeps-resume_one run x acknowledged begun h =
      Keeps-bind _ _ (Keeps-attempt _ _ (Keeps-inspect x) (λ e. Keeps-raise _))
        (λ o. Keeps-after_inspect run x acknowledged o h)

  Keeps-resume_all :
      (cps : List (Checkpoint c.Evidence)) (run : RunRecord c a) (xs : List Action)
      (acknowledged : Bool)
      → All (λ x. Cleared acknowledged x (progress_of (find c x.id cps)) → Allowed x) xs
      → Keeps (λ w. P w.events) (resume_all c a cps run xs acknowledged)
  unfolding resume_all
  Keeps-resume_all cps run [] acknowledged h = Keeps-pure run
  Keeps-resume_all cps run (x ∷ xs) acknowledged (hx, hxs) =
      Keeps-bind _ _ (Keeps-resume_one run x acknowledged _ hx)
        (λ run'. Keeps-resume_all cps run' xs acknowledged hxs)

  Keeps-continue_run :
      (plan : Plan) (acknowledged : Bool) (run : RunRecord c a) (cps : List (Checkpoint c.Evidence))
      → All (λ x. Cleared acknowledged x (progress_of (find c x.id cps)) → Allowed x) plan.actions
      → Keeps (λ w. P w.events) (continue_run c a plan acknowledged run cps)
  unfolding continue_run
  Keeps-continue_run plan acknowledged run cps h = elim (Bool-cases (is_done c a run.outcome)) [
    | inl done ↦ rw done (elim (Bool-cases (any (λ x. x.write && not x.idempotent) plan.actions)) [
      | inl e ↦ rw e (Keeps-raise _)
      | inr e ↦ rw e (Keeps-pure run)
    ])
    | inr going ↦ rw going (
        Keeps-bind _ _ (Keeps-resume_all cps run plan.actions acknowledged h)
          (λ run'. Keeps-finish run'))
  ]

  -- The theorem for `resume_run` asks only of the run that the file holds.
  abbrev ForFile : Plan → Bool → RunWorld c a → Type 0
  ForFile plan acknowledged w =
      (run : RunRecord c a)
      → w.file ≡ some run
      → All (λ x. Cleared acknowledged x (progress_of (find c x.id run.checkpoints)) → Allowed x)
          plan.actions

  load_rule :
      (w : RunWorld c a) (o : Option (RunRecord c a))
      → Ends (λ run w'. (w' ≡ w) × (o ≡ some run)) (λ _ w'. w' ≡ w) (load_file c a o w)
  unfolding load_file
  load_rule w none = raises refl
  load_rule w (some run) =
      bind_rule {P = λ _ w'. w' ≡ w} (lift (c.validate_run run)) _ w
        (lift_rule (c.validate_run run) w (λ _ _. refl) (λ _ _. refl)) (λ _ w' p. returns (p, refl))

  resume_loaded-events :
      (plan : Plan) (config : c.Config) (acknowledged : Bool) (w : RunWorld c a)
      → ForFile plan acknowledged w
      → P w.events
      → P (resume_loaded c a plan config acknowledged w).1.events
  unfolding resume_loaded load
  resume_loaded-events plan config acknowledged w f h =
      world_of_Ends (λ w'. P w'.events) _
        (bind_rule (load c a) _ w
          (Ends-mono _ (load_rule w w.file) (λ run w' q. q) (λ e w' p. rw p h))
          λ run w' (p, q). rw p (
            Ends-of_world _ _ (
              (Keeps-bind-lift (bound c plan run config) _ (λ _ _.
                  Keeps-bind-lift (validated_checkpoints c plan.actions run) _ (λ cps e.
                    Keeps-continue_run plan acknowledged run cps
                      (rw (validated_checkpoints-same c plan.actions run e) (f run q))))).at
                w h)))

  pub resume_run-events :
      (plan : Plan) (config : c.Config) (acknowledged : Bool) (w : RunWorld c a)
      → ForFile plan acknowledged w
      → P w.events
      → P (resume_run c a plan config acknowledged w).1.events
  unfolding resume_run
  resume_run-events plan config acknowledged w f h =
      lease-events c a P (resume_loaded c a plan config acknowledged) w
        (λ w' e k. resume_loaded-events plan config acknowledged w' (λ run q. f run (sym e ∙ q)) k)
        h
