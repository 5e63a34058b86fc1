-- ===== src/Runs/Resumable.antt =====
-- Every artifact that `start_run` puts on the disk passes the validation of `resume_run`.
use mathlib.Core.List.{append-nil}
use honua_migrate.Base.{
  ◌⊎◌, inl, inr, ◌≡◌, refl, sym, ap, ◌∙◌, true, false, List, [], ◌∷◌, ◌++◌, String, map, length,
  arith, contains, string_eq, nat_eq, is_empty, ==_refl, option_eq,
}
use honua_migrate.Runs.Contracts.{ok, Action, Run, Checkpoint, Status, Outcome}
use honua_migrate.Runs.Interface.{Contracts}
use honua_migrate.Runs.Checkpoints.{
  checkpoint, check_loop, check_outcome, same_texts, validated_checkpoints, last_started,
}
use honua_migrate.Runs.Trail.{
  ids, Fresh, Trail, check_loop-Trail, length-Trail, succeeded-Trail, Fresh-middle, Fresh-prefix,
}

same_texts_refl : (l : List String) → same_texts l l ≡ true
unfolding same_texts
same_texts_refl [] = refl
same_texts_refl (s ∷ l) = rw (==_refl s) (same_texts_refl l)

module _ (c : Contracts) where
  open c use {Config, Evidence}

  -- The validation accepts the run.
  abbrev pub Resumable : List Action → Run Config Evidence → Type 0
  Resumable actions run = validated_checkpoints c actions run ≡ ok run.checkpoints

  abbrev statuses : Run Config Evidence → List Status
  statuses run = map (λ cp. cp.status) run.checkpoints

  -- The three tests of the validation, one after the other.
  Resumable-by :
      (actions : List Action) (run : Run Config Evidence) (found : List String)
      → check_loop c actions run.checkpoints [] [] ≡ ok (found, run.job_ids)
      → check_outcome c run.outcome (statuses run) (length actions) ≡ ok tt
      → Resumable actions run
  unfolding validated_checkpoints
  Resumable-by actions run found l o = rw (l, o, same_texts_refl run.job_ids)

  abbrev pub Reached : List Action → Run Config Evidence → Type 0
  Reached done run = Trail c done run.checkpoints [] run.job_ids

  loop_of_Reached :
      (done more : List Action) (run : Run Config Evidence)
      → Fresh [] (done ++ more)
      → Reached done run
      → check_loop c (done ++ more) run.checkpoints [] [] ≡ ok (ids done, run.job_ids)
  unfolding check_loop
  loop_of_Reached done more run f t =
      ap (λ l. check_loop c (done ++ more) l [] []) (sym (append-nil run.checkpoints))
      ∙ check_loop-Trail c done more run.checkpoints [] [] [] run.job_ids t
          (Fresh-prefix [] done more f)

  nonempty-Trail :
      (done : List Action) (x : Action) (cps : List (Checkpoint Evidence))
      (jobs jobs' : List String)
      → Trail c (done ++ (x ∷ [])) cps jobs jobs'
      → is_empty (map (λ cp. cp.status) cps) ≡ false
  nonempty-Trail [] x [] jobs jobs' t = elim t [ ]
  nonempty-Trail (_ ∷ _) x [] jobs jobs' t = elim t [ ]
  nonempty-Trail _ x (_ ∷ _) jobs jobs' t = refl

  last_started-append :
      (cps : List (Checkpoint Evidence)) (cp : Checkpoint Evidence)
      → cp.status ≡ Status.started
      → last_started c (map (λ q. q.status) (cps ++ (cp ∷ []))) ≡ true
  last_started-append [] cp h = rw h
  last_started-append (_ ∷ []) cp h = rw h
  last_started-append (_ ∷ q ∷ cps) cp h = last_started-append (q ∷ cps) cp h

  nonempty-append :
      (cps : List (Checkpoint Evidence)) (cp : Checkpoint Evidence)
      → is_empty (map (λ q. q.status) (cps ++ (cp ∷ []))) ≡ false
  nonempty-append [] cp = refl
  nonempty-append (_ ∷ _) cp = refl

  started_step :
      (x : Action) (more : List Action) (found jobs : List String)
      → contains found x.id ≡ false
      → check_loop c (x ∷ more) (checkpoint c x Status.started ∷ []) found jobs
        ≡ ok (found ++ (x.id ∷ []), jobs)
  unfolding check_loop checkpoint option_eq
  started_step x more found jobs h = ground arith

  -- Between two actions.
  pub running-Resumable :
      (done : List Action) (x : Action) (more : List Action) (run : Run Config Evidence)
      → Fresh [] ((done ++ (x ∷ [])) ++ more)
      → Reached (done ++ (x ∷ [])) run
      → run.outcome ≡ Outcome.running
      → Resumable ((done ++ (x ∷ [])) ++ more) run
  unfolding check_outcome
  running-Resumable done x more run f t o =
      Resumable-by _ run (ids (done ++ (x ∷ []))) (loop_of_Reached (done ++ (x ∷ [])) more run f t)
        (rw (o, check_outcome, nonempty-Trail done x run.checkpoints [] run.job_ids t))

  -- Behind the last action.
  pub succeeded-Resumable :
      (actions : List Action) (run : Run Config Evidence)
      → Fresh [] actions
      → Reached actions run
      → run.outcome ≡ Outcome.succeeded
      → Resumable actions run
  unfolding check_outcome
  succeeded-Resumable actions run f t o =
      Resumable-by actions run (ids actions)
        (ap (λ l. check_loop c l run.checkpoints [] []) (sym (append-nil actions))
          ∙ loop_of_Reached actions [] run (rw append-nil f) t)
        (rw (
          o,
          check_outcome,
          length-Trail c actions run.checkpoints [] run.job_ids t,
          ==_refl (length actions),
          succeeded-Trail c actions run.checkpoints [] run.job_ids t,
        ))

  -- While an action is under way: its checkpoint is the last one, and is `started`.
  pub started-Resumable :
      (done : List Action) (x : Action) (more : List Action) (run : Run Config Evidence)
      (cps : List (Checkpoint Evidence))
      → Fresh [] (done ++ (x ∷ more))
      → Trail c done cps [] run.job_ids
      → run.checkpoints ≡ cps ++ (checkpoint c x Status.started ∷ [])
      → (run.outcome ≡ Outcome.running) ⊎ (run.outcome ≡ Outcome.partial)
      → Resumable (done ++ (x ∷ more)) run
  unfolding check_outcome
  started-Resumable done x more run cps f t e o =
      Resumable-by _ run (ids done ++ (x.id ∷ []))
        (ap (λ l. check_loop c (done ++ (x ∷ more)) l [] []) e
          ∙ check_loop-Trail c done (x ∷ more) cps (checkpoint c x Status.started ∷ []) [] []
              run.job_ids t (Fresh-prefix [] done (x ∷ more) f)
          ∙ started_step x more (ids done) run.job_ids (Fresh-middle [] done x more f))
        (elim o [
          | inl r ↦ rw (r, check_outcome, e) (rw nonempty-append)
          | inr p ↦
              rw (p, check_outcome, e)
                (rw (
                  last_started-append cps (checkpoint c x Status.started)
                    (unfold checkpoint in refl)))
        ])

  -- Before the first action.
  pub pending-Resumable :
      (actions : List Action) (run : Run Config Evidence)
      → run.checkpoints ≡ []
      → run.job_ids ≡ []
      → run.outcome ≡ Outcome.pending
      → Resumable actions run
  unfolding check_outcome check_loop
  pending-Resumable actions run e j o =
      Resumable-by actions run [] (rw (e, j)) (rw (o, check_outcome, e))
