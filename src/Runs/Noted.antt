-- ===== src/Runs/Noted.antt =====
-- What a completed checkpoint of runs/orchestration.py leaves in the run.
use mathlib.Core.List.{append-nil}
use honua_migrate.Base.{
  ◌≡◌, refl, sym, ap, ◌∙◌, false, Option, none, some, List, [], ◌∷◌, ◌++◌, String, arith, contains,
  string_eq, option_eq,
}
use honua_migrate.Runs.Contracts.{
  ok, then_result-eq-ok, ok-injective, Action, Run, Checkpoint, Status, JobField, Outcome,
}
use honua_migrate.Runs.Interface.{Contracts, Receipt, Adapter}
use honua_migrate.Runs.Checkpoints.{
  checkpoint, represent_job, replace_in, note_job, note_evidence, complete,
}
use honua_migrate.Runs.Execute.{started_run}
use honua_migrate.Runs.Trail.{ids, Done, Trail, Trail-append, replace_in-Trail}
use honua_migrate.Runs.Resumable.{Reached}

module _ (c : Contracts) where
  open c use {Config, Evidence}

  record Noted (run : Run Config Evidence) (cp : Checkpoint Evidence) (run' : Run Config Evidence)
      (cp' : Checkpoint Evidence) : Type 0 where
    represented : represent_job c run.job_ids cp'.job_id ≡ ok run'.job_ids
    same_checkpoints : run'.checkpoints ≡ run.checkpoints
    same_outcome : run'.outcome ≡ run.outcome
    same_id : cp'.action_id ≡ cp.action_id
    same_write : cp'.write ≡ cp.write
    same_idempotent : cp'.idempotent ≡ cp.idempotent
    same_status : cp'.status ≡ cp.status

  note_job-Noted :
      (run : Run Config Evidence) (cp : Checkpoint Evidence) (j : Option String)
      {run' : Run Config Evidence} {cp' : Checkpoint Evidence}
      → cp.job_id ≡ JobField.absent
      → note_job c run cp j ≡ ok (run', cp')
      → Noted run cp run' cp'
  unfolding note_job represent_job
  note_job-Noted run cp none a h = ground arith
  note_job-Noted run cp (some j) a h = ground arith

  pub started_run-checkpoints :
      (a : Adapter Evidence) (done : List Action) (run : Run Config Evidence) (x : Action)
      → Reached c done run
      → contains (ids done) x.id ≡ false
      → (started_run c a run x).checkpoints
        ≡ run.checkpoints ++ (checkpoint c x Status.started ∷ [])
  unfolding started_run replace_in
  started_run-checkpoints a done run x t h =
      ap (λ l. replace_in c l x.id (checkpoint c x Status.started))
        (sym (append-nil run.checkpoints))
      ∙ replace_in-Trail c done run.checkpoints [] [] run.job_ids x.id
          (checkpoint c x Status.started) t h

  pub started_run-job_ids :
      (a : Adapter Evidence) (run : Run Config Evidence) (x : Action)
      → (started_run c a run x).job_ids ≡ run.job_ids
  unfolding started_run
  started_run-job_ids a run x = refl

  pub started_run-outcome :
      (a : Adapter Evidence) (run : Run Config Evidence) (x : Action)
      → (started_run c a run x).outcome ≡ Outcome.running
  unfolding started_run
  started_run-outcome a run x = refl

  abbrev replaced : Action → Checkpoint Evidence → Run Config Evidence → Run Config Evidence
  replaced x cp r = record r { checkpoints = replace_in c r.checkpoints x.id cp }

  -- What a completed run consists of.
  complete-eq-ok :
      (run : Run Config Evidence) (x : Action) (receipt : Receipt Evidence)
      {run' : Run Config Evidence}
      → complete c run x receipt ≡ ok run'
      → (noted : Run Config Evidence) × (cp : Checkpoint Evidence) × (note_job c run
            (checkpoint c x Status.succeeded)
            receipt.job_id
          ≡ ok (noted, cp))
        × (run' ≡ replaced x (note_evidence c receipt.evidence cp) noted)
  unfolding complete
  complete-eq-ok run x receipt e =
      let (_, _, e₁) = then_result-eq-ok (c.evidence_safe receipt.evidence) _ e in
      let ((noted, cp), n, e₂) =
        then_result-eq-ok (note_job c run (checkpoint c x Status.succeeded) receipt.job_id) _ e₁ in
      (noted, cp, n, ok-injective e₂)

  Done-note_evidence :
      (x : Action) (evidence : Evidence) (run run' : Run Config Evidence) (cp : Checkpoint Evidence)
      → Noted run (checkpoint c x Status.succeeded) run' cp
      → Done c x (note_evidence c evidence cp) × ((note_evidence c evidence cp).job_id ≡ cp.job_id)
  unfolding note_evidence checkpoint
  Done-note_evidence x evidence run run' cp n = ground arith

  replace_in_self :
      (x : Action) (status : Status) (new : Checkpoint Evidence)
      → replace_in c (checkpoint c x status ∷ []) x.id new ≡ new ∷ []
  unfolding replace_in checkpoint option_eq
  replace_in_self x status new = ground arith

  -- An action whose started checkpoint stands behind a trail prolongs the trail when it completes.
  pub complete-Trail :
      (done : List Action) (cps : List (Checkpoint Evidence)) (run : Run Config Evidence)
      (x : Action) (receipt : Receipt Evidence) {run' : Run Config Evidence}
      → Trail c done cps [] run.job_ids
      → run.checkpoints ≡ cps ++ (checkpoint c x Status.started ∷ [])
      → contains (ids done) x.id ≡ false
      → complete c run x receipt ≡ ok run'
      → Reached c (done ++ (x ∷ [])) run' × (run'.outcome ≡ run.outcome)
  complete-Trail done cps run x receipt t shape h e =
      let (noted, cp, n, final) = complete-eq-ok run x receipt e in
      let N : Noted run (checkpoint c x Status.succeeded) noted cp =
        note_job-Noted _ _ receipt.job_id (unfold checkpoint in refl) n in
      let (d, j) = Done-note_evidence x receipt.evidence _ _ cp N in
      let new : Checkpoint Evidence = note_evidence c receipt.evidence cp in
      let behind : replace_in c noted.checkpoints x.id new ≡ cps ++ (new ∷ []) =
        ap (λ l. replace_in c l x.id new) (N.same_checkpoints ∙ shape)
        ∙ replace_in-Trail c done cps (checkpoint c x Status.started ∷ []) [] run.job_ids x.id new t
            h
        ∙ ap (λ l. cps ++ l) (replace_in_self x Status.started new) in
      let represented : represent_job c run.job_ids new.job_id ≡ ok noted.job_ids =
        rw j N.represented in
      rw final (
        rw behind (Trail-append c done x cps new [] run.job_ids noted.job_ids t d represented),
        N.same_outcome,
      )
