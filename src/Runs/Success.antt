-- ===== src/Runs/Success.antt =====
-- What a successful `start_run` leaves, and when it succeeds.
use honua_migrate.Base.{◌≡◌, refl, Bool, true, false, not, ◌&&◌, List, [], String, if◌then◌else◌}
use honua_migrate.Runs.Contracts.{migration, Result, ok, err, Action, exit_apply_refused}
use honua_migrate.Runs.Interface.{Contracts, Adapter, LockOpen, opened, unsafe, os_error}
use honua_migrate.Runs.Effect.{◌>>=◌, lift, raise}
use honua_migrate.Runs.Store.{RunRecord, RunWorld, RunEffect, lease, lease_opened}
use honua_migrate.Runs.Execute.{Plan, writes, begin, initial_run, start_run}
use honua_migrate.Runs.Trail.{Fresh}
use honua_migrate.Runs.Resumable.{Resumable, succeeded-Resumable}
use honua_migrate.Runs.Ends.{Ends-returned}
use honua_migrate.Runs.Crash.{Finished, begin-Safe}

module _ (c : Contracts) (a : Adapter c.Evidence) where
  -- What a leased effect returned, it returned within the lease, and only the lock differs.
  lease_opened-eq-ok :
      {A : Type 0} (m : RunEffect c a A) (p : LockOpen × a.State) (locked : Bool) (w : RunWorld c a)
      {x : A}
      → (lease_opened c a p locked m w).0 ≡ ok x
      → (v : RunWorld c a) × (v.events ≡ w.events)
        × ((m v).0 ≡ ok x)
        × ((lease_opened c a p locked m w).1 ≡ record (m v).1 { locked = false })
  unfolding lease_opened
  lease_opened-eq-ok m (unsafe, s) locked w h = cc
  lease_opened-eq-ok m (os_error, s) locked w h = cc
  lease_opened-eq-ok m (opened, s) true w h = cc
  lease_opened-eq-ok m (opened, s) false w h =
      (record w { locked = true; state = s }, refl, h, refl)

  abbrev pub Succeeded : List Action → RunRecord c a → RunWorld c a → Type 0
  Succeeded actions run w =
      Finished c a actions run w × Resumable c actions run × (w.locked ≡ false)

  leased-Succeeded :
      (plan : Plan) (run_id : String) (redacted : c.Config) (w : RunWorld c a) (run : RunRecord c a)
      → Fresh [] plan.actions
      → w.events ≡ []
      → let m = lease c a (begin c a (initial_run c a plan run_id redacted) plan.actions) in
        (m w).0 ≡ ok run → Succeeded plan.actions run (m w).1
  unfolding lease
  leased-Succeeded plan run_id redacted w run f e h =
      let (v, same, ends, after) = lease_opened-eq-ok _ (a.open_lock w.state) w.locked w h in
      let (fin, _) =
        Ends-returned _ (begin-Safe c a plan run_id redacted v f (rw (same, e) tt)) ends in
      rw after (fin, succeeded-Resumable c plan.actions run f fin.0 fin.1, refl)

  redacted-Succeeded :
      (plan : Plan) (run_id : String) (r : Result c.Config) (w : RunWorld c a) (run : RunRecord c a)
      → Fresh [] plan.actions
      → w.events ≡ []
      → let m = lift r >>= λ redacted.
          lease c a (begin c a (initial_run c a plan run_id redacted) plan.actions) in
        (m w).0 ≡ ok run → Succeeded plan.actions run (m w).1
  unfolding ◌>>=◌
  redacted-Succeeded plan run_id (ok redacted) w run f e h =
      leased-Succeeded plan run_id redacted w run f e h
  redacted-Succeeded plan run_id (err x) w run f e h = cc

  -- `start_run` returns a run only when every action of the plan has its checkpoint, in order, with
  -- the action's flags and the status `succeeded`, when the outcome is `succeeded`, and when just
  -- this run is on the disk. Then `resume_run` accepts its checkpoints, and the lock is free.
  pub start_run-Succeeded :
      (plan : Plan) (run_id : String) (config : c.Config) (acknowledged : Bool) (w : RunWorld c a)
      (run : RunRecord c a)
      → Fresh [] plan.actions
      → w.events ≡ []
      → (start_run c a plan run_id config acknowledged w).0 ≡ ok run
      → Succeeded plan.actions run (start_run c a plan run_id config acknowledged w).1
  unfolding start_run
  start_run-Succeeded plan run_id config acknowledged w run f e h =
      choose (writes plan.actions && not acknowledged) h
    where
      choose :
          (b : Bool)
          → let m : RunEffect c a (RunRecord c a) =
              if b
              then raise (migration exit_apply_refused)
              else (lift (c.redact_config config) >>= λ redacted.
                  lease c a (begin c a (initial_run c a plan run_id redacted) plan.actions)) in
            (m w).0 ≡ ok run → Succeeded plan.actions run (m w).1
      choose true k = cc
      choose false k = redacted-Succeeded plan run_id (c.redact_config config) w run f e k
