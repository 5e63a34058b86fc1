-- ===== src/Runs/Store.antt =====
-- runs/orchestration.py: `RunStore`, over the artifact file, its lock and the adapter's state.
use honua_migrate.Base.{Bool, true, false, Option, none, some, List, ◌∷◌}
use honua_migrate.Runs.Contracts.{
  migration, Result, ok, err, Action, Run, exit_input_error, exit_apply_refused,
}
use honua_migrate.Runs.Interface.{Contracts, Adapter, LockOpen, opened, unsafe, os_error}
use honua_migrate.Runs.Effect.{Effect, pure, raise, lift, ◌>>◌}

-- What has been done so far, the latest first: the artifact as it was written, and the calls of
-- the executor.
pub data Event (R : Type 0) : Type 0 where
  wrote : R → Event R
  inspected : Action → Event R
  executed : Action → Event R

pub record World (R S : Type 0) : Type 0 where
  pub file : Option R
  pub locked : Bool
  pub state : S
  pub events : List (Event R)

module _ (c : Contracts) (a : Adapter c.Evidence) where
  abbrev pub RunRecord : Type 0
  RunRecord = Run c.Config c.Evidence

  abbrev pub RunWorld : Type 0
  RunWorld = World RunRecord a.State

  abbrev pub RunEffect : Type 0 → Type 0
  RunEffect A = Effect RunWorld A

  -- A write that reaches the disk replaces the file; one that does not leaves it (`os.replace`).
  unfoldable pub write_to : Bool × a.State → RunRecord → RunEffect (Unit {0})
  write_to (true, s) run w =
      (ok tt, record w { file = some run; state = s; events = wrote run ∷ w.events })
  write_to (false, s) run w = (err (migration exit_input_error), record w { state = s })

  -- `_atomic_write_new` installs by `os.link`, which refuses a file that is there.
  unfoldable pub link_to : Bool × a.State → Option RunRecord → RunRecord → RunEffect (Unit {0})
  link_to (true, s) none run w =
      (ok tt, record w { file = some run; state = s; events = wrote run ∷ w.events })
  link_to (true, s) (some old) run w = (err (migration exit_apply_refused), record w { state = s })
  link_to (false, s) old run w = (err (migration exit_input_error), record w { state = s })

  unfoldable pub create : RunRecord → RunEffect (Unit {0})
  unfolding link_to
  create run = do lift (c.validate_run run); λ w. link_to (a.write_file w.state) w.file run w

  unfoldable pub save : RunRecord → RunEffect (Unit {0})
  unfolding write_to
  save run = do lift (c.validate_run run); λ w. write_to (a.write_file w.state) run w

  unfoldable pub load_file : Option RunRecord → RunEffect RunRecord
  load_file none = raise (migration exit_input_error)
  load_file (some run) = do lift (c.validate_run run); pure run

  -- The file holds a run or nothing readable.
  unfoldable pub load : RunEffect RunRecord
  unfolding load_file
  load w = load_file w.file w

  unfoldable pub unlock : {A : Type 0} → Result A × RunWorld → Result A × RunWorld
  unlock (r, w) = (r, record w { locked = false })

  unfoldable pub lease_opened : {A : Type 0} → LockOpen × a.State → Bool → RunEffect A → RunEffect A
  unfolding unlock
  lease_opened (unsafe, s) locked m w = (err (migration exit_apply_refused), record w { state = s })
  lease_opened (os_error, s) locked m w = (err (migration exit_input_error), record w { state = s })
  lease_opened (opened, s) true m w = (err (migration exit_apply_refused), record w { state = s })
  lease_opened (opened, s) false m w = unlock (m (record w { locked = true; state = s }))

  -- `with store.lease(): m`
  unfoldable pub lease : {A : Type 0} → RunEffect A → RunEffect A
  unfolding lease_opened
  lease m w = lease_opened (a.open_lock w.state) w.locked m w
