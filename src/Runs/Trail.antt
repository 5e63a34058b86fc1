-- ===== src/Runs/Trail.antt =====
-- A run that went through some actions: its checkpoints are those of the actions, in order, all
-- succeeded, and its job identities are those that the checkpoints name.
use honua_migrate.Base.{
  ◌≡◌, refl, ap, ◌∙◌, Bool, false, not, some, List, [], ◌∷◌, ◌++◌, String, map, length, arith, any,
  contains, string_eq, option_eq, bool_eq, is_empty,
}
use mathlib.Core.List.{append-nil, append_assoc}
use honua_migrate.Runs.Contracts.{ok, Action, Checkpoint, Status}
use honua_migrate.Runs.Interface.{Contracts}
use honua_migrate.Runs.Checkpoints.{check_loop, check_one, represent_job, replace_in, is_succeeded}

abbrev pub ids : List Action → List String
ids = map (λ x. x.id)

-- No identity is met twice, nor is it among those found before.
abbrev pub Fresh : List String → List Action → Type 0
Fresh found [] = Unit
Fresh found (x ∷ xs) = (contains found x.id ≡ false) × Fresh (found ++ (x.id ∷ [])) xs

module _ (c : Contracts) where
  -- The checkpoint of an action that succeeded.
  pub record Done (x : Action) (cp : Checkpoint c.Evidence) : Type 0 where
    pub same_id : cp.action_id ≡ some x.id
    pub same_write : cp.write ≡ some x.write
    pub same_idempotent : cp.idempotent ≡ some x.idempotent
    pub done : cp.status ≡ Status.succeeded

  -- The job identities go from the third argument to the last.
  abbrev pub Trail : List Action → List (Checkpoint c.Evidence) → List String → List String → Type 0
  Trail [] [] jobs jobs' = jobs ≡ jobs'
  Trail [] (cp ∷ cps) jobs jobs' = ⊥
  Trail (x ∷ xs) [] jobs jobs' = ⊥
  Trail (x ∷ xs) (cp ∷ cps) jobs jobs' =
      Done x cp
      × ((next : List String) × (represent_job c jobs cp.job_id ≡ ok next)
          × Trail xs cps next jobs')

  check_one-Done :
      (x : Action) (cp : Checkpoint c.Evidence) (found : List String) (last : Bool)
      → Done x cp
      → contains found x.id ≡ false
      → check_one c x cp found last cp.status ≡ ok tt
  unfolding check_one option_eq
  check_one-Done x cp found last d h = ground arith

  -- The validation's loop passes over a trail and goes on behind it.
  pub check_loop-Trail :
      (xs more : List Action) (cps tail : List (Checkpoint c.Evidence))
      (found jobs jobs' : List String)
      → Trail xs cps jobs jobs'
      → Fresh found xs
      → check_loop c (xs ++ more) (cps ++ tail) found jobs
        ≡ check_loop c more tail (found ++ ids xs) jobs'
  unfolding check_loop
  check_loop-Trail [] more [] tail found jobs jobs' t f =
      rw append-nil (ap (λ j. check_loop c more tail found j) t)
  check_loop-Trail [] more (cp ∷ cps) tail found jobs jobs' t f = elim t [ ]
  check_loop-Trail (x ∷ xs) more [] tail found jobs jobs' t f = elim t [ ]
  check_loop-Trail (x ∷ xs) more (cp ∷ cps) tail found jobs jobs' (d, (next, e, t)) (fx, fxs) =
      rw (check_one-Done x cp found (is_empty (cps ++ tail)) d fx, e)
        (check_loop-Trail xs more cps tail (found ++ (x.id ∷ [])) next jobs' t fxs
          ∙ ap (λ l. check_loop c more tail l jobs') (append_assoc found (x.id ∷ []) (ids xs)))

  pub Trail-append :
      (xs : List Action) (x : Action) (cps : List (Checkpoint c.Evidence))
      (cp : Checkpoint c.Evidence) (jobs jobs' jobs'' : List String)
      → Trail xs cps jobs jobs'
      → Done x cp
      → represent_job c jobs' cp.job_id ≡ ok jobs''
      → Trail (xs ++ (x ∷ [])) (cps ++ (cp ∷ [])) jobs jobs''
  Trail-append [] x [] cp jobs jobs' jobs'' t d e = (d, (jobs'', rw t e, refl))
  Trail-append [] x (_ ∷ _) cp jobs jobs' jobs'' t d e = elim t [ ]
  Trail-append (_ ∷ _) x [] cp jobs jobs' jobs'' t d e = elim t [ ]
  Trail-append (y ∷ xs) x (_ ∷ cps) cp jobs jobs' jobs'' (dy, (next, ey, t)) d e =
      (dy, (next, ey, Trail-append xs x cps cp next jobs' jobs'' t d e))

  -- A checkpoint whose action is not on the trail goes behind it.
  pub replace_in-Trail :
      (xs : List Action) (cps tail : List (Checkpoint c.Evidence)) (jobs jobs' : List String)
      (id : String) (new : Checkpoint c.Evidence)
      → Trail xs cps jobs jobs'
      → contains (ids xs) id ≡ false
      → replace_in c (cps ++ tail) id new ≡ cps ++ replace_in c tail id new
  unfolding replace_in option_eq
  replace_in-Trail [] [] tail jobs jobs' id new t h = refl
  replace_in-Trail [] (_ ∷ _) tail jobs jobs' id new t h = elim t [ ]
  replace_in-Trail (_ ∷ _) [] tail jobs jobs' id new t h = elim t [ ]
  replace_in-Trail (x ∷ xs) (cp ∷ cps) tail jobs jobs' id new (d, (next, e, t)) h =
      ground (arith, replace_in-Trail xs cps tail next jobs' id new t (ground arith))

  pub length-Trail :
      (xs : List Action) (cps : List (Checkpoint c.Evidence)) (jobs jobs' : List String)
      → Trail xs cps jobs jobs'
      → length (map (λ cp. cp.status) cps) ≡ length xs
  length-Trail [] [] jobs jobs' t = refl
  length-Trail [] (_ ∷ _) jobs jobs' t = elim t [ ]
  length-Trail (_ ∷ _) [] jobs jobs' t = elim t [ ]
  length-Trail (x ∷ xs) (cp ∷ cps) jobs jobs' (d, (next, e, t)) =
      omega (arith, length-Trail xs cps next jobs' t)

  pub succeeded-Trail :
      (xs : List Action) (cps : List (Checkpoint c.Evidence)) (jobs jobs' : List String)
      → Trail xs cps jobs jobs'
      → any (λ s. not (is_succeeded s)) (map (λ cp. cp.status) cps) ≡ false
  succeeded-Trail [] [] jobs jobs' t = refl
  succeeded-Trail [] (_ ∷ _) jobs jobs' t = elim t [ ]
  succeeded-Trail (_ ∷ _) [] jobs jobs' t = elim t [ ]
  succeeded-Trail (x ∷ xs) (cp ∷ cps) jobs jobs' (d, (next, e, t)) =
      rw d.done (succeeded-Trail xs cps next jobs' t)

-- An action behind others of a list with distinct identities has an identity of its own.
pub Fresh-middle :
    (found : List String) (xs : List Action) (y : Action) (ys : List Action)
    → Fresh found (xs ++ (y ∷ ys))
    → contains (found ++ ids xs) y.id ≡ false
Fresh-middle found [] y ys f = rw append-nil f.0
Fresh-middle found (x ∷ xs) y ys (fx, fxs) =
    rw append_assoc at (Fresh-middle (found ++ (x.id ∷ [])) xs y ys fxs)

pub Fresh-prefix :
    (found : List String) (xs ys : List Action) → Fresh found (xs ++ ys) → Fresh found xs
Fresh-prefix found [] ys f = tt
Fresh-prefix found (x ∷ xs) ys (fx, fxs) = (fx, Fresh-prefix (found ++ (x.id ∷ [])) xs ys fxs)
