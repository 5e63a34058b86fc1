-- ===== src/Reconcile/Bound.antt =====
-- A run is reconciled only where it succeeded and both snapshots are its own.
use honua_migrate.Base.{
  ◌≡◌, refl, sym, ap, Bool, true, false, List, ℕ, if◌then◌else◌, Option, none, some,
}
use honua_migrate.Json.{Json, null, bool, int, str, arr, obj}
use honua_migrate.Runs.Contracts.{
  Result, ok, err, then_result-eq-ok, ok-injective, Outcome, migration, exit_validation_error,
}
use honua_migrate.Runs.Interface.{Contracts}
use honua_migrate.Reconcile.Compare.{Reconciliation, result_of, reconcile_snapshots}
use honua_migrate.Reconcile.Files.{
  Artifact, load_snapshot, bound_to, validate_snapshot_binding, Output, install_valid,
  write_reconciliation, require_succeeded, reconciled, written, write_result, reconcile_run,
}

module _ (c : Contracts) (dumps : Json → List ℕ) (safe : Json → Result (Unit {0}))
    (valid : Reconciliation → Result (Unit {0})) where
  -- What a reconciliation rests on
  pub record Grounds (loaded : Result (Artifact c dumps safe valid))
      (source_file target_file : Option Json) (r : Reconciliation) : Type 0 where
    pub run : Artifact c dumps safe valid
    pub source : Json
    pub target : Json
    pub run_loaded : loaded ≡ ok run
    pub succeeded : run.outcome ≡ Outcome.succeeded
    pub source_read : source_file ≡ some source
    pub target_read : target_file ≡ some target
    pub source_bound : bound_to c dumps safe valid run source ≡ true
    pub target_bound : bound_to c dumps safe valid run target ≡ true
    pub result : r ≡ result_of dumps safe valid run.id source target

  read_lem :
      (file : Option Json) (v : Json) → load_snapshot c dumps safe valid file ≡ ok v → file ≡ some v
  unfolding load_snapshot
  read_lem none v h = cc
  read_lem (some (obj fs)) v h =
      let (_, _, k) = then_result-eq-ok (safe (obj fs)) _ h in ap some (sym (ok-injective k))
  read_lem (some null) v h = cc
  read_lem (some (bool b)) v h = cc
  read_lem (some (int n)) v h = cc
  read_lem (some (str s)) v h = cc
  read_lem (some (arr xs)) v h = cc

  succeeded_lem :
      (o : Outcome) (u : Unit {0})
      → require_succeeded c dumps safe valid o ≡ ok u
      → o ≡ Outcome.succeeded
  succeeded_lem Outcome.succeeded u h = refl
  succeeded_lem Outcome.pending u h = cc
  succeeded_lem Outcome.running u h = cc
  succeeded_lem Outcome.partial u h = cc
  succeeded_lem Outcome.failed u h = cc
  succeeded_lem Outcome.cancelled u h = cc

  bound_lem :
      (run : Artifact c dumps safe valid) (v : Json) (u : Unit {0})
      → validate_snapshot_binding c dumps safe valid run v ≡ ok u
      → bound_to c dumps safe valid run v ≡ true
  unfolding validate_snapshot_binding
  bound_lem run v u h = choose (bound_to c dumps safe valid run v) h
    where
      choose :
          (b : Bool)
          → (if b then ok tt else err (migration exit_validation_error)) ≡ ok u
          → b ≡ true
      choose true k = refl
      choose false k = cc

  reconciled-Grounds :
      (loaded : Result (Artifact c dumps safe valid)) (source_file target_file : Option Json)
      (r : Reconciliation)
      → reconciled c dumps safe valid loaded source_file target_file ≡ ok r
      → Grounds loaded source_file target_file r
  unfolding reconciled reconcile_snapshots
  reconciled-Grounds loaded source_file target_file r h =
      let (run, loads, h1) = then_result-eq-ok loaded _ h in
      let (u, succeeds, h2) =
        then_result-eq-ok (require_succeeded c dumps safe valid run.outcome) _ h1 in
      let (source, source_loads, h3) =
        then_result-eq-ok (load_snapshot c dumps safe valid source_file) _ h2 in
      let (target, target_loads, h4) =
        then_result-eq-ok (load_snapshot c dumps safe valid target_file) _ h3 in
      let (v, source_binds, h5) =
        then_result-eq-ok (validate_snapshot_binding c dumps safe valid run source) _ h4 in
      let (w, target_binds, h6) =
        then_result-eq-ok (validate_snapshot_binding c dumps safe valid run target) _ h5 in
      let (_, _, h7) = then_result-eq-ok (safe source) _ h6 in
      let (_, _, h8) = then_result-eq-ok (safe target) _ h7 in
      let (_, _, h9) =
        then_result-eq-ok (valid (result_of dumps safe valid run.id source target)) _ h8 in
      record {
        run = run;
        source = source;
        target = target;
        run_loaded = loads;
        succeeded = succeeded_lem run.outcome u succeeds;
        source_read = read_lem source_file source source_loads;
        target_read = read_lem target_file target target_loads;
        source_bound = bound_lem run source v source_binds;
        target_bound = bound_lem run target w target_binds;
        result = ok-injective h9;
      }

  -- What `reconcile_run` leaves, by what it gives
  abbrev pub Leaves :
      Result (Artifact c dumps safe valid)
      → Option Json
      → Option Json
      → Output c dumps safe valid
      → Result Reconciliation × Option Reconciliation
      → Type 0
  Leaves loaded source_file target_file (old, reaches) (err e, file) = file ≡ old
  Leaves loaded source_file target_file (old, reaches) (ok r, file) =
      Grounds loaded source_file target_file r × (old ≡ none) × (file ≡ some r)

  -- A run is reconciled, its result the one that the six checks give, only where its artifact
  -- loads and its outcome is `succeeded`, both snapshots are read and carry the run's identity,
  -- plan, digest and service; the result is then written where no file was. Whatever is raised
  -- instead, the output is as it was.
  pub reconcile_run-Leaves :
      (loaded : Result (Artifact c dumps safe valid)) (source_file target_file : Option Json)
      (out : Output c dumps safe valid)
      → Leaves loaded source_file target_file out
          (reconcile_run c dumps safe valid loaded source_file target_file out)
  unfolding reconcile_run write_reconciliation
  reconcile_run-Leaves loaded source_file target_file out =
      by_result (reconciled c dumps safe valid loaded source_file target_file)
        (reconciled-Grounds loaded source_file target_file) out
    where
      by_valid :
          (r : Reconciliation) (v : Result (Unit {0}))
          → Grounds loaded source_file target_file r
          → (out : Output c dumps safe valid)
          → Leaves loaded source_file target_file out
              (written c dumps safe valid r (install_valid c dumps safe valid v r out))
      by_valid r (ok _) g (none, true) = (g, refl, refl)
      by_valid r (ok _) g (some old, true) = refl
      by_valid r (ok _) g (file, false) = refl
      by_valid r (err e) g (file, _) = refl

      by_result :
          (q : Result Reconciliation)
          → ((r : Reconciliation) → q ≡ ok r → Grounds loaded source_file target_file r)
          → (out : Output c dumps safe valid)
          → Leaves loaded source_file target_file out (write_result c dumps safe valid q out)
      by_result (err e) k (file, _) = refl
      by_result (ok r) k out = by_valid r (valid r) (k r refl) out
