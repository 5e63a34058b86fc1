-- ===== src/Reconcile/Status.antt =====
-- What the status of a reconciliation says of its checks.
use honua_migrate.Base.{
  ◌≡◌, refl, Bool, List, [], ◌∷◌, ◌++◌, String, any, map, arith, Bool-cases, ℕ, ◌&&◌, ◌||◌, inl,
  inr, if◌then◌else◌, Option, some, string_eq, ltb,
}
use honua_migrate.Json.{Json, obj, get}
use honua_migrate.Runs.Contracts.{Result, ok, then_result-eq-ok, ok-injective}
use honua_migrate.Reconcile.Compare.{
  CheckStatus, Check, Reconciled, Reconciliation, checks_of, compare_category, compare_metadata,
  compare_values, compare_supported, comparisons, has_category, is_failed, is_mismatched,
  is_skipped, status_of, result_of, reconcile_snapshots,
}

-- How bad a check and a reconciliation are
abbrev pub severity : CheckStatus → ℕ
severity CheckStatus.matched = 0
severity CheckStatus.skipped = 1
severity CheckStatus.mismatched = 2
severity CheckStatus.failed = 3

abbrev pub status_severity : Reconciled → ℕ
status_severity Reconciled.matched = 0
status_severity Reconciled.partial = 1
status_severity Reconciled.mismatched = 2
status_severity Reconciled.failed = 3

abbrev pub worst : List Check → ℕ
worst [] = 0
worst (c ∷ cs) = if ltb (worst cs) (severity c.status) then severity c.status else worst cs

status_of-worst :
    (cs : List Check) → status_severity (status_of (map (λ c. c.status) cs)) ≡ worst cs
unfolding status_of
status_of-worst [] = refl
status_of-worst (c ∷ cs) =
    step c.status (any is_failed (map (λ c. c.status) cs))
      (any is_mismatched (map (λ c. c.status) cs)) (any is_skipped (map (λ c. c.status) cs))
      (status_of-worst cs)
  where
    step :
        (s : CheckStatus) (f m k : Bool)
        → status_severity (
            if f
            then Reconciled.failed
            else if m
            then Reconciled.mismatched
            else if k
            then Reconciled.partial
            else Reconciled.matched)
          ≡ worst cs
        → status_severity (
            if (is_failed s || f)
            then Reconciled.failed
            else if (is_mismatched s || m)
            then Reconciled.mismatched
            else if (is_skipped s || k)
            then Reconciled.partial
            else Reconciled.matched)
          ≡ (if ltb (worst cs) (severity s) then severity s else worst cs)
    step CheckStatus.matched f m k h = ground (arith, h)
    step CheckStatus.mismatched f m k h = ground (arith, h)
    step CheckStatus.skipped f m k h = ground (arith, h)
    step CheckStatus.failed f m k h = ground (arith, h)

name-compare_metadata : (source target : Json) → (compare_metadata source target).name ≡ "metadata"
unfolding compare_metadata compare_supported
name-compare_metadata source target = of_values (get "metadata" source) (get "metadata" target) _
  where
    of_values :
        (s t : Json) (supported : Option (List String))
        → (compare_values s t supported).name ≡ "metadata"
    of_values (obj fs) (obj gs) (some names) = refl
    of_values _ _ _ = refl

module _ (dumps : Json → List ℕ) (source target : Json) where
  name-compare_category : (name : String) → (compare_category dumps source target name).name ≡ name
  unfolding compare_category
  name-compare_category name =
      elim (Bool-cases (has_category name source && has_category name target)) [
        | inl e ↦ rw e refl
        | inr e ↦ rw e refl
      ]

  names-checks_of :
      map (λ c. c.name) (checks_of dumps source target) ≡ comparisons ++ ("metadata" ∷ [])
  unfolding checks_of
  names-checks_of =
      rw
        (
          name-compare_category "counts",
          name-compare_category "schemas",
          name-compare_category "extents",
          name-compare_category "samples",
          name-compare_category "relationships",
          name-compare_metadata source target,
        )
        refl

-- A reconciliation that is given has the six categories as its checks, in their order, and its
-- status is as bad as the worst of them: matched where all are matched, partial where some are
-- skipped, mismatched where one is mismatched, and failed where one is failed.
pub reconcile_snapshots-worst :
    (dumps : Json → List ℕ) (assert_artifact_safe : Json → Result (Unit {0}))
    (validate_reconciliation : Reconciliation → Result (Unit {0})) (run_id : String)
    (source target : Json) (r : Reconciliation)
    → reconcile_snapshots dumps assert_artifact_safe validate_reconciliation run_id source target
      ≡ ok r
    → (map (λ c. c.name) r.checks ≡ comparisons ++ ("metadata" ∷ []))
      × (status_severity r.status ≡ worst r.checks)
unfolding reconcile_snapshots result_of
reconcile_snapshots-worst dumps safe valid run_id source target r h =
    let (_, _, h1) = then_result-eq-ok (safe source) _ h in
    let (_, _, h2) = then_result-eq-ok (safe target) _ h1 in
    let (_, _, h3) =
      then_result-eq-ok (valid (result_of dumps safe valid run_id source target)) _ h2 in
    rw (ok-injective h3)
      (names-checks_of dumps source target, status_of-worst (checks_of dumps source target))
