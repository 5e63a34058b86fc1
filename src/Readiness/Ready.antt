-- ===== src/Readiness/Ready.antt =====
-- When services/target_readiness.py lets an import start.
use honua_migrate.Base.{
  ◌≡◌, sym, subst, ap, ℕ, true, not, ◌||◌, arith, String, ◌==◌, eq_of_==, nat_eq, string_eq,
  option_eq, Option, some,
}
use honua_migrate.Base.Int.{ℤ}
use honua_migrate.Json.{Json, bool, get, is_mapping}
use honua_migrate.Runs.Contracts.{Result, ok, err, then_result}
use honua_migrate.Readiness.Words.{Parts}
use honua_migrate.Readiness.Manifest.{as_mapping, observed, Problem, problem, first_of}
use honua_migrate.Readiness.Report.{Report, auth_report, forbidden}
use honua_migrate.Readiness.Preflight.{
  Got, timed_out, unreachable, response, Target, manifest_path, jobs_path, is_true, is_false, fetch,
  after_jobs, from_manifest, after_manifest, preflight_target,
}
use honua_migrate.Readiness.Admits.{
  Passes, past, unknown-refused, auth-refused, payment-refused, unreached-refused, is_true-bool,
  Admits, versioned-Admits,
}

module _ (urlsplit : String → Option Parts) (urlunsplit : String → String → String → String)
    (secret : String) (retries : ℤ) (target : Target) where
  -- The two responses, and what the first must say
  pub record Confirmed (manifest : Json) (n : ℕ) : Type 0 where
    pub authenticated : get "authenticated" (as_mapping (get "scope" manifest)) ≡ bool true
    pub jobs : (body : Json) × ((fetch target retries jobs_path n).got ≡ response 200 body)
    pub admits : Admits manifest secret

  after_jobs-Confirmed :
      (status : ℕ) (manifest : Json) (known kind : Option String) (got : Got)
      → Passes (after_jobs urlsplit urlunsplit secret retries target status manifest known kind got)
      → ((body : Json) × (got ≡ response 200 body)) × Admits manifest secret
  unfolding after_jobs
  after_jobs-Confirmed status manifest known kind timed_out p = absurd ((unreached-refused _).0 p)
  after_jobs-Confirmed status manifest known kind unreachable p = absurd ((unreached-refused _).1 p)
  after_jobs-Confirmed status manifest known kind (response job_status job_body) p =
      let (a, p₁) = past (job_status == 401) _ _ ((auth-refused _ _ _ _).0) p in
      let (b, p₂) =
        past (job_status == 403) _ _ (denied (problem urlsplit urlunsplit job_body secret)) p₁ in
      let (c, p₃) = past (not (job_status == 200)) _ _ (unknown-refused _ _ _ _) p₂ in
      (
        (job_body, ap (λ n. response n job_body) (eq_of_== _ _ (ground (arith, c)))),
        versioned-Admits status manifest secret known kind p₃,
      )
    where
      denied :
          (r : Result Problem)
          → Passes (
              then_result r λ job. ok (
                auth_report forbidden
                  (some job_status)
                  (first_of job.code known)
                  (first_of job.kind kind)
                  (observed manifest secret)))
          → ⊥
      denied (ok job) q = (auth-refused _ _ _ _).1 q
      denied (err e) q = q

  from_manifest-Confirmed :
      (n status : ℕ) (manifest : Json) (p : Problem)
      → Passes (from_manifest urlsplit urlunsplit secret retries target n status manifest p)
      → (status ≡ 200) × Confirmed manifest n
  unfolding from_manifest
  from_manifest-Confirmed n status manifest p h =
      let shown : Json = get "authenticated" (as_mapping (get "scope" manifest)) in
      let (_, h₁) = past (status == 401) _ _ ((auth-refused _ _ _ _).0) h in
      let (_, h₂) = past (status == 403) _ _ ((auth-refused _ _ _ _).1) h₁ in
      let (_, h₃) = past (status == 402) _ _ (payment-refused _ _ _) h₂ in
      let (c, h₄) =
        past (not (status == 200) || not (is_mapping manifest)) _ _ (unknown-refused _ _ _ _) h₃ in
      let (_, h₅) = past (is_false shown) _ _ ((auth-refused _ _ _ _).0) h₄ in
      let (d, h₆) = past (not (is_true shown)) _ _ (unknown-refused _ _ _ _) h₅ in
      let (jobs, admits) = after_jobs-Confirmed status manifest p.code p.kind _ h₆ in
      (
        eq_of_== _ _ (ground (arith, c)),
        record {
          authenticated = is_true-bool shown (ground (arith, d));
          jobs = jobs;
          admits = admits;
        },
      )

  after_manifest-Confirmed :
      (got : Got) (n : ℕ)
      → Passes (
          after_manifest urlsplit urlunsplit secret retries target (record { got = got; sent = n }))
      → (manifest : Json) × (got ≡ response 200 manifest) × Confirmed manifest n
  after_manifest-Confirmed timed_out n h = absurd ((unreached-refused _).0 h)
  after_manifest-Confirmed unreachable n h = absurd ((unreached-refused _).1 h)
  after_manifest-Confirmed (response status manifest) n h =
      step (problem urlsplit urlunsplit manifest secret) h
    where
      step :
          (r : Result Problem)
          → Passes (
              then_result r
                λ p. from_manifest urlsplit urlunsplit secret retries target n status manifest p)
          → (m : Json) × (response status manifest ≡ response 200 m) × Confirmed m n
      step (ok p) q =
          let (e, confirmed) = from_manifest-Confirmed n status manifest p q in
          (manifest, ap (λ k. response k manifest) e, confirmed)
      step (err e) q = absurd q

  -- The preflight exits with 0 only after a response 200 to the request for the manifest and, by
  -- the next request, a response 200 to the one for the import jobs, where the manifest is an
  -- object that says the caller is authenticated, is of the known schema and API version, declares
  -- `import.geoservices` at least once, never as not available, and, where it speaks of licensing
  -- that is not disabled, says that the license is valid.
  pub preflight_target-Confirmed :
      (rep : Report)
      → preflight_target urlsplit urlunsplit secret retries target ≡ ok rep
      → rep.exit_code ≡ 0
      → (manifest : Json) × ((fetch target retries manifest_path 0).got ≡ response 200 manifest)
        × Confirmed manifest (fetch target retries manifest_path 0).sent
  unfolding preflight_target
  preflight_target-Confirmed rep e zero =
      after_manifest-Confirmed (fetch target retries manifest_path 0).got
        (fetch target retries manifest_path 0).sent (subst Passes (sym e) zero)
