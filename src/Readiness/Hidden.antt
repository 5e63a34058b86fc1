-- ===== src/Readiness/Hidden.antt =====
-- The reports of services/target_readiness.py carry no text of the server that has the API key.
use honua_migrate.Base.{
  ◌≡◌, refl, nat_eq, ◌||◌, ℕ, inl, inr, Bool, not, Bool-cases, subst, String, ◌==◌, string_eq,
  Option, none, some,
}
use honua_migrate.Base.Int.{ℤ}
use honua_migrate.Json.{Json, get, is_mapping}
use honua_migrate.Runs.Contracts.{Result, ok, err, then_result}
use honua_migrate.Readiness.Words.{Parts, public_code, problem_type}
use honua_migrate.Readiness.Manifest.{
  as_mapping, observed, Problem, problem, first_of, nothing_observed,
}
use honua_migrate.Readiness.Report.{
  Report, report, auth_report, unauthenticated, forbidden, payment_required, unknown_report,
}
use honua_migrate.Readiness.Preflight.{
  Got, timed_out, unreachable, response, Target, fetch, manifest_path, jobs_path, is_false, is_true,
  after_jobs, from_manifest, after_manifest, preflight_target,
}
use honua_migrate.Readiness.Clean.{
  Hidden, Clean, CleanReport, CleanResult, kept, raised, one_of, public_code-Hidden,
  first_of-Hidden, observed-Clean, nothing-Clean, unreached-Clean, auth-Clean, unknown-Clean,
  versioned-Clean,
}

module _ (secret : String) where
  module _ (urlsplit : String → Option Parts) (urlunsplit : String → String → String → String)
      (retries : ℤ) (target : Target) where
    abbrev HiddenCode : Result Problem → Type 0
    HiddenCode (ok p) = Hidden secret p.code
    HiddenCode (err e) = Unit

    problem-Hidden : (body : Json) → HiddenCode (problem urlsplit urlunsplit body secret)
    unfolding problem
    problem-Hidden body =
        one_of secret HiddenCode (is_mapping body) _ _
          (step (problem_type urlsplit urlunsplit (get "type" body) secret)) tt
      where
        step :
            (r : Result (Option String))
            → HiddenCode (
                then_result r (λ kind. ok (record {
                  code =
                      first_of
                        (public_code (get "code" body) secret)
                        (public_code (get "code" (as_mapping (get "error" body))) secret);
                  kind = kind;
                })))
        step (ok kind) =
            first_of-Hidden secret (public_code (get "code" body) secret) _
              (public_code-Hidden secret (get "code" body))
              (public_code-Hidden secret (get "code" (as_mapping (get "error" body))))
        step (err e) = tt

    after_jobs-Clean :
        (n : ℕ) (manifest : Json) (known kind : Option String) (got : Got)
        → Hidden secret known
        → CleanResult secret
            (after_jobs urlsplit urlunsplit secret retries target n manifest known kind got)
    unfolding after_jobs
    after_jobs-Clean n manifest known kind timed_out k =
        kept secret _ ((unreached-Clean secret _ (observed-Clean secret manifest)).0)
    after_jobs-Clean n manifest known kind unreachable k =
        kept secret _ ((unreached-Clean secret _ (observed-Clean secret manifest)).1)
    after_jobs-Clean n manifest known kind (response job_status job_body) k =
        one_of secret (CleanResult secret) _ _ _
          (kept secret _ (auth-Clean secret _ clean (some job_status) kind known k).0)
          (one_of secret (CleanResult secret) _ _ _
            (denied (problem urlsplit urlunsplit job_body secret) (problem-Hidden job_body))
            (one_of secret (CleanResult secret) _ _ _
              (kept secret _ (unknown-Clean secret _ clean (some job_status) kind known k))
              (kept secret _ (versioned-Clean secret _ clean n known kind k manifest))))
      where
        clean : Clean secret (observed manifest secret)
        clean = observed-Clean secret manifest

        denied :
            (r : Result Problem)
            → HiddenCode r
            → CleanResult secret (
                then_result r λ job. ok (
                  auth_report forbidden
                    (some job_status)
                    (first_of job.code known)
                    (first_of job.kind kind)
                    (observed manifest secret)))
        denied (ok job) h =
            kept secret _
              (auth-Clean secret _ clean (some job_status) _ _
                (first_of-Hidden secret job.code known h k)).1
        denied (err e) h = raised secret e

    payment-Clean :
        (n : ℕ) (known kind : Option String)
        → Hidden secret known
        → CleanReport secret (payment_required (some n) known kind)
    unfolding payment_required report
    payment-Clean n none kind k = record { reason = inl refl; identity = nothing-Clean secret }
    payment-Clean n (some s) kind k = elim (Bool-cases (s == "")) [
      | inl e ↦ rw e (record { reason = inl refl; identity = nothing-Clean secret })
      | inr e ↦ rw e (record { reason = inr k; identity = nothing-Clean secret })
    ]

    from_manifest-Clean :
        (n status : ℕ) (manifest : Json) (p : Problem)
        → Hidden secret p.code
        → CleanResult secret
            (from_manifest urlsplit urlunsplit secret retries target n status manifest p)
    unfolding from_manifest
    from_manifest-Clean n status manifest p k =
        let shown : Json = get "authenticated" (as_mapping (get "scope" manifest)) in
        let strange : Bool = not (status == 200) || not (is_mapping manifest) in
        one_of secret (CleanResult secret) (status == 401) _ _ (kept secret _ auth.0) (
          one_of secret (CleanResult secret) (status == 403) _ _ (kept secret _ auth.1) (
            one_of secret (CleanResult secret) (status == 402) _ _
              (kept secret _ (payment-Clean status p.code p.kind k))
              (one_of secret (CleanResult secret) strange _ _ unknown (
                one_of secret (CleanResult secret) (is_false shown) _ _ (kept secret _ auth.0) (
                  one_of secret (CleanResult secret) (not (is_true shown)) _ _ unknown (
                    after_jobs-Clean status manifest p.code p.kind
                      (fetch target retries jobs_path n).got k))))))
      where
        auth :
            CleanReport secret
              (auth_report unauthenticated (some status) p.code p.kind nothing_observed)
            × CleanReport secret
                (auth_report forbidden (some status) p.code p.kind nothing_observed)
        auth =
            auth-Clean secret nothing_observed (nothing-Clean secret) (some status) p.kind p.code k

        unknown :
            CleanResult secret (ok (unknown_report (some status) p.code p.kind nothing_observed))
        unknown = kept secret _ (
            unknown-Clean secret nothing_observed (nothing-Clean secret) (some status) p.kind p.code
              k)

    after_manifest-Clean :
        (got : Got) (n : ℕ)
        → CleanResult secret (
            after_manifest urlsplit urlunsplit secret retries target
              (record { got = got; sent = n }))
    after_manifest-Clean timed_out n =
        kept secret _ ((unreached-Clean secret _ (nothing-Clean secret)).0)
    after_manifest-Clean unreachable n =
        kept secret _ ((unreached-Clean secret _ (nothing-Clean secret)).1)
    after_manifest-Clean (response status manifest) n =
        step (problem urlsplit urlunsplit manifest secret) (problem-Hidden manifest)
      where
        step :
            (r : Result Problem)
            → HiddenCode r
            → CleanResult secret (
                then_result r
                  λ p. from_manifest urlsplit urlunsplit secret retries target n status manifest p)
        step (ok p) h = from_manifest-Clean n status manifest p h
        step (err e) h = raised secret e

    -- No report of the preflight carries the API key in what it takes over from the server: the
    -- schema, the versions, the revision, the state of the license and the reason, unless the
    -- reason is the text `payment-required` of the program. The type of a problem, which is
    -- composed anew from its parts, is not spoken of, nor is the target.
    pub preflight_target-Clean :
        (rep : Report)
        → preflight_target urlsplit urlunsplit secret retries target ≡ ok rep
        → CleanReport secret rep
    unfolding preflight_target CleanResult
    preflight_target-Clean rep e = subst (CleanResult secret) e (
        after_manifest-Clean (fetch target retries manifest_path 0).got
          (fetch target retries manifest_path 0).sent)
