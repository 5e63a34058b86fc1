-- ===== src/Geoserver/Reviewed.antt =====
-- An apply of services/geoserver.py starts what was reviewed, once, and nothing else.
use honua_migrate.Base.{
  ◌≡◌, refl, sym, subst, ap, ◌∙◌, ℕ, Bool, true, not, choose, arith, List, [], ◌∷◌, ◌++◌, String,
  ◌==◌, eq_of_==, string_eq, Option, nat_eq, All,
}
use honua_migrate.Json.{Json, Fields, get, obj}
use honua_migrate.Runs.Contracts.{Result, ok, err}
use honua_migrate.Readiness.Words.{Parts}
use honua_migrate.Arcgis.Client.{Call, Reply}
use honua_migrate.Geoserver.Checks.{
  Reviewed, load_completed_plan, is_completed_job, validate_url_of,
}
use honua_migrate.Geoserver.Client.{
  Answer, answered, failed, Done, request_loop, request, job_call, start_call,
}
use honua_migrate.Geoserver.Apply.{
  Applied, apply_request, matches_job, same_text, same_url, after_start, after_match, after_status,
  after_load, apply_command, is_server_reference,
}
use honua_migrate.Geoserver.Repeated.{
  Repeats, request_loop-Repeats, once, Answers, request_loop-Answers,
}
use honua_migrate.Arcgis.Refusals.{kept, passed}
use honua_migrate.Geoserver.Loaded.{Loaded, load-Loaded}

module _ (urlsplit : String → Option Parts) (valid : Json → Bool)
    (plan_digest : Fields → String) where
  module _ (session : List Call → Call → Reply) (retries : ℕ) where
    -- What the server says of the job of the plan, where that agrees with the plan
    pub record Agrees (plan : Reviewed) (live : Json) : Type 0 where
      pub completed : is_completed_job live plan.job_id ≡ true
      pub same_time : same_text (get "completedAt" live) (get "completedAt" plan.job) ≡ true
      pub same_url :
          (url : String) × (validate_url_of urlsplit (get "geoServerUrl" live) ≡ ok url)
          × (validate_url_of urlsplit (get "geoServerRestUrl" (obj plan.request)) ≡ ok url)

    -- What was asked in all: nothing beyond `before`; or the state of the plan's job, some number of
    -- times; or that until the server answered it, and after it the start, once.
    pub data Asked (acknowledge : Bool) (payload : Json) (reference : String) (before : List Call)
        : List Call → Type 0 where
      nothing : Asked acknowledge payload reference before before
      only_state :
          (plan : Reviewed) (more : List Call)
          → acknowledge ≡ true
          → is_server_reference reference ≡ true
          → Loaded valid plan_digest payload plan
          → All (λ c. c ≡ job_call plan.job_id) more
          → Asked acknowledge payload reference before (before ++ more)
      start_after :
          (plan : Reviewed) (live : Json) (polled : List Call)
          → acknowledge ≡ true
          → is_server_reference reference ≡ true
          → Loaded valid plan_digest payload plan
          → Answers session (job_call plan.job_id) before polled live
          → Agrees plan live
          → Asked acknowledge payload reference before
              (polled ++ (start_call (apply_request plan.request reference) ∷ []))

    same_url-Same :
        (a b : Result String) {u : Unit {0}}
        → same_url urlsplit valid plan_digest session retries a b ≡ ok u
        → (url : String) × (a ≡ ok url) × (b ≡ ok url)
    same_url-Same (err e) b m = cc
    same_url-Same (ok s) (err e) m = cc
    same_url-Same (ok s) (ok t) m =
        let (e, _) = passed (s == t) (ok tt) m in (s, refl, ap ok (sym (eq_of_== s t e)))

    matches_job-Agrees :
        (plan : Reviewed) (live : Json) {u : Unit {0}}
        → matches_job urlsplit valid plan_digest session retries plan.request plan live ≡ ok u
        → Agrees plan live
    unfolding matches_job
    matches_job-Agrees plan live m =
        let (c, m₁) = kept (not (is_completed_job live plan.job_id)) _ m in
        let (t, m₂) =
          kept (not (same_text (get "completedAt" live) (get "completedAt" plan.job))) _ m₁ in
        record {
          completed = ground (arith, c);
          same_time = ground (arith, t);
          same_url =
              same_url-Same (validate_url_of urlsplit (get "geoServerUrl" live))
                (validate_url_of urlsplit (get "geoServerRestUrl" (obj plan.request))) m₂;
        }

    request-Repeats :
        (id : String) (before : List Call)
        → Repeats (job_call id) before (request session retries (job_call id) before).calls
    unfolding request
    request-Repeats id before = request_loop-Repeats session (job_call id) retries before

    request-Answers :
        (id : String) (before : List Call) (body : Json)
        → (request session retries (job_call id) before).answer ≡ answered body
        → Answers session
            (job_call id)
            before
            (request session retries (job_call id) before).calls
            body
    unfolding request
    request-Answers id before = request_loop-Answers session (job_call id) retries before

    module _ (acknowledge : Bool) (payload : Json) (reference : String) (before : List Call) where
      module _ (plan : Reviewed) (loaded : Loaded valid plan_digest payload plan)
          (yes_said : acknowledge ≡ true) (named : is_server_reference reference ≡ true) where
        only :
            (calls : List Call)
            → Repeats (job_call plan.job_id) before calls
            → Asked acknowledge payload reference before calls
        only calls (more, added, each) =
            subst (Asked acknowledge payload reference before) (sym added)
              (only_state plan more yes_said named loaded each)

        after_start-calls :
            (done : Done)
            → (after_start urlsplit valid plan_digest session retries done).calls ≡ done.calls
        after_start-calls done = by_answer done.answer done.calls
          where
            by_answer :
                (a : Answer) (calls : List Call)
                → (after_start urlsplit valid plan_digest session retries
                    (record { answer = a; calls = calls })).calls
                  ≡ calls
            by_answer (answered body) calls = refl
            by_answer failed calls = refl

        after_match-Asked :
            (calls : List Call) (live : Json) (r : Result (Unit {0}))
            → Repeats (job_call plan.job_id) before calls
            → Answers session (job_call plan.job_id) before calls live
            → matches_job urlsplit valid plan_digest session retries plan.request plan live ≡ r
            → Asked acknowledge payload reference before
                (after_match urlsplit valid plan_digest session retries plan reference calls
                  r).calls
        unfolding request request_loop
        after_match-Asked calls live (err e) repeats answers m = only calls repeats
        after_match-Asked calls live (ok u) repeats answers m =
            subst (Asked acknowledge payload reference before)
              (sym (
                after_start-calls _
                ∙ once session (start_call (apply_request plan.request reference)) calls))
              (start_after plan live calls yes_said named loaded answers
                (matches_job-Agrees plan live m))

        after_status-Asked :
            (a : Answer) (calls : List Call)
            → Repeats (job_call plan.job_id) before calls
            → ((live : Json)
                → a ≡ answered live
                → Answers session (job_call plan.job_id) before calls live)
            → Asked acknowledge payload reference before
                (after_status urlsplit valid plan_digest session retries plan reference a
                  calls).calls
        after_status-Asked failed calls repeats answers = only calls repeats
        after_status-Asked (answered live) calls repeats answers =
            after_match-Asked calls live
              (matches_job urlsplit valid plan_digest session retries plan.request plan live)
              repeats (answers live refl) refl

      after_load-Asked :
          (r : Result Reviewed)
          → acknowledge ≡ true
          → load_completed_plan valid plan_digest payload ≡ r
          → Asked acknowledge payload reference before
              (after_load urlsplit valid plan_digest session retries reference before r).calls
      after_load-Asked (err e) y l = nothing
      after_load-Asked (ok plan) y l =
          choose (λ (a : Applied). Asked acknowledge payload reference before a.calls)
            (is_server_reference reference) _ _
            (λ e.
              after_status-Asked plan (load-Loaded valid plan_digest payload plan l) y e
                (request session retries (job_call plan.job_id) before).answer
                (request session retries (job_call plan.job_id) before).calls
                (request-Repeats plan.job_id before) (request-Answers plan.job_id before))
            (λ e. nothing)

      -- The apply asks the server for nothing but the state of the job of the plan, and then, if at
      -- all, once for a start. It asks only with the acknowledgement, a reference of the form of a
      -- server reference, and a plan that has the form of a dry run, the digest that it records and the
      -- name of its job. It asks for a start only where the server has answered the last of those
      -- questions, and says in that answer that this job is completed, at the time and for the URL that
      -- the plan records. What it starts is the request of the plan with three keys set: the secret
      -- reference, no dry run, and the apply mode.
      pub apply_command-Asked :
          Asked acknowledge payload reference before
            (apply_command urlsplit valid plan_digest session retries acknowledge payload reference
              before).calls
      unfolding apply_command
      apply_command-Asked =
          choose (λ (a : Applied). Asked acknowledge payload reference before a.calls)
            (not acknowledge) _ _ (λ e. nothing)
            (λ e.
              after_load-Asked (load_completed_plan valid plan_digest payload) (ground (arith, e))
                refl)
