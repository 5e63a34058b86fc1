-- ===== src/Readiness/Preflight.antt =====
-- services/target_readiness.py: `preflight_target`, its two requests and the order of its checks.
use honua_migrate.Base.{
  ℕ, zero, suc, Bool, true, false, not, ◌&&◌, ◌||◌, List, [], ◌∷◌, String, ◌==◌, string_eq, nat_eq,
  option_eq, Option, none, some, if◌then◌else◌, contains, ltb,
}
use honua_migrate.Base.Int.{ℤ}
use honua_migrate.Json.{Json, null, bool, get, is_mapping}
use honua_migrate.Runs.Contracts.{Result, ok, then_result}
use honua_migrate.Http.Fetch.{at_least_zero}
use honua_migrate.Readiness.Words.{Parts}
use honua_migrate.Readiness.Manifest.{
  Licensing, enabled, Observed, nothing_observed, as_mapping, observed, Declaration, declarations,
  Problem, problem, first_of,
}
use honua_migrate.Readiness.Report
use honua_migrate.Readiness.Report.{
  Outcome, unauthenticated, forbidden, Report, is_valid, payment_required, auth_report,
  unknown_report, incompatible_report, unavailable_report, ready_report,
}

-- What a request does: it raises a `Timeout` or another `RequestException`, or it gives a response
-- with its status, the length of its content, and its JSON, none where that raises.
pub data Reply : Type 0 where
  timeout unreachable : Reply
  reply : ℕ → ℕ → Option Json → Reply

-- `_body`
unfoldable pub body : ℕ → Option Json → Json
unfolding nat_eq
body size none = null
body size (some payload) = if ltb 1_000_000 size || size == 0 then null else payload

abbrev pub retryable : List ℕ
retryable = 429 ∷ 502 ∷ 503 ∷ 504 ∷ []

pub data Got : Type 0 where
  timed_out unreachable : Got
  response : ℕ → Json → Got

-- What `_get` returns, and how many requests were sent before and by it.
pub record Fetch : Type 0 where
  pub got : Got
  pub sent : ℕ

-- The answers of a target to a path, by how many requests it has had.
abbrev pub Target : Type 0
Target = String → ℕ → Reply

-- The last attempt, or one before the `again` that follows it
unfoldable pub after_reply : Reply → ℕ → Option Fetch → Fetch
unfolding body nat_eq
after_reply timeout n none = record { got = timed_out; sent = suc n }
after_reply unreachable n none = record { got = unreachable; sent = suc n }
after_reply (reply status size payload) n none = record {
  got = response status (body size payload);
  sent = suc n;
}
after_reply (reply status size payload) n (some again) =
    if contains retryable status
    then again
    else record { got = response status (body size payload); sent = suc n }
after_reply _ n (some again) = again

unfoldable pub get_loop : Target → String → ℕ → ℕ → Fetch
unfolding after_reply
get_loop target path zero n = after_reply (target path n) n none
get_loop target path (suc left) n =
    let again = get_loop target path left (suc n) in after_reply (target path n) n (some again)

-- `_get`
unfoldable pub fetch : Target → ℤ → String → ℕ → Fetch
unfolding get_loop
fetch target retries path n = get_loop target path (at_least_zero retries) n

abbrev pub manifest_path : String
manifest_path = "/api/v1/capabilities/manifest"

abbrev pub jobs_path : String
jobs_path = "/api/v1/admin/import/geoservices/jobs"

abbrev pub is_false : Json → Bool
is_false (bool b) = not b
is_false _ = false

abbrev pub is_true : Json → Bool
is_true (bool b) = b
is_true _ = false

abbrev pub is_available : Declaration → Bool
is_available d = d.available

-- The reason of the first declaration that is not available
abbrev pub first_denied : List Declaration → Option (Option String)
first_denied [] = none
first_denied (d ∷ ds) = if d.available then first_denied ds else some d.reason

abbrev pub unlicensed : Observed → Bool
unlicensed seen = is_enabled seen.licensing && not (is_valid seen.license_valid)
  where
    is_enabled : Licensing → Bool
    is_enabled enabled = true
    is_enabled _ = false

-- What `_capability` reports after the search for a denial; `known` is the code of the problem.
unfoldable pub unless_denied :
    Option (Option String) → ℕ → Observed → Option String → Option String → Report
unless_denied (some reason) status seen known kind =
    unavailable_report (some status) (first_of reason known) kind seen
unless_denied none status seen known kind =
    if unlicensed seen
    then unavailable_report (some status) known kind seen
    else ready_report (some status) seen

-- `_capability`, of the declarations
unfoldable pub capability : ℕ → List Declaration → Observed → Option String → Option String → Report
unfolding unless_denied
capability status [] seen known kind = unknown_report (some status) known kind seen
capability status (d ∷ ds) seen known kind =
    unless_denied (first_denied (d ∷ ds)) status seen known kind

-- The contract that the client speaks, or why it does not
unfoldable pub versioned : ℕ → Json → String → Observed → Option String → Option String → Report
unfolding option_eq string_eq capability
versioned status manifest secret seen known kind =
    if not (seen.schema == some "honua.capability_manifest.v1")
      || not (seen.api_version == some "v1")
    then if seen.schema == none || seen.api_version == none
      then unknown_report (some status) known kind seen
      else incompatible_report (some status) known kind seen
    else capability status (declarations manifest secret) seen known kind

module _ (urlsplit : String → Option Parts) (urlunsplit : String → String → String → String)
    (secret : String) (retries : ℤ) (target : Target) where
  -- What follows the request for the import jobs
  unfoldable pub after_jobs : ℕ → Json → Option String → Option String → Got → Result Report
  unfolding problem observed versioned nat_eq
  after_jobs status manifest known kind timed_out = ok (Report.timed_out (observed manifest secret))
  after_jobs status manifest known kind unreachable =
      ok (Report.not_reached (observed manifest secret))
  after_jobs status manifest known kind (response job_status job_body) =
      let seen = observed manifest secret in
      if job_status == 401
      then ok (auth_report unauthenticated (some job_status) known kind seen)
      else if job_status == 403
      then then_result (problem urlsplit urlunsplit job_body secret) (λ job. ok (
          auth_report forbidden (some job_status) (first_of job.code known) (first_of job.kind kind)
            seen))
      else if not (job_status == 200)
      then ok (unknown_report (some job_status) known kind seen)
      else ok (versioned status manifest secret seen known kind)

  unfoldable pub from_manifest : ℕ → ℕ → Json → Problem → Result Report
  unfolding after_jobs get fetch as_mapping nat_eq
  from_manifest n status manifest p =
      let authenticated = get "authenticated" (as_mapping (get "scope" manifest)) in
      if status == 401
      then ok (auth_report unauthenticated (some status) p.code p.kind nothing_observed)
      else if status == 403
      then ok (auth_report forbidden (some status) p.code p.kind nothing_observed)
      else if status == 402
      then ok (payment_required (some status) p.code p.kind)
      else if not (status == 200) || not (is_mapping manifest)
      then ok (unknown_report (some status) p.code p.kind nothing_observed)
      else if is_false authenticated
      then ok (auth_report unauthenticated (some status) p.code p.kind nothing_observed)
      else if not (is_true authenticated)
      then ok (unknown_report (some status) p.code p.kind nothing_observed)
      else after_jobs status manifest p.code p.kind (fetch target retries jobs_path n).got

  abbrev pub after_manifest : Fetch → Result Report
  after_manifest f = elim f.got [
    | timed_out ↦ ok (Report.timed_out nothing_observed)
    | unreachable ↦ ok (Report.not_reached nothing_observed)
    | response status manifest ↦
        then_result (problem urlsplit urlunsplit manifest secret)
          (λ p. from_manifest f.sent status manifest p)
  ]

  unfoldable pub preflight_target : Result Report
  unfolding from_manifest problem fetch
  preflight_target = after_manifest (fetch target retries manifest_path 0)
