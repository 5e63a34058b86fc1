-- ===== src/Geoserver/Checks.antt =====
-- services/geoserver.py: the checks of URLs, job ids and references, and of a completed dry run.
use Prim.Native.Char.{code}
use honua_migrate.Base.{
  ℕ, Bool, true, false, not, ◌&&◌, ◌||◌, List, [], ◌∷◌, String, ◌<>◌, ◌==◌, string_eq, nat_eq,
  Option, none, some, if◌then◌else◌, leb, all, length, contains, map,
}
use honua_migrate.Base.Text.{codes, lower, same_codes}
use honua_migrate.Json.{Json, Fields, null, bool, str, arr, obj, get, is_mapping, to_list}
use honua_migrate.Runs.Contracts.{Result, ok, err, other}
use honua_migrate.Readiness.Words.{Parts, is_set}
use honua_migrate.Arcgis.Tables.{refuse}
use honua_migrate.Arcgis.Apply.{without}

-- `rstrip("/")`
unfoldable pub rstrip_slashes : String → String
unfolding string_eq
rstrip_slashes String.[] = ""
rstrip_slashes (String.◌∷◌ c s) =
    let rest = rstrip_slashes s in
    if leb (code c) b'/' && leb b'/' (code c) && rest == "" then "" else String.◌∷◌ c rest

-- `validate_url` without the protection of the transport; `urlsplit` gives `none` where it raises a
-- `ValueError`.
abbrev pub plain_url : Option Parts → String → Result String
plain_url none value = err other
plain_url (some p) value =
    if not (p.scheme == "http" || p.scheme == "https") || p.netloc == ""
    then refuse
    else if is_set p.username || is_set p.password || not (p.query == "") || not (p.fragment == "")
    then refuse
    else ok (rstrip_slashes value)

unfoldable pub validate_url : (String → Option Parts) → String → Result String
unfolding string_eq is_set rstrip_slashes
validate_url urlsplit value = plain_url (urlsplit value) value

-- `validate_url(str(value))`, as no text of another value is an absolute URL
abbrev pub validate_url_of : (String → Option Parts) → Json → Result String
validate_url_of urlsplit (str s) = validate_url urlsplit s
validate_url_of urlsplit _ = refuse

abbrev is_alnum : ℕ → Bool
is_alnum c = (leb b'0' c && leb c b'9') || (leb b'A' c && leb c b'Z') || (leb b'a' c && leb c b'z')

abbrev job_id_codes : List ℕ → Bool
job_id_codes [] = false
job_id_codes (c ∷ cs) =
    is_alnum c && all (λ d. is_alnum d || contains (codes "_-") d) cs && leb (length cs) 127

-- `_JOB_ID`
unfoldable pub is_job_id : String → Bool
unfolding nat_eq
is_job_id s = job_id_codes (codes s)

-- A text, and `str(value or "").lower() == "completed"`
abbrev pub text_of : Json → Option String
text_of (str s) = some s
text_of _ = none

abbrev pub is_text : Json → Bool
is_text (str s) = true
is_text _ = false

abbrev pub is_full_text : Json → Bool
is_full_text (str s) = not (s == "")
is_full_text _ = false

abbrev pub is_the : String → Json → Bool
is_the t (str s) = s == t
is_the t _ = false

unfoldable pub says_completed : Json → Bool
unfolding same_codes lower
says_completed (str s) = same_codes (map lower (codes s)) (codes "completed")
says_completed _ = false

-- `_validate_completed_job`
unfoldable pub is_completed_job : Json → String → Bool
unfolding get string_eq says_completed
is_completed_job job expected =
    is_the expected (get "jobId" job)
    && says_completed (get "status" job)
    && is_full_text (get "completedAt" job)
    && is_text (get "geoServerUrl" job)
    && is_mapping (get "progress" job)

-- A plan that may be applied: its request, and the job of its dry run with its identity
pub record Reviewed : Type 0 where
  pub request : Fields
  pub job : Json
  pub job_id : String

abbrev pub fields_of : Json → Option Fields
fields_of (obj fs) = some fs
fields_of _ = none

-- `actions[0]` of a list of one action, or null
abbrev pub only_action : Json → Json
only_action (arr items) = only (to_list items)
  where
    only : List Json → Json
    only (action ∷ []) = action
    only _ = null
only_action _ = null

abbrev pub is_true : Json → Bool
is_true (bool b) = b
is_true _ = false

abbrev pub is_false : Json → Bool
is_false (bool b) = not b
is_false _ = false

-- The form of the artifact of a dry run
unfoldable pub is_plan : Json → Json → Bool
unfolding get string_eq
is_plan payload action =
    let request = get "request" action in
    is_the "v1" (get "contract_version" payload)
    && is_the "geoserver" (get "service" payload)
    && is_the "plan" (get "safety_mode" payload)
    && is_full_text (get "id" payload)
    && is_mapping action
    && is_mapping request
    && is_mapping (get "dry_run_job" action)
    && is_the "geoserver-import" (get "kind" action)
    && is_true (get "dryRun" request)
    && is_false (get "applyMode" request)

-- `valid` is the contract validation, and `plan_digest` the digest of an unsigned plan.
module _ (valid : Json → Bool) (plan_digest : Fields → String) where
  -- `MigrationPlan.verify`
  unfoldable pub verify : Json → Bool
  unfolding get without string_eq
  verify (obj fs) = is_the (plan_digest (without "plan_digest" fs)) (get "plan_digest" (obj fs))
  verify _ = false

  abbrev pub with_job_id : Json → Json → Fields → Option String → Result Reviewed
  with_job_id payload action request none = refuse
  with_job_id payload action request (some job_id) =
      let job = get "dry_run_job" action in
      if not (is_job_id job_id) || not (is_the ("geoserver-plan-" <> job_id) (get "id" payload))
      then refuse
      else if says_completed (get "status" job)
          && is_full_text (get "completedAt" job)
          && is_mapping (get "result" action)
      then ok (record { request = request; job = job; job_id = job_id })
      else refuse

  abbrev pub with_request : Json → Json → Option Fields → Result Reviewed
  with_request payload action none = refuse
  with_request payload action (some request) =
      with_job_id payload action request (text_of (get "jobId" (get "dry_run_job" action)))

  -- `_load_completed_plan`, of a document that was read
  unfoldable pub load_completed_plan : Json → Result Reviewed
  unfolding get is_plan verify is_job_id says_completed string_eq to_list
  load_completed_plan payload =
      let action = only_action (get "actions" payload) in
      if not (is_mapping payload) || not (valid payload)
      then refuse
      else if not (is_plan payload action)
      then refuse
      else if not (verify payload)
      then refuse
      else with_request payload action (fields_of (get "request" action))
