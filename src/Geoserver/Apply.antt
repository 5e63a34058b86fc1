-- ===== src/Geoserver/Apply.antt =====
-- services/geoserver.py: `apply_command`, which applies a reviewed dry run.
use honua_migrate.Base.{
  ℕ, Bool, true, false, not, ◌&&◌, ◌||◌, List, [], ◌∷◌, String, ◌==◌, string_eq, nat_eq, Option,
  if◌then◌else◌, leb, all, contains, any,
}
use honua_migrate.Base.Text.{codes, is_space}
use honua_migrate.Json.{Json, Fields, bool, str, obj, end, field, get}
use honua_migrate.Runs.Contracts.{Result, ok, err, Exc, then_result, migration, exit_input_error}
use honua_migrate.Http.Wire.{merge_params}
use honua_migrate.Readiness.Words.{Parts}
use honua_migrate.Arcgis.Client.{Call, Reply}
use honua_migrate.Geoserver.Checks.{
  validate_url, validate_url_of, is_completed_job, Reviewed, load_completed_plan,
}
use honua_migrate.Geoserver.Client.{Answer, answered, failed, Done, request, job_call, start_call}

abbrev is_letter : ℕ → Bool
is_letter c = (leb b'A' c && leb c b'Z') || (leb b'a' c && leb c b'z')

abbrev in_scheme : ℕ → Bool
in_scheme c = is_letter c || (leb b'0' c && leb c b'9') || contains (codes "+.-") c

-- Whether `_SERVER_REFERENCE` matches: a scheme, then a colon, then a text without spaces.
abbrev rest_of_reference : List ℕ → Bool
rest_of_reference [] = false
rest_of_reference (c ∷ cs) =
    let rest = rest_of_reference cs in
    if c == b':' then any (λ d. true) cs && all (λ d. not (is_space d)) cs else in_scheme c && rest

abbrev reference_codes : List ℕ → Bool
reference_codes [] = false
reference_codes (c ∷ cs) = is_letter c && rest_of_reference cs

unfoldable pub is_server_reference : String → Bool
unfolding nat_eq
is_server_reference s = reference_codes (codes s)

-- `request` with the three keys of an apply
unfoldable pub apply_request : Fields → String → Json
unfolding merge_params
apply_request request reference = obj (
    merge_params request (
      field "passwordSecretReference" (str reference)
        (field "dryRun" (bool false) (field "applyMode" (bool true) end))))

-- How the command ends: with what the server answered to the start, or with an exception; and what
-- was asked of the server in all.
pub data Ending : Type 0 where
  started : Json → Ending
  raised : Exc → Ending

pub record Applied : Type 0 where
  pub ending : Ending
  pub calls : List Call

abbrev pub refused : List Call → Applied
refused calls = record { ending = raised (migration exit_input_error); calls = calls }

abbrev pub same_text : Json → Json → Bool
same_text (str s) (str t) = s == t
same_text _ _ = false

module _ (urlsplit : String → Option Parts) (valid : Json → Bool) (plan_digest : Fields → String)
    (session : List Call → Call → Reply) (retries : ℕ) where
  abbrev pub same_url : Result String → Result String → Result (Unit {0})
  same_url live recorded =
      then_result live
        λ a. then_result recorded λ b. if a == b then ok tt else err (migration exit_input_error)

  -- What `_verify_plan_job` asks of the job that the server has; both times are texts by then.
  unfoldable pub matches_job : Fields → Reviewed → Json → Result (Unit {0})
  unfolding is_completed_job validate_url get string_eq
  matches_job request plan live =
      if not (is_completed_job live plan.job_id)
      then err (migration exit_input_error)
      else if not (same_text (get "completedAt" live) (get "completedAt" plan.job))
      then err (migration exit_input_error)
      else same_url (validate_url_of urlsplit (get "geoServerUrl" live))
          (validate_url_of urlsplit (get "geoServerRestUrl" (obj request)))

  abbrev pub after_start : Done → Applied
  after_start done = elim done.answer [
    | answered body ↦ record { ending = started body; calls = done.calls }
    | failed ↦ refused done.calls
  ]

  abbrev pub after_match : Reviewed → String → List Call → Result (Unit {0}) → Applied
  after_match plan reference calls (err e) = record { ending = raised e; calls = calls }
  after_match plan reference calls (ok u) =
      after_start
        (request session retries (start_call (apply_request plan.request reference)) calls)

  abbrev pub after_status : Reviewed → String → Answer → List Call → Applied
  after_status plan reference failed calls = refused calls
  after_status plan reference (answered live) calls =
      after_match plan reference calls (matches_job plan.request plan live)

  abbrev pub after_load : String → List Call → Result Reviewed → Applied
  after_load reference calls (err e) = record { ending = raised e; calls = calls }
  after_load reference calls (ok plan) =
      if is_server_reference reference
      then (let done = request session retries (job_call plan.job_id) calls in
          after_status plan reference done.answer done.calls)
      else refused calls

  -- With an output that may be written and a client that could be made, of a plan that was read
  unfoldable pub apply_command : Bool → Json → String → List Call → Applied
  unfolding load_completed_plan request matches_job apply_request is_server_reference
  apply_command acknowledge payload reference calls =
      if not acknowledge
      then refused calls
      else after_load reference calls (load_completed_plan valid plan_digest payload)
