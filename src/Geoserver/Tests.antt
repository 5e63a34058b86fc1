-- ===== src/Geoserver/Tests.antt =====
-- An apply of a reviewed catalog at a concrete target, and the theorem there.
use honua_migrate.Base.{
  ◌≤◌, arith, ◌≡◌, refl, ℕ, leb, List, [], ◌∷◌, String, Bool, string_eq, nat_eq, Option, none, some,
  true, false,
}
use honua_migrate.Base.Text.{same_codes, lower}
use honua_migrate.Json.{Json, Fields, bool, str, arr, obj, nil, cons, end, field, get, to_list}
use honua_migrate.Http.Wire.{merge_params, put_param}
use honua_migrate.Readiness.Words.{Parts, is_set}
use honua_migrate.Arcgis.Apply.{without}
use honua_migrate.Arcgis.Client.{Call, Reply, reply}
use honua_migrate.Geoserver.Checks.{
  validate_url, rstrip_slashes, is_job_id, says_completed, is_completed_job, is_plan, verify,
  load_completed_plan,
}
use honua_migrate.Geoserver.Client.{
  after_body, after_reply, request_loop, request, job_call, start_call,
}
use honua_migrate.Geoserver.Apply.{
  started, is_server_reference, apply_request, matches_job, apply_command,
}
use honua_migrate.Geoserver.Wait.{
  waited, is_status, after_poll, wait_loop, wait_for_terminal, wait_for_completed, dry_run,
}
use honua_migrate.Geoserver.Planned.{Run, dry_run-Run}
use honua_migrate.Geoserver.Reviewed.{Asked, apply_command-Asked}

abbrev pub urlsplit : String → Option Parts
urlsplit s = some (record {
  scheme = "https";
  netloc = "maps.example";
  path = "/rest";
  query = "";
  fragment = "";
  hostname = some "maps.example";
  username = none;
  password = none;
})

abbrev import_request : Fields
import_request =
    field "geoServerRestUrl" (str "https://maps.example/rest")
      (field "dryRun" (bool true) (field "applyMode" (bool false) end))

abbrev job : Json
job = obj (
    field "jobId" (str "j1") (
      field "status" (str "Completed") (
        field "completedAt" (str "noon") (
          field "geoServerUrl" (str "https://maps.example/rest/")
            (field "progress" (obj end) end)))))

abbrev action : Json
action = obj (
    field "kind" (str "geoserver-import") (
      field "request" (obj import_request)
        (field "dry_run_job" job (field "result" (obj end) end))))

abbrev plan : Json
plan = obj (
    field "contract_version" (str "v1") (
      field "service" (str "geoserver") (
        field "safety_mode" (str "plan") (
          field "id" (str "geoserver-plan-j1")
            (field "actions" (arr (cons action nil)) (field "plan_digest" (str "d") end))))))

abbrev digest : Fields → String
digest fs = "d"

abbrev session : List Call → Call → Reply
session before call =
    reply (record { status = 200; is_redirect = false; has_content = true; payload = some job })

abbrev asked : List Call
asked =
    job_call "j1"
    ∷ start_call (
        obj (
          field "geoServerRestUrl" (str "https://maps.example/rest") (
            field "dryRun" (bool false)
              (field "applyMode" (bool true) (field "passwordSecretReference" (str "env:X") end)))))
    ∷ []

applied :
    apply_command urlsplit (λ p. true) digest session 2 true plan "env:X" []
    ≡ record { ending = started job; calls = asked }
unfolding apply_command put_param load_completed_plan is_plan verify without is_job_id
    says_completed is_completed_job validate_url rstrip_slashes is_set is_server_reference
    apply_request merge_params matches_job request request_loop after_reply after_body get to_list
    same_codes lower string_eq nat_eq
applied = refl

apply_command-Asked_example :
    Asked urlsplit
      (λ p. true)
      digest
      session
      2
      true
      plan
      "env:X"
      []
      (apply_command urlsplit (λ p. true) digest session 2 true plan "env:X" []).calls
apply_command-Asked_example =
    apply_command-Asked urlsplit (λ p. true) digest session 2 true plan "env:X" []

abbrev with_status : String → Json
with_status status = obj (field "jobId" (str "j1") (field "status" (str status) end))

abbrev later_reply : List Call → Json
later_reply [] = with_status "queued"
later_reply (first ∷ []) = with_status "processing"
later_reply calls = job

abbrev slow_session : List Call → Call → Reply
slow_session before call = reply (record {
  status = 200;
  is_redirect = false;
  has_content = true;
  payload = some (later_reply before);
})

abbrev late : ℕ → Bool
late k = leb 2 k

passes : (k : ℕ) → 2 ≤ k → late k ≡ true
passes k l = ground (arith, l)

abbrev start_body : Json
start_body = obj import_request

polled :
    dry_run slow_session 1 late 3 start_body []
    ≡ waited "j1" job (start_call start_body ∷ job_call "j1" ∷ job_call "j1" ∷ [])
unfolding dry_run wait_for_completed wait_for_terminal wait_loop after_poll is_status is_job_id
    says_completed is_completed_job request request_loop after_reply after_body get same_codes lower
    string_eq nat_eq
polled = refl

dry_run-Run_example : Run start_body [] (dry_run slow_session 1 late 3 start_body [])
dry_run-Run_example = dry_run-Run slow_session 1 late 2 passes start_body []
