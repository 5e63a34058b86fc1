-- ===== src/Readiness/Tests.antt =====
-- The preflight at concrete targets, and the theorems there.
use honua_migrate.Base.{
  ◌≡◌, refl, zero, suc, true, Option, none, some, String, ◌<>◌, string_eq, nat_eq, option_eq,
}
use honua_migrate.Base.Int.{pos}
use honua_migrate.Base.Text.{lower, same_codes}
use honua_migrate.Json.{Json, str, bool, arr, obj, nil, cons, end, field, get, members}
use honua_migrate.Runs.Contracts.{ok, err, other}
use honua_migrate.Secrets.Keys.{starts_with, occurs_in}
use honua_migrate.Readiness.Words.{
  Parts, is_public_code, is_token, is_state, is_revision, is_schema, hides_secret, public_text,
  public_code, schema_version, problem_type,
}
use honua_migrate.Readiness.Manifest.{
  as_mapping, observed, licensing_of, declared_in, declarations, problem,
}
use honua_migrate.Readiness.Report.{Report, report, exit_of, ready_report}
use honua_migrate.Readiness.Preflight.{
  timeout, reply, Target, response, fetch, manifest_path, body, after_reply, get_loop, capability,
  unless_denied, versioned, after_jobs, from_manifest, preflight_target,
}
use honua_migrate.Readiness.Ready.{Confirmed, preflight_target-Confirmed}
use honua_migrate.Readiness.Clean.{CleanReport}
use honua_migrate.Readiness.Hidden.{preflight_target-Clean}

abbrev no_split : String → Option Parts
no_split s = none

abbrev unsplit : String → String → String → String
unsplit scheme netloc path = scheme <> ("://" <> (netloc <> path))

abbrev manifest : Json
manifest = obj (
    field "schemaVersion" (str "honua.capability_manifest.v1") (
      field "server" (obj (field "apiVersion" (str "v1") (field "serverVersion" (str "k3y") end))) (
        field "scope" (obj (field "authenticated" (bool true) end)) (
          field "capabilities"
            (arr (
              cons (obj (field "id" (str "import.geoservices") (field "available" (bool true) end)))
                nil))
            end))))

-- It times out once, and then answers.
abbrev target : Target
target path zero = timeout
target path (suc n) = reply 200 100 (some manifest)

abbrev ready : Report
ready = ready_report (some 200) (observed manifest "k3y")

exits_with_0 : preflight_target no_split unsplit "k3y" (pos 1) target ≡ ok ready
unfolding preflight_target from_manifest after_jobs versioned capability unless_denied fetch
    get_loop after_reply body problem problem_type observed declarations declared_in licensing_of
    as_mapping public_code schema_version public_text is_public_code is_token is_state is_revision
    is_schema hides_secret get members string_eq nat_eq option_eq starts_with occurs_in lower
    same_codes
exits_with_0 = refl

ready_exit : ready.exit_code ≡ 0
unfolding ready_report report exit_of
ready_exit = refl

preflight_target-Confirmed_example :
    (m : Json) × ((fetch target (pos 1) manifest_path 0).got ≡ response 200 m)
    × Confirmed no_split unsplit "k3y" (pos 1) target m (fetch target (pos 1) manifest_path 0).sent
preflight_target-Confirmed_example =
    preflight_target-Confirmed no_split unsplit "k3y" (pos 1) target ready exits_with_0 ready_exit

preflight_target-Clean_example : CleanReport "k3y" ready
preflight_target-Clean_example =
    preflight_target-Clean "k3y" no_split unsplit (pos 1) target ready exits_with_0

-- A problem type that `urlsplit` refuses raises its `ValueError` out of the preflight.
abbrev broken : Target
broken path n = reply 403 20 (some (obj (field "type" (str "http://[") end)))

raises : preflight_target no_split unsplit "k3y" (pos 0) broken ≡ err other
unfolding preflight_target fetch get_loop after_reply body problem problem_type hides_secret get
    string_eq nat_eq occurs_in starts_with
raises = refl
