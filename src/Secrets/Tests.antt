-- ===== src/Secrets/Tests.antt =====
-- The scan and the redaction of small artifacts.
use honua_migrate.Base.{
  ◌≡◌, refl, Bool, false, ◌<>◌, String, Option, none, some, if◌then◌else◌, ◌==◌, string_eq, nat_eq,
}
use honua_migrate.Json.{Json, Fields, str, obj, end, field, get, get_field, null}
use honua_migrate.Runs.Contracts.{ok, err, other}
use honua_migrate.Secrets.Keys.{is_sensitive, has_scheme_mark, fold, starts_with, occurs_in}
use honua_migrate.Secrets.Artifact.{
  Url, no_port, assert_artifact_safe, assert_text_safe, redact_value, redact_text, redact_config,
}
use honua_migrate.Secrets.Safe.{Safe, assert_artifact_safe-Safe, redact_config-Safe}

abbrev no_bearer : String → Bool
no_bearer s = false

-- Two texts it can split: a host with a password, and that host alone; a broken one it refuses.
abbrev split : String → Option Url
split s =
    if s == "http://["
    then none
    else (some (record {
      scheme = "https";
      hostname = some "host";
      url_port = no_port;
      path = "/x";
      username = if s == "https://u:p@host/x" then some "u" else none;
      password = if s == "https://u:p@host/x" then some "p" else none;
      query = "";
    }))

abbrev unsplit : String → String → String → String
unsplit scheme location path = scheme <> ("://" <> (location <> path))

abbrev settings : Fields
settings = field "target" (str "https://u:p@host/x") (field "API_KEY" (str "k") end)

abbrev cleaned : Json
cleaned = obj (field "target" (str "https://host/x") end)

redacted_ok : redact_config no_bearer split unsplit settings ≡ ok cleaned
unfolding redact_config redact_value redact_text assert_artifact_safe assert_text_safe is_sensitive
    has_scheme_mark fold starts_with occurs_in string_eq nat_eq
redacted_ok = refl

redact_config-Safe_example :
    Safe no_bearer split unsplit cleaned
    × ((k : String)
        → get k cleaned ≡ (
            if is_sensitive k
            then null
            else redact_value no_bearer split unsplit (get_field k settings)))
redact_config-Safe_example = redact_config-Safe no_bearer split unsplit settings cleaned redacted_ok

scan_cleaned : assert_artifact_safe no_bearer split unsplit cleaned ≡ ok tt
unfolding assert_artifact_safe assert_text_safe is_sensitive has_scheme_mark fold starts_with
    occurs_in string_eq nat_eq
scan_cleaned = refl

assert_artifact_safe-Safe_example : Safe no_bearer split unsplit cleaned
assert_artifact_safe-Safe_example =
    assert_artifact_safe-Safe no_bearer split unsplit cleaned scan_cleaned

-- A text that `urlsplit` refuses raises its `ValueError` out of the scan.
broken_url : assert_artifact_safe no_bearer split unsplit (str "http://[") ≡ err other
unfolding assert_artifact_safe assert_text_safe has_scheme_mark starts_with occurs_in string_eq
    nat_eq
broken_url = refl
