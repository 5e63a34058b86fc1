-- ===== src/Arcgis/RedactTests.antt =====
-- The redaction of an artifact of services/arcgis.py at a concrete answer of the target.
use honua_migrate.Base.{String, ◌<>◌, Option, none, some}
use honua_migrate.Json.{Json, Fields, str, obj, end, field}
use honua_migrate.Readiness.Words.{Parts}

-- What the standard library finds in the one URL of the answer
abbrev urlsplit : String → Option Parts
urlsplit s = some (record {
  scheme = "https";
  netloc = "me@honua";
  path = "/a;b/c";
  query = "q=1";
  fragment = "";
  hostname = some "honua";
  username = some "me";
  password = none;
})

abbrev urlunsplit : String → String → String → String
urlunsplit scheme netloc path = scheme <> ("://" <> (netloc <> path))

abbrev answer : Fields
answer =
    field "jobId" (str "j1")
      (field "access_token" (str "t") (field "link" (str "HTTPS://me@honua/a;b/c?q=1") end))

abbrev redacted : Json
redacted = obj (field "jobId" (str "j1") (field "link" (str "https://honua/a/c") end))
