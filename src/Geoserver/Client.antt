-- ===== src/Geoserver/Client.antt =====
-- services/geoserver.py: `HonuaMigrationClient.request`.
use honua_migrate.Base.{
  ℕ, zero, suc, ◌||◌, List, [], ◌∷◌, ◌++◌, String, ◌<>◌, nat_eq, Option, none, some, if◌then◌else◌,
  ltb, contains,
}
use honua_migrate.Json.{Json, null, is_mapping}
use honua_migrate.Arcgis.Client.{
  Method, get_method, post_method, Call, Reply, raises, reply, redirects, retryable,
}

-- A JSON object, or a `MigrationError`
pub data Answer : Type 0 where
  answered : Json → Answer
  failed : Answer

-- What was asked in all, and the answer
pub record Done : Type 0 where
  pub answer : Answer
  pub calls : List Call

-- The attempt after which no other follows, or the one before `again`
abbrev pub or_again : Option Done → Done → Done
or_again none stop = stop
or_again (some again) stop = again

abbrev pub failing : List Call → Done
failing calls = record { answer = failed; calls = calls }

-- A body that does not parse raises a `ValueError`, which is tried again like a lost connection.
unfoldable pub after_body : Option Json → List Call → Option Done → Done
after_body none calls again = or_again again (failing calls)
after_body (some body) calls again =
    if is_mapping body then record { answer = answered body; calls = calls } else failing calls

unfoldable pub after_reply : Reply → List Call → Option Done → Done
unfolding after_body nat_eq
after_reply raises calls again = or_again again (failing calls)
after_reply (reply r) calls again =
    if r.is_redirect || contains redirects r.status
    then failing calls
    else if contains retryable r.status
    then or_again again (failing calls)
    else if ltb r.status 400
    then after_body r.payload calls again
    else failing calls

module _ (session : List Call → Call → Reply) (call : Call) where
  -- The loop, with `left` attempts after this one
  unfoldable pub request_loop : ℕ → List Call → Done
  unfolding after_reply
  request_loop zero calls = after_reply (session calls call) (calls ++ (call ∷ [])) none
  request_loop (suc left) calls =
      let again = request_loop left (calls ++ (call ∷ [])) in
      after_reply (session calls call) (calls ++ (call ∷ [])) (some again)

-- Only a GET is tried again.
abbrev pub retry_count : Method → ℕ → ℕ
retry_count get_method retries = retries
retry_count post_method retries = 0

unfoldable pub request : (List Call → Call → Reply) → ℕ → Call → List Call → Done
unfolding request_loop
request session retries call calls =
    request_loop session call (retry_count call.method retries) calls

abbrev pub job_call : String → Call
job_call job = record {
  method = get_method;
  path = "/api/v1/admin/import/geoserver/jobs/" <> job;
  payload = null;
}

abbrev pub start_call : Json → Call
start_call payload = record {
  method = post_method;
  path = "/api/v1/admin/import/geoserver/start";
  payload = payload;
}
