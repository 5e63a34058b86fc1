-- ===== src/Http/Fetch.antt =====
-- honua_esri_assess/scanners/http.py: `fetch_json`, its retries and its diagnostics.
use honua_migrate.Base.{
  ℕ, zero, suc, Bool, false, ◌&&◌, List, [], ◌∷◌, ◌++◌, String, ◌<>◌, ◌==◌, string_eq, nat_eq,
  Option, none, some, if◌then◌else◌, leb, contains,
}
use honua_migrate.Base.Decimal.{show_nat}
use honua_migrate.Base.Int.{ℤ, pos, negsuc}
use honua_migrate.Json.{Json, Fields, null, str, int, end, field, get, is_mapping}
use honua_migrate.Http.Wire.{Response, Reply, unreachable, reply, Request, Session, default_param}

-- A `Diagnostic` of this module; `code` and `severity` are among those that the class admits.
pub record Diagnostic : Type 0 where
  pub code : String
  pub message : String
  pub scope : String
  pub severity : String

pub record RequestOptions : Type 0 where
  pub token : Option String
  pub max_retries : ℤ

abbrev pub warn : String → String → String → Diagnostic
warn code message scope = record {
  code = code;
  message = message;
  scope = scope;
  severity = "warn";
}

abbrev pub denied : String → Diagnostic
denied label = warn "missing-permission" ("Access denied while reading " <> (label <> ".")) label

abbrev pub limited : String → Diagnostic
limited label = record {
  code = "rate-limited";
  message = "Rate limited while reading " <> (label <> "; partial inventory returned.");
  scope = label;
  severity = "info";
}

abbrev pub unreached : String → Diagnostic
unreached label =
    warn "partial-coverage" ("Could not reach " <> (label <> "; inventory may be incomplete."))
      label

abbrev pub upstream : ℕ → String → Diagnostic
upstream status label =
    warn "partial-coverage"
      ("Upstream returned HTTP " <> (show_nat status <> (" for " <> (label <> ".")))) label

abbrev pub not_json : String → Diagnostic
not_json label = warn "partial-coverage" ("Non-JSON response from " <> (label <> ".")) label

abbrev pub enveloped : String → Diagnostic
enveloped label =
    warn "partial-coverage" ("Esri returned an error envelope for " <> (label <> ".")) label

-- What is returned, `None` being `null`, with the diagnostics and how many requests were sent.
pub record Fetched : Type 0 where
  pub value : Json
  pub diagnostics : List Diagnostic
  pub sent : ℕ

abbrev pub note : List Diagnostic → Diagnostic → ℕ → Fetched
note ds d n = record { value = null; diagnostics = ds ++ (d ∷ []); sent = n }

-- `err_code == n`; Python compares a Boolean as the number 0 or 1.
abbrev pub is_code : Json → ℕ → Bool
is_code (int (pos m)) n = m == n
is_code _ n = false

-- Whether the body carries an error object
unfoldable pub has_error : Json → Bool
unfolding get
has_error payload = is_mapping payload && is_mapping (get "error" payload)

abbrev pub envelope_of : Json → String → Diagnostic
envelope_of code label =
    if is_code code 403
    then denied label
    else if is_code code 429
    then limited label
    else enveloped label

unfoldable pub decode_payload : Option Json → List Diagnostic → String → ℕ → Fetched
unfolding get has_error nat_eq
decode_payload none ds label n = note ds (not_json label) n
decode_payload (some payload) ds label n =
    if has_error payload
    then note ds (envelope_of (get "code" (get "error" payload)) label) n
    else record { value = payload; diagnostics = ds; sent = n }

unfoldable pub decode_response : Response → List Diagnostic → String → ℕ → Fetched
unfolding decode_payload nat_eq show_nat
decode_response r ds label n =
    if r.status == 403
    then note ds (denied label) n
    else if r.status == 429
    then note ds (limited label) n
    else if leb 400 r.status
    then note ds (upstream r.status label) n
    else decode_payload r.payload ds label n

abbrev pub retryable : List ℕ
retryable = 429 ∷ 500 ∷ 502 ∷ 503 ∷ 504 ∷ []

unfoldable pub is_retryable : Response → Bool
unfolding nat_eq
is_retryable r = contains retryable r.status

module _ (session : Session) (request : Request) (label : String) where
  -- One attempt after which more may follow, which give `again`, and one after which none do.
  unfoldable pub attempt : Reply → Fetched → ℕ → List Diagnostic → Fetched
  unfolding decode_response is_retryable
  attempt unreachable again n ds = again
  attempt (reply r) again n ds =
      if is_retryable r then again else decode_response r ds label (suc n)

  unfoldable pub last_attempt : Reply → ℕ → List Diagnostic → Fetched
  unfolding decode_response
  last_attempt unreachable n ds = note ds (unreached label) (suc n)
  last_attempt (reply r) n ds = decode_response r ds label (suc n)

  -- The rest of the loop: `left` attempts may follow this one, and `n` requests were sent before.
  unfoldable pub fetch_loop : ℕ → ℕ → List Diagnostic → Fetched
  unfolding attempt last_attempt
  fetch_loop zero n ds = last_attempt (session request n) n ds
  fetch_loop (suc left) n ds =
      let again = fetch_loop left (suc n) ds in attempt (session request n) again n ds

-- `max(0, n)`
abbrev pub at_least_zero : ℤ → ℕ
at_least_zero (pos n) = n
at_least_zero (negsuc n) = 0

-- `if options.token`, and `params or {"f": "json"}`
abbrev pub with_token : Option String → Fields → Fields
with_token none params = params
with_token (some token) params =
    if token == "" then params else default_param "token" (str token) params

abbrev pub or_json : Fields → Fields
or_json end = field "f" (str "json") end
or_json (field k v fs) = field k v fs

unfoldable pub fetch_json :
    Session → String → List Diagnostic → String → RequestOptions → Fields → Fetched
unfolding fetch_loop string_eq default_param
fetch_json session url ds label options params =
    let request : Request = record {
      url = url;
      params = with_token options.token (or_json params);
    } in
    fetch_loop session request label (at_least_zero options.max_retries) 0 ds
