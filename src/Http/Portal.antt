-- ===== src/Http/Portal.antt =====
-- honua_esri_assess/portal/client.py: `PortalClient.get_json`, its retries, and the errors that
-- statuses and error objects turn into.
use Prim.Native.Nat.{◌^◌}
use honua_migrate.Base.{
  ℕ, zero, suc, ◌-◌, Bool, false, not, ◌||◌, List, [], ◌∷◌, ◌++◌, String, ◌==◌, nat_eq, string_eq,
  option_eq, Option, none, some, if◌then◌else◌, leb, contains,
}
use honua_migrate.Base.Int.{ℤ, pos, negsuc}
use honua_migrate.Base.Text.{codes}
use honua_migrate.Json.{Json, Fields, str, int, bool, end, field, get, is_mapping}
use honua_migrate.Http.Wire.{
  Response, Reply, unreachable, reply, Request, Session, merge_params, int_of_text,
}
use honua_migrate.Http.Fetch.{has_error}
use honua_migrate.Http.Server.{
  HttpError, auth, forbidden, not_found, rate_limited, connection, api, Answer, ok, raises, Floats,
  Last, stuck, refused, got, Ended, min_of, number_or_date, raise_or, Credential, anonymous, token,
}

pub record RetryPolicy (F : Type 0) : Type 0 where
  pub attempts : ℤ
  pub backoff_seconds : F
  pub retry_after_cap_seconds : F

abbrev pub portal_retryable : List ℕ
portal_retryable = 429 ∷ 500 ∷ 502 ∷ 503 ∷ 504 ∷ []

-- The attempts of the loop after the first: `max(1, attempts)` less one.
abbrev pub further_attempts : ℤ → ℕ
further_attempts (pos n) = n - 1
further_attempts (negsuc n) = 0

module _ {F : Type 0} (floats : Floats F) (policy : RetryPolicy F) where
  -- `if retry_after`, then what it reads as; a text that is neither a number nor a date gives none.
  abbrev pub parse_retry_after : Option String → ℕ → Option F
  parse_retry_after none n = none
  parse_retry_after (some value) n =
      if value == ""
      then none
      else number_or_date floats (floats.float_of (codes value)) (floats.until (codes value) n)

  abbrev pub delay_of : Option F → ℕ → F
  delay_of (some seconds) n = min_of floats seconds policy.retry_after_cap_seconds
  delay_of none n =
      min_of floats (floats.scaled policy.backoff_seconds (2 ^ (n - 1)))
        policy.retry_after_cap_seconds

  unfoldable pub retry_delay : Response → ℕ → F
  unfolding string_eq
  retry_delay r n = delay_of (parse_retry_after r.retry_after n) n

  module _ (session : Session) (request : Request) where
    -- One round, the one after `n` requests, before the `again` that follows a sleep, if any may.
    unfoldable pub after_reply : Reply → ℕ → F → List F → Option (F → Ended F) → Ended F
    unfolding retry_delay nat_eq
    after_reply unreachable n elapsed slept again = record {
      last = refused;
      sent = suc n;
      elapsed = elapsed;
      slept = slept;
    }
    after_reply (reply r) n elapsed slept none = record {
      last = got r;
      sent = suc n;
      elapsed = elapsed;
      slept = slept;
    }
    after_reply (reply r) n elapsed slept (some again) =
        if contains portal_retryable r.status
        then again (retry_delay r (suc n))
        else record { last = got r; sent = suc n; elapsed = elapsed; slept = slept }

    -- The loop with `left` attempts after this one, after `n` requests, which slept `slept`.
    unfoldable pub portal_loop : ℕ → ℕ → F → List F → Ended F
    unfolding after_reply
    portal_loop zero n elapsed slept = after_reply (session request n) n elapsed slept none
    portal_loop (suc left) n elapsed slept = after_reply (session request n) n elapsed slept (
        some
          (λ delay. portal_loop left (suc n) (floats.plus elapsed delay) (slept ++ (delay ∷ []))))

    unfoldable pub portal_rounds : Ended F
    unfolding portal_loop
    portal_rounds = portal_loop (further_attempts policy.attempts) 0 floats.zero_seconds []

-- `_coerce_int`
unfoldable pub coerce_int : Json → Option ℤ
unfolding int_of_text
coerce_int (int n) = some n
coerce_int (bool b) = if b then some (pos 1) else some (pos 0)
coerce_int (str s) = int_of_text s
coerce_int _ = none

abbrev pub names_code : Option ℤ → ℕ → Bool
names_code (some (pos m)) n = m == n
names_code _ n = false

-- `_api_error`: the error for an error object, under the status of the response, if it is known.
unfoldable pub envelope_error : Option ℕ → Option ℤ → HttpError
unfolding nat_eq option_eq
envelope_error status code =
    if status == some 401 || names_code code 498 || names_code code 499
    then auth
    else if status == some 403
    then forbidden
    else if status == some 404
    then not_found
    else if status == some 429 || names_code code 429
    then rate_limited
    else api

unfoldable pub api_error : Json → Option ℕ → Option HttpError
unfolding has_error coerce_int get envelope_error
api_error payload status =
    if has_error payload
    then some (envelope_error status (coerce_int (get "code" (get "error" payload))))
    else none

abbrev plain_error : ℕ → HttpError
plain_error status =
    if status == 401
    then auth
    else if status == 403
    then forbidden
    else if status == 404
    then not_found
    else if status == 429
    then rate_limited
    else api

abbrev error_or : Option HttpError → HttpError → HttpError
error_or none e = e
error_or (some d) e = d

unfoldable pub portal_status_error : ℕ → Json → HttpError
unfolding api_error nat_eq
portal_status_error status payload = error_or (api_error payload (some status)) (plain_error status)

unfoldable pub response_answer : Response → Option Json → Answer
unfolding portal_status_error api_error
response_answer r none = raises api
response_answer r (some payload) =
    if not (is_mapping payload)
    then raises api
    else if leb 400 r.status
    then raises (portal_status_error r.status payload)
    else raise_or (api_error payload none) (ok payload)

-- A loop that is stuck gives no answer.
abbrev pub answer_of : Last → Option Answer
answer_of stuck = none
answer_of refused = some (raises connection)
answer_of (got r) = some (response_answer r r.payload)

-- The parameters that a credential adds: none, or a token.
abbrev pub credential_params : Credential → Fields
credential_params anonymous = end
credential_params (token t) = field "token" (str t) end

-- `get_json` at the absolute URL
unfoldable pub get_json :
    {F : Type 0} → Floats F → RetryPolicy F → Session → Credential → String → Fields → Option Answer
unfolding portal_rounds response_answer merge_params
get_json floats policy session credential url params =
    answer_of
      (portal_rounds floats policy session (record {
        url = url;
        params =
            merge_params (merge_params (field "f" (str "json") end) params)
              (credential_params credential);
      })).last
