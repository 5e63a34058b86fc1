-- ===== src/Http/Server.antt =====
-- honua_esri_assess/server/client.py: `ServerClient.get_json`, its retries on a budget of time, and
-- the errors that statuses and error objects turn into.
use honua_migrate.Base.{
  ℕ, zero, suc, ◌-◌, Bool, false, not, ◌&&◌, ◌||◌, List, [], ◌∷◌, ◌++◌, String, ◌==◌, nat_eq,
  Option, none, some, if◌then◌else◌, leb, ltb, contains, is_empty,
}
use honua_migrate.Base.Int.{ℤ, pos, negsuc}
use honua_migrate.Base.Text.{codes, strip}
use honua_migrate.Json.{Json, Fields, str, end, field, get, is_mapping}
use honua_migrate.Http.Wire.{Response, Reply, unreachable, reply, Request, Session, merge_params}
use honua_migrate.Http.Fetch.{has_error, is_code}

-- The subclasses of `ServerError` and of `PortalError` that a request raises
pub data HttpError : Type 0 where
  auth forbidden not_found rate_limited connection api : HttpError

pub data Answer : Type 0 where
  ok : Json → Answer
  raises : HttpError → Answer

-- Python's floats: `a < b`, `a + b`, `a * b`, `a ** n`, `a * n` of an
-- integer, `float` of a text, `none` where it raises a
-- `ValueError`, and the seconds until the date that a text names, read after so many requests.
pub record Floats (F : Type 0) : Type 0 where
  pub zero_seconds : F
  pub below : F → F → Bool
  pub plus : F → F → F
  pub times : F → F → F
  pub power : F → ℕ → F
  pub scaled : F → ℕ → F
  pub float_of : List ℕ → Option F
  pub until : List ℕ → ℕ → Option F

-- How a loop of requests ends: with the last reply, or at the end of its fuel.
pub data Last : Type 0 where
  stuck refused : Last
  got : Response → Last

pub record Ended (F : Type 0) : Type 0 where
  pub last : Last
  pub sent : ℕ
  pub elapsed : F
  pub slept : List F

pub record RetryPolicy (F : Type 0) : Type 0 where
  pub max_attempts : ℤ
  pub initial_backoff : F
  pub backoff_factor : F
  pub max_total_seconds : F
  pub retry_statuses : List ℕ

module _ {F : Type 0} (floats : Floats F) where
  -- `max(0.0, x)` and `min(a, b)`
  abbrev pub not_negative : F → F
  not_negative x = if floats.below floats.zero_seconds x then x else floats.zero_seconds

  abbrev pub min_of : F → F → F
  min_of a b = if floats.below b a then b else a

  abbrev pub date_delay : Option F → Option F
  date_delay none = none
  date_delay (some x) = some (not_negative x)

  abbrev pub number_or_date : Option F → Option F → Option F
  number_or_date none date = date_delay date
  number_or_date (some x) date = some (not_negative x)

  unfoldable pub parse_retry_after : Option String → ℕ → Option F
  unfolding strip
  parse_retry_after none n = none
  parse_retry_after (some value) n =
      let text = strip (codes value) in
      if is_empty text then none else number_or_date (floats.float_of text) (floats.until text n)

  module _ (retry : RetryPolicy F) where
    -- The delay before another attempt, after `n` requests
    abbrev pub delay_of : Option F → ℕ → F
    delay_of (some seconds) n = min_of seconds retry.max_total_seconds
    delay_of none n =
        min_of (floats.times retry.initial_backoff (floats.power retry.backoff_factor (n - 1)))
          retry.max_total_seconds

    unfoldable pub compute_delay : Response → ℕ → F
    unfolding parse_retry_after
    compute_delay r n = delay_of (parse_retry_after r.retry_after n) n

    -- `n < max_attempts`
    abbrev pub may_retry : ℤ → ℕ → Bool
    may_retry (pos m) n = ltb n m
    may_retry (negsuc m) n = false

    module _ (session : Session) (request : Request) where
      -- One round, the one after `n` requests, before the `again` that follows a sleep.
      unfoldable pub after_reply : Reply → ℕ → F → List F → (F → Ended F) → Ended F
      unfolding compute_delay nat_eq
      after_reply unreachable n elapsed slept again = record {
        last = refused;
        sent = suc n;
        elapsed = elapsed;
        slept = slept;
      }
      after_reply (reply r) n elapsed slept again =
          let stop : Ended F = record {
            last = got r;
            sent = suc n;
            elapsed = elapsed;
            slept = slept;
          } in
          let delay = compute_delay r (suc n) in
          if contains retry.retry_statuses r.status && may_retry retry.max_attempts (suc n)
          then if floats.below retry.max_total_seconds (floats.plus elapsed delay)
            then stop
            else again delay
          else stop

      -- The `while True` loop on fuel, after `n` requests, which slept `slept`.
      unfoldable pub request_loop : ℕ → ℕ → F → List F → Ended F
      unfolding after_reply
      request_loop zero n elapsed slept = record {
        last = stuck;
        sent = n;
        elapsed = elapsed;
        slept = slept;
      }
      request_loop (suc fuel) n elapsed slept =
          after_reply (session request n) n elapsed slept
            λ delay. request_loop fuel (suc n) (floats.plus elapsed delay) (slept ++ (delay ∷ []))

      -- A round is only repeated below the number of attempts.
      abbrev pub fuel_of : ℤ → ℕ
      fuel_of (pos m) = suc m
      fuel_of (negsuc m) = 1

      unfoldable pub request_rounds : Ended F
      unfolding request_loop
      request_rounds = request_loop (fuel_of retry.max_attempts) 0 floats.zero_seconds []

-- The error for a last status, if it is one
unfoldable pub status_error : ℕ → Option HttpError
unfolding nat_eq
status_error status =
    if status == 401
    then some auth
    else if status == 403
    then some forbidden
    else if status == 404
    then some not_found
    else if status == 429
    then some rate_limited
    else if leb 500 status
    then some connection
    else if leb 400 status
    then some api
    else none

-- The error for the code of an error object
unfoldable pub esri_error : Json → HttpError
unfolding nat_eq
esri_error code =
    if is_code code 498 || is_code code 499 || is_code code 401
    then auth
    else if is_code code 403
    then forbidden
    else if is_code code 404
    then not_found
    else if is_code code 429
    then rate_limited
    else api

unfoldable pub body_answer : Option Json → Answer
unfolding has_error esri_error get
body_answer none = raises api
body_answer (some body) =
    if has_error body
    then raises (esri_error (get "code" (get "error" body)))
    else if not (is_mapping body)
    then raises api
    else ok body

abbrev pub raise_or : Option HttpError → Answer → Answer
raise_or none answer = answer
raise_or (some e) answer = raises e

unfoldable pub response_answer : Response → Answer
unfolding status_error body_answer
response_answer r = raise_or (status_error r.status) (body_answer r.payload)

-- A loop that is stuck gives no answer.
abbrev pub answer_of : Last → Option Answer
answer_of stuck = none
answer_of refused = some (raises connection)
answer_of (got r) = some (response_answer r)

unfoldable pub request_with_retry :
    {F : Type 0} → Floats F → RetryPolicy F → Session → Request → Option Answer
unfolding request_rounds response_answer
request_with_retry floats retry session request =
    answer_of (request_rounds floats retry session request).last

-- A credential: anonymous, or a token, which is not empty.
pub data Credential : Type 0 where
  anonymous : Credential
  token : String → Credential

abbrev pub apply : Credential → Fields → Fields
apply anonymous params = params
apply (token t) params = merge_params params (field "token" (str t) end)

-- `params` are the texts that `str` has made of them.
unfoldable pub get_json :
    {F : Type 0} → Floats F → RetryPolicy F → Session → Credential → String → Fields → Option Answer
unfolding request_with_retry merge_params
get_json floats retry session credential url params =
    request_with_retry floats retry session (record {
      url = url;
      params = apply credential (merge_params (field "f" (str "json") end) params);
    })
