-- ===== src/Http/Tests.antt =====
-- The HTTP clients at concrete sessions, with natural numbers for floats.
use Prim.Native.Nat.{◌^◌, ◌*◌}
use honua_migrate.Base.{
  ◌≡◌, refl, ℕ, zero, suc, ◌+◌, ◌-◌, ◌≤◌, arith, false, none, some, List, [], ◌∷◌, String, ltb,
  if◌then◌else◌, nat_eq, string_eq, option_eq, take, drop, ap,
}
use honua_migrate.Base.Int.{pos, negsuc}
use honua_migrate.Json.{
  Json, Items, Fields, int, arr, obj, nil, cons, end, field, get, get_field, members, to_list, null,
}
use honua_migrate.Http.Wire.{Reply, reply, Request, Session, merge_params}
use honua_migrate.Http.Fetch.{
  RequestOptions, fetch_json, fetch_loop, attempt, last_attempt, decode_response, decode_payload,
  is_retryable, has_error, with_token, or_json,
}
use honua_migrate.Http.Fetched.{Settled, fetch_json-Settled}
use honua_migrate.Http.Server
use honua_migrate.Http.Server.{
  Floats, Answer, ok, raises, forbidden, request_rounds, request_with_retry, request_loop,
  after_reply, compute_delay, parse_retry_after, response_answer, status_error, body_answer,
}
use honua_migrate.Http.Portal
use honua_migrate.Http.Portal.{portal_rounds, portal_loop}
use honua_migrate.Http.Budget.{Within, request_rounds-Within}
use honua_migrate.Http.Answers.{usable, Gives, request_with_retry-Gives}
use honua_migrate.Http.Attempts.{Ends, portal_rounds-Gives}
use honua_migrate.Http.Pages.{iter_paginated, next_page, next_start, page_params}
use honua_migrate.Http.Paged
use honua_migrate.Http.Paged.{named_next, iter_paginated-Ends}
use honua_migrate.Http.Complete.{IsPage, AllYielded, iter_paginated-AllYielded}

abbrev floats : Floats ℕ
floats = record {
  zero_seconds = 0;
  below = ltb;
  plus = ◌+◌;
  times = ◌*◌;
  power = ◌^◌;
  scaled = ◌*◌;
  float_of = λ cs. none;
  until = λ cs n. none;
}

irreflexive : (x : ℕ) → floats.below x x ≡ false
irreflexive x = ground arith

abbrev body : Json
body = obj (field "layers" (arr nil) end)

abbrev with_status : ℕ → Reply
with_status status = reply (record { status = status; retry_after = none; payload = some body })

-- Busy at first, and well from the third request on
abbrev busy_twice : Session
busy_twice request zero = with_status 503
busy_twice request (suc zero) = with_status 503
busy_twice request (suc (suc n)) = with_status 200

abbrev request : Request
request = record { url = "https://host"; params = end }

abbrev options : RequestOptions
options = record { token = some "t"; max_retries = pos 2 }

third_time :
    fetch_json busy_twice "https://host" [] "the root" options end
    ≡ (record { value = body; diagnostics = []; sent = 3 })
unfolding fetch_json fetch_loop attempt last_attempt decode_response decode_payload is_retryable
    has_error nat_eq get string_eq
third_time = refl

fetch_json-Settled_example :
    Settled busy_twice
      (record { url = "https://host"; params = with_token options.token (or_json end) })
      "the root"
      []
      2
      0
      (fetch_json busy_twice "https://host" [] "the root" options end)
fetch_json-Settled_example = fetch_json-Settled busy_twice "https://host" [] "the root" options end

abbrev retry : Server.RetryPolicy ℕ
retry = record {
  max_attempts = pos 3;
  initial_backoff = 1;
  backoff_factor = 2;
  max_total_seconds = 30;
  retry_statuses = 429 ∷ 503 ∷ [];
}

request_rounds-Within_example :
    Within floats irreflexive retry busy_twice request
      (request_rounds floats retry busy_twice request)
request_rounds-Within_example = request_rounds-Within floats irreflexive retry busy_twice request

request_with_retry-Gives_example :
    Gives
      (request_with_retry floats retry busy_twice request)
      (usable (busy_twice request ((request_rounds floats retry busy_twice request).sent - 1)))
request_with_retry-Gives_example =
    request_with_retry-Gives floats irreflexive retry busy_twice request

server_answers : request_with_retry floats retry busy_twice request ≡ some (ok body)
unfolding request_with_retry request_rounds request_loop after_reply compute_delay parse_retry_after
    response_answer status_error body_answer has_error nat_eq get string_eq
server_answers = refl

-- The second sleep would pass the total.
abbrev hasty : Server.RetryPolicy ℕ
hasty = record retry { max_total_seconds = 2 }

out_of_time : (request_rounds floats hasty busy_twice request).slept ≡ 1 ∷ []
unfolding request_rounds request_loop after_reply compute_delay parse_retry_after nat_eq
out_of_time = refl

abbrev policy : Portal.RetryPolicy ℕ
policy = record { attempts = pos 3; backoff_seconds = 1; retry_after_cap_seconds = 30 }

portal_rounds-Gives_example :
    Ends floats irreflexive policy busy_twice request 2 0
      (portal_rounds floats policy busy_twice request)
    × (let e = portal_rounds floats policy busy_twice request in
        Gives (Portal.answer_of e.last) (usable (busy_twice request (e.sent - 1))))
portal_rounds-Gives_example = portal_rounds-Gives floats irreflexive policy busy_twice request

-- A list of three records, two to a page
abbrev records : List Json
records = body ∷ null ∷ body ∷ []

abbrev items_of : List Json → Items
items_of [] = nil
items_of (x ∷ xs) = cons x (items_of xs)

to_list-items_of : (xs : List Json) → to_list (items_of xs) ≡ xs
unfolding to_list
to_list-items_of [] = refl
to_list-items_of (x ∷ xs) = ap (λ ys. x ∷ ys) (to_list-items_of xs)

abbrev next_number : ℕ → Json
next_number k = if ltb (k + 2) 3 then int (pos (suc (k + 2))) else int (negsuc 0)

abbrev page_at : Json → Json
page_at (int (pos (suc k))) = obj (
    field "results" (arr (items_of (take 2 (drop k records))))
      (field "nextStart" (next_number k) end))
page_at _ = null

abbrev server : ℕ → String → Fields → Answer
server asked path params = ok (page_at (get_field "start" params))

serves :
    (asked k : ℕ)
    → (p : Json) × (server asked "search" (page_params end 2 (suc k)) ≡ ok p)
      × IsPage records 2 "results" k p
unfolding page_params merge_params get_field string_eq get members next_page next_start
serves asked k = (_, refl, record { carried = to_list-items_of _; named = ground arith })

iter_paginated-AllYielded_example :
    AllYielded server "search" "results" end 2 2 records
      (omega arith)
      serves
      0
      (iter_paginated server "search" "results" end 2 4)
iter_paginated-AllYielded_example =
    iter_paginated-AllYielded server "search" "results" end 2 2 records (omega arith) serves

named_UpTo :
    (asked start next : ℕ)
    → named_next (server asked "search" (page_params end 2 start)) start ≡ some next
    → next ≤ 3
unfolding page_params merge_params get_field string_eq get next_page next_start named_next
named_UpTo asked zero next e = cc
named_UpTo asked (suc k) next e = ground (arith, e)

iter_paginated-Ends_example : Paged.Ends 0 (iter_paginated server "search" "results" end 2 4)
iter_paginated-Ends_example = iter_paginated-Ends server "search" "results" end 2 3 named_UpTo
