-- ===== src/Http/Answers.antt =====
-- The two clients, server/client.py and portal/client.py, give the body of the last reply where it
-- can be used, and an error otherwise.
use honua_migrate.Base.{
  ◌≡◌, refl, ◌-◌, inl, inr, false, Bool-cases, arith, Option, none, some, if◌then◌else◌, leb,
  nat_eq,
}
use honua_migrate.Json.{Json, is_mapping}
use honua_migrate.Http.Wire.{Response, Reply, unreachable, reply, Request, Session}
use honua_migrate.Http.Fetched.{body_of, without_error}
use honua_migrate.Http.Server.{
  Floats, HttpError, Answer, ok, raises, Last, stuck, refused, got, Ended, status_error,
  body_answer, request_rounds, request_with_retry, min_of,
}
use honua_migrate.Http.Server
use honua_migrate.Http.Portal
use honua_migrate.Http.Portal.{
  RetryPolicy, portal_retryable, further_attempts, retry_delay, portal_loop, portal_rounds,
  after_reply,
}
use honua_migrate.Http.Budget.{last_of, request_rounds-Within}

abbrev if_mapping : Option Json → Option Json
if_mapping none = none
if_mapping (some body) = if is_mapping body then some body else none

-- A JSON object with no error object in it, under a status below 400
abbrev pub usable : Reply → Option Json
usable r = if_mapping (body_of r)

abbrev pub value_of : Answer → Option Json
value_of (ok body) = some body
value_of (raises e) = none

-- An answer there is, and it is the body, or an error where there is none.
abbrev pub Gives : Option Answer → Option Json → Type 0
Gives answer body = (a : Answer) × (answer ≡ some a) × (value_of a ≡ body)

body_answer-value :
    (payload : Option Json) → value_of (body_answer payload) ≡ if_mapping (without_error payload)
unfolding body_answer
body_answer-value none = refl
body_answer-value (some body) = ground arith

server-value : (r : Response) → value_of (Server.response_answer r) ≡ usable (reply r)
unfolding Server.response_answer status_error body_of nat_eq
server-value r = elim (Bool-cases (leb 400 r.status)) [
  | inl e ↦ rw e (ground arith)
  | inr e ↦ ground (arith, body_answer-value r.payload)
]

portal-value : (r : Response) → value_of (Portal.response_answer r r.payload) ≡ usable (reply r)
unfolding body_of Portal.response_answer Portal.api_error
portal-value r = by_payload r.payload
  where
    by_payload :
        (p : Option Json)
        → value_of (Portal.response_answer r p)
          ≡ if_mapping (if leb 400 r.status then none else without_error p)
    by_payload none = ground arith
    by_payload (some p) = ground arith

-- The answer of a loop whose last reply is this one
pub answered :
    (answer_of : Last → Option Answer) (r : Reply) (last : Last)
    → last ≡ last_of r
    → Gives (answer_of (last_of r)) (usable r)
    → Gives (answer_of last) (usable r)
answered answer_of r last e g = rw e g

-- Where no float is below itself, a `get_json` of the server client ends with an answer: the body
-- of the last reply, where that has a status below 400 and a JSON object with no error object in
-- it, and an error otherwise.
pub request_with_retry-Gives :
    {F : Type 0} (floats : Floats F) (irreflexive : (x : F) → floats.below x x ≡ false)
    (retry : Server.RetryPolicy F) (session : Session) (request : Request)
    → Gives
        (request_with_retry floats retry session request)
        (usable (session request ((request_rounds floats retry session request).sent - 1)))
unfolding request_with_retry
request_with_retry-Gives {F} floats irreflexive retry session request =
    answered Server.answer_of (session request (rounds.sent - 1)) rounds.last
      (request_rounds-Within floats irreflexive retry session request).last_reply
      (last (session request (rounds.sent - 1)))
  where
    rounds : Ended F
    rounds = request_rounds floats retry session request

    last : (r : Reply) → Gives (Server.answer_of (last_of r)) (usable r)
    last unreachable = (_, refl, unfold body_of in refl)
    last (reply r) = (_, refl, server-value r)

pub portal_last : (r : Reply) → Gives (Portal.answer_of (last_of r)) (usable r)
portal_last unreachable = (_, refl, unfold body_of in refl)
portal_last (reply r) = (_, refl, portal-value r)
