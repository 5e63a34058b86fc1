-- ===== src/Arcgis/Client.antt =====
-- services/arcgis.py: `ArcGisClient.request` and the calls that use it, and the status of a job.
use honua_migrate.Base.{
  ℕ, zero, suc, Bool, true, false, not, ◌||◌, List, [], ◌∷◌, ◌++◌, String, ◌<>◌, ◌==◌, nat_eq,
  Option, none, some, if◌then◌else◌, ltb, contains, map, keep,
}
use honua_migrate.Base.Int.{pos}
use honua_migrate.Base.Text.{codes, strip, lower, same_codes}
use honua_migrate.Json.{Json, null, int, str, obj, end, field, is_mapping}

pub data Method : Type 0 where
  get_method post_method : Method

pub record Call : Type 0 where
  pub method : Method
  pub path : String
  pub payload : Json

-- `none` stands for a content of which `response.json()` raises, and no content for one that is empty.
pub record Response : Type 0 where
  pub status : ℕ
  pub is_redirect : Bool
  pub has_content : Bool
  pub payload : Option Json

pub data Reply : Type 0 where
  raises : Reply
  reply : Response → Reply

-- What has been asked of the target so far, and how often the clock was read.
pub record World : Type 0 where
  pub calls : List Call
  pub reads : ℕ

-- A body, an `ArcGisMigrationError`, or a `_PollingDeadlineExpired`
pub data Answer : Type 0 where
  answered : Json → Answer
  failed expired : Answer

pub record Done : Type 0 where
  pub answer : Answer
  pub world : World

-- A clock by how often it was read; `reached t d` is `t >= d`, `passed t d` is `t > d`.
pub record Clock (T : Type 0) : Type 0 where
  pub now : ℕ → T
  pub reached : T → T → Bool
  pub passed : T → T → Bool

abbrev pub retryable : List ℕ
retryable = 429 ∷ 502 ∷ 503 ∷ 504 ∷ []

abbrev pub redirects : List ℕ
redirects = 301 ∷ 302 ∷ 303 ∷ 307 ∷ 308 ∷ []

abbrev pub as_object : Json → Json
as_object body = if is_mapping body then body else obj (field "result" body end)

abbrev pub ok_body : ℕ → Option Json → Answer
ok_body status none = failed
ok_body status (some body) = if ltb status 400 then answered (as_object body) else failed

unfoldable pub finish : Response → Answer
finish r = ok_body r.status (if r.has_content then r.payload else some (obj end))

module _ {T : Type 0} (clock : Clock T) where
  abbrev pub overdue : Option T → World → Bool
  overdue none w = false
  overdue (some d) w = clock.reached (clock.now w.reads) d

  abbrev pub too_late : Option T → World → Bool
  too_late none w = false
  too_late (some d) w = clock.passed (clock.now w.reads) d

-- One reading of the clock, where there is a deadline
abbrev pub tick : {T : Type 0} → Option T → World → World
tick none w = w
tick (some d) w = record w { reads = suc w.reads }

abbrev pub send : Call → World → World
send call w = record w { calls = w.calls ++ (call ∷ []) }

module _ {T : Type 0} (clock : Clock T) (session : List Call → Call → Reply)
    (deadline : Option T) where
  -- What follows a reply, before the `again` that a further attempt is, if one may follow.
  unfoldable pub after_send : Reply → World → Option (World → Done) → Done
  unfolding finish nat_eq
  after_send raises w again =
      if overdue clock deadline w
      then record { answer = expired; world = tick deadline w }
      else elim again [
        | none ↦ record { answer = failed; world = tick deadline w }
        | some go ↦ go (tick deadline (tick deadline w))
      ]
  after_send (reply r) w again =
      if r.is_redirect || contains redirects r.status
      then record { answer = failed; world = w }
      else elim again [
        | none ↦ record { answer = finish r; world = w }
        | some go ↦
            if contains retryable r.status
            then go (tick deadline w)
            else record { answer = finish r; world = w }
      ]

  -- The loop, with `left` attempts after this one
  unfoldable pub request_loop : Call → ℕ → World → Done
  unfolding after_send
  request_loop call zero w =
      if overdue clock deadline w
      then record { answer = expired; world = tick deadline w }
      else after_send (session w.calls call) (send call (tick deadline w)) none
  request_loop call (suc left) w =
      let again : World → Done = λ v. request_loop call left v in
      if overdue clock deadline w
      then record { answer = expired; world = tick deadline w }
      else after_send (session w.calls call) (send call (tick deadline w)) (some again)

-- `request`: only a GET that asks for it is tried again.
abbrev pub further : Method → Bool → ℕ → ℕ
further get_method true retries = retries
further get_method false retries = 0
further post_method retry retries = 0

abbrev pub api_prefix : String
api_prefix = "/api/v1/admin/import/geoservices"

abbrev pub status_call : String → Call
status_call job = record {
  method = get_method;
  path = api_prefix <> ("/jobs/" <> job);
  payload = null;
}

abbrev pub start_call : Json → Call
start_call payload = record {
  method = post_method;
  path = api_prefix <> "/start";
  payload = payload;
}

unfoldable pub request :
    {T : Type 0} → Clock T → (List Call → Call → Reply) → Option T → Call → Bool → ℕ → World → Done
unfolding request_loop
request clock session deadline call retry retries w =
    request_loop clock session deadline call (further call.method retry retries) w

pub data JobStatus : Type 0 where
  queued discovering retrieving_features creating_table inserting_features : JobStatus
  publishing copying_attachments validating completed needs_review failed : JobStatus
  cancelled processing unknown : JobStatus

-- `JOB_STATUSES`, and the names that `STATUS_NAMES` has for them
pub record Named : Type 0 where
  pub name : String
  pub status : JobStatus

abbrev pub named : String → JobStatus → Named
named name status = record { name = name; status = status }

unfoldable pub job_statuses : List Named
job_statuses =
    named "queued" queued
    ∷ named "discovering" discovering
    ∷ named "retrievingfeatures" retrieving_features
    ∷ named "creatingtable" creating_table
    ∷ named "insertingfeatures" inserting_features
    ∷ named "publishing" publishing
    ∷ named "copyingattachments" copying_attachments
    ∷ named "validating" validating
    ∷ named "completed" completed
    ∷ named "needsreview" needs_review
    ∷ named "failed" JobStatus.failed
    ∷ named "cancelled" cancelled
    ∷ []

unfoldable pub status_names : List Named
unfolding job_statuses
status_names = job_statuses ++ (named "canceled" cancelled ∷ named "processing" processing ∷ [])

abbrev pub nth_status : List Named → ℕ → JobStatus
nth_status [] n = unknown
nth_status (s ∷ ss) zero = s.status
nth_status (s ∷ ss) (suc n) = nth_status ss n

unfoldable pub status_named : List Named → List ℕ → JobStatus
unfolding same_codes
status_named [] text = unknown
status_named (s ∷ ss) text =
    if same_codes (codes s.name) text then s.status else status_named ss text

unfoldable pub normalize_job_status : Json → JobStatus
unfolding status_named status_names job_statuses strip lower nat_eq
normalize_job_status (int (pos n)) = nth_status job_statuses n
normalize_job_status (str s) =
    status_named status_names
      (keep (λ c. not (c == b'-' || c == b'_')) (map lower (strip (codes s))))
normalize_job_status _ = unknown

unfoldable pub is_terminal : JobStatus → Bool
is_terminal completed = true
is_terminal needs_review = true
is_terminal failed = true
is_terminal cancelled = true
is_terminal _ = false

abbrev pub is_completed : JobStatus → Bool
is_completed completed = true
is_completed _ = false

abbrev pub is_unknown : JobStatus → Bool
is_unknown unknown = true
is_unknown _ = false
