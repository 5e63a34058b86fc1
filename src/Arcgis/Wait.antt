-- ===== src/Arcgis/Wait.antt =====
-- services/arcgis.py: `wait_for_terminal`, which polls a job.
use honua_migrate.Base.{
  ℕ, zero, suc, Bool, true, false, not, ◌&&◌, ◌||◌, List, String, ◌==◌, string_eq, Option, none,
  some, if◌then◌else◌,
}
use honua_migrate.Json.{Json, null, str, obj, end, get}
use honua_migrate.Arcgis.Client.{
  Call, Reply, World, answered, expired, Done, Clock, status_call, request, JobStatus, unknown,
  normalize_job_status, is_terminal, is_completed, is_unknown, overdue, too_late, tick,
}

pub data Outcome : Type 0 where
  timed_out unknown_status : Outcome
  ended : JobStatus → Outcome

-- The receipt, less the constant contract and the elapsed time
pub record Receipt : Type 0 where
  pub normalized : JobStatus
  pub outcome : Outcome
  pub is_terminal_state : Bool
  pub successful : Bool
  pub fidelity_verified : Bool
  pub poll_count : ℕ
  pub latest : Json

-- A receipt, an error of a poll, or the end of the fuel
pub data Waited : Type 0 where
  receipt : Receipt → World → Waited
  raised : World → Waited
  stuck : Waited

abbrev pub is_null : Json → Bool
is_null null = true
is_null _ = false

abbrev pub is_full : Json → Bool
is_full (str s) = s == "full-fidelity"
is_full _ = false

-- A contradictory verdict on the fidelity does not become a success.
unfoldable pub ended_as : JobStatus → Json → Outcome
unfolding get string_eq
ended_as status latest =
    let verdict = get "fidelityVerdict" latest in
    if is_completed status && not (is_null verdict || is_full verdict)
    then ended JobStatus.needs_review
    else ended status

abbrev pub is_success : Outcome → Bool
is_success (ended status) = is_completed status
is_success _ = false

unfoldable pub receipt_of : JobStatus → Bool → ℕ → Json → Outcome → Receipt
unfolding get string_eq
receipt_of status terminal polls latest outcome = record {
  normalized = status;
  outcome = outcome;
  is_terminal_state = terminal;
  successful = is_success outcome;
  fidelity_verified = is_success outcome && is_full (get "fidelityVerdict" latest);
  poll_count = polls;
  latest = latest;
}

-- What the loop holds
pub record Seen : Type 0 where
  pub status : JobStatus
  pub terminal : Bool
  pub polls : ℕ
  pub latest : Json

abbrev pub nothing_seen : Seen
nothing_seen = record { status = unknown; terminal = false; polls = 0; latest = obj end }

abbrev pub receipt_at : Seen → Outcome → Receipt
receipt_at seen outcome = receipt_of seen.status seen.terminal seen.polls seen.latest outcome

abbrev pub polled : Seen → Seen
polled seen = record seen { polls = suc seen.polls }

unfoldable pub seen_in : Seen → Json → Seen
unfolding normalize_job_status is_terminal get
seen_in seen latest =
    let status = normalize_job_status (get "status" latest) in
    record {
      status = status;
      terminal = is_terminal status;
      polls = suc seen.polls;
      latest = latest;
    }

-- `deadline is None` where the wait is 0.
abbrev pub has_wait : {T : Type 0} → Option T → Bool
has_wait none = false
has_wait (some d) = true

module _ {T : Type 0} (clock : Clock T) (session : List Call → Call → Reply) (deadline : Option T)
    (retries : ℕ) (job : String) where
  -- What follows a poll that has been answered, before the `again` of the next round
  unfoldable pub after_answer : Seen → World → (World → Waited) → Waited
  unfolding ended_as receipt_of
  after_answer seen w again =
      let now = tick deadline w in
      if too_late clock deadline w
      then receipt (receipt_at seen timed_out) now
      else if seen.terminal
      then receipt (receipt_at seen (ended_as seen.status seen.latest)) now
      else if is_unknown seen.status
      then receipt (receipt_at seen unknown_status) now
      else if not (has_wait deadline)
      then receipt (receipt_at seen timed_out) now
      else again (tick deadline now)

  unfoldable pub after_poll : Seen → Done → (Seen → World → Waited) → Waited
  unfolding after_answer seen_in
  after_poll seen done again = elim done.answer [
    | expired ↦ receipt (receipt_at (polled seen) timed_out) done.world
    | answered latest ↦ after_answer (seen_in seen latest) done.world (again (seen_in seen latest))
    | _ ↦ raised done.world
  ]

  unfoldable pub wait_loop : ℕ → Seen → World → Waited
  unfolding after_poll request
  wait_loop zero seen w = stuck
  wait_loop (suc fuel) seen w =
      if overdue clock deadline w
      then receipt (receipt_at seen timed_out) (tick deadline w)
      else after_poll seen
          (request clock session deadline (status_call job) true retries (tick deadline w))
          (λ s v. wait_loop fuel s v)

-- With a job id and an interval that are accepted, and the deadline that they give
unfoldable pub wait_for_terminal :
    {T : Type 0} → Clock T → (List Call → Call → Reply) → Option T → ℕ → String → ℕ → World → Waited
unfolding wait_loop
wait_for_terminal clock session deadline retries job fuel w =
    wait_loop clock session deadline retries job fuel nothing_seen w
