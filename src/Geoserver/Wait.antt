-- ===== src/Geoserver/Wait.antt =====
-- services/geoserver.py: the waits of `HonuaMigrationClient`, and the dry run of `plan_command`.
use honua_migrate.Base.{
  ℕ, zero, suc, Bool, false, not, List, [], ◌∷◌, String, Option, none, some, string_eq,
  if◌then◌else◌, map, any,
}
use honua_migrate.Base.Text.{codes, lower, same_codes}
use honua_migrate.Json.{Json, str, get}
use honua_migrate.Arcgis.Client.{Call, Reply}
use honua_migrate.Geoserver.Checks.{is_the, is_job_id, is_completed_job, says_completed, text_of}
use honua_migrate.Geoserver.Client.{Answer, answered, failed, request, job_call, start_call}

abbrev active_statuses : List String
active_statuses = "queued" ∷ "processing" ∷ []

abbrev terminal_statuses : List String
terminal_statuses = "completed" ∷ "failed" ∷ "cancelled" ∷ []

-- `str(value).lower() in names`; the text of another value is none of the names above.
unfoldable pub is_status : List String → Json → Bool
unfolding same_codes lower
is_status names (str s) = any (λ name. same_codes (map lower (codes s)) (codes name)) names
is_status names _ = false

abbrev pub is_active : Json → Bool
is_active job = is_status active_statuses (get "status" job)

abbrev pub is_ended : Json → Bool
is_ended job = is_status terminal_statuses (get "status" job)

-- A job with its id, a `MigrationError`, or the end of the fuel; and what was asked in all
pub data Waited : Type 0 where
  waited : String → Json → List Call → Waited
  raised : List Call → Waited
  stuck : Waited

-- `reached k` is whether the deadline is reached when the clock is read after poll `k`.
module _ (session : List Call → Call → Reply) (retries : ℕ) (reached : ℕ → Bool) where
  unfoldable pub after_poll : String → ℕ → Answer → List Call → Waited → Waited
  unfolding is_status get string_eq
  after_poll id k failed calls again = raised calls
  after_poll id k (answered job) calls again =
      if not (is_the id (get "jobId" job))
      then raised calls
      else if is_ended job
      then waited id job calls
      else if not (is_active job)
      then raised calls
      else if reached k
      then raised calls
      else again

  unfoldable pub wait_loop : ℕ → String → ℕ → List Call → Waited
  unfolding after_poll request
  wait_loop zero id k calls = stuck
  wait_loop (suc fuel) id k calls =
      let done = request session retries (job_call id) calls in
      after_poll id k done.answer done.calls (wait_loop fuel id (suc k) done.calls)

  -- With a timeout and an interval that are accepted
  unfoldable pub wait_for_terminal : ℕ → String → List Call → Waited
  unfolding wait_loop is_job_id
  wait_for_terminal fuel id calls =
      if not (is_job_id id) then raised calls else wait_loop fuel id 0 calls

  abbrev pub if_completed : Waited → Waited
  if_completed (waited id job calls) =
      if not (says_completed (get "status" job))
      then raised calls
      else if is_completed_job job id
      then waited id job calls
      else raised calls
  if_completed other_end = other_end

  unfoldable pub wait_for_completed : ℕ → String → List Call → Waited
  unfolding wait_for_terminal is_completed_job says_completed get
  wait_for_completed fuel id calls = if_completed (wait_for_terminal fuel id calls)

  abbrev pub with_queued_id : ℕ → Option String → List Call → Waited
  with_queued_id fuel none calls = raised calls
  with_queued_id fuel (some id) calls =
      if not (is_job_id id) then raised calls else wait_for_completed fuel id calls

  abbrev pub after_queue : ℕ → Answer → List Call → Waited
  after_queue fuel failed calls = raised calls
  after_queue fuel (answered queued) calls =
      with_queued_id fuel (text_of (get "jobId" queued)) calls

  -- What `plan_command` asks for, with a request that was built and a client that could be made
  unfoldable pub dry_run : ℕ → Json → List Call → Waited
  unfolding request wait_for_completed is_job_id get
  dry_run fuel body calls =
      let queued = request session retries (start_call body) calls in
      after_queue fuel queued.answer queued.calls
