-- ===== src/Geoserver/Planned.antt =====
-- The dry run of services/geoserver.py ends, and gives a job only with the evidence of an apply.
use honua_migrate.Base.{
  ◌≡◌, sym, subst, ap, ◌∙◌, ℕ, zero, suc, ◌+◌, ◌≤◌, ◌<◌, inl, inr, Bool, true, false, not,
  Bool-cases, choose, leb, arith, List, [], ◌∷◌, ◌++◌, String, Option, none, some, All, All-append,
}
use mathlib.Core.Bool.{false≢true}
use mathlib.Core.List.{append-nil, append_assoc}
use honua_migrate.Json.{Json, get}
use honua_migrate.Arcgis.Client.{Call, Reply}
use honua_migrate.Geoserver.Checks.{is_the, is_job_id, is_completed_job, says_completed, text_of}
use honua_migrate.Geoserver.Client.{Answer, answered, failed, Done, request, job_call, start_call}
use honua_migrate.Geoserver.Repeated.{Repeats, request_loop-Repeats, once}
use honua_migrate.Geoserver.Wait.{
  is_active, is_ended, Waited, waited, raised, after_poll, wait_loop, wait_for_terminal,
  if_completed, wait_for_completed, with_queued_id, after_queue, dry_run,
}

-- How a wait for a job may end: by itself, after it has asked `before`, and then for the state of
-- that job and for nothing else; a job that it gives has what `Good` says.
data Ended (Good : Json → Type 0) (id : String) (before : List Call) : Waited → Type 0 where
  with_job :
      (job : Json) (calls : List Call)
      → Repeats (job_call id) before calls
      → Good job
      → Ended Good id before (waited id job calls)
  with_error :
      (calls : List Call) → Repeats (job_call id) before calls → Ended Good id before (raised calls)

-- What a job of a dry run is that may be planned
abbrev pub Completed : String → Json → Type 0
Completed id job = (is_job_id id ≡ true) × (is_completed_job job id ≡ true)

abbrev Polled : String → Json → Type 0
Polled id job = (is_job_id id ≡ true) × (is_the id (get "jobId" job) ≡ true)

-- How a dry run may end: by itself, after it has asked once for the start, and then for the state
-- of one job and for nothing else.
pub data Run (body : Json) (before : List Call) : Waited → Type 0 where
  with_evidence :
      (id : String) (job : Json) (more : List Call)
      → All (λ c. c ≡ job_call id) more
      → Completed id job
      → Run body before (waited id job ((before ++ (start_call body ∷ [])) ++ more))
  without_evidence :
      (id : String) (more : List Call)
      → All (λ c. c ≡ job_call id) more
      → Run body before (raised ((before ++ (start_call body ∷ [])) ++ more))

Repeats-refl : (call : Call) (calls : List Call) → Repeats call calls calls
Repeats-refl call calls = ([], sym (append-nil calls), tt)

Repeats-trans :
    (call : Call) (a b c : List Call) → Repeats call a b → Repeats call b c → Repeats call a c
Repeats-trans call a b c (xs, e, p) (ys, f, q) =
    (xs ++ ys, f ∙ ap (λ l. l ++ ys) e ∙ append_assoc a xs ys, All-append (λ c. c ≡ call) xs ys p q)

module _ (session : List Call → Call → Reply) (retries : ℕ) (reached : ℕ → Bool) where
  after_poll-Ended :
      (Good : Json → Type 0) (id : String) (k : ℕ) (answer : Answer) (before calls : List Call)
      (again : Waited)
      → Repeats (job_call id) before calls
      → ((job : Json) → is_the id (get "jobId" job) ≡ true → Good job)
      → (reached k ≡ false → Ended Good id before again)
      → Ended Good id before (after_poll session retries reached id k answer calls again)
  unfolding after_poll
  after_poll-Ended Good id k failed before calls again g good go = with_error calls g
  after_poll-Ended Good id k (answered job) before calls again g good go =
      choose (Ended Good id before) (not (is_the id (get "jobId" job))) _ _
        (λ e. with_error calls g)
        λ same.
          choose (Ended Good id before) (is_ended job) _ _
            (λ e. with_job job calls g (good job (ground (arith, same))))
            λ e.
              choose (Ended Good id before) (not (is_active job)) _ _ (λ f. with_error calls g)
                λ f. choose (Ended Good id before) (reached k) _ _ (λ h. with_error calls g) go

  -- What is known of the clock: the deadline is reached from the reading `last` on.
  module _ (last : ℕ) (passes : (k : ℕ) → last ≤ k → reached k ≡ true) where
    earlier : (k : ℕ) → reached k ≡ false → k < last
    earlier k e = elim (Bool-cases (leb last k)) [
      | inl l ↦ absurd (false≢true (sym e ∙ passes k (ground (arith, l))))
      | inr l ↦ ground (arith, l)
    ]

    wait_loop-Ended :
        (id : String) (fuel k : ℕ) (before calls : List Call)
        → is_job_id id ≡ true
        → k + fuel ≡ suc last
        → k ≤ last
        → Repeats (job_call id) before calls
        → Ended (Polled id) id before (wait_loop session retries reached fuel id k calls)
    unfolding wait_loop request
    wait_loop-Ended id zero k before calls v f l g = absurd (omega (arith, f, l))
    wait_loop-Ended id (suc fuel) k before calls v f l g =
        let done : Done = request session retries (job_call id) calls in
        let asked =
          Repeats-trans (job_call id) before calls done.calls g
            (request_loop-Repeats session (job_call id) retries calls) in
        after_poll-Ended (Polled id) id k done.answer before done.calls _ asked (λ job e. (v, e))
          (λ e.
            wait_loop-Ended id fuel (suc k) before done.calls v (omega (arith, f))
              (omega (arith, earlier k e)) asked)

    if_completed-Ended :
        (id : String) (before : List Call) (w : Waited)
        → Ended (Polled id) id before w
        → Ended (Completed id) id before (if_completed session retries reached w)
    if_completed-Ended id before _ (with_error calls g) = with_error calls g
    if_completed-Ended id before _ (with_job job calls g (v, e)) =
        choose (Ended (Completed id) id before) (not (says_completed (get "status" job))) _ _
          (λ e. with_error calls g)
          λ e.
            choose (Ended (Completed id) id before) (is_completed_job job id) _ _
              (λ c. with_job job calls g (v, c)) (λ c. with_error calls g)

    wait_for_completed-Ended :
        (id : String) (before : List Call)
        → is_job_id id ≡ true
        → Ended
            (Completed id)
            id
            before
            (wait_for_completed session retries reached (suc last) id before)
    unfolding wait_for_completed wait_for_terminal
    wait_for_completed-Ended id before v = if_completed-Ended id before _ (
        choose (Ended (Polled id) id before) (not (is_job_id id)) _ _
          (λ e. with_error before (Repeats-refl _ before))
          λ e.
            wait_loop-Ended id (suc last) 0 before before v (omega arith) (omega arith)
              (Repeats-refl _ before))

    module _ (body : Json) (before : List Call) where
      abbrev queued : List Call
      queued = before ++ (start_call body ∷ [])

      error-Run : Run body before (raised queued)
      error-Run =
          subst (λ cs. Run body before (raised cs)) (append-nil queued) (without_evidence "" [] tt)

      Ended-Run : (id : String) (w : Waited) → Ended (Completed id) id queued w → Run body before w
      Ended-Run id _ (with_error calls (more, e, p)) =
          subst (λ cs. Run body before (raised cs)) (sym e) (without_evidence id more p)
      Ended-Run id _ (with_job job calls (more, e, p) c) =
          subst (λ cs. Run body before (waited id job cs)) (sym e) (with_evidence id job more p c)

      with_queued_id-Run :
          (o : Option String)
          → Run body before (with_queued_id session retries reached (suc last) o queued)
      with_queued_id-Run none = error-Run
      with_queued_id-Run (some id) =
          choose (Run body before) (not (is_job_id id)) _ _ (λ e. error-Run)
            λ e. Ended-Run id _ (wait_for_completed-Ended id _ (ground (arith, e)))

      after_queue-Run :
          (answer : Answer)
          → Run body before (after_queue session retries reached (suc last) answer queued)
      after_queue-Run failed = error-Run
      after_queue-Run (answered job) = with_queued_id-Run (text_of (get "jobId" job))

      -- Where the clock has reached the deadline from its reading `last` on, the dry run of a plan
      -- ends by itself, with a job or with an error; fuel for `last + 1` polls is enough. It asks the
      -- target once for a start, and then for the state of one job and for nothing else. The job that
      -- it gives has an id that is accepted and the evidence of a completed job of that id.
      pub dry_run-Run : Run body before (dry_run session retries reached (suc last) body before)
      unfolding dry_run request
      dry_run-Run =
          subst
            (λ cs. Run body before (
              after_queue session retries reached (suc last)
                (request session retries (start_call body) before).answer cs))
            (sym (once session (start_call body) before))
            (after_queue-Run (request session retries (start_call body) before).answer)
