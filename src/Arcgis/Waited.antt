-- ===== src/Arcgis/Waited.antt =====
-- What the polls of services/arcgis.py ask for, when they end, and when they report success.
use honua_migrate.Base.{
  ◌≡◌, sym, ◌∙◌, ℕ, ◌≤◌, inl, inr, true, ◌||◌, Bool-cases, arith, List, String, Option, none, some,
}
use mathlib.Core.Bool.{false≢true}
use honua_migrate.Json.{Json, get}
use honua_migrate.Arcgis.Client.{
  Call, Reply, World, Clock, status_call, JobStatus, normalize_job_status, is_completed,
}
use honua_migrate.Arcgis.Asked.{Grows}
use honua_migrate.Arcgis.Wait.{
  Receipt, Waited, receipt, raised, is_null, is_full, ended_as, is_success, receipt_of, Seen,
  receipt_at, seen_in, has_wait,
}

-- A receipt reports success only for a last answer that says `completed`, and not another verdict
-- than full fidelity; it calls the fidelity verified only with that verdict.
pub record Honest (r : Receipt) : Type 0 where
  pub success :
      r.successful ≡ true
      → (is_completed (normalize_job_status (get "status" r.latest)) ≡ true)
        × ((is_null (get "fidelityVerdict" r.latest) || is_full (get "fidelityVerdict" r.latest))
            ≡ true)
  pub verified :
      r.fidelity_verified ≡ true
      → (r.successful ≡ true) × (is_full (get "fidelityVerdict" r.latest) ≡ true)

ended_as-success :
    (status : JobStatus) (latest : Json)
    → is_success (ended_as status latest) ≡ true
    → (is_completed status ≡ true)
      × ((is_null (get "fidelityVerdict" latest) || is_full (get "fidelityVerdict" latest)) ≡ true)
unfolding ended_as
ended_as-success status latest h = elim (Bool-cases (is_completed status)) [
  | inl c ↦
      elim (Bool-cases
        (is_null (get "fidelityVerdict" latest) || is_full (get "fidelityVerdict" latest))) [
          | inl v ↦ (c, v)
          | inr v ↦ (c, absurd (false≢true (rw (c, v) at h)))
        ]
  | inr c ↦ absurd (false≢true (sym c ∙ (rw c at h)))
]

successful :
    (seen : Seen) (latest : Json)
    → Honest (
        receipt_at
          (seen_in seen latest)
          (ended_as (seen_in seen latest).status (seen_in seen latest).latest))
unfolding receipt_of seen_in
successful seen latest = record {
  success = λ s. ended_as-success (normalize_job_status (get "status" latest)) latest s;
  verified = λ s. ground (arith, s);
}

-- A call that asks for the state of the job
abbrev pub IsPoll : String → Call → Type 0
IsPoll job c = c ≡ status_call job

-- How a wait may end: by itself, having asked for the state of the job and for nothing else, with
-- a receipt that is honest, or an error of a poll.
pub data Ended (job : String) (w : World) : Waited → Type 0 where
  with_receipt :
      (r : Receipt) (v : World) (n : ℕ)
      → Grows (IsPoll job) n w v
      → Honest r
      → Ended job w (receipt r v)
  with_error : (v : World) (n : ℕ) → Grows (IsPoll job) n w v → Ended job w (raised v)

module _ {T : Type 0} (clock : Clock T) (session : List Call → Call → Reply) (deadline : Option T)
    (retries : ℕ) (job : String) where
  -- What is known of the clock: the deadline is reached from reading `last` on, if there is one.
  abbrev pub Passes : ℕ → Option T → Type 0
  Passes last none = Unit
  Passes last (some d) = (n : ℕ) → last ≤ n → clock.reached (clock.now n) d ≡ true

  abbrev Again : ℕ → World → (World → Waited) → Type 0
  Again m w again =
      has_wait deadline ≡ true
      → (v : World) (n : ℕ) → m ≤ v.reads
      → Grows (IsPoll job) n w v
      → Ended job w (again v)
