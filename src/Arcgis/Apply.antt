-- ===== src/Arcgis/Apply.antt =====
-- services/arcgis.py: `_apply`, which queues the imports of a reviewed plan.
use honua_migrate.Base.{
  ℕ, suc, Bool, true, false, List, [], ◌∷◌, String, ◌==◌, string_eq, Option, none, some,
  if◌then◌else◌, map,
}
use honua_migrate.Json.{Json, Fields, str, arr, obj, end, field, get, to_list, text?}
use honua_migrate.Runs.Contracts.{Result, ok, err, Exc, migration, then_result}
use honua_migrate.Http.Wire.{put_param}
use honua_migrate.Readiness.Report.{Report}
use honua_migrate.Readiness.Words.{Parts}
use honua_migrate.Arcgis.Tables.{refuse}
use honua_migrate.Arcgis.Redact.{redact_list, redact_strings}
use honua_migrate.Arcgis.Client.{
  Call, Reply, World, Answer, answered, Done, Clock, start_call, request,
}

-- A request without the relationships
unfoldable pub without : String → Fields → Fields
unfolding string_eq
without key end = end
without key (field k v fs) = let rest = without key fs in if k == key then rest else field k v rest

abbrev is_import : Json → Bool
is_import (str s) = s == "arcgis-service-import"
is_import _ = false

abbrev request_fields : Json → Option Fields
request_fields (obj fs) = some fs
request_fields _ = none

abbrev add_payload : Option Fields → Result (List Fields) → Result (List Fields)
add_payload none rest = refuse
add_payload (some fs) rest =
    then_result rest (λ payloads. ok (without "relationships" fs ∷ payloads))

unfoldable pub payloads_of : List Json → Result (List Fields)
unfolding without get string_eq
payloads_of [] = ok []
payloads_of (action ∷ actions) =
    let rest = payloads_of actions in
    if is_import (get "kind" action)
    then add_payload (request_fields (get "request" action)) rest
    else refuse

abbrev actions_of : Json → List Json
actions_of (arr items) = to_list items
actions_of _ = []

abbrev some_payloads : List Json → Result (List Fields)
some_payloads [] = refuse
some_payloads (action ∷ actions) = payloads_of (action ∷ actions)

unfoldable pub import_payloads : Json → Result (List Fields)
unfolding payloads_of get to_list
import_payloads artifact = some_payloads (actions_of (get "actions" artifact))

-- The payload with the secret reference, if there is one
abbrev pub with_credentials : Option String → Fields → Json
with_credentials none fs = obj fs
with_credentials (some reference) fs = obj (
    put_param "credentials"
      (obj (field "mode" (str "token") (field "accessTokenSecretReference" (str reference) end)))
      fs)

-- What an apply artifact says: the responses of the imports queued, and which action failed
pub record Receipt : Type 0 where
  pub responses : List Json
  pub failed_index : Option ℕ
  pub started_job_ids : List String

abbrev add_job : Option String → List String → List String
add_job none ids = ids
add_job (some id) ids = id ∷ ids

unfoldable pub started_job_ids : List Json → List String
unfolding get string_eq
started_job_ids [] = []
started_job_ids (response ∷ responses) =
    add_job (text? (get "jobId" response)) (started_job_ids responses)

-- The job ids stand in the receipt of a failure only.
unfoldable pub apply_artifact : List Json → Option ℕ → Receipt
unfolding started_job_ids
apply_artifact started none = record {
  responses = started;
  failed_index = none;
  started_job_ids = [];
}
apply_artifact started (some index) = record {
  responses = started;
  failed_index = some index;
  started_job_ids = started_job_ids started;
}

-- The imports queued, which action failed, and what the target was asked
pub record Started : Type 0 where
  pub responses : List Json
  pub failed_index : Option ℕ
  pub world : World

abbrev pub after_first : Json → Started → Started
after_first body s = record s { responses = body ∷ s.responses }

-- How an apply ends: well, with an error of the input or of the first import, with a readiness
-- report and its exit code, with `PartialApplyError`, or with another exception.
pub data Ending : Type 0 where
  done refused partial : Ending
  not_ready : ℕ → Ending
  other : Exc → Ending

pub record Applied : Type 0 where
  pub echoed : List Receipt
  pub started : List Json
  pub ending : Ending
  pub world : World

-- What the loop makes of an answer to the action `index`, before the `rest` of the loop
abbrev pub after_start : ℕ → Answer → World → Started → Started
after_start index (answered body) w rest = after_first body rest
after_start index _ w rest = record { responses = []; failed_index = some index; world = w }

module _ {T : Type 0} (clock : Clock T) (session : List Call → Call → Reply) (retries : ℕ) where
  abbrev pub start : Json → World → Done
  start payload w = request clock session none (start_call payload) false retries w

  -- The loop over the payloads, from action `index` on
  unfoldable pub start_loop : ℕ → List Json → World → Started
  unfolding request
  start_loop index [] w = record { responses = []; failed_index = none; world = w }
  start_loop index (payload ∷ payloads) w =
      let asked = start payload w in
      let rest = start_loop (suc index) payloads asked.world in
      after_start index asked.answer asked.world rest

-- The ending where all was queued and the receipt could not be given
abbrev pub unwritten : List Json → Ending
unwritten [] = refused
unwritten (body ∷ bodies) = partial

abbrev pub nothing : World → Ending → Applied
nothing w ending = record { echoed = []; started = []; ending = ending; world = w }

-- An `ArcGisMigrationError` becomes a `BadParameter`.
abbrev pub ends_with : Exc → Ending
ends_with (migration code) = refused
ends_with e = other e

-- How it ends after `_emit` of the receipt, where all was queued and where some was
abbrev pub after_whole : List Json → Result (Unit {0}) → Ending
after_whole bodies (ok u) = done
after_whole bodies (err (migration code)) = unwritten bodies
after_whole bodies (err e) = other e

abbrev pub after_partial : Result (Unit {0}) → Ending
after_partial (ok u) = partial
after_partial (err (migration code)) = partial
after_partial (err e) = other e

-- What `_emit` prints, and how it ends
pub record Emitted : Type 0 where
  pub printed : List Receipt
  pub result : Result (Unit {0})

module _ (urlsplit : String → Option Parts) (urlunsplit : String → String → String → String) where
  -- `_redact` of a receipt, whose own keys all stay
  unfoldable pub redact_receipt : Receipt → Result Receipt
  unfolding redact_list redact_strings
  redact_receipt r = then_result (redact_list urlsplit urlunsplit r.responses) λ responses.
      then_result (redact_strings urlsplit urlunsplit r.started_job_ids) λ ids.
        ok (record { responses = responses; failed_index = r.failed_index; started_job_ids = ids })

  -- `scan` is the scan for secrets of a receipt, with the plan's id and the preflight that are left
  -- out here; `can_write` is whether the output can be written, if asked for.
  module _ (scan : Receipt → Result (Unit {0})) (can_write : Bool) where
    abbrev pub after_scan : Receipt → Result (Unit {0}) → Emitted
    after_scan r (err e) = record { printed = []; result = err e }
    after_scan r (ok u) = record { printed = r ∷ []; result = if can_write then ok tt else refuse }

    abbrev pub after_redact : Result Receipt → Emitted
    after_redact (err e) = record { printed = []; result = err e }
    after_redact (ok r) = after_scan r (scan r)

    unfoldable pub emit : Receipt → Emitted
    unfolding redact_receipt
    emit r = after_redact (redact_receipt r)

    unfoldable pub report_apply : Started → Applied
    unfolding apply_artifact emit
    report_apply s = elim s.failed_index [
      | none ↦
          let e = emit (apply_artifact s.responses none) in
          record {
            echoed = e.printed;
            started = s.responses;
            ending = after_whole s.responses e.result;
            world = s.world;
          }
      | some index ↦
          let e = emit (apply_artifact s.responses (some index)) in
          elim s.responses [
            | [] ↦ record { echoed = []; started = []; ending = refused; world = s.world }
            | body ∷ bodies ↦ record {
              echoed = e.printed;
              started = s.responses;
              ending = after_partial e.result;
              world = s.world;
            }
          ]
    ]

    module _ {T : Type 0} (clock : Clock T) (session : List Call → Call → Reply) (retries : ℕ) where
      abbrev pub when_ready : List Json → World → Result Report → Applied
      when_ready payloads w (err e) = nothing w (other e)
      when_ready payloads w (ok report) =
          if report.is_import_ready
          then report_apply (start_loop clock session retries 0 payloads w)
          else nothing w (not_ready report.exit_code)

      abbrev pub with_payloads :
          Result (List Fields) → Option String → Result Report → World → Applied
      with_payloads (err e) reference preflight w = nothing w (ends_with e)
      with_payloads (ok payloads) reference preflight w =
          when_ready (map (with_credentials reference) payloads) w preflight

      -- `_apply` of an artifact that was read, with a secret reference that was accepted, and what the
      -- preflight gives, which asks a target of its own
      unfoldable pub apply_plan :
          Bool → Result Json → Option String → Result Report → World → Applied
      unfolding import_payloads start_loop report_apply put_param
      apply_plan false artifact reference preflight w = nothing w refused
      apply_plan true (err e) reference preflight w = nothing w (ends_with e)
      apply_plan true (ok artifact) reference preflight w =
          with_payloads (import_payloads artifact) reference preflight w
