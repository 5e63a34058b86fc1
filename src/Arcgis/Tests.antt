-- ===== src/Arcgis/Tests.antt =====
-- Plans, polls and applies at concrete catalogs and targets, and the theorems there.
use honua_migrate.Base.{
  ◌≡◌, refl, ℕ, leb, ltb, List, [], ◌∷◌, some, none, nat_eq, string_eq, map, String, ◌<>◌, Option,
  Bool, true, false,
}
use honua_migrate.Base.Decimal.{show_int}
use honua_migrate.Base.Int.{pos, int_le}
use honua_migrate.Base.Text.{codes, same_codes, strip, lower}
use honua_migrate.Json.{
  Json, Fields, null, str, int, arr, obj, nil, cons, end, field, get, members, to_list,
}
use honua_migrate.Runs.Contracts.{ok}
use honua_migrate.Readiness.Manifest.{as_mapping, nothing_observed}
use honua_migrate.Readiness.Report
use honua_migrate.Readiness.Report.{Report, ready_report, is_ready}
use honua_migrate.Arcgis.Client.{
  Call, Reply, reply, World, Clock, request, request_loop, after_send, finish, normalize_job_status,
  status_named, status_names, job_statuses, is_terminal,
}
use honua_migrate.Arcgis.Wait.{
  Waited, receipt, wait_for_terminal, wait_loop, after_poll, after_answer, ended_as, receipt_of,
  seen_in,
}
use honua_migrate.Arcgis.Apply.{
  apply_plan, import_payloads, payloads_of, without, start_loop, report_apply, apply_artifact,
  redact_receipt, emit, with_credentials, partial,
}
use honua_migrate.Arcgis.Redact.{
  redact, redact_list, redact_strings, redact_string, is_web_text, is_hidden, sanitize_handoff_url,
}
use honua_migrate.Secrets.Keys.{starts_with, occurs_in, fold}
use honua_migrate.Readiness.Words.{Parts}
use honua_migrate.Arcgis.Applied.{apply_plan-Accounted}
use honua_migrate.Arcgis.Queued.{Accounted}
use honua_migrate.Arcgis.Tables.{
  refuse, lower_codes, squash, drop_scores, strip_scores, layer_text, table_name_from_layer,
  is_server_table, derived_table_name,
}
use honua_migrate.Arcgis.Expand.{
  Relationship, Action, origin_action, related_action, relationships_of, relationship_records,
  name_layers, named_layer, add_related, related_loop, expand_at, expand_service_plan,
}
use honua_migrate.Arcgis.Expanded.{Plan, expand_service_plan-Plan}

abbrev origin : Json
origin = obj (field "layerId" (int (pos 0)) (field "tableName" (str "parcels") end))

abbrev catalog : Json
catalog = obj (
    field "service"
      (obj (
        field "tables"
          (arr
            (cons (obj (field "id" (int (pos 3)) (field "name" (str "2019 Inspections") end))) nil))
          end))
      (field "layers"
        (obj (
          field "0"
            (obj (
              field "relationships"
                (arr (cons (obj (field "relatedTableId" (int (pos 3)) end)) nil)) end))
            end))
        end))

abbrev relationship : Relationship
relationship = record {
  id = null;
  name = null;
  origin_layer_id = pos 0;
  destination_layer_id = pos 3;
  key_field = null;
  cardinality = null;
  role = null;
}

abbrev actions : List Action
actions =
    origin_action origin (pos 0) (codes "parcels") (relationship ∷ [])
    ∷ related_action origin (pos 3) (codes "t_2019_inspections") none
    ∷ []

expanded : expand_service_plan origin catalog ≡ ok actions
unfolding expand_service_plan expand_at related_loop add_related named_layer name_layers
    relationship_records relationships_of derived_table_name is_server_table table_name_from_layer
    layer_text strip_scores drop_scores squash lower_codes as_mapping get members show_int int_le
    same_codes nat_eq string_eq
expanded = refl

expand_service_plan-Plan_example : Plan origin catalog actions
expand_service_plan-Plan_example = expand_service_plan-Plan origin catalog actions expanded

-- A clock that counts its readings, with the deadline at the third, and a target with a job that is
-- being imported at first and completed then
abbrev clock : Clock ℕ
clock = record { now = λ n. n; reached = λ t d. leb d t; passed = λ t d. ltb d t }

abbrev answer_with : Json → Reply
answer_with body =
    reply (record { status = 200; is_redirect = false; has_content = true; payload = some body })

abbrev job : String → Json
job status = obj (field "jobId" (str "j1") (field "status" (str status) end))

abbrev target : List Call → Call → Reply
target [] call = answer_with (job "Queued")
target (c ∷ cs) call = answer_with (job "completed")

abbrev world : World
world = record { calls = []; reads = 0 }

abbrev successful_of : Waited → Bool
successful_of (receipt r v) = r.successful
successful_of _ = false

waits : successful_of (wait_for_terminal clock target (some 9) 2 "j1" 10 world) ≡ true
unfolding wait_for_terminal wait_loop after_poll after_answer ended_as receipt_of seen_in request
    request_loop after_send finish normalize_job_status status_named status_names job_statuses
    is_terminal same_codes strip lower get nat_eq string_eq
waits = refl

abbrev plan : Json
plan = obj (
    field "actions"
      (arr (
        cons
          (obj (
            field "kind" (str "arcgis-service-import")
              (field "request" (obj (field "layerId" (int (pos 0)) end)) end)))
          nil))
      end)

abbrev payloads : List Fields
payloads = field "layerId" (int (pos 0)) end ∷ []

read_payloads : import_payloads plan ≡ ok payloads
unfolding import_payloads payloads_of without get to_list string_eq
read_payloads = refl

abbrev report : Report
report = ready_report (some 200) nothing_observed

-- Standard functions for a text whose parts are of no account here
abbrev urlsplit : String → Option Parts
urlsplit s = none

abbrev urlunsplit : String → String → String → String
urlunsplit scheme netloc path = scheme <> ("://" <> (netloc <> path))

apply_plan-Accounted_example :
    Accounted urlsplit urlunsplit target true
      (ok report)
      (map (with_credentials (some "env:T")) payloads)
      world
      (apply_plan urlsplit urlunsplit
        (λ r. ok tt)
        true
        clock
        target
        2
        true
        (ok plan)
        (some "env:T")
        (ok report)
        world)
apply_plan-Accounted_example =
    apply_plan-Accounted urlsplit urlunsplit (λ r. ok tt) true clock target 2 true plan
      (some "env:T") (ok report) world payloads read_payloads

-- A receipt that the scan for secrets refuses is not printed, and the error says that it was.
unsafe_receipt :
    let a =
      apply_plan urlsplit urlunsplit
        (λ r. refuse)
        true
        clock
        target
        2
        true
        (ok plan)
        none
        (ok report)
        world in
    (a.ending ≡ partial) × (a.echoed ≡ [])
unfolding apply_plan import_payloads payloads_of without start_loop request request_loop after_send
    finish report_apply apply_artifact emit redact_receipt redact_list redact_strings redact
    redact_string is_web_text is_hidden sanitize_handoff_url starts_with occurs_in fold lower
    ready_report Report.report is_ready get to_list string_eq nat_eq
unsafe_receipt = (refl, refl)
