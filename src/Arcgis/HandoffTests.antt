-- ===== src/Arcgis/HandoffTests.antt =====
-- A handoff of one imported layer, and the theorem there.
use honua_migrate.Base.{
  ◌≡◌, refl, Bool, true, false, [], ◌∷◌, String, ◌==◌, string_eq, nat_eq, Option, none, some,
  if◌then◌else◌,
}
use honua_migrate.Base.Int.{pos}
use honua_migrate.Json.{Json, Fields, int, str, arr, obj, nil, cons, end, field, get, to_list}
use honua_migrate.Runs.Contracts.{ok}
use honua_migrate.Secrets.Keys.{starts_with}
use honua_migrate.Readiness.Words.{Parts}
use honua_migrate.Reconcile.Same.{same}
use honua_migrate.Geoserver.Checks.{verify}
use honua_migrate.Arcgis.Apply.{without}
use honua_migrate.Arcgis.Artifact.{item, requests_of, plan_action_requests, read_artifact}
use honua_migrate.Arcgis.Scope.{
  texts_of, ints_of, response_job_ids, handoff_job_ids, target_ids, mappings_of, Scope, add_new,
  add_value, add_mapping, add_mappings, add_plan, read_entry, scope_from, handoff_scope,
}
use honua_migrate.Arcgis.Handoff.{Options, with_baseline, Handoff}

abbrev plan : Json
plan = obj (
    field "id" (str "arcgis-plan-1") (
      field "service" (str "arcgis") (
        field "safety_mode" (str "plan") (
          field "actions"
            (arr (
              cons
                (obj (
                  field "kind" (str "arcgis-service-import") (
                    field "request"
                      (obj (
                        field "serviceUrl" (str "https://gis/0")
                          (field "layerId" (int (pos 0)) (field "tableName" (str "parcels") end))))
                      end)))
                nil))
            (field "plan_digest" (str "d") end)))))

abbrev entry : Json
entry = obj (
    field "plan" (str "plan.json")
      (field "targetLayerId" (int (pos 7)) (field "apply" (str "apply.json") end)))

abbrev applied : Json
applied = obj (
    field "kind" (str "apply") (
      field "planId" (str "arcgis-plan-1")
        (field "response" (obj (field "jobId" (str "j1") end)) end)))

abbrev files : String → Option Json
files path =
    if path == "plan.json"
    then some plan
    else if path == "apply.json"
    then some applied
    else if path == "manifest.json"
    then some (arr (cons entry nil))
    else none

abbrev scope : Scope
scope = record {
  id_mapping =
      record {
        source_service_url = str "https://gis/0";
        source_layer_id = int (pos 0);
        table_name = str "parcels";
        target_service_url = "https://honua/fs";
        target_layer_id = pos 7;
        job_id = some "j1";
      }
      ∷ [];
  plan_ids = "arcgis-plan-1" ∷ [];
  plan_digests = str "d" ∷ [];
  job_ids = "j1" ∷ [];
  service_urls = str "https://gis/0" ∷ [];
  layer_ids = int (pos 0) ∷ [];
}

abbrev digest : Fields → String
digest fs = "d"

scoped : handoff_scope (λ p. true) digest files "https://honua/fs" (entry ∷ []) ≡ ok scope
unfolding handoff_scope scope_from read_entry read_artifact plan_action_requests requests_of verify
    without starts_with target_ids ints_of texts_of handoff_job_ids response_job_ids mappings_of
    item add_plan add_mappings add_mapping add_new add_value same get to_list string_eq nat_eq
scoped = refl

abbrev urlsplit : String → Option Parts
urlsplit s = some (record {
  scheme = "https";
  netloc = "honua";
  path = "/fs/";
  query = "";
  fragment = "";
  hostname = some "honua";
  username = none;
  password = none;
})

abbrev urlunsplit : String → String → String → String
urlunsplit scheme netloc path = "https://honua/fs"

abbrev options : Options Bool
options = record {
  target_service_url = "https://honua/fs/";
  mode = "read-only-coexistence";
  client_version = "4.30";
  exercised = record {
    rendering = true;
    query_filter_paging = true;
    popup_selection = false;
    auth_error = false;
  };
  source_change = "endpoint" ∷ "ids" ∷ "endpoint" ∷ [];
  import_outcome = "success";
  reconciliation_outcome = "unknown";
  retained_app_outcome = "success";
  recovery_action = "endpoint-switchback";
  customer_message = "back soon";
  diagnostics_link = [];
  divergence_handling = some "preserved";
  source_still_serving = true;
  baseline_evidence = some "counts";
  route_back_method = some "dns";
  write_authority = none;
  quiescence_window = none;
  divergence_limit = none;
  elapsed_seconds = none;
  manual_interventions = some 2;
  effort_consent = true;
}

abbrev handed : Handoff Bool
handed = record {
  scope = scope;
  mode = "read-only-coexistence";
  client_version = "4.30";
  exercised = options.exercised;
  source_changes = "endpoint" ∷ "ids" ∷ [];
  target_service_url = "https://honua/fs";
  import_outcome = "success";
  reconciliation_outcome = "unknown";
  retained_app_outcome = "success";
  outcome = "partial";
  status = record {
    recovery_action = "endpoint-switchback";
    customer_message = "back soon";
    diagnostics_links = [];
    divergence_handling = some "preserved";
  };
  mode_fields = with_baseline (record { evidence = some "counts"; route_back_method = some "dns" });
  effort = some (record { elapsed_seconds = none; manual_interventions = some 2 });
}

-- A list of jobs that is no list is passed over.
jobs_passed_over :
    handoff_scope
      (λ p. true)
      digest
      files
      "https://honua/fs"
      (obj (
          field "plan"
            (str "plan.json")
            (field "targetLayerId" (int (pos 7)) (field "jobIds" (str "j1") end)))
        ∷ [])
    ≡ ok (record scope {
      id_mapping =
          record {
            source_service_url = str "https://gis/0";
            source_layer_id = int (pos 0);
            table_name = str "parcels";
            target_service_url = "https://honua/fs";
            target_layer_id = pos 7;
            job_id = none;
          }
          ∷ [];
      job_ids = [];
    })
unfolding handoff_scope scope_from read_entry read_artifact plan_action_requests requests_of verify
    without starts_with target_ids ints_of texts_of mappings_of item add_plan add_mappings
    add_mapping add_new add_value same get to_list string_eq nat_eq
jobs_passed_over = refl
