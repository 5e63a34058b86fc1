-- ===== src/Arcgis/Command.antt =====
-- services/arcgis.py: `_handoff_status`, and `handoff_command` up to the artifact that it gives to
-- `_emit`.
use honua_migrate.Base.{
  Bool, not, List, [], ◌∷◌, String, ◌==◌, string_eq, Option, none, if◌then◌else◌, contains,
}
use honua_migrate.Json.{Json, Fields}
use honua_migrate.Runs.Contracts.{Result, ok, then_result}
use honua_migrate.Secrets.Artifact.{Port}
use honua_migrate.Readiness.Words.{Parts}
use honua_migrate.Arcgis.Tables.{refuse}
use honua_migrate.Arcgis.Urls.{safe_url}
use honua_migrate.Arcgis.Artifact.{is_some}
use honua_migrate.Arcgis.Scope.{handoff_scope}
use honua_migrate.Arcgis.Handoff.{
  mode_values, recovery_actions, divergence_handling_values, Options, is_one_of,
  handoff_mode_fields, handoff_source_changes, handoff_outcome, Status, handoff_effort, Handoff,
  handoff_manifest,
}

abbrev pub switchback : String
switchback = "endpoint-switchback"

-- The handling of a divergence belongs to a switch back of the endpoint, and to nothing else.
unfoldable pub divergence_of : String → Option String → Result (Option String)
unfolding string_eq
divergence_of action handling =
    if action == switchback
    then (if is_one_of divergence_handling_values handling then ok handling else refuse)
    else if is_some handling
    then refuse
    else ok none

module _ (urlsplit : String → Option Parts) (port_of : String → Port)
    (urlunsplit : String → String → String → String) where
  unfoldable pub safe_links : List String → Result (List String)
  unfolding safe_url
  safe_links [] = ok []
  safe_links (link ∷ links) =
      let rest = safe_links links in
      then_result (safe_url urlsplit port_of urlunsplit link)
        λ url. then_result rest λ urls. ok (url ∷ urls)

  unfoldable pub handoff_status : String → String → List String → Option String → Result Status
  unfolding safe_links divergence_of string_eq
  handoff_status action message links handling =
      if not (contains recovery_actions action)
      then refuse
      else if message == ""
      then refuse
      else then_result (safe_links links) λ urls.
        then_result (divergence_of action handling) λ divergence. ok (record {
          recovery_action = action;
          customer_message = message;
          diagnostics_links = urls;
          divergence_handling = divergence;
        })

  -- `valid` is the validation of a plan, `valid_handoff` that of the artifact with its scan for
  -- secrets, which takes it before `_emit` redacts it, and `negative` whether a float is below 0. The output may be written.
  module _ {F : Type 0} (negative : F → Bool) (valid : Json → Bool) (plan_digest : Fields → String)
      (files : String → Option Json) (valid_handoff : Handoff F → Bool) where
    abbrev pub validated : Handoff F → Result (Handoff F)
    validated h = if valid_handoff h then ok h else refuse

    unfoldable pub handoff_artifact : String → Options F → Result (Handoff F)
    unfolding safe_url handoff_scope handoff_mode_fields handoff_status handoff_outcome
        handoff_source_changes handoff_effort string_eq
    handoff_artifact manifest o =
        if not (contains mode_values o.mode)
        then refuse
        else then_result (safe_url urlsplit port_of urlunsplit o.target_service_url) λ url.
          then_result (handoff_manifest (files manifest)) λ entries.
            then_result (handoff_scope valid plan_digest files url entries) λ scope.
              then_result (handoff_mode_fields o) λ fields.
                then_result
                  (handoff_status o.recovery_action o.customer_message o.diagnostics_link
                    o.divergence_handling)
                  λ status.
                    then_result
                      (handoff_outcome o.import_outcome o.reconciliation_outcome
                        o.retained_app_outcome)
                      λ outcome. then_result (handoff_source_changes o.source_change) λ changes.
                        then_result
                          (handoff_effort negative o.effort_consent o.elapsed_seconds
                            o.manual_interventions)
                          λ effort. validated (record {
                            scope = scope;
                            mode = o.mode;
                            client_version = o.client_version;
                            exercised = o.exercised;
                            source_changes = changes;
                            target_service_url = url;
                            import_outcome = o.import_outcome;
                            reconciliation_outcome = o.reconciliation_outcome;
                            retained_app_outcome = o.retained_app_outcome;
                            outcome = outcome;
                            status = status;
                            mode_fields = fields;
                            effort = effort;
                          })
