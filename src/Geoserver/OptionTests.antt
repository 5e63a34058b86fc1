-- ===== src/Geoserver/OptionTests.antt =====
-- The request of a plan command at concrete options, and the theorem there.
use honua_migrate.Base.{◌≡◌, refl, [], ◌∷◌, string_eq, nat_eq, none, true, false}
use honua_migrate.Json.{Json, Fields, bool, int, str, arr, obj, nil, cons, end, field}
use honua_migrate.Readiness.Words.{is_set}
use honua_migrate.Geoserver.Checks.{validate_url, rstrip_slashes}
use honua_migrate.Geoserver.Apply.{is_server_reference}
use honua_migrate.Base.Int.{pos}
use honua_migrate.Runs.Contracts.{ok}
use honua_migrate.Secrets.Keys.{fold, occurs_in, starts_with}
use honua_migrate.Geoserver.Options.{
  Options, build_start_request, start_request, strip_text, is_positive, accepts_srid,
  workspace_mappings, unsupported_behavior, plan_request, is_secret_key,
}
use honua_migrate.Geoserver.Restarted.{Restarts, build_start_request-Restarts}
use honua_migrate.Geoserver.Tests.{urlsplit}

abbrev options : Options
options = record {
  geoserver_url = "https://maps.example/rest//";
  geoserver_password_ref = "env:X";
  username = "";
  timeout_seconds = pos 120;
  retries = pos 3;
  workspaces = "roads" ∷ [];
  datastores = [];
  layers = [];
  import_styles = false;
  overwrite_existing = false;
  target_srid = none;
  auto_publish_layers = true;
  batch_size = pos 10;
  unsupported_datastore = "skip";
  unsupported_layer = "log-warning";
  unsupported_style = "fail-import";
  continue_on_resource_failure = true;
  workspace_mapping = " a = b=c " ∷ [];
  default_workspace_name = " imported ";
}

abbrev import_options : Json
import_options = obj (
    field "unsupportedDataStoreBehavior" (int (pos 0)) (
      field "unsupportedLayerBehavior" (int (pos 1)) (
        field "unsupportedStyleBehavior" (int (pos 2)) (
          field "continueOnResourceFailure" (bool true) (
            field "defaultWorkspaceName" (str "imported")
              (field "workspaceNameMappings" (obj (field "a" (str "b=c") end)) end))))))

abbrev after_secret : Fields
after_secret = field "dryRun" (bool true) (
    field "applyMode" (bool false) (
      field "requestTimeoutSeconds" (int (pos 120)) (
        field "maxRetries" (int (pos 3)) (
          field "importStyles" (bool false) (
            field "overwriteExisting" (bool false) (
              field "autoPublishLayers" (bool true) (
                field "batchSize" (int (pos 10)) (
                  field "importOptions" import_options
                    (field "workspaceNames" (arr (cons (str "roads") nil)) end)))))))))

abbrev built_request : Fields
built_request =
    field "geoServerRestUrl" (str "https://maps.example/rest")
      (field "passwordSecretReference" (str "env:X") after_secret)

built : build_start_request urlsplit options true ≡ ok built_request
unfolding build_start_request start_request strip_text is_positive accepts_srid workspace_mappings
    unsupported_behavior validate_url rstrip_slashes is_set is_server_reference string_eq nat_eq
built = refl

planned :
    plan_request built_request
    ≡ field "geoServerRestUrl" (str "https://maps.example/rest") after_secret
unfolding plan_request is_secret_key fold occurs_in starts_with nat_eq
planned = refl

build_start_request-Restarts_example : Restarts built_request (plan_request built_request) "env:Y"
build_start_request-Restarts_example =
    build_start_request-Restarts urlsplit options built_request "env:Y" built
