-- ===== src/Geoserver/Options.antt =====
-- services/geoserver.py: `_build_start_request` of the options of the plan command, and the request
-- that goes into its artifact.
use Prim.Native.Char.{code}
use honua_migrate.Base.{
  ℕ, zero, suc, Bool, true, false, not, ◌&&◌, ◌||◌, List, [], ◌∷◌, String, ◌==◌, string_eq, nat_eq,
  Option, none, some, if◌then◌else◌, leb, map, any,
}
use honua_migrate.Base.Int.{ℤ, pos, negsuc}
use honua_migrate.Base.Text.{codes, is_space}
use honua_migrate.Json.{Json, Items, Fields, bool, int, str, arr, obj, nil, cons, end, field}
use honua_migrate.Runs.Contracts.{Result, ok, then_result}
use honua_migrate.Secrets.Keys.{fold, occurs_in}
use honua_migrate.Readiness.Words.{Parts}
use honua_migrate.Arcgis.Tables.{refuse}
use honua_migrate.Geoserver.Checks.{validate_url}
use honua_migrate.Geoserver.Apply.{is_server_reference}

abbrev lstrip : String → String
lstrip String.[] = ""
lstrip (String.◌∷◌ c s) = if is_space (code c) then lstrip s else String.◌∷◌ c s

abbrev rstrip : String → String
rstrip String.[] = ""
rstrip (String.◌∷◌ c s) =
    let rest = rstrip s in if is_space (code c) && rest == "" then "" else String.◌∷◌ c rest

unfoldable pub strip_text : String → String
unfolding string_eq
strip_text s = rstrip (lstrip s)

-- `_unsupported_behavior`
unfoldable pub unsupported_behavior : String → Result ℕ
unfolding string_eq
unsupported_behavior value =
    if value == "skip"
    then ok 0
    else if value == "log-warning"
    then ok 1
    else if value == "fail-import"
    then ok 2
    else refuse

-- `value.partition("=")`, and `none` where there is no separator
abbrev pub partition : String → Option (String × String)
partition String.[] = none
partition (String.◌∷◌ c s) =
    if leb (code c) b'=' && leb b'=' (code c)
    then some ("", s)
    else elim (partition s) [ none ↦ none | some st ↦ some (String.◌∷◌ c st.0, st.1) ]

abbrev pub has_key : String → Fields → Bool
has_key key end = false
has_key key (field k v fs) = (k == key) || has_key key fs

-- `fields[key] = value` of a key that they do not have
abbrev pub add_last : Fields → String → Json → Fields
add_last end key value = field key value end
add_last (field k v fs) key value = field k v (add_last fs key value)

abbrev pub add_mapping : Option (String × String) → Fields → Result Fields
add_mapping none mappings = refuse
add_mapping (some (source, target)) mappings =
    if strip_text source == "" || strip_text target == ""
    then refuse
    else if has_key (strip_text source) mappings
    then refuse
    else ok (add_last mappings (strip_text source) (str (strip_text target)))

abbrev pub mappings_onto : List String → Fields → Result Fields
mappings_onto [] mappings = ok mappings
mappings_onto (value ∷ values) mappings =
    then_result (add_mapping (partition value) mappings) λ more. mappings_onto values more

-- `_workspace_mappings`, with no fields for `None`
unfoldable pub workspace_mappings : List String → Result Fields
unfolding strip_text string_eq
workspace_mappings values = mappings_onto values end

-- An empty list or text stands for `None` as well; `timeout_seconds` is `int(timeout)`.
pub record Options : Type 0 where
  pub geoserver_url : String
  pub geoserver_password_ref : String
  pub username : String
  pub timeout_seconds : ℤ
  pub retries : ℤ
  pub workspaces : List String
  pub datastores : List String
  pub layers : List String
  pub import_styles : Bool
  pub overwrite_existing : Bool
  pub target_srid : Option ℤ
  pub auto_publish_layers : Bool
  pub batch_size : ℤ
  pub unsupported_datastore : String
  pub unsupported_layer : String
  pub unsupported_style : String
  pub continue_on_resource_failure : Bool
  pub workspace_mapping : List String
  pub default_workspace_name : String

unfoldable pub is_positive : ℤ → Bool
is_positive (pos zero) = false
is_positive (pos (suc n)) = true
is_positive (negsuc n) = false

unfoldable pub accepts_srid : Option ℤ → Bool
unfolding is_positive
accepts_srid none = true
accepts_srid (some n) = is_positive n

-- The key with the texts, where there are any, before the rest
abbrev pub with_texts : String → List String → Fields → Fields
with_texts key [] fs = fs
with_texts key (t ∷ ts) fs = field key (arr (texts (t ∷ ts))) fs
  where
    texts : List String → Items
    texts [] = nil
    texts (t ∷ ts) = cons (str t) (texts ts)

abbrev pub with_srid : Option ℤ → Fields → Fields
with_srid none fs = fs
with_srid (some n) fs = field "targetSrid" (int n) fs

abbrev pub with_username : String → Fields → Fields
with_username name fs = if name == "" then fs else field "username" (str name) fs

abbrev pub with_mappings : Fields → Fields
with_mappings end = end
with_mappings mappings = field "workspaceNameMappings" (obj mappings) end

abbrev pub import_options : Options → ℕ → ℕ → ℕ → Fields → Json
import_options o datastore layer style mappings = obj (
    field "unsupportedDataStoreBehavior" (int (pos datastore)) (
      field "unsupportedLayerBehavior" (int (pos layer)) (
        field "unsupportedStyleBehavior" (int (pos style)) (
          field "continueOnResourceFailure" (bool o.continue_on_resource_failure) (
            field "defaultWorkspaceName" (str (strip_text o.default_workspace_name))
              (with_mappings mappings))))))

unfoldable pub start_request : Options → Bool → Json → String → Fields
unfolding strip_text string_eq
start_request o dry_run options url = field "geoServerRestUrl" (str url) (
    field "passwordSecretReference" (str o.geoserver_password_ref) (
      field "dryRun" (bool dry_run) (
        field "applyMode" (bool (not dry_run)) (
          field "requestTimeoutSeconds" (int o.timeout_seconds) (
            field "maxRetries" (int o.retries) (
              field "importStyles" (bool o.import_styles) (
                field "overwriteExisting" (bool o.overwrite_existing) (
                  field "autoPublishLayers" (bool o.auto_publish_layers) (
                    field "batchSize" (int o.batch_size) (
                      field "importOptions" options (
                        with_srid o.target_srid (
                          with_username o.username (
                            with_texts "workspaceNames" o.workspaces (
                              with_texts "dataStoreNames" o.datastores
                                (with_texts "layerNames" o.layers end)))))))))))))))

-- `_build_start_request`
unfoldable pub build_start_request : (String → Option Parts) → Options → Bool → Result Fields
unfolding start_request accepts_srid is_positive unsupported_behavior workspace_mappings
    validate_url is_server_reference strip_text string_eq
build_start_request urlsplit o dry_run =
    if not (accepts_srid o.target_srid)
    then refuse
    else if not (is_positive o.batch_size)
    then refuse
    else if strip_text o.default_workspace_name == ""
    then refuse
    else then_result (unsupported_behavior o.unsupported_datastore) λ datastore.
      then_result (unsupported_behavior o.unsupported_layer) λ layer.
        then_result (unsupported_behavior o.unsupported_style) λ style.
          then_result (workspace_mappings o.workspace_mapping) λ mappings.
            then_result (validate_url urlsplit o.geoserver_url) λ url.
              if is_server_reference o.geoserver_password_ref
              then ok
                  (start_request o dry_run (import_options o datastore layer style mappings) url)
              else refuse

-- `_SECRET_KEY`, `api[_-]?key` written out
abbrev secret_words : List String
secret_words =
    "password" ∷ "secret" ∷ "token" ∷ "apikey" ∷ "api_key" ∷ "api-key" ∷ "authorization" ∷ []

unfoldable pub is_secret_key : String → Bool
unfolding occurs_in fold
is_secret_key key = any (λ word. occurs_in (codes word) (map fold (codes key))) secret_words

-- `_plan_request_without_credentials`
unfoldable pub plan_request : Fields → Fields
unfolding is_secret_key
plan_request end = end
plan_request (field k v fs) =
    let rest = plan_request fs in if is_secret_key k then rest else field k v rest
