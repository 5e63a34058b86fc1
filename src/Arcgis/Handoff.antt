-- ===== src/Arcgis/Handoff.antt =====
-- services/arcgis.py: the checks of what `handoff_command` is told, and the artifact that it makes.
use honua_migrate.Base.{
  ℕ, Bool, false, not, ◌&&◌, ◌||◌, List, [], ◌∷◌, String, ◌==◌, string_eq, Option, none, some,
  if◌then◌else◌, contains, any, is_empty, length, ltb,
}
use honua_migrate.Json.{Json}
use honua_migrate.Runs.Contracts.{Result, ok, then_result}
use honua_migrate.Readiness.Words.{is_set}
use honua_migrate.Arcgis.Tables.{refuse}
use honua_migrate.Arcgis.Artifact.{items_of, is_some}
use honua_migrate.Arcgis.Scope.{Scope, add_new}

abbrev pub read_only_mode : String
read_only_mode = "read-only-coexistence"

abbrev pub outcome_values : List String
outcome_values = "success" ∷ "partial" ∷ "failed" ∷ "unknown" ∷ []

abbrev pub mode_values : List String
mode_values = read_only_mode ∷ "writable-cutover" ∷ []

abbrev pub source_change_values : List String
source_change_values = "endpoint" ∷ "ids" ∷ "auth" ∷ "none" ∷ []

abbrev pub recovery_actions : List String
recovery_actions =
    "none" ∷ "monitoring-reconnect" ∷ "transfer-retry" ∷ "endpoint-switchback" ∷ "data-restoration"
    ∷ []

abbrev pub divergence_handling_values : List String
divergence_handling_values = "preserved" ∷ "reconciled" ∷ "discarded-with-consent" ∷ []

-- What was tried out of the retained application
pub record Exercised : Type 0 where
  pub rendering : Bool
  pub query_filter_paging : Bool
  pub popup_selection : Bool
  pub auth_error : Bool

-- The options of the command; `F` is the type of its floats, and the option parser refuses a
-- negative count of interventions.
pub record Options (F : Type 0) : Type 0 where
  pub target_service_url : String
  pub mode : String
  pub client_version : String
  pub exercised : Exercised
  pub source_change : List String
  pub import_outcome : String
  pub reconciliation_outcome : String
  pub retained_app_outcome : String
  pub recovery_action : String
  pub customer_message : String
  pub diagnostics_link : List String
  pub divergence_handling : Option String
  pub source_still_serving : Bool
  pub baseline_evidence : Option String
  pub route_back_method : Option String
  pub write_authority : Option String
  pub quiescence_window : Option String
  pub divergence_limit : Option String
  pub elapsed_seconds : Option F
  pub manual_interventions : Option ℕ
  pub effort_consent : Bool

-- The baseline of a source that still serves, and of a switch back by the operator
pub record Baseline : Type 0 where
  pub evidence : Option String
  pub route_back_method : Option String

pub record Cutover : Type 0 where
  pub write_authority : Option String
  pub quiescence_window : Option String
  pub divergence_limit : Option String

pub data ModeFields : Type 0 where
  with_baseline : Baseline → ModeFields
  with_cutover : Cutover → ModeFields

abbrev pub is_one_of : List String → Option String → Bool
is_one_of names none = false
is_one_of names (some s) = contains names s

-- `_handoff_mode_fields`; what is given and not empty is there.
unfoldable pub handoff_mode_fields : {F : Type 0} → Options F → Result ModeFields
unfolding is_set string_eq
handoff_mode_fields o =
    if o.mode == read_only_mode
    then (if is_set o.write_authority || is_set o.quiescence_window || is_set o.divergence_limit
        then refuse
        else if not o.source_still_serving
            || not (is_set o.baseline_evidence)
            || not (is_set o.route_back_method)
        then refuse
        else ok (
            with_baseline
              (record { evidence = o.baseline_evidence; route_back_method = o.route_back_method })))
    else if is_set o.baseline_evidence || is_set o.route_back_method
    then refuse
    else if not (is_one_of ("source" ∷ "target" ∷ []) o.write_authority)
        || not (is_set o.quiescence_window)
        || not (is_set o.divergence_limit)
    then refuse
    else ok (
        with_cutover (record {
          write_authority = o.write_authority;
          quiescence_window = o.quiescence_window;
          divergence_limit = o.divergence_limit;
        }))

unfoldable pub unique_changes : List String → List String → Result (List String)
unfolding add_new string_eq
unique_changes [] unique = ok unique
unique_changes (v ∷ vs) unique =
    let rest = unique_changes vs (add_new unique v) in
    if contains source_change_values v then rest else refuse

abbrev pub lone_none : List String → Result (List String)
lone_none unique =
    if is_empty unique
    then refuse
    else if contains unique "none" && ltb 1 (length unique)
    then refuse
    else ok unique

-- `_handoff_source_changes`
unfoldable pub handoff_source_changes : List String → Result (List String)
unfolding unique_changes string_eq
handoff_source_changes values = then_result (unique_changes values []) lone_none

unfoldable pub handoff_outcome : String → String → String → Result String
unfolding string_eq
handoff_outcome imported reconciled retained =
    let outcomes = imported ∷ reconciled ∷ retained ∷ [] in
    if any (λ v. not (contains outcome_values v)) outcomes
    then refuse
    else if any (λ v. v == "failed") outcomes
    then ok "failed"
    else if any (λ v. contains ("partial" ∷ "unknown" ∷ []) v) outcomes
    then ok "partial"
    else ok "success"

pub record Status : Type 0 where
  pub recovery_action : String
  pub customer_message : String
  pub diagnostics_links : List String
  pub divergence_handling : Option String

pub record Effort (F : Type 0) : Type 0 where
  pub elapsed_seconds : Option F
  pub manual_interventions : Option ℕ

abbrev pub is_negative : {F : Type 0} → (F → Bool) → Option F → Bool
is_negative negative none = false
is_negative negative (some x) = negative x

-- `_handoff_effort`
unfoldable pub handoff_effort :
    {F : Type 0} → (F → Bool) → Bool → Option F → Option ℕ → Result (Option (Effort F))
handoff_effort negative consent elapsed manual =
    if not (is_some elapsed) && not (is_some manual)
    then (if consent then refuse else ok none)
    else if not consent
    then refuse
    else if is_negative negative elapsed
    then refuse
    else ok (some (record { elapsed_seconds = elapsed; manual_interventions = manual }))

-- The artifact, less its constants, before `_emit` redacts it; the lists of its scope are not yet
-- sorted.
pub record Handoff (F : Type 0) : Type 0 where
  pub scope : Scope
  pub mode : String
  pub client_version : String
  pub exercised : Exercised
  pub source_changes : List String
  pub target_service_url : String
  pub import_outcome : String
  pub reconciliation_outcome : String
  pub retained_app_outcome : String
  pub outcome : String
  pub status : Status
  pub mode_fields : ModeFields
  pub effort : Option (Effort F)

-- `_load_handoff_manifest`, of a file that does or does not hold JSON
abbrev pub some_entries : Option (List Json) → Result (List Json)
some_entries none = refuse
some_entries (some []) = refuse
some_entries (some (e ∷ es)) = ok (e ∷ es)

abbrev pub handoff_manifest : Option Json → Result (List Json)
handoff_manifest none = refuse
handoff_manifest (some json) = some_entries (items_of json)
