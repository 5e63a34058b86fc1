-- ===== src/Arcgis/Artifact.antt =====
-- services/arcgis.py: `_read_artifact`, which reads a reviewed plan, and the requests of its actions.
use honua_migrate.Base.{
  Bool, true, false, not, ◌&&◌, ◌||◌, List, [], ◌∷◌, String, ◌==◌, string_eq, nat_eq, Option, none,
  some, if◌then◌else◌,
}
use honua_migrate.Base.Text.{codes}
use honua_migrate.Json.{Json, Fields, null, arr, obj, end, field, get, is_mapping, to_list, text?}
use honua_migrate.Runs.Contracts.{Result, ok, err, other, then_result}
use honua_migrate.Secrets.Keys.{starts_with}
use honua_migrate.Geoserver.Checks.{is_the, verify}
use honua_migrate.Arcgis.Tables.{refuse}

abbrev pub items_of : Json → Option (List Json)
items_of (arr items) = some (to_list items)
items_of _ = none

abbrev pub is_some : {A : Type 0} → Option A → Bool
is_some none = false
is_some (some a) = true

abbrev pub is_null : Json → Bool
is_null null = true
is_null _ = false

-- `fields[key]`, which raises a `KeyError` where there is none
unfoldable pub item : String → Fields → Result Json
unfolding string_eq
item key end = err other
item key (field k v fs) = let rest = item key fs in if k == key then ok v else rest

-- A plan artifact that was accepted, with its identity
pub record Artifact : Type 0 where
  pub plan_id : String
  pub artifact : Json

abbrev pub is_import_action : Json → Bool
is_import_action action =
    is_mapping action
    && is_the "arcgis-service-import" (get "kind" action)
    && is_mapping (get "request" action)

abbrev pub request_of : Json → Fields
request_of (obj fs) = fs
request_of _ = end

-- The requests of the actions, each of an action that imports
unfoldable pub requests_of : List Json → Result (List Fields)
unfolding get string_eq
requests_of [] = ok []
requests_of (action ∷ actions) =
    let rest =
      then_result (requests_of actions)
        (λ requests. ok (request_of (get "request" action) ∷ requests)) in
    if is_import_action action then rest else refuse

abbrev pub some_requests : Option (List Json) → Result (List Fields)
some_requests none = refuse
some_requests (some []) = refuse
some_requests (some (action ∷ actions)) = requests_of (action ∷ actions)

-- `_plan_action_requests`
unfoldable pub plan_action_requests : Json → Result (List Fields)
unfolding requests_of get to_list
plan_action_requests artifact = some_requests (items_of (get "actions" artifact))

abbrev first_is_import : Option (List Json) → Bool
first_is_import (some (action ∷ actions)) = is_import_action action
first_is_import _ = false

abbrev plan_prefix : Option String → Bool
plan_prefix (some s) = starts_with (codes "arcgis-plan-") (codes s)
plan_prefix none = false

-- `valid` is the contract validation, `plan_digest` the digest of an unsigned plan; both raise
-- what `_read_artifact` turns into its own error.
module _ (valid : Json → Bool) (plan_digest : Fields → String) where
  abbrev with_id : Json → Option String → Result Artifact
  with_id artifact none = refuse
  with_id artifact (some id) =
      let actions = items_of (get "actions" artifact) in
      if not (plan_prefix (some id)) || not (valid artifact)
      then refuse
      else if not (
          is_the "arcgis" (get "service" artifact)
          && is_the "plan" (get "safety_mode" artifact)
          && first_is_import actions)
      then refuse
      else if not (verify valid plan_digest artifact)
      then refuse
      else ok (record { plan_id = id; artifact = artifact })

  -- `_read_artifact` of a file that does or does not hold JSON
  unfoldable pub read_artifact : Option Json → Result Artifact
  unfolding get verify string_eq starts_with to_list
  read_artifact none = refuse
  read_artifact (some artifact) =
      if is_mapping artifact then with_id artifact (text? (get "id" artifact)) else refuse
