-- ===== src/Arcgis/Expand.antt =====
-- services/arcgis.py: `expand_service_plan`, one import for a layer and each related layer.
use honua_migrate.Base.{
  ℕ, Bool, ◌&&◌, List, [], ◌∷◌, ◌++◌, String, ◌<>◌, string_eq, Option, none, some, if◌then◌else◌,
  any,
}
use honua_migrate.Base.Decimal.{show_int}
use honua_migrate.Base.Int.{ℤ, int_le}
use honua_migrate.Base.Text.{codes, same_codes}
use honua_migrate.Json.{Json, str, get, members, int?, text?}
use honua_migrate.Runs.Contracts.{Result, ok, then_result}
use honua_migrate.Readiness.Manifest.{as_mapping}
use honua_migrate.Arcgis.Tables.{refuse, layer_text, is_server_table, derived_table_name}

pub record Relationship : Type 0 where
  pub id : Json
  pub name : Json
  pub origin_layer_id : ℤ
  pub destination_layer_id : ℤ
  pub key_field : Json
  pub cardinality : Json
  pub role : Json

-- The request of the origin with its relationships, or the request for a related layer, which takes
-- the other settings of the origin over.
pub data Action : Type 0 where
  origin_action : Json → ℤ → List ℕ → List Relationship → Action
  related_action : Json → ℤ → List ℕ → Option String → Action

abbrev pub layer_of : Action → ℤ
layer_of (origin_action origin id table relationships) = id
layer_of (related_action origin id table service) = id

abbrev pub table_of : Action → List ℕ
table_of (origin_action origin id table relationships) = table
table_of (related_action origin id table service) = table

abbrev relate : ℤ → Json → Option ℤ → List Relationship → List Relationship
relate origin item none rest = rest
relate origin item (some related) rest =
    record {
      id = get "id" item;
      name = get "name" item;
      origin_layer_id = origin;
      destination_layer_id = related;
      key_field = get "keyField" item;
      cardinality = get "cardinality" item;
      role = get "role" item;
    }
    ∷ rest

unfoldable pub relationships_of : ℤ → List Json → List Relationship
unfolding get
relationships_of origin [] = []
relationships_of origin (item ∷ items) =
    relate origin item (int? (get "relatedTableId" item)) (relationships_of origin items)

unfoldable pub relationship_records : ℤ → Json → List Relationship
unfolding relationships_of get members
relationship_records origin document =
    relationships_of origin (members (get "relationships" document))

abbrev pub same_int : ℤ → ℤ → Bool
same_int a b = int_le a b && int_le b a

-- The names of layers by their ids, the latest first, as `dict` keeps the latest
pub record NamedLayer : Type 0 where
  pub id : ℤ
  pub name : List ℕ

abbrev layer_name : Option String → ℤ → List ℕ
layer_name (some name) id = codes name
layer_name none id = layer_text id

abbrev add_named : Json → Option ℤ → List NamedLayer → List NamedLayer
add_named item none named = named
add_named item (some id) named =
    record { id = id; name = layer_name (text? (get "name" item)) id } ∷ named

unfoldable pub name_layers : List Json → List NamedLayer → List NamedLayer
unfolding get layer_text string_eq
name_layers [] named = named
name_layers (item ∷ items) named = name_layers items (add_named item (int? (get "id" item)) named)

unfoldable pub named_layer : List NamedLayer → ℤ → List ℕ
unfolding layer_text int_le
named_layer [] id = layer_text id
named_layer (layer ∷ layers) id = if same_int layer.id id then layer.name else named_layer layers id

-- The service name of the origin, if it is a text that is not empty
abbrev pub related_service : Option String → ℤ → Option String
related_service none id = none
related_service (some name) id = some (name <> ("-rel-" <> show_int id))

module _ (origin : Json) (named : List NamedLayer) where
  -- What follows the name of a table, before the `rest` of the loop
  unfoldable pub add_related :
      ℤ → List (List ℕ) → List ℕ → (List ℕ → Result (List Action)) → Result (List Action)
  unfolding same_codes show_int get string_eq
  add_related id tables table rest =
      if any (same_codes table) tables
      then refuse
      else then_result (rest table) (λ actions. ok (
          related_action origin id table (related_service (text? (get "serviceName" origin)) id)
          ∷ actions))

  -- The loop over the relationships, with the layers and the tables that have an action
  unfoldable pub related_loop : List Relationship → List ℤ → List (List ℕ) → Result (List Action)
  unfolding named_layer derived_table_name add_related int_le
  related_loop [] seen tables = ok []
  related_loop (r ∷ rs) seen tables =
      let id = r.destination_layer_id in
      let skipped = related_loop rs seen tables in
      let rest : List ℕ → Result (List Action) =
        λ table. related_loop rs (id ∷ seen) (table ∷ tables) in
      if any (same_int id) seen
      then skipped
      else then_result (derived_table_name (named_layer named id) id)
          (λ table. add_related id tables table rest)

abbrev pub text_codes : Json → Option (List ℕ)
text_codes (str s) = some (codes s)
text_codes _ = none

unfoldable pub expand_at : Json → Json → ℤ → Option (List ℕ) → Result (List Action)
unfolding relationship_records name_layers related_loop as_mapping is_server_table show_int get
    members
expand_at origin catalog id none = refuse
expand_at origin catalog id (some table) =
    let service = as_mapping (get "service" catalog) in
    let named = name_layers (members (get "layers" service) ++ members (get "tables" service)) [] in
    let document = as_mapping (get (show_int id) (as_mapping (get "layers" catalog))) in
    let relationships = relationship_records id document in
    if is_server_table table
    then then_result (related_loop origin named relationships (id ∷ []) (table ∷ []))
        (λ actions. ok (origin_action origin id table relationships ∷ actions))
    else refuse

abbrev pub expand_for : Json → Json → Option ℤ → Result (List Action)
expand_for origin catalog none = refuse
expand_for origin catalog (some id) =
    expand_at origin catalog id (text_codes (get "tableName" origin))

-- `origin` has the keys that the plan command sets.
unfoldable pub expand_service_plan : Json → Json → Result (List Action)
unfolding expand_at get
expand_service_plan origin catalog = expand_for origin catalog (int? (get "layerId" origin))
