-- ===== src/Footprint/Binding.antt =====
-- footprint/binding.py: binding modes by storage type, and services ranked by their use.
use honua_migrate.Base.{
  ℕ, suc, Bool, not, ◌&&◌, ◌||◌, List, [], ◌∷◌, String, ◌==◌, nat_eq, keep, map, if◌then◌else◌,
}
use honua_migrate.Base.Int.{ℤ, pos, int_le}
use honua_migrate.Base.Sort.{sorted}
use honua_migrate.Base.Text.{codes, strip, lower, same_codes, text_le}
use honua_migrate.Json.{Json, Items, str, int, arr, obj, nil, cons, end, field}

pub data BindingMode : Type 0 where
  federate connect_in_place materialize : BindingMode

pub data ConnectionKind : Type 0 where
  enterprise_geodatabase relational cloud_store file_share object_store big_data_file_share
        unknown :
      ConnectionKind

abbrev pub type_to_connection_kind : List (String × ConnectionKind)
type_to_connection_kind =
    ("egdb", enterprise_geodatabase)
    ∷ ("enterprisegeodatabase", enterprise_geodatabase)
    ∷ ("enterprise-geodatabase", enterprise_geodatabase)
    ∷ ("relational", relational)
    ∷ ("rdbms", relational)
    ∷ ("database", relational)
    ∷ ("cloudstore", cloud_store)
    ∷ ("cloud-store", cloud_store)
    ∷ ("cloud", cloud_store)
    ∷ ("objectstore", object_store)
    ∷ ("object-store", object_store)
    ∷ ("folder", file_share)
    ∷ ("fileshare", file_share)
    ∷ ("file-share", file_share)
    ∷ ("filegdb", file_share)
    ∷ ("filegeodatabase", file_share)
    ∷ ("shapefile", file_share)
    ∷ ("bigdatafileshare", big_data_file_share)
    ∷ ("big-data-file-share", big_data_file_share)
    ∷ ("bds", big_data_file_share)
    ∷ []

unfoldable pub kind_in : List (String × ConnectionKind) → List ℕ → ConnectionKind
unfolding same_codes
kind_in [] t = unknown
kind_in ((name, kind) ∷ kinds) t = if same_codes (codes name) t then kind else kind_in kinds t

-- The type with its spaces at the ends, its capitals, and its underscores and spaces taken off
unfoldable pub normalized : String → List ℕ
unfolding strip lower nat_eq
normalized t = keep (λ c. not (c == b'_') && not (c == b' ')) (map lower (strip (codes t)))

unfoldable pub connection_kind_for_type : String → ConnectionKind
unfolding kind_in normalized
connection_kind_for_type t = kind_in type_to_connection_kind (normalized t)

unfoldable pub binding_mode_for_connection : ConnectionKind → BindingMode
binding_mode_for_connection enterprise_geodatabase = federate
binding_mode_for_connection relational = federate
binding_mode_for_connection cloud_store = connect_in_place
binding_mode_for_connection object_store = connect_in_place
binding_mode_for_connection big_data_file_share = connect_in_place
binding_mode_for_connection file_share = materialize
binding_mode_for_connection unknown = materialize

pub record DatastoreRegistration : Type 0 where
  pub item_id : String
  pub type : String
  pub connection_kind : ConnectionKind

pub record DatasetBinding : Type 0 where
  pub dataset_id : String
  pub storage_type : String
  pub connection_kind : ConnectionKind
  pub binding_mode : BindingMode

unfoldable pub recommend_binding : DatastoreRegistration → DatasetBinding
unfolding binding_mode_for_connection
recommend_binding r = record {
  dataset_id = r.item_id;
  storage_type = r.type;
  connection_kind = r.connection_kind;
  binding_mode = binding_mode_for_connection r.connection_kind;
}

-- The items of the dictionary of requests
abbrev pub Usage : Type 0
Usage = List (String × ℤ)

pub record UsageRankedService : Type 0 where
  pub service : String
  pub requests : ℤ
  pub rank : ℕ

-- More requests first, and by name where they are as many.
unfoldable pub usage_le : String × ℤ → String × ℤ → Bool
unfolding int_le text_le
usage_le (s, n) (t, m) = not (int_le n m) || (int_le m n && text_le s t)

unfoldable pub ranked_from : ℕ → Usage → List UsageRankedService
ranked_from n [] = []
ranked_from n ((s, requests) ∷ usage) =
    record { service = s; requests = requests; rank = n } ∷ ranked_from (suc n) usage

unfoldable pub rank_services_by_usage : Usage → List UsageRankedService
unfolding ranked_from usage_le
rank_services_by_usage usage = ranked_from 1 (sorted usage_le usage)

pub record BindingPlan : Type 0 where
  pub usage_ranked_services : List UsageRankedService
  pub dataset_bindings : List DatasetBinding

unfoldable pub build_binding_plan : Usage → List DatastoreRegistration → BindingPlan
unfolding rank_services_by_usage recommend_binding
build_binding_plan usage registrations = record {
  usage_ranked_services = rank_services_by_usage usage;
  dataset_bindings = map recommend_binding registrations;
}

abbrev pub connection_text : ConnectionKind → String
connection_text enterprise_geodatabase = "enterprise-geodatabase"
connection_text relational = "relational"
connection_text cloud_store = "cloud-store"
connection_text file_share = "file-share"
connection_text object_store = "object-store"
connection_text big_data_file_share = "big-data-file-share"
connection_text unknown = "unknown"

abbrev pub mode_text : BindingMode → String
mode_text federate = "federate"
mode_text connect_in_place = "connect-in-place"
mode_text materialize = "materialize"

-- `to_dict` of a service, of a binding and of the plan
abbrev pub service_dict : UsageRankedService → Json
service_dict s = obj (
    field "service" (str s.service)
      (field "requests" (int s.requests) (field "rank" (int (pos s.rank)) end)))

abbrev pub binding_dict : DatasetBinding → Json
binding_dict b = obj (
    field "datasetId" (str b.dataset_id) (
      field "storageType" (str b.storage_type) (
        field "connectionKind" (str (connection_text b.connection_kind))
          (field "bindingMode" (str (mode_text b.binding_mode)) end))))

abbrev pub services_json : List UsageRankedService → Items
services_json [] = nil
services_json (s ∷ ss) = cons (service_dict s) (services_json ss)

abbrev pub bindings_json : List DatasetBinding → Items
bindings_json [] = nil
bindings_json (b ∷ bs) = cons (binding_dict b) (bindings_json bs)

abbrev pub plan_dict : BindingPlan → Json
plan_dict p = obj (
    field "usageRankedServices" (arr (services_json p.usage_ranked_services))
      (field "datasetBindings" (arr (bindings_json p.dataset_bindings)) end))
