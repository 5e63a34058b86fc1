-- ===== src/Verdict/Registry.antt =====
-- honua_esri_assess/verdict/registry.py: tiers, profiles, the capability registry and its test of
-- an inventory item. A frozen set is the list of its members.
use honua_migrate.Base.{
  ℕ, Bool, true, false, ◌&&◌, ◌||◌, not, List, [], ◌∷◌, String, ◌==◌, string_eq, contains, any,
  is_empty, keep, map, ◌++◌,
}
use honua_migrate.Base.Text.{codes, strip, lower, split_commas, same_codes}
use honua_migrate.Json.{Json, str, get, members, type_text}

pub data Tier : Type 0 where
  go conditional no_go : Tier

-- `TIER_RANK`
abbrev pub tier_rank : Tier → ℕ
tier_rank go = 0
tier_rank conditional = 1
tier_rank no_go = 2

abbrev pub shop_profiles : List String
shop_profiles =
    "web-map-and-services" ∷ "editing-heavy" ∷ "raster/imagery" ∷ "3d" ∷ "utility" ∷ "gov" ∷ []

pub record CapabilityEntry : Type 0 where
  pub key : String
  pub label : String
  pub tier : Tier
  pub portal_types : List String
  pub server_types : List String
  pub capability_tokens : List String
  pub hard_lock_in : Bool
  pub boundary : String
  pub profiles : List String

abbrev web_map : CapabilityEntry
web_map = record {
  key = "web-map";
  label = "Web maps";
  tier = go;
  portal_types = "Web Map" ∷ "Web Scene" ∷ [];
  server_types = [];
  capability_tokens = [];
  hard_lock_in = false;
  boundary = "";
  profiles = "gov" ∷ "web-map-and-services" ∷ [];
}

abbrev pub feature_service : CapabilityEntry
feature_service = record {
  key = "feature-service";
  label = "Hosted feature services";
  tier = go;
  portal_types = "Feature Service" ∷ [];
  server_types = "FeatureServer" ∷ [];
  capability_tokens = [];
  hard_lock_in = false;
  boundary = "";
  profiles = "editing-heavy" ∷ "gov" ∷ "web-map-and-services" ∷ [];
}

abbrev map_service : CapabilityEntry
map_service = record {
  key = "map-service";
  label = "Map services";
  tier = go;
  portal_types = [];
  server_types = "MapServer" ∷ [];
  capability_tokens = [];
  hard_lock_in = false;
  boundary = "";
  profiles = "gov" ∷ "web-map-and-services" ∷ [];
}

abbrev vector_tiles : CapabilityEntry
vector_tiles = record {
  key = "vector-tiles";
  label = "Vector tile services";
  tier = go;
  portal_types = "Vector Tile Service" ∷ [];
  server_types = "VectorTileServer" ∷ [];
  capability_tokens = [];
  hard_lock_in = false;
  boundary = "";
  profiles = "web-map-and-services" ∷ [];
}

abbrev editing : CapabilityEntry
editing = record {
  key = "editing";
  label = "Feature editing / sync";
  tier = go;
  portal_types = [];
  server_types = [];
  capability_tokens = "create" ∷ "delete" ∷ "editing" ∷ "sync" ∷ "update" ∷ [];
  hard_lock_in = false;
  boundary = "";
  profiles = "editing-heavy" ∷ [];
}

abbrev pub image_service : CapabilityEntry
image_service = record {
  key = "image-service";
  label = "Image services / raster";
  tier = conditional;
  portal_types = "Image Service" ∷ [];
  server_types = "ImageServer" ∷ [];
  capability_tokens = "image" ∷ [];
  hard_lock_in = false;
  boundary =
      "Raster/imagery services migrate with conditional fidelity; mosaic dataset rules and on-the-fly raster functions need review.";
  profiles = "raster/imagery" ∷ [];
}

abbrev scene_service : CapabilityEntry
scene_service = record {
  key = "scene-service";
  label = "3D scene layers";
  tier = conditional;
  portal_types = "Scene Layer Package" ∷ "Scene Service" ∷ [];
  server_types = "SceneServer" ∷ [];
  capability_tokens = [];
  hard_lock_in = false;
  boundary =
      "3D scene layers migrate conditionally; integrated mesh and building scene layer (BSL) fidelity needs case-by-case review.";
  profiles = "3d" ∷ [];
}

abbrev survey123 : CapabilityEntry
survey123 = record {
  key = "survey123";
  label = "Survey123 forms";
  tier = conditional;
  portal_types = "Form" ∷ "Survey123 Form" ∷ [];
  server_types = [];
  capability_tokens = [];
  hard_lock_in = false;
  boundary =
      "Survey123 forms need form-logic re-authoring; submissions migrate as feature data but the form runtime does not.";
  profiles = "editing-heavy" ∷ "gov" ∷ [];
}

abbrev dashboards_apps : CapabilityEntry
dashboards_apps = record {
  key = "dashboards-apps";
  label = "Dashboards and web apps";
  tier = conditional;
  portal_types = "Dashboard" ∷ "Experience" ∷ "Web Experience" ∷ "Web Mapping Application" ∷ [];
  server_types = [];
  capability_tokens = [];
  hard_lock_in = false;
  boundary =
      "Dashboards and configurable apps need rebuild on Honua app surfaces; data migrates but app configuration is re-authored.";
  profiles = "gov" ∷ "web-map-and-services" ∷ [];
}

abbrev geocoding : CapabilityEntry
geocoding = record {
  key = "geocoding";
  label = "Geocoding / locator services";
  tier = conditional;
  portal_types = "Geocoding Service" ∷ "Locator Package" ∷ [];
  server_types = "GeocodeServer" ∷ [];
  capability_tokens = [];
  hard_lock_in = false;
  boundary =
      "Locators are re-pointed to a Honua-supported geocoder; custom address locators need rebuild.";
  profiles = "gov" ∷ [];
}

abbrev geoprocessing : CapabilityEntry
geoprocessing = record {
  key = "geoprocessing";
  label = "Geoprocessing services";
  tier = conditional;
  portal_types = "Geoprocessing Service" ∷ [];
  server_types = "GPServer" ∷ [];
  capability_tokens = [];
  hard_lock_in = false;
  boundary = "Geoprocessing models are re-authored; published GP tasks do not transfer as-is.";
  profiles = [];
}

abbrev pub utility_network : CapabilityEntry
utility_network = record {
  key = "utility-network";
  label = "Utility Network";
  tier = no_go;
  portal_types = "Trace Network" ∷ "Utility Network" ∷ [];
  server_types = "UtilityNetworkServer" ∷ [];
  capability_tokens = "utilitynetwork" ∷ "utilitynetworkversionmanagement" ∷ [];
  hard_lock_in = true;
  boundary =
      "Utility Network is a hard Esri lock-in: the network topology, rules, and trace engine do not migrate. Federate-only or no-go.";
  profiles = "utility" ∷ [];
}

abbrev parcel_fabric : CapabilityEntry
parcel_fabric = record {
  key = "parcel-fabric";
  label = "Parcel Fabric";
  tier = no_go;
  portal_types = "Parcel Fabric" ∷ [];
  server_types = "ParcelFabricServer" ∷ [];
  capability_tokens = "parcelfabric" ∷ [];
  hard_lock_in = true;
  boundary =
      "Parcel Fabric is a hard Esri lock-in: the fabric topology and record lineage do not migrate. Parcels move as features only. Federate-only or no-go.";
  profiles = "gov" ∷ [];
}

abbrev pub lrs : CapabilityEntry
lrs = record {
  key = "lrs";
  label = "Linear Referencing (LRS)";
  tier = no_go;
  portal_types = "LRS Network" ∷ "Roads and Highways" ∷ [];
  server_types = "LRServer" ∷ [];
  capability_tokens = "linearreferencing" ∷ "locationreferencing" ∷ "lrs" ∷ [];
  hard_lock_in = true;
  boundary =
      "Linear Referencing System (LRS) is a hard Esri lock-in: route/measure calibration and event behaviors do not migrate. Federate-only or no-go.";
  profiles = "gov" ∷ "utility" ∷ [];
}

abbrev pub capability_registry : List CapabilityEntry
capability_registry =
    web_map ∷ feature_service ∷ map_service ∷ vector_tiles ∷ editing ∷ image_service ∷ scene_service
    ∷ survey123 ∷ dashboards_apps ∷ geocoding ∷ geoprocessing ∷ utility_network ∷ parcel_fabric
    ∷ lrs ∷ []

-- `part.strip().lower()` of each piece, the empty ones left out.
token_of : List ℕ → List ℕ
token_of part = map lower (strip part)

text_tokens : Json → List (List ℕ)
unfolding token_of
text_tokens (str s) = keep (λ t. not (is_empty t)) (token_of (codes s) ∷ [])
text_tokens _ = []

part_tokens : List Json → List (List ℕ)
unfolding text_tokens
part_tokens [] = []
part_tokens (x ∷ xs) = text_tokens x ++ part_tokens xs

-- `_item_capability_tokens`, of the value under `capabilities`.
unfoldable pub capability_tokens_of : Json → List (List ℕ)
unfolding token_of part_tokens strip lower split_commas members
capability_tokens_of (str s) = keep (λ t. not (is_empty t)) (map token_of (split_commas (codes s)))
capability_tokens_of raw = part_tokens (members raw)

unfoldable pub has_token : List String → List (List ℕ) → Bool
unfolding same_codes
has_token tokens found = any (λ t. any (λ name. same_codes (codes name) t) tokens) found

unfoldable pub is_kind : String → Json → Bool
unfolding get
is_kind kind item = type_text (get "kind" item) == kind

unfoldable pub matches : CapabilityEntry → Json → Bool
unfolding is_kind has_token capability_tokens_of get
matches entry item =
    (is_kind "portal-item" item && contains entry.portal_types (type_text (get "type" item)))
    || (is_kind "server-service" item
        && contains entry.server_types (type_text (get "serviceType" item)))
    || has_token entry.capability_tokens (capability_tokens_of (get "capabilities" item))
