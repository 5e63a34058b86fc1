-- ===== src/Caps/Crosswalk.antt =====
-- caps/crosswalk.py: a crosswalk from the keys of the registry to capability keys.
use honua_migrate.Base.{
  not, List, [], ◌∷◌, String, ◌==◌, string_eq, contains, keep, map, if◌then◌else◌, Option, none,
  some,
}
use honua_migrate.Base.Sort.{sorted}
use honua_migrate.Base.Text.{text_le}
use honua_migrate.Json.{Json, Fields, Items, null, str, arr, obj, end, field, get, text?, nil, cons}
use honua_migrate.Verdict.Registry.{capability_registry}

-- `CrosswalkError`, by what was wrong
pub data CrosswalkError : Type 0 where
  no_object no_schema_version no_source no_crosswalks no_registry_mapping : CrosswalkError
  unknown_keys : List String → CrosswalkError
  bad_entry : String → CrosswalkError

pub data Parsed (A : Type 0) : Type 0 where
  parsed : A → Parsed A
  refused : CrosswalkError → Parsed A

-- A key's capability keys, and `none` where it is not supported.
abbrev pub Mapping : Type 0
Mapping = List (String × Option (List String))

pub record Crosswalk : Type 0 where
  pub schema_version : String
  pub source : String
  pub mapping : Mapping

unfoldable pub lookup : Mapping → String → Option (List String)
unfolding string_eq
lookup [] key = some []
lookup ((k, v) ∷ m) key = if k == key then v else lookup m key

unfoldable pub capability_keys_for : Crosswalk → String → Option (List String)
unfolding lookup
capability_keys_for crosswalk key = lookup crosswalk.mapping key

abbrev pub registry_keys : List String
registry_keys = map (λ e. e.key) capability_registry

abbrev pub field_names : Fields → List String
field_names end = []
field_names (field k v fs) = k ∷ field_names fs

abbrev pub with_text : String → Option (List String) → Option (List String)
with_text s none = none
with_text s (some ss) = some (s ∷ ss)

-- The texts of a list, where all are.
unfoldable pub all_texts : Items → Option (List String)
all_texts nil = some []
all_texts (cons (str s) xs) = with_text s (all_texts xs)
all_texts (cons _ xs) = none

abbrev pub listed : Option (List String) → Option (Option (List String))
listed none = none
listed (some ss) = some (some ss)

-- One entry: `null`, a list of texts, or neither.
unfoldable pub entry_value : Json → Option (Option (List String))
unfolding all_texts
entry_value null = some none
entry_value (arr xs) = listed (all_texts xs)
entry_value _ = none

abbrev pub with_entry : String → Option (Option (List String)) → Parsed Mapping → Parsed Mapping
with_entry k none rest = refused (bad_entry k)
with_entry k (some v) (refused e) = refused e
with_entry k (some v) (parsed m) = parsed ((k, v) ∷ m)

-- The loop over the items of the mapping; the first bad entry is the one reported.
unfoldable pub parse_entries : Fields → Parsed Mapping
unfolding entry_value
parse_entries end = parsed []
parse_entries (field k v fs) = with_entry k (entry_value v) (parse_entries fs)

abbrev pub crosswalk_with : String → String → Parsed Mapping → Parsed Crosswalk
crosswalk_with version source (refused e) = refused e
crosswalk_with version source (parsed m) =
    parsed (record { schema_version = version; source = source; mapping = m })

unfoldable pub unknown_among : Fields → List String
unfolding string_eq text_le
unknown_among fs = sorted text_le (keep (λ k. not (contains registry_keys k)) (field_names fs))

abbrev pub if_known : List String → Parsed Crosswalk → Parsed Crosswalk
if_known [] result = result
if_known (k ∷ ks) result = refused (unknown_keys (k ∷ ks))

unfoldable pub parse_mapping : String → String → Json → Parsed Crosswalk
unfolding unknown_among parse_entries
parse_mapping version source (obj fs) =
    if_known (unknown_among fs) (crosswalk_with version source (parse_entries fs))
parse_mapping version source _ = refused no_registry_mapping

abbrev pub parse_crosswalks : String → String → Json → Parsed Crosswalk
parse_crosswalks version source crosswalks = elim crosswalks [
  | obj fs ↦ parse_mapping version source (get "esriAssessRegistry" (obj fs))
  | _ ↦ refused no_crosswalks
]

abbrev pub parse_fields : Option String → Option String → Json → Parsed Crosswalk
parse_fields none source crosswalks = refused no_schema_version
parse_fields (some version) none crosswalks = refused no_source
parse_fields (some version) (some source) crosswalks = parse_crosswalks version source crosswalks

unfoldable pub parse_crosswalk : Json → Parsed Crosswalk
unfolding parse_mapping get
parse_crosswalk (obj fs) =
    parse_fields (text? (get "schemaVersion" (obj fs))) (text? (get "source" (obj fs)))
      (get "crosswalks" (obj fs))
parse_crosswalk _ = refused no_object
