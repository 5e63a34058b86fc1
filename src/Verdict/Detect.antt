-- ===== src/Verdict/Detect.antt =====
-- verdict/engine.py: the inventory, the detected capabilities, and the extents of lock-ins.
use honua_migrate.Base.{
  ℕ, ◌+◌, List, [], ◌∷◌, ◌++◌, String, ◌<>◌, ◌==◌, string_eq, contains, any, keep, if◌then◌else◌,
  Option, none, some, ltb,
}
use honua_migrate.Base.Int.{ℤ, pos, ◌+ℤ◌}
use honua_migrate.Base.Decimal.{show_nat, show_int}
use honua_migrate.Json.{Json, get, members, is_mapping, text?, int?}
use honua_migrate.Verdict.Registry.{CapabilityEntry, matches}

unfoldable pub inventory_items : Json → List Json
unfolding get members
inventory_items footprint = keep is_mapping (members (get "inventory" footprint))

-- The loop of `_detected_entries`, over any registry.
unfoldable pub detect : List CapabilityEntry → List Json → List String → List CapabilityEntry
detect [] items seen = []
detect (entry ∷ entries) items seen =
    let skip = detect entries items seen in
    let take = entry ∷ detect entries items (entry.key ∷ seen) in
    if contains seen entry.key then skip else if any (matches entry) items then take else skip

unfoldable pub detected_entries : List CapabilityEntry → Json → List CapabilityEntry
unfolding detect inventory_items
detected_entries registry footprint = detect registry (inventory_items footprint) []

pub record LockInExtent : Type 0 where
  pub services : ℕ
  pub feature_class_count : Option ℤ
  pub domain_network_count : Option ℤ
  pub rule_count : Option ℤ
  pub network_count : Option ℤ

abbrev pub no_extent : LockInExtent
no_extent = record {
  services = 0;
  feature_class_count = none;
  domain_network_count = none;
  rule_count = none;
  network_count = none;
}

-- `acc[dst] = acc.get(dst, 0) + value` for a value that is an integer.
unfoldable pub add_count : Option ℤ → Option ℤ → Option ℤ
unfolding ◌+ℤ◌
add_count acc none = acc
add_count none (some n) = some (pos 0 +ℤ n)
add_count (some m) (some n) = some (m +ℤ n)

unfoldable pub add_lock_in : LockInExtent → Json → LockInExtent
unfolding add_count get
add_lock_in acc lock_in = record {
  services = acc.services + 1;
  feature_class_count = add_count acc.feature_class_count (int? (get "featureClassCount" lock_in));
  domain_network_count =
      add_count acc.domain_network_count (int? (get "domainNetworkCount" lock_in));
  rule_count = add_count acc.rule_count (int? (get "ruleCount" lock_in));
  network_count = add_count acc.network_count (int? (get "networkCount" lock_in));
}

abbrev pub Extents : Type 0
Extents = List (String × LockInExtent)

unfoldable pub extent_of : String → Extents → Option LockInExtent
extent_of k [] = none
extent_of k ((j, e) ∷ es) = if j == k then some e else extent_of k es

-- `setdefault` and the additions to the accumulator found.
unfoldable pub accumulate : String → Json → Extents → Extents
unfolding add_lock_in
accumulate k lock_in [] = (k, add_lock_in no_extent lock_in) ∷ []
accumulate k lock_in ((j, e) ∷ es) =
    if j == k then (j, add_lock_in e lock_in) ∷ es else (j, e) ∷ accumulate k lock_in es

-- The lock-ins that count: mappings whose type is a text, and not the empty one.
abbrev pub lock_in_type : Json → Option String
lock_in_type lock_in = if is_mapping lock_in then text? (get "type" lock_in) else none

abbrev pub count_lock_in : Option String → Json → Extents → Extents
count_lock_in none lock_in acc = acc
count_lock_in (some k) lock_in acc = accumulate k lock_in acc

unfoldable pub add_lock_ins : List Json → Extents → Extents
unfolding accumulate get
add_lock_ins [] acc = acc
add_lock_ins (l ∷ ls) acc = add_lock_ins ls (count_lock_in (lock_in_type l) l acc)

unfoldable pub item_lock_ins : List Json → List Json
unfolding get members
item_lock_ins [] = []
item_lock_ins (item ∷ items) = members (get "lockIns" item) ++ item_lock_ins items

unfoldable pub lock_in_extents : Json → Extents
unfolding add_lock_ins item_lock_ins inventory_items
lock_in_extents footprint = add_lock_ins (item_lock_ins (inventory_items footprint)) []

abbrev part : Option ℤ → String → List String
part none unit = []
part (some n) unit = (show_int n <> unit) ∷ []

unfoldable pub join : String → List String → String
join sep [] = ""
join sep (s ∷ []) = s
join sep (s ∷ t ∷ ts) = s <> (sep <> join sep (t ∷ ts))

unfoldable pub format_extent : String → LockInExtent → String
unfolding show_int join
format_extent key e = "Enumerated extent: " <> (join ", " (with_services parts) <> ".")
  where
    parts : List String
    parts =
        if key == "lrs"
        then part e.network_count " network(s)"
        else (part e.feature_class_count " feature class(es)"
            ++ (part e.domain_network_count " domain network(s)" ++ part e.rule_count " rule(s)"))

    with_services : List String → List String
    with_services [] = (show_nat e.services <> " service(s)") ∷ []
    with_services (p ∷ ps) =
        if ltb 1 e.services
        then (p ∷ ps) ++ (("across " <> (show_nat e.services <> " services")) ∷ [])
        else p ∷ ps

unfoldable pub enriched_detail : CapabilityEntry → Option LockInExtent → String
unfolding format_extent
enriched_detail entry none = entry.boundary
enriched_detail entry (some e) =
    if entry.boundary == ""
    then format_extent entry.key e
    else (entry.boundary <> (" " <> format_extent entry.key e))
