-- ===== src/Caps/Mapper.antt =====
-- caps/mapper.py: from the detected keys of the registry to capability keys.
use honua_migrate.Base.{
  ℕ, ◌+◌, Bool, List, [], ◌∷◌, ◌++◌, String, ◌==◌, string_eq, nat_eq, contains, map, count_if,
  if◌then◌else◌, Option, none, some, ltb,
}
use honua_migrate.Base.Sort.{sorted}
use honua_migrate.Base.Text.{text_le}
use honua_migrate.Json.{Json, get, members, is_mapping, type_text}
use honua_migrate.Verdict.Registry.{
  CapabilityEntry, Tier, go, tier_rank, matches, capability_registry,
}
use honua_migrate.Verdict.Detect.{inventory_items}
use honua_migrate.Caps.Crosswalk.{Crosswalk, capability_keys_for}

pub data Reason : Type 0 where
  unmapped_key not_supported : Reason

pub record CapabilityMatch : Type 0 where
  pub key : String
  pub assess_keys : List String
  pub matched_inventory_count : ℕ
  pub tier : Tier

pub record UnmappedCapability : Type 0 where
  pub assess_key : String
  pub matched_inventory_count : ℕ
  pub tier : Tier
  pub reason : Reason

pub record CapsResult : Type 0 where
  pub capabilities : List CapabilityMatch
  pub unmapped : List UnmappedCapability
  pub units_estimate : Option ℕ
  pub detected_assess_keys : List String

-- A key of the registry, with how many items match it and its tier.
pub record Detected : Type 0 where
  pub key : String
  pub count : ℕ
  pub tier : Tier

-- The two dictionaries as one list, the keys of the registry being distinct.
unfoldable pub detected_counts : List CapabilityEntry → List Json → List Detected
unfolding nat_eq
detected_counts [] items = []
detected_counts (entry ∷ entries) items =
    let rest = detected_counts entries items in
    let n = count_if (matches entry) items in
    if n == 0 then rest else record { key = entry.key; count = n; tier = entry.tier } ∷ rest

-- The servers of the federation, or 1 for the scan of one server, and no estimate of 0.
unfoldable pub units_of : Json → Option ℕ
unfolding get members string_eq nat_eq
units_of footprint =
    let servers =
      count_if is_mapping (members (get "servers" (get "federation" (get "portal" footprint)))) in
    if servers == 0
    then if type_text (get "kind" (get "source" footprint)) == "arcgis-server" then some 1 else none
    else some servers

-- A set's `add`
abbrev pub add_to : List String → String → List String
add_to ks k = if contains ks k then ks else ks ++ (k ∷ [])

-- The addition to a bucket that is there.
abbrev pub add_detected : Detected → CapabilityMatch → CapabilityMatch
add_detected d b = record {
  key = b.key;
  assess_keys = add_to b.assess_keys d.key;
  matched_inventory_count = b.matched_inventory_count + d.count;
  tier = if ltb (tier_rank b.tier) (tier_rank d.tier) then d.tier else b.tier;
}

abbrev pub empty_bucket : String → CapabilityMatch
empty_bucket key = record { key = key; assess_keys = []; matched_inventory_count = 0; tier = go }

-- `accum.setdefault(…)` and the addition to what it gives.
unfoldable pub add_to_bucket : Detected → String → List CapabilityMatch → List CapabilityMatch
unfolding string_eq
add_to_bucket d key [] = add_detected d (empty_bucket key) ∷ []
add_to_bucket d key (b ∷ bs) =
    if b.key == key then add_detected d b ∷ bs else b ∷ add_to_bucket d key bs

unfoldable pub add_to_buckets : Detected → List String → List CapabilityMatch → List CapabilityMatch
unfolding add_to_bucket
add_to_buckets d [] bs = bs
add_to_buckets d (key ∷ keys) bs = add_to_buckets d keys (add_to_bucket d key bs)

pub record Tally : Type 0 where
  pub accum : List CapabilityMatch
  pub unmapped : List UnmappedCapability

abbrev pub as_unmapped : Detected → Reason → UnmappedCapability
as_unmapped d reason = record {
  assess_key = d.key;
  matched_inventory_count = d.count;
  tier = d.tier;
  reason = reason;
}

-- One round of the loop, by what the crosswalk has.
unfoldable pub tally_one : Detected → Option (List String) → Tally → Tally
unfolding add_to_buckets
tally_one d none t = record {
  accum = t.accum;
  unmapped = t.unmapped ++ (as_unmapped d not_supported ∷ []);
}
tally_one d (some []) t = record {
  accum = t.accum;
  unmapped = t.unmapped ++ (as_unmapped d unmapped_key ∷ []);
}
tally_one d (some (key ∷ keys)) t = record {
  accum = add_to_buckets d (key ∷ keys) t.accum;
  unmapped = t.unmapped;
}

unfoldable pub tally : Crosswalk → List Detected → Tally → Tally
unfolding tally_one capability_keys_for
tally crosswalk [] t = t
tally crosswalk (d ∷ ds) t =
    tally crosswalk ds (tally_one d (capability_keys_for crosswalk d.key) t)

unfoldable pub capability_of : CapabilityMatch → CapabilityMatch
unfolding text_le
capability_of b = record b { assess_keys = sorted text_le b.assess_keys }

abbrev pub detected_le : Detected → Detected → Bool
detected_le a b = text_le a.key b.key

abbrev pub match_le : CapabilityMatch → CapabilityMatch → Bool
match_le a b = text_le a.key b.key

unfoldable pub evaluate_caps : Json → Crosswalk → CapsResult
unfolding detected_counts tally capability_of units_of inventory_items
evaluate_caps footprint crosswalk =
    let found =
      sorted detected_le (detected_counts capability_registry (inventory_items footprint)) in
    let t = tally crosswalk found (record { accum = []; unmapped = [] }) in
    record {
      capabilities = map capability_of (sorted match_le t.accum);
      unmapped = t.unmapped;
      units_estimate = units_of footprint;
      detected_assess_keys = map (λ d. d.key) found;
    }
