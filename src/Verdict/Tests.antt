-- ===== src/Verdict/Tests.antt =====
-- The verdict of a concrete footprint, and the theorems about it.
use honua_migrate.Base.{
  ◌≡◌, refl, ◌↔◌, inl, inr, ◌⊎◌, true, List, [], ◌∷◌, any, In, All, Yields, string_eq, nat_eq,
  option_eq,
}
use honua_migrate.Base.Int.{pos}
use honua_migrate.Base.Text.{lower, strip, split_commas, same_codes}
use honua_migrate.Json.{Json, str, int, arr, obj, nil, cons, end, field, get, members}
use honua_migrate.Verdict.Registry.{
  CapabilityEntry, conditional, matches, is_kind, has_token, capability_tokens_of,
  capability_registry, utility_network, image_service, feature_service, go,
}
use honua_migrate.Verdict.Detect.{
  inventory_items, detected_entries, lock_in_extents, extent_of, item_lock_ins,
}
use honua_migrate.Verdict.Profile.{boundary_of, verdict_for_entries, worst_tier}
use honua_migrate.Verdict.Signals.{evaluate}
use honua_migrate.Verdict.LockIns.{In-detected_entries}
use honua_migrate.Verdict.Worst.{Bounds, verdict_for_entries_worst}
use honua_migrate.Verdict.Extents.{of_type, total_extent, lock_in_extents-total_extent}
use honua_migrate.Verdict.Whole.{registry-DistinctKeys, Decided, evaluate-Decided}

abbrev network_service : Json
network_service = obj (
    field "kind" (str "server-service") (
      field "serviceType" (str "MapServer") (
        field "capabilities" (str "Query, UtilityNetwork ") (
          field "lockIns"
            (arr (
              cons
                (obj (field "type" (str "utility-network") (field "ruleCount" (int (pos 7)) end)))
                nil))
            end))))

abbrev town : Json
town = obj (field "inventory" (arr (cons network_service nil)) end)

network_found : any (matches utility_network) (inventory_items town) ≡ true
unfolding matches inventory_items string_eq lower strip split_commas same_codes is_kind has_token
    capability_tokens_of get members
network_found = refl

network_listed : In utility_network capability_registry
network_listed = inr (inr (inr (inr (inr (inr (inr (inr (inr (inr (inr (inl refl)))))))))))

evaluate-Decided_example :
    Yields
      (λ v.
        All (Decided town utility_network) v.profiles
        × In (boundary_of (lock_in_extents town) utility_network) v.hard_lock_ins)
      (evaluate town)
evaluate-Decided_example = evaluate-Decided town utility_network network_listed refl network_found

In-detected_entries_example : In utility_network (detected_entries capability_registry town) ↔ (
    In utility_network capability_registry
    × (any (matches utility_network) (inventory_items town) ≡ true))
In-detected_entries_example =
    In-detected_entries capability_registry town utility_network registry-DistinctKeys

abbrev three_entries : List CapabilityEntry
three_entries = feature_service ∷ image_service ∷ feature_service ∷ []

verdict_for_entries_worst_example :
    Bounds (verdict_for_entries three_entries) three_entries
    × (((three_entries ≡ []) × (verdict_for_entries three_entries ≡ go))
        ⊎ ((e : CapabilityEntry) × In e three_entries
            × (verdict_for_entries three_entries ≡ e.tier)))
verdict_for_entries_worst_example = verdict_for_entries_worst three_entries

image_conditional : verdict_for_entries three_entries ≡ conditional
unfolding verdict_for_entries worst_tier
image_conditional = refl

lock_in_extents-total_extent_example :
    extent_of "utility-network" (lock_in_extents town)
    ≡ total_extent (of_type "utility-network" (item_lock_ins (inventory_items town)))
lock_in_extents-total_extent_example = lock_in_extents-total_extent town "utility-network"
