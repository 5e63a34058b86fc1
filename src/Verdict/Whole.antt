-- ===== src/Verdict/Whole.antt =====
-- The verdict of a whole footprint: it is always found, and a hard lock-in decides every profile.
use honua_migrate.Base.{
  ◌≡◌, ◌≢◌, refl, Bool, true, not, ◌&&◌, ◌||◌, List, [], ◌∷◌, String, Option, none, some, any, all,
  arith, In, All, all-In, All-map, Yields, string_eq, nat_eq, ◌==◌,
}
use honua_migrate.Json.{Json}
use honua_migrate.Report.Dependency.{dependency_edges, dependency_order}
use honua_migrate.Report.Ordered.{Ordered, dependency_order-Ordered}
use honua_migrate.Verdict.Registry.{
  CapabilityEntry, Tier, go, conditional, no_go, tier_rank, matches, capability_registry,
  shop_profiles,
}
use honua_migrate.Verdict.Detect.{inventory_items, detected_entries, lock_in_extents}
use honua_migrate.Verdict.Profile.{very_high, ProfileVerdict, profile_verdict, boundary_of}
use honua_migrate.Verdict.Signals.{
  MigrationStep, signals_of, migration_order, or_dependencies, numbered, usage_ranked_steps,
  verdict_with, with_steps, FootprintVerdict, evaluate,
}
use honua_migrate.Verdict.LockIns.{DistinctKeys, In-detected_entries, profile_verdict_lem}

abbrev sound : CapabilityEntry → Bool
sound e = not e.hard_lock_in || ((tier_rank e.tier == 2) && not (e.boundary == ""))

registry_sound : all sound capability_registry ≡ true
unfolding string_eq nat_eq
registry_sound = refl

pub registry-DistinctKeys : DistinctKeys [] capability_registry
unfolding string_eq
registry-DistinctKeys = (
  refl,
  (
    refl,
    (
      refl,
      (refl, (refl, (refl, (refl, (refl, (refl, (refl, (refl, (refl, (refl, (refl, tt))))))))))),
    ),
  ),
)

worst_rank : (t : Tier) → tier_rank t ≡ 2 → t ≡ no_go
worst_rank go h = let bad : ⊥ = omega (arith, h) in elim bad [ ]
worst_rank conditional h = let bad : ⊥ = omega (arith, h) in elim bad [ ]
worst_rank no_go h = refl

hard_entry :
    (e : CapabilityEntry)
    → In e capability_registry
    → e.hard_lock_in ≡ true
    → (e.tier ≡ no_go) × (e.boundary ≢ "")
hard_entry e m hard =
    let s : sound e ≡ true = all-In sound e capability_registry registry_sound m in
    (worst_rank e.tier (ground (arith, s, hard)), ground (arith, s, hard))

found_order : (footprint : Json) → Yields (λ order. Unit {0}) (dependency_order footprint)
found_order footprint = some_order (dependency_order footprint) (dependency_order-Ordered footprint)
  where
    some_order :
        (order : Option (List String))
        → Yields (Ordered (dependency_edges footprint)) order
        → Yields (λ order. Unit {0}) order
    some_order none h = h
    some_order (some order) h = tt

evaluate-Yields :
    (P : FootprintVerdict → Type 0) (footprint : Json)
    → ((steps : List MigrationStep) → P (verdict_with footprint steps))
    → Yields P (evaluate footprint)
unfolding evaluate migration_order
evaluate-Yields P footprint h =
    with_usage (usage_ranked_steps footprint) (dependency_order footprint) (found_order footprint)
  where
    with_usage :
        (usage : List MigrationStep) (order : Option (List String))
        → Yields (λ order. Unit {0}) order
        → Yields P (with_steps footprint (or_dependencies usage order))
    with_usage [] none none_found = none_found
    with_usage [] (some order) found = h (numbered 1 order)
    with_usage (u ∷ us) order found = h (u ∷ us)

-- Decided by the lock-in of an entry: no-go, at the highest effort, with the entry among the
-- capabilities and its boundary among the boundaries.
abbrev pub Decided : Json → CapabilityEntry → ProfileVerdict → Type 0
Decided footprint e v =
    (v.verdict ≡ no_go)
    × (v.effort ≡ very_high)
    × In e.key v.matched_capabilities
    × In (boundary_of (lock_in_extents footprint) e) v.boundary_list

-- The verdict of a footprint is always found, and where a mapping of its inventory matches a hard
-- lock-in of the registry, all the shop profiles have the verdict no-go, the highest effort, the
-- lock-in among their matched capabilities and its boundary, extent included, among their
-- boundaries; and the footprint's own list of hard lock-ins has the boundary too.
pub evaluate-Decided :
    (footprint : Json) (e : CapabilityEntry)
    → In e capability_registry
    → e.hard_lock_in ≡ true
    → any (matches e) (inventory_items footprint) ≡ true
    → Yields
        (λ v.
          All (Decided footprint e) v.profiles
          × In (boundary_of (lock_in_extents footprint) e) v.hard_lock_ins)
        (evaluate footprint)
unfolding verdict_with
evaluate-Decided footprint e listed hard found =
    let detected = detected_entries capability_registry footprint in
    let extents = lock_in_extents footprint in
    let seen : In e detected =
      (In-detected_entries capability_registry footprint e registry-DistinctKeys).1
        (listed, found) in
    let (tier, text) = hard_entry e listed hard in
    evaluate-Yields
      (λ v. All (Decided footprint e) v.profiles × In (boundary_of extents e) v.hard_lock_ins)
      footprint
      (λ steps.
        let signals = signals_of footprint steps in
        (
          All-map (Decided footprint e) (profile_verdict detected extents signals)
              (λ profile.
                let r =
                  profile_verdict_lem detected extents signals profile e seen hard tier text in
                (r.0, r.1, r.2, r.3))
              shop_profiles,
          (profile_verdict_lem detected extents signals "" e seen hard tier text).4,
        ))
