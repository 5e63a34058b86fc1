-- ===== src/Verdict/Profile.antt =====
-- verdict/engine.py: the verdict, the effort and the boundaries of one shop profile.
use honua_migrate.Base.{
  ℕ, ◌+◌, Bool, true, ◌&&◌, ◌||◌, not, List, [], ◌∷◌, String, ◌==◌, string_eq, nat_eq, contains,
  keep, map, if◌then◌else◌, Option, ltb, leb, is_empty, count_if,
}
use honua_migrate.Base.Sort.{sorted}
use honua_migrate.Base.Text.{codes, codes_le, lower}
use honua_migrate.Verdict.Registry.{CapabilityEntry, Tier, go, no_go, tier_rank}
use honua_migrate.Verdict.Rationale.{rationale}
use honua_migrate.Verdict.Detect.{LockInExtent, Extents, extent_of, enriched_detail}

pub data Effort : Type 0 where
  low moderate high very_high : Effort

-- `EFFORT_BANDS.index` and `EFFORT_BANDS[min(i, 3)]`
abbrev pub band_index : Effort → ℕ
band_index low = 0
band_index moderate = 1
band_index high = 2
band_index very_high = 3

unfoldable pub effort_band_at : ℕ → Effort
effort_band_at i =
    if i == 0 then low else if i == 1 then moderate else if i == 2 then high else very_high

pub record SignalSummary : Type 0 where
  pub non_feature_map_service_kinds : List String
  pub advanced_roles : List String
  pub usage_ranked : Bool

pub record Boundary : Type 0 where
  pub key : String
  pub label : String
  pub tier : Tier
  pub hard_lock_in : Bool
  pub detail : String
  pub extent : Option LockInExtent

abbrev pub is_relevant : String → CapabilityEntry → Bool
is_relevant profile entry =
    (is_empty entry.profiles || contains entry.profiles profile) || entry.hard_lock_in

unfoldable pub entries_for_profile : String → List CapabilityEntry → List CapabilityEntry
entries_for_profile profile = keep (is_relevant profile)

-- `max(…, key=…)` keeps the first of the worst.
unfoldable pub worst_tier : Tier → List CapabilityEntry → Tier
worst_tier t [] = t
worst_tier t (e ∷ es) = worst_tier (if ltb (tier_rank t) (tier_rank e.tier) then e.tier else t) es

unfoldable pub verdict_for_entries : List CapabilityEntry → Tier
unfolding worst_tier
verdict_for_entries [] = go
verdict_for_entries (e ∷ es) = worst_tier e.tier es

abbrev pub is_conditional : CapabilityEntry → Bool
is_conditional e = tier_rank e.tier == 1

abbrev pub lift_of : List String → ℕ
lift_of signals = if is_empty signals then 0 else 1

base_band : ℕ → ℕ
base_band n = if n == 0 then 0 else if leb n 2 then 1 else 2

unfoldable pub effort_band : List CapabilityEntry → Tier → SignalSummary → Effort
unfolding effort_band_at base_band nat_eq
effort_band entries no_go signals = very_high
effort_band entries _ signals = effort_band_at (
    base_band (count_if is_conditional entries)
    + (lift_of signals.non_feature_map_service_kinds + lift_of signals.advanced_roles))

unfoldable pub boundary_of : Extents → CapabilityEntry → Boundary
unfolding extent_of enriched_detail
boundary_of extents e = record {
  key = e.key;
  label = e.label;
  tier = e.tier;
  hard_lock_in = e.hard_lock_in;
  detail = enriched_detail e (extent_of e.key extents);
  extent = extent_of e.key extents;
}

abbrev pub has_boundary : CapabilityEntry → Bool
has_boundary e = not (tier_rank e.tier == 0) && not (e.boundary == "")

abbrev pub lock_in_rank : Boundary → ℕ
lock_in_rank b = if b.hard_lock_in then 0 else 1

-- Hard lock-ins first, then the more severe tier, then the lowered label.
unfoldable pub boundary_le : Boundary → Boundary → Bool
unfolding codes_le lower
boundary_le a b =
    ltb (lock_in_rank a) (lock_in_rank b)
    || (lock_in_rank a == lock_in_rank b
        && (ltb (tier_rank b.tier) (tier_rank a.tier)
            || (tier_rank a.tier == tier_rank b.tier
                && codes_le (map lower (codes a.label)) (map lower (codes b.label)))))

unfoldable pub boundaries : List CapabilityEntry → Extents → List Boundary
unfolding boundary_of boundary_le nat_eq
boundaries entries extents =
    sorted boundary_le (map (boundary_of extents) (keep has_boundary entries))

pub record ProfileVerdict : Type 0 where
  pub profile : String
  pub verdict : Tier
  pub effort : Effort
  pub boundary_list : List Boundary
  pub matched_capabilities : List String
  pub rationale_lines : List String

-- The body of the loop of `evaluate`
unfoldable pub profile_verdict :
    List CapabilityEntry → Extents → SignalSummary → String → ProfileVerdict
unfolding entries_for_profile verdict_for_entries effort_band boundaries rationale
profile_verdict detected extents signals profile =
    let entries = entries_for_profile profile detected in
    let verdict = verdict_for_entries entries in
    record {
      profile = profile;
      verdict = verdict;
      effort = effort_band entries verdict signals;
      boundary_list = boundaries entries extents;
      matched_capabilities = map (λ e. e.key) entries;
      rationale_lines =
          rationale verdict entries signals.non_feature_map_service_kinds signals.advanced_roles;
    }

-- The hard lock-ins of the whole footprint.
unfoldable pub hard_lock_ins : List CapabilityEntry → Extents → List Boundary
unfolding boundary_of
hard_lock_ins detected extents =
    map (λ e. record (boundary_of extents e) { hard_lock_in = true })
      (keep (λ e. e.hard_lock_in) detected)
