-- ===== src/Verdict/Rationale.antt =====
-- verdict/engine.py: the lines of `_rationale`, by the two lists of the signals that it reads.
use honua_migrate.Base.{
  Bool, List, [], ◌∷◌, ◌++◌, String, ◌<>◌, ◌==◌, string_eq, nat_eq, keep, map, if◌then◌else◌,
  is_empty,
}
use honua_migrate.Verdict.Registry.{CapabilityEntry, Tier, go, conditional, no_go, tier_rank}
use honua_migrate.Verdict.Detect.{join}

-- `_ADVANCED_ROLE_NOTES.get(role, …)`
unfoldable pub role_note : String → String
unfolding string_eq
role_note role =
    if role == "geoevent"
    then "GeoEvent real-time ingestion has no drop-in Honua equivalent."
    else if role == "geoanalytics"
    then "GeoAnalytics distributed processing must be re-platformed."
    else if role == "notebook"
    then "Notebook Server automation is re-authored, not transferred."
    else if role == "knowledge"
    then "Knowledge Server graph stores need a bespoke migration path."
    else (role <> " role changes the migration story.")

abbrev verdict_line : Tier → String
verdict_line go = "All detected capabilities for this profile are first-class supported."
verdict_line conditional =
    "Migratable with caveats; one or more capabilities have partial fidelity."
verdict_line no_go = "Blocked by a hard Esri lock-in; federate-only or no-go for this profile."

-- A line around a list of texts, where there are any
abbrev listing : String → List String → String → List String
listing before [] after = []
listing before (s ∷ ss) after = (before <> (join ", " (s ∷ ss) <> after)) ∷ []

abbrev labels : (CapabilityEntry → Bool) → List CapabilityEntry → List String
labels test entries = map (λ e. e.label) (keep test entries)

unfoldable pub rationale : Tier → List CapabilityEntry → List String → List String → List String
unfolding join role_note nat_eq
rationale verdict entries kinds roles =
    verdict_line verdict
    ∷ (listing "Hard lock-ins present: " (labels (λ e. e.hard_lock_in) entries) "."
        ++ (listing "Supported: " (labels (λ e. tier_rank e.tier == 0) entries) "."
            ++ (listing "Conditional fidelity: " (labels (λ e. tier_rank e.tier == 1) entries) "."
                ++ ((if is_empty entries
                      then "No capabilities for this profile were detected in the footprint." ∷ []
                      else [])
                    ++ (listing "Non-feature/map service breadth detected: " kinds
                          " (widens migration effort beyond capability tiers)."
                        ++ listing "Federated advanced server roles present: " roles
                            (". " <> join " " (map role_note roles)))))))
