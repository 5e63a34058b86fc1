-- ===== src/Verdict/Signals.antt =====
-- verdict/engine.py: the enriched signals, the recommended order, and the whole verdict.
use honua_migrate.Base.{
  ℕ, suc, Bool, true, false, ◌&&◌, ◌||◌, not, List, [], ◌∷◌, ◌++◌, String, string_eq, contains, any,
  keep, map, if◌then◌else◌, Option, none, some, distinct,
}
use honua_migrate.Base.Int.{ℤ, pos, int_le}
use honua_migrate.Base.Sort.{sorted}
use honua_migrate.Base.Text.{text_le}
use honua_migrate.Json.{Json, get, members, is_mapping, text?, int?}
use honua_migrate.Report.Dependency.{dependency_order}
use honua_migrate.Verdict.Registry.{is_kind, capability_registry, shop_profiles}
use honua_migrate.Verdict.Detect.{inventory_items, detected_entries, lock_in_extents}
use honua_migrate.Verdict.Profile.{
  SignalSummary, Boundary, ProfileVerdict, profile_verdict, hard_lock_ins,
}

abbrev pub feature_map_service_kinds : List String
feature_map_service_kinds = "featureService" ∷ "mapService" ∷ "vectorTileService" ∷ []

-- `isinstance(value, str) and value`, of each of a list
unfoldable pub texts : List Json → List String
texts [] = []
texts (x ∷ xs) = prepend (text? x) (texts xs)
  where
    prepend : Option String → List String → List String
    prepend none rest = rest
    prepend (some s) rest = s ∷ rest

unfoldable pub sorted_set : List String → List String
unfolding distinct text_le string_eq
sorted_set xs = sorted text_le (distinct [] xs)

unfoldable pub non_feature_map_service_kinds : Json → List String
unfolding sorted_set texts inventory_items is_kind get string_eq
non_feature_map_service_kinds footprint = sorted_set (
    keep (λ kind. not (contains feature_map_service_kinds kind))
      (texts
        (map (get "serviceKind") (keep (is_kind "server-service") (inventory_items footprint)))))

unfoldable pub server_roles : List Json → List String
unfolding texts get members
server_roles [] = []
server_roles (server ∷ servers) =
    let rest = server_roles servers in
    if is_mapping server then texts (members (get "advancedRoles" server)) ++ rest else rest

unfoldable pub advanced_roles : Json → List String
unfolding sorted_set texts server_roles get members
advanced_roles footprint =
    let federation = get "federation" (get "portal" footprint) in
    sorted_set (
      texts (members (get "advancedRoles" federation))
      ++ server_roles (members (get "servers" federation)))

pub data StepSource : Type 0 where
  usage dependency : StepSource

pub record MigrationStep : Type 0 where
  pub rank : ℤ
  pub identifier : String
  pub source : StepSource
  pub requests : Option ℤ

-- A row of the usage ranking, where it has a service and a rank.
usage_step : Option String → Option ℤ → Option ℤ → List MigrationStep
usage_step (some service) (some rank) requests =
    record { rank = rank; identifier = service; source = usage; requests = requests } ∷ []
usage_step _ _ requests = []

unfoldable pub usage_rows : List Json → List MigrationStep
unfolding usage_step get
usage_rows [] = []
usage_rows (x ∷ xs) =
    let rest = usage_rows xs in
    if is_mapping x
    then usage_step (text? (get "service" x)) (int? (get "rank" x)) (int? (get "requests" x))
      ++ rest
    else rest

-- By rank, and by service where the ranks are the same.
unfoldable pub step_le : MigrationStep → MigrationStep → Bool
unfolding int_le text_le
step_le a b =
    not (int_le b.rank a.rank) || (int_le a.rank b.rank && text_le a.identifier b.identifier)

unfoldable pub usage_ranked_steps : Json → List MigrationStep
unfolding usage_rows step_le get members
usage_ranked_steps footprint =
    sorted step_le (
      usage_rows (members (get "usageRankedServices" (get "bindingPlan" (get "server" footprint)))))

unfoldable pub numbered : ℕ → List String → List MigrationStep
numbered n [] = []
numbered n (s ∷ ss) =
    record { rank = pos n; identifier = s; source = dependency; requests = none }
    ∷ numbered (suc n) ss

abbrev pub or_dependencies : List MigrationStep → Option (List String) → Option (List MigrationStep)
or_dependencies [] none = none
or_dependencies [] (some order) = some (numbered 1 order)
or_dependencies (step ∷ steps) order = some (step ∷ steps)

-- `none` where the dependency order would be.
unfoldable pub migration_order : Json → Option (List MigrationStep)
unfolding usage_ranked_steps numbered dependency_order
migration_order footprint =
    or_dependencies (usage_ranked_steps footprint) (dependency_order footprint)

abbrev is_usage : MigrationStep → Bool
is_usage step = elim step.source [ usage ↦ true | dependency ↦ false ]

pub record FootprintVerdict : Type 0 where
  pub profiles : List ProfileVerdict
  pub hard_lock_ins : List Boundary
  pub signals : SignalSummary
  pub migration_order : List MigrationStep

unfoldable pub signals_of : Json → List MigrationStep → SignalSummary
unfolding non_feature_map_service_kinds advanced_roles
signals_of footprint steps = record {
  non_feature_map_service_kinds = non_feature_map_service_kinds footprint;
  advanced_roles = advanced_roles footprint;
  usage_ranked = any is_usage steps;
}

unfoldable pub verdict_with : Json → List MigrationStep → FootprintVerdict
unfolding detected_entries lock_in_extents signals_of profile_verdict hard_lock_ins
verdict_with footprint steps =
    let detected = detected_entries capability_registry footprint in
    let extents = lock_in_extents footprint in
    let signals = signals_of footprint steps in
    record {
      profiles = map (profile_verdict detected extents signals) shop_profiles;
      hard_lock_ins = hard_lock_ins detected extents;
      signals = signals;
      migration_order = steps;
    }

abbrev pub with_steps : Json → Option (List MigrationStep) → Option FootprintVerdict
with_steps footprint none = none
with_steps footprint (some steps) = some (verdict_with footprint steps)

unfoldable pub evaluate : Json → Option FootprintVerdict
unfolding migration_order
evaluate footprint = with_steps footprint (migration_order footprint)
