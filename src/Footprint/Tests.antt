-- ===== src/Footprint/Tests.antt =====
-- Binding modes and a usage ranking at concrete data, and the theorems there.
use honua_migrate.Base.{
  ◌≡◌, ◌≢◌, refl, Bool, false, ◌==◌, [], ◌∷◌, String, map, count_if, arith, string_eq, nat_eq,
}
use honua_migrate.Base.Int.{ℤ, pos}
use honua_migrate.Base.Text.{strip, lower, same_codes}
use honua_migrate.Json.{Json, obj, end, field, get, get_field}
use honua_migrate.Verdict.Signals.{usage_ranked_steps}
use honua_migrate.Footprint.Binding.{
  Usage, rank_services_by_usage, build_binding_plan, plan_dict, connection_kind_for_type, kind_in,
  normalized, binding_mode_for_connection, materialize,
}
use honua_migrate.Footprint.Ranking.{
  pair_of, InOrder, Named, Numbered, step_of, rank_services_by_usage-Numbered,
  usage_ranked_steps-plan_dict,
}

file_geodatabase : binding_mode_for_connection (connection_kind_for_type " File_GDB ") ≡ materialize
unfolding binding_mode_for_connection connection_kind_for_type kind_in normalized strip lower
    same_codes nat_eq
file_geodatabase = refl

abbrev requests : Usage
requests = ("roads", pos 3) ∷ ("parcels", pos 12) ∷ ("lakes", pos 3) ∷ []

abbrev carrier : Json
carrier = obj (
    field "server" (obj (field "bindingPlan" (plan_dict (build_binding_plan requests [])) end)) end)

carries : get "bindingPlan" (get "server" carrier) ≡ plan_dict (build_binding_plan requests [])
unfolding get get_field string_eq
carries = refl

rank_services_by_usage-Numbered_example :
    let ranking = rank_services_by_usage requests in
    InOrder (map pair_of ranking)
    × Numbered 1 ranking
    × ((test : String × ℤ → Bool) → count_if test (map pair_of ranking) ≡ count_if test requests)
rank_services_by_usage-Numbered_example = rank_services_by_usage-Numbered requests

differs : (s : String) → (s == "") ≡ false → s ≢ ""
differs s h p = ground (arith, h, p)

requests-Named : Named requests
unfolding string_eq
requests-Named = (differs "roads" refl, (differs "parcels" refl, (differs "lakes" refl, tt)))

usage_ranked_steps-plan_dict_example :
    usage_ranked_steps carrier ≡ map step_of (rank_services_by_usage requests)
usage_ranked_steps-plan_dict_example =
    usage_ranked_steps-plan_dict requests [] carrier requests-Named carries
