-- ===== src/Caps/Tests.antt =====
-- A crosswalk and a footprint, and the theorems about them.
use honua_migrate.Base.{
  ◌≡◌, ◌≤◌, refl, inl, inr, [], ◌∷◌, In, none, some, string_eq, nat_eq, count_if, arith,
}
use honua_migrate.Base.Text.{lower, strip, split_commas, same_codes}
use honua_migrate.Json.{Json, null, str, arr, obj, nil, cons, end, field, get, members}
use honua_migrate.Verdict.Registry.{
  matches, is_kind, has_token, capability_tokens_of, feature_service,
}
use honua_migrate.Verdict.Detect.{inventory_items}
use honua_migrate.Caps.Crosswalk.{Crosswalk, capability_keys_for, parse_crosswalk}
use honua_migrate.Caps.Known.{OfParsed, Truthful, parse_crosswalk-Truthful}
use honua_migrate.Caps.Mapper.{Detected, evaluate_caps}
use honua_migrate.Caps.Accounted.{Accounted, evaluate_caps-Accounted}

abbrev features : Json
features = obj (
    field "inventory"
      (arr (
        cons
          (obj
            (field "kind" (str "server-service") (field "serviceType" (str "FeatureServer") end)))
          nil))
      end)

abbrev small_crosswalk : Crosswalk
small_crosswalk = record {
  schema_version = "1";
  source = "test";
  mapping =
      ("feature-service", some ("serving.features" ∷ "editing.features" ∷ [])) ∷ ("lrs", none) ∷ [];
}

one_match : count_if (matches feature_service) (inventory_items features) ≡ 1
unfolding matches inventory_items string_eq lower strip split_commas same_codes is_kind has_token
    capability_tokens_of get members
one_match = refl

some_match : 1 ≤ count_if (matches feature_service) (inventory_items features)
some_match = omega (arith, one_match)

evaluate_caps-Accounted_example :
    let result = evaluate_caps features small_crosswalk in
    let d : Detected = record {
      key = "feature-service";
      count = count_if (matches feature_service) (inventory_items features);
      tier = feature_service.tier;
    } in
    In "feature-service" result.detected_assess_keys
    × Accounted d
        (capability_keys_for small_crosswalk "feature-service")
        result.capabilities
        result.unmapped
evaluate_caps-Accounted_example =
    evaluate_caps-Accounted features small_crosswalk feature_service (inr (inl refl)) some_match

abbrev document : Json
document = obj (
    field "schemaVersion" (str "1") (
      field "source" (str "test") (
        field "crosswalks" (obj (field "esriAssessRegistry" (obj (field "lrs" null end)) end))
          end)))

parse_crosswalk-Truthful_example :
    OfParsed
      (Truthful (get "esriAssessRegistry" (get "crosswalks" document)))
      (parse_crosswalk document)
parse_crosswalk-Truthful_example = parse_crosswalk-Truthful document
