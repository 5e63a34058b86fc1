-- ===== src/Report/Tests.antt =====
-- The report's heuristics on concrete footprints, and the theorems about them.
use honua_migrate.Base.{
  ◌≡◌, refl, Bool, [], ◌∷◌, String, All, In, Yields, some, string_eq, nat_eq, count_if,
}
use honua_migrate.Base.Int.{pos}
use honua_migrate.Base.Sort.{sorted, IsSorted}
use honua_migrate.Base.Text.{text_le, codes_le}
use honua_migrate.Json.{Json, str, int, arr, obj, nil, cons, end, field, get, members}
use honua_migrate.Verdict.Detect.{inventory_items}
use honua_migrate.Report.Dependency.{
  dependency_edges, dependency_order, nodes_of, ends, counted, initial_degrees, kahn, pay, release,
  degree_of, dependents_of, kahn_order, with_cycles,
}
use honua_migrate.Report.Ordered.{Ordered, dependency_order-Ordered}
use honua_migrate.Report.Items.{Text, key_le}
use honua_migrate.Report.Ordering.{recommended_order}
use honua_migrate.Report.Review.{ReviewItem, diagnostics, review_key, manual_review_items}
use honua_migrate.Report.Reasons.{Reason}
use honua_migrate.Report.Reviewed.{HasReason, manual_review_items-Listed}
use honua_migrate.Report.Ranks.{count_groups}
use honua_migrate.Report.Groups.{Ascending, Proper, recommended_order-Proper}

abbrev edge : String → String → Json
edge s t = obj (field "from" (str s) (field "to" (str t) end))

-- An app on a map on a layer, and two maps that need each other.
abbrev app_on_map : Json
app_on_map = obj (
    field "dependencyEdges"
      (arr (
        cons (edge "app" "map")
          (cons (edge "map" "layer") (cons (edge "p" "q") (cons (edge "q" "p") nil)))))
      (field "counts" (obj (field "layers" (int (pos 201)) end)) (
        field "inventory"
          (arr (
            cons (obj (field "kind" (str "portal-item") (field "type" (str "Web Map") end))) (
              cons
                (obj (field "kind" (str "filegdb-feature-class") (field "name" (str "Roads") end)))
                nil)))
          end)))

dependencies_first : dependency_order app_on_map ≡ some ("layer" ∷ "map" ∷ "app" ∷ "p" ∷ "q" ∷ [])
unfolding dependency_order dependency_edges nodes_of ends counted initial_degrees kahn pay release
    degree_of dependents_of kahn_order with_cycles text_le codes_le string_eq nat_eq get members
    sorted
dependencies_first = refl

dependency_order-Ordered_example :
    Yields (Ordered (dependency_edges app_on_map)) (dependency_order app_on_map)
dependency_order-Ordered_example = dependency_order-Ordered app_on_map

abbrev no_repr : Json → Text
no_repr v = []

abbrev same_text : Text → Text
same_text t = t

recommended_order-Proper_example :
    ((test : Json → Bool)
      → count_groups test (recommended_order no_repr same_text app_on_map)
        ≡ count_if test (inventory_items app_on_map))
    × Ascending 0 (recommended_order no_repr same_text app_on_map)
    × All (Proper no_repr same_text) (recommended_order no_repr same_text app_on_map)
recommended_order-Proper_example = recommended_order-Proper no_repr same_text app_on_map

manual_review_items-Listed_example :
    let entries = diagnostics app_on_map in
    let items = inventory_items app_on_map in
    let reviewed = manual_review_items no_repr same_text app_on_map in
    ((item : Json) (r : ReviewItem)
      → In item items
      → Reason no_repr same_text entries item r
      → In r reviewed)
    × ((x : ReviewItem) → In x reviewed → HasReason no_repr same_text entries items x)
    × IsSorted
        (λ a b. key_le (review_key no_repr same_text a) (review_key no_repr same_text b))
        reviewed
manual_review_items-Listed_example = manual_review_items-Listed no_repr same_text app_on_map
