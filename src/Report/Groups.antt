-- ===== src/Report/Groups.antt =====
-- The groups of the recommended order.
use honua_migrate.Base.{
  ℕ, ◌<◌, ◌≡◌, refl, ◌∙◌, inl, inr, Bool, true, false, ◌&&◌, List, [], ◌∷◌, ◌==◌, string_eq, nat_eq,
  keep, count_if, if◌then◌else◌, arith, Bool-cases, All, is_empty, In, keep-In, All-In, eq_of_==,
}
use honua_migrate.Base.Sort.{IsSorted, sorted-IsSorted, count_if-sorted, sorted-In}
use honua_migrate.Json.{Json}
use honua_migrate.Verdict.Detect.{inventory_items}
use honua_migrate.Report.Items.{Text, ordering_rank, item_sort_key}
use honua_migrate.Report.Ordering.{
  OrderingGroup, Definitions, ordering_definitions, item_le, bucket, groups_of, recommended_order,
}
use honua_migrate.Report.Ranks.{
  key_le_total, count_groups, count_if-keep, by_definition, by_definition-all,
}

-- The ranks of groups ascend from above a number.
abbrev pub Ascending : ℕ → List OrderingGroup → Type 0
Ascending n [] = Unit
Ascending n (g ∷ gs) = (n < g.rank) × Ascending g.rank gs

abbrev AscendingDefinitions : ℕ → Definitions → Type 0
AscendingDefinitions n [] = Unit
AscendingDefinitions n ((rank, _, _) ∷ ds) = (n < rank) × AscendingDefinitions rank ds

definitions_ascend : AscendingDefinitions 0 ordering_definitions
definitions_ascend = (
  omega arith,
  (
    omega arith,
    (
      omega arith,
      (omega arith, (omega arith, (omega arith, (omega arith, (omega arith, (omega arith, tt)))))),
    ),
  ),
)

Ascending-below : (n m : ℕ) (gs : List OrderingGroup) → n < m → Ascending m gs → Ascending n gs
Ascending-below n m [] lt h = tt
Ascending-below n m (g ∷ gs) lt (k, h) = (omega (arith, lt, k), h)

module _ (repr : Json → Text) (lower_text : Text → Text) where
  count_if-bucket :
      (test : Json → Bool) (rank : ℕ) (items : List Json)
      → count_if test (bucket repr lower_text rank items)
        ≡ count_if (λ x. (ordering_rank x == rank) && test x) items
  count_if-bucket test rank items =
      count_if-sorted (item_le repr lower_text) test
        (keep (λ item. ordering_rank item == rank) items)
      ∙ count_if-keep test (λ item. ordering_rank item == rank) items

  count_groups-groups_of :
      (test : Json → Bool) (ds : Definitions) (items : List Json)
      → count_groups test (groups_of repr lower_text ds items) ≡ by_definition test ds items
  unfolding groups_of by_definition
  count_groups-groups_of test [] items = refl
  count_groups-groups_of test ((rank, title, justification) ∷ ds) items =
      elim (Bool-cases (is_empty (bucket repr lower_text rank items))) [
        | inl e ↦ rw e (
            omega (
              arith,
              empty-count (bucket repr lower_text rank items) e,
              count_if-bucket test rank items,
              count_groups-groups_of test ds items,
            ))
        | inr e ↦
            rw e
              (omega (arith, count_if-bucket test rank items, count_groups-groups_of test ds items))
      ]
    where
      empty-count : (xs : List Json) → is_empty xs ≡ true → count_if test xs ≡ 0
      empty-count [] e = refl
      empty-count (x ∷ xs) e = ground (arith, e)

  -- A group has items, all of its rank, in the order of their keys.
  abbrev pub Proper : OrderingGroup → Type 0
  Proper g =
      (is_empty g.items ≡ false)
      × IsSorted (item_le repr lower_text) g.items
      × All (λ item. ordering_rank item ≡ g.rank) g.items

  groups_of-Proper :
      (ds : Definitions) (items : List Json) → All Proper (groups_of repr lower_text ds items)
  unfolding groups_of
  groups_of-Proper [] items = tt
  groups_of-Proper ((rank, title, justification) ∷ ds) items =
      choose (is_empty (bucket repr lower_text rank items)) refl (groups_of-Proper ds items)
    where
      ranked : (x : Json) → In x (bucket repr lower_text rank items) → ordering_rank x ≡ rank
      ranked x m =
          let (_, e) =
            keep-In (λ item. ordering_rank item == rank) x items
              (sorted-In (item_le repr lower_text) x
                (keep (λ item. ordering_rank item == rank) items) m) in
          eq_of_== (ordering_rank x) rank e

      choose :
          (b : Bool)
          → is_empty (bucket repr lower_text rank items) ≡ b
          → All Proper (groups_of repr lower_text ds items)
          → All Proper (
              if b
              then groups_of repr lower_text ds items
              else record {
                rank = rank;
                title = title;
                justification = justification;
                items = bucket repr lower_text rank items;
              }
                ∷ groups_of repr lower_text ds items)
      choose true e h = h
      choose false e h = (
        (
          e,
          sorted-IsSorted (item_le repr lower_text)
              (λ x y.
                key_le_total (item_sort_key repr lower_text x) (item_sort_key repr lower_text y))
              (keep (λ item. ordering_rank item == rank) items),
          All-In (λ item. ordering_rank item ≡ rank) (bucket repr lower_text rank items) ranked,
        ),
        h,
      )

  groups_of-Ascending :
      (n : ℕ) (ds : Definitions) (items : List Json)
      → AscendingDefinitions n ds
      → Ascending n (groups_of repr lower_text ds items)
  unfolding groups_of
  groups_of-Ascending n [] items h = tt
  groups_of-Ascending n ((rank, title, justification) ∷ ds) items (lt, h) =
      elim (Bool-cases (is_empty (bucket repr lower_text rank items))) [
        | inl e ↦ rw e (
            Ascending-below n rank (groups_of repr lower_text ds items) lt
              (groups_of-Ascending rank ds items h))
        | inr e ↦ rw e (lt, groups_of-Ascending rank ds items h)
      ]

  -- The recommended order has every item of the inventory in exactly one group, as often as it is
  -- in the inventory: for each test, the groups have together as many items that pass it as the
  -- inventory. The ranks of the groups ascend; each group has items, all of them of its rank, in
  -- the order of the items' keys.
  pub recommended_order-Proper :
      (footprint : Json)
      → ((test : Json → Bool)
          → count_groups test (recommended_order repr lower_text footprint)
            ≡ count_if test (inventory_items footprint))
        × Ascending 0 (recommended_order repr lower_text footprint)
        × All Proper (recommended_order repr lower_text footprint)
  unfolding recommended_order
  recommended_order-Proper footprint = (
    λ test.
        count_groups-groups_of test ordering_definitions (inventory_items footprint)
        ∙ by_definition-all test (inventory_items footprint),
    groups_of-Ascending 0 ordering_definitions (inventory_items footprint) definitions_ascend,
    groups_of-Proper ordering_definitions (inventory_items footprint),
  )
