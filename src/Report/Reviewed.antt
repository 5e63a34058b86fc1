-- ===== src/Report/Reviewed.antt =====
-- The manual review misses nothing and adds nothing.
use honua_migrate.Base.{
  ◌≡◌, refl, ◌⊎◌, inl, inr, Bool, true, false, List, [], ◌∷◌, ◌++◌, string_eq, any, if◌then◌else◌,
  Bool-cases, In, subst, sym, ◌==◌, eq_of_==,
}
use honua_migrate.Base.Sort.{IsSorted, sorted-IsSorted, In-sorted, sorted-In}
use honua_migrate.Base.Text.{same_codes}
use honua_migrate.Json.{Json}
use honua_migrate.Report.Reasons.{Reason}
use honua_migrate.Report.Given.{reviews_of-Reason}
use honua_migrate.Report.Found.{Reason-reviews_of}
use honua_migrate.Report.Same.{same_codes-eq, both}
use honua_migrate.Verdict.Detect.{inventory_items}
use honua_migrate.Report.Items.{Text, key_le}
use honua_migrate.Report.Ranks.{key_le_total}
use honua_migrate.Report.Review.{
  ReviewItem, same_review, add_review_item, add_review_items, diagnostics, reviews_of, review_loop,
  review_key, manual_review_items,
}

same_review-eq : (a b : ReviewItem) → same_review a b ≡ true → a ≡ b
same_review-eq a b h =
    let (reason, rest) = both (a.reason_code == b.reason_code) _ h in
    let (label, detail) = both (same_codes a.item_label b.item_label) _ rest in
    λ i. record {
      reason_code = eq_of_== a.reason_code b.reason_code reason i;
      item_label = same_codes-eq a.item_label b.item_label label i;
      detail = same_codes-eq a.detail b.detail detail i;
    }

found-In :
    (r : ReviewItem) (review : List ReviewItem) → any (same_review r) review ≡ true → In r review
found-In r [] h = cc
found-In r (x ∷ xs) h = elim (Bool-cases (same_review r x)) [
  | inl e ↦ inl (same_review-eq r x e)
  | inr e ↦ inr (found-In r xs (rw e at h))
]

In-left : {A : Type 0} (a : A) (xs ys : List A) → In a xs → In a (xs ++ ys)
In-left a [] ys h = elim h [ ]
In-left a (x ∷ xs) ys (inl p) = inl p
In-left a (x ∷ xs) ys (inr m) = inr (In-left a xs ys m)

In-end : {A : Type 0} (a : A) (xs : List A) → In a (xs ++ (a ∷ []))
In-end a [] = inl refl
In-end a (x ∷ xs) = inr (In-end a xs)

end-In : {A : Type 0} (a b : A) (xs : List A) → In a (xs ++ (b ∷ [])) → In a xs ⊎ (a ≡ b)
end-In a b [] (inl p) = inr p
end-In a b [] (inr m) = elim m [ ]
end-In a b (x ∷ xs) (inl p) = inl (inl p)
end-In a b (x ∷ xs) (inr m) = elim (end-In a b xs m) [ inl k ↦ inl (inr k) | inr p ↦ inr p ]

In-add_review_item :
    (x r : ReviewItem) (review : List ReviewItem) → In x review → In x (add_review_item review r)
unfolding add_review_item
In-add_review_item x r review m = elim (Bool-cases (any (same_review r) review)) [
  | inl e ↦ rw e m
  | inr e ↦ rw e (In-left x review (r ∷ []) m)
]

added-In : (r : ReviewItem) (review : List ReviewItem) → In r (add_review_item review r)
unfolding add_review_item
added-In r review = elim (Bool-cases (any (same_review r) review)) [
  | inl e ↦ rw e (found-In r review e)
  | inr e ↦ rw e (In-end r review)
]

add_review_item-In :
    (x r : ReviewItem) (review : List ReviewItem)
    → In x (add_review_item review r)
    → In x review ⊎ (x ≡ r)
unfolding add_review_item
add_review_item-In x r review m = choose (any (same_review r) review) m
  where
    choose : (b : Bool) → In x (if b then review else review ++ (r ∷ [])) → In x review ⊎ (x ≡ r)
    choose true k = inl k
    choose false k = end-In x r review k

In-add_review_items :
    (x : ReviewItem) (review rs : List ReviewItem) → In x review → In x (add_review_items review rs)
unfolding add_review_items
In-add_review_items x review [] m = m
In-add_review_items x review (r ∷ rs) m =
    In-add_review_items x (add_review_item review r) rs (In-add_review_item x r review m)

all_added-In :
    (r : ReviewItem) (review rs : List ReviewItem) → In r rs → In r (add_review_items review rs)
unfolding add_review_items
all_added-In r review [] m = elim m [ ]
all_added-In r review (s ∷ rs) (inl p) =
    In-add_review_items r (add_review_item review s) rs
      (subst (λ x. In x (add_review_item review s)) (sym p) (added-In s review))
all_added-In r review (s ∷ rs) (inr m) = all_added-In r (add_review_item review s) rs m

add_review_items-In :
    (x : ReviewItem) (review rs : List ReviewItem)
    → In x (add_review_items review rs)
    → In x review ⊎ In x rs
unfolding add_review_items
add_review_items-In x review [] m = inl m
add_review_items-In x review (r ∷ rs) m =
    elim (add_review_items-In x (add_review_item review r) rs m) [
      | inl k ↦ elim (add_review_item-In x r review k) [ inl j ↦ inl j | inr p ↦ inr (inl p) ]
      | inr k ↦ inr (inr k)
    ]

module _ (repr : Json → Text) (lower_text : Text → Text) where
  In-review_loop :
      (entries items : List Json) (x : ReviewItem) (review : List ReviewItem)
      → In x review
      → In x (review_loop repr lower_text entries items review)
  unfolding review_loop
  In-review_loop entries [] x review m = m
  In-review_loop entries (i ∷ items) x review m =
      In-review_loop entries items x
        (add_review_items review (reviews_of repr lower_text entries i))
        (In-add_review_items x review (reviews_of repr lower_text entries i) m)

  reviewed-In :
      (entries items : List Json) (item : Json) (r : ReviewItem) (review : List ReviewItem)
      → In item items
      → In r (reviews_of repr lower_text entries item)
      → In r (review_loop repr lower_text entries items review)
  unfolding review_loop
  reviewed-In entries [] item r review m k = elim m [ ]
  reviewed-In entries (i ∷ items) item r review (inl p) k =
      In-review_loop entries items r
        (add_review_items review (reviews_of repr lower_text entries i))
        (all_added-In r review (reviews_of repr lower_text entries i)
          (subst (λ j. In r (reviews_of repr lower_text entries j)) p k))
  reviewed-In entries (i ∷ items) item r review (inr m) k =
      reviewed-In entries items item r
        (add_review_items review (reviews_of repr lower_text entries i)) m k

  -- What the loop collects for an item of the inventory
  abbrev Collected : List Json → List Json → ReviewItem → Type 0
  Collected entries items x =
      (item : Json) × In item items × In x (reviews_of repr lower_text entries item)

  review_loop-Collected :
      (entries items : List Json) (x : ReviewItem) (review : List ReviewItem)
      → In x (review_loop repr lower_text entries items review)
      → In x review ⊎ Collected entries items x
  unfolding review_loop
  review_loop-Collected entries [] x review m = inl m
  review_loop-Collected entries (i ∷ items) x review m =
      elim (review_loop-Collected entries items x
        (add_review_items review (reviews_of repr lower_text entries i)) m) [
          | inl k ↦ elim (add_review_items-In x review (reviews_of repr lower_text entries i) k) [
            | inl j ↦ inl j
            | inr j ↦ inr (i, inl refl, j)
          ]
          | inr (j, n, k) ↦ inr (j, inr n, k)
        ]

  -- A reason for an item of the inventory
  abbrev pub HasReason : List Json → List Json → ReviewItem → Type 0
  HasReason entries items x = (item : Json) × In item items × Reason repr lower_text entries item x

  -- The manual review lists each reason that an item of the inventory has, with its label and its
  -- detail, and nothing else: a warning or an error of the diagnostics whose scope names the item, a
  -- type of portal item that is complex or unknown, a feature class with no spatial reference or one
  -- of the watchlist, or a service whose type is not supported. It is in the order of the reasons,
  -- and of the lowered labels and details.
  pub manual_review_items-Listed :
      (footprint : Json)
      → let entries = diagnostics footprint in
        let items = inventory_items footprint in
        let reviewed = manual_review_items repr lower_text footprint in
        ((item : Json) (r : ReviewItem)
          → In item items
          → Reason repr lower_text entries item r
          → In r reviewed)
        × ((x : ReviewItem) → In x reviewed → HasReason entries items x)
        × IsSorted
            (λ a b. key_le (review_key repr lower_text a) (review_key repr lower_text b))
            reviewed
  unfolding manual_review_items
  manual_review_items-Listed footprint = (
    λ item r m k. In-sorted le r found (
        reviewed-In (diagnostics footprint) (inventory_items footprint) item r [] m
          (Reason-reviews_of repr lower_text (diagnostics footprint) item r k)),
    λ x m.
        elim (review_loop-Collected (diagnostics footprint) (inventory_items footprint) x []
          (sorted-In le x found m)) [
            | inl h ↦ elim h [ ]
            | inr (item, n, k) ↦
                (item, n, reviews_of-Reason repr lower_text (diagnostics footprint) item x k)
          ],
    sorted-IsSorted le
        (λ a b. key_le_total (review_key repr lower_text a) (review_key repr lower_text b)) found,
  )
    where
      le : ReviewItem → ReviewItem → Bool
      le a b = key_le (review_key repr lower_text a) (review_key repr lower_text b)

      found : List ReviewItem
      found = review_loop repr lower_text (diagnostics footprint) (inventory_items footprint) []
