-- ===== src/Report/Review.antt =====
-- report/heuristics.py: the items that need a manual review.
use honua_migrate.Base.{
  ℕ, Bool, true, false, not, ◌&&◌, ◌||◌, List, [], ◌∷◌, ◌++◌, String, ◌==◌, string_eq, nat_eq,
  contains, keep, any, map, if◌then◌else◌, Option, none, some,
}
use honua_migrate.Base.Int.{ℤ, pos, negsuc}
use honua_migrate.Base.Decimal.{show_int}
use honua_migrate.Base.Sort.{sorted}
use honua_migrate.Base.Text.{codes, same_codes}
use honua_migrate.Json.{Json, null, str, get, members, is_mapping, int?, type_text}
use honua_migrate.Verdict.Detect.{inventory_items}
use honua_migrate.Report.Items.{
  Text, truthy, text_of, first_text, item_label, key_le, manual_review_portal_types,
}

abbrev pub unknown_portal_types : List String
unknown_portal_types = "Other" ∷ "Unknown" ∷ "Unsupported" ∷ "Unsupported Item Type" ∷ []

abbrev pub supported_server_service_types : List String
supported_server_service_types =
    "FeatureServer" ∷ "ImageServer" ∷ "MapServer" ∷ "VectorTileServer" ∷ []

-- `wkid in LEGACY_SRS_WKIDS`
abbrev pub is_legacy_wkid : Option ℤ → Bool
is_legacy_wkid none = false
is_legacy_wkid (some (negsuc n)) = false
is_legacy_wkid (some (pos n)) = contains (26711 ∷ 32040 ∷ 102671 ∷ []) n

unfoldable pub diagnostics : Json → List Json
unfolding get members
diagnostics footprint = keep is_mapping (members (get "diagnostics" footprint))

-- `sr.get(key) not in (None, "")`
abbrev is_present : Json → Bool
is_present null = false
is_present (str s) = not (s == "")
is_present _ = true

unfoldable pub has_spatial_reference_identifier : Json → Bool
unfolding get string_eq
has_spatial_reference_identifier sr =
    is_mapping sr && any is_present (get "wkid" sr ∷ get "latestWkid" sr ∷ get "wkt" sr ∷ [])

abbrev or_else : Option ℤ → Option ℤ → Option ℤ
or_else none o = o
or_else (some n) o = some n

unfoldable pub spatial_reference_wkid : Json → Option ℤ
unfolding get
spatial_reference_wkid sr = or_else (int? (get "wkid" sr)) (int? (get "latestWkid" sr))

pub record ReviewItem : Type 0 where
  pub reason_code : String
  pub item_label : Text
  pub detail : Text

abbrev pub same_review : ReviewItem → ReviewItem → Bool
same_review a b =
    a.reason_code == b.reason_code
    && (same_codes a.item_label b.item_label && same_codes a.detail b.detail)

-- `_add_review_item`: the list of what was added has the keys seen.
unfoldable pub add_review_item : List ReviewItem → ReviewItem → List ReviewItem
unfolding string_eq same_codes
add_review_item review r = if any (same_review r) review then review else review ++ (r ∷ [])

unfoldable pub add_review_items : List ReviewItem → List ReviewItem → List ReviewItem
unfolding add_review_item
add_review_items review [] = review
add_review_items review (r ∷ rs) = add_review_items (add_review_item review r) rs

abbrev severity_rank : Text → ℕ
severity_rank t =
    if same_codes t (codes "error")
    then 0
    else if same_codes t (codes "warn")
    then 1
    else if same_codes t (codes "info")
    then 2
    else 9

module _ (repr : Json → Text) (lower_text : Text → Text) where
  -- `str(value or default)`
  abbrev pub text_or : Json → String → Text
  text_or v default = first_text repr lower_text (v ∷ []) default

  -- Whether a diagnostic is a warning or an error of a scope
  unfoldable pub in_scope : Text → Json → Bool
  unfolding get same_codes
  in_scope scope entry =
      let severity = text_or (get "severity" entry) "" in
      (same_codes severity (codes "warn") || same_codes severity (codes "error"))
      && same_codes (text_or (get "scope" entry) "") scope

  unfoldable pub item_scopes : Json → List Text
  unfolding get
  item_scopes item = map (text_of repr lower_text) (
      keep truthy (get "id" item ∷ get "title" item ∷ get "serviceUrl" item ∷ get "name" item ∷ []))

  unfoldable pub diagnostic_sort_key : Json → List Text
  unfolding get same_codes
  diagnostic_sort_key entry =
      (severity_rank (text_or (get "severity" entry) "info") ∷ [])
      ∷ text_or (get "code" entry) ""
      ∷ text_or (get "scope" entry) ""
      ∷ []

  unfoldable pub matching : List Json → List Text → List Json
  unfolding in_scope
  matching entries [] = []
  matching entries (scope ∷ scopes) = keep (in_scope scope) entries ++ matching entries scopes

  unfoldable pub diagnostics_for_item : Json → List Json → List Json
  unfolding matching item_scopes diagnostic_sort_key key_le
  diagnostics_for_item item entries =
      sorted (λ a b. key_le (diagnostic_sort_key a) (diagnostic_sort_key b))
        (matching entries (item_scopes item))

  abbrev pub quoted : Text → Text
  quoted t = codes "`" ++ (t ++ codes "`")

  abbrev pub review : String → Text → Text → ReviewItem
  review reason label detail = record { reason_code = reason; item_label = label; detail = detail }

  abbrev pub diagnostic_review : Text → Json → ReviewItem
  diagnostic_review label entry = review "flagged-by-diagnostic" label (
      codes "Diagnostic "
      ++ (quoted (text_or (get "code" entry) "diagnostic")
          ++ (codes " ("
              ++ (text_or (get "severity" entry) "warn" ++ codes ") applies to this item."))))

  unfoldable pub portal_reviews : Text → Text → List ReviewItem
  unfolding same_codes
  portal_reviews label t =
      (if any (λ name. same_codes (codes name) t) manual_review_portal_types
        then review "complex-item-type" label
            (quoted t ++ codes " usually needs migration planning beyond bulk copy.")
          ∷ []
        else [])
      ++ (if any (λ name. same_codes (codes name) t) unknown_portal_types
          then review "unknown-item-type" label
              (codes "Portal item type was classified as unknown or unsupported.")
            ∷ []
          else [])

  unfoldable pub wkid_text : Option ℤ → Text
  unfolding show_int
  wkid_text none = codes "None"
  wkid_text (some n) = codes (show_int n)

  unfoldable pub feature_class_reviews : Text → Json → List ReviewItem
  unfolding has_spatial_reference_identifier spatial_reference_wkid wkid_text nat_eq
  feature_class_reviews label sr =
      if not (has_spatial_reference_identifier sr)
      then review "missing-spatial-reference" label
          (codes "Feature class spatial reference is missing or incomplete.")
        ∷ []
      else if is_legacy_wkid (spatial_reference_wkid sr)
      then review "legacy-spatial-reference" label (
          codes "Spatial reference WKID "
          ++ (quoted (wkid_text (spatial_reference_wkid sr))
              ++ codes " is on the v0.1 legacy watchlist."))
        ∷ []
      else []

  unfoldable pub service_reviews : Text → Text → List ReviewItem
  unfolding same_codes
  service_reviews label t =
      if any (λ name. same_codes (codes name) t) supported_server_service_types
      then []
      else review "unsupported-service-type" label
          (quoted t ++ codes " is outside the v0.1 supported service set.")
        ∷ []

  -- What the loop's body adds for an item, in its order
  unfoldable pub reviews_of : List Json → Json → List ReviewItem
  unfolding diagnostics_for_item portal_reviews feature_class_reviews service_reviews item_label get
      string_eq
  reviews_of entries item =
      let label = item_label repr lower_text item in
      let kind = type_text (get "kind" item) in
      map (diagnostic_review label) (diagnostics_for_item item entries)
      ++ ((if kind == "portal-item"
            then portal_reviews label (text_or (get "type" item) "")
            else [])
          ++ ((if kind == "filegdb-feature-class"
                then feature_class_reviews label (get "sr" item)
                else [])
              ++ (if kind == "server-service"
                  then service_reviews label (text_or (get "serviceType" item) "Unknown")
                  else [])))

  unfoldable pub review_loop : List Json → List Json → List ReviewItem → List ReviewItem
  unfolding reviews_of add_review_items
  review_loop entries [] review = review
  review_loop entries (item ∷ items) review =
      review_loop entries items (add_review_items review (reviews_of entries item))

  abbrev pub review_key : ReviewItem → List Text
  review_key r = codes r.reason_code ∷ lower_text r.item_label ∷ lower_text r.detail ∷ []

  unfoldable pub manual_review_items : Json → List ReviewItem
  unfolding review_loop diagnostics inventory_items key_le
  manual_review_items footprint =
      sorted (λ a b. key_le (review_key a) (review_key b))
        (review_loop (diagnostics footprint) (inventory_items footprint) [])
