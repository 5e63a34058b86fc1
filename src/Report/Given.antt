-- ===== src/Report/Given.antt =====
-- What report/heuristics.py collects for an item are reasons for it.
use honua_migrate.Base.{
  ◌≡◌, refl, sym, subst, ◌∙◌, inl, inr, Bool, true, false, not, List, [], ◌∷◌, ◌++◌, String, ◌==◌,
  string_eq, Option, any, map, if◌then◌else◌, In, eq_of_==, append-In,
}
use honua_migrate.Base.Text.{codes}
use honua_migrate.Json.{Json, get, type_text}
use honua_migrate.Report.Items.{Text, item_label, manual_review_portal_types}
use honua_migrate.Report.Review.{
  ReviewItem, unknown_portal_types, supported_server_service_types, is_legacy_wkid,
  has_spatial_reference_identifier, spatial_reference_wkid, diagnostic_review, portal_reviews,
  wkid_text, feature_class_reviews, service_reviews, reviews_of,
}
use honua_migrate.Report.Same.{same_codes-eq, if-In, any-In, is_name, none_named}
use honua_migrate.Report.Reasons.{
  is_legacy_wkid-Legacy, text, because, Reason, complex, unsupported_item, no_reference,
  old_reference, unsupported_service, diagnostic-Reason,
}

module _ (repr : Json → Text) (lower_text : Text → Text) (entries : List Json) (item : Json) where
  abbrev label : Text
  label = item_label repr lower_text item

  abbrev kind : String
  kind = type_text (get "kind" item)

  abbrev Given : ReviewItem → Type 0
  Given = Reason repr lower_text entries item

  alone : (r x : ReviewItem) → In r (x ∷ []) → Given x → Given r
  alone r x (inl p) g = subst Given (sym p) g
  alone r x (inr m) g = elim m [ ]

  portal-Reason :
      (r : ReviewItem)
      → kind ≡ "portal-item"
      → In r (portal_reviews repr lower_text label (text repr lower_text (get "type" item) ""))
      → Given r
  unfolding portal_reviews
  portal-Reason r k m =
      elim (append-In r (if any (is_name t) manual_review_portal_types then _ ∷ [] else []) _ m) [
        | inl a ↦
            let (b, n) = if-In r (any (is_name t) manual_review_portal_types) _ a in
            let (name, i, e) = any-In (is_name t) manual_review_portal_types b in
            alone r _ n (complex name k i (same_codes-eq (codes name) t e))
        | inr a ↦
            let (b, n) = if-In r (any (is_name t) unknown_portal_types) _ a in
            let (name, i, e) = any-In (is_name t) unknown_portal_types b in
            alone r _ n (unsupported_item name k i (same_codes-eq (codes name) t e))
      ]
    where
      t : Text
      t = text repr lower_text (get "type" item) ""

  feature_class-Reason :
      (r : ReviewItem)
      → kind ≡ "filegdb-feature-class"
      → In r (feature_class_reviews repr lower_text label (get "sr" item))
      → Given r
  unfolding feature_class_reviews wkid_text
  feature_class-Reason r k m =
      with_reference (has_spatial_reference_identifier (get "sr" item)) refl
        (spatial_reference_wkid (get "sr" item)) refl m
    where
      with_reference :
          (b : Bool)
          → has_spatial_reference_identifier (get "sr" item) ≡ b
          → (o : Option _) → spatial_reference_wkid (get "sr" item) ≡ o
          → In r (
              if not b
              then because repr lower_text item "missing-spatial-reference"
                  (codes "Feature class spatial reference is missing or incomplete.")
                ∷ []
              else if is_legacy_wkid o
              then because repr lower_text item "legacy-spatial-reference" (
                  codes "Spatial reference WKID "
                  ++ ((codes "`" ++ (wkid_text repr lower_text o ++ codes "`"))
                      ++ codes " is on the v0.1 legacy watchlist."))
                ∷ []
              else [])
          → Given r
      with_reference false e o w n = alone r _ n (no_reference k e)
      with_reference true e o w n =
          let (b, i) = if-In r (is_legacy_wkid o) _ n in
          let (number, p, l) = is_legacy_wkid-Legacy o b in
          alone r _
            (subst
              (λ x. In r (
                because repr lower_text item "legacy-spatial-reference" (
                  codes "Spatial reference WKID "
                  ++ ((codes "`" ++ (wkid_text repr lower_text x ++ codes "`"))
                      ++ codes " is on the v0.1 legacy watchlist."))
                ∷ []))
              p i)
            (old_reference number k e (w ∙ p) l)

  service-Reason :
      (r : ReviewItem)
      → kind ≡ "server-service"
      → In r (
          service_reviews repr lower_text label
            (text repr lower_text (get "serviceType" item) "Unknown"))
      → Given r
  unfolding service_reviews
  service-Reason r k m = by_type (any (is_name t) supported_server_service_types) refl m
    where
      t : Text
      t = text repr lower_text (get "serviceType" item) "Unknown"

      by_type :
          (b : Bool)
          → any (is_name t) supported_server_service_types ≡ b
          → In r (
              if b
              then []
              else because repr lower_text item "unsupported-service-type" (
                  (codes "`" ++ (t ++ codes "`"))
                  ++ codes " is outside the v0.1 supported service set.")
                ∷ [])
          → Given r
      by_type true e n = elim n [ ]
      by_type false e n =
          alone r _ n (unsupported_service k (none_named t supported_server_service_types e))

  pub reviews_of-Reason :
      (r : ReviewItem) → In r (reviews_of repr lower_text entries item) → Given r
  unfolding reviews_of
  reviews_of-Reason r m = elim (append-In r (map (diagnostic_review repr lower_text label) _) _ m) [
    | inl a ↦ diagnostic-Reason repr lower_text entries item r a
    | inr a ↦ elim (append-In r (if kind == "portal-item" then _ else []) _ a) [
      | inl b ↦
          let (e, n) = if-In r (kind == "portal-item") _ b in
          portal-Reason r (eq_of_== kind "portal-item" e) n
      | inr b ↦ elim (append-In r (if kind == "filegdb-feature-class" then _ else []) _ b) [
        | inl c ↦
            let (e, n) = if-In r (kind == "filegdb-feature-class") _ c in
            feature_class-Reason r (eq_of_== kind "filegdb-feature-class" e) n
        | inr c ↦
            let (e, n) = if-In r (kind == "server-service") _ c in
            service-Reason r (eq_of_== kind "server-service" e) n
      ]
    ]
  ]
