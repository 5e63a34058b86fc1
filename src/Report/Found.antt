-- ===== src/Report/Found.antt =====
-- Each reason for an item is among those that report/heuristics.py collects.
use honua_migrate.Base.Decimal.{show_int}
use honua_migrate.Base.{
  ◌≢◌, All, ℕ, some, ◌≡◌, refl, sym, subst, inl, inr, true, false, List, [], ◌∷◌, ◌++◌, String,
  ◌==◌, string_eq, any, map, if◌then◌else◌, In, ==_refl, In-append, In-map,
}
use honua_migrate.Base.Int.{pos}
use honua_migrate.Base.Text.{codes}
use honua_migrate.Json.{Json, get, type_text}
use honua_migrate.Report.Items.{Text, item_label, manual_review_portal_types}
use honua_migrate.Report.Review.{
  ReviewItem, unknown_portal_types, supported_server_service_types,
  has_spatial_reference_identifier, spatial_reference_wkid, diagnostic_review, diagnostics_for_item,
  portal_reviews, wkid_text, feature_class_reviews, service_reviews, reviews_of,
}
use honua_migrate.Report.Same.{In-if, In-any, is_name, is_name-eq, named_none}
use honua_migrate.Report.Reasons.{
  Legacy, Legacy-is_legacy_wkid, text, because, Reason, flagged, complex, unsupported_item,
  no_reference, old_reference, unsupported_service, Reason-diagnostic,
}

module _ (repr : Json → Text) (lower_text : Text → Text) (entries : List Json) (item : Json) where
  abbrev label : Text
  label = item_label repr lower_text item

  abbrev kind : String
  kind = type_text (get "kind" item)

  abbrev Given : ReviewItem → Type 0
  Given = Reason repr lower_text entries item

  is_kind : (name : String) → kind ≡ name → (kind == name) ≡ true
  is_kind name p = subst (λ k. (k == name) ≡ true) (sym p) (==_refl name)

  -- The four parts of what is collected for the item
  abbrev by_diagnostics : List ReviewItem
  by_diagnostics =
      map (diagnostic_review repr lower_text label)
        (diagnostics_for_item repr lower_text item entries)

  abbrev portal : List ReviewItem
  portal = portal_reviews repr lower_text label (text repr lower_text (get "type" item) "")

  abbrev class : List ReviewItem
  class = feature_class_reviews repr lower_text label (get "sr" item)

  abbrev service : List ReviewItem
  service =
      service_reviews repr lower_text label
        (text repr lower_text (get "serviceType" item) "Unknown")

  abbrev under : String → List ReviewItem → List ReviewItem
  under name found = if kind == name then found else []

  abbrev after_portal : List ReviewItem
  after_portal = under "filegdb-feature-class" class ++ under "server-service" service

  In-portal :
      (r : ReviewItem)
      → kind ≡ "portal-item"
      → In r portal
      → In r (reviews_of repr lower_text entries item)
  unfolding reviews_of
  In-portal r k m = In-append r by_diagnostics (under "portal-item" portal ++ after_portal) (
      inr (
        In-append r (under "portal-item" portal) after_portal
          (inl (In-if r (kind == "portal-item") portal (is_kind "portal-item" k) m))))

  In-after : (r : ReviewItem) → In r after_portal → In r (reviews_of repr lower_text entries item)
  unfolding reviews_of
  In-after r m =
      In-append r by_diagnostics (under "portal-item" portal ++ after_portal)
        (inr (In-append r (under "portal-item" portal) after_portal (inr m)))

  In-class :
      (r : ReviewItem)
      → kind ≡ "filegdb-feature-class"
      → In r class
      → In r (reviews_of repr lower_text entries item)
  In-class r k m = In-after r (
      In-append r (under "filegdb-feature-class" class) (under "server-service" service) (
        inl
          (In-if r (kind == "filegdb-feature-class") class (is_kind "filegdb-feature-class" k) m)))

  In-service :
      (r : ReviewItem)
      → kind ≡ "server-service"
      → In r service
      → In r (reviews_of repr lower_text entries item)
  In-service r k m = In-after r (
      In-append r (under "filegdb-feature-class" class) (under "server-service" service)
        (inr (In-if r (kind == "server-service") service (is_kind "server-service" k) m)))

  In-diagnostics :
      (r : ReviewItem) → In r by_diagnostics → In r (reviews_of repr lower_text entries item)
  unfolding reviews_of
  In-diagnostics r m =
      In-append r by_diagnostics (under "portal-item" portal ++ after_portal) (inl m)

  abbrev typed : Text
  typed = text repr lower_text (get "type" item) ""

  complex_portal :
      (name : String)
      → In name manual_review_portal_types
      → codes name ≡ typed
      → In
          (because repr lower_text item "complex-item-type" (
            (codes "`" ++ (typed ++ codes "`"))
            ++ codes " usually needs migration planning beyond bulk copy."))
          portal
  unfolding portal_reviews
  complex_portal name m e =
      rw (In-any (is_name typed) name manual_review_portal_types m (is_name-eq typed name e))
        (inl refl)

  unknown_portal :
      (name : String)
      → In name unknown_portal_types
      → codes name ≡ typed
      → In
          (because repr lower_text item "unknown-item-type"
            (codes "Portal item type was classified as unknown or unsupported."))
          portal
  unfolding portal_reviews
  unknown_portal name m e =
      In-append _ (if any (is_name typed) manual_review_portal_types then _ ∷ [] else []) _ (
        inr (
          rw (In-any (is_name typed) name unknown_portal_types m (is_name-eq typed name e))
            (inl refl)))

  no_reference_class :
      has_spatial_reference_identifier (get "sr" item) ≡ false
      → In
          (because repr lower_text item "missing-spatial-reference"
            (codes "Feature class spatial reference is missing or incomplete."))
          class
  unfolding feature_class_reviews
  no_reference_class e = rw e (inl refl)

  old_reference_class :
      (n : ℕ)
      → has_spatial_reference_identifier (get "sr" item) ≡ true
      → spatial_reference_wkid (get "sr" item) ≡ some (pos n)
      → Legacy n
      → In
          (because repr lower_text item "legacy-spatial-reference" (
            codes "Spatial reference WKID "
            ++ ((codes "`" ++ (codes (show_int (pos n)) ++ codes "`"))
                ++ codes " is on the v0.1 legacy watchlist.")))
          class
  unfolding feature_class_reviews wkid_text
  old_reference_class n e w l = rw (e, w, Legacy-is_legacy_wkid n l) (inl refl)

  unsupported :
      All
        (λ name. codes name ≢ text repr lower_text (get "serviceType" item) "Unknown")
        supported_server_service_types
      → In
          (because repr lower_text item "unsupported-service-type" (
            (codes "`" ++ (text repr lower_text (get "serviceType" item) "Unknown" ++ codes "`"))
            ++ codes " is outside the v0.1 supported service set."))
          service
  unfolding service_reviews
  unsupported a =
      rw
        (named_none (text repr lower_text (get "serviceType" item) "Unknown")
          supported_server_service_types a)
        (inl refl)

  pub Reason-reviews_of :
      (r : ReviewItem) → Given r → In r (reviews_of repr lower_text entries item)
  Reason-reviews_of r (flagged entry name n severe c w same) = In-diagnostics r (
      In-map (diagnostic_review repr lower_text label) entry
        (diagnostics_for_item repr lower_text item entries)
        (Reason-diagnostic repr lower_text entries item entry name n severe c w same))
  Reason-reviews_of r (complex name k m e) = In-portal r k (complex_portal name m e)
  Reason-reviews_of r (unsupported_item name k m e) = In-portal r k (unknown_portal name m e)
  Reason-reviews_of r (no_reference k e) = In-class r k (no_reference_class e)
  Reason-reviews_of r (old_reference n k e w l) = In-class r k (old_reference_class n e w l)
  Reason-reviews_of r (unsupported_service k a) = In-service r k (unsupported a)
