-- ===== src/Report/Reasons.antt =====
-- Why an item of the inventory needs a manual review, said apart from the order in which
-- report/heuristics.py collects the reasons.
use honua_migrate.Base.{
  ℕ, ◌≡◌, ◌≢◌, refl, sym, subst, ◌∙◌, ◌⊎◌, inl, inr, Bool, true, false, ◌&&◌, ◌||◌, List, [], ◌∷◌,
  ◌++◌, String, string_eq, nat_eq, Option, none, some, map, keep, arith, In, All, append-In,
  In-append, keep-In, In-keep, In-map,
}
use honua_migrate.Base.Int.{ℤ, pos, negsuc}
use honua_migrate.Base.Decimal.{show_int}
use honua_migrate.Base.Sort.{sorted-In, In-sorted}
use honua_migrate.Base.Text.{codes, same_codes}
use honua_migrate.Json.{Json, get, type_text}
use honua_migrate.Report.Items.{
  Text, truthy, text_of, first_text, item_label, manual_review_portal_types,
}
use honua_migrate.Report.Review.{
  ReviewItem, unknown_portal_types, supported_server_service_types, is_legacy_wkid,
  has_spatial_reference_identifier, spatial_reference_wkid, in_scope, item_scopes, matching,
  diagnostics_for_item, diagnostic_review,
}
use honua_migrate.Report.Same.{same_codes-eq, same_codes_refl, both, either, map-In}

abbrev pub item_names : Json → List Json
item_names item = get "id" item ∷ get "title" item ∷ get "serviceUrl" item ∷ get "name" item ∷ []

abbrev pub quote : Text → Text
quote t = codes "`" ++ (t ++ codes "`")

abbrev pub Legacy : ℕ → Type 0
Legacy n = (n ≡ 26711) ⊎ (n ≡ 32040) ⊎ (n ≡ 102671)

pub is_legacy_wkid-Legacy :
    (o : Option ℤ) → is_legacy_wkid o ≡ true → (n : ℕ) × (o ≡ some (pos n)) × Legacy n
unfolding nat_eq
is_legacy_wkid-Legacy none h = cc
is_legacy_wkid-Legacy (some (negsuc n)) h = cc
is_legacy_wkid-Legacy (some (pos n)) h = (n, refl, watched n h)
  where
    watched : (n : ℕ) → is_legacy_wkid (some (pos n)) ≡ true → Legacy n
    watched n h = ground (arith, h)

pub Legacy-is_legacy_wkid : (n : ℕ) → Legacy n → is_legacy_wkid (some (pos n)) ≡ true
unfolding nat_eq
Legacy-is_legacy_wkid n (inl p) = rw p refl
Legacy-is_legacy_wkid n (inr (inl p)) = rw p refl
Legacy-is_legacy_wkid n (inr (inr p)) = rw p refl

module _ (repr : Json → Text) (lower_text : Text → Text) where
  -- `str(value or default)`
  abbrev pub text : Json → String → Text
  text v default = first_text repr lower_text (v ∷ []) default

  abbrev pub because : Json → String → Text → ReviewItem
  because item reason detail = record {
    reason_code = reason;
    item_label = item_label repr lower_text item;
    detail = detail;
  }

  -- A warning or an error of the diagnostics that names the item; a type of portal item that is
  -- complex, or unknown; a feature class without a spatial reference, or with one of the old ones;
  -- or a service of another type than those supported.
  pub data Reason (entries : List Json) (item : Json) : ReviewItem → Type 0 where
    flagged :
        (entry name : Json)
        → In entry entries
        → (text (get "severity" entry) "" ≡ codes "warn")
          ⊎ (text (get "severity" entry) "" ≡ codes "error")
        → In name (item_names item)
        → truthy name ≡ true
        → text (get "scope" entry) "" ≡ text_of repr lower_text name
        → Reason entries item (
            because item "flagged-by-diagnostic" (
              codes "Diagnostic "
              ++ (quote (text (get "code" entry) "diagnostic")
                  ++ (codes " ("
                      ++ (text (get "severity" entry) "warn" ++ codes ") applies to this item.")))))
    complex :
        (name : String)
        → type_text (get "kind" item) ≡ "portal-item"
        → In name manual_review_portal_types
        → codes name ≡ text (get "type" item) ""
        → Reason entries item (
            because item "complex-item-type" (
              quote (text (get "type" item) "")
              ++ codes " usually needs migration planning beyond bulk copy."))
    unsupported_item :
        (name : String)
        → type_text (get "kind" item) ≡ "portal-item"
        → In name unknown_portal_types
        → codes name ≡ text (get "type" item) ""
        → Reason entries item (
            because item "unknown-item-type"
              (codes "Portal item type was classified as unknown or unsupported."))
    no_reference :
        type_text (get "kind" item) ≡ "filegdb-feature-class"
        → has_spatial_reference_identifier (get "sr" item) ≡ false
        → Reason entries item (
            because item "missing-spatial-reference"
              (codes "Feature class spatial reference is missing or incomplete."))
    old_reference :
        (n : ℕ)
        → type_text (get "kind" item) ≡ "filegdb-feature-class"
        → has_spatial_reference_identifier (get "sr" item) ≡ true
        → spatial_reference_wkid (get "sr" item) ≡ some (pos n)
        → Legacy n
        → Reason entries item (
            because item "legacy-spatial-reference" (
              codes "Spatial reference WKID "
              ++ (quote (codes (show_int (pos n))) ++ codes " is on the v0.1 legacy watchlist.")))
    unsupported_service :
        type_text (get "kind" item) ≡ "server-service"
        → All
            (λ name. codes name ≢ text (get "serviceType" item) "Unknown")
            supported_server_service_types
        → Reason entries item (
            because item "unsupported-service-type" (
              quote (text (get "serviceType" item) "Unknown")
              ++ codes " is outside the v0.1 supported service set."))

  matching-In :
      (entries : List Json) (scopes : List Text) (e : Json)
      → In e (matching repr lower_text entries scopes)
      → (scope : Text) × In scope scopes × In e entries × (in_scope repr lower_text scope e ≡ true)
  unfolding matching
  matching-In entries [] e m = elim m [ ]
  matching-In entries (scope ∷ scopes) e m =
      elim (append-In e (keep (in_scope repr lower_text scope) entries) _ m) [
        | inl k ↦
            let (n, t) = keep-In (in_scope repr lower_text scope) e entries k in
            (scope, inl refl, n, t)
        | inr k ↦ let (s, a, n, t) = matching-In entries scopes e k in (s, inr a, n, t)
      ]

  In-matching :
      (entries : List Json) (scopes : List Text) (scope : Text) (e : Json)
      → In scope scopes
      → In e entries
      → in_scope repr lower_text scope e ≡ true
      → In e (matching repr lower_text entries scopes)
  unfolding matching
  In-matching entries [] scope e a n t = elim a [ ]
  In-matching entries (s ∷ scopes) scope e (inl p) n t =
      In-append e (keep (in_scope repr lower_text s) entries) _ (
        inl (
          In-keep (in_scope repr lower_text s) e entries n
            (subst (λ x. in_scope repr lower_text x e ≡ true) p t)))
  In-matching entries (s ∷ scopes) scope e (inr a) n t =
      In-append e (keep (in_scope repr lower_text s) entries) _
        (inr (In-matching entries scopes scope e a n t))

  module _ (entries : List Json) (item : Json) where
    pub diagnostic-Reason :
        (r : ReviewItem)
        → In r (
            map
              (diagnostic_review repr lower_text (item_label repr lower_text item))
              (diagnostics_for_item repr lower_text item entries))
        → Reason entries item r
    unfolding diagnostics_for_item in_scope item_scopes
    diagnostic-Reason r m =
        let (e, k, p) = map-In _ r (diagnostics_for_item repr lower_text item entries) m in
        let (scope, a, n, t) =
          matching-In entries (item_scopes repr lower_text item) e (sorted-In _ e _ k) in
        let (name, b, q) = map-In (text_of repr lower_text) scope _ a in
        let (c, w) = keep-In truthy name (item_names item) b in
        let (severe, named) = both _ _ t in
        subst (Reason entries item) (sym p) (
          flagged e name n (severity e (either _ _ severe)) c w
            (same_codes-eq (text (get "scope" e) "") scope named ∙ q))
      where
        severity :
            (e : Json)
            → (same_codes (text (get "severity" e) "") (codes "warn") ≡ true)
              ⊎ (same_codes (text (get "severity" e) "") (codes "error") ≡ true)
            → (text (get "severity" e) "" ≡ codes "warn")
              ⊎ (text (get "severity" e) "" ≡ codes "error")
        severity e (inl h) = inl (same_codes-eq _ (codes "warn") h)
        severity e (inr h) = inr (same_codes-eq _ (codes "error") h)

    pub Reason-diagnostic :
        (entry name : Json)
        → In entry entries
        → (text (get "severity" entry) "" ≡ codes "warn")
          ⊎ (text (get "severity" entry) "" ≡ codes "error")
        → In name (item_names item)
        → truthy name ≡ true
        → text (get "scope" entry) "" ≡ text_of repr lower_text name
        → In entry (diagnostics_for_item repr lower_text item entries)
    unfolding diagnostics_for_item in_scope item_scopes
    Reason-diagnostic entry name n severe c w same = In-sorted _ entry _ (
        In-matching entries (item_scopes repr lower_text item) (text_of repr lower_text name) entry
          (In-map (text_of repr lower_text) name _ (In-keep truthy name (item_names item) c w)) n
          (and_true (or_true severe) (
            subst (λ t. same_codes (text (get "scope" entry) "") t ≡ true) same
              (same_codes_refl (text (get "scope" entry) "")))))
      where
        and_true : {a b : Bool} → a ≡ true → b ≡ true → (a && b) ≡ true
        and_true p q = rw (p, q) refl

        or_true :
            (text (get "severity" entry) "" ≡ codes "warn")
              ⊎ (text (get "severity" entry) "" ≡ codes "error")
            → (same_codes (text (get "severity" entry) "") (codes "warn")
                || same_codes (text (get "severity" entry) "") (codes "error"))
              ≡ true
        or_true (inl p) = rw (p, same_codes_refl (codes "warn")) refl
        or_true (inr p) =
            rw (p, same_codes_refl (codes "error"))
              (or_last (same_codes (codes "error") (codes "warn")))
          where
            or_last : (b : Bool) → (b || true) ≡ true
            or_last true = refl
            or_last false = refl
