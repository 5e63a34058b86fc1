-- ===== src/Arcgis/Declared.antt =====
-- The artifact of a handoff of services/arcgis.py says what its options declare, and no more than
-- they may.
use honua_migrate.Base.{
  ◌≡◌, refl, sym, subst, ◌⊎◌, inl, inr, ◌↔◌, true, false, not, ◌&&◌, ◌||◌, Bool-cases, arith, List,
  [], ◌∷◌, String, ◌==◌, eq_of_==, string_eq, contains, all, is_empty, length, ltb, In,
}
use honua_migrate.Runs.Contracts.{ok, then_result-eq-ok, ok-injective}
use honua_migrate.Readiness.Words.{is_set}
use honua_migrate.Arcgis.Refusals.{kept, passed}
use honua_migrate.Arcgis.Scope.{add_new}
use honua_migrate.Arcgis.Collect.{Once, add_new-Once, add_new-In}
use honua_migrate.Arcgis.Handoff.{
  read_only_mode, source_change_values, Options, is_one_of, ModeFields, with_baseline, with_cutover,
  handoff_mode_fields, unique_changes, handoff_source_changes,
}

-- What a mode asks for: a source that still serves, with evidence and a way back; or an authority
-- for writes, a window and a limit
pub data ByMode {F : Type 0} (o : Options F) : ModeFields → Type 0 where
  read_only :
      o.mode ≡ read_only_mode
      → o.source_still_serving ≡ true
      → is_set o.baseline_evidence ≡ true
      → is_set o.route_back_method ≡ true
      → ByMode o (
          with_baseline
            (record { evidence = o.baseline_evidence; route_back_method = o.route_back_method }))
  writable :
      (o.mode == read_only_mode) ≡ false
      → is_one_of ("source" ∷ "target" ∷ []) o.write_authority ≡ true
      → is_set o.quiescence_window ≡ true
      → is_set o.divergence_limit ≡ true
      → ByMode o (
          with_cutover (record {
            write_authority = o.write_authority;
            quiescence_window = o.quiescence_window;
            divergence_limit = o.divergence_limit;
          }))

pub handoff_mode_fields-ByMode :
    {F : Type 0} (o : Options F) (fields : ModeFields)
    → handoff_mode_fields o ≡ ok fields
    → ByMode o fields
unfolding handoff_mode_fields
handoff_mode_fields-ByMode o fields e = elim (Bool-cases (o.mode == read_only_mode)) [
  | inl m ↦
      let (_, e₁) =
        kept (is_set o.write_authority || is_set o.quiescence_window || is_set o.divergence_limit) _
          (rw m at e) in
      let (b, e₂) =
        kept
          (not o.source_still_serving
            || not (is_set o.baseline_evidence)
            || not (is_set o.route_back_method))
          _ e₁ in
      subst (ByMode o) (sym (ok-injective e₂)) (
        read_only (eq_of_== o.mode read_only_mode m) (ground (arith, b)) (ground (arith, b))
          (ground (arith, b)))
  | inr m ↦
      let (_, e₁) = kept (is_set o.baseline_evidence || is_set o.route_back_method) _ (rw m at e) in
      let (b, e₂) =
        kept
          (not (is_one_of ("source" ∷ "target" ∷ []) o.write_authority)
            || not (is_set o.quiescence_window)
            || not (is_set o.divergence_limit))
          _ e₁ in
      subst (ByMode o) (sym (ok-injective e₂))
        (writable m (ground (arith, b)) (ground (arith, b)) (ground (arith, b)))
]

-- The changes are those that were given, each once, all of them known, and `none` alone
pub record Changes (given changes : List String) : Type 0 where
  pub same_ones : (v : String) → In v changes ↔ In v given
  pub once : Once changes
  pub known : all (contains source_change_values) given ≡ true
  pub some_change : is_empty changes ≡ false
  pub alone : (contains changes "none" && ltb 1 (length changes)) ≡ false

unique_changes-Once :
    (values unique changes : List String)
    → unique_changes values unique ≡ ok changes
    → Once unique
    → Once changes
      × (all (contains source_change_values) values ≡ true)
      × ((v : String) → In v changes ↔ (In v unique ⊎ In v values))
unfolding unique_changes
unique_changes-Once [] unique changes e o =
    subst (λ cs. Once cs × (true ≡ true) × ((v : String) → In v cs ↔ (In v unique ⊎ In v [])))
      (sym (ok-injective e)) (o, refl, λ v. (λ h. inl h, back v))
  where
    back : (v : String) → In v unique ⊎ In v [] → In v unique
    back v (inl h) = h
    back v (inr h) = elim h [ ]
unique_changes-Once (x ∷ xs) unique changes e o =
    let (k, e₁) = passed (contains source_change_values x) _ e in
    let (once, known, same) =
      unique_changes-Once xs (add_new unique x) changes e₁ (add_new-Once unique x o) in
    (once, ground (arith, k, known), λ v. (there v (same v).0, back v (same v).1))
  where
    there :
        (v : String)
        → (In v changes → In v (add_new unique x) ⊎ In v xs)
        → In v changes
        → In v unique ⊎ In v (x ∷ xs)
    there v f h = elim (f h) [
      | inr r ↦ inr (inr r)
      | inl l ↦ elim ((add_new-In v unique x).0 l) [ inl old ↦ inl old | inr new ↦ inr (inl new) ]
    ]

    back :
        (v : String)
        → (In v (add_new unique x) ⊎ In v xs → In v changes)
        → In v unique ⊎ In v (x ∷ xs)
        → In v changes
    back v g (inl h) = g (inl ((add_new-In v unique x).1 (inl h)))
    back v g (inr (inl p)) = g (inl ((add_new-In v unique x).1 (inr p)))
    back v g (inr (inr h)) = g (inr h)

pub handoff_source_changes-Changes :
    (given changes : List String)
    → handoff_source_changes given ≡ ok changes
    → Changes given changes
unfolding handoff_source_changes
handoff_source_changes-Changes given changes e =
    let (unique, u, e₁) = then_result-eq-ok (unique_changes given []) _ e in
    let (once, known, same) = unique_changes-Once given [] unique u tt in
    let (present, e₂) = kept (is_empty unique) _ e₁ in
    let (alone, e₃) = kept (contains unique "none" && ltb 1 (length unique)) _ e₂ in
    let found : Changes given unique = record {
      same_ones = λ v. ((λ h. given_only v ((same v).0 h)), λ h. (same v).1 (inr h));
      once = once;
      known = known;
      some_change = present;
      alone = alone;
    } in
    subst (Changes given) (sym (ok-injective e₃)) found
  where
    given_only : (v : String) → In v [] ⊎ In v given → In v given
    given_only v (inl h) = elim h [ ]
    given_only v (inr h) = h
