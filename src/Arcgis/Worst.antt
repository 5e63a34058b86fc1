-- ===== src/Arcgis/Worst.antt =====
-- The outcome of a handoff of services/arcgis.py is the worst of the three that it is told.
use honua_migrate.Base.{
  ◌≡◌, refl, sym, subst, ◌∙◌, inl, inr, Bool, true, false, not, ◌&&◌, ◌||◌, Bool-cases, arith, List,
  [], ◌∷◌, String, ◌==◌, ==_refl, eq_of_==, string_eq, if◌then◌else◌, contains, any,
}
use honua_migrate.Runs.Contracts.{ok, ok-injective}
use honua_migrate.Arcgis.Refusals.{kept}
use honua_migrate.Arcgis.Handoff.{outcome_values, handoff_outcome}

abbrev pub is : String → String → Bool
is v w = v == w

-- The outcome is the worst of the three: success where all three are, failed where one is.
pub record Worst (a b c outcome : String) : Type 0 where
  pub success : is outcome "success" ≡ (is a "success" && (is b "success" && is c "success"))
  pub failed : is outcome "failed" ≡ (is a "failed" || (is b "failed" || is c "failed"))

abbrev not_done : List String
not_done = "partial" ∷ "unknown" ∷ []

apart : is "success" "success" ≡ not (is "success" "failed" || contains not_done "success")
unfolding string_eq
apart = refl

-- A known value is success where it is none of the others.
known_outcome :
    (v : String)
    → contains outcome_values v ≡ true
    → is v "success" ≡ not (is v "failed" || contains not_done v)
known_outcome v h = elim (Bool-cases (is v "success")) [
  | inl p ↦
      subst (λ w. is w "success" ≡ not (is w "failed" || contains not_done w))
        (sym (eq_of_== v "success" p)) apart
  | inr n ↦ ground (arith, n, h)
]

distinct_outcomes :
    (is "failed" "success" ≡ false)
    × (is "partial" "success" ≡ false)
    × (is "partial" "failed" ≡ false)
    × (is "success" "failed" ≡ false)
unfolding string_eq
distinct_outcomes = (refl, refl, refl, refl)

no_one :
    (x y z : Bool) → (x || (y || (z || false))) ≡ false → (x ≡ false) × (y ≡ false) × (z ≡ false)
no_one x y z h = (ground (arith, h), ground (arith, h), ground (arith, h))

known_three :
    (x y z : Bool)
    → (not x || (not y || (not z || false))) ≡ false
    → (x ≡ true) × (y ≡ true) × (z ≡ true)
known_three x y z h = (ground (arith, h), ground (arith, h), ground (arith, h))

module _ (s₁ s₂ s₃ f₁ f₂ f₃ p₁ p₂ p₃ : Bool) (k₁ : s₁ ≡ not (f₁ || p₁)) (k₂ : s₂ ≡ not (f₂ || p₂))
    (k₃ : s₃ ≡ not (f₃ || p₃)) where
  any_failed :
      (f₁ || (f₂ || (f₃ || false))) ≡ true
      → (false ≡ (s₁ && (s₂ && s₃))) × (true ≡ (f₁ || (f₂ || f₃)))
  any_failed h = (ground (arith, k₁, k₂, k₃, h), ground (arith, h))

  any_unfinished :
      (f₁ || (f₂ || (f₃ || false))) ≡ false
      → (p₁ || (p₂ || (p₃ || false))) ≡ true
      → (false ≡ (s₁ && (s₂ && s₃))) × (false ≡ (f₁ || (f₂ || f₃)))
  any_unfinished f h = (ground (arith, k₁, k₂, k₃, h), ground (arith, f))

  all_done :
      (f₁ || (f₂ || (f₃ || false))) ≡ false
      → (p₁ || (p₂ || (p₃ || false))) ≡ false
      → (true ≡ (s₁ && (s₂ && s₃))) × (false ≡ (f₁ || (f₂ || f₃)))
  all_done f h = (ground (arith, k₁, k₂, k₃, f, h), ground (arith, f))

module _ (a b c : String) where
  abbrev one_failed : Bool
  one_failed = is a "failed" || (is b "failed" || (is c "failed" || false))

  abbrev one_unfinished : Bool
  one_unfinished = contains not_done a || (contains not_done b || (contains not_done c || false))

  module _ (ka : is a "success" ≡ not (is a "failed" || contains not_done a))
      (kb : is b "success" ≡ not (is b "failed" || contains not_done b))
      (kc : is c "success" ≡ not (is c "failed" || contains not_done c)) where
    outcome_worst :
        (f p : Bool) (outcome : String)
        → one_failed ≡ f
        → one_unfinished ≡ p
        → (if f then ok "failed" else if p then ok "partial" else ok "success") ≡ ok outcome
        → Worst a b c outcome
    outcome_worst true p outcome f q e =
        let (s, t) =
          any_failed (is a "success") (is b "success") (is c "success") (is a "failed")
            (is b "failed") (is c "failed") (contains not_done a) (contains not_done b)
            (contains not_done c) ka kb kc f in
        subst (Worst a b c) (sym (ok-injective e))
          (record { success = distinct_outcomes.0 ∙ s; failed = ==_refl {A = String} "failed" ∙ t })
    outcome_worst false true outcome f q e =
        let (s, t) =
          any_unfinished (is a "success") (is b "success") (is c "success") (is a "failed")
            (is b "failed") (is c "failed") (contains not_done a) (contains not_done b)
            (contains not_done c) ka kb kc f q in
        subst (Worst a b c) (sym (ok-injective e))
          (record { success = distinct_outcomes.1 ∙ s; failed = distinct_outcomes.2 ∙ t })
    outcome_worst false false outcome f q e =
        let (s, t) =
          all_done (is a "success") (is b "success") (is c "success") (is a "failed")
            (is b "failed") (is c "failed") (contains not_done a) (contains not_done b)
            (contains not_done c) ka kb kc f q in
        subst (Worst a b c) (sym (ok-injective e)) (record {
          success = ==_refl {A = String} "success" ∙ s;
          failed = distinct_outcomes.3 ∙ t;
        })

  pub handoff_outcome-Worst :
      (outcome : String) → handoff_outcome a b c ≡ ok outcome → Worst a b c outcome
  unfolding handoff_outcome
  handoff_outcome-Worst outcome e =
      let (known, e₁) = kept (any (λ v. not (contains outcome_values v)) (a ∷ b ∷ c ∷ [])) _ e in
      let (ka, kb, kc) =
        known_three (contains outcome_values a) (contains outcome_values b)
          (contains outcome_values c) known in
      outcome_worst (known_outcome a ka) (known_outcome b kb) (known_outcome c kc) one_failed
        one_unfinished outcome refl refl e₁
