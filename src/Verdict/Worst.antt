-- ===== src/Verdict/Worst.antt =====
-- A profile's verdict is the worst tier of its entries.
use honua_migrate.Base.{
  ◌≡◌, refl, ◌⊎◌, inl, inr, List, [], ◌∷◌, arith, In, All, ltb, ◌≤◌, if◌then◌else◌, Bool-cases,
}
use honua_migrate.Verdict.Registry.{CapabilityEntry, Tier, go, tier_rank}
use honua_migrate.Verdict.Profile.{worst_tier, verdict_for_entries}

abbrev pub Bounds : Tier → List CapabilityEntry → Type 0
Bounds t es = All (λ e. tier_rank e.tier ≤ tier_rank t) es

worst_tier-ge : (t : Tier) (es : List CapabilityEntry) → tier_rank t ≤ tier_rank (worst_tier t es)
unfolding worst_tier
worst_tier-ge t [] = omega arith
worst_tier-ge t (e ∷ es) = ground (arith, worst_tier-ge t es, worst_tier-ge e.tier es)

worst_tier-Bounds : (t : Tier) (es : List CapabilityEntry) → Bounds (worst_tier t es) es
unfolding worst_tier
worst_tier-Bounds t [] = tt
worst_tier-Bounds t (e ∷ es) =
    let next : Tier = if ltb (tier_rank t) (tier_rank e.tier) then e.tier else t in
    (ground (arith, worst_tier-ge next es), worst_tier-Bounds next es)

worst_tier_attained :
    (t : Tier) (es : List CapabilityEntry)
    → (worst_tier t es ≡ t) ⊎ ((e : CapabilityEntry) × In e es × (worst_tier t es ≡ e.tier))
unfolding worst_tier
worst_tier_attained t [] = inl refl
worst_tier_attained t (e ∷ es) = elim (Bool-cases (ltb (tier_rank t) (tier_rank e.tier))) [
  | inl h ↦ rw h (elim (worst_tier_attained e.tier es) [
    | inl p ↦ inr (e, inl refl, p)
    | inr (x, m, p) ↦ inr (x, inr m, p)
  ])
  | inr h ↦
      rw h (elim (worst_tier_attained t es) [ inl p ↦ inl p | inr (x, m, p) ↦ inr (x, inr m, p) ])
]

-- No entry of the profile has a worse tier than the verdict, and the verdict is the tier of one of
-- them, or `go` where the profile has none.
pub verdict_for_entries_worst :
    (es : List CapabilityEntry)
    → Bounds (verdict_for_entries es) es
      × (((es ≡ []) × (verdict_for_entries es ≡ go))
          ⊎ ((e : CapabilityEntry) × In e es × (verdict_for_entries es ≡ e.tier)))
unfolding verdict_for_entries
verdict_for_entries_worst [] = (tt, inl (refl, refl))
verdict_for_entries_worst (e ∷ es) = (
  (worst_tier-ge e.tier es, worst_tier-Bounds e.tier es),
  elim (worst_tier_attained e.tier es) [
    | inl p ↦ inr (e, inl refl, p)
    | inr (x, m, p) ↦ inr (x, inr m, p)
  ],
)
