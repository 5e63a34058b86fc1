-- ===== src/Verdict/LockIns.antt =====
-- A hard lock-in that the footprint exhibits is never dropped.
use honua_migrate.Base.{
  ◌≡◌, ◌↔◌, refl, ap, subst, ◌⊎◌, inl, inr, Bool, true, false, List, [], ◌∷◌, String, map, arith,
  Bool-cases, In, In-keep, In-map, any, keep, contains, string_eq, nat_eq, if◌then◌else◌, ◌≢◌, ltb,
}
use honua_migrate.Base.Sort.{In-sorted}
use honua_migrate.Json.{Json}
use honua_migrate.Verdict.Registry.{
  CapabilityEntry, Tier, go, conditional, no_go, tier_rank, matches,
}
use honua_migrate.Verdict.Detect.{inventory_items, detect, detected_entries, Extents}
use honua_migrate.Verdict.Profile.{
  SignalSummary, very_high, entries_for_profile, has_boundary, is_relevant, worst_tier,
  verdict_for_entries, effort_band, boundary_of, boundary_le, boundaries, profile_verdict,
  hard_lock_ins,
}

any-In :
    {A : Type 0} (test : A → Bool) (a : A) (xs : List A)
    → In a xs
    → test a ≡ true
    → any test xs ≡ true
any-In test a [] h e = elim h [ ]
any-In test a (x ∷ xs) (inl p) e = rw (← p, e)
any-In test a (x ∷ xs) (inr p) e = ground (arith, any-In test a xs p e)

-- The keys of a registry are distinct, and none is among those seen.
abbrev pub DistinctKeys : List String → List CapabilityEntry → Type 0
DistinctKeys seen [] = Unit
DistinctKeys seen (e ∷ es) = (contains seen e.key ≡ false) × DistinctKeys (e.key ∷ seen) es

DistinctKeys-weaken :
    (seen more : List String) (es : List CapabilityEntry)
    → ((s : String) → contains more s ≡ false → contains seen s ≡ false)
    → DistinctKeys more es
    → DistinctKeys seen es
DistinctKeys-weaken seen more [] h d = tt
DistinctKeys-weaken seen more (e ∷ es) h (new, d) = (
  h e.key new,
  DistinctKeys-weaken (e.key ∷ seen) (e.key ∷ more) es (λ s k. ground (arith, h s)) d,
)

-- An entry of the registry that some item matches is detected.
In-detect :
    (entries : List CapabilityEntry) (items : List Json) (seen : List String) (e : CapabilityEntry)
    → DistinctKeys seen entries
    → In e entries
    → any (matches e) items ≡ true
    → In e (detect entries items seen)
unfolding detect
In-detect [] items seen e d h m = elim h [ ]
In-detect (x ∷ xs) items seen e (new, d) (inl p) m = rw new (rw (← p) (rw m (inl refl)))
In-detect (x ∷ xs) items seen e (new, d) (inr p) m = elim (Bool-cases (any (matches x) items)) [
  | inl t ↦ rw (new, t) (inr (In-detect xs items (x.key ∷ seen) e d p m))
  | inr t ↦
      rw (new, t)
        (In-detect xs items seen e
          (DistinctKeys-weaken seen (x.key ∷ seen) xs (λ s k. ground arith) d) p m)
]

-- What is detected is an entry of the registry that some item matches.
detect-In :
    (entries : List CapabilityEntry) (items : List Json) (seen : List String) (e : CapabilityEntry)
    → In e (detect entries items seen)
    → In e entries × (any (matches e) items ≡ true)
unfolding detect
detect-In [] items seen e h = elim h [ ]
detect-In (x ∷ xs) items seen e h =
    choose (contains seen x.key) (any (matches x) items) refl h (detect-In xs items seen e)
      (detect-In xs items (x.key ∷ seen) e)
  where
    found : List String → Type 0
    found s = In e (detect xs items s)

    choose :
        (skip take : Bool)
        → any (matches x) items ≡ take
        → In e (
            if skip
            then detect xs items seen
            else if take
            then x ∷ detect xs items (x.key ∷ seen)
            else detect xs items seen)
        → (found seen → In e xs × (any (matches e) items ≡ true))
        → (found (x.key ∷ seen) → In e xs × (any (matches e) items ≡ true))
        → In e (x ∷ xs) × (any (matches e) items ≡ true)
    choose true take m k ih ih' = let (p, q) = ih k in (inr p, q)
    choose false false m k ih ih' = let (p, q) = ih k in (inr p, q)
    choose false true m (inl p) ih ih' = (inl p, rw p m)
    choose false true m (inr p) ih ih' = let (q, r) = ih' p in (inr q, r)

-- With distinct keys in the registry, the detected entries are exactly those of the registry that
-- some mapping of the inventory matches.
pub In-detected_entries :
    (registry : List CapabilityEntry) (footprint : Json) (e : CapabilityEntry)
    → DistinctKeys [] registry
    → In e (detected_entries registry footprint)
      ↔ (In e registry × (any (matches e) (inventory_items footprint) ≡ true))
unfolding detected_entries
In-detected_entries registry footprint e d = (
  detect-In registry (inventory_items footprint) [] e,
  λ (p, m). In-detect registry (inventory_items footprint) [] e d p m,
)

no_go_worst :
    (t : Tier) (e : CapabilityEntry) (es : List CapabilityEntry)
    → (t ≡ no_go) ⊎ In e es
    → e.tier ≡ no_go
    → worst_tier t es ≡ no_go
unfolding worst_tier
no_go_worst t e [] (inl p) n = p
no_go_worst t e [] (inr p) n = elim p [ ]
no_go_worst t e (x ∷ es) (inl p) n =
    no_go_worst (if ltb (tier_rank t) (tier_rank x.tier) then x.tier else t) e es
      (inl (ground arith)) n
no_go_worst t e (x ∷ es) (inr (inl p)) n =
    no_go_worst (if ltb (tier_rank t) (tier_rank x.tier) then x.tier else t) e es
      (inl (ground (arith, ap (λ y. y.tier) p, rank_top t x.tier))) n
  where
    rank_top : (t u : Tier) → u ≡ no_go → (if ltb (tier_rank t) (tier_rank u) then u else t) ≡ no_go
    rank_top go u p = rw p
    rank_top conditional u p = rw p
    rank_top no_go u p = rw p
no_go_worst t e (x ∷ es) (inr (inr p)) n =
    no_go_worst (if ltb (tier_rank t) (tier_rank x.tier) then x.tier else t) e es (inr p) n

verdict-no_go :
    (e : CapabilityEntry) (es : List CapabilityEntry)
    → In e es
    → e.tier ≡ no_go
    → verdict_for_entries es ≡ no_go
unfolding verdict_for_entries
verdict-no_go e [] h n = elim h [ ]
verdict-no_go e (x ∷ es) (inl p) n = no_go_worst x.tier e es (inl (rw (← p) n)) n
verdict-no_go e (x ∷ es) (inr p) n = no_go_worst x.tier e es (inr p) n

no_go_effort :
    (entries : List CapabilityEntry) (signals : SignalSummary) {v : Tier}
    → v ≡ no_go
    → effort_band entries v signals ≡ very_high
unfolding effort_band
no_go_effort entries signals p = rw p refl

boundary-In :
    (extents : Extents) (e : CapabilityEntry) (entries : List CapabilityEntry)
    → In e entries
    → e.tier ≡ no_go
    → e.boundary ≢ ""
    → In (boundary_of extents e) (boundaries entries extents)
unfolding boundaries string_eq nat_eq
boundary-In extents e entries m n b =
    In-sorted boundary_le (boundary_of extents e)
      (map (boundary_of extents) (keep has_boundary entries))
      (In-map (boundary_of extents) e (keep has_boundary entries)
        (In-keep has_boundary e entries m (rw n (ground (arith, b)))))

hard_lock_ins-In :
    (detected : List CapabilityEntry) (extents : Extents) (e : CapabilityEntry)
    → In e detected
    → e.hard_lock_in ≡ true
    → In (boundary_of extents e) (hard_lock_ins detected extents)
unfolding hard_lock_ins boundary_of
hard_lock_ins-In detected extents e h hard =
    subst (λ b. In b (hard_lock_ins detected extents)) (marked extents e hard)
      (In-map (λ e. record (boundary_of extents e) { hard_lock_in = true }) e
        (keep (λ e. e.hard_lock_in) detected) (In-keep (λ e. e.hard_lock_in) e detected h hard))
  where
    marked :
        (extents : Extents) (e : CapabilityEntry)
        → e.hard_lock_in ≡ true
        → record (boundary_of extents e) { hard_lock_in = true } ≡ boundary_of extents e
    marked extents e hard = rw hard refl

-- A detected hard lock-in of the tier no-go makes every profile's verdict no-go and its effort the
-- highest, whatever profiles it is listed for; it is among the profile's matched capabilities and,
-- where it has a boundary text, its boundary is among the profile's; and it is among the lock-ins
-- of the whole footprint.
pub profile_verdict_lem :
    (detected : List CapabilityEntry) (extents : Extents) (signals : SignalSummary)
    (profile : String) (e : CapabilityEntry)
    → In e detected
    → e.hard_lock_in ≡ true
    → e.tier ≡ no_go
    → e.boundary ≢ ""
    → let v = profile_verdict detected extents signals profile in
      (v.verdict ≡ no_go)
      × (v.effort ≡ very_high)
      × In e.key v.matched_capabilities
      × In (boundary_of extents e) v.boundary_list
      × In (boundary_of extents e) (hard_lock_ins detected extents)
unfolding profile_verdict entries_for_profile hard_lock_ins
profile_verdict_lem detected extents signals profile e h hard n b =
    let m : In e (entries_for_profile profile detected) =
      In-keep (is_relevant profile) e detected h (ground (arith, hard)) in
    let v : verdict_for_entries (entries_for_profile profile detected) ≡ no_go =
      verdict-no_go e (entries_for_profile profile detected) m n in
    (
      v,
      no_go_effort (entries_for_profile profile detected) signals v,
      In-map (λ e. e.key) e (entries_for_profile profile detected) m,
      boundary-In extents e (entries_for_profile profile detected) m n b,
      hard_lock_ins-In detected extents e h hard,
    )
