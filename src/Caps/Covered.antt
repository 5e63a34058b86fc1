-- ===== src/Caps/Covered.antt =====
-- How a detected entry of the registry is counted under a capability key.
use honua_migrate.Base.{
  ◌≤◌, ◌≡◌, refl, subst, inl, inr, List, [], ◌∷◌, String, ◌==◌, string_eq, nat_eq, contains, arith,
  Bool-cases, In, In-append, contains-In, All, eq_of_==,
}
use honua_migrate.Verdict.Registry.{tier_rank}
use honua_migrate.Caps.Mapper.{
  CapabilityMatch, Detected, add_to, add_detected, empty_bucket, add_to_bucket, add_to_buckets,
}

abbrev pub Counts : Detected → String → CapabilityMatch → Type 0
Counts d key b =
    (b.key ≡ key)
    × In d.key b.assess_keys
    × (d.count ≤ b.matched_inventory_count)
    × (tier_rank d.tier ≤ tier_rank b.tier)

abbrev pub Covered : Detected → String → List CapabilityMatch → Type 0
Covered d key bs = (b : CapabilityMatch) × In b bs × Counts d key b

In-add_to : (ks : List String) (k j : String) → In j ks → In j (add_to ks k)
In-add_to ks k j h = elim (Bool-cases (contains ks k)) [
  | inl e ↦ rw e h
  | inr e ↦ rw e (In-append j ks (k ∷ []) (inl h))
]

added-In : (ks : List String) (k : String) → In k (add_to ks k)
added-In ks k = elim (Bool-cases (contains ks k)) [
  | inl e ↦ rw e (contains-In ks k e)
  | inr e ↦ rw e (In-append k ks (k ∷ []) (inr (inl refl)))
]

Counts-add_detected :
    (d e : Detected) (key : String) (b : CapabilityMatch)
    → Counts d key b
    → Counts d key (add_detected e b)
Counts-add_detected d e key b (p, m, n, t) =
    (p, In-add_to b.assess_keys e.key d.key m, omega (arith, n), ground (arith, t))

add_detected-Counts : (d : Detected) (b : CapabilityMatch) → Counts d b.key (add_detected d b)
add_detected-Counts d b = (refl, added-In b.assess_keys d.key, omega arith, ground arith)

Covered-add_to_bucket :
    (d e : Detected) (key other : String) (bs : List CapabilityMatch)
    → Covered d key bs
    → Covered d key (add_to_bucket e other bs)
unfolding add_to_bucket
Covered-add_to_bucket d e key other [] (b, m, c) = elim m [ ]
Covered-add_to_bucket d e key other (x ∷ bs) (b, m, c) = elim (Bool-cases (x.key == other)) [
  | inl q ↦ rw q (elim m [
    | inl p ↦ (add_detected e x, inl refl, Counts-add_detected d e key x (subst (Counts d key) p c))
    | inr n ↦ (b, inr n, c)
  ])
  | inr q ↦ rw q (elim m [
    | inl p ↦ (x, inl refl, subst (Counts d key) p c)
    | inr n ↦ let (y, k, r) = Covered-add_to_bucket d e key other bs (b, n, c) in (y, inr k, r)
  ])
]

add_to_bucket-Covered :
    (d : Detected) (key : String) (bs : List CapabilityMatch)
    → Covered d key (add_to_bucket d key bs)
unfolding add_to_bucket
add_to_bucket-Covered d key [] =
    (add_detected d (empty_bucket key), inl refl, add_detected-Counts d (empty_bucket key))
add_to_bucket-Covered d key (x ∷ bs) = elim (Bool-cases (x.key == key)) [
  | inl q ↦ rw q (
    add_detected d x,
    inl refl,
    subst (λ k. Counts d k (add_detected d x)) (eq_of_== x.key key q) (add_detected-Counts d x),
  )
  | inr q ↦ rw q (let (y, k, r) = add_to_bucket-Covered d key bs in (y, inr k, r))
]

pub Covered-add_to_buckets :
    (d e : Detected) (key : String) (others : List String) (bs : List CapabilityMatch)
    → Covered d key bs
    → Covered d key (add_to_buckets e others bs)
unfolding add_to_buckets
Covered-add_to_buckets d e key [] bs h = h
Covered-add_to_buckets d e key (o ∷ others) bs h =
    Covered-add_to_buckets d e key others (add_to_bucket e o bs)
      (Covered-add_to_bucket d e key o bs h)

pub add_to_buckets-Covered :
    (d : Detected) (keys : List String) (bs : List CapabilityMatch)
    → All (λ key. Covered d key (add_to_buckets d keys bs)) keys
unfolding add_to_buckets
add_to_buckets-Covered d [] bs = tt
add_to_buckets-Covered d (k ∷ keys) bs = (
  Covered-add_to_buckets d d k keys (add_to_bucket d k bs) (add_to_bucket-Covered d k bs),
  add_to_buckets-Covered d keys (add_to_bucket d k bs),
)

-- The one place of a detected key, by what the crosswalk has for it.
