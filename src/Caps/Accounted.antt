-- ===== src/Caps/Accounted.antt =====
-- No detected key of the registry is lost on the way to the result.
use honua_migrate.Base.{
  ◌≤◌, ◌≡◌, refl, subst, inl, inr, false, List, [], ◌∷◌, String, ◌==◌, string_eq, nat_eq, map,
  count_if, Option, none, some, arith, Bool-cases, In, In-append, In-map, All,
}
use honua_migrate.Base.Sort.{sorted, In-sorted}
use honua_migrate.Base.Text.{text_le}
use honua_migrate.Json.{Json}
use honua_migrate.Verdict.Registry.{CapabilityEntry, matches, capability_registry}
use honua_migrate.Verdict.Detect.{inventory_items}
use honua_migrate.Caps.Crosswalk.{Crosswalk, capability_keys_for}
use honua_migrate.Caps.Mapper.{
  not_supported, unmapped_key, CapabilityMatch, UnmappedCapability, Detected, detected_counts,
  detected_le, match_le, add_to_buckets, Tally, as_unmapped, tally_one, tally, capability_of,
  evaluate_caps,
}
use honua_migrate.Caps.Covered.{Covered, Covered-add_to_buckets, add_to_buckets-Covered}

-- A bucket of the key counts the detected key: by name, with its items, at least at its tier.
abbrev pub Accounted :
    Detected → Option (List String) → List CapabilityMatch → List UnmappedCapability → Type 0
Accounted d none bs us = In (as_unmapped d not_supported) us
Accounted d (some []) bs us = In (as_unmapped d unmapped_key) us
Accounted d (some (key ∷ keys)) bs us = All (λ key. Covered d key bs) (key ∷ keys)

All-Covered :
    (d e : Detected) (others keys : List String) (bs : List CapabilityMatch)
    → All (λ key. Covered d key bs) keys
    → All (λ key. Covered d key (add_to_buckets e others bs)) keys
All-Covered d e others [] bs h = tt
All-Covered d e others (k ∷ keys) bs (c, h) =
    (Covered-add_to_buckets d e k others bs c, All-Covered d e others keys bs h)

Accounted-tally_one :
    (d e : Detected) (found other : Option (List String)) (t : Tally)
    → Accounted d found t.accum t.unmapped
    → let u = tally_one e other t in Accounted d found u.accum u.unmapped
unfolding tally_one
Accounted-tally_one d e none none t h = In-append (as_unmapped d not_supported) t.unmapped _ (inl h)
Accounted-tally_one d e none (some []) t h =
    In-append (as_unmapped d not_supported) t.unmapped _ (inl h)
Accounted-tally_one d e none (some (o ∷ os)) t h = h
Accounted-tally_one d e (some []) none t h =
    In-append (as_unmapped d unmapped_key) t.unmapped _ (inl h)
Accounted-tally_one d e (some []) (some []) t h =
    In-append (as_unmapped d unmapped_key) t.unmapped _ (inl h)
Accounted-tally_one d e (some []) (some (o ∷ os)) t h = h
Accounted-tally_one d e (some (k ∷ ks)) none t h = h
Accounted-tally_one d e (some (k ∷ ks)) (some []) t h = h
Accounted-tally_one d e (some (k ∷ ks)) (some (o ∷ os)) t h =
    All-Covered d e (o ∷ os) (k ∷ ks) t.accum h

tally_one-Accounted :
    (d : Detected) (found : Option (List String)) (t : Tally)
    → let u = tally_one d found t in Accounted d found u.accum u.unmapped
unfolding tally_one
tally_one-Accounted d none t = In-append (as_unmapped d not_supported) t.unmapped _ (inr (inl refl))
tally_one-Accounted d (some []) t =
    In-append (as_unmapped d unmapped_key) t.unmapped _ (inr (inl refl))
tally_one-Accounted d (some (k ∷ ks)) t = add_to_buckets-Covered d (k ∷ ks) t.accum

Accounted-tally :
    (crosswalk : Crosswalk) (ds : List Detected) (d : Detected) (found : Option (List String))
    (t : Tally)
    → Accounted d found t.accum t.unmapped
    → let u = tally crosswalk ds t in Accounted d found u.accum u.unmapped
unfolding tally
Accounted-tally crosswalk [] d found t h = h
Accounted-tally crosswalk (e ∷ ds) d found t h =
    Accounted-tally crosswalk ds d found (tally_one e (capability_keys_for crosswalk e.key) t)
      (Accounted-tally_one d e found (capability_keys_for crosswalk e.key) t h)

tally-Accounted :
    (crosswalk : Crosswalk) (ds : List Detected) (d : Detected) (t : Tally)
    → In d ds
    → let u = tally crosswalk ds t in
      Accounted d (capability_keys_for crosswalk d.key) u.accum u.unmapped
unfolding tally
tally-Accounted crosswalk [] d t h = elim h [ ]
tally-Accounted crosswalk (e ∷ ds) d t (inl p) = rw p (
    Accounted-tally crosswalk ds e (capability_keys_for crosswalk e.key)
      (tally_one e (capability_keys_for crosswalk e.key) t)
      (tally_one-Accounted e (capability_keys_for crosswalk e.key) t))
tally-Accounted crosswalk (e ∷ ds) d t (inr m) =
    tally-Accounted crosswalk ds d (tally_one e (capability_keys_for crosswalk e.key) t) m

Covered-capabilities :
    (d : Detected) (key : String) (bs : List CapabilityMatch)
    → Covered d key bs
    → Covered d key (map capability_of (sorted match_le bs))
unfolding capability_of
Covered-capabilities d key bs (b, m, (p, k, n, t)) = (
  capability_of b,
  In-map capability_of b (sorted match_le bs) (In-sorted match_le b bs m),
  (p, In-sorted text_le d.key b.assess_keys k, n, t),
)

Accounted-capabilities :
    (d : Detected) (found : Option (List String)) (bs : List CapabilityMatch)
    (us : List UnmappedCapability)
    → Accounted d found bs us
    → Accounted d found (map capability_of (sorted match_le bs)) us
Accounted-capabilities d none bs us h = h
Accounted-capabilities d (some []) bs us h = h
Accounted-capabilities d (some (k ∷ ks)) bs us h = walk (k ∷ ks) h
  where
    walk :
        (keys : List String)
        → All (λ key. Covered d key bs) keys
        → All (λ key. Covered d key (map capability_of (sorted match_le bs))) keys
    walk [] h = tt
    walk (k ∷ keys) (c, h) = (Covered-capabilities d k bs c, walk keys h)

detected_counts-In :
    (entries : List CapabilityEntry) (items : List Json) (e : CapabilityEntry)
    → In e entries
    → 1 ≤ count_if (matches e) items
    → In
        (record { key = e.key; count = count_if (matches e) items; tier = e.tier })
        (detected_counts entries items)
unfolding detected_counts
detected_counts-In [] items e h n = elim h [ ]
detected_counts-In (x ∷ xs) items e (inl p) n =
    let k : 1 ≤ count_if (matches x) items = subst (λ y. 1 ≤ count_if (matches y) items) p n in
    let z : (count_if (matches x) items == 0) ≡ false = ground (arith, k) in rw p (rw z (inl refl))
detected_counts-In (x ∷ xs) items e (inr m) n =
    elim (Bool-cases (count_if (matches x) items == 0)) [
      | inl z ↦ rw z (detected_counts-In xs items e m n)
      | inr z ↦ rw z (inr (detected_counts-In xs items e m n))
    ]

-- An entry of the registry that mappings of the inventory match is never lost: its key is among
-- the detected ones, and with the number of those mappings and its tier it is listed as not
-- supported where the crosswalk has null for it, as unmapped where the crosswalk has no keys, and
-- else is counted under each of the keys that the crosswalk has, by a capability that names it,
-- has at least its count and is at least at its tier.
pub evaluate_caps-Accounted :
    (footprint : Json) (crosswalk : Crosswalk) (e : CapabilityEntry)
    → In e capability_registry
    → 1 ≤ count_if (matches e) (inventory_items footprint)
    → let result = evaluate_caps footprint crosswalk in
      let d : Detected = record {
        key = e.key;
        count = count_if (matches e) (inventory_items footprint);
        tier = e.tier;
      } in
      In e.key result.detected_assess_keys
      × Accounted d (capability_keys_for crosswalk e.key) result.capabilities result.unmapped
unfolding evaluate_caps
evaluate_caps-Accounted footprint crosswalk e m n =
    let items = inventory_items footprint in
    let found = sorted detected_le (detected_counts capability_registry items) in
    let d : Detected = record { key = e.key; count = count_if (matches e) items; tier = e.tier } in
    let k : In d found =
      In-sorted detected_le d (detected_counts capability_registry items)
        (detected_counts-In capability_registry items e m n) in
    let none_yet : Tally = record { accum = []; unmapped = [] } in
    let t = tally crosswalk found none_yet in
    (
      In-map (λ d. d.key) d found k,
      Accounted-capabilities d (capability_keys_for crosswalk e.key) t.accum t.unmapped
          (tally-Accounted crosswalk found d none_yet k),
    )
