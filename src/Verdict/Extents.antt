-- ===== src/Verdict/Extents.antt =====
-- The extent of a lock-in: what its own lock-ins over the whole inventory add up to.
use honua_migrate.Base.{
  ℕ, suc, ◌+◌, ◌≡◌, refl, ap, ◌∙◌, inl, inr, Bool, false, List, [], ◌∷◌, String, ◌==◌, string_eq,
  sym, keep, length, if◌then◌else◌, Option, none, some, arith, Bool-cases, eq_of_==,
}
use honua_migrate.Base.Int.{ℤ, pos, ◌+ℤ◌}
use honua_migrate.Json.{Json, get, int?}
use honua_migrate.Verdict.Detect.{
  LockInExtent, no_extent, Extents, add_count, add_lock_in, extent_of, accumulate, lock_in_type,
  count_lock_in, add_lock_ins, item_lock_ins, lock_in_extents, inventory_items,
}

extend : Option LockInExtent → Json → LockInExtent
extend none l = add_lock_in no_extent l
extend (some e) l = add_lock_in e l

extent_of-accumulate :
    (k j : String) (l : Json) (acc : Extents)
    → extent_of k (accumulate j l acc)
      ≡ (if j == k then some (extend (extent_of k acc) l) else extent_of k acc)
unfolding extent_of accumulate extend
extent_of-accumulate k j l [] = refl
extent_of-accumulate k j l ((i, e) ∷ acc) = elim (Bool-cases (i == j)) [
  | inl p ↦ rw p (ground (arith, eq_of_== i j p))
  | inr p ↦ rw p (ground (arith, extent_of-accumulate k j l acc))
]

abbrev pub is_text : String → Option String → Bool
is_text k none = false
is_text k (some j) = j == k

-- The lock-ins of one type.
abbrev pub of_type : String → List Json → List Json
of_type k ls = keep (λ l. is_text k (lock_in_type l)) ls

add_all : Option LockInExtent → List Json → Option LockInExtent
add_all o [] = o
add_all o (l ∷ ls) = add_all (some (extend o l)) ls

extent_of-add_lock_ins :
    (k : String) (ls : List Json) (acc : Extents)
    → extent_of k (add_lock_ins ls acc) ≡ add_all (extent_of k acc) (of_type k ls)
unfolding add_lock_ins add_all
extent_of-add_lock_ins k [] acc = refl
extent_of-add_lock_ins k (l ∷ ls) acc =
    extent_of-add_lock_ins k ls (count_lock_in (lock_in_type l) l acc) ∙ first (lock_in_type l)
  where
    first :
        (t : Option String)
        → add_all (extent_of k (count_lock_in t l acc)) (of_type k ls)
          ≡ add_all (extent_of k acc) (if is_text k t then l ∷ of_type k ls else of_type k ls)
    first none = refl
    first (some j) =
        rw (extent_of-accumulate k j l acc)
          (elim (Bool-cases (j == k)) [ inl e ↦ rw e refl | inr e ↦ rw e refl ])

abbrev pub with_found : Option ℤ → List ℤ → List ℤ
with_found none rest = rest
with_found (some n) rest = n ∷ rest

-- The integers that lock-ins have under a key
abbrev pub found_under : String → List Json → List ℤ
found_under key [] = []
found_under key (l ∷ ls) = with_found (int? (get key l)) (found_under key ls)

-- Python's `sum` of integers, from a start
abbrev pub sum_from : ℤ → List ℤ → ℤ
sum_from m [] = m
sum_from m (n ∷ ns) = sum_from (m +ℤ n) ns

-- The sum of the integers, if there are any
abbrev pub sum_of : List ℤ → Option ℤ
sum_of [] = none
sum_of (n ∷ ns) = some (sum_from (pos 0) (n ∷ ns))

-- The extent of lock-ins, field by field; no extent where there is none of them.
abbrev pub total_extent : List Json → Option LockInExtent
total_extent [] = none
total_extent (l ∷ ls) = some (record {
  services = length (l ∷ ls);
  feature_class_count = sum_of (found_under "featureClassCount" (l ∷ ls));
  domain_network_count = sum_of (found_under "domainNetworkCount" (l ∷ ls));
  rule_count = sum_of (found_under "ruleCount" (l ∷ ls));
  network_count = sum_of (found_under "networkCount" (l ∷ ls));
})

-- A count, and the integers after it
abbrev and_more : Option ℤ → List ℤ → Option ℤ
and_more none ns = sum_of ns
and_more (some m) ns = some (sum_from m ns)

and_more-add_count :
    (key : String) (o : Option ℤ) (l : Json) (ls : List Json)
    → and_more (add_count o (int? (get key l))) (found_under key ls)
      ≡ and_more o (found_under key (l ∷ ls))
unfolding add_count
and_more-add_count key o l ls = step o (int? (get key l))
  where
    step :
        (o found : Option ℤ)
        → and_more (add_count o found) (found_under key ls)
          ≡ and_more o (with_found found (found_under key ls))
    step o none = refl
    step none (some n) = refl
    step (some m) (some n) = refl

and_more-none : (o : Option ℤ) → and_more o [] ≡ o
and_more-none none = refl
and_more-none (some m) = refl

abbrev extent_from : LockInExtent → List Json → LockInExtent
extent_from e ls = record {
  services = e.services + length ls;
  feature_class_count = and_more e.feature_class_count (found_under "featureClassCount" ls);
  domain_network_count = and_more e.domain_network_count (found_under "domainNetworkCount" ls);
  rule_count = and_more e.rule_count (found_under "ruleCount" ls);
  network_count = and_more e.network_count (found_under "networkCount" ls);
}

add_all-extent_from :
    (e : LockInExtent) (ls : List Json) → add_all (some e) ls ≡ some (extent_from e ls)
unfolding add_all extend add_lock_in
add_all-extent_from e [] = ap some λ i. record {
  services = add_zero e.services i;
  feature_class_count = sym (and_more-none e.feature_class_count) i;
  domain_network_count = sym (and_more-none e.domain_network_count) i;
  rule_count = sym (and_more-none e.rule_count) i;
  network_count = sym (and_more-none e.network_count) i;
}
  where
    add_zero : (n : ℕ) → n ≡ n + 0
    add_zero n = omega arith
add_all-extent_from e (l ∷ ls) =
    add_all-extent_from (add_lock_in e l) ls
    ∙ ap some (λ i. record {
      services = shift e.services (length ls) i;
      feature_class_count = and_more-add_count "featureClassCount" e.feature_class_count l ls i;
      domain_network_count = and_more-add_count "domainNetworkCount" e.domain_network_count l ls i;
      rule_count = and_more-add_count "ruleCount" e.rule_count l ls i;
      network_count = and_more-add_count "networkCount" e.network_count l ls i;
    })
  where
    shift : (n m : ℕ) → n + 1 + m ≡ n + suc m
    shift n m = omega arith

zero_add : (n : ℕ) → 0 + n ≡ n
zero_add n = omega arith

-- A lock-in type has an extent exactly where some mapping of the inventory has a lock-in of that
-- type. The extent counts those lock-ins as services, and each of its four counts is the sum of
-- the integers that they have under its key, or none where none of them has one.
pub lock_in_extents-total_extent :
    (footprint : Json) (k : String)
    → extent_of k (lock_in_extents footprint)
      ≡ total_extent (of_type k (item_lock_ins (inventory_items footprint)))
unfolding lock_in_extents extent_of add_all extend
lock_in_extents-total_extent footprint k =
    extent_of-add_lock_ins k (item_lock_ins (inventory_items footprint)) []
    ∙ started (of_type k (item_lock_ins (inventory_items footprint)))
  where
    started : (ls : List Json) → add_all none ls ≡ total_extent ls
    started [] = refl
    started (l ∷ ls) =
        add_all-extent_from no_extent (l ∷ ls)
        ∙ ap some (λ i. record (extent_from no_extent (l ∷ ls)) {
          services = zero_add (length (l ∷ ls)) i;
        })
