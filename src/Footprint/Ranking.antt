-- ===== src/Footprint/Ranking.antt =====
-- The usage ranking, and how the verdict reads it back.
use honua_migrate.Base.{
  ℕ, suc, ◌≡◌, ◌≢◌, ◌<◌, ◌⊎◌, inl, inr, not, ◌||◌, ◌&&◌, refl, sym, ap, subst, ◌∙◌, Bool, true,
  false, List, [], ◌∷◌, String, ◌==◌, string_eq, map, count_if, All, some, arith, All-In, In-All,
}
use honua_migrate.Base.Int.{ℤ, pos, negsuc, int_le, int_le_total}
use honua_migrate.Base.Sort.{
  sorted, IsSorted, sorted-IsSorted, count_if-sorted, sorted-id, sorted-In,
}
use honua_migrate.Base.Text.{text_le, text_le_total}
use honua_migrate.Json.{Json, get, members, to_list, get_field}
use honua_migrate.Verdict.Signals.{MigrationStep, usage, usage_rows, step_le, usage_ranked_steps}
use honua_migrate.Footprint.Binding.{
  Usage, UsageRankedService, usage_le, ranked_from, rank_services_by_usage, DatastoreRegistration,
  build_binding_plan, services_json, plan_dict,
}

usage_le_total : (a b : String × ℤ) → usage_le a b ≡ false → usage_le b a ≡ true
unfolding usage_le
usage_le_total (s, n) (t, m) h =
    ground (arith, h, int_le_total n m, int_le_total m n, text_le_total s t, text_le_total t s)

-- Strictly less, on the integers
abbrev pub Less : ℤ → ℤ → Type 0
Less (pos a) (pos b) = a < b
Less (pos a) (negsuc b) = ⊥
Less (negsuc a) (pos b) = Unit
Less (negsuc a) (negsuc b) = b < a

-- A service stands before another: it has more requests, or as many and no greater name.
abbrev pub Before : String × ℤ → String × ℤ → Type 0
Before (s, n) (t, m) = Less m n ⊎ ((n ≡ m) × (text_le s t ≡ true))

abbrev pub InOrder : Usage → Type 0
InOrder [] = Unit
InOrder (a ∷ []) = Unit
InOrder (a ∷ b ∷ us) = Before a b × InOrder (b ∷ us)

split_order :
    (x y z : Bool)
    → (not x || (y && z)) ≡ true
    → (x ≡ false) ⊎ ((x ≡ true) × (y ≡ true) × (z ≡ true))
split_order true true true h = inr (refl, refl, refl)
split_order true true false h = cc
split_order true false z h = cc
split_order false y z h = inl refl

not_le-Less : (n m : ℤ) → int_le n m ≡ false → Less m n
unfolding int_le
not_le-Less (pos a) (pos b) h = ground (arith, h)
not_le-Less (pos a) (negsuc b) h = tt
not_le-Less (negsuc a) (pos b) h = cc
not_le-Less (negsuc a) (negsuc b) h = ground (arith, h)

both_le : (n m : ℤ) → int_le n m ≡ true → int_le m n ≡ true → n ≡ m
unfolding int_le
both_le (pos a) (pos b) h k = ap pos (ground (arith, h, k))
both_le (pos a) (negsuc b) h k = cc
both_le (negsuc a) (pos b) h k = cc
both_le (negsuc a) (negsuc b) h k = ap negsuc (ground (arith, h, k))

usage_le-Before : (a b : String × ℤ) → usage_le a b ≡ true → Before a b
unfolding usage_le
usage_le-Before (s, n) (t, m) h = elim (split_order (int_le n m) (int_le m n) (text_le s t) h) [
  | inl e ↦ inl (not_le-Less n m e)
  | inr (p, q, r) ↦ inr (both_le n m p q, r)
]

IsSorted-InOrder : (us : Usage) → IsSorted usage_le us → InOrder us
IsSorted-InOrder [] h = tt
IsSorted-InOrder (a ∷ []) h = tt
IsSorted-InOrder (a ∷ b ∷ us) (ab, h) = (usage_le-Before a b ab, IsSorted-InOrder (b ∷ us) h)

abbrev pub pair_of : UsageRankedService → String × ℤ
pair_of r = (r.service, r.requests)

-- The ranks count up from a number.
abbrev pub Numbered : ℕ → List UsageRankedService → Type 0
Numbered n [] = Unit
Numbered n (r ∷ rs) = (r.rank ≡ n) × Numbered (suc n) rs

pairs-ranked_from : (n : ℕ) (us : Usage) → map pair_of (ranked_from n us) ≡ us
unfolding ranked_from
pairs-ranked_from n [] = refl
pairs-ranked_from n ((s, r) ∷ us) = ap (λ rest. (s, r) ∷ rest) (pairs-ranked_from (suc n) us)

ranked_from-Numbered : (n : ℕ) (us : Usage) → Numbered n (ranked_from n us)
unfolding ranked_from
ranked_from-Numbered n [] = tt
ranked_from-Numbered n ((s, r) ∷ us) = (refl, ranked_from-Numbered (suc n) us)

-- The ranking has the services of the dictionary of requests, each as often as there; of two
-- that follow each other the first has more requests, or as many and no greater name; and the
-- ranks count up from 1.
pub rank_services_by_usage-Numbered :
    (us : Usage)
    → let ranking = rank_services_by_usage us in
      InOrder (map pair_of ranking)
      × Numbered 1 ranking
      × ((test : String × ℤ → Bool) → count_if test (map pair_of ranking) ≡ count_if test us)
unfolding rank_services_by_usage
rank_services_by_usage-Numbered us = (
  subst InOrder (sym (pairs-ranked_from 1 (sorted usage_le us)))
      (IsSorted-InOrder (sorted usage_le us) (sorted-IsSorted usage_le usage_le_total us)),
  ranked_from-Numbered 1 (sorted usage_le us),
  λ test.
      ap (count_if test) (pairs-ranked_from 1 (sorted usage_le us))
      ∙ count_if-sorted usage_le test us,
)

-- The step that the verdict reads for a ranked service
abbrev pub step_of : UsageRankedService → MigrationStep
step_of r = record {
  rank = pos r.rank;
  identifier = r.service;
  source = usage;
  requests = some r.requests;
}

abbrev pub Named : Usage → Type 0
Named us = All (λ u. u.0 ≢ "") us

usage_rows-services :
    (n : ℕ) (us : Usage)
    → Named us
    → usage_rows (to_list (services_json (ranked_from n us))) ≡ map step_of (ranked_from n us)
unfolding usage_rows ranked_from to_list get get_field string_eq
usage_rows-services n [] h = refl
usage_rows-services n ((s, r) ∷ us) (named, h) =
    let e : (s == "") ≡ false = ground (arith, named) in
    rw e (
      ap (λ rest. step_of (record { service = s; requests = r; rank = n }) ∷ rest)
        (usage_rows-services (suc n) us h))

steps-IsSorted : (n : ℕ) (us : Usage) → IsSorted step_le (map step_of (ranked_from n us))
unfolding ranked_from step_le int_le
steps-IsSorted n [] = tt
steps-IsSorted n ((s, r) ∷ []) = tt
steps-IsSorted n ((s, r) ∷ (t, q) ∷ us) = (ground arith, steps-IsSorted (suc n) ((t, q) ∷ us))

-- Where the names of the services are not empty, the verdict reads from a footprint that carries
-- the dictionary of a binding plan the plan's own ranking, step by step: its order, its ranks and
-- its requests.
pub usage_ranked_steps-plan_dict :
    (us : Usage) (registrations : List DatastoreRegistration) (footprint : Json)
    → Named us
    → get "bindingPlan" (get "server" footprint) ≡ plan_dict (build_binding_plan us registrations)
    → usage_ranked_steps footprint ≡ map step_of (rank_services_by_usage us)
unfolding usage_ranked_steps rank_services_by_usage build_binding_plan get get_field members
    string_eq
usage_ranked_steps-plan_dict us registrations footprint named carried =
    ap (λ j. sorted step_le (usage_rows (members (get "usageRankedServices" j)))) carried
    ∙ ap (sorted step_le) (usage_rows-services 1 (sorted usage_le us) named_sorted)
    ∙ sorted-id step_le (map step_of (ranked_from 1 (sorted usage_le us)))
        (steps-IsSorted 1 (sorted usage_le us))
  where
    named_sorted : Named (sorted usage_le us)
    named_sorted =
        All-In (λ u. u.0 ≢ "") (sorted usage_le us)
          (λ u m. In-All (λ u. u.0 ≢ "") u us named (sorted-In usage_le u us m))
