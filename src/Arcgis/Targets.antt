-- ===== src/Arcgis/Targets.antt =====
-- What services/arcgis.py reads as the targets and the jobs of an entry is what the entry has there.
use honua_migrate.Base.{
  ◌≡◌, refl, sym, ap, subst, ◌∙◌, ℕ, inl, inr, Bool-cases, List, [], ◌∷◌, String, ◌==◌, string_eq,
  nat_eq, eq_of_==, Option, none, some, map, length, length-map,
}
use mathlib.Core.Option.{some-injective, none-ne-some}
use honua_migrate.Base.Int.{ℤ}
use honua_migrate.Json.{Json, null, bool, int, str, arr, obj, get, text?, int?}
use honua_migrate.Runs.Contracts.{ok, then_result-eq-ok, ok-injective}
use honua_migrate.Arcgis.Refusals.{passed, refused_ok}
use honua_migrate.Arcgis.Artifact.{items_of}
use honua_migrate.Arcgis.Scope.{
  add_text, add_int, texts_of, ints_of, target_ids, targets_of, listed_targets,
}

-- The targets that an entry names: one, or a list
pub data TargetsOf (entry : Json) : List ℤ → Type 0 where
  single_target : (n : ℤ) → get "targetLayerId" entry ≡ int n → TargetsOf entry (n ∷ [])
  target_list :
      (targets : List ℤ)
      → items_of (get "targetLayerIds" entry) ≡ some (map int targets)
      → TargetsOf entry targets

pub int?-some : (j : Json) (n : ℤ) → int? j ≡ some n → j ≡ int n
int?-some (int m) n e = ap int (some-injective m n e)
int?-some null n e = cc
int?-some (bool b) n e = cc
int?-some (str s) n e = cc
int?-some (arr xs) n e = cc
int?-some (obj fs) n e = cc

pub text?-some : (j : Json) (s : String) → text? j ≡ some s → j ≡ str s
text?-some (str t) s e = elim (Bool-cases (t == "")) [
  | inl p ↦ absurd (none-ne-some s (rw p at e))
  | inr p ↦ ap str (some-injective t s (rw p at e))
]
text?-some null s e = cc
text?-some (bool b) s e = cc
text?-some (int n) s e = cc
text?-some (arr xs) s e = cc
text?-some (obj fs) s e = cc

ints_of-int : (xs : List Json) (ns : List ℤ) → ints_of xs ≡ ok ns → xs ≡ map int ns
unfolding ints_of
ints_of-int [] ns e = subst (λ ms. [] ≡ map int ms) (sym (ok-injective e)) refl
ints_of-int (x ∷ xs) ns e = by_first (int? x) refl e (ints_of-int xs)
  where
    by_first :
        (o : Option ℤ)
        → int? x ≡ o
        → add_int o (ints_of xs) ≡ ok ns
        → ((ms : List ℤ) → ints_of xs ≡ ok ms → xs ≡ map int ms)
        → x ∷ xs ≡ map int ns
    by_first none o h ih = absurd (refused_ok h)
    by_first (some n) o h ih =
        let (ms, rest, h₁) = then_result-eq-ok (ints_of xs) _ h in
        subst (λ ks. x ∷ xs ≡ map int ks) (sym (ok-injective h₁))
          (ap (λ j. j ∷ xs) (int?-some x n o) ∙ ap (λ js. int n ∷ js) (ih ms rest))

pub texts_of-str : (xs : List Json) (ts : List String) → texts_of xs ≡ ok ts → xs ≡ map str ts
unfolding texts_of
texts_of-str [] ts e = subst (λ ms. [] ≡ map str ms) (sym (ok-injective e)) refl
texts_of-str (x ∷ xs) ts e = by_first (text? x) refl e (texts_of-str xs)
  where
    by_first :
        (o : Option String)
        → text? x ≡ o
        → add_text o (texts_of xs) ≡ ok ts
        → ((ms : List String) → texts_of xs ≡ ok ms → xs ≡ map str ms)
        → x ∷ xs ≡ map str ts
    by_first none o h ih = absurd (refused_ok h)
    by_first (some t) o h ih =
        let (ms, rest, h₁) = then_result-eq-ok (texts_of xs) _ h in
        subst (λ ks. x ∷ xs ≡ map str ks) (sym (ok-injective h₁))
          (ap (λ j. j ∷ xs) (text?-some x t o) ∙ ap (λ js. str t ∷ js) (ih ms rest))

listed_targets-TargetsOf :
    (entry : Json) (count : ℕ) (targets : List ℤ)
    → listed_targets count (items_of (get "targetLayerIds" entry)) ≡ ok targets
    → TargetsOf entry targets × (length targets ≡ count)
listed_targets-TargetsOf entry count targets e =
    by_items (items_of (get "targetLayerIds" entry)) refl e
  where
    by_items :
        (o : Option (List Json))
        → items_of (get "targetLayerIds" entry) ≡ o
        → listed_targets count o ≡ ok targets
        → TargetsOf entry targets × (length targets ≡ count)
    by_items none o h = absurd (refused_ok h)
    by_items (some items) o h =
        let (same_count, h₁) = passed (length items == count) (ints_of items) h in
        let ints = ints_of-int items targets h₁ in
        (
          target_list targets (o ∙ ap some ints),
          sym (length-map int targets) ∙ ap length (sym ints) ∙ eq_of_== _ _ same_count,
        )

pub target_ids-TargetsOf :
    (entry : Json) (count : ℕ) (targets : List ℤ)
    → target_ids count entry ≡ ok targets
    → TargetsOf entry targets × (length targets ≡ count)
unfolding target_ids
target_ids-TargetsOf entry count targets e = by_single (int? (get "targetLayerId" entry)) refl e
  where
    by_single :
        (o : Option ℤ)
        → int? (get "targetLayerId" entry) ≡ o
        → targets_of count o (items_of (get "targetLayerIds" entry)) ≡ ok targets
        → TargetsOf entry targets × (length targets ≡ count)
    by_single none o h = listed_targets-TargetsOf entry count targets h
    by_single (some n) o h = elim (Bool-cases (count == 1)) [
      | inl p ↦
          subst (λ ts. TargetsOf entry ts × (length ts ≡ count)) (sym (ok-injective (rw p at h)))
            (single_target n (int?-some _ n o), sym (eq_of_== count 1 p))
      | inr p ↦ listed_targets-TargetsOf entry count targets (rw p at h)
    ]
