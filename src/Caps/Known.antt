-- ===== src/Caps/Known.antt =====
-- A parsed crosswalk speaks of the registry's keys only, and says what its document says.
use honua_migrate.Base.{
  ◌≡◌, ◌≢◌, ◌⊎◌, refl, sym, ap, map, eq_of_==, ne_of_==, subst, inl, inr, true, not, List, [], ◌∷◌,
  String, ◌==◌, string_eq, contains, keep, Option, none, some, All, Bool-cases, In, In-keep, All-In,
}
use mathlib.Core.Option.{some-injective}
use honua_migrate.Base.Sort.{In-sorted}
use honua_migrate.Base.Text.{text_le}
use honua_migrate.Json.{
  Json, Items, Fields, nil, cons, end, field, obj, get, text?, null, bool, int, str, arr, to_list,
}
use honua_migrate.Caps.Crosswalk.{
  Parsed, parsed, refused, Crosswalk, Mapping, lookup, capability_keys_for, registry_keys,
  field_names, with_text, all_texts, listed, entry_value, with_entry, parse_entries, crosswalk_with,
  unknown_among, parse_mapping, parse_crosswalk, if_known, parse_fields,
}

-- What a value of the mapping means: `null` that there is no support, and a list of texts these.
abbrev pub Means : Json → Option (List String) → Type 0
Means null keys = keys ≡ none
Means (arr xs) keys = (ss : List String) × (to_list xs ≡ map str ss) × (keys ≡ some ss)
Means _ keys = ⊥

-- What a document's mapping says of a key: what its first entry means, and no keys without one.
abbrev pub Says : Fields → String → Option (List String) → Type 0
Says end key keys = keys ≡ some []
Says (field k v fs) key keys = ((k ≡ key) × Means v keys) ⊎ ((k ≢ key) × Says fs key keys)

with_text-some :
    (s : String) (o : Option (List String)) (ss : List String)
    → with_text s o ≡ some ss
    → (rest : List String) × (o ≡ some rest) × (ss ≡ s ∷ rest)
with_text-some s none ss e = cc
with_text-some s (some rest) ss e = (rest, refl, sym (some-injective _ _ e))

texts-all_texts : (xs : Items) (ss : List String) → all_texts xs ≡ some ss → to_list xs ≡ map str ss
unfolding all_texts to_list
texts-all_texts nil ss e = rw (sym (some-injective _ _ e)) refl
texts-all_texts (cons (str s) xs) ss e =
    let (rest, f, g) = with_text-some s (all_texts xs) ss e in
    rw g (ap (λ ys. str s ∷ ys) (texts-all_texts xs rest f))
texts-all_texts (cons null xs) ss e = cc
texts-all_texts (cons (bool b) xs) ss e = cc
texts-all_texts (cons (int n) xs) ss e = cc
texts-all_texts (cons (arr ys) xs) ss e = cc
texts-all_texts (cons (obj fs) xs) ss e = cc

entry_value-Means :
    (v : Json) (keys : Option (List String)) → entry_value v ≡ some keys → Means v keys
unfolding entry_value
entry_value-Means null keys e = sym (some-injective _ _ e)
entry_value-Means (bool b) keys e = cc
entry_value-Means (int n) keys e = cc
entry_value-Means (str s) keys e = cc
entry_value-Means (obj fs) keys e = cc
entry_value-Means (arr xs) keys e = step (all_texts xs) refl e
  where
    step :
        (o : Option (List String))
        → all_texts xs ≡ o
        → listed o ≡ some keys
        → (ss : List String) × (to_list xs ≡ map str ss) × (keys ≡ some ss)
    step none p h = cc
    step (some ss) p h = (ss, texts-all_texts xs ss p, sym (some-injective _ _ h))

abbrev pub OfParsed : {A : Type 0} → (A → Type 0) → Parsed A → Type 0
OfParsed P (parsed a) = P a
OfParsed P (refused e) = Unit {0}

parse_entries-Says :
    (fs : Fields) → OfParsed (λ m. (key : String) → Says fs key (lookup m key)) (parse_entries fs)
unfolding parse_entries lookup
parse_entries-Says end = λ key. refl
parse_entries-Says (field k v fs) =
    entry (entry_value v) refl (parse_entries fs) (parse_entries-Says fs)
  where
    entry :
        (value : Option (Option (List String)))
        → entry_value v ≡ value
        → (rest : Parsed Mapping) → OfParsed (λ m. (key : String) → Says fs key (lookup m key)) rest
        → OfParsed
            (λ m. (key : String) → Says (field k v fs) key (lookup m key))
            (with_entry k value rest)
    entry none e rest h = tt
    entry (some value) e (refused r) h = tt
    entry (some value) e (parsed m) h = λ key. elim (Bool-cases (k == key)) [
      | inl q ↦ inl (eq_of_== k key q, rw q (entry_value-Means v value e))
      | inr q ↦ inr (ne_of_== k key q, rw q (h key))
    ]

unknown_among-none :
    (fs : Fields)
    → unknown_among fs ≡ []
    → All (λ k. contains registry_keys k ≡ true) (field_names fs)
unfolding unknown_among
unknown_among-none fs none_known =
    All-In (λ k. contains registry_keys k ≡ true) (field_names fs)
      (λ k m. elim (Bool-cases (contains registry_keys k)) [
        | inl e ↦ e
        | inr e ↦
            let bad : In k [] = subst (In k) none_known (
              In-sorted text_le k (keep (λ k. not (contains registry_keys k)) (field_names fs))
                (In-keep (λ k. not (contains registry_keys k)) k (field_names fs) m (ap not e))) in
            elim bad [ ]
      ])

-- The mapping is an object of keys of the registry, and the crosswalk has what it says.
abbrev pub Truthful : Json → Crosswalk → Type 0
Truthful mapping c =
    (fs : Fields) × (mapping ≡ obj fs)
    × All (λ k. contains registry_keys k ≡ true) (field_names fs)
    × ((key : String) → Says fs key (capability_keys_for c key))

parse_mapping-Truthful :
    (version source : String) (mapping : Json)
    → OfParsed (Truthful mapping) (parse_mapping version source mapping)
unfolding parse_mapping capability_keys_for
parse_mapping-Truthful version source null = tt
parse_mapping-Truthful version source (bool b) = tt
parse_mapping-Truthful version source (int n) = tt
parse_mapping-Truthful version source (str s) = tt
parse_mapping-Truthful version source (arr xs) = tt
parse_mapping-Truthful version source (obj fs) =
    known (unknown_among fs) refl (parse_entries fs) (parse_entries-Says fs)
  where
    known :
        (unknown : List String)
        → unknown_among fs ≡ unknown
        → (entries : Parsed Mapping)
        → OfParsed (λ m. (key : String) → Says fs key (lookup m key)) entries
        → OfParsed (Truthful (obj fs)) (if_known unknown (crosswalk_with version source entries))
    known (k ∷ ks) e entries h = tt
    known [] e (refused r) h = tt
    known [] e (parsed m) h = (fs, refl, unknown_among-none fs e, h)

-- Where a document is accepted, its mapping is an object whose keys are all keys of the registry,
-- and the crosswalk gives each key what that object has for it: null as not supported, a list of
-- texts as those texts, and no capability keys where the object does not have the key.
pub parse_crosswalk-Truthful :
    (payload : Json)
    → OfParsed
        (Truthful (get "esriAssessRegistry" (get "crosswalks" payload)))
        (parse_crosswalk payload)
unfolding parse_crosswalk
parse_crosswalk-Truthful null = tt
parse_crosswalk-Truthful (bool b) = tt
parse_crosswalk-Truthful (int n) = tt
parse_crosswalk-Truthful (str s) = tt
parse_crosswalk-Truthful (arr xs) = tt
parse_crosswalk-Truthful (obj fs) =
    of_fields (text? (get "schemaVersion" (obj fs))) (text? (get "source" (obj fs)))
      (get "crosswalks" (obj fs))
  where
    of_fields :
        (version source : Option String) (crosswalks : Json)
        → OfParsed
            (Truthful (get "esriAssessRegistry" crosswalks))
            (parse_fields version source crosswalks)
    of_fields none source crosswalks = tt
    of_fields (some version) none crosswalks = tt
    of_fields (some version) (some source) null = tt
    of_fields (some version) (some source) (bool b) = tt
    of_fields (some version) (some source) (int n) = tt
    of_fields (some version) (some source) (str s) = tt
    of_fields (some version) (some source) (arr xs) = tt
    of_fields (some version) (some source) (obj gs) =
        parse_mapping-Truthful version source (get "esriAssessRegistry" (obj gs))
