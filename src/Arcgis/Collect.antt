-- ===== src/Arcgis/Collect.antt =====
-- What services/arcgis.py collects of a handoff: the mapping as it grows, and its jobs and layers,
-- each once.
use honua_migrate.Base.{
  ◌≡◌, refl, sym, ap, subst, ◌∙◌, ◌⊎◌, inl, inr, ◌↔◌, true, false, Bool-cases, choose, arith, List,
  [], ◌∷◌, ◌++◌, String, ◌==◌, string_eq, Option, none, some, map, any, contains, In, In-append,
  append-In, contains-In,
}
use mathlib.Core.Option.{some-injective}
use mathlib.Core.List.{append-nil, append_assoc, map-append}
use honua_migrate.Json.{Json}
use honua_migrate.Reconcile.Same.{same}
use honua_migrate.Arcgis.Scope.{
  Mapping, Part, Scope, no_scope, add_new, add_value, add_job, add_mapping, add_mappings, add_plan,
}

-- No text stands twice
abbrev pub Once : List String → Type 0
Once [] = Unit
Once (x ∷ xs) = (contains xs x ≡ false) × Once xs

contains-append :
    (xs : List String) (x y : String)
    → contains xs y ≡ false
    → (y == x) ≡ false
    → contains (xs ++ (x ∷ [])) y ≡ false
contains-append [] x y h n = ground (arith, n)
contains-append (z ∷ zs) x y h n = ground (arith, h, contains-append zs x y (ground (arith, h)) n)

Once-append :
    (xs : List String) (x : String) → contains xs x ≡ false → Once xs → Once (xs ++ (x ∷ []))
Once-append [] x h o = (refl, tt)
Once-append (y ∷ ys) x h (n, o) =
    (contains-append ys x y n (ground (arith, h)), Once-append ys x (ground (arith, h)) o)

pub add_new-Once : (xs : List String) (x : String) → Once xs → Once (add_new xs x)
unfolding add_new
add_new-Once xs x o = choose Once (contains xs x) _ _ (λ e. o) (λ e. Once-append xs x e o)

pub add_new-In :
    (a : String) (xs : List String) (x : String) → In a (add_new xs x) ↔ (In a xs ⊎ (a ≡ x))
unfolding add_new
add_new-In a xs x =
    choose (λ l. In a l ↔ (In a xs ⊎ (a ≡ x))) (contains xs x) _ _ (λ e. (λ h. inl h, known e))
      (λ e. (there, added))
  where
    known : contains xs x ≡ true → In a xs ⊎ (a ≡ x) → In a xs
    known e (inl h) = h
    known e (inr p) = subst (λ y. In y xs) (sym p) (contains-In xs x e)

    there : In a (xs ++ (x ∷ [])) → In a xs ⊎ (a ≡ x)
    there h = elim (append-In a xs (x ∷ []) h) [
      | inl l ↦ inl l
      | inr r ↦ elim r [ inl p ↦ inr p | inr n ↦ absurd n ]
    ]

    added : In a xs ⊎ (a ≡ x) → In a (xs ++ (x ∷ []))
    added (inl h) = In-append a xs (x ∷ []) (inl h)
    added (inr p) = In-append a xs (x ∷ []) (inr (inl p))

-- The values `xs` are of `ys`, and have the equal of each of these that is equal to itself
pub record Knows (xs ys : List Json) : Type 0 where
  pub no_other : (v : Json) → In v xs → In v ys
  pub known : (v : Json) → same v v ≡ true → In v ys → any (same v) xs ≡ true

any-append :
    (v : Json) (xs ys : List Json)
    → (any (same v) xs ≡ true) ⊎ (any (same v) ys ≡ true)
    → any (same v) (xs ++ ys) ≡ true
any-append v [] ys (inl h) = ground (arith, h)
any-append v [] ys (inr h) = h
any-append v (x ∷ xs) ys (inr h) = ground (arith, any-append v xs ys (inr h))
any-append v (x ∷ xs) ys (inl h) = elim (Bool-cases (same v x)) [
  | inl e ↦ ground (arith, e)
  | inr e ↦ ground (arith, e, any-append v xs ys (inl (ground (arith, e, h))))
]

add_value-Knows :
    (xs ys : List Json) (x : Json) → Knows xs ys → Knows (add_value xs x) (ys ++ (x ∷ []))
unfolding add_value
add_value-Knows xs ys x k =
    choose (λ l. Knows l (ys ++ (x ∷ []))) (any (same x) xs) _ _
      (λ e. record {
        no_other = λ v h. In-append v ys (x ∷ []) (inl (k.no_other v h));
        known = already e;
      })
      (λ e. record { no_other = shifted; known = added })
  where
    already :
        any (same x) xs ≡ true
        → (v : Json) → same v v ≡ true
        → In v (ys ++ (x ∷ []))
        → any (same v) xs ≡ true
    already e v r h = elim (append-In v ys (x ∷ []) h) [
      | inl l ↦ k.known v r l
      | inr l ↦ elim l [ inl p ↦ subst (λ w. any (same w) xs ≡ true) (sym p) e | inr n ↦ absurd n ]
    ]

    shifted : (v : Json) → In v (xs ++ (x ∷ [])) → In v (ys ++ (x ∷ []))
    shifted v h = elim (append-In v xs (x ∷ []) h) [
      | inl l ↦ In-append v ys (x ∷ []) (inl (k.no_other v l))
      | inr r ↦ In-append v ys (x ∷ []) (inr r)
    ]

    here : (v : Json) → same v v ≡ true → v ≡ x → any (same v) (x ∷ []) ≡ true
    here v r p = subst (λ w. any (same v) (w ∷ []) ≡ true) p (ground (arith, r))

    added :
        (v : Json) → same v v ≡ true → In v (ys ++ (x ∷ [])) → any (same v) (xs ++ (x ∷ [])) ≡ true
    added v r h = elim (append-In v ys (x ∷ []) h) [
      | inl l ↦ any-append v xs (x ∷ []) (inl (k.known v r l))
      | inr l ↦ elim l [ inl p ↦ any-append v xs (x ∷ []) (inr (here v r p)) | inr n ↦ absurd n ]
    ]

-- What a handoff has collected of the mapping so far
pub record Collected (s : Scope) : Type 0 where
  pub jobs :
      (j : String) → In j s.job_ids ↔ In (some j) (map (λ (m : Mapping). m.job_id) s.id_mapping)
  pub jobs_once : Once s.job_ids
  pub plans_once : Once s.plan_ids
  pub service_urls : Knows s.service_urls (map (λ (m : Mapping). m.source_service_url) s.id_mapping)
  pub layer_ids : Knows s.layer_ids (map (λ (m : Mapping). m.source_layer_id) s.id_mapping)

pub no_scope-Collected : Collected no_scope
no_scope-Collected = record {
  jobs = λ j. (λ h. elim h [ ], λ h. elim h [ ]);
  jobs_once = tt;
  plans_once = tt;
  service_urls = record { no_other = λ v h. elim h [ ]; known = λ v r h. elim h [ ] };
  layer_ids = record { no_other = λ v h. elim h [ ]; known = λ v r h. elim h [ ] };
}

add_job-Once : (jobs : List String) (o : Option String) → Once jobs → Once (add_job jobs o)
add_job-Once jobs none o = o
add_job-Once jobs (some j) o = add_new-Once jobs j o

add_job-In :
    (j : String) (jobs : List String) (given : List (Option String)) (o : Option String)
    → In j jobs ↔ In (some j) given
    → In j (add_job jobs o) ↔ In (some j) (given ++ (o ∷ []))
add_job-In j jobs given none (f, g) = (λ h. In-append (some j) given (none ∷ []) (inl (f h)), back)
  where
    back : In (some j) (given ++ (none ∷ [])) → In j jobs
    back h = elim (append-In (some j) given (none ∷ []) h) [
      | inl l ↦ g l
      | inr r ↦ elim r [ inl p ↦ cc | inr n ↦ absurd n ]
    ]
add_job-In j jobs given (some i) (f, g) = (there, back)
  where
    there : In j (add_new jobs i) → In (some j) (given ++ (some i ∷ []))
    there h = elim ((add_new-In j jobs i).0 h) [
      | inl l ↦ In-append (some j) given (some i ∷ []) (inl (f l))
      | inr p ↦ In-append (some j) given (some i ∷ []) (inr (inl (ap some p)))
    ]

    back : In (some j) (given ++ (some i ∷ [])) → In j (add_new jobs i)
    back h = elim (append-In (some j) given (some i ∷ []) h) [
      | inl l ↦ (add_new-In j jobs i).1 (inl (g l))
      | inr r ↦ elim r [
        | inl p ↦ (add_new-In j jobs i).1 (inr (some-injective j i p))
        | inr n ↦ absurd n
      ]
    ]

add_mapping-Collected : (m : Mapping) (s : Scope) → Collected s → Collected (add_mapping m s)
unfolding add_mapping
add_mapping-Collected m s c = record {
  jobs = λ j.
      subst (λ l. In j (add_job s.job_ids m.job_id) ↔ In (some j) l)
        (sym (map-append (λ (n : Mapping). n.job_id) s.id_mapping (m ∷ [])))
        (add_job-In j s.job_ids (map (λ (n : Mapping). n.job_id) s.id_mapping) m.job_id (c.jobs j));
  jobs_once = add_job-Once s.job_ids m.job_id c.jobs_once;
  plans_once = c.plans_once;
  service_urls =
      subst (Knows (add_value s.service_urls m.source_service_url))
        (sym (map-append (λ (n : Mapping). n.source_service_url) s.id_mapping (m ∷ [])))
        (add_value-Knows _ _ _ c.service_urls);
  layer_ids =
      subst (Knows (add_value s.layer_ids m.source_layer_id))
        (sym (map-append (λ (n : Mapping). n.source_layer_id) s.id_mapping (m ∷ [])))
        (add_value-Knows _ _ _ c.layer_ids);
}

pub add_mappings-Collected :
    (ms : List Mapping) (s : Scope) → Collected s → Collected (add_mappings ms s)
unfolding add_mappings
add_mappings-Collected [] s c = c
add_mappings-Collected (m ∷ ms) s c =
    add_mappings-Collected ms (add_mapping m s) (add_mapping-Collected m s c)

pub add_plan-Collected : (part : Part) (s : Scope) → Collected s → Collected (add_plan part s)
unfolding add_plan
add_plan-Collected part s c = record {
  jobs = c.jobs;
  jobs_once = c.jobs_once;
  plans_once = add_new-Once s.plan_ids part.plan_id c.plans_once;
  service_urls = c.service_urls;
  layer_ids = c.layer_ids;
}

-- The mapping grows at its end, and nothing is taken from the plans.
pub add_mappings-id_mapping :
    (ms : List Mapping) (s : Scope)
    → ((add_mappings ms s).id_mapping ≡ s.id_mapping ++ ms)
      × ((add_mappings ms s).plan_ids ≡ s.plan_ids)
unfolding add_mappings add_mapping
add_mappings-id_mapping [] s = (sym (append-nil s.id_mapping), refl)
add_mappings-id_mapping (m ∷ ms) s =
    let (e, p) = add_mappings-id_mapping ms (add_mapping m s) in
    (e ∙ append_assoc s.id_mapping (m ∷ []) ms, p)
