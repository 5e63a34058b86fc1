-- ===== src/Arcgis/Scoped.antt =====
-- The scope of a handoff of services/arcgis.py is what its manifest and the artifacts there say.
use honua_migrate.Base.{
  ◌≡◌, sym, ap, subst, ◌∙◌, ◌⊎◌, inl, inr, ◌↔◌, Bool, List, [], ◌∷◌, ◌++◌, String, Option, map, In,
}
use mathlib.Core.List.{append-nil, append_assoc}
use honua_migrate.Json.{Json, Fields}
use honua_migrate.Runs.Contracts.{ok, then_result-eq-ok, ok-injective}
use honua_migrate.Arcgis.Scope.{
  Mapping, Part, Scope, no_scope, read_entry, add_new, add_mappings, add_plan, scope_from,
  handoff_scope,
}
use honua_migrate.Arcgis.Origins.{EntryOf, read_entry-EntryOf}
use honua_migrate.Arcgis.Collect.{
  Collected, no_scope-Collected, add_mappings-Collected, add_plan-Collected,
  add_mappings-id_mapping, add_new-In,
}

abbrev pub mappings_in : List Part → List Mapping
mappings_in [] = []
mappings_in (part ∷ parts) = part.mappings ++ mappings_in parts

abbrev pub plans_in : List Part → List String
plans_in = map (λ (part : Part). part.plan_id)

module _ (valid : Json → Bool) (plan_digest : Fields → String) (files : String → Option Json)
    (url : String) where
  abbrev pub Parts : List Json → List Part → Type 0
  Parts [] [] = Unit
  Parts (entry ∷ entries) (part ∷ parts) =
      EntryOf valid plan_digest files url entry part × Parts entries parts
  Parts _ _ = ⊥

  -- What a scope is of the entries, on top of what it was
  record Extends (manifest : List Json) (before s : Scope) : Type 0 where
    parts : List Part
    entries : Parts manifest parts
    whole : s.id_mapping ≡ before.id_mapping ++ mappings_in parts
    plans : (p : String) → In p s.plan_ids ↔ (In p before.plan_ids ⊎ In p (plans_in parts))
    collected : Collected s

  scope_from-Extends :
      (manifest : List Json) (before s : Scope)
      → Collected before
      → scope_from valid plan_digest files url manifest before ≡ ok s
      → Extends manifest before s
  unfolding scope_from
  scope_from-Extends [] before s c e = subst (Extends [] before) (sym (ok-injective e)) (record {
    parts = [];
    entries = tt;
    whole = sym (append-nil before.id_mapping);
    plans = λ p. (λ h. inl h, back p);
    collected = c;
  })
    where
      back : (p : String) → In p before.plan_ids ⊎ In p [] → In p before.plan_ids
      back p (inl h) = h
      back p (inr h) = elim h [ ]
  scope_from-Extends (entry ∷ entries) before s c e =
      let (part, read, e₁) = then_result-eq-ok (read_entry valid plan_digest files url entry) _ e in
      let (grown, same_plans) = add_mappings-id_mapping part.mappings before in
      let ih =
        scope_from-Extends entries (add_plan part (add_mappings part.mappings before)) s
          (add_plan-Collected part _ (add_mappings-Collected part.mappings before c)) e₁ in
      record {
        parts = part ∷ ih.parts;
        entries = (read_entry-EntryOf valid plan_digest files url entry part read, ih.entries);
        whole =
            unfold add_plan in
            ih.whole
            ∙ ap (λ l. l ++ mappings_in ih.parts) grown
            ∙ append_assoc before.id_mapping part.mappings (mappings_in ih.parts);
        plans = λ p.
            plans_step p part same_plans s.plan_ids (plans_in ih.parts)
              (unfold add_plan in ih.plans p);
        collected = ih.collected;
      }
    where
      plans_step :
          (p : String) (part : Part) {now : List String}
          → now ≡ before.plan_ids
          → (last rest : List String) → In p last ↔ (In p (add_new now part.plan_id) ⊎ In p rest)
          → In p last ↔ (In p before.plan_ids ⊎ In p (part.plan_id ∷ rest))
      plans_step p part {now} same last rest (f, g) = (there, back)
        where
          there : In p last → In p before.plan_ids ⊎ In p (part.plan_id ∷ rest)
          there h = elim (f h) [
            | inr r ↦ inr (inr r)
            | inl l ↦ elim ((add_new-In p now part.plan_id).0 l) [
              | inl old ↦ inl (subst (λ l. In p l) same old)
              | inr new ↦ inr (inl new)
            ]
          ]

          back : In p before.plan_ids ⊎ In p (part.plan_id ∷ rest) → In p last
          back (inl h) =
              g (inl ((add_new-In p now part.plan_id).1 (inl (subst (λ l. In p l) (sym same) h))))
          back (inr (inl e)) = g (inl ((add_new-In p now part.plan_id).1 (inr e)))
          back (inr (inr h)) = g (inr h)

  -- What a scope is of a manifest
  pub record Covers (manifest : List Json) (s : Scope) : Type 0 where
    pub parts : List Part
    pub entries : Parts manifest parts
    pub whole : s.id_mapping ≡ mappings_in parts
    pub plans : (p : String) → In p s.plan_ids ↔ In p (plans_in parts)
    pub collected : Collected s

  -- Where the scope of a handoff is found, each entry of the manifest names a plan artifact that was
  -- reviewed. The mapping has, entry by entry and in the order of its plan, one record for each action:
  -- with the source that its request names, the target service, the layer that the entry names for it,
  -- and a job for each action or for none, which are those of the entry or of its apply artifact for
  -- that plan. The plans are those of the entries; the jobs, service URLs and layers are those of the
  -- mapping; no plan and no job stands twice.
  pub handoff_scope-Covers :
      (manifest : List Json) (s : Scope)
      → handoff_scope valid plan_digest files url manifest ≡ ok s
      → Covers manifest s
  unfolding handoff_scope
  handoff_scope-Covers manifest s e =
      let x = scope_from-Extends manifest no_scope s no_scope-Collected e in
      record {
        parts = x.parts;
        entries = x.entries;
        whole = x.whole;
        plans = λ p. ((λ h. of_parts p _ ((x.plans p).0 h)), λ h. (x.plans p).1 (inr h));
        collected = x.collected;
      }
    where
      of_parts : (p : String) (ps : List String) → In p [] ⊎ In p ps → In p ps
      of_parts p ps (inl h) = elim h [ ]
      of_parts p ps (inr h) = h
