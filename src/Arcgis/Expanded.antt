-- ===== src/Arcgis/Expanded.antt =====
-- The actions of a plan that services/arcgis.py expands have tables and layers of their own.
use honua_migrate.Base.{
  ◌≡◌, refl, sym, subst, ℕ, ◌⊎◌, inl, inr, Bool, true, false, Bool-cases, arith, List, [], ◌∷◌,
  Option, none, some, if◌then◌else◌, any, take, All, In, map,
}
use honua_migrate.Base.Int.{ℤ, pos, negsuc, int_le}
use honua_migrate.Base.Text.{same_codes}
use honua_migrate.Json.{Json, get, int?, text?}
use honua_migrate.Runs.Contracts.{Result, ok, then_result, then_result-eq-ok, ok-injective}
use honua_migrate.Readiness.Manifest.{as_mapping}
use honua_migrate.Base.Decimal.{show_int}
use honua_migrate.Arcgis.Tables.{
  refuse, with_letter, table_name_from_layer, is_server_table, derived_table_name,
}
use honua_migrate.Arcgis.Refusals.{refused_ok}
use honua_migrate.Arcgis.Expand.{
  Relationship, Action, origin_action, related_action, layer_of, table_of, same_int, NamedLayer,
  named_layer, related_service, text_codes, relationship_records, expand_for, add_related,
  related_loop, expand_at, expand_service_plan,
}

-- No table and no layer of these actions is among the ones before.
abbrev pub Apart : List ℤ → List (List ℕ) → List Action → Type 0
Apart seen tables [] = Unit
Apart seen tables (a ∷ rest) =
    (any (same_int (layer_of a)) seen ≡ false)
    × (any (same_codes (table_of a)) tables ≡ false)
    × (is_server_table (table_of a) ≡ true)
    × Apart (layer_of a ∷ seen) (table_of a ∷ tables) rest

-- Each relationship's layer is among those before or those of the actions.
abbrev pub Covered : List Relationship → List ℤ → List Action → Type 0
Covered [] seen actions = Unit
Covered (r ∷ rs) seen actions =
    ((any (same_int r.destination_layer_id) seen ≡ true)
      ⊎ (any (λ a. same_int r.destination_layer_id (layer_of a)) actions ≡ true))
    × Covered rs seen actions

-- Each action imports the layer that one of the relationships leads to.
abbrev pub Related : List Relationship → List Action → Type 0
Related rs actions = All (λ a. In (layer_of a) (map (λ r. r.destination_layer_id) rs)) actions

Related-more :
    (r : Relationship) (rs : List Relationship) (actions : List Action)
    → Related rs actions
    → Related (r ∷ rs) actions
Related-more r rs [] h = tt
Related-more r rs (a ∷ actions) (m, h) = (inr m, Related-more r rs actions h)

same_int_refl : (a : ℤ) → same_int a a ≡ true
unfolding int_le
same_int_refl (pos n) = ground arith
same_int_refl (negsuc n) = ground arith

-- A layer moves from those before to those of the actions.
Covered-move :
    (rs : List Relationship) (seen : List ℤ) (a : Action) (actions : List Action)
    → Covered rs (layer_of a ∷ seen) actions
    → Covered rs seen (a ∷ actions)
Covered-move [] seen a actions h = tt
Covered-move (r ∷ rs) seen a actions (h, hs) =
    (ground (arith, h), Covered-move rs seen a actions hs)

accepted :
    (test : List ℕ → Bool) (x t : List ℕ) → (if test x then ok x else refuse) ≡ ok t → test t ≡ true
accepted test x t e = elim (Bool-cases (test x)) [
  | inl p ↦ subst (λ y. test y ≡ true) (sym (ok-injective (rw p at e))) p
  | inr p ↦ absurd (refused_ok (rw p at e))
]

derived-server :
    (name : List ℕ) (id : ℤ) (table : List ℕ)
    → derived_table_name name id ≡ ok table
    → is_server_table table ≡ true
unfolding derived_table_name
derived-server name id table e =
    accepted is_server_table (take 63 (with_letter (table_name_from_layer name id))) table e

abbrev pub Settled : List Relationship → List ℤ → List (List ℕ) → List Action → Type 0
Settled rs seen tables actions =
    Apart seen tables actions × Covered rs seen actions × Related rs actions

module _ (origin : Json) (named : List NamedLayer) where
  related_loop-Settled :
      (rs : List Relationship) (seen : List ℤ) (tables : List (List ℕ)) (actions : List Action)
      → related_loop origin named rs seen tables ≡ ok actions
      → Settled rs seen tables actions
  unfolding related_loop add_related
  related_loop-Settled [] seen tables actions e =
      subst (Settled [] seen tables) (sym (ok-injective e)) (tt, tt, tt)
  related_loop-Settled (r ∷ rs) seen tables actions e =
      step (any (same_int id) seen) refl e (related_loop-Settled rs seen tables actions)
        (λ table. related_loop-Settled rs (id ∷ seen) (table ∷ tables))
    where
      id : ℤ
      id = r.destination_layer_id

      named_by : (t : List ℕ) → Result (List Action)
      named_by table =
          add_related origin named id tables table
            λ t. related_loop origin named rs (id ∷ seen) (t ∷ tables)

      step :
          (b : Bool)
          → any (same_int id) seen ≡ b
          → (if b
              then related_loop origin named rs seen tables
              else then_result (derived_table_name (named_layer named id) id) named_by)
            ≡ ok actions
          → (related_loop origin named rs seen tables ≡ ok actions → Settled rs seen tables actions)
          → ((table : List ℕ) (later : List Action)
              → related_loop origin named rs (id ∷ seen) (table ∷ tables) ≡ ok later
              → Settled rs (id ∷ seen) (table ∷ tables) later)
          → Settled (r ∷ rs) seen tables actions
      step true known h skipped rest =
          let (a, c, d) = skipped h in (a, ((inl known), c), Related-more r rs actions d)
      step false known h skipped rest =
          let (table, name, h₁) =
            then_result-eq-ok (derived_table_name (named_layer named id) id) _ h in
          elim (Bool-cases (any (same_codes table) tables)) [
            | inl t ↦ absurd (refused_ok (rw t at h₁))
            | inr t ↦
                let (later, e₁, e₂) =
                  then_result-eq-ok (related_loop origin named rs (id ∷ seen) (table ∷ tables)) _
                    (rw t at h₁) in
                let (a, c, d) = rest table later e₁ in
                let new : Action =
                  related_action origin id table
                    (related_service (text? (get "serviceName" origin)) id) in
                subst (Settled (r ∷ rs) seen tables) (sym (ok-injective e₂)) (
                  (known, t, derived-server (named_layer named id) id table name, a),
                  (inr (ground (arith, same_int_refl id)), Covered-move rs seen new later c),
                  (inl refl, Related-more r rs later d),
                )
          ]

-- What a plan settles: its first action is the origin's, and the rest are those of its
-- relationships, apart from the origin's and from each other.
pub record Plan (origin catalog : Json) (actions : List Action) : Type 0 where
  pub id : ℤ
  pub table : List ℕ
  pub relationships : List Relationship
  pub related : List Action
  pub layer : int? (get "layerId" origin) ≡ some id
  pub table_name : text_codes (get "tableName" origin) ≡ some table
  pub is_accepted : is_server_table table ≡ true
  pub recorded :
      relationships
      ≡ relationship_records id (as_mapping (get (show_int id) (as_mapping (get "layers" catalog))))
  pub parts : actions ≡ origin_action origin id table relationships ∷ related
  pub settled : Settled relationships (id ∷ []) (table ∷ []) related

expand_at-Plan :
    (origin catalog : Json) (id : ℤ) (o : Option (List ℕ)) (actions : List Action)
    → int? (get "layerId" origin) ≡ some id
    → text_codes (get "tableName" origin) ≡ o
    → expand_at origin catalog id o ≡ ok actions
    → Plan origin catalog actions
unfolding expand_at
expand_at-Plan origin catalog id none actions l t e = absurd (refused_ok e)
expand_at-Plan origin catalog id (some table) actions l t e =
    elim (Bool-cases (is_server_table table)) [
      | inl a ↦
          let (related, e₁, e₂) = then_result-eq-ok _ _ (rw a at e) in
          record {
            id = id;
            table = table;
            relationships = _;
            related = related;
            layer = l;
            table_name = t;
            is_accepted = a;
            recorded = refl;
            parts = ok-injective e₂;
            settled = related_loop-Settled origin _ _ _ _ related e₁;
          }
      | inr a ↦ absurd (refused_ok (rw a at e))
    ]

-- Where a plan is expanded, its first action imports the layer of the origin with the relationships
-- of that layer in the catalog, and each other action imports the layer that one of these
-- relationships leads to. No two actions have
-- the same layer or the same table, each table is a name that the server accepts, and the layer of
-- each relationship has an action.
pub expand_service_plan-Plan :
    (origin catalog : Json) (actions : List Action)
    → expand_service_plan origin catalog ≡ ok actions
    → Plan origin catalog actions
unfolding expand_service_plan
expand_service_plan-Plan origin catalog actions e = step (int? (get "layerId" origin)) refl e
  where
    step :
        (o : Option ℤ)
        → int? (get "layerId" origin) ≡ o
        → expand_for origin catalog o ≡ ok actions
        → Plan origin catalog actions
    step none l h = absurd (refused_ok h)
    step (some id) l h =
        expand_at-Plan origin catalog id (text_codes (get "tableName" origin)) actions l refl h
