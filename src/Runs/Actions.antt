-- ===== src/Runs/Actions.antt =====
-- What `_validated_actions` promises of the actions that it passes.
use honua_migrate.Base.{
  ◌≡◌, refl, sym, ◌∙◌, ap, false, ◌||◌, List, [], ◌∷◌, ◌++◌, String, arith, All, contains,
  string_eq, ◌==◌, length, ◌≢◌, suc,
}
use honua_migrate.Runs.Contracts.{ok, then_result-eq-ok, ok-injective, Action}
use honua_migrate.Runs.Checkpoints.{RawAction, read_action, validated_actions}
use honua_migrate.Runs.Trail.{Fresh}

-- Two lists that hold the same texts.
abbrev SameMembers : List String → List String → Type 0
SameMembers xs ys = (s : String) → contains xs s ≡ contains ys s

SameMembers-cons :
    (x : String) (xs ys : List String) → SameMembers xs ys → SameMembers (x ∷ xs) (ys ++ (x ∷ []))
SameMembers-cons x xs [] h s = ground (arith, h s)
SameMembers-cons x xs (y ∷ ys) h s = ground (arith, h s, contains-append ys x s)
  where
    contains-append :
        (ys : List String) (x s : String) → contains (ys ++ (x ∷ [])) s ≡ (contains ys s || s == x)
    contains-append [] x s = ground arith
    contains-append (y ∷ ys) x s = ground (arith, contains-append ys x s)

read_action-fresh :
    (raw : RawAction) (identifiers : List String) {x : Action}
    → read_action raw identifiers ≡ ok x
    → (contains identifiers x.id ≡ false) × (x.id ≢ "")
unfolding read_action
read_action-fresh raw identifiers h = ground arith

abbrev Accepted : List String → List RawAction → List Action → Type 0
Accepted found raws actions =
    Fresh found actions × All (λ x. x.id ≢ "") actions × (length actions ≡ length raws)

validated_actions-Accepted :
    (raws : List RawAction) (identifiers found : List String) {actions : List Action}
    → SameMembers identifiers found
    → validated_actions raws identifiers ≡ ok actions
    → Accepted found raws actions
unfolding validated_actions
validated_actions-Accepted [] identifiers found same h = rw (ok-injective h) (tt, tt, refl)
validated_actions-Accepted (raw ∷ raws) identifiers found same h =
    let (x, read, h₁) = then_result-eq-ok (read_action raw identifiers) _ h in
    let (rest, validated, h₂) =
      then_result-eq-ok (validated_actions raws (x.id ∷ identifiers)) (λ rest. ok (x ∷ rest)) h₁ in
    let (new, named) = read_action-fresh raw identifiers read in
    let (fresh, names, count) =
      validated_actions-Accepted raws (x.id ∷ identifiers) (found ++ (x.id ∷ []))
        (SameMembers-cons x.id identifiers found same) validated in
    rw (ok-injective h₂) ((sym (same x.id) ∙ new, fresh), (named, names), ap suc count)

-- The actions that a plan's validation passes have distinct identities, none of them empty, and
-- are as many as the plan's entries.
pub validated_actions-Fresh :
    (raws : List RawAction) {actions : List Action}
    → validated_actions raws [] ≡ ok actions
    → Fresh [] actions × All (λ x. x.id ≢ "") actions × (length actions ≡ length raws)
validated_actions-Fresh raws h = validated_actions-Accepted raws [] [] (λ s. refl) h
