-- ===== src/Report/Same.antt =====
-- Lemmas of the reviews of report/heuristics.py: equal texts, and members of lists built under tests.
use honua_migrate.Base.{
  ℕ, ◌≡◌, ◌≢◌, refl, sym, subst, ◌∙◌, ◌⊎◌, inl, inr, Bool, true, false, ◌&&◌, ◌||◌, List, [], ◌∷◌,
  String, any, map, if◌then◌else◌, arith, Bool-cases, In, All,
}
use honua_migrate.Base.Text.{codes, same_codes}
use honua_migrate.Report.Items.{Text}

pub same_codes_refl : (cs : List ℕ) → same_codes cs cs ≡ true
unfolding same_codes
same_codes_refl [] = refl
same_codes_refl (c ∷ cs) = ground (arith, same_codes_refl cs)

pub same_codes-eq : (cs ds : List ℕ) → same_codes cs ds ≡ true → cs ≡ ds
unfolding same_codes
same_codes-eq [] [] h = refl
same_codes-eq [] (d ∷ ds) h = cc
same_codes-eq (c ∷ cs) [] h = cc
same_codes-eq (c ∷ cs) (d ∷ ds) h = ground (arith, h, same_codes-eq cs ds)

pub both : (a b : Bool) → (a && b) ≡ true → (a ≡ true) × (b ≡ true)
both true true h = (refl, refl)
both true false h = cc
both false b h = cc

pub either : (a b : Bool) → (a || b) ≡ true → (a ≡ true) ⊎ (b ≡ true)
either true b h = inl refl
either false b h = inr h

-- Membership under a test, and what a test of any says
pub if-In :
    {A : Type 0} (x : A) (b : Bool) (xs : List A)
    → In x (if b then xs else [])
    → (b ≡ true) × In x xs
if-In x true xs m = (refl, m)
if-In x false xs m = elim m [ ]

pub In-if :
    {A : Type 0} (x : A) (b : Bool) (xs : List A) → b ≡ true → In x xs → In x (if b then xs else [])
In-if x b xs e m = rw e m

pub map-In :
    {A B : Type 0} (f : A → B) (y : B) (xs : List A)
    → In y (map f xs)
    → (x : A) × In x xs × (y ≡ f x)
map-In f y [] m = elim m [ ]
map-In f y (x ∷ xs) (inl p) = (x, inl refl, p)
map-In f y (x ∷ xs) (inr m) = let (z, n, e) = map-In f y xs m in (z, inr n, e)

pub any-In :
    {A : Type 0} (test : A → Bool) (xs : List A)
    → any test xs ≡ true
    → (x : A) × In x xs × (test x ≡ true)
any-In test [] h = cc
any-In test (x ∷ xs) h = elim (Bool-cases (test x)) [
  | inl e ↦ (x, inl refl, e)
  | inr e ↦ let (y, m, t) = any-In test xs (rw e at h) in (y, inr m, t)
]

pub In-any :
    {A : Type 0} (test : A → Bool) (x : A) (xs : List A)
    → In x xs
    → test x ≡ true
    → any test xs ≡ true
In-any test x [] m e = elim m [ ]
In-any test x (y ∷ ys) (inl p) e = rw (← p, e) refl
In-any test x (y ∷ ys) (inr m) e = elim (Bool-cases (test y)) [
  | inl t ↦ rw t refl
  | inr t ↦ rw t (In-any test x ys m e)
]

abbrev pub is_name : Text → String → Bool
is_name t name = same_codes (codes name) t

pub is_name-eq : (t : Text) (name : String) → codes name ≡ t → is_name t name ≡ true
is_name-eq t name e = subst (λ u. same_codes (codes name) u ≡ true) e (same_codes_refl (codes name))

pub none_named :
    (t : Text) (names : List String)
    → any (is_name t) names ≡ false
    → All (λ name. codes name ≢ t) names
none_named t [] h = tt
none_named t (name ∷ names) h = elim (Bool-cases (is_name t name)) [
  | inl e ↦ absurd (true_is_not (rw e at h))
  | inr e ↦ (λ p. true_is_not (sym (is_name-eq t name p) ∙ e), none_named t names (rw e at h))
]
  where
    true_is_not : true ≡ false → ⊥
    true_is_not p = cc

pub named_none :
    (t : Text) (names : List String)
    → All (λ name. codes name ≢ t) names
    → any (is_name t) names ≡ false
named_none t [] h = refl
named_none t (name ∷ names) (n, h) = elim (Bool-cases (is_name t name)) [
  | inl e ↦ absurd (n (same_codes-eq (codes name) t e))
  | inr e ↦ rw e (named_none t names h)
]
