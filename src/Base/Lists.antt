-- ===== src/Base/Lists.antt =====
-- Lists over the native numbers, predicates on all members, and Python's `sum`, `any`, `len`.
use Prim.Native.Nat.{ℕ, zero, suc, ◌+◌, ◌≤◌}
use mathlib.Core.Path.{◌≡◌, refl, ap, sym, subst, ◌∙◌}
use mathlib.Core.Logic.{◌⊎◌, inl, inr}
use mathlib.Core.Bool.{Bool, true, false, ◌&&◌, ◌||◌}
use mathlib.Core.Option.{Option, none, some}
use mathlib.Core.List.{List, [], ◌∷◌, ◌++◌, map}
use native.Mathlib.Omega.{arith}
use honua_migrate.Base.Tests.{if◌then◌else◌, Bool-cases}

module _ {ℓ} {A : Type ℓ} where
  abbrev pub length : List A → ℕ
  length [] = 0
  length (x ∷ xs) = suc (length xs)

  -- `any(test(x) for x in xs)`
  abbrev pub any : (A → Bool) → List A → Bool
  any test [] = false
  any test (x ∷ xs) = test x || any test xs

  abbrev pub all : (A → Bool) → List A → Bool
  all test [] = true
  all test (x ∷ xs) = test x && all test xs

  -- `[x for x in xs if test(x)]`
  abbrev pub keep : (A → Bool) → List A → List A
  keep test [] = []
  keep test (x ∷ xs) = let rest = keep test xs in if test x then x ∷ rest else rest

  -- `sum(1 for x in xs if test(x))`
  abbrev pub count_if : (A → Bool) → List A → ℕ
  count_if test [] = 0
  count_if test (x ∷ xs) = let rest = count_if test xs in if test x then suc rest else rest

  abbrev pub is_empty : List A → Bool
  is_empty [] = true
  is_empty (_ ∷ _) = false

  abbrev pub last? : List A → Option A
  last? [] = none
  last? (x ∷ []) = some x
  last? (x ∷ y ∷ xs) = last? (y ∷ xs)

  abbrev pub All {κ} : (A → Type κ) → List A → Type κ
  All P [] = Unit
  All P (x ∷ xs) = P x × All P xs

  pub length-append : (xs ys : List A) → length (xs ++ ys) ≡ length xs + length ys
  length-append [] ys = omega arith
  length-append (x ∷ xs) ys = omega (arith, length-append xs ys)

  pub All-of {κ} : (P : A → Type κ) → ((x : A) → P x) → (xs : List A) → All P xs
  All-of P h [] = tt
  All-of P h (x ∷ xs) = (h x, All-of P h xs)

  pub All-append {κ} : (P : A → Type κ) (xs ys : List A) → All P xs → All P ys → All P (xs ++ ys)
  All-append P [] ys hx hy = hy
  All-append P (x ∷ xs) ys hx hy = (hx.0, All-append P xs ys hx.1 hy)

-- `xs[:n]` and `xs[n:]`
abbrev pub take {ℓ} : {A : Type ℓ} → ℕ → List A → List A
take zero xs = []
take (suc n) [] = []
take (suc n) (x ∷ xs) = x ∷ take n xs

abbrev pub drop {ℓ} : {A : Type ℓ} → ℕ → List A → List A
drop zero xs = xs
drop (suc n) [] = []
drop (suc n) (x ∷ xs) = drop n xs

pub take-drop {ℓ} : {A : Type ℓ} (n : ℕ) (xs : List A) → take n xs ++ drop n xs ≡ xs
take-drop zero xs = refl
take-drop (suc n) [] = refl
take-drop (suc n) (x ∷ xs) = ap (λ ys. x ∷ ys) (take-drop n xs)

pub drop_all {ℓ} : {A : Type ℓ} (n : ℕ) (xs : List A) → length xs ≤ n → drop n xs ≡ []
drop_all zero [] h = refl
drop_all zero (x ∷ xs) h = absurd (omega (arith, h))
drop_all (suc n) [] h = refl
drop_all (suc n) (x ∷ xs) h = drop_all n xs (omega (arith, h))

drop_nil {ℓ} : {A : Type ℓ} (n : ℕ) → [] ≡ drop {A = A} n []
drop_nil zero = refl
drop_nil (suc n) = refl

pub drop-drop {ℓ} : {A : Type ℓ} (m n : ℕ) (xs : List A) → drop m (drop n xs) ≡ drop (n + m) xs
drop-drop m zero xs = ap (λ k. drop k xs) same
  where
    same : m ≡ 0 + m
    same = omega arith
drop-drop zero (suc n) [] = drop_nil (suc n + 0)
drop-drop (suc m) (suc n) [] = drop_nil (suc n + suc m)
drop-drop m (suc n) (x ∷ xs) = drop-drop m n xs ∙ ap (λ k. drop k (x ∷ xs)) same
  where
    same : suc (n + m) ≡ suc n + m
    same = omega arith

pub keep-append {ℓ} :
    {A : Type ℓ} (test : A → Bool) (xs ys : List A)
    → keep test (xs ++ ys) ≡ keep test xs ++ keep test ys
keep-append test [] ys = refl
keep-append test (x ∷ xs) ys = elim (Bool-cases (test x)) [
  | inl e ↦ rw e (ap (λ zs. x ∷ zs) (keep-append test xs ys))
  | inr e ↦ rw e (keep-append test xs ys)
]

-- Membership by recursion.
abbrev pub In : {A : Type 0} → A → List A → Type 0
In a [] = ⊥
In a (x ∷ xs) = (a ≡ x) ⊎ In a xs

pub In-keep :
    {A : Type 0} (test : A → Bool) (a : A) (xs : List A)
    → In a xs
    → test a ≡ true
    → In a (keep test xs)
In-keep test a [] h e = elim h [ ]
In-keep test a (x ∷ xs) (inl p) e = rw (← p, e) (inl refl)
In-keep test a (x ∷ xs) (inr p) e = elim (Bool-cases (test x)) [
  | inl t ↦ rw t (inr (In-keep test a xs p e))
  | inr t ↦ rw t (In-keep test a xs p e)
]

pub In-map : {A B : Type 0} (f : A → B) (a : A) (xs : List A) → In a xs → In (f a) (map f xs)
In-map f a [] h = elim h [ ]
In-map f a (x ∷ xs) (inl p) = inl (ap f p)
In-map f a (x ∷ xs) (inr p) = inr (In-map f a xs p)

pub keep-In :
    {A : Type 0} (test : A → Bool) (a : A) (xs : List A)
    → In a (keep test xs)
    → In a xs × (test a ≡ true)
keep-In test a [] h = elim h [ ]
keep-In test a (x ∷ xs) h = back (test x) refl h (keep-In test a xs)
  where
    back :
        (b : Bool)
        → test x ≡ b
        → In a (if b then x ∷ keep test xs else keep test xs)
        → (In a (keep test xs) → In a xs × (test a ≡ true))
        → In a (x ∷ xs) × (test a ≡ true)
    back true e (inl p) ih = (inl p, rw p e)
    back true e (inr p) ih = let (q, r) = ih p in (inr q, r)
    back false e p ih = let (q, r) = ih p in (inr q, r)

pub all-In :
    {A : Type 0} (test : A → Bool) (a : A) (xs : List A)
    → all test xs ≡ true
    → In a xs
    → test a ≡ true
all-In test a [] h m = elim m [ ]
all-In test a (x ∷ xs) h (inl p) = rw p (ground (arith, h))
all-In test a (x ∷ xs) h (inr m) = all-In test a xs (ground (arith, h)) m

pub All-map :
    {A B : Type 0} (P : B → Type 0) (f : A → B)
    → ((a : A) → P (f a))
    → (xs : List A) → All P (map f xs)
All-map P f h [] = tt
All-map P f h (x ∷ xs) = (h x, All-map P f h xs)

-- Of a result that is there.
abbrev pub Yields : {A : Type 0} → (A → Type 0) → Option A → Type 0
Yields P none = ⊥
Yields P (some a) = P a

pub All-In : {A : Type 0} (P : A → Type 0) (xs : List A) → ((a : A) → In a xs → P a) → All P xs
All-In P [] h = tt
All-In P (x ∷ xs) h = (h x (inl refl), All-In P xs (λ a m. h a (inr m)))

pub In-All : {A : Type 0} (P : A → Type 0) (a : A) (xs : List A) → All P xs → In a xs → P a
In-All P a [] h m = elim m [ ]
In-All P a (x ∷ xs) (p, h) (inl e) = subst P (sym e) p
In-All P a (x ∷ xs) (p, h) (inr m) = In-All P a xs h m

pub In-append : {A : Type 0} (a : A) (xs ys : List A) → In a xs ⊎ In a ys → In a (xs ++ ys)
In-append a [] ys (inl h) = elim h [ ]
In-append a [] ys (inr h) = h
In-append a (x ∷ xs) ys (inl (inl e)) = inl e
In-append a (x ∷ xs) ys (inl (inr h)) = inr (In-append a xs ys (inl h))
In-append a (x ∷ xs) ys (inr h) = inr (In-append a xs ys (inr h))

pub append-In : {A : Type 0} (a : A) (xs ys : List A) → In a (xs ++ ys) → In a xs ⊎ In a ys
append-In a [] ys h = inr h
append-In a (x ∷ xs) ys (inl e) = inl (inl e)
append-In a (x ∷ xs) ys (inr h) = elim (append-In a xs ys h) [ inl l ↦ inl (inr l) | inr r ↦ inr r ]

pub length-map {ℓ κ} :
    {A : Type ℓ} {B : Type κ} (f : A → B) (xs : List A) → length (map f xs) ≡ length xs
length-map f [] = refl
length-map f (x ∷ xs) = ap suc (length-map f xs)
