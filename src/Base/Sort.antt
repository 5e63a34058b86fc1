-- ===== src/Base/Sort.antt =====
-- Python's `sorted`: a stable sort by a Boolean order, with the laws that its uses need.
use Prim.Native.Nat.{suc}
use mathlib.Core.Path.{◌≡◌, refl}
use mathlib.Core.Logic.{◌⊎◌, inl, inr}
use mathlib.Core.Bool.{Bool, true, false}
use mathlib.Core.List.{List, [], ◌∷◌}
use native.Mathlib.Omega.{arith}
use honua_migrate.Base.Tests.{if◌then◌else◌, Bool-cases}
use honua_migrate.Base.Lists.{length, In, count_if}

module _ {A : Type 0} (le : A → A → Bool) where
  -- An element goes before the first one that is not below it, so that equals keep their order.
  unfoldable pub insert_sorted : A → List A → List A
  insert_sorted x [] = x ∷ []
  insert_sorted x (y ∷ ys) = if le x y then x ∷ y ∷ ys else y ∷ insert_sorted x ys

  unfoldable pub sorted : List A → List A
  unfolding insert_sorted
  sorted [] = []
  sorted (x ∷ xs) = insert_sorted x (sorted xs)

  abbrev pub IsSorted : List A → Type 0
  IsSorted [] = Unit
  IsSorted (x ∷ []) = Unit
  IsSorted (x ∷ y ∷ ys) = (le x y ≡ true) × IsSorted (y ∷ ys)

  insert_sorted-IsSorted :
      ((x y : A) → le x y ≡ false → le y x ≡ true)
      → (x : A) (ys : List A) → IsSorted ys
      → IsSorted (insert_sorted x ys)
  unfolding insert_sorted
  insert_sorted-IsSorted total x [] s = tt
  insert_sorted-IsSorted total x (y ∷ []) s = ground (arith, total x y)
  insert_sorted-IsSorted total x (y ∷ z ∷ zs) (yz, s) =
      ground (arith, total x y, insert_sorted-IsSorted total x (z ∷ zs) s)

  pub sorted-IsSorted :
      ((x y : A) → le x y ≡ false → le y x ≡ true) → (xs : List A) → IsSorted (sorted xs)
  unfolding sorted
  sorted-IsSorted total [] = tt
  sorted-IsSorted total (x ∷ xs) =
      insert_sorted-IsSorted total x (sorted xs) (sorted-IsSorted total xs)

  count_if-insert_sorted :
      (test : A → Bool) (x : A) (ys : List A)
      → count_if test (insert_sorted x ys) ≡ count_if test (x ∷ ys)
  unfolding insert_sorted
  count_if-insert_sorted test x [] = refl
  count_if-insert_sorted test x (y ∷ ys) = ground (arith, count_if-insert_sorted test x ys)

  -- Sorting keeps how many elements pass a test, for every test.
  pub count_if-sorted :
      (test : A → Bool) (xs : List A) → count_if test (sorted xs) ≡ count_if test xs
  unfolding sorted
  count_if-sorted test [] = refl
  count_if-sorted test (x ∷ xs) =
      ground (arith, count_if-insert_sorted test x (sorted xs), count_if-sorted test xs)

  length-insert_sorted : (x : A) (ys : List A) → length (insert_sorted x ys) ≡ suc (length ys)
  unfolding insert_sorted
  length-insert_sorted x [] = refl
  length-insert_sorted x (y ∷ ys) = ground (arith, length-insert_sorted x ys)

  pub length-sorted : (xs : List A) → length (sorted xs) ≡ length xs
  unfolding sorted
  length-sorted [] = refl
  length-sorted (x ∷ xs) = omega (arith, length-insert_sorted x (sorted xs), length-sorted xs)

  In-insert_sorted : (a x : A) (ys : List A) → (a ≡ x) ⊎ In a ys → In a (insert_sorted x ys)
  unfolding insert_sorted
  In-insert_sorted a x [] h = h
  In-insert_sorted a x (y ∷ ys) h = elim (Bool-cases (le x y)) [
    | inl e ↦ rw e h
    | inr e ↦ rw e (shift h (In-insert_sorted a x ys))
  ]
    where
      shift :
          (a ≡ x) ⊎ ((a ≡ y) ⊎ In a ys)
          → ((a ≡ x) ⊎ In a ys → In a (insert_sorted x ys))
          → (a ≡ y) ⊎ In a (insert_sorted x ys)
      shift (inl p) ih = inr (ih (inl p))
      shift (inr (inl p)) ih = inl p
      shift (inr (inr p)) ih = inr (ih (inr p))

  pub In-sorted : (a : A) (xs : List A) → In a xs → In a (sorted xs)
  unfolding sorted
  In-sorted a [] h = h
  In-sorted a (x ∷ xs) (inl p) = In-insert_sorted a x (sorted xs) (inl p)
  In-sorted a (x ∷ xs) (inr p) = In-insert_sorted a x (sorted xs) (inr (In-sorted a xs p))

  insert_sorted-In : (a x : A) (ys : List A) → In a (insert_sorted x ys) → (a ≡ x) ⊎ In a ys
  unfolding insert_sorted
  insert_sorted-In a x [] h = h
  insert_sorted-In a x (y ∷ ys) h = back (le x y) h (insert_sorted-In a x ys)
    where
      back :
          (b : Bool)
          → In a (if b then x ∷ y ∷ ys else y ∷ insert_sorted x ys)
          → (In a (insert_sorted x ys) → (a ≡ x) ⊎ In a ys)
          → (a ≡ x) ⊎ In a (y ∷ ys)
      back true h ih = h
      back false (inl p) ih = inr (inl p)
      back false (inr p) ih = elim (ih p) [ inl q ↦ inl q | inr q ↦ inr (inr q) ]

  pub sorted-In : (a : A) (xs : List A) → In a (sorted xs) → In a xs
  unfolding sorted
  sorted-In a [] h = h
  sorted-In a (x ∷ xs) h = elim (insert_sorted-In a x (sorted xs) h) [
    | inl p ↦ inl p
    | inr p ↦ inr (sorted-In a xs p)
  ]

  -- What is in order stays as it is.
  pub sorted-id : (xs : List A) → IsSorted xs → sorted xs ≡ xs
  unfolding sorted insert_sorted
  sorted-id [] s = refl
  sorted-id (x ∷ []) s = refl
  sorted-id (x ∷ y ∷ ys) (xy, s) = rw (sorted-id (y ∷ ys) s) (rw xy refl)
