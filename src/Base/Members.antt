-- ===== src/Base/Members.antt =====
-- Python's `in` on a list, and membership.
use mathlib.Core.Path.{◌≡◌}
use mathlib.Core.Logic.{inl, inr}
use mathlib.Core.Bool.{true}
use mathlib.Core.List.{List, [], ◌∷◌}
use native.Mathlib.Omega.{arith}
use honua_migrate.Base.Tests.{Bool-cases}
use honua_migrate.Base.Equality.{Eq, ◌==◌, contains, eq_of_==}
use honua_migrate.Base.Lists.{In}

module _ {A : Type 0} ⦃e : Eq A⦄ where
  pub contains-In : (xs : List A) (n : A) → contains xs n ≡ true → In n xs
  contains-In [] n h = ground arith
  contains-In (x ∷ xs) n h = elim (Bool-cases (n == x)) [
    | inl p ↦ inl (eq_of_== n x p)
    | inr p ↦ inr (contains-In xs n (ground (arith, h, p)))
  ]

  pub In-contains : (xs : List A) (n : A) → In n xs → contains xs n ≡ true
  In-contains [] n h = elim h [ ]
  In-contains (x ∷ xs) n (inl p) = ground arith
  In-contains (x ∷ xs) n (inr p) = ground (arith, In-contains xs n p)
