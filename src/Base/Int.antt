-- ===== src/Base/Int.antt =====
-- Python's integers, as far as artifacts carry them; `negsuc n` is -(n + 1).
use Prim.Native.Nat.{ℕ, suc, ◌+◌, ◌-◌}
use mathlib.Core.Path.{◌≡◌, refl}
use mathlib.Core.Bool.{Bool, true, false}
use native.Mathlib.Omega.{arith}
use honua_migrate.Base.Tests.{leb, if◌then◌else◌}

pub data ℤ : Type 0 where
  pos : ℕ → ℤ
  negsuc : ℕ → ℤ

abbrev sub_ℕ : ℕ → ℕ → ℤ
sub_ℕ a b = if leb b a then pos (a - b) else negsuc (b - a - 1)

infixl 65 ◌+ℤ◌
unfoldable pub ◌+ℤ◌ : ℤ → ℤ → ℤ
pos a +ℤ pos b = pos (a + b)
pos a +ℤ negsuc b = sub_ℕ a (suc b)
negsuc a +ℤ pos b = sub_ℕ b (suc a)
negsuc a +ℤ negsuc b = negsuc (a + b + 1)

unfoldable pub int_le : ℤ → ℤ → Bool
int_le (pos a) (pos b) = leb a b
int_le (pos a) (negsuc b) = false
int_le (negsuc a) (pos b) = true
int_le (negsuc a) (negsuc b) = leb b a

pub int_le_total : (a b : ℤ) → int_le a b ≡ false → int_le b a ≡ true
unfolding int_le
int_le_total (pos a) (pos b) h = ground arith
int_le_total (pos a) (negsuc b) h = refl
int_le_total (negsuc a) (pos b) h = cc
int_le_total (negsuc a) (negsuc b) h = ground arith
