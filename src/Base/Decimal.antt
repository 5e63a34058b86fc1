-- ===== src/Base/Decimal.antt =====
-- `str` of an integer.
use Prim.Native.Nat.{ℕ, zero, suc, ◌/◌, ◌%◌}
use Prim.Native.String.{String, ◌++◌}
use honua_migrate.Base.Tests.{ltb, if◌then◌else◌}
use honua_migrate.Base.Int.{ℤ, pos, negsuc}

digit : ℕ → String
digit zero = "0"
digit (suc zero) = "1"
digit (suc (suc zero)) = "2"
digit (suc (suc (suc zero))) = "3"
digit (suc (suc (suc (suc zero)))) = "4"
digit (suc (suc (suc (suc (suc zero))))) = "5"
digit (suc (suc (suc (suc (suc (suc zero)))))) = "6"
digit (suc (suc (suc (suc (suc (suc (suc zero))))))) = "7"
digit (suc (suc (suc (suc (suc (suc (suc (suc zero)))))))) = "8"
digit _ = "9"

-- A number has at most as many digits as it is large, and one for 0.
digits_of : ℕ → ℕ → String
digits_of zero n = ""
digits_of (suc fuel) n =
    let more = digits_of fuel (n / 10) in if ltb n 10 then digit n else more ++ digit (n % 10)

unfoldable pub show_nat : ℕ → String
unfolding digits_of digit
show_nat n = digits_of (suc n) n

unfoldable pub show_int : ℤ → String
unfolding show_nat
show_int (pos n) = show_nat n
show_int (negsuc n) = "-" ++ show_nat (suc n)
