-- ===== src/Base/Text.antt =====
-- Texts by their code points: Python's order on `str`, `strip`, `lower` and `split`.
use Prim.Native.Char.{code}
use Prim.Native.Nat.{ℕ, ◌+◌}
use Prim.Native.String.{String}
use mathlib.Core.Path.{◌≡◌, refl}
use mathlib.Core.Bool.{Bool, true, false, ◌||◌, ◌&&◌}
use mathlib.Core.List.{List, [], ◌∷◌, ◌++◌, reverse}
use native.Mathlib.Omega.{arith}
use honua_migrate.Base.Tests.{ltb, leb, if◌then◌else◌}
use honua_migrate.Base.Equality.{contains, nat_eq, ◌==◌}

abbrev pub codes : String → List ℕ
codes String.[] = []
codes (String.◌∷◌ c s) = code c ∷ codes s

-- The order by code points.
unfoldable pub codes_le : List ℕ → List ℕ → Bool
codes_le [] ys = true
codes_le (x ∷ xs) [] = false
codes_le (x ∷ xs) (y ∷ ys) = ltb x y || (leb x y && codes_le xs ys)

pub codes_le_total : (xs ys : List ℕ) → codes_le xs ys ≡ false → codes_le ys xs ≡ true
unfolding codes_le
codes_le_total [] ys h = ground arith
codes_le_total (x ∷ xs) [] h = refl
codes_le_total (x ∷ xs) (y ∷ ys) h = ground (arith, codes_le_total xs ys)

unfoldable pub text_le : String → String → Bool
unfolding codes_le
text_le s t = codes_le (codes s) (codes t)

pub text_le_total : (s t : String) → text_le s t ≡ false → text_le t s ≡ true
unfolding text_le
text_le_total s t h = codes_le_total (codes s) (codes t) h

-- `str.isspace` of one character.
abbrev pub is_space : ℕ → Bool
is_space c =
    (leb 9 c && leb c 13)
    || (leb 28 c && leb c 32)
    || (leb 0x2000 c && leb c 0x200a)
    || contains (133 ∷ 160 ∷ 0x1680 ∷ 0x2028 ∷ 0x2029 ∷ 0x202f ∷ 0x205f ∷ 0x3000 ∷ []) c

drop_spaces : List ℕ → List ℕ
drop_spaces [] = []
drop_spaces (c ∷ cs) = if is_space c then drop_spaces cs else c ∷ cs

unfoldable pub strip : List ℕ → List ℕ
unfolding drop_spaces nat_eq
strip cs = reverse (drop_spaces (reverse (drop_spaces cs)))

-- `str.lower` as far as it gives ASCII: the capitals, and the Kelvin sign.
unfoldable pub lower : ℕ → ℕ
lower c =
    if leb b'A' c && leb c b'Z' then c + 32 else if leb 0x212a c && leb c 0x212a then b'k' else c

-- `s.split(",")`; the pieces are never none.
split_onto : List ℕ → List ℕ → List (List ℕ)
split_onto piece [] = piece ∷ []
split_onto piece (c ∷ cs) =
    let rest = split_onto [] cs in
    let more = split_onto (piece ++ (c ∷ [])) cs in
    elim (c == b',') [ true ↦ piece ∷ rest | false ↦ more ]

unfoldable pub split_commas : List ℕ → List (List ℕ)
unfolding split_onto nat_eq
split_commas cs = split_onto [] cs

unfoldable pub same_codes : List ℕ → List ℕ → Bool
same_codes [] [] = true
same_codes (x ∷ xs) (y ∷ ys) = leb x y && leb y x && same_codes xs ys
same_codes _ _ = false
