-- ===== src/Common/Strings.antt =====
-- C strings: their bytes without the NUL, and what the program asks of the C library about them.
use Prim.Native.Nat.{ℕ, zero, suc, ◌+◌, ◌/◌, ◌%◌}
use Prim.Native.Char.{code}
use Prim.Native.String.{String}
use mathlib.Core.Path.{◌≡◌, refl}
use mathlib.Core.Bool.{Bool, true, false, ◌&&◌, ◌||◌}
use mathlib.Core.List.{List, [], ◌∷◌, ◌++◌}
use native.Mathlib.Omega.{arith}
use pimidi.Common.Tests.{ltb, leb, ◌==◌, if◌then◌else◌}

-- The bytes of a literal. `String` has its own `[]` and `∷`.
abbrev pub codes : String → List ℕ
codes String.[] = []
codes (String.◌∷◌ c s) = code c ∷ codes s

-- `tolower` and `isspace` of the C locale.
unfoldable pub lower : ℕ → ℕ
lower c = if leb b'A' c && leb c b'Z' then c + 32 else c

unfoldable pub is_space : ℕ → Bool
is_space c = c == b' ' || (leb 9 c && leb c 13)

-- `strcasecmp( a, b ) == 0`.
unfoldable pub same_caseless : List ℕ → List ℕ → Bool
same_caseless [] [] = true
same_caseless [] (d ∷ ds) = false
same_caseless (c ∷ cs) [] = false
same_caseless (c ∷ cs) (d ∷ ds) = (lower c == lower d) && same_caseless cs ds

-- The decimal digits of a number, by `fuel` divisions at most.
unfoldable pub digits : ℕ → ℕ → List ℕ
digits zero n = []
digits (suc fuel) n =
    let rest = digits fuel (n / 10) in
    if ltb n 10 then (n + b'0') ∷ [] else rest ++ ((n % 10 + b'0') ∷ [])

abbrev pub decimal : ℕ → List ℕ
decimal n = digits (suc n) n

same_caseless_refl : (a : List ℕ) → same_caseless a a ≡ true
unfolding same_caseless
same_caseless_refl [] = refl
same_caseless_refl (c ∷ a) = ground (arith, same_caseless_refl a)

pub same_caseless-sym : (a b : List ℕ) → same_caseless a b ≡ same_caseless b a
unfolding same_caseless
same_caseless-sym [] [] = refl
same_caseless-sym [] (d ∷ b) = refl
same_caseless-sym (c ∷ a) [] = refl
same_caseless-sym (c ∷ a) (d ∷ b) = ground (arith, same_caseless-sym a b)

-- Strings that are the same as one string are the same as each other's equals.
pub same_caseless_trans :
    (a b c : List ℕ) → same_caseless a b ≡ true → same_caseless a c ≡ same_caseless b c
unfolding same_caseless
same_caseless_trans [] [] c e = refl
same_caseless_trans [] (d ∷ b) c e = ground arith
same_caseless_trans (x ∷ a) [] c e = ground arith
same_caseless_trans (x ∷ a) (d ∷ b) [] e = refl
same_caseless_trans (x ∷ a) (d ∷ b) (y ∷ c) e =
    ground (arith, same_caseless_trans a b c (ground arith))
