-- ===== src/Config/Values.antt =====
-- What the program reads from the table: strings, numbers, and yes or no.
use pimidi.Common.{
  ℕ, ◌+◌, ◌-◌, ◌*◌, ◌^◌, Bool, false, ◌&&◌, ◌||◌, Option, none, some, List, [], ◌∷◌, ltb, leb, ◌==◌,
  if◌then◌else◌, length,
}
use pimidi.Common.Int.{ℤ, pos, negsuc}
use pimidi.Common.Memory.{Exec, done, fault}
use pimidi.Common.Strings.{codes, is_space, same_caseless}
use pimidi.KvTable.{KvTable, KvItem, find_item}
use pimidi.Config.{string_get, drop_while}

abbrev pub is_digit : ℕ → Bool
is_digit c = leb b'0' c && leb c b'9'

-- The digits in front of a string, behind `acc`.
abbrev pub number : ℕ → List ℕ → ℕ
number acc [] = acc
number acc (c ∷ cs) = if is_digit c then number (acc * 10 + (c - b'0')) cs else acc

abbrev negated : ℕ → ℤ
negated n = if n == 0 then pos 0 else negsuc (n - 1)

abbrev signed_number : List ℕ → ℤ
signed_number [] = pos 0
signed_number (c ∷ cs) =
    if c == b'-'
    then negated (number 0 cs)
    else if c == b'+'
    then pos (number 0 cs)
    else pos (number 0 (c ∷ cs))

-- Whether an integer fits in `bits` bits and a sign.
abbrev pub fits : ℕ → ℤ → Bool
fits bits (pos n) = ltb n (2 ^ bits)
fits bits (negsuc n) = ltb n (2 ^ bits)

-- `atoi` (31 bits) and `atol` (63), which are not defined for a number that does not fit.
unfoldable pub to_number : ℕ → List ℕ → Exec ℤ
to_number bits s =
    let z = signed_number (drop_while is_space s) in if fits bits z then done z else fault

abbrev number_in : ℕ → Option (List ℕ) → Exec ℤ
number_in bits none = done (pos 0)
number_in bits (some s) = if length s == 0 then done (pos 0) else to_number bits s

-- `config_int_get`, `config_long_get`.
unfoldable pub int_get : KvTable → List ℕ → Exec ℤ
int_get table key = number_in 31 (string_get table key)

unfoldable pub long_get : KvTable → List ℕ → Exec ℤ
long_get table key = number_in 63 (string_get table key)

abbrev is_set_value : Option (List ℕ) → Bool
is_set_value none = false
is_set_value (some s) = ltb 0 (length s)

abbrev is_set_item : Option KvItem → Bool
is_set_item none = false
is_set_item (some item) = is_set_value item.value

-- `config_is_set`.
unfoldable pub is_set : KvTable → List ℕ → Bool
is_set table key = is_set_item (find_item table (some key))

-- `is_yes` and `is_no`.
unfoldable pub is_yes : Option (List ℕ) → Bool
is_yes none = false
is_yes (some value) =
    same_caseless value (codes "yes")
    || same_caseless value (codes "y")
    || same_caseless value (codes "1")

unfoldable pub is_no : Option (List ℕ) → Bool
is_no none = false
is_no (some value) =
    same_caseless value (codes "no")
    || same_caseless value (codes "n")
    || same_caseless value (codes "0")
