-- ===== src/Dstring/Tests.antt =====
-- Strings in blocks of eight bytes.
use pimidi.Common.{◌+◌, refl, true, false, [], ◌∷◌, ◌++◌, arith}
use pimidi.Common.Memory.{Returns}
use pimidi.Common.Strings.{codes}
use pimidi.Dstring.{Dstring, append}
use pimidi.Dstring.Laws.{HoldsString, append-HoldsString}

-- "abc" in one block.
abbrev abc : Dstring
abc = record { block_size = 8; num_blocks = 1; block = codes "abc" ++ (0 ∷ 1 ∷ 2 ∷ 3 ∷ 4 ∷ []) }

abc-HoldsString : HoldsString abc (codes "abc")
abc-HoldsString = record {
  rest = 1 ∷ 2 ∷ 3 ∷ 4 ∷ [];
  front = refl;
  size = refl;
  small = omega arith;
  positive = omega arith;
  no_nul = (refl, (refl, (refl, tt)));
}

append-HoldsString_example :
    Returns
      (append true false (λ i. i + 7) abc (codes "defgh"))
      (λ out. HoldsString out (codes "abc" ++ codes "defgh"))
append-HoldsString_example =
    append-HoldsString (λ i. i + 7) abc (codes "abc") (codes "defgh") abc-HoldsString
      (refl, (refl, (refl, (refl, (refl, tt))))) (omega arith)
