-- ===== src/ChapterP.antt =====
-- raveloxmidi/src/chapter_p.c: the program change chapter of the recovery journal. The fields of the
-- struct are uint8_t. `mem` is the answer of an allocation.
pub mod RoundTrip
use pimidi.Common.{
  ℕ, ◌*◌, ◌/◌, ◌%◌, ◌^◌, Bool, true, false, Option, none, some, List, [], ◌∷◌, bit_and, bit_or,
  if◌then◌else◌, ltb,
}
use pimidi.Common.Memory.{Exec, done, fault, ◌>>=◌, load}

-- `chapter_p_t`.
pub record ChapterP : Type 0 where
  pub s : ℕ
  pub program : ℕ
  pub b : ℕ
  pub bank_msb : ℕ
  pub x : ℕ
  pub bank_lsb : ℕ

-- `chapter_p_reset`, and what `chapter_p_create` gives.
unfoldable pub reset : ChapterP → ChapterP
reset c = record { s = 0; program = 0; b = 0; bank_msb = 0; x = 0; bank_lsb = 0 }

unfoldable pub create : Bool → Option ChapterP
create mem =
    if mem
    then some (record { s = 0; program = 0; b = 0; bank_msb = 0; x = 0; bank_lsb = 0 })
    else none

-- A flag in front of seven bits.
abbrev pub flagged : ℕ → ℕ → ℕ
flagged flag value = bit_or (bit_and flag 0x01 * 2 ^ 7) (bit_and value 0x7f)

-- `chapter_p_pack`: `*packed` and `*size`.
unfoldable pub pack : Bool → ChapterP → Option (List ℕ) × ℕ
pack mem c =
    if mem
    then (some (flagged c.s c.program ∷ flagged c.b c.bank_msb ∷ flagged c.x c.bank_lsb ∷ []), 3)
    else (none, 0)

-- `chapter_p_unpack` on the first `size` bytes of `packed`.
unfoldable pub unpack : Bool → List ℕ → ℕ → Exec (Option ChapterP)
unfolding create
unpack mem packed size = if ltb size 3 then done none else elim (create mem) [
  | none ↦ done none
  | some fresh ↦ load packed 0 >>= λ p0. load packed 1 >>= λ p1. load packed 2 >>= λ p2. done (
      some (record {
        s = bit_and p0 0x80 / 2 ^ 7;
        program = bit_and p0 0x7f;
        b = bit_and p1 0x80 / 2 ^ 7;
        bank_msb = bit_and p1 0x7f;
        x = bit_and p2 0x80 / 2 ^ 7;
        bank_lsb = bit_and p2 0x7f;
      }))
]
