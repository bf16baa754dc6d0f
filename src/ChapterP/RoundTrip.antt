-- ===== src/ChapterP/RoundTrip.antt =====
-- What `chapter_p_pack` gives, `chapter_p_unpack` reads back.
use pimidi.Common.{
  ℕ, ◌+◌, ◌*◌, ◌/◌, ◌%◌, ◌^◌, ◌<◌, ◌≡◌, refl, true, some, List, [], ◌∷◌, bit_and, length, arith,
}
use pimidi.Common.Bits.{bit_or-add, bit_and-0x01, bit_and-0x7f, bit_and-0x80}
use pimidi.Common.Memory.{done}
use pimidi.ChapterP.{ChapterP, create, pack, unpack, flagged}

-- The fields as the struct and the packed form hold them: flags of one bit, numbers of seven.
pub record Fits (c : ChapterP) : Type 0 where
  pub s_fits : c.s < 2
  pub program_fits : c.program < 128
  pub b_fits : c.b < 2
  pub bank_msb_fits : c.bank_msb < 128
  pub x_fits : c.x < 2
  pub bank_lsb_fits : c.bank_lsb < 128

flagged_lem : (flag value : ℕ) → flagged flag value ≡ flag % 2 * 128 + value % 128
flagged_lem flag value = omega (
  arith,
  bit_and-0x01 flag,
  bit_and-0x7f value,
  bit_or-add 7 (bit_and flag 0x01) (bit_and value 0x7f) (omega (arith, bit_and-0x7f value)),
)

flag_read : (flag value : ℕ) → bit_and (flagged flag value) 0x80 / 2 ^ 7 ≡ flag % 2
flag_read flag value = omega (arith, flagged_lem flag value, bit_and-0x80 (flagged flag value))

value_read : (flag value : ℕ) → bit_and (flagged flag value) 0x7f ≡ value % 128
value_read flag value = omega (arith, flagged_lem flag value, bit_and-0x7f (flagged flag value))

-- The chapter with each field cut to its width.
abbrev pub cut : ChapterP → ChapterP
cut c = record {
  s = c.s % 2;
  program = c.program % 128;
  b = c.b % 2;
  bank_msb = c.bank_msb % 128;
  x = c.x % 2;
  bank_lsb = c.bank_lsb % 128;
}

-- Every chapter packs to 3 bytes, which are unpacked to the chapter with its flags cut to one bit
-- and its numbers cut to seven. The allocations succeed.
unpack-pack_program :
    (c : ChapterP)
    → (packed : List ℕ) × (pack true c ≡ (some packed, 3))
      × (length packed ≡ 3)
      × (unpack true packed 3 ≡ done (some (cut c)))
unfolding pack unpack create
unpack-pack_program c = (
  flagged c.s c.program ∷ flagged c.b c.bank_msb ∷ flagged c.x c.bank_lsb ∷ [],
  refl,
  refl,
  rw
      (
        flag_read c.s c.program,
        value_read c.s c.program,
        flag_read c.b c.bank_msb,
        value_read c.b c.bank_msb,
        flag_read c.x c.bank_lsb,
        value_read c.x c.bank_lsb,
      )
      refl,
)
