-- ===== src/MidiProgram/Laws.antt =====
-- Program changes to bytes and back.
use pimidi.Common.{
  ℕ, ◌+◌, ◌*◌, ◌/◌, ◌%◌, ◌^◌, ◌<◌, ◌≡◌, refl, true, some, List, [], ◌∷◌, bit_and, length, arith,
}
use pimidi.Common.Bits.{bit_and-0x0f, bit_and-0x7f, bit_and-0x80, bit_and-0xf0}
use pimidi.Common.Memory.{done}
use pimidi.MidiProgram.{Program, pack, unpack}

-- Every field that is packed fits its place.
pub record Fits (p : Program) : Type 0 where
  pub channel_fits : p.channel < 16
  pub command_fits : p.command < 16
  pub b_fits : p.b < 2
  pub x_fits : p.x < 2
  pub msb_fits : p.bank_msb < 128
  pub lsb_fits : p.bank_lsb < 128

-- `midi_program_pack` gives three bytes, which `midi_program_unpack` reads as the same channel, command
-- and bank; the program number and the flag S are not among them and come back as 0. The allocations
-- succeed.
unpack-pack_bank :
    (p : Program)
    → Fits p
    → (packed : List ℕ) × (pack true p ≡ (some packed, 3))
      × (length packed ≡ 3)
      × (unpack true packed 3 ≡ done (some (record p { s = 0; program = 0 })))
unfolding pack unpack
unpack-pack_bank p f = (
  first ∷ flagged p.b p.bank_msb ∷ flagged p.x p.bank_lsb ∷ [],
  refl,
  refl,
  rw
      (
        low,
        high,
        flag p.b p.bank_msb f.b_fits,
        value p.b p.bank_msb f.b_fits f.msb_fits,
        flag p.x p.bank_lsb f.x_fits,
        value p.x p.bank_lsb f.x_fits f.lsb_fits,
      )
      refl,
)
  where
    first : ℕ
    first = (p.command * 2 ^ 4 + bit_and p.channel 0x0f) % 256

    low : bit_and first 0x0f ≡ p.channel
    low = omega (arith, f, bit_and-0x0f first, bit_and-0x0f p.channel)

    high : bit_and first 0xf0 / 2 ^ 4 ≡ p.command
    high = omega (arith, f, bit_and-0xf0 first, bit_and-0x0f p.channel)

    flagged : ℕ → ℕ → ℕ
    flagged b v = (b * 2 ^ 7 + bit_and v 0x7f) % 256

    flag : (b v : ℕ) → b < 2 → bit_and (flagged b v) 0x80 / 2 ^ 7 ≡ b
    flag b v h = omega (arith, bit_and-0x80 (flagged b v), bit_and-0x7f v)

    value : (b v : ℕ) → b < 2 → v < 128 → bit_and (flagged b v) 0x7f ≡ v
    value b v h k = omega (arith, bit_and-0x7f (flagged b v), bit_and-0x7f v)
