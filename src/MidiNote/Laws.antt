-- ===== src/MidiNote/Laws.antt =====
-- Notes to bytes and back, and from commands.
use pimidi.Common.{
  ℕ, ◌+◌, ◌*◌, ◌/◌, ◌%◌, ◌^◌, ◌<◌, ◌≡◌, refl, true, some, List, [], ◌∷◌, bit_and, length, arith,
}
use pimidi.Common.Bits.{bit_and-0x0f, bit_and-0x7f, bit_and-0xf0}
use pimidi.Common.Memory.{done, fault}
use pimidi.MidiCommand.{Command, channel, message}
use pimidi.MidiNote.{Note, pack, unpack, from_command}

-- Every field fits its place in the three bytes.
pub record Fits (n : Note) : Type 0 where
  pub channel_fits : n.channel < 16
  pub command_fits : n.command < 16
  pub note_fits : n.note < 128
  pub velocity_fits : n.velocity < 128

-- `midi_note_pack` gives three bytes, which `midi_note_unpack` reads as the same note. The allocations
-- succeed.
unpack-pack_note :
    (n : Note)
    → Fits n
    → (packed : List ℕ) × (pack true n ≡ (some packed, 3))
      × (length packed ≡ 3)
      × (unpack true packed 3 ≡ done (some n))
unfolding pack unpack
unpack-pack_note n f = (
  first ∷ bit_and n.note 0x7f ∷ bit_and n.velocity 0x7f ∷ [],
  refl,
  refl,
  rw (low, high, value n.note f.note_fits, value n.velocity f.velocity_fits) refl,
)
  where
    first : ℕ
    first = (n.command * 2 ^ 4 + bit_and n.channel 0x0f) % 256

    low : bit_and first 0x0f ≡ n.channel
    low = omega (arith, f, bit_and-0x0f first, bit_and-0x0f n.channel)

    high : bit_and first 0xf0 / 2 ^ 4 ≡ n.command
    high = omega (arith, f, bit_and-0xf0 first, bit_and-0x0f n.channel)

    value : (v : ℕ) → v < 128 → bit_and (bit_and v 0x7f) 0x7f ≡ v
    value v h = omega (arith, bit_and-0x7f v, bit_and-0x7f (bit_and v 0x7f))

-- `midi_note_from_command` of a command with two data bytes is a note that `midi_note_pack` gives the
-- bytes of the command for. The allocations succeed.
pack-from_command_note :
    (c : Command) (d0 d1 : ℕ)
    → c.payload ≡ d0 ∷ d1 ∷ []
    → c.status < 256
    → d0 < 128
    → d1 < 128
    → (n : Note) × (from_command true c ≡ done (some n))
      × (pack true n ≡ (some (c.status ∷ d0 ∷ d1 ∷ []), 3))
unfolding pack from_command
pack-from_command_note c d0 d1 e s h k = (
  record {
    channel = channel c;
    command = message c;
    note = bit_and d0 0x7f;
    velocity = bit_and d1 0x7f;
  },
  rw e refl,
  rw (status, value d0 h, value d1 k) refl,
)
  where
    status : (message c * 2 ^ 4 + bit_and (channel c) 0x0f) % 256 ≡ c.status
    status = omega (arith, bit_and-0x0f (c.status % 16))

    value : (v : ℕ) → v < 128 → bit_and (bit_and v 0x7f) 0x7f ≡ v
    value v h' = omega (arith, bit_and-0x7f v, bit_and-0x7f (bit_and v 0x7f))

-- `midi_note_from_command` of a command with one data byte reads past its data.
pub from_command_overruns_note :
    (c : Command) (d0 : ℕ) → c.payload ≡ d0 ∷ [] → from_command true c ≡ fault
unfolding from_command
from_command_overruns_note c d0 e = rw e refl
