-- ===== src/MidiControl/Laws.antt =====
-- Controller changes to bytes and back, and from commands.
use pimidi.Common.{
  ℕ, ◌+◌, ◌*◌, ◌/◌, ◌%◌, ◌^◌, ◌<◌, ◌≡◌, refl, true, some, List, [], ◌∷◌, bit_and, length, arith,
}
use pimidi.Common.Bits.{bit_and-0x0f, bit_and-0x7f, bit_and-0xf0}
use pimidi.Common.Memory.{done, fault}
use pimidi.MidiCommand.{Command, channel, message}
use pimidi.MidiControl.{Control, pack, unpack, from_command}

-- Every field fits its place in the three bytes.
pub record Fits (n : Control) : Type 0 where
  pub channel_fits : n.channel < 16
  pub command_fits : n.command < 16
  pub controller_number_fits : n.controller_number < 128
  pub controller_value_fits : n.controller_value < 128

-- `midi_control_pack` gives three bytes, which `midi_control_unpack` reads as the same controller change. The allocations
-- succeed.
unpack-pack_control :
    (n : Control)
    → Fits n
    → (packed : List ℕ) × (pack true n ≡ (some packed, 3))
      × (length packed ≡ 3)
      × (unpack true packed 3 ≡ done (some n))
unfolding pack unpack
unpack-pack_control n f = (
  first ∷ bit_and n.controller_number 0x7f ∷ bit_and n.controller_value 0x7f ∷ [],
  refl,
  refl,
  rw
      (
        low,
        high,
        value n.controller_number f.controller_number_fits,
        value n.controller_value f.controller_value_fits,
      )
      refl,
)
  where
    first : ℕ
    first = (n.command * 2 ^ 4 + bit_and n.channel 0x0f) % 256

    low : bit_and first 0x0f ≡ n.channel
    low = omega (arith, f, bit_and-0x0f first, bit_and-0x0f n.channel)

    high : bit_and first 0xf0 / 2 ^ 4 ≡ n.command
    high = omega (arith, f, bit_and-0xf0 first, bit_and-0x0f n.channel)

    value : (v : ℕ) → v < 128 → bit_and (bit_and v 0x7f) 0x7f ≡ v
    value v h = omega (arith, bit_and-0x7f v, bit_and-0x7f (bit_and v 0x7f))

-- `midi_control_from_command` of a command with two data bytes is a controller change that `midi_control_pack` gives the
-- bytes of the command for. The allocations succeed.
pack-from_command_control :
    (c : Command) (d0 d1 : ℕ)
    → c.payload ≡ d0 ∷ d1 ∷ []
    → c.status < 256
    → d0 < 128
    → d1 < 128
    → (n : Control) × (from_command true c ≡ done (some n))
      × (pack true n ≡ (some (c.status ∷ d0 ∷ d1 ∷ []), 3))
unfolding pack from_command
pack-from_command_control c d0 d1 e s h k = (
  record {
    channel = channel c;
    command = message c;
    controller_number = bit_and d0 0x7f;
    controller_value = bit_and d1 0x7f;
  },
  rw e refl,
  rw (status, value d0 h, value d1 k) refl,
)
  where
    status : (message c * 2 ^ 4 + bit_and (channel c) 0x0f) % 256 ≡ c.status
    status = omega (arith, bit_and-0x0f (c.status % 16))

    value : (v : ℕ) → v < 128 → bit_and (bit_and v 0x7f) 0x7f ≡ v
    value v h' = omega (arith, bit_and-0x7f v, bit_and-0x7f (bit_and v 0x7f))

-- `midi_control_from_command` of a command with one data byte reads past its data.
pub from_command_overruns_control :
    (c : Command) (d0 : ℕ) → c.payload ≡ d0 ∷ [] → from_command true c ≡ fault
unfolding from_command
from_command_overruns_control c d0 e = rw e refl
