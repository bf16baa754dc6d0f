-- ===== src/MidiControl.antt =====
-- raveloxmidi/src/midi_control.c: controller changes. `none` is the answer -1, and `mem` that of an
-- allocation.
pub mod Laws
mod Tests
use pimidi.Common.{
  ℕ, ◌+◌, ◌*◌, ◌/◌, ◌%◌, ◌^◌, Bool, true, false, Option, none, some, List, [], ◌∷◌, bit_and,
  if◌then◌else◌, ltb, ◌==◌, length,
}
use pimidi.Common.Memory.{Exec, done, fault, ◌>>=◌, load}
use pimidi.MidiCommand.{Command, channel, message}

-- `midi_control_t`.
pub record Control : Type 0 where
  pub channel : ℕ
  pub command : ℕ
  pub controller_number : ℕ
  pub controller_value : ℕ

-- `midi_control_create`.
abbrev pub create : Bool → Option Control
create mem =
    if mem
    then some (record { channel = 0; command = 0; controller_number = 0; controller_value = 0 })
    else none

-- `midi_control_unpack` of `buffer_len` bytes.
unfoldable pub unpack : Bool → List ℕ → ℕ → Exec (Option Control)
unpack mem buffer buffer_len =
    if buffer_len == 3
    then elim (create mem) [
      | none ↦ done none
      | some fresh ↦ load buffer 0 >>= λ b0. load buffer 1 >>= λ b1. load buffer 2 >>= λ b2. done (
          some (record {
            channel = bit_and b0 0x0f;
            command = bit_and b0 0xf0 / 2 ^ 4;
            controller_number = bit_and b1 0x7f;
            controller_value = bit_and b2 0x7f;
          }))
    ]
    else done none

-- `midi_control_pack`: `*buffer` and `*buffer_len`.
unfoldable pub pack : Bool → Control → Option (List ℕ) × ℕ
pack mem n =
    if mem
    then (
      some (
          ((n.command * 2 ^ 4 + bit_and n.channel 0x0f) % 256)
          ∷ bit_and n.controller_number 0x7f
          ∷ bit_and n.controller_value 0x7f
          ∷ []),
      3,
    )
    else (none, 0)

-- `midi_control_from_command`. The second data byte is read whenever there is a first.
unfoldable pub from_command : Bool → Command → Exec (Option Control)
from_command mem c = elim (create mem) [
  | none ↦ done none
  | some fresh ↦
      let bare = record fresh { command = message c; channel = channel c } in
      if ltb 0 (length c.payload)
      then (load c.payload 0 >>= λ d0. load c.payload 1 >>= λ d1. done (
          some (record bare {
            controller_number = bit_and d0 0x7f;
            controller_value = bit_and d1 0x7f;
          })))
      else done (some bare)
]
