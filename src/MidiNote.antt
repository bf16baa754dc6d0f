-- ===== src/MidiNote.antt =====
-- raveloxmidi/src/midi_note.c: note messages. `none` is the answer -1, and `mem` that of an
-- allocation.
pub mod Laws
mod Tests
use pimidi.Common.{
  ℕ, ◌+◌, ◌*◌, ◌/◌, ◌%◌, ◌^◌, Bool, true, false, Option, none, some, List, [], ◌∷◌, bit_and,
  if◌then◌else◌, ltb, ◌==◌, length,
}
use pimidi.Common.Memory.{Exec, done, fault, ◌>>=◌, load}
use pimidi.MidiCommand.{Command, channel, message}

-- `midi_note_t`.
pub record Note : Type 0 where
  pub channel : ℕ
  pub command : ℕ
  pub note : ℕ
  pub velocity : ℕ

-- `midi_note_create`.
abbrev pub create : Bool → Option Note
create mem =
    if mem then some (record { channel = 0; command = 0; note = 0; velocity = 0 }) else none

-- `midi_note_unpack` of `buffer_len` bytes.
unfoldable pub unpack : Bool → List ℕ → ℕ → Exec (Option Note)
unpack mem buffer buffer_len =
    if buffer_len == 3
    then elim (create mem) [
      | none ↦ done none
      | some fresh ↦ load buffer 0 >>= λ b0. load buffer 1 >>= λ b1. load buffer 2 >>= λ b2. done (
          some (record {
            channel = bit_and b0 0x0f;
            command = bit_and b0 0xf0 / 2 ^ 4;
            note = bit_and b1 0x7f;
            velocity = bit_and b2 0x7f;
          }))
    ]
    else done none

-- `midi_note_pack`: `*buffer` and `*buffer_len`.
unfoldable pub pack : Bool → Note → Option (List ℕ) × ℕ
pack mem n =
    if mem
    then (
      some (
          ((n.command * 2 ^ 4 + bit_and n.channel 0x0f) % 256)
          ∷ bit_and n.note 0x7f
          ∷ bit_and n.velocity 0x7f
          ∷ []),
      3,
    )
    else (none, 0)

-- `midi_note_from_command`. The second data byte is read whenever there is a first.
unfoldable pub from_command : Bool → Command → Exec (Option Note)
from_command mem c = elim (create mem) [
  | none ↦ done none
  | some fresh ↦
      let bare = record fresh { command = message c; channel = channel c } in
      if ltb 0 (length c.payload)
      then (load c.payload 0 >>= λ d0. load c.payload 1 >>= λ d1.
          done (some (record bare { note = bit_and d0 0x7f; velocity = bit_and d1 0x7f })))
      else done (some bare)
]
