-- ===== src/MidiProgram.antt =====
-- raveloxmidi/src/midi_program.c: program changes. `none` is the answer -1, and `mem` that of an
-- allocation.
pub mod Laws
mod Tests
use pimidi.Common.{
  ℕ, ◌+◌, ◌*◌, ◌/◌, ◌%◌, ◌^◌, Bool, true, false, Option, none, some, List, [], ◌∷◌, bit_and,
  if◌then◌else◌, ltb, length,
}
use pimidi.Common.Memory.{Exec, done, fault, ◌>>=◌, load}
use pimidi.MidiCommand.{Command, channel, message}

-- `midi_program_t`.
pub record Program : Type 0 where
  pub channel : ℕ
  pub command : ℕ
  pub s : ℕ
  pub b : ℕ
  pub x : ℕ
  pub program : ℕ
  pub bank_msb : ℕ
  pub bank_lsb : ℕ

-- `midi_program_create`.
abbrev pub create : Bool → Option Program
create mem =
    if mem
    then some (record {
      channel = 0;
      command = 0;
      s = 0;
      b = 0;
      x = 0;
      program = 0;
      bank_msb = 0;
      bank_lsb = 0;
    })
    else none

-- `midi_program_unpack` of `buffer_len` bytes.
unfoldable pub unpack : Bool → List ℕ → ℕ → Exec (Option Program)
unpack mem buffer buffer_len = if ltb buffer_len 3 then done none else elim (create mem) [
  | none ↦ done none
  | some fresh ↦ load buffer 0 >>= λ b0. load buffer 1 >>= λ b1. load buffer 2 >>= λ b2. done (
      some (record fresh {
        command = bit_and b0 0xf0 / 2 ^ 4;
        channel = bit_and b0 0x0f;
        b = bit_and b1 0x80 / 2 ^ 7;
        bank_msb = bit_and b1 0x7f;
        x = bit_and b2 0x80 / 2 ^ 7;
        bank_lsb = bit_and b2 0x7f;
      }))
]

-- `midi_program_pack`: `*buffer` and `*buffer_len`.
unfoldable pub pack : Bool → Program → Option (List ℕ) × ℕ
pack mem p =
    if mem
    then (
      some (
          ((p.command * 2 ^ 4 + bit_and p.channel 0x0f) % 256)
          ∷ ((p.b * 2 ^ 7 + bit_and p.bank_msb 0x7f) % 256)
          ∷ ((p.x * 2 ^ 7 + bit_and p.bank_lsb 0x7f) % 256)
          ∷ []),
      3,
    )
    else (none, 0)

-- `midi_program_from_command`.
unfoldable pub from_command : Bool → Command → Exec (Option Program)
from_command mem c = elim (create mem) [
  | none ↦ done none
  | some fresh ↦
      let bare = record fresh { command = message c; channel = channel c } in
      if ltb 0 (length c.payload)
      then (load c.payload 0 >>= λ d0. done (some (record bare { program = bit_and d0 0x7f })))
      else done (some bare)
]
