-- ===== src/MidiCommand.antt =====
-- raveloxmidi/src/midi_command.c and include/midi_command.h: a MIDI command and the table of MIDI
-- messages with the number of data bytes that each takes.
pub mod Table
use pimidi.Common.{
  ℕ, ◌+◌, ◌*◌, ◌/◌, ◌%◌, Bool, true, false, Option, none, some, List, [], ◌∷◌, bit_and, ltb, ◌==◌,
  if◌then◌else◌, take,
}

-- `midi_message_type_t`.
pub data MessageType : Type 0 where
  null note_off note_on poly_pressure control_change program_change channel_pressure : MessageType
  pitch_bend sysex time_code_qf song_position song_select tune_request end_sysex : MessageType
  timing_clock start continue stop active_sensing reset : MessageType

-- `midi_message_t`, less its description.
pub record Message : Type 0 where
  pub message : ℕ
  pub type : MessageType
  pub len : ℕ

abbrev entry : ℕ → MessageType → ℕ → Message
entry m t n = record { message = m; type = t; len = n }

-- `midi_message_map`; an entry 0x00 ends it.
abbrev message_map : List Message
message_map =
    entry 0x8 note_off 2
    ∷ entry 0x9 note_on 2
    ∷ entry 0xa poly_pressure 2
    ∷ entry 0xb control_change 2
    ∷ entry 0xc program_change 1
    ∷ entry 0xd channel_pressure 1
    ∷ entry 0xe pitch_bend 2
    ∷ entry 0xf0 sysex 0
    ∷ entry 0xf1 time_code_qf 1
    ∷ entry 0xf2 song_position 2
    ∷ entry 0xf3 song_select 1
    ∷ entry 0xf4 null 0
    ∷ entry 0xf5 null 0
    ∷ entry 0xf6 tune_request 0
    ∷ entry 0xf7 end_sysex 0
    ∷ entry 0xf8 timing_clock 0
    ∷ entry 0xf9 null 0
    ∷ entry 0xfa start 0
    ∷ entry 0xfb continue 0
    ∷ entry 0xfc stop 0
    ∷ entry 0xfd null 0
    ∷ entry 0xfe active_sensing 0
    ∷ entry 0xff reset 0
    ∷ entry 0x00 null 0
    ∷ []

-- The walk over the table, up to the entry 0x00.
unfoldable pub find_message : List Message → ℕ → Option Message
find_message [] key = none
find_message (m ∷ ms) key =
    let rest = find_message ms key in
    if m.message == 0 then none else if m.message == key then some m else rest

-- A channel command is looked up by its high nibble, a system command as it is.
abbrev message_key : ℕ → ℕ
message_key status = if ltb status 0xf0 then bit_and status 0xf0 / 16 else status

-- `midi_command_bytes_needed`.
unfoldable pub bytes_needed : ℕ → ℕ
unfolding find_message
bytes_needed command = elim (find_message message_map (message_key command)) [
  | none ↦ 0
  | some m ↦ m.len
]

-- `midi_command_map`, less the description.
unfoldable pub message_type : ℕ → MessageType
unfolding find_message
message_type status = elim (find_message message_map (message_key status)) [
  | none ↦ null
  | some m ↦ m.type
]

-- `midi_command_t`; the data of a NULL pointer is the empty list.
pub record Command : Type 0 where
  pub delta : ℕ
  pub status : ℕ
  pub payload : List ℕ

-- `midi_command_create`, and `midi_command_reset` of any command.
abbrev pub fresh : Command
fresh = record { delta = 0; status = 0; payload = [] }

-- `midi_command_set`; the copy of the data is allocated.
unfoldable pub command_set : Command → ℕ → ℕ → List ℕ → ℕ → Command
command_set c delta status bytes n = record c {
  delta = delta;
  status = status;
  payload = take n bytes;
}

-- `channel_message` of the union: the low nibble is the channel, the high one the message.
abbrev pub channel : Command → ℕ
channel c = c.status % 16

abbrev pub message : Command → ℕ
message c = c.status / 16
