-- ===== src/Journal.antt =====
-- raveloxmidi/src/midi_journal.c, with the state of raveloxmidi/src/chapter_c.c and chapter_n.c: the
-- recovery journal of a connection and the events that are entered in it. Allocations succeed; a
-- pointer that is NULL is `none`.
pub mod Room
pub mod Count
pub mod NoteOff
pub mod Headers
pub mod Reset
pub mod Pack
pub mod Sixteenth
mod Tests
use pimidi.Common.{
  ℕ, zero, suc, ◌+◌, ◌-◌, ◌*◌, ◌/◌, ◌%◌, ◌^◌, min, max, Bool, true, false, not, Option, none, some,
  List, [], ◌∷◌, ◌++◌, bit_or, if◌then◌else◌, ltb, leb, ◌==◌, length, get_or, set, take, replicate,
}
use pimidi.Common.Memory.{Exec, done, fault, ◌>>=◌}
use pimidi.ChapterP.{ChapterP}
use pimidi.MidiNote.{Note}
use pimidi.MidiControl.{Control}
use pimidi.MidiProgram.{Program}

-- `controller_log_t`, `chapter_c_t` with its 128 logs.
pub record ControllerLog : Type 0 where
  pub s : ℕ
  pub number : ℕ
  pub a : ℕ
  pub t : ℕ
  pub value : ℕ

pub record ChapterC : Type 0 where
  pub s : ℕ
  pub len : ℕ
  pub controller_log : List ControllerLog

-- `chapter_c_create`.
abbrev pub create_c : ChapterC
create_c = record {
  s = 1;
  len = 0;
  controller_log = replicate 128 (record { s = 0; number = 255; a = 0; t = 0; value = 0 });
}

-- `chapter_n_note_t`; `chapter_n_t` with the fields of its header. `notes` are the first `num_notes`
-- pointers.
pub record ChapterNNote : Type 0 where
  pub s : ℕ
  pub num : ℕ
  pub y : ℕ
  pub velocity : ℕ

pub record ChapterN : Type 0 where
  pub b : ℕ
  pub len : ℕ
  pub low : ℕ
  pub high : ℕ
  pub num_notes : ℕ
  pub notes : List ChapterNNote
  pub offbits : List ℕ

-- `chapter_n_create`.
abbrev pub create_n : ChapterN
create_n = record {
  b = 0;
  len = 0;
  low = 0x0f;
  high = 0;
  num_notes = 0;
  notes = [];
  offbits = replicate 16 0;
}

-- `channel_t` with the fields of its header.
pub record Channel : Type 0 where
  pub s : ℕ
  pub chan : ℕ
  pub h : ℕ
  pub len : ℕ
  pub bitfield : ℕ
  pub chapter_p : Option ChapterP
  pub chapter_n : Option ChapterN
  pub chapter_c : Option ChapterC

-- `channel_create`.
abbrev pub create_channel : Channel
create_channel = record {
  s = 1;
  chan = 0;
  h = 0;
  len = 0;
  bitfield = 0;
  chapter_p = none;
  chapter_n = none;
  chapter_c = none;
}

-- `journal_t` with the fields of its header.
pub record Journal : Type 0 where
  pub bitfield : ℕ
  pub totchan : ℕ
  pub seq : ℕ
  pub channels : List (Option Channel)

-- `journal_init`.
abbrev pub init : Journal
init = record { bitfield = 0x08; totchan = 0; seq = 0; channels = replicate 16 none }

-- `journal_has_data`.
unfoldable pub has_data : Journal → Bool
has_data j = ltb 0 j.totchan

abbrev pub or_else {ℓ} : {A : Type ℓ} → Option A → A → A
or_else none a = a
or_else (some b) a = b

-- The channel of an event, created where there is none.
abbrev pub open_channel : Journal → ℕ → Channel
open_channel j channel = or_else (get_or j.channels channel none) create_channel

-- What the three operations share in the channel: the flag of its header and its number, in four bits.
abbrev pub numbered : Journal → ℕ → ℕ → Channel
numbered j channel flag =
    let old = open_channel j channel in
    record old {
      chan = if old.chan == channel + 1 then old.chan else (channel + 1) % 2 ^ 4;
      bitfield = bit_or old.bitfield flag;
    }

-- What they share in the journal: the flags of its header, the count of channels, the sequence number.
unfoldable pub put_channel : Journal → ℕ → ℕ → Channel → Journal
put_channel j channel seq ch = record {
  bitfield = bit_or j.bitfield 0x0a;
  totchan =
      if (open_channel j channel).chan == channel + 1 then j.totchan else (j.totchan + 1) % 2 ^ 8;
  seq = seq % 2 ^ 16;
  channels = set j.channels channel (some ch);
}

-- An event on a channel, which changes the chapters of the channel.
abbrev pub enter : Journal → ℕ → ℕ → ℕ → (Channel → Exec Channel) → Exec Journal
enter j channel seq flag update =
    update (numbered j channel flag) >>= λ ch. done (put_channel j channel seq ch)

abbrev pub set_program : Program → Channel → Channel
set_program p ch = record ch {
  chapter_p =
      some (record { s = 1; program = p.program; b = 0; bank_msb = 0; x = 0; bank_lsb = 0 });
}

-- `midi_journal_add_program`.
unfoldable pub add_program : Journal → ℕ → Program → Journal
add_program j seq p =
    if leb 16 p.channel
    then j
    else put_channel j p.channel seq (set_program p (numbered j p.channel 0x80))

-- `array[i] = v`; a place that the array does not have is a fault.
abbrev pub store_at {ℓ} : {A : Type ℓ} → List A → ℕ → A → Exec (List A)
store_at array i v = if ltb i (length array) then done (set array i v) else fault

-- The log of a controller keeps its A and T.
abbrev log_value : Control → ControllerLog → ControllerLog
log_value m log = record log { s = 1; number = m.controller_number; value = m.controller_value }

abbrev set_controller : Control → ChapterC → Exec ChapterC
set_controller m c =
    let old =
      get_or c.controller_log m.controller_number
        (record { s = 0; number = 255; a = 0; t = 0; value = 0 }) in
    store_at c.controller_log m.controller_number (log_value m old) >>= λ logs.
    done (record c { controller_log = logs })

abbrev pub set_control : Control → Channel → Exec Channel
set_control m ch = set_controller m (or_else ch.chapter_c create_c) >>= λ c.
    done (record ch { chapter_c = some c })

-- `midi_journal_add_control`.
unfoldable pub add_control : Journal → ℕ → Control → Exec Journal
add_control j seq m =
    if leb 16 m.channel
    then done j
    else if ltb 127 m.controller_number
    then done j
    else enter j m.channel seq 0x40 (set_control m)

-- `notes[slot] = note`, in an array of MAX_CHAPTER_N_NOTES pointers, of which the list has those in
-- front of the slot.
abbrev pub store_note : List ChapterNNote → ℕ → ChapterNNote → Exec (List ChapterNNote)
store_note notes slot note = if ltb slot 127 then done (take slot notes ++ (note ∷ [])) else fault

-- A note that is not a NOTE OFF takes the next slot, while there is one.
unfoldable pub note_on : Note → ChapterN → Exec ChapterN
note_on m n =
    if n.num_notes == 127
    then done n
    else (store_note n.notes n.num_notes
          (record { s = 0; num = m.note % 2 ^ 7; y = 0; velocity = m.velocity % 2 ^ 7 })
        >>= λ notes. done (record n { notes = notes; num_notes = (n.num_notes + 1) % 2 ^ 16 }))

-- The place of the byte among the NOTE OFF bits and that of the bit in its byte, each a uint8_t.
abbrev pub offset_of : ℕ → ℕ
offset_of note = note / 8 % 2 ^ 8

abbrev pub shift_of : ℕ → ℕ
shift_of note = (note - note / 8 * 8 + 2 ^ 8 - 1) % 2 ^ 8

-- `offbits[offset] |= 1 << shift`. To shift an int by 32 or more is undefined. The note is a `char`, here
-- its byte: one of 128 or more has no byte among the bits, and where a `char` has a sign, it has a
-- shift of 248 or more, so that it is undefined in both cases.
unfoldable pub note_off : Note → ChapterN → Exec ChapterN
note_off m n =
    let offset = offset_of m.note in
    let bits = bit_or (get_or n.offbits offset 0) (2 ^ shift_of m.note) % 2 ^ 8 in
    if ltb (shift_of m.note) 32
    then (store_at n.offbits offset bits >>= λ offbits.
        done (record n { high = max offset n.high; low = min offset n.low; offbits = offbits }))
    else fault

abbrev pub set_notes : (ChapterN → Exec ChapterN) → Channel → Exec Channel
set_notes update ch = update (record (or_else ch.chapter_n create_n) { b = 1 }) >>= λ n.
    done (record ch { chapter_n = some n })

-- `midi_journal_add_note`.
unfoldable pub add_note : Journal → ℕ → Note → Exec Journal
add_note j seq m =
    if leb 16 m.channel
    then done j
    else enter j m.channel seq 0x08
        (set_notes (λ n. if m.command == 8 then note_off m n else note_on m n))
