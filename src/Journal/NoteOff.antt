-- ===== src/Journal/NoteOff.antt =====
-- The bit of a NOTE OFF in the journal.
use pimidi.Common.{ℕ, ◌%◌, ◌<◌, ◌≡◌, refl, true, false, leb, ◌==◌, arith}
use pimidi.Common.Memory.{fault}
use pimidi.MidiNote.{Note}
use pimidi.Journal.{Journal, add_note, note_off, shift_of}

-- `midi_journal_add_note` of a NOTE OFF for a note that is a multiple of 8, on any of the channels,
-- shifts by 255, which is undefined.
pub add_note_undefined :
    (j : Journal) (seq : ℕ) (m : Note)
    → m.channel < 16
    → m.command ≡ 8
    → m.note % 8 ≡ 0
    → add_note j seq m ≡ fault
unfolding add_note note_off
add_note_undefined j seq m h off e =
    let known : leb 16 m.channel ≡ false = ground arith in
    let is_off : (m.command == 8) ≡ true = ground arith in
    let shift : shift_of m.note ≡ 255 = omega arith in rw (known, is_off, shift) refl
