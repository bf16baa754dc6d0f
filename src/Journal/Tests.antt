-- ===== src/Journal/Tests.antt =====
-- The journal on a few events.
use pimidi.Common.{ℕ, ◌≡◌, refl, List, [], ◌∷◌, arith}
use pimidi.Common.Memory.{fault, Returns}
use pimidi.MidiNote.{Note}
use pimidi.MidiControl.{Control}
use pimidi.MidiProgram.{Program}
use pimidi.Journal.{init, add_note}
use pimidi.Journal.Count.{
  IsCounted, Event, note, control, program, add_all, init-IsCounted, add_all-IsCounted,
}
use pimidi.Journal.NoteOff.{add_note_undefined}

abbrev off_at : ℕ → Note
off_at n = record { channel = 3; command = 8; note = n; velocity = 0 }

abbrev on_at : ℕ → Note
on_at n = record { channel = 3; command = 9; note = n; velocity = 64 }

abbrev program_on : ℕ → Program
program_on channel = record {
  channel = channel;
  command = 12;
  s = 0;
  b = 0;
  x = 0;
  program = 7;
  bank_msb = 0;
  bank_lsb = 0;
}

abbrev pedal : Control
pedal = record { channel = 3; command = 11; controller_number = 64; controller_value = 127 }

abbrev events : List (ℕ × Event)
events =
    (0, note (on_at 64))
    ∷ (1, note (off_at 61))
    ∷ (2, control pedal)
    ∷ (3, program (program_on 5))
    ∷ []

add_all-IsCounted_example : Returns (add_all init events) IsCounted
add_all-IsCounted_example =
    add_all-IsCounted init events init-IsCounted
      ((omega arith, refl), ((omega arith, refl), (omega arith, (omega arith, tt))))

add_note_undefined_example : add_note init 1 (off_at 64) ≡ fault
add_note_undefined_example = add_note_undefined init 1 (off_at 64) (omega arith) refl refl
