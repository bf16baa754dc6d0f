-- ===== src/MidiNote/Tests.antt =====
-- A note on of one byte.
use pimidi.Common.{◌≡◌, refl, true, [], ◌∷◌}
use pimidi.Common.Memory.{fault}
use pimidi.MidiCommand.{Command}
use pimidi.MidiNote.{from_command}
use pimidi.MidiNote.Laws.{from_command_overruns_note}

abbrev one_byte : Command
one_byte = record { delta = 0; status = 0x93; payload = 60 ∷ [] }

from_command_overruns_note_example : from_command true one_byte ≡ fault
from_command_overruns_note_example = from_command_overruns_note one_byte 60 refl
