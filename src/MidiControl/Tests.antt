-- ===== src/MidiControl/Tests.antt =====
-- A control change of one byte.
use pimidi.Common.{◌≡◌, refl, true, [], ◌∷◌}
use pimidi.Common.Memory.{fault}
use pimidi.MidiCommand.{Command}
use pimidi.MidiControl.{from_command}
use pimidi.MidiControl.Laws.{from_command_overruns_control}

abbrev one_byte : Command
one_byte = record { delta = 0; status = 0xb3; payload = 60 ∷ [] }

from_command_overruns_control_example : from_command true one_byte ≡ fault
from_command_overruns_control_example = from_command_overruns_control one_byte 60 refl
