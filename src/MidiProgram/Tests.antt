-- ===== src/MidiProgram/Tests.antt =====
-- A program change from a command.
use pimidi.Common.{◌≡◌, refl, true, some, [], ◌∷◌}
use pimidi.Common.Memory.{done}
use pimidi.MidiProgram.{from_command}

from_command_piano :
    from_command true (record { delta = 0; status = 0xc2; payload = 5 ∷ [] })
    ≡ done (
        some (record {
          channel = 2;
          command = 12;
          s = 0;
          b = 0;
          x = 0;
          program = 5;
          bank_msb = 0;
          bank_lsb = 0;
        }))
unfolding from_command
from_command_piano = refl
