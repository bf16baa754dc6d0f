-- ===== src/Journal/Pack/Tests.antt =====
-- A chapter C with one controller, and a channel that has it.
use pimidi.Common.{ℕ, some, none, [], ◌∷◌}
use pimidi.Journal.{ChapterC, ControllerLog, Channel, create_n}

abbrev log : ℕ → ControllerLog
log number = record { s = 1; number = number; a = 0; t = 0; value = 100 }

abbrev volume : ChapterC
volume = record { s = 1; len = 0; controller_log = log 255 ∷ log 1 ∷ [] }

abbrev some_channel : Channel
some_channel = record {
  s = 1;
  chan = 1;
  h = 0;
  len = 0;
  bitfield = 0x48;
  chapter_p = none;
  chapter_n = some (record create_n { high = 7; low = 7 });
  chapter_c = some volume;
}
