-- ===== src/Journal/Reset.antt =====
-- raveloxmidi/src/midi_journal.c, `journal_reset`, with the resets of the chapters.
use pimidi.Common.{suc, ◌≡◌, refl, ap, false, Option, none, some, List, [], ◌∷◌, replicate, arith}
use pimidi.Journal.{ChapterC, ChapterN, Channel, Journal, has_data}
use pimidi.Journal.Count.{IsCounted, count}

-- `chapter_n_reset`, with the header's.
unfoldable reset_n : ChapterN → ChapterN
reset_n n = record {
  b = 0;
  len = 0;
  low = 0;
  high = 0;
  num_notes = 0;
  notes = [];
  offbits = replicate 16 0;
}

-- `chapter_c_reset`.
unfoldable reset_c : ChapterC → ChapterC
reset_c c = record {
  s = 1;
  len = 0;
  controller_log = replicate 128 (record { s = 1; number = 255; a = 0; t = 0; value = 0 });
}

abbrev map_option : {A : Type 0} → (A → A) → Option A → Option A
map_option f none = none
map_option f (some a) = some (f a)

-- `channel_journal_reset`. Chapter P stays as it is.
unfoldable reset_channel : Channel → Channel
unfolding reset_n reset_c
reset_channel ch = record ch {
  chapter_n = map_option reset_n ch.chapter_n;
  chapter_c = map_option reset_c ch.chapter_c;
  chan = 0;
  s = 1;
  h = 0;
  bitfield = 0;
}

abbrev reset_channels : List (Option Channel) → List (Option Channel)
reset_channels [] = []
reset_channels (o ∷ os) = map_option reset_channel o ∷ reset_channels os

-- `journal_reset`.
unfoldable pub reset : Journal → Journal
unfolding reset_channel
reset j = record { bitfield = 0x08; totchan = 0; seq = 0; channels = reset_channels j.channels }

count-reset_channels : (os : List (Option Channel)) → count (reset_channels os) ≡ count os
count-reset_channels [] = refl
count-reset_channels (none ∷ os) = count-reset_channels os
count-reset_channels (some ch ∷ os) = ap suc (count-reset_channels os)

-- A reset journal has no data by its header, but all channels of the journal before are still in
-- it: where that one counts its channels, they are as many as its header says.
reset_keeps_channels :
    (j : Journal)
    → IsCounted j
    → (has_data (reset j) ≡ false) × (count (reset j).channels ≡ j.totchan)
unfolding reset has_data
reset_keeps_channels j c = (refl, omega (arith, count-reset_channels j.channels, c.total))
