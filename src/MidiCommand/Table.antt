-- ===== src/MidiCommand/Table.antt =====
-- What the message table says of channel messages.
use pimidi.Common.{
  ℕ, ◌≤◌, ◌<◌, ◌≡◌, refl, Bool, true, ◌&&◌, ◌||◌, bit_and, ltb, leb, ◌==◌, if◌then◌else◌, arith,
  passes_below, passes_below_lem,
}
use pimidi.MidiCommand.{bytes_needed}

-- The number of data bytes of a channel message: one for a program change and a channel pressure,
-- two for all others.
abbrev pub channel_bytes : ℕ → ℕ
channel_bytes status = if ltb status 0xc0 then 2 else if ltb status 0xe0 then 1 else 2

abbrev table_test : ℕ → Bool
table_test status =
    ltb status 0x80
    || leb 0xf0 status
    || (bytes_needed status == channel_bytes status
        && bytes_needed (bit_and status 0xf0) == channel_bytes status)

table_passes : passes_below 256 table_test ≡ true
unfolding passes_below bytes_needed
table_passes = refl

-- For the status byte of a channel message `midi_command_bytes_needed` is the number of its data
-- bytes, with the channel in it or without.
pub bytes_needed_lem :
    (status : ℕ)
    → 0x80 ≤ status
    → status < 0xf0
    → (bytes_needed status ≡ channel_bytes status)
      × (bytes_needed (bit_and status 0xf0) ≡ channel_bytes status)
bytes_needed_lem status lo hi = ground (arith, passes_below_lem 256 table_test table_passes status)
