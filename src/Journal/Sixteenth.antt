-- ===== src/Journal/Sixteenth.antt =====
-- Events on the sixteenth channel, whose number 16 does not fit the four bits of its header.
use pimidi.Common.{ℕ, ◌+◌, ◌%◌, ◌<◌, ◌≡◌, refl, false, leb, ◌==◌, arith}
use pimidi.MidiProgram.{Program}
use pimidi.Journal.{Journal, open_channel, put_channel, add_program}

-- Every program change on the sixteenth channel adds 1, modulo 256, to the number of channels in the
-- header, whether the channel is in the journal or not. The channel number in its header has four
-- bits.
add_program_recounts :
    (j : Journal) (seq : ℕ) (p : Program)
    → p.channel ≡ 15
    → (open_channel j p.channel).chan < 16
    → (add_program j seq p).totchan ≡ (j.totchan + 1) % 256
unfolding add_program put_channel
add_program_recounts j seq p e h =
    let known : leb 16 p.channel ≡ false = ground arith in
    let other : ((open_channel j p.channel).chan == p.channel + 1) ≡ false = ground arith in
    rw (known, other) refl
