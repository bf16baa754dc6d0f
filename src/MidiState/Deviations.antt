-- ===== src/MidiState/Deviations.antt =====
-- Streams for which `midi_state_send` sends something else than RFC 6295 and the MIDI table say: song
-- position messages, and delta times of two octets.
use pimidi.Common.{
  ℕ, ◌+◌, ◌*◌, ◌%◌, ◌^◌, ◌≤◌, ◌<◌, ◌≡◌, refl, ap, ap₂, ◌∙◌, Bool, List, true, false, ◌==◌, leb,
  bit_and, [], ◌∷◌, arith,
}
use pimidi.Common.Bits.{bit_and-0x7f, bit_and-0x80}
use pimidi.Common.Memory.{Returns}
use pimidi.RingBuffer.Inv
use pimidi.MidiCommand.{Command, bytes_needed, find_message}
use pimidi.MidiState.{MidiState, send, wait_byte_1, wait_command, wait_delta}
use pimidi.MidiState.Refine.{view}
use pimidi.MidiState.Parser.{Parser, idle, run, step}
use pimidi.MidiState.Sends.{IsReady, Returns-map}
use pimidi.MidiState.Send.{send_refines}

-- The parser behind the first data byte.
abbrev half : ℕ → Parser
half lsb = record (idle 0xf2 0) { status = wait_byte_1; held = 0xf2 ∷ lsb ∷ [] }

-- What is sent for a song position message.
abbrev pub sent_position : Bool → ℕ → ℕ → List Command
sent_position true lsb msb = record { delta = 0; status = 0xf2; payload = [] } ∷ []
sent_position false lsb msb =
    record { delta = 0; status = 0xf2; payload = [] }
    ∷ record { delta = 0; status = 0xf2; payload = lsb ∷ msb ∷ [] }
    ∷ []

-- The parser inside a delta time.
abbrev in_delta : ℕ → ℕ → Parser
in_delta r delta = record (idle r 0) { status = wait_delta; delta = delta }

step-high :
    (r high : ℕ)
    → 0x80 ≤ high
    → high < 256
    → step true true (idle r 0) high ≡ (in_delta r (high % 128), true, [])
unfolding step
step-high r high h k =
    let more : (bit_and high 0x80 == 0) ≡ false = ground (arith, bit_and-0x80 high) in
    let sum : (0 * 2 ^ 8 % 2 ^ 64 + bit_and high 0x7f) % 2 ^ 64 ≡ high % 128 =
      omega (arith, bit_and-0x7f high) in
    rw (more, sum) refl

-- The parser behind a delta time.
abbrev timed : ℕ → ℕ → Parser
timed r delta = record (idle r 0) { status = wait_command; delta = delta }

step-low :
    (r delta low : ℕ)
    → delta < 128
    → low < 0x80
    → step true true (in_delta r delta) low ≡ (timed r (delta * 256 + low), true, [])
unfolding step
step-low r delta low h k =
    let last : (bit_and low 0x80 == 0) ≡ true = ground (arith, bit_and-0x80 low) in
    let sum : (delta * 2 ^ 8 % 2 ^ 64 + bit_and low 0x7f) % 2 ^ 64 ≡ delta * 256 + low =
      omega (arith, bit_and-0x7f low) in
    rw (last, sum) refl

abbrev in_program : ℕ → Parser
in_program delta = record (idle 0xc0 0) { status = wait_byte_1; held = 0xc0 ∷ []; delta = delta }

step-program_status :
    (r delta : ℕ) → step true true (timed r delta) 0xc0 ≡ (in_program delta, true, [])
unfolding step bytes_needed find_message
step-program_status r delta = refl

step-program :
    (delta program : ℕ)
    → program < 0x80
    → step true true (in_program delta) program ≡ (
      record (idle 0xc0 0) { delta = delta },
      true,
      record { delta = delta; status = 0xc0; payload = program ∷ [] } ∷ [],
    )
unfolding step
step-program delta program h = let real : leb 0xf8 program ≡ false = ground arith in rw real refl

-- A command behind a delta time of two octets, as an RTP MIDI payload has it.
run_delta :
    (r high low program : ℕ)
    → 0x80 ≤ high
    → high < 256
    → low < 0x80
    → program < 0x80
    → run true true (idle r 0) (high ∷ low ∷ 0xc0 ∷ program ∷ []) ≡ (
      record (idle 0xc0 0) { delta = high % 128 * 256 + low },
      record { delta = high % 128 * 256 + low; status = 0xc0; payload = program ∷ [] } ∷ [],
    )
unfolding run
run_delta r high low program h k l m =
    rw
      (
        step-high r high h k,
        step-low r (high % 128) low (omega arith) l,
        step-program_status r (high % 128 * 256 + low),
        step-program (high % 128 * 256 + low) program m,
      )
      refl

-- `midi_state_send` of an RTP payload that starts with a delta time of two octets and a program
-- change sends the program change with the low 7 bits of the first octet times 256, not 128, plus the
-- second octet.
send_delta :
    (s : MidiState) (r high low program : ℕ)
    → IsReady s
    → view s ≡ idle r 0
    → Inv.contents s.ring ≡ high ∷ low ∷ 0xc0 ∷ program ∷ []
    → 0x80 ≤ high
    → high < 256
    → low < 0x80
    → program < 0x80
    → Returns (send true true s) (λ out.
      out.1 ≡ record { delta = high % 128 * 256 + low; status = 0xc0; payload = program ∷ [] } ∷ [])
send_delta s r high low program h e c k l m n =
    Returns-map (send true true s) _ _ (send_refines true true s h.ring_valid h.room h.waits)
      λ out w. ap (λ z. z.1) (w.0 ∙ ap₂ (run true true) e c ∙ run_delta r high low program k l m n)
