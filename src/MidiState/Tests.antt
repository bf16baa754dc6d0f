-- ===== src/MidiState/Tests.antt =====
-- `midi_state_send` on rings of a few bytes.
use pimidi.Common.{
  ℕ, ◌+◌, ◌^◌, ◌<◌, ◌≡◌, refl, true, false, inl, List, [], ◌∷◌, ◌++◌, replicate, arith,
}
use pimidi.Common.Memory.{Returns}
use pimidi.RingBuffer.{Ring}
use pimidi.RingBuffer.Inv
use pimidi.MidiState.{MidiState, init, is_received, send}
use pimidi.MidiState.Refine.{view, HasRoom}
use pimidi.MidiState.Parser
use pimidi.MidiState.Parser.{Parser, idle}
use pimidi.MidiState.Send.{send_refines}
use pimidi.MidiState.Channel.{ChannelMessage, one, two, commands}
use pimidi.MidiState.Stream.{resting}
use pimidi.MidiState.Sends.{IsReady, send_channel, send_real_time}

-- A ring that holds `n` bytes, from its start on, in a block of 16.
abbrev ring_of : ℕ → List ℕ → Ring
ring_of n bytes = record {
  start = 0;
  end = n;
  size = n + 16;
  used = n;
  bytes = bytes ++ replicate 16 0;
}

abbrev state_of : ℕ → List ℕ → MidiState
state_of n bytes = record {
  status = init;
  running_status = 0;
  ring = ring_of n bytes;
  hold = record { len = 0; num_blocks = 0; block_size = 512; bytes = [] };
  current_delta = 0;
  partial_sysex = 0;
}

empty_hold :
    (room : ℕ)
    → room < 2 ^ 62
    → HasRoom (record { len = 0; num_blocks = 0; block_size = 512; bytes = [] }) room
empty_hold room h = record {
  valid = record { blocks = omega arith; block = refl; sized = omega arith; len_in = omega arith };
  block = refl;
  small = omega arith;
}

-- Two notes, the second under running status, and a program change.
abbrev notes_state : MidiState
notes_state = state_of 7 (0x90 ∷ 60 ∷ 64 ∷ 62 ∷ 64 ∷ 0xc0 ∷ 5 ∷ [])

notes-IsReady : IsReady notes_state
notes-IsReady = record {
  ring_valid = record {
    block = refl;
    sized = omega arith;
    start_in = omega arith;
    end_in = omega arith;
    used_in = omega arith;
    linked = inl (omega arith);
  };
  room = empty_hold 14 (omega arith);
  waits = refl;
}

send_refines_example : Returns (send true true notes_state) (λ out.
    ((view out.0, out.1) ≡ Parser.run true true (view notes_state) (Inv.contents notes_state.ring))
    × (Inv.contents out.0.ring ≡ [])
    × Inv.IsValid out.0.ring
    × HasRoom out.0.hold 0
    × (is_received out.0.status ≡ false))
send_refines_example =
    send_refines true true notes_state notes-IsReady.ring_valid notes-IsReady.room refl

-- The same in a payload of RTP MIDI: a delta time in front of the second and of the third.
abbrev timed_notes : List (ℕ × ChannelMessage)
timed_notes = (0, two 0x90 60 64) ∷ (10, two 0x90 62 64) ∷ (20, one 0xc0 5) ∷ []

abbrev timed_state : MidiState
timed_state = state_of 9 (0x90 ∷ 60 ∷ 64 ∷ 10 ∷ 62 ∷ 64 ∷ 20 ∷ 0xc0 ∷ 5 ∷ [])

timed-IsReady : IsReady timed_state
timed-IsReady = record {
  ring_valid = record {
    block = refl;
    sized = omega arith;
    start_in = omega arith;
    end_in = omega arith;
    used_in = omega arith;
    linked = inl (omega arith);
  };
  room = empty_hold 18 (omega arith);
  waits = refl;
}

send_channel_example :
    Returns
      (send true false timed_state)
      (λ out. (view out.0 ≡ resting 0xc0 0 20) × (out.1 ≡ commands true false timed_notes))
send_channel_example =
    send_channel true false timed_state 0 0 0 timed_notes timed-IsReady refl refl (
      omega arith,
      (inl (omega arith), omega arith, omega arith),
      (
        omega arith,
        (inl (omega arith), omega arith, omega arith),
        (omega arith, (omega arith, omega arith, omega arith), tt),
      ),
    )

abbrev sysex_state : MidiState
sysex_state = state_of 4 (0xf0 ∷ 0x43 ∷ 0x12 ∷ 0xf7 ∷ [])

sysex-IsReady : IsReady sysex_state
sysex-IsReady = record {
  ring_valid = record {
    block = refl;
    sized = omega arith;
    start_in = omega arith;
    end_in = omega arith;
    used_in = omega arith;
    linked = inl (omega arith);
  };
  room = empty_hold 8 (omega arith);
  waits = refl;
}

abbrev clock_state : MidiState
clock_state = state_of 5 (0xf8 ∷ 0xf0 ∷ 0x43 ∷ 0x12 ∷ 0xf7 ∷ [])

clock-IsReady : IsReady clock_state
clock-IsReady = record {
  ring_valid = record {
    block = refl;
    sized = omega arith;
    start_in = omega arith;
    end_in = omega arith;
    used_in = omega arith;
    linked = inl (omega arith);
  };
  room = empty_hold 10 (omega arith);
  waits = refl;
}

send_real_time_example : Returns (send true false clock_state) (λ out.
    Returns (send true false sysex_state) (λ out'.
      (view out.0 ≡ view out'.0)
      × (out.1 ≡ record { delta = 0; status = 0xf8; payload = [] } ∷ out'.1)))
send_real_time_example =
    send_real_time true false clock_state sysex_state 0xf8 0xf0 (0x43 ∷ 0x12 ∷ 0xf7 ∷ [])
      clock-IsReady sysex-IsReady refl refl refl (omega arith) refl refl

abbrev position_state : MidiState
position_state = state_of 3 (0xf2 ∷ 5 ∷ 6 ∷ [])
