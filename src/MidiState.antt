-- ===== src/MidiState.antt =====
-- raveloxmidi/src/midi_state.c: the parser that turns a stream of bytes into MIDI commands.
-- A state owns the ring that the sockets fill and the buffer that holds a command until it is
-- whole. Allocations succeed. A command that `midi_sender_add` is given is an element of the list
-- that a call returns. The mutex is left out.
pub mod Parser
pub mod Refine
pub mod Send
pub mod Stream
pub mod Channel
pub mod Sends
pub mod Deviations
mod Tests
use pimidi.Common.{
  ℕ, zero, suc, ◌+◌, ◌-◌, ◌*◌, ◌%◌, ◌^◌, Bool, true, false, not, ◌&&◌, ◌||◌, Option, none, some,
  List, [], ◌∷◌, ◌++◌, bit_and, ltb, leb, ◌==◌, if◌then◌else◌, drop, length,
}
use pimidi.Common.Int.{ℤ}
use pimidi.Common.Memory.{Exec, done, fault, ◌>>=◌, load}
use pimidi.RingBuffer
use pimidi.RingBuffer.{Ring}
use pimidi.Dbuffer
use pimidi.Dbuffer.{Dbuffer}
use pimidi.MidiCommand.{Command, fresh, bytes_needed, command_set}

-- `midi_state_status_t`.
pub data Status : Type 0 where
  init wait_delta wait_command wait_byte_1 wait_byte_2 wait_end_sysex command_received : Status

-- `midi_state_t`.
pub record MidiState : Type 0 where
  pub status : Status
  pub running_status : ℕ
  pub ring : Ring
  pub hold : Dbuffer
  pub current_delta : ℕ
  pub partial_sysex : ℕ

abbrev pub is_init : Status → Bool
is_init init = true
is_init _ = false

abbrev pub is_received : Status → Bool
is_received command_received = true
is_received _ = false

abbrev pub is_delta : Status → Bool
is_delta wait_delta = true
is_delta _ = false

-- What `midi_state_create` makes: a state, or for a size of 0 one whose ring is NULL, with its hold buffer.
pub data NewState : Type 0 where
  with_ring : MidiState → NewState
  ringless : Dbuffer → NewState

-- `current_delta` stays as the memory has it; it is set to 0 before a command is read.
abbrev new_state : ℕ → Dbuffer → Option Ring → NewState
new_state delta hold none = ringless hold
new_state delta hold (some ring) = with_ring (record {
  status = init;
  running_status = 0;
  ring = ring;
  hold = hold;
  current_delta = delta;
  partial_sysex = 0;
})

-- `midi_state_create`, with a hold buffer of blocks of 512 bytes, which there is memory for; `delta` is
-- what the new memory has in the place of `current_delta`.
unfoldable pub create : ℕ → ℕ → Option NewState
unfolding RingBuffer.create Dbuffer.create
create delta buffer_size = elim (Dbuffer.create true 512) [
  | none ↦ none
  | some hold ↦ some (new_state delta hold (RingBuffer.create true buffer_size))
]

-- `midi_state_reset`.
unfoldable pub reset : MidiState → MidiState
unfolding RingBuffer.reset Dbuffer.reset
reset s = record s {
  status = init;
  running_status = 0;
  hold = Dbuffer.reset s.hold;
  ring = RingBuffer.reset s.ring s.ring.size;
}

-- `midi_state_write`: 1, whether the ring took the bytes or not; 0 for no bytes.
unfoldable pub write : MidiState → List ℕ → ℕ → Exec (ℕ × MidiState)
unfolding RingBuffer.write
write s in_buffer in_buffer_len =
    if in_buffer_len == 0
    then done (0, s)
    else (RingBuffer.write s.ring in_buffer in_buffer_len >>= λ (n, ring).
        done (1, record s { ring = ring }))

-- `midi_state_drain`.
unfoldable pub drain : MidiState → Exec (Option (List ℕ) × ℕ × MidiState)
unfolding RingBuffer.drain
drain s = RingBuffer.drain true s.ring >>= λ (out, n, ring). done (out, n, record s { ring = ring })

-- `midi_state_advance`.
unfoldable pub advance : MidiState → ℕ → MidiState
unfolding RingBuffer.advance
advance s steps = record s { ring = RingBuffer.advance s.ring steps }

-- `midi_state_compare`, `midi_state_char_compare`.
unfoldable pub compare : MidiState → List ℕ → ℕ → Exec ℤ
unfolding RingBuffer.compare
compare s other n = RingBuffer.compare s.ring other n

unfoldable pub char_compare : MidiState → ℕ → ℕ → Exec Bool
unfolding RingBuffer.char_compare
char_compare s c index = RingBuffer.char_compare s.ring c index

-- `dbuffer_write( state->hold, &byte, 1 )`.
abbrev pub hold_byte : MidiState → ℕ → Exec MidiState
hold_byte s byte =
    Dbuffer.write true s.hold (byte ∷ []) 1 >>= λ (n, hold). done (record s { hold = hold })

-- A status byte or a data byte under running status leads to a state by the bytes it takes.
abbrev pub after_running : ℕ → Status
after_running needed =
    if needed == 1 then command_received else if needed == 2 then wait_byte_1 else wait_command

abbrev pub after_status : ℕ → Status
after_status needed =
    if needed == 1 then wait_byte_1 else if needed == 2 then wait_byte_2 else command_received

-- MIDI_STATE_WAIT_COMMAND, a byte below 0x80.
abbrev on_data : MidiState → ℕ → Exec MidiState
on_data s byte = if s.running_status == 0 then done s else (do
  s1 ← hold_byte s s.running_status
  s2 ← hold_byte s1 byte
  done (record s2 { status = after_running (bytes_needed s.running_status) }))

-- MIDI_STATE_WAIT_COMMAND, a status byte.
abbrev on_status : MidiState → ℕ → Exec MidiState
on_status s byte = do
  s1 ← hold_byte s byte
  done (
      if byte == 0xf0 || (not (s1.partial_sysex == 0) && byte == 0xf7)
      then record s1 { status = wait_end_sysex; running_status = 0 }
      else if byte == 0xf7
      then record s1 { status = command_received; running_status = 0 }
      else record s1 {
        status = after_status (bytes_needed (bit_and byte 0xf0));
        running_status = byte;
      })

-- MIDI_STATE_WAIT_END_SYSEX.
abbrev on_sysex : MidiState → ℕ → Exec MidiState
on_sysex s byte = do
  s1 ← hold_byte s byte
  let ends = byte == 0xf7 || (s1.partial_sysex == 1 && byte == 0xf4)
  let s2 = if ends then record s1 { status = command_received; partial_sysex = 0 } else s1
  let s3 = if byte == 0xf0 then record s2 { status = command_received; partial_sysex = 1 } else s2
  done (record s3 { running_status = 0 })

-- The byte in the state that waits for it. At the top of the loop no command stands received.
abbrev dispatch : Status → MidiState → ℕ → Exec MidiState
dispatch wait_command s byte = if ltb byte 0x80 then on_data s byte else on_status s byte
dispatch wait_byte_2 s byte = hold_byte s byte >>= λ s1. done (record s1 { status = wait_byte_1 })
dispatch wait_byte_1 s byte =
    hold_byte s byte >>= λ s1. done (record s1 { status = command_received })
dispatch wait_end_sysex s byte = on_sysex s byte
dispatch _ s byte = done s

-- From `midi_state_send_end` on: a whole command leaves the hold buffer.
abbrev finish : Bool → Bool → MidiState → Exec (MidiState × Bool × List Command)
finish rtp get_delta s =
    if is_received s.status
    then (do
      (n, buffer) ← Dbuffer.read true s.hold
      status ← load buffer 0
      let command = command_set fresh s.current_delta status (drop 1 buffer) (n - 1)
      done (
        record s { hold = Dbuffer.reset s.hold; status = init },
        (if rtp then true else get_delta),
        command ∷ [],
      ))
    else done (s, get_delta, [])

-- The start of a command.
abbrev begin : Bool → MidiState → MidiState
begin get_delta s =
    if is_init s.status
    then record s { status = if get_delta then wait_delta else wait_command; current_delta = 0 }
    else s

-- One octet of a delta time.
abbrev on_delta : MidiState → ℕ → MidiState
on_delta s byte =
    let delta = (s.current_delta * 2 ^ 8 % 2 ^ 64 + bit_and byte 0x7f) % 2 ^ 64 in
    record s {
      current_delta = delta;
      status = if bit_and byte 0x80 == 0 then wait_command else s.status;
    }

-- A real-time message goes out at once, between the bytes of any other.
abbrev real_time : MidiState → ℕ → Command
real_time s byte = command_set fresh s.current_delta byte [] 0

-- The body of the loop of `midi_state_send` behind the test for MIDI_STATE_INIT.
abbrev step_begun : Bool → Bool → MidiState → ℕ → Exec (MidiState × Bool × List Command)
step_begun rtp get_delta s byte =
    if is_delta s.status
    then done (on_delta s byte, get_delta, [])
    else if leb 0xf8 byte
    then done (s, get_delta, real_time s byte ∷ [])
    else (dispatch s.status s byte >>= λ s1. finish rtp get_delta s1)

-- The body of the loop on a byte: the state, `get_delta`, the commands sent.
unfoldable pub step : Bool → Bool → MidiState → ℕ → Exec (MidiState × Bool × List Command)
step rtp get_delta s byte = step_begun rtp get_delta (begin get_delta s) byte

-- What the loop does when the ring is empty.
abbrev pub stop : Bool → MidiState → MidiState
stop rtp s = if rtp then record s { status = init } else s

-- A round of the loop behind the read: `rest` is the rounds that follow.
abbrev pub after_read :
    (Bool → MidiState → Exec (MidiState × List Command))
    → Bool
    → Bool
    → MidiState
    → Option ℕ
    → Exec (MidiState × List Command)
after_read rest rtp get_delta s none = done (stop rtp s, [])
after_read rest rtp get_delta s (some byte) = do
  (s1, get_delta', out) ← step rtp get_delta s byte
  (s2, out') ← rest get_delta' s1
  done (s2, out ++ out')

-- The loop of `midi_state_send`, with fuel; to run out of it counts as a fault.
pub send_loop : ℕ → Bool → Bool → MidiState → Exec (MidiState × List Command)
send_loop zero rtp get_delta s = fault
send_loop (suc fuel) rtp get_delta s = RingBuffer.read_byte s.ring true >>= λ (b, ring).
    after_read (send_loop fuel rtp) rtp get_delta (record s { ring = ring }) b

-- `midi_state_send`; each round takes a byte, so one round more than there are bytes is enough.
unfoldable pub send : Bool → Bool → MidiState → Exec (MidiState × List Command)
unfolding send_loop
send rtp z_flag s = send_loop (suc s.ring.used) rtp z_flag s
