-- ===== src/MidiState/Parser.antt =====
-- The parser of `midi_state_send` over a plain list of bytes, with the hold buffer a list too: what
-- `MidiState.send` computes, less the memory that it computes it in.
use pimidi.Common.{
  ℕ, ◌+◌, ◌*◌, ◌%◌, ◌^◌, Bool, true, not, ◌&&◌, ◌||◌, List, [], ◌∷◌, ◌++◌, bit_and, ltb, leb, ◌==◌,
  if◌then◌else◌,
}
use pimidi.MidiCommand.{Command, bytes_needed}
use pimidi.MidiState.{
  Status, init, wait_delta, wait_command, wait_byte_1, wait_byte_2, wait_end_sysex,
  command_received, is_init, is_delta, is_received, after_running, after_status,
}

pub record Parser : Type 0 where
  pub status : Status
  pub running_status : ℕ
  pub held : List ℕ
  pub delta : ℕ
  pub partial_sysex : ℕ

-- A byte behind those that are held.
abbrev pub push : Parser → ℕ → Parser
push p byte = record p { held = p.held ++ (byte ∷ []) }

abbrev pub on_data : Parser → ℕ → Parser
on_data p byte = if p.running_status == 0 then p else record (push (push p p.running_status) byte) {
  status = after_running (bytes_needed p.running_status);
}

abbrev pub on_status : Parser → ℕ → Parser
on_status p byte =
    if byte == 0xf0 || (not (p.partial_sysex == 0) && byte == 0xf7)
    then record (push p byte) { status = wait_end_sysex; running_status = 0 }
    else if byte == 0xf7
    then record (push p byte) { status = command_received; running_status = 0 }
    else record (push p byte) {
      status = after_status (bytes_needed (bit_and byte 0xf0));
      running_status = byte;
    }

abbrev pub on_sysex : Parser → ℕ → Parser
on_sysex p byte =
    let p1 = record (push p byte) { running_status = 0 } in
    if byte == 0xf0
    then record p1 { status = command_received; partial_sysex = 1 }
    else if byte == 0xf7 || (p.partial_sysex == 1 && byte == 0xf4)
    then record p1 { status = command_received; partial_sysex = 0 }
    else p1

abbrev pub dispatch : Status → Parser → ℕ → Parser
dispatch wait_command p byte = if ltb byte 0x80 then on_data p byte else on_status p byte
dispatch wait_byte_2 p byte = record (push p byte) { status = wait_byte_1 }
dispatch wait_byte_1 p byte = record (push p byte) { status = command_received }
dispatch wait_end_sysex p byte = on_sysex p byte
dispatch _ p byte = p

-- The command that the held bytes make: a status byte and its data.
abbrev pub command_of : ℕ → List ℕ → Command
command_of delta [] = record { delta = delta; status = 0; payload = [] }
command_of delta (status ∷ payload) = record { delta = delta; status = status; payload = payload }

abbrev pub finish : Bool → Bool → Parser → Parser × Bool × List Command
finish rtp get_delta p =
    if is_received p.status
    then (
      record p { held = []; status = init },
      if rtp then true else get_delta,
      command_of p.delta p.held ∷ [],
    )
    else (p, get_delta, [])

abbrev pub begin : Bool → Parser → Parser
begin get_delta p =
    if is_init p.status
    then record p { status = if get_delta then wait_delta else wait_command; delta = 0 }
    else p

abbrev pub on_delta : Parser → ℕ → Parser
on_delta p byte = record p {
  delta = (p.delta * 2 ^ 8 % 2 ^ 64 + bit_and byte 0x7f) % 2 ^ 64;
  status = if bit_and byte 0x80 == 0 then wait_command else p.status;
}

abbrev pub real_time : Parser → ℕ → Command
real_time p byte = record { delta = p.delta; status = byte; payload = [] }

abbrev pub step_begun : Bool → Bool → Parser → ℕ → Parser × Bool × List Command
step_begun rtp get_delta p byte =
    if is_delta p.status
    then (on_delta p byte, get_delta, [])
    else if leb 0xf8 byte
    then (p, get_delta, real_time p byte ∷ [])
    else finish rtp get_delta (dispatch p.status p byte)

-- One byte: the parser, whether the next command has a delta time, the commands that are whole.
unfoldable pub step : Bool → Bool → Parser → ℕ → Parser × Bool × List Command
step rtp get_delta p byte = step_begun rtp get_delta (begin get_delta p) byte

abbrev pub stop : Bool → Parser → Parser
stop rtp p = if rtp then record p { status = init } else p

-- All bytes of one call.
unfoldable pub run : Bool → Bool → Parser → List ℕ → Parser × List Command
run rtp get_delta p [] = (stop rtp p, [])
run rtp get_delta p (byte ∷ bytes) =
    let (p1, get_delta', out) = step rtp get_delta p byte in
    let (p2, out') = run rtp get_delta' p1 bytes in (p2, out ++ out')

-- A parser between two commands.
abbrev pub idle : ℕ → ℕ → Parser
idle running partial = record {
  status = init;
  running_status = running;
  held = [];
  delta = 0;
  partial_sysex = partial;
}
