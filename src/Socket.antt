-- ===== src/Socket.antt =====
-- raveloxmidi/src/net_socket.c: what `net_socket_read` makes of a datagram on each of its sockets.
-- The read itself, the sending of the replies and the lock are left out, and ALSA. Allocations succeed.
pub mod Inbound
pub mod Delivery
pub mod Short
mod Tests
use pimidi.Common.{
  ℕ, Bool, true, false, Option, none, some, List, [], ◌∷◌, if◌then◌else◌, ◌==◌, length,
}
use pimidi.Common.Int.{ℤ, pos}
use pimidi.Common.Memory.{Exec, done, ◌>>=◌}
use pimidi.DataTable.{DataTable, item_get, change}
use pimidi.MidiCommand.{Command}
use pimidi.MidiState.{MidiState}
use pimidi.MidiState
use pimidi.RtpPacket
use pimidi.RtpPacket.{Packet}
use pimidi.MidiPayload
use pimidi.MidiPayload.{Payload}
use pimidi.Connection.{Ctx, Env, Datagram, find_by_ssrc}
use pimidi.Responder.{Response, deref, feedback_create, read_command}

-- `midi_state_write` and `midi_state_send` on a state that may be NULL.
abbrev pub write_state : Option MidiState → Option (List ℕ) → ℕ → Exec (Option MidiState)
write_state none buffer len = done none
write_state (some s) none len = done (some s)
write_state (some s) (some bytes) len = MidiState.write s bytes len >>= λ (r, s'). done (some s')

abbrev pub send_state : Option MidiState → Bool → Exec (Option MidiState × List Command)
send_state none z_flag = done (none, [])
send_state (some s) z_flag = MidiState.send true z_flag s >>= λ (s', out). done (some s', out)

-- What packing has left in a response.
abbrev pub packed_response : Option (List ℕ) → ℕ → Response
packed_response none len = record { buffer = []; len = len }
packed_response (some bytes) len = record { buffer = bytes; len = len }

-- A payload for a connection: the FEEDBACK, the commands for the sender and the connection.
unfoldable pub inbound :
    Ctx → RtpPacket.Header → Option Payload → Exec (Response × List Command × Ctx)
inbound ctx header midi_payload = deref midi_payload (λ payload. do
  written ← write_state ctx.midi_state payload.buffer payload.header.len
  (ret, reply, len) ← feedback_create header.ssrc header.seq
  (sent, out) ← send_state written payload.header.z
  done (packed_response reply len, out, record ctx { midi_state = sent }))

-- What a call of `net_socket_read` leaves: the state of the socket, the connections, the reply to the
-- sender of the datagram, a datagram to a connection, the commands for the sender with the SSRC they
-- came from, and whether a shutdown was asked for.
pub record Outcome : Type 0 where
  pub state : MidiState
  pub connections : DataTable Ctx
  pub reply : Option Response
  pub datagram : Option Datagram
  pub commands : List Command
  pub originator : ℕ
  pub shutdown : Bool

abbrev pub nothing : MidiState → DataTable Ctx → Outcome
nothing state t = record {
  state = state;
  connections = t;
  reply = none;
  datagram = none;
  commands = [];
  originator = 0;
  shutdown = false;
}

abbrev pub unpacked : Option (List ℕ) → ℕ → Exec Packet
unpacked none len = done RtpPacket.create
unpacked (some buffer) len = RtpPacket.unpack buffer len

-- RTP MIDI from another host, drained from the socket.
unfoldable pub read_rtp : MidiState → DataTable Ctx → Option (List ℕ) → ℕ → Exec Outcome
read_rtp state t read_buffer read_buffer_size =
    unpacked read_buffer read_buffer_size >>= λ rtp_packet.
    if rtp_packet.header.v == 2
    then (MidiPayload.unpack true rtp_packet.payload rtp_packet.payload_len >>= λ midi_payload.
        elim (find_by_ssrc t rtp_packet.header.ssrc) [
          | none ↦ done (nothing state t)
          | some k ↦ deref (item_get t k) (λ ctx.
              inbound ctx rtp_packet.header midi_payload >>= λ (reply, out, ctx').
              done (record (nothing state (change t k (λ old. ctx'))) {
                reply = some reply;
                commands = out;
                originator = rtp_packet.header.ssrc;
              }))
        ])
    else done (nothing state t)

-- An AppleMIDI command, drained from the socket.
abbrev read_apple :
    Bool → Env → Option (List ℕ) → MidiState → DataTable Ctx → List ℕ → ℕ → List ℕ → Exec Outcome
read_apple signed env service_name state t ip_address port buffer =
    read_command signed env service_name t ip_address port buffer >>= λ (response, datagram, t').
    done (record (nothing state t') { reply = response; datagram = datagram })

-- A request on the local socket that is answered, and taken out of the ring.
abbrev answered : MidiState → DataTable Ctx → List ℕ → Outcome
answered state t text = record (nothing (MidiState.advance state 4) t) {
  reply = some (record { buffer = text; len = length text });
}

-- MIDI data on the local socket.
abbrev read_midi : MidiState → DataTable Ctx → Exec Outcome
read_midi state t = MidiState.send false false state >>= λ (state', out).
    done (record (nothing state' t) { commands = out })

-- `midi_state_compare( … ) == 0`.
abbrev pub is_zero : ℤ → Bool
is_zero (pos n) = n == 0
is_zero _ = false

-- The rest of the requests on the local socket, after "STAT". `list` is what
-- `net_ctx_connections_to_string` gives.
abbrev read_list : Option (List ℕ) → MidiState → DataTable Ctx → Outcome
read_list none state t = nothing (MidiState.advance state 4) t
read_list (some text) state t = answered state t text

abbrev read_quit : Option (List ℕ) → MidiState → DataTable Ctx → Exec Outcome
read_quit list state t = MidiState.compare state (81 ∷ 85 ∷ 73 ∷ 84 ∷ []) 4 >>= λ quit.
    if is_zero quit
    then done (record (answered state t (81 ∷ 84 ∷ [])) { shutdown = true })
    else (MidiState.compare state (76 ∷ 73 ∷ 83 ∷ 84 ∷ []) 4 >>= λ listed.
        if is_zero listed then done (read_list list state t) else read_midi state t)

-- The local socket.
unfoldable pub read_local : Option (List ℕ) → MidiState → DataTable Ctx → Exec Outcome
read_local list state t = MidiState.compare state (83 ∷ 84 ∷ 65 ∷ 84 ∷ []) 4 >>= λ stat.
    if is_zero stat then done (answered state t (79 ∷ 75 ∷ [])) else read_quit list state t

-- Whether the ring starts with two bytes 0xff.
abbrev is_command : MidiState → Exec Bool
is_command state = MidiState.char_compare state 0xff 0 >>= λ first.
    if first then MidiState.char_compare state 0xff 1 else done false

pub data SocketKind : Type 0 where
  control_fd data_fd local_fd : SocketKind

-- The control and the data socket.
unfoldable pub read_remote :
    Bool → Env → Option (List ℕ) → MidiState → DataTable Ctx → List ℕ → ℕ → Exec Outcome
read_remote signed env service_name state t ip_address port = is_command state >>= λ command.
    MidiState.drain state >>= λ (read_buffer, read_buffer_size, drained).
    if command
    then deref read_buffer (read_apple signed env service_name drained t ip_address port)
    else read_rtp drained t read_buffer read_buffer_size

-- `net_socket_read` of the bytes `packet`, which `recvfrom` has given.
unfoldable pub read :
    Bool
    → Env
    → Option (List ℕ)
    → Option (List ℕ)
    → SocketKind
    → MidiState
    → DataTable Ctx
    → List ℕ
    → ℕ
    → List ℕ
    → Exec Outcome
read signed env service_name list kind state t ip_address port packet =
    if length packet == 0
    then done (nothing state t)
    else (MidiState.write state packet (length packet) >>= λ (r, written). elim kind [
      | local_fd ↦ read_local list written t
      | _ ↦ read_remote signed env service_name written t ip_address port
    ])
