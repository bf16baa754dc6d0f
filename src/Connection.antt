-- ===== src/Connection.antt =====
-- raveloxmidi/src/net_connection.c: the sessions with other hosts, in a table. A pointer to a
-- connection of the table is its place there. Memory for the table and the journal is there; what
-- the functions ask of their surroundings is in `Env`.
pub mod Unique
pub mod Register
use pimidi.Common.{
  ℕ, zero, suc, ◌+◌, ◌-◌, ◌*◌, ◌%◌, ◌^◌, max, Bool, true, false, not, ◌&&◌, Option, none, some,
  List, [], ◌∷◌, if◌then◌else◌, ltb, ◌==◌, length, take, sub_size,
}
use pimidi.Common.Memory.{Exec, done, fault, ◌>>=◌}
use pimidi.DataTable.{DataTable, item_get, add_item, place, change, find}
use pimidi.Journal.{Journal, init, add_note, add_control, add_program}
use pimidi.Journal.Reset
use pimidi.MidiState.{MidiState, NewState, with_ring, ringless}
use pimidi.MidiState
use pimidi.MidiNote.{Note}
use pimidi.MidiControl.{Control}
use pimidi.MidiProgram.{Program}
use pimidi.RtpPacket.{Header}

-- `net_ctx_status_t`.
pub data CtxStatus : Type 0 where
  idle : CtxStatus
  first_inv : CtxStatus
  second_inv : CtxStatus
  remote_connection : CtxStatus
  unused : CtxStatus

-- `net_ctx_t`. An address is its `…_address_len` bytes; `start` is a time in 100 microseconds.
pub record Ctx : Type 0 where
  pub status : CtxStatus
  pub ssrc : ℕ
  pub send_ssrc : ℕ
  pub initiator : ℕ
  pub seq : ℕ
  pub control_port : ℕ
  pub data_port : ℕ
  pub control_address : List ℕ
  pub data_address : List ℕ
  pub start : ℕ
  pub ip_address : Option (List ℕ)
  pub name : Option (List ℕ)
  pub journal : Journal
  pub midi_state : Option MidiState

-- The time, the next random numbers in their order, the bytes of the address that `getaddrinfo` has
-- for a host and a port (none where it fails), the size for rings in the configuration, what new memory
-- has in the place of a delta time.
pub record Env : Type 0 where
  pub now : ℕ
  pub random : ℕ → ℕ
  pub sock_info : List ℕ → ℕ → List ℕ
  pub ring_buffer_size : ℕ
  pub memory : ℕ

-- `net_ctx_is_used`.
abbrev pub used_status : CtxStatus → Bool
used_status unused = false
used_status _ = true

abbrev pub is_used : Ctx → Bool
is_used ctx = used_status ctx.status

abbrev address : Env → Option (List ℕ) → ℕ → List ℕ
address env none port = []
address env (some ip_address) port = env.sock_info ip_address port

abbrev reset_state : Option MidiState → Option MidiState
reset_state none = none
reset_state (some s) = some (MidiState.reset s)

-- `net_ctx_set`. The sequence number and the journal stay as they are.
unfoldable pub set : Env → ℕ → ℕ → ℕ → ℕ → Option (List ℕ) → Option (List ℕ) → Ctx → Ctx
set env ssrc initiator send_ssrc port ip_address name ctx = record ctx {
  ssrc = ssrc;
  send_ssrc = send_ssrc;
  initiator = initiator;
  control_port = port;
  data_port = (port + 1) % 2 ^ 16;
  start = env.now;
  control_address = address env ip_address port;
  data_address = address env ip_address ((port + 1) % 2 ^ 16);
  ip_address = ip_address;
  name = name;
  midi_state = reset_state ctx.midi_state;
  status = idle;
}

-- The size of the ring is not 0, so that there is one.
abbrev made_state : Option NewState → Option MidiState
made_state (some (with_ring s)) = some s
made_state (some (ringless hold)) = none
made_state none = none

-- `net_ctx_create`, and what it fills in.
abbrev pub fresh_ctx : Env → Ctx
fresh_ctx env = record {
  status = unused;
  ssrc = 0;
  send_ssrc = 0;
  initiator = 0;
  seq = 1;
  control_port = 0;
  data_port = 0;
  control_address = [];
  data_address = [];
  start = 0;
  ip_address = none;
  name = none;
  journal = init;
  midi_state = made_state (MidiState.create env.memory (max 10240 env.ring_buffer_size));
}

unfoldable pub create : Env → Bool → Option Ctx
create env mem = if mem then some (fresh_ctx env) else none

-- `net_ctx_journal_reset`.
abbrev pub journal_reset : Ctx → Ctx
journal_reset ctx = record ctx { journal = Reset.reset ctx.journal }

-- `net_ctx_reset`. The SSRC and the names stay as they are.
unfoldable pub reset : Ctx → Ctx
reset ctx = record (journal_reset ctx) {
  seq = 1;
  status = unused;
  control_address = [];
  data_address = [];
  midi_state = reset_state ctx.midi_state;
}

-- `net_ctx_init`.
abbrev pub init_connections : DataTable Ctx
init_connections = record { items = []; item_destructor = true }

-- `net_ctx_find_unused`.
unfoldable pub find_unused : DataTable Ctx → Option ℕ
find_unused connections = find (λ ctx. not (is_used ctx)) connections

-- `net_ctx_find_by_ssrc`.
unfoldable pub find_by_ssrc : DataTable Ctx → ℕ → Option ℕ
find_by_ssrc connections ssrc = find (λ ctx. is_used ctx && ctx.ssrc == ssrc) connections

-- `net_ctx_find_by_initiator`.
unfoldable pub find_by_initiator : DataTable Ctx → ℕ → Option ℕ
find_by_initiator connections initiator =
    find (λ ctx. is_used ctx && ctx.initiator == initiator) connections

-- `strcmp( a, b ) == 0` on strings without their NUL.
abbrev pub same_string : List ℕ → List ℕ → Bool
same_string [] [] = true
same_string [] (d ∷ ds) = false
same_string (c ∷ cs) [] = false
same_string (c ∷ cs) (d ∷ ds) = (c == d) && same_string cs ds

-- `net_ctx_add`.
unfoldable pub add : DataTable Ctx → Ctx → DataTable Ctx
add connections ctx = (add_item true true connections (some (record ctx { status = idle }))).1

-- `net_ctx_register`: the connection and the table. `mem` is the answer of `net_ctx_create`.
unfoldable pub register :
    Env
    → Bool
    → DataTable Ctx
    → ℕ
    → ℕ
    → Option (List ℕ)
    → ℕ
    → Option (List ℕ)
    → Option ℕ × DataTable Ctx
register env mem connections ssrc initiator ip_address port name =
    let send_ssrc = env.random 0 % 2 ^ 32 in
    let fill = set env ssrc initiator send_ssrc port ip_address name in
    elim (find_by_ssrc connections ssrc) [
      | some i ↦ (some i, connections)
      | none ↦ elim (find_unused connections) [
        | some i ↦ (some i, change connections i fill)
        | none ↦ elim (create env mem) [
          | none ↦ (none, connections)
          | some ctx ↦ (some (place connections), add connections (fill ctx))
        ]
      ]
    ]

-- What is handed to `sendto`: the destination and the bytes.
pub record Datagram : Type 0 where
  pub address : List ℕ
  pub bytes : List ℕ

-- `net_ctx_send`: the datagram, if one is sent.
unfoldable pub send : Ctx → List ℕ → ℕ → Bool → Option Datagram
send ctx buffer buffer_len use_control =
    let address = if use_control then ctx.control_address else ctx.data_address in
    if buffer_len == 0
    then none
    else if length address == 0
    then none
    else some (record { address = address; bytes = take buffer_len buffer })

-- `net_ctx_increment_seq`.
abbrev pub increment_seq : Ctx → Ctx
increment_seq ctx = record ctx { seq = (ctx.seq + 1) % 2 ^ 32 }

-- `net_ctx_update_rtp_fields`: the header's sequence number has 16 bits, its time 32.
abbrev pub update_rtp_fields : Env → Ctx → Header → Header
update_rtp_fields env ctx header = record header {
  seq = ctx.seq % 2 ^ 16;
  timestamp = sub_size env.now ctx.start % 2 ^ 32;
  ssrc = ctx.send_ssrc;
}

-- `net_ctx_add_journal_note`, `net_ctx_add_journal_control`, `net_ctx_add_journal_program`.
abbrev pub add_journal_note : Ctx → Note → Exec Ctx
add_journal_note ctx note =
    add_note ctx.journal ctx.seq note >>= λ journal. done (record ctx { journal = journal })

abbrev pub add_journal_control : Ctx → Control → Exec Ctx
add_journal_control ctx control =
    add_control ctx.journal ctx.seq control >>= λ journal. done (record ctx { journal = journal })

abbrev pub add_journal_program : Ctx → Program → Ctx
add_journal_program ctx program = record ctx { journal = add_program ctx.journal ctx.seq program }
