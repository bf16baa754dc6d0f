-- ===== src/Responder.antt =====
-- The session protocol: raveloxmidi/src/applemidi_inv.c, applemidi_ok.c, applemidi_by.c,
-- applemidi_sync.c, applemidi_feedback.c, net_response.c, the start of a session in
-- remote_connection.c and the reading of a command in net_socket.c. Allocations succeed. The data of
-- a command is not NULL, and `service_name` is the entry of the configuration.
pub mod Leaves
pub mod Sessions
pub mod Short
pub mod Answers
pub mod Clock
pub mod Progress
mod Tests
use pimidi.Common.{
  ℕ, ◌+◌, ◌*◌, ◌/◌, ◌%◌, ◌^◌, Bool, true, false, ◌&&◌, ◌||◌, Option, none, some, List, [], ◌∷◌,
  if◌then◌else◌, ltb, leb, ◌==◌, length, take, replicate, sub_size,
}
use pimidi.Common.Memory.{Exec, done, fault, ◌>>=◌}
use pimidi.DataTable.{DataTable, item_get, change}
use pimidi.AppleMidi.{
  Inv, Sync, Feedback, CommandData, null, unset, inv, sync, feedback, bitrate, AppleCommand, pack,
  unpack, cmd_inv, cmd_accept, cmd_reject, cmd_end, cmd_sync, cmd_feedback, cmd_bitrate,
}
use pimidi.Connection.{
  Ctx, CtxStatus, idle, first_inv, second_inv, remote_connection, unused, Env, Datagram,
  find_by_ssrc, find_by_initiator, register, reset, journal_reset, send,
}

-- `net_response_t`.
pub record Response : Type 0 where
  pub buffer : List ℕ
  pub len : ℕ

-- A command with the signature of `net_applemidi_cmd_create` and its data.
abbrev pub command_with : ℕ → CommandData → AppleCommand
command_with command d = record { signature = 0xffff; command = command; command_data = d }

-- The packed command in a response; it is destroyed where packing fails.
abbrev pub in_response : ℕ × Option (List ℕ) × ℕ → Option Response
in_response (ret, none, len) = none
in_response (ret, some buffer, len) =
    if ret == 0 then some (record { buffer = buffer; len = len }) else none

-- `net_response_create` and `net_applemidi_pack` into the response.
unfoldable pub pack_response : AppleCommand → Exec (Option Response)
pack_response cmd = pack true true true (some cmd) >>= λ r. done (in_response r)

-- "RaveloxMIDI" and "RaveloxMIDIClient".
abbrev pub default_service_name : List ℕ
default_service_name = 82 ∷ 97 ∷ 118 ∷ 101 ∷ 108 ∷ 111 ∷ 120 ∷ 77 ∷ 73 ∷ 68 ∷ 73 ∷ []

abbrev pub default_client_name : List ℕ
default_client_name =
    82 ∷ 97 ∷ 118 ∷ 101 ∷ 108 ∷ 111 ∷ 120 ∷ 77 ∷ 73 ∷ 68 ∷ 73 ∷ 67 ∷ 108 ∷ 105 ∷ 101 ∷ 110 ∷ 116
    ∷ []

abbrev pub name_or : Option (List ℕ) → List ℕ → List ℕ
name_or none default = default
name_or (some name) default = name

-- `net_response_inv`.
unfoldable pub response_inv : ℕ → ℕ → Option (List ℕ) → Exec (Option Response)
response_inv ssrc initiator name = pack_response (
    command_with cmd_inv (
      inv (record {
        ssrc = ssrc;
        version = 2;
        initiator = initiator;
        name = some (name_or name default_client_name);
      })))

-- `net_response_sync`. The times are 64-bit.
unfoldable pub response_sync : Env → ℕ → ℕ → Exec (Option Response)
response_sync env send_ssrc start_time = pack_response (
    command_with cmd_sync (
      sync (record {
        ssrc = send_ssrc;
        count = 0;
        padding = replicate 3 0;
        timestamp1 = sub_size env.now start_time;
        timestamp2 = env.random 0;
        timestamp3 = env.random 1;
      })))

-- The acceptance of an invitation.
abbrev pub accept : Option (List ℕ) → Ctx → AppleCommand
accept service_name ctx = command_with cmd_accept (
    inv (record {
      ssrc = ctx.send_ssrc;
      version = 2;
      initiator = ctx.initiator;
      name = some (name_or service_name default_service_name);
    }))

-- The connection of an invitation's SSRC, registered where there is none.
abbrev pub find_or_register :
    Env → DataTable Ctx → Inv → Option (List ℕ) → ℕ → Option ℕ × DataTable Ctx
find_or_register env t i ip_address port = elim (find_by_ssrc t i.ssrc) [
  | some k ↦ (some k, t)
  | none ↦ register env true t i.ssrc i.initiator ip_address port i.name
]

-- A null pointer that is read from.
abbrev pub deref {ℓ κ} : {A : Type ℓ} {B : Type κ} → Option A → (A → Exec B) → Exec B
deref none f = fault
deref (some a) f = f a

-- The acceptance for the connection, if there is one.
abbrev pub answer_inv :
    Option (List ℕ) → Option ℕ × DataTable Ctx → Exec (Option Response × DataTable Ctx)
answer_inv service_name (none, t) = done (none, t)
answer_inv service_name (some k, t) =
    deref (item_get t k) (λ ctx. pack_response (accept service_name ctx)) >>= λ response.
    done (response, t)

-- `applemidi_inv_responder`: the response and the table.
unfoldable pub inv_responder :
    Env
    → Option (List ℕ)
    → DataTable Ctx
    → Option (List ℕ)
    → ℕ
    → Inv
    → Exec (Option Response × DataTable Ctx)
inv_responder env service_name t ip_address port i =
    answer_inv service_name (find_or_register env t i ip_address port)

-- The connection that `applemidi_ok_responder` leaves behind.
abbrev pub to_second_inv : ℕ → Ctx → Ctx
to_second_inv ssrc ctx = record ctx { ssrc = ssrc; status = second_inv }

abbrev pub to_remote : Ctx → Ctx
to_remote ctx = record ctx { status = remote_connection }

-- `applemidi_ok_responder` for a connection: what is sent and the table. The response is destroyed, and
-- the function returns NULL.
abbrev on_ok :
    Env → Option (List ℕ) → DataTable Ctx → Inv → ℕ → Ctx → Exec (Option Datagram × DataTable Ctx)
on_ok env service_name t ok_packet k ctx = elim (ctx.status) [
  | first_inv ↦ response_inv ctx.send_ssrc ctx.initiator service_name >>= λ response.
      deref response
        (λ r. done (send ctx r.buffer r.len false, change t k (to_second_inv ok_packet.ssrc)))
  | second_inv ↦ response_sync env ctx.send_ssrc ctx.start >>= λ response.
      deref response (λ r. done (send ctx r.buffer r.len true, change t k to_remote))
  | _ ↦ done (none, t)
]

-- `applemidi_ok_responder`.
unfoldable pub ok_responder :
    Env → Option (List ℕ) → DataTable Ctx → Inv → Exec (Option Datagram × DataTable Ctx)
ok_responder env service_name t ok_packet = elim (find_by_initiator t ok_packet.initiator) [
  | none ↦ done (none, t)
  | some k ↦ deref (item_get t k) (on_ok env service_name t ok_packet k)
]

-- `applemidi_by_responder`.
unfoldable pub by_responder : DataTable Ctx → Inv → DataTable Ctx
by_responder t i = elim (find_by_ssrc t i.ssrc) [ none ↦ t | some k ↦ change t k reset ]

-- The count of an answer: a `char`, which the machine has with a sign or without.
abbrev pub next_count : Bool → ℕ → ℕ
next_count signed count = if ltb count 2 || (signed && leb 128 count) then (count + 1) % 256 else 0

-- The answer to a SYNC, with the local time in the place that its count says.
abbrev pub sync_answer : Bool → Env → Ctx → Sync → Sync
sync_answer signed env ctx s =
    let local_timestamp = sub_size env.now ctx.start in
    let count = next_count signed s.count in
    record {
      ssrc = ctx.send_ssrc;
      count = count;
      padding = s.padding;
      timestamp1 = if count == 0 then local_timestamp else s.timestamp1;
      timestamp2 = if count == 1 then local_timestamp else s.timestamp2;
      timestamp3 = if count == 2 then local_timestamp else s.timestamp3;
    }

-- `applemidi_sync_responder`.
unfoldable pub sync_responder : Bool → Env → DataTable Ctx → Sync → Exec (Option Response)
sync_responder signed env t s = elim (find_by_ssrc t s.ssrc) [
  | none ↦ done none
  | some k ↦ deref (item_get t k) (λ ctx.
      if s.count == 2
      then done none
      else pack_response (command_with cmd_sync (sync (sync_answer signed env ctx s))))
]

-- `rtp_seq[1]`, the upper half of the union on a little-endian machine.
abbrev pub rtp_seq_1 : Feedback → ℕ
rtp_seq_1 f = f.apple_seq / 2 ^ 16

-- `applemidi_feedback_responder`.
unfoldable pub feedback_responder : DataTable Ctx → Feedback → Exec (DataTable Ctx)
feedback_responder t f = elim (find_by_ssrc t f.ssrc) [
  | none ↦ done t
  | some k ↦
      deref (item_get t k)
        (λ ctx. done (if leb ctx.seq (rtp_seq_1 f) then change t k journal_reset else t))
]

-- `applemidi_feedback_create`, where packing's answer is not looked at. A new feedback is all zeros.
unfoldable pub feedback_create : ℕ → ℕ → Exec (ℕ × Option (List ℕ) × ℕ)
feedback_create ssrc rtp_seq = pack true true true (
    some (
      command_with cmd_feedback
        (feedback (record { ssrc = ssrc; apple_seq = rtp_seq % 2 ^ 16 * 2 ^ 16 }))))

-- `remote_connect_init` from the service it has found on: the invitation that is sent and the table.
-- The random numbers of an `int` are those of the SSRC, the initiator and, in vain, of
-- `net_ctx_register`.
abbrev to_first_inv : ℕ → Ctx → Ctx
to_first_inv ssrc ctx = record ctx { send_ssrc = ssrc; status = first_inv }

unfoldable pub remote_connect :
    Env
    → Option (List ℕ)
    → DataTable Ctx
    → List ℕ
    → ℕ
    → List ℕ
    → Exec (Option Datagram × DataTable Ctx)
remote_connect env service_name t ip_address port name =
    let ssrc = env.random 0 % 2 ^ 32 in
    let initiator = env.random 1 % 2 ^ 32 in
    let later = record env { random = λ k. env.random (k + 2) } in
    response_inv ssrc initiator service_name >>= λ response. elim response [
      | none ↦ done (none, t)
      | some r ↦
          let (found, t') =
            register later true t ssrc initiator (some ip_address) port (some name) in
          elim found [
            | none ↦ done (none, t')
            | some k ↦
                deref (item_get t' k)
                  (λ ctx. done (send ctx r.buffer r.len true, change t' k (to_first_inv ssrc)))
          ]
    ]

-- An invitation's data behind the `void *` of a command.
abbrev pub as_inv {ℓ} : {A : Type ℓ} → CommandData → (Inv → Exec A) → Exec A
as_inv (inv i) f = f i
as_inv other f = fault

abbrev pub as_sync {ℓ} : {A : Type ℓ} → CommandData → (Sync → Exec A) → Exec A
as_sync (sync s) f = f s
as_sync other f = fault

abbrev pub as_feedback {ℓ} : {A : Type ℓ} → CommandData → (Feedback → Exec A) → Exec A
as_feedback (feedback b) f = f b
as_feedback other f = fault

-- What a command makes of the table, and what is sent: the response to the sender, the datagram of
-- `applemidi_ok_responder`.
abbrev pub dispatch :
    Bool
    → Env
    → Option (List ℕ)
    → DataTable Ctx
    → List ℕ
    → ℕ
    → AppleCommand
    → Exec (Option Response × Option Datagram × DataTable Ctx)
dispatch signed env service_name t ip_address port c =
    if c.command == cmd_inv
    then as_inv c.command_data (λ i.
      inv_responder env service_name t (some ip_address) port i >>= λ (response, t').
      done (response, none, t'))
    else if c.command == cmd_accept
    then as_inv c.command_data
        (λ i. ok_responder env service_name t i >>= λ (datagram, t'). done (none, datagram, t'))
    else if c.command == cmd_end
    then as_inv c.command_data (λ i. done (none, none, by_responder t i))
    else if c.command == cmd_sync
    then as_sync c.command_data
        (λ s. sync_responder signed env t s >>= λ response. done (response, none, t))
    else if c.command == cmd_feedback
    then as_feedback c.command_data (λ f. feedback_responder t f >>= λ t'. done (none, none, t'))
    else done (none, none, t)

-- `net_socket_read` on a datagram that starts with two bytes 0xff: the command is unpacked, and its
-- field is read whether there is one or not.
unfoldable pub read_command :
    Bool
    → Env
    → Option (List ℕ)
    → DataTable Ctx
    → List ℕ
    → ℕ
    → List ℕ
    → Exec (Option Response × Option Datagram × DataTable Ctx)
read_command signed env service_name t ip_address port buffer =
    unpack true true (some buffer) (length buffer) >>= λ (ret, command).
    deref command (dispatch signed env service_name t ip_address port)
