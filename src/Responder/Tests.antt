-- ===== src/Responder/Tests.antt =====
-- Sessions with one other host: an invitation, its answers, its end.
use pimidi.Common.{ℕ, zero, suc, ◌≡◌, refl, ap, true, Option, some, none, List, [], ◌∷◌, arith}
use pimidi.Common.Memory.{Exec, Returns, done, fault, blit, ◌>>=◌}
use pimidi.Bytes.{get_uint16, get_uint32, put_uint16, put_uint32}
use pimidi.DataTable.{DataTable, used_item, find, find_item, add_item}
use pimidi.AppleMidi.{
  Inv, Sync, AppleCommand, sync, is_invitation, unpack, unpack_data, pack, pack_data, cmd_sync,
}
use pimidi.AppleMidi.Wire.{IsName, IsOptionalName, wire}
use pimidi.AppleMidi.Received.{command_in}
use pimidi.Journal.{init}
use pimidi.Connection.{
  Ctx, CtxStatus, Env, idle, first_inv, find_by_ssrc, find_by_initiator, register, init_connections,
  find_unused, create, set, add,
}
use pimidi.Connection.Unique.{IsUnique}
use pimidi.Connection.Register.{find_by_ssrc-register}
use pimidi.Responder.{
  read_command, inv_responder, by_responder, ok_responder, command_with, pack_response,
}
use pimidi.Responder.Short.{read_command_short}
use pimidi.Responder.Sessions.{
  IsNotOk, start, received, Reaches-IsUnique, find_by_ssrc-by_responder,
}
use pimidi.Responder.Answers.{SyncFits}
use pimidi.Responder.Clock.{Follows, following_at, read_command-Follows}
use pimidi.Responder.Progress.{CanAnswer, IsConnected, ok_responder-IsConnected}

abbrev surroundings : Env
surroundings = record {
  now = 5000;
  random = λ k. 40;
  sock_info = λ ip_address port. 10 ∷ 0 ∷ 0 ∷ 1 ∷ [];
  ring_buffer_size = 0;
  memory = 77;
}

abbrev with_status : CtxStatus → ℕ → Ctx
with_status status seq = record {
  status = status;
  ssrc = 7;
  send_ssrc = 8;
  initiator = 9;
  seq = seq;
  control_port = 5004;
  data_port = 5005;
  control_address = 10 ∷ 0 ∷ 0 ∷ 1 ∷ [];
  data_address = 10 ∷ 0 ∷ 0 ∷ 1 ∷ [];
  start = 1000;
  ip_address = none;
  name = none;
  journal = init;
  midi_state = none;
}

abbrev one_session : CtxStatus → ℕ → DataTable Ctx
one_session status seq = record {
  items = used_item (with_status status seq) ∷ [];
  item_destructor = true;
}

one_session-IsUnique : (status : CtxStatus) (seq : ℕ) → IsUnique (one_session status seq)
unfolding IsUnique
one_session-IsUnique status seq zero zero c d hc hd uc ud e = refl
one_session-IsUnique status seq zero (suc j) c d hc hd uc ud e = absurd (ground arith)
one_session-IsUnique status seq (suc i) j c d hc hd uc ud e = absurd (ground arith)

found : find_by_ssrc (one_session idle 1) 7 ≡ some 0
unfolding find_by_ssrc find
found = refl

invited : find_by_initiator (one_session first_inv 1) 9 ≡ some 0
unfolding find_by_initiator find
invited = refl

abbrev invitation : Inv
invitation = record { ssrc = 7; version = 2; initiator = 9; name = some (82 ∷ []) }

find_by_ssrc-register_example :
    find_by_ssrc
      (register surroundings true (one_session idle 1) 33 9 none 5004 (some (82 ∷ []))).1
      33
    ≡ (register surroundings true (one_session idle 1) 33 9 none 5004 (some (82 ∷ []))).0
find_by_ssrc-register_example =
    find_by_ssrc-register surroundings (one_session idle 1) 33 9 none 5004 (some (82 ∷ []))
      (one_session-IsUnique idle 1)

find_by_ssrc-by_responder_example :
    find_by_ssrc (by_responder (one_session idle 1) invitation) 7 ≡ none
find_by_ssrc-by_responder_example =
    find_by_ssrc-by_responder (one_session idle 1) invitation (one_session-IsUnique idle 1)

abbrev short_by : List ℕ
short_by = 0xff ∷ 0xff ∷ 0x42 ∷ 0x59 ∷ 0 ∷ 0 ∷ 0 ∷ 2 ∷ []

short_by-is_invitation : is_invitation (command_in short_by) ≡ true
unfolding is_invitation
short_by-is_invitation = refl

read_command_short_example :
    read_command true surroundings none (one_session idle 1) (49 ∷ []) 5004 short_by ≡ fault
read_command_short_example =
    read_command_short true surroundings none (one_session idle 1) (49 ∷ []) 5004 short_by
      short_by-is_invitation (omega arith) (omega arith)

abbrev clock : Sync
clock = record {
  ssrc = 7;
  count = 0;
  padding = 0 ∷ 0 ∷ 0 ∷ [];
  timestamp1 = 123;
  timestamp2 = 0;
  timestamp3 = 0;
}

clock-SyncFits : SyncFits clock
unfolding SyncFits
clock-SyncFits = (refl, omega arith, omega arith, omega arith)

read_command-Follows_example :
    Returns
      (read_command true surroundings none
        (one_session idle 1)
        (49 ∷ [])
        5004
        (wire (command_with cmd_sync (sync clock))))
      (λ r. Follows (following_at true 4000 8 clock 0) r.0 × (r.2 ≡ one_session idle 1))
read_command-Follows_example =
    read_command-Follows true surroundings none (one_session idle 1) (49 ∷ []) 5004 clock 0
      (with_status idle 1) found refl (omega arith) (omega arith) (omega arith) clock-SyncFits

default_fits : IsOptionalName (some (82 ∷ 80 ∷ []))
unfolding IsOptionalName IsName
default_fits =
    (((λ e. absurd (omega (arith, e))), ((λ e. absurd (omega (arith, e))), tt)), omega arith)

can_answer : CanAnswer surroundings (some (82 ∷ 80 ∷ [])) (with_status first_inv 1)
can_answer = record {
  ssrc_fits = omega arith;
  initiator_fits = omega arith;
  name_fits = default_fits;
  random0_fits = omega arith;
  random1_fits = omega arith;
}

ok_responder-IsConnected_example :
    Returns
      (ok_responder surroundings (some (82 ∷ 80 ∷ [])) (one_session first_inv 1) invitation >>= λ r.
        ok_responder surroundings (some (82 ∷ 80 ∷ [])) r.1 invitation)
      (λ r. IsConnected 0 7 r.1)
ok_responder-IsConnected_example =
    ok_responder-IsConnected surroundings surroundings (some (82 ∷ 80 ∷ []))
      (one_session first_inv 1) invitation invitation 0 (with_status first_inv 1) invited refl refl
      refl can_answer can_answer

abbrev invitation_datagram : List ℕ
invitation_datagram = 0xff ∷ 0xff ∷ 0x49 ∷ 0x4e ∷ 0 ∷ 0 ∷ 0 ∷ 2 ∷ 0 ∷ 0 ∷ 0 ∷ 9 ∷ 0 ∷ 0 ∷ 0 ∷ 7 ∷ []

abbrev acceptance : List ℕ
acceptance =
    0xff ∷ 0xff ∷ 0x4f ∷ 0x4b ∷ 0 ∷ 0 ∷ 0 ∷ 2 ∷ 0 ∷ 0 ∷ 0 ∷ 9 ∷ 0 ∷ 0 ∷ 0 ∷ 40 ∷ 82 ∷ 80 ∷ 0 ∷ []

abbrev after_invitation : DataTable Ctx
after_invitation = (register surroundings true init_connections 7 9 (some (49 ∷ [])) 5004 none).1

invitation_read :
    read_command true surroundings
      (some (82 ∷ 80 ∷ []))
      init_connections
      (49 ∷ [])
      5004
      invitation_datagram
    ≡ done (some (record { buffer = acceptance; len = 19 }), none, after_invitation)
unfolding read_command unpack unpack_data is_invitation get_uint16 get_uint32 blit inv_responder
    register find_by_ssrc find_unused find find_item create set add add_item pack_response pack
    pack_data put_uint16 put_uint32
invitation_read = refl

abbrev read_as : Exec (ℕ × Option AppleCommand) → ℕ
read_as (done (ret, some c)) = c.command
read_as (done (ret, none)) = 0
read_as fault = 0

invitation-IsNotOk : IsNotOk invitation_datagram
unfolding IsNotOk unpack unpack_data is_invitation get_uint16 get_uint32 blit
invitation-IsNotOk ret c e n =
    let same : 0x494e ≡ c.command = ap (λ m. read_as m) e in absurd (omega (arith, n, same))

Reaches-IsUnique_example : IsUnique after_invitation
Reaches-IsUnique_example = Reaches-IsUnique after_invitation (
    received init_connections after_invitation true surroundings (some (82 ∷ 80 ∷ [])) (49 ∷ [])
      5004 invitation_datagram (some (record { buffer = acceptance; len = 19 })) none start
      invitation-IsNotOk invitation_read)
