-- ===== src/Remote/Tests.antt =====
-- A target with its port, and a session that is ended.
use pimidi.Common.{ℕ, ◌≡◌, zero, suc, refl, true, none, some, [], ◌∷◌, ◌++◌, arith}
use pimidi.Common.Int.{pos}
use pimidi.Common.Memory.{done, Returns}
use pimidi.Common.Strings.{codes, lower, same_caseless}
use pimidi.KvTable.{KvTable, find_in}
use pimidi.Config.{string_get}
use pimidi.Config.Values.{number}
use pimidi.DataTable.{DataTable, used_item}
use pimidi.Connection.{Ctx, Env, Datagram, remote_connection, find_by_ssrc}
use pimidi.Connection.Unique.{IsUnique}
use pimidi.Journal.{init}
use pimidi.Responder.{read_command}
use pimidi.Remote.{direct, parse_target, find_named, find_by_name, connect_teardown}
use pimidi.Remote.Parse.{parse_target-bracketed}
use pimidi.Remote.Closing.{connect_teardown-read_command}

parse_target-bracketed_example :
    parse_target ((b'[' ∷ (codes "fe80::1" ++ (b']' ∷ []))) ++ (b':' ∷ codes "5004"))
    ≡ done (direct (codes "fe80::1") (pos (number 0 (codes "5004"))))
parse_target-bracketed_example =
    parse_target-bracketed b'f' (codes "e80::1") b'5' (codes "004")
      (refl, (refl, (refl, (refl, tt)))) (omega arith) (omega arith)

abbrev settings : KvTable
settings = record {
  name = none;
  items = record { key = codes "remote.connect"; value = some (codes "desk") } ∷ [];
}

-- The session, as one side or the other has it.
abbrev session : ℕ → ℕ → Ctx
session ssrc send_ssrc = record {
  status = remote_connection;
  ssrc = ssrc;
  send_ssrc = send_ssrc;
  initiator = 9;
  seq = 1;
  control_port = 5004;
  data_port = 5005;
  control_address = 10 ∷ 0 ∷ 0 ∷ 2 ∷ [];
  data_address = 10 ∷ 0 ∷ 0 ∷ 2 ∷ [];
  start = 1000;
  ip_address = none;
  name = some (codes "desk");
  journal = init;
  midi_state = none;
}

abbrev one_session : ℕ → ℕ → DataTable Ctx
one_session ssrc send_ssrc = record {
  items = used_item (session ssrc send_ssrc) ∷ [];
  item_destructor = true;
}

one_session-IsUnique : (ssrc send_ssrc : ℕ) → IsUnique (one_session ssrc send_ssrc)
unfolding IsUnique
one_session-IsUnique ssrc send_ssrc zero zero c d hc hd uc ud e = refl
one_session-IsUnique ssrc send_ssrc zero (suc j) c d hc hd uc ud e = absurd (ground arith)
one_session-IsUnique ssrc send_ssrc (suc i) j c d hc hd uc ud e = absurd (ground arith)

abbrev surroundings : Env
surroundings = record {
  now = 5000;
  random = λ k. 40;
  sock_info = λ ip_address port. 10 ∷ 0 ∷ 0 ∷ 1 ∷ [];
  ring_buffer_size = 0;
  memory = 77;
}

named : string_get settings (codes "remote.connect") ≡ some (codes "desk")
unfolding find_in same_caseless lower
named = refl

connected : find_by_name (one_session 7 8) (codes "desk") ≡ done (some 0)
unfolding find_named
connected = refl

connect_teardown-read_command_example : Returns (connect_teardown settings (one_session 7 8)) (λ o.
    (d : Datagram) × (o ≡ some d)
    × (u' : DataTable Ctx) × (read_command true surroundings none
          (one_session 8 7)
          (10 ∷ [])
          5004
          d.bytes
        ≡ done (none, none, u'))
    × (find_by_ssrc u' 8 ≡ none))
connect_teardown-read_command_example =
    connect_teardown-read_command settings (one_session 7 8) (codes "desk") 0 (session 7 8) true
      surroundings none (one_session 8 7) (10 ∷ []) 5004 named connected refl (omega arith)
      (omega arith) (omega arith) (one_session-IsUnique 8 7)
