-- ===== src/Responder/Short.antt =====
-- Commands that are cut short.
use pimidi.Common.{
  ℕ, ◌-◌, ◌≤◌, ◌<◌, ◌≡◌, refl, ◌∙◌, Bool, true, Option, none, some, List, arith, length, ltb,
}
use native.Mathlib.Decide.{dec_lt}
use pimidi.Common.Memory.{done, fault}
use pimidi.DataTable.{DataTable}
use pimidi.AppleMidi.{is_invitation, unpack, unpack_data, need_data}
use pimidi.AppleMidi.Received.{command_in, unpack_short_invitation, unpack_long}
use pimidi.Connection.{Ctx, Env}
use pimidi.Responder.{read_command}

unpack_no_data :
    (b : List ℕ)
    → is_invitation (command_in b) ≡ true
    → 4 ≤ length b
    → length b < 12
    → unpack true true (some b) (length b) ≡ done (need_data, none)
unfolding unpack_data
unpack_no_data b i h k =
    let e : ltb (length b - 4) (16 - 8) ≡ true = ground arith in
    unpack_long b (omega arith) h ∙ rw (i, e) refl

-- `net_socket_read` of a datagram that starts with two bytes 0xff and is 4 to 15 bytes long, whose
-- command is one with an invitation's data (IN, OK, NO, BY), runs into undefined behaviour: below
-- 12 bytes it reads the field of a command that is NULL, else past the end of the datagram.
pub read_command_short :
    (signed : Bool) (env : Env) (service_name : Option (List ℕ)) (t : DataTable Ctx)
    (ip_address : List ℕ) (port : ℕ) (b : List ℕ)
    → is_invitation (command_in b) ≡ true
    → 4 ≤ length b
    → length b < 16
    → read_command signed env service_name t ip_address port b ≡ fault
unfolding read_command
read_command_short signed env service_name t ip_address port b i h k = elim (dec_lt (length b) 12) [
  | yes short ↦ rw (unpack_no_data b i h short) refl
  | no long ↦ rw (unpack_short_invitation b i (omega arith) k) refl
]
