-- ===== src/Remote.antt =====
-- raveloxmidi/src/remote_connection.c with the list of services of dns_service_discover.c: the
-- session that this side asks for, the SYNCs in it and its end. What Avahi finds is an argument, as is
-- the configuration; allocations succeed.
pub mod Parse
pub mod Closing
mod Tests
use pimidi.Common.{
  ℕ, zero, suc, ◌+◌, ◌-◌, ◌%◌, ◌^◌, Bool, true, false, ◌&&◌, ◌||◌, Option, none, some, List, [],
  ◌∷◌, ◌++◌, ltb, ◌==◌, if◌then◌else◌, length, get_or, take, drop,
}
use pimidi.Common.Int.{ℤ, pos, negsuc}
use pimidi.Common.Memory.{Exec, done, fault, ◌>>=◌}
use pimidi.KvTable.{KvTable}
use pimidi.Common.Strings.{codes}
use pimidi.Config.{string_get}
use pimidi.Config.Values.{to_number, is_set, is_yes}
use pimidi.DataTable.{DataTable, Item, content_of, item_get}
use pimidi.AppleMidi.{Inv, inv, AppleCommand, cmd_end}
use pimidi.Connection.{Ctx, Env, Datagram, is_used, same_string, send}
use pimidi.Responder.{Response, deref, command_with, pack_response, response_sync, remote_connect}

-- `dns_service_t`.
pub record Service : Type 0 where
  pub name : List ℕ
  pub ip_address : List ℕ
  pub port : ℤ

-- `dns_discover_by_name`.
unfoldable discover_by_name : List Service → List ℕ → Option Service
discover_by_name [] name = none
discover_by_name (s ∷ services) name =
    if same_string name s.name then some s else discover_by_name services name

-- `dns_discover_add`, where there is memory: the first service of a name stays.
unfoldable discover_add : List Service → List ℕ → List ℕ → ℤ → List Service
discover_add services name address port = elim (discover_by_name services name) [
  | some found ↦ services
  | none ↦ services ++ (record { name = name; ip_address = address; port = port } ∷ [])
]

-- What `remote.connect` names: a service, or an address with its port.
pub data Target : Type 0 where
  service : Target
  no_port : Target
  direct : List ℕ → ℤ → Target

-- The last colon or bracket behind the first byte, 0 where there is none: the search starts `n` bytes
-- behind the first.
unfoldable pub search_back : ℕ → List ℕ → ℕ
search_back zero s = 0
search_back (suc n) s =
    let c = get_or s (suc n) 0 in if c == b']' || c == b':' then suc n else search_back n s

-- The place behind the first opening bracket in front of `p2`, `p2` where there is none.
abbrev pub skip_bracket : ℕ → List ℕ → ℕ → ℕ
skip_bracket zero s i = i
skip_bracket (suc n) s i = if get_or s i 0 == b'[' then suc i else skip_bracket n s (suc i)

-- The address without the bracket at `p2` and the one in front of it.
abbrev pub bracketed : List ℕ → ℕ → List ℕ
bracketed s p2 =
    let cut = take p2 s in let p1 = skip_bracket p2 cut 0 in if p1 == p2 then cut else drop p1 cut

-- The address where `p2` is the last place of the string.
abbrev pub address_of : List ℕ → ℕ → List ℕ
address_of s p2 = if get_or s p2 0 == b']' then bracketed s p2 else s

abbrev pub is_zero : ℤ → Bool
is_zero (pos n) = n == 0
is_zero (negsuc n) = false

abbrev pub with_port : List ℕ → ℕ → ℤ → Target
with_port s p2 port = if is_zero port then no_port else direct (address_of s p2) port

-- The reading of `remote.connect` in `remote_connect_init`. The string is not empty.
unfoldable pub parse_target : List ℕ → Exec Target
parse_target s =
    let p2 = search_back (length s) s in
    if p2 == 0
    then done service
    else if get_or s p2 0 == b':'
    then (to_number 31 (drop (suc p2) s) >>= λ port. done (with_port (take p2 s) (p2 - 1) port))
    else done no_port

-- The service to connect to, and the list behind it. `discover` is `dns_discover_services`.
abbrev locate :
    (List Service → List Service) → List Service → List ℕ → Target → Option Service × List Service
locate discover services name no_port = (none, services)
locate discover services name (direct address port) = (
  discover_by_name (discover_add services name address port) name,
  discover_add services name address port,
)
locate discover services name service = (
  if length (discover services) == 0 then none else discover_by_name (discover services) name,
  discover services,
)

-- The conversion of an `int` to the 16 bits of a port.
abbrev to_port : ℤ → ℕ
to_port (pos n) = n % 2 ^ 16
to_port (negsuc n) = 2 ^ 16 - 1 - n % 2 ^ 16

abbrev connect_to :
    Env → KvTable → DataTable Ctx → Option Service → Exec (Option Datagram × DataTable Ctx)
connect_to env config t none = done (none, t)
connect_to env config t (some s) =
    remote_connect env (string_get config (codes "service.name")) t s.ip_address (to_port s.port)
      s.name

-- `remote_connect_init`: the invitation, the services and the table.
unfoldable connect_init :
    Env
    → (List Service → List Service)
    → KvTable
    → List Service
    → DataTable Ctx
    → Exec (Option Datagram × List Service × DataTable Ctx)
connect_init env discover config services t =
    if is_set config (codes "remote.connect")
    then deref (string_get config (codes "remote.connect")) (λ name. parse_target name >>= λ target.
        let (found, services') = locate discover services name target in
        connect_to env config t found >>= λ (datagram, t'). done (datagram, services', t'))
    else done (none, services, t)

abbrev shifted : Option ℕ → Option ℕ
shifted none = none
shifted (some k) = some (suc k)

abbrev has_name : Option (List ℕ) → List ℕ → Exec Bool
has_name none name = fault
has_name (some n) name = done (same_string n name)

-- The loop of `net_ctx_find_by_name`, which reads the name of every connection in use.
unfoldable pub find_named : List ℕ → List (Option (Item Ctx)) → Exec (Option ℕ)
find_named name [] = done none
find_named name (o ∷ items) =
    let rest = find_named name items >>= λ k. done (shifted k) in
    elim (content_of o) [
      | none ↦ rest
      | some ctx ↦
          if is_used ctx
          then (has_name ctx.name name >>= λ same. if same then done (some 0) else rest)
          else rest
    ]

-- `net_ctx_find_by_name`.
abbrev pub find_by_name : DataTable Ctx → List ℕ → Exec (Option ℕ)
find_by_name t name = find_named name t.items

-- The BY for a connection.
abbrev pub by_command : Ctx → AppleCommand
by_command ctx =
    command_with cmd_end
      (inv (record { ssrc = ctx.send_ssrc; version = 2; initiator = ctx.initiator; name = none }))

abbrev pub sent_response : Ctx → Bool → Option Response → Option Datagram
sent_response ctx use_control none = none
sent_response ctx use_control (some r) = send ctx r.buffer r.len use_control

-- The BY over the control port.
abbrev pub send_by : Ctx → Exec (Option Datagram)
send_by ctx = pack_response (by_command ctx) >>= λ response. done (sent_response ctx true response)

-- The end of the session with the connection that was found.
abbrev pub teardown_at : DataTable Ctx → Option ℕ → Exec (Option Datagram)
teardown_at t none = done none
teardown_at t (some k) = deref (item_get t k) (λ ctx. send_by ctx)

-- The end of the session with the connection that is named.
abbrev pub teardown_for : DataTable Ctx → Option (List ℕ) → Exec (Option Datagram)
teardown_for t none = done none
teardown_for t (some name) = find_by_name t name >>= λ found. teardown_at t found

-- `remote_connect_teardown`, behind the end of the thread: the BY that is sent.
unfoldable pub connect_teardown : KvTable → DataTable Ctx → Exec (Option Datagram)
connect_teardown config t = teardown_for t (string_get config (codes "remote.connect"))

-- Whether SYNCs go over the control port.
abbrev use_control_for_ck : KvTable → Bool
use_control_for_ck config =
    if is_set config (codes "remote.use_control_for_ck")
    then is_yes (string_get config (codes "remote.use_control_for_ck"))
    else true

-- A round of `remote_connect_sync_thread` for a connection, where no shutdown was asked for: the SYNC.
unfoldable sync_round : Env → KvTable → Ctx → Exec (Option Datagram)
sync_round env config ctx = response_sync env ctx.send_ssrc ctx.start >>= λ response.
    deref response (λ r. done (send ctx r.buffer r.len (use_control_for_ck config)))
