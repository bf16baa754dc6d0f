-- ===== src/Remote/Closing.antt =====
-- The end of a session: the BY of one side at the other.
use pimidi.Common.{
  ℕ, ◌<◌, ◌^◌, ◌≡◌, refl, ap, ◌∙◌, Bool, true, false, ◌==◌, Option, some, none, List, length, take,
  arith,
}
use pimidi.Common.Memory.{Returns, Returns->>=, done, ◌>>=◌}
use pimidi.Common.Strings.{codes}
use pimidi.KvTable.{KvTable}
use pimidi.Config.{string_get}
use pimidi.DataTable.{DataTable, item_get}
use pimidi.AppleMidi.{AppleCommand, Inv, pack, is_invitation}
use pimidi.AppleMidi.Wire.{Fits, FitsData, IsOptionalName, wire}
use pimidi.AppleMidi.Packed.{Holds}
use pimidi.AppleMidi.RoundTrip.{unpack-pack_apple}
use pimidi.Connection.{Ctx, Env, Datagram, find_by_ssrc, send}
use pimidi.Connection.Unique.{IsUnique}
use pimidi.Responder.{Response, deref, in_response, pack_response, by_responder, read_command}
use pimidi.Responder.Sessions.{find_by_ssrc-by_responder}
use pimidi.Remote.{
  find_by_name, by_command, sent_response, send_by, teardown_at, teardown_for, connect_teardown,
}

-- The data of the BY for a connection.
abbrev by_data : Ctx → Inv
by_data ctx = record { ssrc = ctx.send_ssrc; version = 2; initiator = ctx.initiator; name = none }

-- The response holds the bytes of the command.
unfoldable Carries : AppleCommand → Option Response → Type 0
Carries c none = ⊥
Carries c (some r) = (take r.len r.buffer ≡ wire c) × (r.len ≡ length (wire c))

in_response-Carries :
    (c : AppleCommand) (r : ℕ × Option (List ℕ) × ℕ) → Holds (wire c) r → Carries c (in_response r)
unfolding Carries Holds
in_response-Carries c (ret, none, len) h = absurd h
in_response-Carries c (ret, some bytes, len) (h, n, t) = rw (h, n) (t, refl)

pack_response-Carries : (c : AppleCommand) → Fits c → Returns (pack_response c) (Carries c)
unfolding pack_response
pack_response-Carries c f =
    Returns->>= (pack true true true (some c)) _ (Holds (wire c)) (Carries c)
      (unpack-pack_apple c f).0 (λ r h. in_response-Carries c r h)

by_command-Fits :
    (ctx : Ctx) → ctx.send_ssrc < 2 ^ 32 → ctx.initiator < 2 ^ 32 → Fits (by_command ctx)
unfolding Fits FitsData is_invitation IsOptionalName
by_command-Fits ctx h k = (omega arith, omega arith, (refl, h, omega arith, k, tt))

-- The datagram with the bytes of a BY.
Sends : Ctx → Option Datagram → Type 0
Sends ctx o = (d : Datagram) × (o ≡ some d) × (d.bytes ≡ wire (by_command ctx))

some_bytes : (ctx : Ctx) → (length (wire (by_command ctx)) == 0) ≡ false
some_bytes ctx = refl

sent_response-Sends :
    (ctx : Ctx) (response : Option Response)
    → (length ctx.control_address == 0) ≡ false
    → Carries (by_command ctx) response
    → Sends ctx (sent_response ctx true response)
unfolding Carries Sends send
sent_response-Sends ctx none a h = absurd h
sent_response-Sends ctx (some r) a h =
    let given : (r.len == 0) ≡ false = ap (λ n. n == 0) h.1 ∙ some_bytes ctx in
    (record { address = ctx.control_address; bytes = take r.len r.buffer }, rw (given, a) refl, h.0)

teardown_lem :
    (config : KvTable) (t : DataTable Ctx) (name : List ℕ) (k : ℕ) (ctx : Ctx)
    → string_get config (codes "remote.connect") ≡ some name
    → find_by_name t name ≡ done (some k)
    → item_get t k ≡ some ctx
    → connect_teardown config t ≡ send_by ctx
unfolding connect_teardown
teardown_lem config t name k ctx e f g =
    ap (λ o. teardown_for t o) e
    ∙ ap (λ m. m >>= λ found. teardown_at t found) f
    ∙ ap (λ o. deref o (λ c. send_by c)) g

-- The other side on the bytes of a BY.
read_by :
    (signed : Bool) (env : Env) (service_name : Option (List ℕ)) (u : DataTable Ctx)
    (ip_address : List ℕ) (port : ℕ) (ctx : Ctx)
    → Fits (by_command ctx)
    → read_command signed env service_name u ip_address port (wire (by_command ctx))
      ≡ done (none, none, by_responder u (by_data ctx))
unfolding read_command
read_by signed env service_name u ip_address port ctx f =
    rw (read_command, (unpack-pack_apple (by_command ctx) f).1) refl

-- `remote_connect_teardown` sends a BY that ends the session at the other side: `net_socket_read` there
-- takes it for the BY that it is, answers nothing, and afterwards `net_ctx_find_by_ssrc` does not find
-- this side's SSRC. `net_ctx_find_by_name` finds the connection, which has an address; its numbers have
-- 32 bits, and at the other side the SSRCs of the connections in use are different.
pub connect_teardown-read_command :
    (config : KvTable) (t : DataTable Ctx) (name : List ℕ) (k : ℕ) (ctx : Ctx) (signed : Bool)
    (env : Env) (service_name : Option (List ℕ)) (u : DataTable Ctx) (ip_address : List ℕ)
    (port : ℕ)
    → string_get config (codes "remote.connect") ≡ some name
    → find_by_name t name ≡ done (some k)
    → item_get t k ≡ some ctx
    → ctx.send_ssrc < 2 ^ 32
    → ctx.initiator < 2 ^ 32
    → 0 < length ctx.control_address
    → IsUnique u
    → Returns (connect_teardown config t) (λ o.
      (d : Datagram) × (o ≡ some d)
      × (u' : DataTable Ctx) × (read_command signed env service_name u ip_address port d.bytes
          ≡ done (none, none, u'))
      × (find_by_ssrc u' ctx.send_ssrc ≡ none))
unfolding Sends
connect_teardown-read_command config t name k ctx signed env service_name u ip_address port e f g h
      i a q =
    let fits = by_command-Fits ctx h i in
    let address : (length ctx.control_address == 0) ≡ false = ground (arith, a) in
    rw (teardown_lem config t name k ctx e f g) (
      Returns->>= (pack_response (by_command ctx)) _ _ _
        (pack_response-Carries (by_command ctx) fits)
        (λ response c.
          let sent = sent_response-Sends ctx response address c in
          (
            sent.0,
            sent.1,
            by_responder u (by_data ctx),
            ap (λ b. read_command signed env service_name u ip_address port b) sent.2
                ∙ read_by signed env service_name u ip_address port ctx fits,
            find_by_ssrc-by_responder u (by_data ctx) q,
          )))
