-- ===== src/Responder/Progress.antt =====
-- An invitation of this side, from the first OK to the connection.
use pimidi.Common.{
  ℕ, ◌<◌, ◌^◌, ◌≡◌, refl, sym, ap, subst, ◌∙◌, true, Option, none, some, List, arith, replicate,
  ◌==◌, ◌&&◌, sub_size,
}
use pimidi.Common.Memory.{Exec, Returns, Returns->>=, Returns-weaken, done, fault, ◌>>=◌}
use pimidi.DataTable.{DataTable, item_get, change}
use pimidi.DataTable.Laws.{Puts, change-Puts, find-change}
use pimidi.AppleMidi.{Inv, AppleCommand, inv, sync, cmd_inv, cmd_sync, is_invitation}
use pimidi.AppleMidi.Wire.{Fits, FitsData, IsOptionalName}
use pimidi.Connection.{
  Ctx, Env, is_used, first_inv, second_inv, remote_connection, find_by_initiator, used_status,
}
use pimidi.Responder.{
  Response, ok_responder, response_inv, response_sync, command_with, to_second_inv, to_remote,
  name_or, default_client_name, deref,
}
use pimidi.Responder.Answers.{Says, pack_response-Says}

-- A response that says something is there.
deref-Says :
    {B : Type 0} (c : AppleCommand) (m : Exec (Option Response)) (f : Response → Exec B)
    (P : B → Type 0)
    → Returns m (Says c)
    → ((r : Response) → Returns (f r) P)
    → Returns (m >>= λ r. deref r f) P
unfolding Says
deref-Says c fault f P h k = absurd h
deref-Says c (done none) f P h k = absurd h
deref-Says c (done (some r)) f P h k = k r

-- What the answers to an OK need of a connection and the surroundings.
pub record CanAnswer (env : Env) (service_name : Option (List ℕ)) (ctx : Ctx) : Type 0 where
  pub ssrc_fits : ctx.send_ssrc < 2 ^ 32
  pub initiator_fits : ctx.initiator < 2 ^ 32
  pub name_fits : IsOptionalName (some (name_or service_name default_client_name))
  pub random0_fits : env.random 0 < 2 ^ 64
  pub random1_fits : env.random 1 < 2 ^ 64

response_inv-Says :
    (env : Env) (service_name : Option (List ℕ)) (ctx : Ctx)
    → CanAnswer env service_name ctx
    → Returns (response_inv ctx.send_ssrc ctx.initiator service_name) (
        Says (
          command_with cmd_inv (
            inv (record {
              ssrc = ctx.send_ssrc;
              version = 2;
              initiator = ctx.initiator;
              name = some (name_or service_name default_client_name);
            }))))
unfolding response_inv Fits FitsData is_invitation
response_inv-Says env service_name ctx a =
    pack_response-Says _
      (omega arith, omega arith, (refl, a.ssrc_fits, omega arith, a.initiator_fits, a.name_fits))

response_sync-Says :
    (env : Env) (service_name : Option (List ℕ)) (ctx : Ctx)
    → CanAnswer env service_name ctx
    → Returns (response_sync env ctx.send_ssrc ctx.start) (
        Says (
          command_with cmd_sync (
            sync (record {
              ssrc = ctx.send_ssrc;
              count = 0;
              padding = replicate 3 0;
              timestamp1 = sub_size env.now ctx.start;
              timestamp2 = env.random 0;
              timestamp3 = env.random 1;
            }))))
unfolding response_sync Fits FitsData
response_sync-Says env service_name ctx a = pack_response-Says _ (
  omega arith,
  omega arith,
  (refl, a.ssrc_fits, refl, omega arith, a.random0_fits, a.random1_fits),
)

ok_first :
    (env : Env) (service_name : Option (List ℕ)) (t : DataTable Ctx) (o : Inv) (k : ℕ) (ctx : Ctx)
    → find_by_initiator t o.initiator ≡ some k
    → item_get t k ≡ some ctx
    → ctx.status ≡ first_inv
    → CanAnswer env service_name ctx
    → Returns (ok_responder env service_name t o) (λ r. r.1 ≡ change t k (to_second_inv o.ssrc))
unfolding ok_responder
ok_first env service_name t o k ctx e h s a =
    rw (ok_responder, e, h, s)
      (deref-Says _ (response_inv ctx.send_ssrc ctx.initiator service_name) _ _
        (response_inv-Says env service_name ctx a) (λ r. refl))

ok_second :
    (env : Env) (service_name : Option (List ℕ)) (t : DataTable Ctx) (o : Inv) (k : ℕ) (ctx : Ctx)
    → find_by_initiator t o.initiator ≡ some k
    → item_get t k ≡ some ctx
    → ctx.status ≡ second_inv
    → CanAnswer env service_name ctx
    → Returns (ok_responder env service_name t o) (λ r. r.1 ≡ change t k to_remote)
unfolding ok_responder
ok_second env service_name t o k ctx e h s a =
    rw (ok_responder, e, h, s)
      (deref-Says _ (response_sync env ctx.send_ssrc ctx.start) _ _
        (response_sync-Says env service_name ctx a) (λ r. refl))

still_by_initiator :
    (t : DataTable Ctx) (initiator ssrc k : ℕ) (ctx : Ctx)
    → item_get t k ≡ some ctx
    → is_used ctx ≡ true
    → find_by_initiator (change t k (to_second_inv ssrc)) initiator ≡ find_by_initiator t initiator
unfolding find_by_initiator
still_by_initiator t initiator ssrc k ctx h u =
    find-change (λ c. is_used c && c.initiator == initiator) t k (to_second_inv ssrc) ctx h
      (rw u refl)

-- The connection at `k` is established, with the SSRC of the other side.
unfoldable pub IsConnected : ℕ → ℕ → DataTable Ctx → Type 0
IsConnected k ssrc t =
    (c : Ctx) × (item_get t k ≡ some c) × (c.status ≡ remote_connection) × (c.ssrc ≡ ssrc)

connected :
    (t : DataTable Ctx) (k ssrc : ℕ) (ctx : Ctx)
    → item_get t k ≡ some ctx
    → IsConnected k ssrc (change (change t k (to_second_inv ssrc)) k to_remote)
unfolding IsConnected Puts
connected t k ssrc ctx h =
    let first = change-Puts t k (to_second_inv ssrc) ctx h in
    let second =
      change-Puts (change t k (to_second_inv ssrc)) k to_remote (to_second_inv ssrc ctx) first.0 in
    (to_remote (to_second_inv ssrc ctx), second.0, refl, refl)

second_item :
    (t : DataTable Ctx) (k ssrc : ℕ) (ctx : Ctx)
    → item_get t k ≡ some ctx
    → item_get (change t k (to_second_inv ssrc)) k ≡ some (to_second_inv ssrc ctx)
unfolding Puts
second_item t k ssrc ctx h = (change-Puts t k (to_second_inv ssrc) ctx h).0

-- Two OKs for an invitation of this side bring its connection from FIRST_INV to REMOTE_CONNECTION,
-- with the SSRC of the first OK, without undefined behaviour. Both have the initiator by which
-- `net_ctx_find_by_initiator` finds the connection; what the answers are made of fits its widths.
pub ok_responder-IsConnected :
    (env env2 : Env) (service_name : Option (List ℕ)) (t : DataTable Ctx) (o o2 : Inv) (k : ℕ)
    (ctx : Ctx)
    → find_by_initiator t o.initiator ≡ some k
    → o2.initiator ≡ o.initiator
    → item_get t k ≡ some ctx
    → ctx.status ≡ first_inv
    → CanAnswer env service_name ctx
    → CanAnswer env2 service_name ctx
    → Returns
        (ok_responder env service_name t o >>= λ r. ok_responder env2 service_name r.1 o2)
        (λ r. IsConnected k o.ssrc r.1)
ok_responder-IsConnected env env2 service_name t o o2 k ctx e same h s a a2 =
    Returns->>= (ok_responder env service_name t o) _ (λ r. r.1 ≡ t2) _
      (ok_first env service_name t o k ctx e h s a)
      (λ r q.
        subst
          (λ t'. Returns (ok_responder env2 service_name t' o2) (λ r'. IsConnected k o.ssrc r'.1))
          (sym q)
          (Returns-weaken (ok_responder env2 service_name t2 o2) (λ r'. r'.1 ≡ t3)
            (λ r'. IsConnected k o.ssrc r'.1)
            (ok_second env2 service_name t2 o2 k (to_second_inv o.ssrc ctx) found
              (second_item t k o.ssrc ctx h) refl still)
            (λ r' q'. subst (λ t'. IsConnected k o.ssrc t') (sym q') (connected t k o.ssrc ctx h))))
  where
    t2 : DataTable Ctx
    t2 = change t k (to_second_inv o.ssrc)

    t3 : DataTable Ctx
    t3 = change t2 k to_remote

    used : is_used ctx ≡ true
    used = ap (λ st. used_status st) s

    found : find_by_initiator t2 o2.initiator ≡ some k
    found =
        still_by_initiator t o2.initiator o.ssrc k ctx h used
        ∙ ap (λ n. find_by_initiator t n) same
        ∙ e

    still : CanAnswer env2 service_name (to_second_inv o.ssrc ctx)
    still = record {
      ssrc_fits = a2.ssrc_fits;
      initiator_fits = a2.initiator_fits;
      name_fits = a2.name_fits;
      random0_fits = a2.random0_fits;
      random1_fits = a2.random1_fits;
    }
