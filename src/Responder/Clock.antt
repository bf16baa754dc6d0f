-- ===== src/Responder/Clock.antt =====
-- The exchange of SYNCs: what comes back for a SYNC with any count.
use pimidi.Common.{
  ℕ, zero, suc, ◌+◌, ◌%◌, ◌^◌, ◌<◌, ◌≡◌, refl, subst, inl, inr, Bool, true, false, Option, none,
  some, List, arith, leb, ltb, ◌==◌, ◌&&◌, if◌then◌else◌, sub_size, Bool-cases,
}
use pimidi.Common.Memory.{Returns, Returns->>=}
use pimidi.DataTable.{DataTable, item_get}
use pimidi.AppleMidi.{Sync, sync, cmd_sync}
use pimidi.AppleMidi.Wire.{Fits, FitsData, wire}
use pimidi.AppleMidi.RoundTrip.{unpack-pack_apple}
use pimidi.Connection.{Ctx, Env, find_by_ssrc}
use pimidi.Responder.{
  Response, pack_response, command_with, sync_answer, sync_responder, read_command, next_count,
}
use pimidi.Responder.Answers.{Says, pack_response-Says, SyncFits, sync_answer-Fits}

-- The SYNC that is to follow one with a count: CK1 with the time behind CK0, CK2 behind CK1, nothing
-- behind CK2. A count that the protocol does not have starts again with CK0, but where a `char` has a
-- sign and the count is below -1, the next count comes without a time.
unfoldable pub following_at : Bool → ℕ → ℕ → Sync → ℕ → Option Sync
following_at signed time ssrc s zero = some (record s { ssrc = ssrc; count = 1; timestamp2 = time })
following_at signed time ssrc s (suc zero) =
    some (record s { ssrc = ssrc; count = 2; timestamp3 = time })
following_at signed time ssrc s (suc (suc zero)) = none
following_at signed time ssrc s (suc (suc (suc n))) =
    if signed && leb 125 n && ltb n 252
    then some (record s { ssrc = ssrc; count = n + 4 })
    else some (record s { ssrc = ssrc; count = 0; timestamp1 = time })

-- The response holds the SYNC that is to follow, and there is none where none is to.
unfoldable pub Follows : Option Sync → Option Response → Type 0
Follows none r = r ≡ none
Follows (some a) r = Says (command_with cmd_sync (sync a)) r

module _ (signed : Bool) (env : Env) (t : DataTable Ctx) (s : Sync) (k : ℕ) (ctx : Ctx)
    (e : find_by_ssrc t s.ssrc ≡ some k) (h : item_get t k ≡ some ctx) (w : ctx.send_ssrc < 2 ^ 32)
    (f : SyncFits s) where
  time : ℕ
  time = sub_size env.now ctx.start

  counting : ℕ → Sync
  counting c = record s { count = c }

  counting-SyncFits : (c : ℕ) → SyncFits (counting c)
  unfolding SyncFits counting
  counting-SyncFits c = f

  answers :
      (c : ℕ) (a : Sync)
      → (c == 2) ≡ false
      → sync_answer signed env ctx (counting c) ≡ a
      → Returns (sync_responder signed env t (counting c)) (Follows (some a))
  unfolding sync_responder Follows counting
  answers c a other g =
      rw (sync_responder, e, h, other)
        (subst
          (λ x.
            Returns
              (pack_response
                (command_with cmd_sync (sync (sync_answer signed env ctx (counting c)))))
              (Says (command_with cmd_sync (sync x))))
          g
          (pack_response-Says
            (command_with cmd_sync (sync (sync_answer signed env ctx (counting c))))
            (sync_answer-Fits signed env ctx (counting c) w (counting-SyncFits c))))

  follows :
      (c : ℕ)
      → c < 256
      → Returns
          (sync_responder signed env t (counting c))
          (Follows (following_at signed time ctx.send_ssrc (counting c) c))
  unfolding following_at counting time
  follows zero l = answers 0 _ refl refl
  follows (suc zero) l = answers 1 _ refl refl
  follows (suc (suc zero)) l = unfold sync_responder Follows in rw (sync_responder, e, h) refl
  follows (suc (suc (suc n))) l =
      let above : ltb (suc (suc (suc n))) 2 ≡ false = ground arith in
      let other : (suc (suc (suc n)) == 2) ≡ false = ground arith in
      elim (Bool-cases (signed && leb 125 n && ltb n 252)) [
        | inl q ↦
            let negative : (signed && leb 128 (suc (suc (suc n)))) ≡ true = ground (arith, q) in
            let next : (suc (suc (suc n)) + 1) % 256 ≡ n + 4 = ground (arith, q) in
            let not0 : (n + 4 == 0) ≡ false = ground arith in
            let not1 : (n + 4 == 1) ≡ false = ground arith in
            let not2 : (n + 4 == 2) ≡ false = ground arith in
            rw q (
              answers (suc (suc (suc n))) _ other
                (rw (above, negative, next, not0, not1, not2) refl))
        | inr q ↦
            let next : next_count signed (suc (suc (suc n))) ≡ 0 = ground (arith, q, l) in
            rw q (answers (suc (suc (suc n))) _ other (rw next refl))
      ]

sync_command-Fits :
    (s : Sync) → s.ssrc < 2 ^ 32 → SyncFits s → Fits (command_with cmd_sync (sync s))
unfolding Fits FitsData SyncFits
sync_command-Fits s h f = (omega arith, omega arith, (refl, h, f.0, f.1, f.2, f.3))

-- The bytes of a SYNC from the SSRC of a connection, with any count: `net_socket_read` answers a CK0
-- with a CK1 and a CK1 with a CK2, with this side's SSRC, the padding and times that came and the time
-- since the session's start in the new place; it does not answer a CK2. A count of 3 to 127 is answered
-- with a CK0, and so is 255 and, where a `char` has no sign, 128 to 254; where it has a sign, these are
-- answered with the next count and the times that came. The table stays as it is. The numbers fit
-- their widths.
pub read_command-Follows :
    (signed : Bool) (env : Env) (service_name : Option (List ℕ)) (t : DataTable Ctx)
    (ip_address : List ℕ) (port : ℕ) (s : Sync) (k : ℕ) (ctx : Ctx)
    → find_by_ssrc t s.ssrc ≡ some k
    → item_get t k ≡ some ctx
    → ctx.send_ssrc < 2 ^ 32
    → s.ssrc < 2 ^ 32
    → s.count < 256
    → SyncFits s
    → Returns
        (read_command signed env service_name t ip_address port
          (wire (command_with cmd_sync (sync s))))
        (λ r.
          Follows (following_at signed (sub_size env.now ctx.start) ctx.send_ssrc s s.count) r.0
          × (r.2 ≡ t))
unfolding read_command time counting
read_command-Follows signed env service_name t ip_address port s k ctx e h w z c f =
    rw
      (
        read_command,
        (unpack-pack_apple (command_with cmd_sync (sync s)) (sync_command-Fits s z f)).1,
      )
      (Returns->>= (sync_responder signed env t s) _
        (Follows (following_at signed (sub_size env.now ctx.start) ctx.send_ssrc s s.count)) _
        (follows signed env t s k ctx e h w f s.count c) (λ r p. (p, refl)))
