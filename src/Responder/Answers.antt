-- ===== src/Responder/Answers.antt =====
-- What the answers say, as `net_applemidi_unpack` on the other side reads them.
use pimidi.Common.{
  ℕ, ◌*◌, ◌/◌, ◌%◌, ◌^◌, ◌≤◌, ◌<◌, ◌≡◌, refl, Bool, true, false, Option, none, some, List, arith,
  length, take, leb, ◌==◌, if◌then◌else◌, sub_size,
}
use pimidi.Common.Memory.{Returns, Returns->>=, done}
use pimidi.DataTable.{DataTable, item_get, change}
use pimidi.AppleMidi.{
  Inv, Sync, Feedback, AppleCommand, inv, sync, feedback, pack, unpack, cmd_sync, cmd_accept,
  cmd_feedback, ok,
}
use pimidi.AppleMidi.Wire.{Fits, FitsData, wire}
use pimidi.AppleMidi.Packed.{Holds}
use pimidi.AppleMidi.RoundTrip.{unpack-pack_apple}
use pimidi.Connection.{Ctx, Env, find_by_ssrc, journal_reset}
use pimidi.Responder.{
  Response, pack_response, command_with, sync_answer, in_response, next_count, name_or,
  default_service_name, feedback_create, feedback_responder, rtp_seq_1,
}

-- The response is there, and its first `len` bytes are unpacked to the command.
unfoldable pub Says : AppleCommand → Option Response → Type 0
Says c none = ⊥
Says c (some r) = unpack true true (some (take r.len r.buffer)) r.len ≡ done (ok, some c)

in_response-Says :
    (c : AppleCommand) (r : ℕ × Option (List ℕ) × ℕ)
    → unpack true true (some (wire c)) (length (wire c)) ≡ done (ok, some c)
    → Holds (wire c) r
    → Says c (in_response r)
unfolding Says Holds
in_response-Says c (ret, none, len) e h = absurd h
in_response-Says c (ret, some bytes, len) e (h, n, t) = rw (h, n, t) e

pub pack_response-Says : (c : AppleCommand) → Fits c → Returns (pack_response c) (Says c)
unfolding pack_response
pack_response-Says c f =
    let both = unpack-pack_apple c f in
    Returns->>= (pack true true true (some c)) _ (Holds (wire c)) (Says c) both.0
      (λ r h. in_response-Says c r both.1 h)

-- The numbers of a SYNC fit their widths.
unfoldable pub SyncFits : Sync → Type 0
SyncFits s =
    (length s.padding ≡ 3)
    × (s.timestamp1 < 2 ^ 64)
    × (s.timestamp2 < 2 ^ 64)
    × (s.timestamp3 < 2 ^ 64)

pick_fits : (b : Bool) (x y : ℕ) → x < 2 ^ 64 → y < 2 ^ 64 → (if b then x else y) < 2 ^ 64
pick_fits true x y h k = h
pick_fits false x y h k = k

pub sync_answer-Fits :
    (signed : Bool) (env : Env) (ctx : Ctx) (s : Sync)
    → ctx.send_ssrc < 2 ^ 32
    → SyncFits s
    → Fits (command_with cmd_sync (sync (sync_answer signed env ctx s)))
unfolding Fits FitsData SyncFits
sync_answer-Fits signed env ctx s h (p, f1, f2, f3) = (
  omega arith,
  omega arith,
  (
    refl,
    h,
    p,
    pick_fits (next_count signed s.count == 0) local s.timestamp1 (omega arith) f1,
    pick_fits (next_count signed s.count == 1) local s.timestamp2 (omega arith) f2,
    pick_fits (next_count signed s.count == 2) local s.timestamp3 (omega arith) f3,
  ),
)
  where
    local : ℕ
    local = sub_size env.now ctx.start

-- The acceptance of an invitation from a host that has no connection yet.
abbrev pub first_accept : Env → Option (List ℕ) → Inv → AppleCommand
first_accept env service_name i = command_with cmd_accept (
    inv (record {
      ssrc = env.random 0 % 2 ^ 32;
      version = 2;
      initiator = i.initiator;
      name = some (name_or service_name default_service_name);
    }))

-- A FEEDBACK that acknowledges `rtp_seq`, as `applemidi_feedback_create` packs it.
abbrev pub acknowledgement : ℕ → ℕ → Feedback
acknowledgement ssrc rtp_seq = record { ssrc = ssrc; apple_seq = rtp_seq % 2 ^ 16 * 2 ^ 16 }

-- `applemidi_feedback_create` gives bytes that are unpacked to a FEEDBACK, for which
-- `applemidi_feedback_responder` resets the journal of its connection, if the connection's sequence
-- number is not above the one acknowledged. The SSRC has 32 bits and the number 16.
feedback_create-resets :
    (t : DataTable Ctx) (ssrc rtp_seq k : ℕ) (ctx : Ctx)
    → find_by_ssrc t ssrc ≡ some k
    → item_get t k ≡ some ctx
    → ssrc < 2 ^ 32
    → rtp_seq < 2 ^ 16
    → ctx.seq ≤ rtp_seq
    → Returns
        (feedback_create ssrc rtp_seq)
        (Holds (wire (command_with cmd_feedback (feedback (acknowledgement ssrc rtp_seq)))))
      × (unpack true true
            (some (wire (command_with cmd_feedback (feedback (acknowledgement ssrc rtp_seq)))))
            12
          ≡ done (ok, some (command_with cmd_feedback (feedback (acknowledgement ssrc rtp_seq)))))
      × (feedback_responder t (acknowledgement ssrc rtp_seq) ≡ done (change t k journal_reset))
unfolding feedback_create feedback_responder Fits FitsData
feedback_create-resets t ssrc rtp_seq k ctx e h w r l =
    let f = acknowledgement ssrc rtp_seq in
    let both =
      unpack-pack_apple (command_with cmd_feedback (feedback f))
        (omega arith, omega arith, (refl, w, omega arith)) in
    let covered : leb ctx.seq (rtp_seq % 2 ^ 16 * 2 ^ 16 / 2 ^ 16) ≡ true = ground arith in
    (both.0, both.1, rw (feedback_responder, e, h, covered) refl)

-- From a sequence number of 65536 on, no FEEDBACK makes `applemidi_feedback_responder` reset the
-- journal of the connection: the table stays as it is.
feedback_responder_late :
    (t : DataTable Ctx) (f : Feedback) (k : ℕ) (ctx : Ctx)
    → find_by_ssrc t f.ssrc ≡ some k
    → item_get t k ≡ some ctx
    → f.apple_seq < 2 ^ 32
    → 2 ^ 16 ≤ ctx.seq
    → feedback_responder t f ≡ done t
unfolding feedback_responder
feedback_responder_late t f k ctx e h w l =
    let above : leb ctx.seq (rtp_seq_1 f) ≡ false = ground arith in
    rw (feedback_responder, e, h, above) refl
