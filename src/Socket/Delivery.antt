-- ===== src/Socket/Delivery.antt =====
-- From the sender of one side to the commands of the other.
use pimidi.Common.{ℕ, ◌+◌, ◌^◌, ◌<◌, ◌≡◌, refl, true, false, some, List, length, ltb}
use pimidi.Common.Memory.{done, Returns}
use pimidi.MidiState.{MidiState}
use pimidi.MidiState.Refine.{view}
use pimidi.MidiState.Parser
use pimidi.MidiPayload
use pimidi.MidiPayload.RoundTrip.{with_bytes}
use pimidi.DataTable.{DataTable, item_get}
use pimidi.Journal.{has_data}
use pimidi.Connection.{Ctx, Env, find_by_ssrc, increment_seq, send}
use pimidi.Sender.{JournalEntry, send_to}
use pimidi.Sender.Sent.{header_of, without_journal, send_to-received}
use pimidi.Socket.{read_rtp}
use pimidi.Socket.Inbound.{CanTake, Delivered, inbound-Answers, read_rtp-Delivered}

-- The packet that the sender hands on for a connection without a journal, with the journal off, is
-- read by `net_socket_read` of the other side, behind the drain of its socket: the commands are
-- those of the parser over the payload's bytes, from the state of the connection that is found by
-- the packet's SSRC; they come with this SSRC, and the reply is unpacked to the FEEDBACK for the
-- packet. The state has an empty ring with room for the bytes, room in its hold buffer, and no whole
-- command that waits; there is one byte at least and fewer than 4096, the flag B is set exactly for
-- more than 15, and the SSRC for sending has 32 bits.
pub read_rtp-send_to :
    (env : Env) (h : MidiPayload.Header) (bytes : List ℕ) (entry : JournalEntry) (ctx : Ctx)
    (state : MidiState) (t : DataTable Ctx) (k : ℕ) (peer : Ctx) (s : MidiState)
    → has_data ctx.journal ≡ false
    → ctx.send_ssrc < 2 ^ 32
    → h.b ≡ ltb 15 (length bytes)
    → length bytes < 4096
    → 0 < length bytes
    → find_by_ssrc t ctx.send_ssrc ≡ some k
    → item_get t k ≡ some peer
    → peer.midi_state ≡ some s
    → CanTake s (length bytes)
    → (packet : List ℕ) × (n : ℕ) × (send_to env false (with_bytes h bytes) entry ctx
        ≡ done (send (increment_seq ctx) packet n false, increment_seq ctx))
      × Returns
          (read_rtp state t (some packet) n)
          (Delivered (header_of env ctx) (Parser.run true h.z (view s) bytes).1)
read_rtp-send_to env h bytes entry ctx state t k peer s e w b l pos f g m c =
    let sent = send_to-received env h bytes entry ctx e w b l in
    (
      sent.0,
      12 + length sent.1,
      sent.2,
      read_rtp-Delivered state t sent.0 (12 + length sent.1) _ k peer (without_journal h) bytes s
          sent.3 refl sent.4 f g
          (inbound-Answers peer (header_of env ctx) (without_journal h) bytes s m c pos w),
    )
