-- ===== src/Socket/Short.antt =====
-- `net_socket_read` on an RTP packet without a payload.
use pimidi.Common.{ℕ, ◌≡◌, refl, true, some, none, [], ◌++◌, arith}
use pimidi.Common.Memory.{done, fault}
use pimidi.RtpPacket
use pimidi.RtpPacket.RoundTrip.{Fits, header_bytes, unpack_payload}
use pimidi.MidiPayload
use pimidi.MidiState.{MidiState}
use pimidi.DataTable.{DataTable, item_get}
use pimidi.Connection.{Ctx, find_by_ssrc}
use pimidi.Socket.{read_rtp, inbound}

no_payload : MidiPayload.unpack true [] 0 ≡ done none
unfolding MidiPayload.unpack
no_payload = refl

-- `net_socket_read` of a packet of RTP version 2 from the SSRC of a connection that is a header of
-- 12 bytes and nothing more, behind the drain of its socket, runs into undefined behaviour: the
-- payload that it reads is NULL. The fields of the header fit their widths.
pub read_rtp_empty :
    (state : MidiState) (t : DataTable Ctx) (header : RtpPacket.Header) (k : ℕ) (ctx : Ctx)
    → Fits header
    → header.v ≡ 2
    → find_by_ssrc t header.ssrc ≡ some k
    → item_get t k ≡ some ctx
    → read_rtp state t (some (header_bytes header ++ [])) 12 ≡ fault
unfolding read_rtp inbound
read_rtp_empty state t header k ctx w v f g =
    rw (read_rtp, unpack_payload header [] w (omega arith), v, no_payload, f, g) refl
