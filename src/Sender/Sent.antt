-- ===== src/Sender/Sent.antt =====
-- A command on its way: what the sender makes of it is what the other side unpacks.
use pimidi.Common.{
  ℕ, ◌+◌, ◌%◌, ◌^◌, ◌<◌, ◌≡◌, refl, sym, ap, subst, ◌∙◌, true, false, Option, none, some, List, [],
  ◌++◌, sub_size, append-nil, arith, length, length-append, ltb,
}
use pimidi.Common.Memory.{Exec, done, fault}
use pimidi.RtpPacket
use pimidi.RtpPacket.RoundTrip.{Fits, header_bytes, unpack_payload}
use pimidi.MidiPayload
use pimidi.MidiPayload.{length_bytes}
use pimidi.MidiPayload.RoundTrip.{with_bytes, pack_lem}
use pimidi.MidiPayload.Sent.{unpack-pack_payload}
use pimidi.Journal.{has_data}
use pimidi.Journal.Pack.{pack_journal}
use pimidi.Connection.{Ctx, Env, increment_seq, update_rtp_fields, send}
use pimidi.Sender.{JournalEntry, plain_header, send_to, build}
use pimidi.Sender.Packet.{build_lem, length_bytes_short}

-- The header that the packet for a connection is to have: version 2, payload type 97, the sequence
-- number after the last one, the time since the session's start, the SSRC for sending.
abbrev pub header_of : Env → Ctx → RtpPacket.Header
header_of env ctx = record {
  v = 2;
  p = 0;
  x = 0;
  cc = 0;
  m = 0;
  pt = 97;
  seq = (ctx.seq + 1) % 2 ^ 16;
  timestamp = sub_size env.now ctx.start % 2 ^ 32;
  ssrc = ctx.send_ssrc;
}

-- The connection that has counted one packet more, in 32 bits.
abbrev pub counted : Ctx → Ctx
counted ctx = record ctx { seq = (ctx.seq + 1) % 2 ^ 32 }

header_of_lem :
    (env : Env) (ctx : Ctx)
    → update_rtp_fields env (increment_seq ctx) plain_header ≡ header_of env ctx
header_of_lem env ctx =
    let number : (ctx.seq + 1) % 2 ^ 32 % 2 ^ 16 ≡ (ctx.seq + 1) % 2 ^ 16 = omega arith in
    ap (λ n. record (header_of env ctx) { seq = n }) number

header_of-Fits : (env : Env) (ctx : Ctx) → ctx.send_ssrc < 2 ^ 32 → Fits (header_of env ctx)
header_of-Fits env ctx h = record {
  v_fits = omega arith;
  p_fits = omega arith;
  x_fits = omega arith;
  cc_fits = omega arith;
  m_fits = omega arith;
  pt_fits = omega arith;
  seq_fits = omega arith;
  timestamp_fits = omega arith;
  ssrc_fits = h;
}

no_journal :
    (ctx : Ctx) → has_data ctx.journal ≡ false → pack_journal ctx.journal ≡ done ([], ctx.journal)
unfolding pack_journal
no_journal ctx e = rw (pack_journal, e) refl

-- The flags of a packet without a journal.
abbrev pub without_journal : MidiPayload.Header → MidiPayload.Header
without_journal h = record h { j = false }

send_to_lem :
    (env : Env) (h : MidiPayload.Header) (bytes : List ℕ) (entry : JournalEntry) (ctx : Ctx)
    (out : List ℕ) (n : ℕ)
    → has_data ctx.journal ≡ false
    → build (header_of env ctx) (with_bytes (without_journal h) bytes).header bytes []
      ≡ done (out, n)
    → send_to env false (with_bytes h bytes) entry ctx
      ≡ done (send (counted ctx) out n false, counted ctx)
unfolding send_to
send_to_lem env h bytes entry ctx out n e b =
    rw (send_to, no_journal ctx e, header_of_lem env ctx, b) refl

abbrev packed_or : List ℕ → Exec (Option (List ℕ) × ℕ) → List ℕ
packed_or d (done (some bytes, n)) = bytes
packed_or d (done (none, n)) = d
packed_or d fault = d

-- What `midi_payload_pack` gives, and what `midi_payload_unpack` makes of it.
abbrev packed_bytes : MidiPayload.Header → List ℕ → List ℕ
packed_bytes h bytes = length_bytes (with_bytes h bytes).header ++ bytes

payload_read :
    (h : MidiPayload.Header) (bytes : List ℕ)
    → h.b ≡ ltb 15 (length bytes)
    → length bytes < 4096
    → MidiPayload.unpack true (packed_bytes h bytes) (length (packed_bytes h bytes))
      ≡ done (some (with_bytes h bytes))
payload_read h bytes e l =
    let given = unpack-pack_payload h bytes e l in
    let same : given.0 ≡ packed_bytes h bytes =
      ap (λ m. packed_or [] m) (sym given.1 ∙ pack_lem h bytes) in
    subst (λ p. MidiPayload.unpack true p (length p) ≡ done (some (with_bytes h bytes))) same
      given.2

-- For a connection without a journal, and with the journal off, the sender hands on a packet that the
-- other side unpacks: `rtp_packet_unpack` gives version 2, payload type 97, the connection's SSRC for
-- sending, one more than the connection's last sequence number, in 16 bits, and the time since the
-- connection's start, in 32 bits, and `midi_payload_unpack` of the rest gives the payload's flags, with
-- J unset, and its bytes. The connection's sequence number is one more than before, in 32 bits. The flag
-- B is set exactly for a length above 15, the length is below 4096, and the SSRC for sending has 32 bits.
pub send_to-received :
    (env : Env) (h : MidiPayload.Header) (bytes : List ℕ) (entry : JournalEntry) (ctx : Ctx)
    → has_data ctx.journal ≡ false
    → ctx.send_ssrc < 2 ^ 32
    → h.b ≡ ltb 15 (length bytes)
    → length bytes < 4096
    → (packet payload : List ℕ) × (send_to env false (with_bytes h bytes) entry ctx
        ≡ done (send (counted ctx) packet (12 + length payload) false, counted ctx))
      × (RtpPacket.unpack packet (12 + length payload)
          ≡ done (record {
            header = header_of env ctx;
            payload_len = length payload;
            payload = payload;
          }))
      × (MidiPayload.unpack true payload (length payload)
          ≡ done (some (with_bytes (without_journal h) bytes)))
send_to-received env h bytes entry ctx e w b l =
    let plain = without_journal h in
    let payload = packed_bytes plain bytes in
    let built =
      build_lem (header_of env ctx) plain bytes [] (omega arith)
      ∙ ap (λ p. done (header_bytes (header_of env ctx) ++ p, 12 + length p))
          (append-nil payload) in
    (
      header_bytes (header_of env ctx) ++ payload,
      payload,
      send_to_lem env h bytes entry ctx (header_bytes (header_of env ctx) ++ payload)
          (12 + length payload) e built,
      unpack_payload (header_of env ctx) payload (header_of-Fits env ctx w) (
          omega (
            arith,
            l,
            length-append (length_bytes (with_bytes plain bytes).header) bytes,
            length_bytes_short (with_bytes plain bytes).header,
          )),
      payload_read plain bytes b l,
    )
