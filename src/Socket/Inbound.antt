-- ===== src/Socket/Inbound.antt =====
-- `net_socket_read` on RTP MIDI: the payload goes through the state of its connection.
use pimidi.Common.{
  ℕ, ◌+◌, ◌*◌, ◌^◌, ◌≤◌, ◌<◌, ◌≡◌, refl, sym, ap, subst, ◌∙◌, Bool, true, false, Option, none, some,
  List, [], arith, length, take, take_all, length-tabulate_from, leb, ◌==◌,
}
use pimidi.Common.Memory.{done, Returns, Returns->>=, Returns-weaken, ◌>>=◌}
use pimidi.RingBuffer
use pimidi.RingBuffer.Inv
use pimidi.RingBuffer.Write
use pimidi.RingBuffer.Fifo
use pimidi.MidiCommand.{Command}
use pimidi.MidiState.{MidiState, is_received}
use pimidi.MidiState
use pimidi.MidiState.Refine.{view, HasRoom}
use pimidi.MidiState.Parser
use pimidi.MidiState.Send.{send_refines}
use pimidi.RtpPacket
use pimidi.RtpPacket.{Packet}
use pimidi.MidiPayload
use pimidi.MidiPayload.RoundTrip.{with_bytes}
use pimidi.DataTable.{DataTable, item_get}
use pimidi.Connection.{Ctx, find_by_ssrc}
use pimidi.AppleMidi.{AppleCommand, feedback, unpack, cmd_feedback, ok}
use pimidi.AppleMidi.Wire.{Fits, FitsData, wire}
use pimidi.AppleMidi.Packed.{Holds}
use pimidi.AppleMidi.RoundTrip.{unpack-pack_apple}
use pimidi.Responder.{Response, feedback_create, command_with}
use pimidi.Responder.Answers.{Says, acknowledgement}
use pimidi.Socket.{write_state, send_state, packed_response, inbound, read_rtp, Outcome}

-- A state that takes `n` bytes: its ring is empty and large enough.
pub record CanTake (s : MidiState) (n : ℕ) : Type 0 where
  pub ring_valid : Inv.IsValid s.ring
  pub empty : Inv.contents s.ring ≡ []
  pub fits : n ≤ s.ring.size
  pub room : HasRoom s.hold (2 * n)
  pub waits : is_received s.status ≡ false

-- What the state is when `bytes` are in its ring.
Loaded : MidiState → List ℕ → MidiState → Type 0
Loaded s bytes out =
    (view out ≡ view s)
    × (out.hold ≡ s.hold)
    × (out.status ≡ s.status)
    × (Inv.contents out.ring ≡ bytes)
    × Inv.IsValid out.ring

write_eq :
    (s : MidiState) (bytes : List ℕ)
    → 0 < length bytes
    → MidiState.write s bytes (length bytes) ≡ (
        RingBuffer.write s.ring bytes (length bytes) >>= λ (n, ring).
        done (1, record s { ring = ring }))
unfolding MidiState.write
write_eq s bytes h =
    let some_bytes : (length bytes == 0) ≡ false = ground arith in
    rw (MidiState.write, some_bytes) refl

write-Loaded :
    (s : MidiState) (bytes : List ℕ)
    → CanTake s (length bytes)
    → 0 < length bytes
    → Returns (MidiState.write s bytes (length bytes)) (λ out. Loaded s bytes out.1)
unfolding Loaded Fifo.write
write-Loaded s bytes c h =
    let stored : Fifo.write s.ring.size [] (take (length bytes) bytes) ≡ (length bytes, bytes) =
      let room : leb (0 + length bytes) s.ring.size ≡ true = ground (arith, c.fits) in
      rw (take_all bytes, room) refl in
    rw (write_eq s bytes h) (
      Returns->>= (RingBuffer.write s.ring bytes (length bytes)) _ _ _
        (Write.write_refines s.ring bytes (length bytes) c.ring_valid (omega arith) (omega arith))
        λ out w. (
          refl,
          refl,
          refl,
          ap (λ z. z.1)
              (w.0
                ∙ ap (λ q. Fifo.write s.ring.size q (take (length bytes) bytes)) c.empty
                ∙ stored),
          w.1,
        ))

-- The commands of a payload, and the state they leave.
Parsed : Bool → MidiState → List ℕ → Option MidiState × List Command → Type 0
Parsed z_flag s bytes out =
    (s' : MidiState) × (out.0 ≡ some s')
    × ((view s', out.1) ≡ Parser.run true z_flag (view s) bytes)
    × (Inv.contents s'.ring ≡ [])

loaded_room :
    (s loaded : MidiState) (bytes : List ℕ)
    → CanTake s (length bytes)
    → Loaded s bytes loaded
    → HasRoom loaded.hold (2 * loaded.ring.used)
unfolding Loaded
loaded_room s loaded bytes c l =
    let used : length bytes ≡ loaded.ring.used =
      sym (ap (λ b. length b) l.3)
      ∙ length-tabulate_from loaded.ring.used (Inv.peek loaded.ring) 0 in
    subst (λ d. HasRoom d (2 * loaded.ring.used)) (sym l.1)
      (subst (λ n. HasRoom s.hold (2 * n)) used c.room)

send-Parsed :
    (z_flag : Bool) (s loaded : MidiState) (bytes : List ℕ)
    → CanTake s (length bytes)
    → Loaded s bytes loaded
    → Returns (send_state (some loaded) z_flag) (Parsed z_flag s bytes)
unfolding Loaded Parsed
send-Parsed z_flag s loaded bytes c l =
    Returns->>= (MidiState.send true z_flag loaded) _ _ _
      (send_refines true z_flag loaded l.4 (loaded_room s loaded bytes c l)
        (ap (λ m. is_received m) l.2 ∙ c.waits))
      λ out w. (
        out.0,
        refl,
        w.0
            ∙ ap (λ v. Parser.run true z_flag v (Inv.contents loaded.ring)) l.0
            ∙ ap (λ b. Parser.run true z_flag (view s) b) l.3,
        w.1,
      )

-- The FEEDBACK for a packet.
abbrev answer_to : RtpPacket.Header → AppleCommand
answer_to header = command_with cmd_feedback (feedback (acknowledgement header.ssrc header.seq))

packed-Says :
    (c : AppleCommand) (r : ℕ × Option (List ℕ) × ℕ)
    → unpack true true (some (wire c)) (length (wire c)) ≡ done (ok, some c)
    → Holds (wire c) r
    → Says c (some (packed_response r.1 r.2))
unfolding Says Holds
packed-Says c (ret, none, len) e h = absurd h
packed-Says c (ret, some bytes, len) e (h, n, t) = rw (n, t) e

feedback_create-Says :
    (header : RtpPacket.Header)
    → header.ssrc < 2 ^ 32
    → Returns
        (feedback_create header.ssrc header.seq)
        (λ r. Says (answer_to header) (some (packed_response r.1 r.2)))
unfolding feedback_create Fits FitsData
feedback_create-Says header w =
    let both =
      unpack-pack_apple (answer_to header) (omega arith, omega arith, (refl, w, omega arith)) in
    Returns-weaken (feedback_create header.ssrc header.seq) (Holds (wire (answer_to header))) _
      both.0 (λ r k. packed-Says (answer_to header) r both.1 k)

-- The FEEDBACK and the commands for a payload.
pub Answers : RtpPacket.Header → List Command → Response × List Command × Ctx → Type 0
Answers header cs out = Says (answer_to header) (some out.0) × (out.1 ≡ cs)

pub inbound-Answers :
    (ctx : Ctx) (header : RtpPacket.Header) (h : MidiPayload.Header) (bytes : List ℕ)
    (s : MidiState)
    → ctx.midi_state ≡ some s
    → CanTake s (length bytes)
    → 0 < length bytes
    → header.ssrc < 2 ^ 32
    → Returns
        (inbound ctx header (some (with_bytes h bytes)))
        (Answers header (Parser.run true h.z (view s) bytes).1)
unfolding inbound Answers Parsed
inbound-Answers ctx header h bytes s e c l w =
    rw (inbound, e)
      (Returns->>= (write_state (some s) (some bytes) (length bytes)) _ _ _
        (Returns->>= (MidiState.write s bytes (length bytes)) _ _
          (λ o. (loaded : MidiState) × (o ≡ some loaded) × Loaded s bytes loaded)
          (write-Loaded s bytes c l) (λ out k. (out.1, refl, k)))
        λ o k.
          Returns->>= (feedback_create header.ssrc header.seq) _ _ _ (feedback_create-Says header w)
            λ r says.
              Returns->>= (send_state o h.z) _ (Parsed h.z s bytes) _
                (subst (λ m. Returns (send_state m h.z) (Parsed h.z s bytes)) (sym k.1)
                  (send-Parsed h.z s k.0 bytes c k.2))
                λ out p. (says, ap (λ z. z.1) p.2))

-- What the sender's packet leaves at the other side.
unfoldable pub Delivered : RtpPacket.Header → List Command → Outcome → Type 0
Delivered header cs out =
    Says (answer_to header) out.reply × (out.commands ≡ cs) × (out.originator ≡ header.ssrc)

-- A packet of RTP version 2 from the SSRC of a connection goes to that connection.
pub read_rtp-Delivered :
    (state : MidiState) (t : DataTable Ctx) (packet : List ℕ) (n : ℕ) (p : Packet) (k : ℕ)
    (ctx : Ctx) (h : MidiPayload.Header) (bytes : List ℕ) (s : MidiState)
    → RtpPacket.unpack packet n ≡ done p
    → p.header.v ≡ 2
    → MidiPayload.unpack true p.payload p.payload_len ≡ done (some (with_bytes h bytes))
    → find_by_ssrc t p.header.ssrc ≡ some k
    → item_get t k ≡ some ctx
    → Returns
        (inbound ctx p.header (some (with_bytes h bytes)))
        (Answers p.header (Parser.run true h.z (view s) bytes).1)
    → Returns
        (read_rtp state t (some packet) n)
        (Delivered p.header (Parser.run true h.z (view s) bytes).1)
unfolding read_rtp Delivered Answers
read_rtp-Delivered state t packet n p k ctx h bytes s e v m f g a =
    rw (read_rtp, e, v, m, f, g)
      (Returns->>= (inbound ctx p.header (some (with_bytes h bytes))) _ _ _ a
        λ out w. (w.0, w.1, refl))
