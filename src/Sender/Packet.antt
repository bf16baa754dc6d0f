-- ===== src/Sender/Packet.antt =====
-- The packet that the sender builds in one block is the one that the packers make one after the other.
use pimidi.Common.{
  ℕ, suc, ◌+◌, ◌/◌, ◌%◌, ◌^◌, ◌≤◌, ◌<◌, ◌≡◌, refl, sym, ap, ◌∙◌, inl, inr, true, some, List, [],
  ◌∷◌, ◌++◌, append_assoc, arith, length, length-append, ltb, leb, set, replicate, add_size, IsSize,
  bit_and, bit_or, Bool-cases,
}
use pimidi.Common.Memory.{Exec, done, store, memcpy, memcpy-done, blit, ◌>>=◌}
use pimidi.Common.Memory.Blit.{memcpy-insert, memcpy-append, replicate-add}
use pimidi.Bytes.{network16, network32, put_uint16, put_uint32}
use pimidi.RtpPacket
use pimidi.RtpPacket.{temp_header}
use pimidi.RtpPacket.RoundTrip.{header_bytes, pack_payload}
use pimidi.MidiPayload.{length_bytes, flag_bits}
use pimidi.MidiPayload
use pimidi.MidiPayload.RoundTrip.{with_bytes, pack_lem, length-length_bytes}
use pimidi.Sender.{build, put_length, put_journal}

store-done : (b : List ℕ) (i v : ℕ) → i < length b → store b i v ≡ done (set b i v)
store-done b i v h = let e : ltb i (length b) ≡ true = ground arith in rw e refl

-- The flags and the length behind the header.
put_length_lem :
    (header : RtpPacket.Header) (h : MidiPayload.Header) (rest : List ℕ)
    → put_length (header_bytes header ++ (replicate (length (length_bytes h)) 0 ++ rest)) 12 12 h
      ≡ done (
        header_bytes header ++ (length_bytes h ++ rest),
        12 + length (length_bytes h),
        12 + length (length_bytes h),
      )
put_length_lem header h rest = elim (Bool-cases (leb h.len 15)) [
  | inl e ↦
      let b = header_bytes header ++ (0 ∷ rest) in
      rw (e, store-done b 12 (bit_or (flag_bits h) (bit_and h.len 0x0f)) (omega arith)) refl
  | inr e ↦
      let v = bit_or (flag_bits h) (bit_and h.len 0x0f00 / 2 ^ 8) % 2 ^ 8 in
      let b = header_bytes header ++ (0 ∷ 0 ∷ rest) in
      let b1 = header_bytes header ++ (v ∷ 0 ∷ rest) in
      rw (e, store-done b 12 v (omega arith), store-done b1 13 (bit_and h.len 0x00ff) (omega arith))
        refl
]

put_journal_lem :
    (pre journal : List ℕ) (p len : ℕ)
    → p ≡ length pre
    → IsSize (len + length journal)
    → put_journal (pre ++ replicate (length journal) 0) p len journal
      ≡ done (pre ++ journal, len + length journal)
put_journal_lem pre [] p len e s =
    let same : len ≡ len + 0 = omega arith in ap (λ k. done (pre ++ [], k)) same
put_journal_lem pre (b ∷ bs) p len e s =
    let some_bytes : ltb 0 (suc (length bs)) ≡ true = ground arith in
    let size : add_size len (suc (length bs)) ≡ len + suc (length bs) = omega arith in
    rw (e, some_bytes, memcpy-append pre (b ∷ bs), size) refl

-- The block, cut where the parts of the packet meet.
cut_block :
    (k n j : ℕ)
    → replicate {A = ℕ} (12 + (k + n) + j) 0
      ≡ replicate 12 0 ++ (replicate k 0 ++ (replicate n 0 ++ replicate j 0))
cut_block k n j =
    ap (λ m. replicate {A = ℕ} m 0) sum
    ∙ replicate-add 12 (k + (n + j))
    ∙ ap (λ t. replicate 12 0 ++ t)
        (replicate-add k (n + j) ∙ ap (λ t. replicate k 0 ++ t) (replicate-add n j))
  where
    sum : 12 + (k + n) + j ≡ 12 + (k + (n + j))
    sum = omega arith

-- The header in front of what follows it.
abbrev with_header : {B : Type 0} → RtpPacket.Header → List ℕ → (List ℕ → ℕ → ℕ → Exec B) → Exec B
with_header header block f = do
  (b1, p1, n1) ← put_uint16 block 0 (temp_header header) 0
  (b2, p2, n2) ← put_uint16 b1 p1 header.seq n1
  (b3, p3, n3) ← put_uint32 b2 p2 header.timestamp n2
  (b4, p4, n4) ← put_uint32 b3 p3 header.ssrc n3
  f b4 p4 n4

put_header_lem :
    {B : Type 0} (header : RtpPacket.Header) (rest : List ℕ) (f : List ℕ → ℕ → ℕ → Exec B)
    → with_header header (replicate 12 0 ++ rest) f ≡ f (header_bytes header ++ rest) 12 12
unfolding put_uint16 put_uint32 blit
put_header_lem header rest f =
    let h1 = network16 (temp_header header) in
    let h2 = network16 header.seq in
    let h3 = network32 header.timestamp in
    let b1 = h1 ++ (replicate 10 0 ++ rest) in
    let b2 = h1 ++ (h2 ++ (replicate 8 0 ++ rest)) in
    let b3 = h1 ++ (h2 ++ (h3 ++ (replicate 4 0 ++ rest))) in
    rw
      (
        memcpy-done (replicate 12 0 ++ rest) 0 h1 0 2 (omega arith) (omega arith),
        memcpy-done b1 2 h2 0 2 (omega arith) (omega arith),
        memcpy-done b2 4 h3 0 4 (omega arith) (omega arith),
        memcpy-done b3 8 (network32 header.ssrc) 0 4 (omega arith) (omega arith),
      )
      refl

-- Payload and journal behind the header.
abbrev put_rest : MidiPayload.Header → List ℕ → List ℕ → List ℕ → ℕ → ℕ → Exec (List ℕ × ℕ)
put_rest h bytes journal b4 p4 n4 = do
  (b5, p5, n5) ← put_length b4 p4 n4 h
  b6 ← memcpy b5 p5 bytes 0 h.len
  put_journal b6 (p5 + h.len) (add_size n5 h.len) journal

pub length_bytes_short : (h : MidiPayload.Header) → length (length_bytes h) ≤ 2
length_bytes_short h = elim (Bool-cases (leb h.len 15)) [
  | inl e ↦ rw e (omega arith)
  | inr e ↦ rw e (omega arith)
]

-- The header of a payload with these bytes.
abbrev header_for : MidiPayload.Header → List ℕ → MidiPayload.Header
header_for h bytes = (with_bytes h bytes).header

module _ (header : RtpPacket.Header) (h : MidiPayload.Header) (bytes journal : List ℕ)
    (s : IsSize (14 + length bytes + length journal)) where
  abbrev lengths : List ℕ
  lengths = length_bytes (header_for h bytes)

  abbrev pre : List ℕ
  pre = header_bytes header ++ lengths

  length-pre : 12 + length lengths ≡ length pre
  length-pre = omega arith

  copied :
      memcpy
        (header_bytes header
          ++ (lengths ++ (replicate (length bytes) 0 ++ replicate (length journal) 0)))
        (12 + length lengths)
        bytes
        0
        (length bytes)
      ≡ done ((pre ++ bytes) ++ replicate (length journal) 0)
  copied =
      ap
        (λ p.
          memcpy (pre ++ (replicate (length bytes) 0 ++ replicate (length journal) 0)) p bytes 0
            (length bytes))
        length-pre
      ∙ memcpy-insert pre bytes (length journal)
      ∙ ap (λ b. done b) (sym (append_assoc pre bytes (replicate (length journal) 0)))

  size : add_size (12 + length lengths) (length bytes) ≡ 12 + length lengths + length bytes
  size = omega (arith, s, length_bytes_short (header_for h bytes))

  put_rest_lem :
      put_rest
        (header_for h bytes)
        bytes
        journal
        (header_bytes header
          ++ (replicate (length lengths) 0
              ++ (replicate (length bytes) 0 ++ replicate (length journal) 0)))
        12
        12
      ≡ done ((pre ++ bytes) ++ journal, 12 + length lengths + length bytes + length journal)
  put_rest_lem =
      rw
        (
          put_length_lem header (header_for h bytes)
              (replicate (length bytes) 0 ++ replicate (length journal) 0),
          copied,
          size,
        )
        (put_journal_lem (pre ++ bytes) journal (12 + length lengths + length bytes)
          (12 + length lengths + length bytes) (omega (arith, length-append pre bytes))
          (omega (arith, s, length_bytes_short (header_for h bytes))))

  number :
      12 + length lengths + length bytes + length journal
      ≡ 12 + length ((lengths ++ bytes) ++ journal)
  number = omega (arith, length-append (lengths ++ bytes) journal, length-append lengths bytes)

  pub build_lem :
      build header (header_for h bytes) bytes journal
      ≡ done (
        header_bytes header ++ ((lengths ++ bytes) ++ journal),
        12 + length ((lengths ++ bytes) ++ journal),
      )
  unfolding build
  build_lem =
      ap
        (λ n.
          with_header header (replicate (12 + n + length journal) 0)
            (put_rest (header_for h bytes) bytes journal))
        (length-length_bytes (header_for h bytes))
      ∙ ap (λ b. with_header header b (put_rest (header_for h bytes) bytes journal))
          (cut_block (length lengths) (length bytes) (length journal))
      ∙ put_header_lem header
          (replicate (length lengths) 0
            ++ (replicate (length bytes) 0 ++ replicate (length journal) 0))
          (put_rest (header_for h bytes) bytes journal)
      ∙ put_rest_lem
      ∙ ap (λ n. done ((pre ++ bytes) ++ journal, n)) number

-- The packet that the sender builds is byte for byte the one that `midi_payload_pack` and
-- `rtp_packet_pack` give: the packed payload with the journal behind it, packed behind the same
-- header. The length of the payload is that of its bytes, and the whole is below 2^63 bytes.
pub build-pack :
    (header : RtpPacket.Header) (h : MidiPayload.Header) (bytes journal : List ℕ)
    → IsSize (14 + length bytes + length journal)
    → (payload out : List ℕ) × (MidiPayload.pack true (with_bytes h bytes)
        ≡ done (some payload, length payload))
      × (RtpPacket.pack true (record {
        header = header;
        payload_len = length (payload ++ journal);
        payload = payload ++ journal;
      })
          ≡ done (0, out, 12 + length (payload ++ journal)))
      × (build header (with_bytes h bytes).header bytes journal
          ≡ done (out, 12 + length (payload ++ journal)))
build-pack header h bytes journal s =
    let head = length_bytes (header_for h bytes) in
    (
      head ++ bytes,
      header_bytes header ++ ((head ++ bytes) ++ journal),
      pack_lem h bytes ∙ ap (λ n. done (some (head ++ bytes), n)) (sym (length-append head bytes)),
      pack_payload header ((head ++ bytes) ++ journal) (
          omega (
            arith,
            s,
            length_bytes_short (header_for h bytes),
            length-append (head ++ bytes) journal,
            length-append head bytes,
          )),
      build_lem header h bytes journal s,
    )
