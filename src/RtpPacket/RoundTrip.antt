-- ===== src/RtpPacket/RoundTrip.antt =====
-- A packet that is packed is unpacked to itself.
use pimidi.Common.{
  ℕ, suc, add_size, sub_size, ◌+◌, ◌*◌, ◌/◌, ◌%◌, ◌^◌, ◌<◌, ◌≡◌, refl, ap, ap₂, ◌∙◌, true, List, [],
  ◌∷◌, ◌++◌, IsSize, bit_and, bit_or, arith, length, ltb,
}
use pimidi.Common.Bits.{zero-bit_or, bit_or-add, bit_and-0x0f, bit_and-0x7f, bit_and-0x80}
use pimidi.Common.Memory.{done, blit, memcpy-done}
use pimidi.Common.Memory.Blit.{memcpy-append, memcpy-suffix}
use pimidi.Bytes.{network16, network32, big_endian, put_uint16, put_uint32, get_uint16, get_uint32}
use pimidi.Bytes.Laws.{big_endian-network16, big_endian-network32}
use pimidi.RtpPacket.{Header, pack, unpack, temp_header, split_header, get_payload}

-- Every field fits its width.
pub record Fits (h : Header) : Type 0 where
  pub v_fits : h.v < 4
  pub p_fits : h.p < 2
  pub x_fits : h.x < 2
  pub cc_fits : h.cc < 16
  pub m_fits : h.m < 2
  pub pt_fits : h.pt < 128
  pub seq_fits : h.seq < 2 ^ 16
  pub timestamp_fits : h.timestamp < 2 ^ 32
  pub ssrc_fits : h.ssrc < 2 ^ 32

abbrev sum_header : Header → ℕ
sum_header h = h.v * 2 ^ 14 + h.p * 2 ^ 13 + h.x * 2 ^ 12 + h.cc * 2 ^ 8 + h.m * 2 ^ 7 + h.pt

-- The fields of the first 16 bits do not overlap.
temp_header_sum : (h : Header) → Fits h → temp_header h ≡ sum_header h
temp_header_sum h f = rw (e1, e2, e3, e4, e5) e6
  where
    e1 : bit_or 0 (h.v * 2 ^ 6 * 2 ^ 8) % 2 ^ 16 ≡ h.v * 2 ^ 14
    e1 = omega (arith, f, zero-bit_or (h.v * 2 ^ 6 * 2 ^ 8))

    e2 : bit_or (h.v * 2 ^ 14) (h.p * 2 ^ 5 * 2 ^ 8) % 2 ^ 16 ≡ (h.v * 2 + h.p) * 2 ^ 13
    e2 = omega (arith, f, bit_or-add 14 h.v (h.p * 2 ^ 5 * 2 ^ 8) (omega (arith, f)))

    e3 :
        bit_or ((h.v * 2 + h.p) * 2 ^ 13) (h.x * 2 ^ 4 * 2 ^ 8) % 2 ^ 16
        ≡ ((h.v * 2 + h.p) * 2 + h.x) * 2 ^ 12
    e3 = omega (arith, f, bit_or-add 13 (h.v * 2 + h.p) (h.x * 2 ^ 4 * 2 ^ 8) (omega (arith, f)))

    e4 :
        bit_or (((h.v * 2 + h.p) * 2 + h.x) * 2 ^ 12) (bit_and h.cc 0x0f * 2 ^ 8) % 2 ^ 16
        ≡ (((h.v * 2 + h.p) * 2 + h.x) * 16 + h.cc) * 2 ^ 8
    e4 = omega (
      arith,
      f,
      bit_and-0x0f h.cc,
      bit_or-add 12 ((h.v * 2 + h.p) * 2 + h.x) (bit_and h.cc 0x0f * 2 ^ 8)
          (omega (arith, f, bit_and-0x0f h.cc)),
    )

    e5 :
        bit_or ((((h.v * 2 + h.p) * 2 + h.x) * 16 + h.cc) * 2 ^ 8) (h.m * 2 ^ 7) % 2 ^ 16
        ≡ ((((h.v * 2 + h.p) * 2 + h.x) * 16 + h.cc) * 2 + h.m) * 2 ^ 7
    e5 = omega (
      arith,
      f,
      bit_or-add 8 (((h.v * 2 + h.p) * 2 + h.x) * 16 + h.cc) (h.m * 2 ^ 7) (omega (arith, f)),
    )

    e6 :
        bit_or (((((h.v * 2 + h.p) * 2 + h.x) * 16 + h.cc) * 2 + h.m) * 2 ^ 7) (bit_and h.pt 0x7f)
          % 2 ^ 16
        ≡ sum_header h
    e6 = omega (
      arith,
      f,
      bit_and-0x7f h.pt,
      bit_or-add 7 ((((h.v * 2 + h.p) * 2 + h.x) * 16 + h.cc) * 2 + h.m) (bit_and h.pt 0x7f)
          (omega (arith, f, bit_and-0x7f h.pt)),
    )

-- The fields come back out of the first 16 bits.
split_header_sum : (h : Header) → Fits h → split_header (sum_header h) h.seq h.timestamp h.ssrc ≡ h
split_header_sum h f = rw (ev, ep, ex, ecc, em, ept) refl
  where
    t : ℕ
    t = sum_header h

    ev : t / 2 ^ 8 / 2 ^ 6 % 2 ^ 2 ≡ h.v
    ev = omega (arith, f)

    ep : t / 2 ^ 8 / 2 ^ 5 % 2 ≡ h.p
    ep = omega (arith, f)

    ex : t / 2 ^ 8 / 2 ^ 4 % 2 ≡ h.x
    ex = omega (arith, f)

    ecc : bit_and (t / 2 ^ 8) 0x0f ≡ h.cc
    ecc = omega (arith, f, bit_and-0x0f (t / 2 ^ 8))

    em : bit_and t 0x80 / 2 ^ 7 ≡ h.m
    em = omega (arith, f, bit_and-0x80 t)

    ept : bit_and t 0x7f ≡ h.pt
    ept = omega (arith, f, bit_and-0x7f t)

-- The twelve bytes of the header.
abbrev pub header_bytes : Header → List ℕ
header_bytes h =
    network16 (temp_header h) ++ network16 h.seq ++ network32 h.timestamp ++ network32 h.ssrc

pub pack_payload :
    (h : Header) (payload : List ℕ)
    → IsSize (12 + length payload)
    → pack true (record { header = h; payload_len = length payload; payload = payload })
      ≡ done (0, header_bytes h ++ payload, 12 + length payload)
unfolding pack put_uint16 put_uint32 blit
pack_payload h [] s = refl
pack_payload h (b ∷ bs) s =
    let some_bytes : ltb 0 (suc (length bs)) ≡ true = ground arith in
    let size : add_size 12 (suc (length bs)) ≡ 12 + suc (length bs) = omega arith in
    rw (memcpy-append (header_bytes h) (b ∷ bs), some_bytes, size) refl

abbrev header_read : Header → Header
header_read h =
    split_header (big_endian 0 (network16 (temp_header h))) (big_endian 0 (network16 h.seq))
      (big_endian 0 (network32 h.timestamp)) (big_endian 0 (network32 h.ssrc))

header_read_lem : (h : Header) → Fits h → header_read h ≡ h
header_read_lem h f =
    ap
      (λ t.
        split_header (big_endian 0 (network16 t)) (big_endian 0 (network16 h.seq))
          (big_endian 0 (network32 h.timestamp)) (big_endian 0 (network32 h.ssrc)))
      (temp_header_sum h f)
    ∙ rw
        (
          big_endian-network16 (sum_header h) (omega (arith, f)),
          big_endian-network16 h.seq f.seq_fits,
          big_endian-network32 h.timestamp f.timestamp_fits,
          big_endian-network32 h.ssrc f.ssrc_fits,
        )
        (split_header_sum h f)

count_left :
    (n : ℕ) → IsSize (12 + n) → sub_size (sub_size (sub_size (sub_size (12 + n) 2) 2) 4) 4 ≡ n
count_left n s = omega arith

get_payload_lem :
    (h : Header) (pre payload : List ℕ)
    → get_payload h (pre ++ payload) (length pre) (length payload)
      ≡ done (record { header = h; payload_len = length payload; payload = payload })
get_payload_lem h pre [] = refl
get_payload_lem h pre (b ∷ bs) =
    let some_bytes : ltb 0 (suc (length bs)) ≡ true = ground arith in
    rw (some_bytes, memcpy-suffix pre (b ∷ bs)) refl

pub unpack_payload :
    (h : Header) (payload : List ℕ)
    → Fits h
    → IsSize (12 + length payload)
    → unpack (header_bytes h ++ payload) (12 + length payload)
      ≡ done (record { header = h; payload_len = length payload; payload = payload })
unfolding unpack get_uint16 get_uint32 blit
unpack_payload h payload f s =
    let b = header_bytes h ++ payload in
    rw
      (
        memcpy-done (0 ∷ 0 ∷ []) 0 b 0 2 (omega arith) (omega arith),
        memcpy-done (0 ∷ 0 ∷ []) 0 b 2 2 (omega arith) (omega arith),
        memcpy-done (0 ∷ 0 ∷ 0 ∷ 0 ∷ []) 0 b 4 4 (omega arith) (omega arith),
        memcpy-done (0 ∷ 0 ∷ 0 ∷ 0 ∷ []) 0 b 8 4 (omega arith) (omega arith),
      )
      (ap₂ (λ k n. get_payload k (header_bytes h ++ payload) 12 n) (header_read_lem h f)
          (count_left (length payload) s)
        ∙ get_payload_lem h (header_bytes h) payload)

-- `rtp_packet_pack` gives 12 bytes of header and the payload, and `rtp_packet_unpack` makes the
-- same packet of them. The header fields fit their widths, `payload_len` is the length of the
-- payload, and the allocations succeed.
pub unpack-pack_packet :
    (h : Header) (payload : List ℕ)
    → Fits h
    → IsSize (12 + length payload)
    → (out : List ℕ) × (pack true
          (record { header = h; payload_len = length payload; payload = payload })
        ≡ done (0, out, 12 + length payload))
      × (unpack out (12 + length payload)
          ≡ done (record { header = h; payload_len = length payload; payload = payload }))
unpack-pack_packet h payload f s =
    (header_bytes h ++ payload, pack_payload h payload s, unpack_payload h payload f s)
