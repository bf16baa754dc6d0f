-- ===== src/RtpPacket.antt =====
-- raveloxmidi/src/rtp_packet.c: RTP packets, packed and unpacked. `payload` is the object behind the
-- pointer, [] where it is NULL. `mem` is the answer of an allocation.
pub mod RoundTrip
pub mod Short
mod Tests
use pimidi.Common.{
  ℕ, ◌+◌, ◌*◌, ◌/◌, ◌%◌, ◌^◌, Bool, true, false, not, ◌&&◌, List, [], ◌++◌, bit_and, bit_or,
  if◌then◌else◌, ltb, ◌==◌, length, replicate, add_size,
}
use pimidi.Common.Memory.{Exec, done, fault, ◌>>=◌, memcpy}
use pimidi.Bytes.{put_uint16, put_uint32, get_uint16, get_uint32}

-- `rtp_packet_header_t`.
pub record Header : Type 0 where
  pub v : ℕ
  pub p : ℕ
  pub x : ℕ
  pub cc : ℕ
  pub m : ℕ
  pub pt : ℕ
  pub seq : ℕ
  pub timestamp : ℕ
  pub ssrc : ℕ

-- `rtp_packet_t`.
pub record Packet : Type 0 where
  pub header : Header
  pub payload_len : ℕ
  pub payload : List ℕ

-- `rtp_packet_create`.
unfoldable pub create : Packet
create = record {
  header = record { v = 2; p = 0; x = 0; cc = 0; m = 0; pt = 97; seq = 0; timestamp = 0; ssrc = 0 };
  payload_len = 0;
  payload = [];
}

-- The first 16 bits.
abbrev pub temp_header : Header → ℕ
temp_header h =
    let t1 = bit_or 0 (h.v * 2 ^ 6 * 2 ^ 8) % 2 ^ 16 in
    let t2 = bit_or t1 (h.p * 2 ^ 5 * 2 ^ 8) % 2 ^ 16 in
    let t3 = bit_or t2 (h.x * 2 ^ 4 * 2 ^ 8) % 2 ^ 16 in
    let t4 = bit_or t3 (bit_and h.cc 0x0f * 2 ^ 8) % 2 ^ 16 in
    let t5 = bit_or t4 (h.m * 2 ^ 7) % 2 ^ 16 in bit_or t5 (bit_and h.pt 0x7f) % 2 ^ 16

-- `rtp_packet_pack`: the return value, the packed bytes, their number. The bytes that a block
-- gains by `realloc` are 0 here until they are written.
unfoldable pub pack : Bool → Packet → Exec (ℕ × List ℕ × ℕ)
unfolding put_uint16 put_uint32
pack mem packet =
    if mem
    then (do
      (b1, p1, n1) ← put_uint16 (replicate 12 0) 0 (temp_header packet.header) 0
      (b2, p2, n2) ← put_uint16 b1 p1 packet.header.seq n1
      (b3, p3, n3) ← put_uint32 b2 p2 packet.header.timestamp n2
      (b4, p4, n4) ← put_uint32 b3 p3 packet.header.ssrc n3
      if ltb 0 packet.payload_len && ltb 0 (length packet.payload)
          then (do
            out ←
                memcpy (b4 ++ replicate packet.payload_len 0) n4 packet.payload 0 packet.payload_len
            done (0, out, add_size n4 packet.payload_len))
          else done (0, b4, n4))
    else done (1, [], 0)

-- The header fields of the first 16 bits, each cut to its width.
abbrev pub split_header : ℕ → ℕ → ℕ → ℕ → Header
split_header t seq timestamp ssrc = record {
  v = t / 2 ^ 8 / 2 ^ 6 % 2 ^ 2;
  p = t / 2 ^ 8 / 2 ^ 5 % 2;
  x = t / 2 ^ 8 / 2 ^ 4 % 2;
  cc = bit_and (t / 2 ^ 8) 0x0f;
  m = bit_and t 0x80 / 2 ^ 7;
  pt = bit_and t 0x7f;
  seq = seq;
  timestamp = timestamp;
  ssrc = ssrc;
}

-- The payload is what is left of the buffer.
abbrev pub get_payload : Header → List ℕ → ℕ → ℕ → Exec Packet
get_payload header buffer p len =
    if ltb 0 len
    then (memcpy (replicate len 0) 0 buffer p len >>= λ payload.
        done (record { header = header; payload_len = len; payload = payload }))
    else done (record { header = header; payload_len = 0; payload = [] })

-- `rtp_packet_unpack` on the first `buffer_len` bytes of `buffer`.
unfoldable pub unpack : List ℕ → ℕ → Exec Packet
unfolding get_uint16 get_uint32
unpack buffer buffer_len = do
  (t, p1, n1) ← get_uint16 buffer 0 buffer_len
  (seq, p2, n2) ← get_uint16 buffer p1 n1
  (timestamp, p3, n3) ← get_uint32 buffer p2 n2
  (ssrc, p4, n4) ← get_uint32 buffer p3 n3
  get_payload (split_header t seq timestamp ssrc) buffer p4 n4
