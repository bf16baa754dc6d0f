-- ===== src/RtpPacket/Tests.antt =====
-- A packet with three bytes of payload.
use pimidi.Common.{ℕ, ◌≡◌, true, List, [], ◌∷◌, arith}
use pimidi.Common.Memory.{done}
use pimidi.RtpPacket.{Header, pack, unpack}
use pimidi.RtpPacket.RoundTrip.{Fits, unpack-pack_packet}

abbrev some_header : Header
some_header = record {
  v = 2;
  p = 0;
  x = 0;
  cc = 0;
  m = 1;
  pt = 97;
  seq = 1000;
  timestamp = 0x01020304;
  ssrc = 0xdeadbeef;
}

some_header-Fits : Fits some_header
some_header-Fits = record {
  v_fits = omega arith;
  p_fits = omega arith;
  x_fits = omega arith;
  cc_fits = omega arith;
  m_fits = omega arith;
  pt_fits = omega arith;
  seq_fits = omega arith;
  timestamp_fits = omega arith;
  ssrc_fits = omega arith;
}

abbrev note : List ℕ
note = 0x90 ∷ 60 ∷ 64 ∷ []

unpack-pack_packet_example :
    (out : List ℕ) × (pack true (record { header = some_header; payload_len = 3; payload = note })
      ≡ done (0, out, 15))
    × (unpack out 15 ≡ done (record { header = some_header; payload_len = 3; payload = note }))
unpack-pack_packet_example = unpack-pack_packet some_header note some_header-Fits (omega arith)
