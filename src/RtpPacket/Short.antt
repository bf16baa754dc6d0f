-- ===== src/RtpPacket/Short.antt =====
-- What `rtp_packet_unpack` does with datagrams of any length: it looks at no length before it reads
-- the twelve bytes of a header.
use pimidi.Common.{ℕ, ◌<◌, ◌≡◌, refl, List, [], ◌∷◌, length, arith}
use native.Mathlib.Decide.{dec_lt}
use pimidi.Common.Memory.{fault, memcpy-done, memcpy-fault}
use pimidi.Bytes.{get_uint16, get_uint32}
use pimidi.RtpPacket.{unpack}

-- A datagram of fewer than 12 bytes is read past its end, whatever length is passed with it.
unpack_short :
    (buffer : List ℕ) (buffer_len : ℕ) → length buffer < 12 → unpack buffer buffer_len ≡ fault
unfolding unpack get_uint16 get_uint32
unpack_short b n h = elim (dec_lt (length b) 2) [
  | yes h2 ↦ rw (memcpy-fault (0 ∷ 0 ∷ []) 0 b 0 2 h2) refl
  | no k2 ↦
      rw (memcpy-done (0 ∷ 0 ∷ []) 0 b 0 2 (omega arith) (omega arith))
        (elim (dec_lt (length b) 4) [
          | yes h4 ↦ rw (memcpy-fault (0 ∷ 0 ∷ []) 0 b 2 2 h4) refl
          | no k4 ↦
              rw (memcpy-done (0 ∷ 0 ∷ []) 0 b 2 2 (omega arith) (omega arith))
                (elim (dec_lt (length b) 8) [
                  | yes h8 ↦ rw (memcpy-fault (0 ∷ 0 ∷ 0 ∷ 0 ∷ []) 0 b 4 4 h8) refl
                  | no k8 ↦
                      rw
                        (
                          memcpy-done (0 ∷ 0 ∷ 0 ∷ 0 ∷ []) 0 b 4 4 (omega arith) (omega arith),
                          memcpy-fault (0 ∷ 0 ∷ 0 ∷ 0 ∷ []) 0 b 8 4 (omega arith),
                        )
                        refl
                ])
        ])
]
