-- ===== src/MidiPayload/Sent.antt =====
-- Payloads packed and unpacked: with the length flag that fits the length the payload comes back,
-- without it a long one does not.
use pimidi.Common.{
  ℕ, suc, ◌+◌, ◌*◌, ◌/◌, ◌%◌, ◌^◌, ◌≤◌, ◌<◌, ◌≡◌, refl, sym, ap, ◌∙◌, true, false, some, List, [],
  ◌∷◌, ◌++◌, bit_and, arith, length, length-append, ltb, leb,
}
use native.Mathlib.Decide.{dec_lt}
use pimidi.Common.Bits.{bit_and-0x0f, bit_and-0xff, bit_and-0x0f00}
use pimidi.Common.Memory.{done}
use pimidi.MidiPayload.{Header, pack, unpack, length_bytes}
use pimidi.MidiPayload.Flags.{flag_nibble, first_byte, digit_lem}
use pimidi.MidiPayload.RoundTrip.{with_bytes, pack_lem, unpack_one, unpack_two, unset_lem}

module _ (h : Header) (bytes : List ℕ) where
  -- The bytes that the packer puts in front.
  head : List ℕ
  head = length_bytes (with_bytes h bytes).header

  head_short : length bytes ≤ 15 → head ≡ (flag_nibble h * 2 ^ 4 + length bytes) ∷ []
  unfolding head
  head_short k =
      let e : leb (length bytes) 15 ≡ true = ground arith in
      let nibble : bit_and (length bytes) 0x0f ≡ length bytes =
        omega (arith, bit_and-0x0f (length bytes)) in
      rw (e, nibble, first_byte h (length bytes) (omega arith)) refl

  head_long :
      15 < length bytes
      → length bytes < 4096
      → head ≡ (flag_nibble h * 2 ^ 4 + length bytes / 256) ∷ (length bytes % 256) ∷ []
  unfolding head
  head_long k l =
      let e : leb (length bytes) 15 ≡ false = ground arith in
      let high : bit_and (length bytes) 0x0f00 / 2 ^ 8 ≡ length bytes / 256 =
        omega (arith, bit_and-0x0f00 (length bytes)) in
      let byte : (flag_nibble h * 2 ^ 4 + length bytes / 256) % 256
          ≡ flag_nibble h * 2 ^ 4 + length bytes / 256 =
        omega (arith, digit_lem h.b, digit_lem h.j, digit_lem h.z, digit_lem h.p) in
      rw
        (
          e,
          high,
          first_byte h (length bytes / 256) (omega arith),
          byte,
          bit_and-0xff (length bytes),
        )
        refl

  out : List ℕ
  out = head ++ bytes

  pack-out : pack true (with_bytes h bytes) ≡ done (some out, length out)
  unfolding out head
  pack-out =
      pack_lem h bytes ∙ ap (λ n. done (some (head ++ bytes), n)) (sym (length-append head bytes))

  one : suc (length bytes) ≡ 1 + length bytes
  one = omega arith

  two : suc (suc (length bytes)) ≡ 2 + length bytes
  two = omega arith

  unpack-out :
      h.b ≡ ltb 15 (length bytes)
      → length bytes < 4096
      → unpack true out (length out) ≡ done (some (with_bytes h bytes))
  unfolding out
  unpack-out e l = elim (dec_lt 15 (length bytes)) [
    | yes long ↦
        let b : ltb 15 (length bytes) ≡ true = ground arith in
        rw (head_long long l, two)
          (unpack_two h bytes l h (ap (λ v. record h { b = v }) (sym (e ∙ b))))
    | no short ↦
        let b : ltb 15 (length bytes) ≡ false = ground arith in
        rw (head_short (omega arith), one)
          (unpack_one h bytes (omega arith) h (ap (λ v. record h { b = v }) (sym (e ∙ b))))
  ]

-- What `midi_payload_pack` gives, `midi_payload_unpack` takes apart into the same payload: the
-- flags, the length and the bytes. The flag B is set exactly for a length above 15, the length is
-- below 4096 and the allocations succeed.
pub unpack-pack_payload :
    (h : Header) (bytes : List ℕ)
    → h.b ≡ ltb 15 (length bytes)
    → length bytes < 4096
    → (packed : List ℕ) × (pack true (with_bytes h bytes) ≡ done (some packed, length packed))
      × (unpack true packed (length packed) ≡ done (some (with_bytes h bytes)))
unpack-pack_payload h bytes e l = (out h bytes, pack-out h bytes, unpack-out h bytes e l)

-- The packer leaves the flag B as it is. A payload of 16 to 255 bytes without it is packed, and what
-- comes out is unpacked to a payload of no bytes. The allocations succeed.
pub unpack-pack_unset :
    (h : Header) (bytes : List ℕ)
    → h.b ≡ false
    → 15 < length bytes
    → length bytes < 256
    → (packed : List ℕ) × (pack true (with_bytes h bytes) ≡ done (some packed, length packed))
      × (unpack true packed (length packed) ≡ done (some (with_bytes h [])))
unfolding out
unpack-pack_unset h bytes e k l = (
  out h bytes,
  pack-out h bytes,
  rw (head_long h bytes k (omega arith), two h bytes)
      (unset_lem h bytes k l h (ap (λ v. record h { b = v }) (sym e))),
)
