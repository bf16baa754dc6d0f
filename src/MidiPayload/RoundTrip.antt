-- ===== src/MidiPayload/RoundTrip.antt =====
-- A payload that is packed is unpacked to itself: the two operations on their own.
use pimidi.Common.{
  ℕ, suc, ◌+◌, ◌-◌, ◌*◌, ◌/◌, ◌%◌, ◌^◌, ◌≤◌, ◌<◌, ◌≡◌, inl, inr, refl, true, false, some, List, [],
  ◌∷◌, ◌++◌, bit_and, arith, length, ltb, leb, ◌==◌, if◌then◌else◌, Bool-cases,
}
use mathlib.Core.Path.{subst}
use pimidi.Common.Bits.{bit_and-0x0f}
use pimidi.Common.Memory.{done, load, blit}
use pimidi.Common.Memory.Blit.{memcpy-append, memcpy-prefix, memcpy-suffix}
use pimidi.MidiPayload.{Header, Payload, create, pack, unpack, length_bytes, take_buffer}
use pimidi.MidiPayload.Flags.{flag_nibble, flagged, read_flags_lem}

-- The payload of the flags of `h` and these bytes.
abbrev pub with_bytes : Header → List ℕ → Payload
with_bytes h bytes = record {
  header = record { b = h.b; j = h.j; z = h.z; p = h.p; len = length bytes };
  buffer = some bytes;
}

pub length-length_bytes :
    (h : Header) → 1 + h.len + (if ltb 15 h.len then 1 else 0) ≡ length (length_bytes h) + h.len
length-length_bytes h = elim (Bool-cases (leb h.len 15)) [
  | inl e ↦ rw e (ground arith)
  | inr e ↦ rw e (ground arith)
]

-- `midi_payload_pack` gives the length bytes and the payload's.
pub pack_lem :
    (h : Header) (bytes : List ℕ)
    → pack true (with_bytes h bytes)
      ≡ done (
        some (length_bytes (with_bytes h bytes).header ++ bytes),
        length (length_bytes (with_bytes h bytes).header) + length bytes,
      )
unfolding pack
pack_lem h bytes =
    let head = length_bytes (with_bytes h bytes).header in
    rw
      (
        length-length_bytes (with_bytes h bytes).header,
        memcpy-prefix head (length bytes),
        memcpy-append head bytes,
      )
      refl

-- The bytes behind the length are the payload's.
take_buffer_lem :
    (h : Header) (head bytes : List ℕ)
    → length bytes < 2 ^ 16
    → take_buffer (flagged h) (head ++ bytes) (length head) (length bytes) (length bytes)
      ≡ done (some (with_bytes h bytes))
take_buffer_lem h head bytes k =
    let enough : ltb (length bytes) (length bytes) ≡ false = ground arith in
    let len : length bytes % 2 ^ 16 ≡ length bytes = omega arith in
    rw (enough, memcpy-suffix head bytes, len) refl

load_first : (x : ℕ) (xs : List ℕ) → load (x ∷ xs) 0 ≡ done x
load_first x xs = let e : ltb 0 (suc (length xs)) ≡ true = ground arith in rw e refl

load_second : (x y : ℕ) (xs : List ℕ) → load (x ∷ y ∷ xs) 1 ≡ done y
load_second x y xs = let e : ltb 1 (suc (suc (length xs))) ≡ true = ground arith in rw e refl

-- A length of at most 15 is in the first byte.
pub unpack_one :
    (g : Header) (bytes : List ℕ)
    → length bytes ≤ 15
    → (h : Header) → record g { b = false } ≡ h
    → unpack true ((flag_nibble h * 2 ^ 4 + length bytes) ∷ bytes) (1 + length bytes)
      ≡ done (some (with_bytes h bytes))
unfolding unpack create
unpack_one g bytes k h e =
    subst
      (λ q.
        unpack true ((flag_nibble q * 2 ^ 4 + length bytes) ∷ bytes) (1 + length bytes)
        ≡ done (some (with_bytes q bytes)))
      e
      (rw
        (
          some_bytes,
          load_first first bytes,
          read_flags_lem short (length bytes) (omega arith),
          nibble,
          rest,
        )
        (take_buffer_lem short (first ∷ []) bytes (omega arith)))
  where
    short : Header
    short = record g { b = false }

    first : ℕ
    first = flag_nibble short * 2 ^ 4 + length bytes

    some_bytes : (1 + length bytes == 0) ≡ false
    some_bytes = ground arith

    nibble : bit_and first 0x0f ≡ length bytes
    nibble = omega (arith, bit_and-0x0f first)

    rest : 1 + length bytes - 1 ≡ length bytes
    rest = omega arith

-- A length above 15 is in the first two bytes.
pub unpack_two :
    (g : Header) (bytes : List ℕ)
    → length bytes < 4096
    → (h : Header) → record g { b = true } ≡ h
    → unpack true
        ((flag_nibble h * 2 ^ 4 + length bytes / 256) ∷ (length bytes % 256) ∷ bytes)
        (2 + length bytes)
      ≡ done (some (with_bytes h bytes))
unfolding unpack create
unpack_two g bytes k h e =
    subst
      (λ q.
        unpack true ((flag_nibble q * 2 ^ 4 + length bytes / 256) ∷ (length bytes % 256) ∷ bytes)
          (2 + length bytes)
        ≡ done (some (with_bytes q bytes)))
      e
      (rw
        (
          some_bytes,
          load_first first ((length bytes % 256) ∷ bytes),
          read_flags_lem long (length bytes / 256) (omega arith),
          two_bytes,
          load_second first (length bytes % 256) bytes,
          length_read,
          rest,
        )
        (take_buffer_lem long (first ∷ (length bytes % 256) ∷ []) bytes (omega arith)))
  where
    long : Header
    long = record g { b = true }

    first : ℕ
    first = flag_nibble long * 2 ^ 4 + length bytes / 256

    some_bytes : (2 + length bytes == 0) ≡ false
    some_bytes = ground arith

    two_bytes : (2 + length bytes == 1) ≡ false
    two_bytes = ground arith

    length_read : (bit_and first 0x0f * 2 ^ 8 + length bytes % 256) % 2 ^ 16 ≡ length bytes
    length_read = omega (arith, bit_and-0x0f first)

    rest : 2 + length bytes - 2 ≡ length bytes
    rest = omega arith

-- A length of 16 to 255 that the flag does not announce is read as none.
pub unset_lem :
    (g : Header) (bytes : List ℕ)
    → 15 < length bytes
    → length bytes < 256
    → (h : Header) → record g { b = false } ≡ h
    → unpack true
        ((flag_nibble h * 2 ^ 4 + length bytes / 256) ∷ (length bytes % 256) ∷ bytes)
        (2 + length bytes)
      ≡ done (some (with_bytes h []))
unfolding unpack create blit
unset_lem g bytes k l h e =
    subst
      (λ q.
        unpack true ((flag_nibble q * 2 ^ 4 + length bytes / 256) ∷ (length bytes % 256) ∷ bytes)
          (2 + length bytes)
        ≡ done (some (with_bytes q [])))
      e
      (rw
        (
          some_bytes,
          load_first first ((length bytes % 256) ∷ bytes),
          read_flags_lem short (length bytes / 256) (omega arith),
          nibble,
          rest,
        )
        (nothing (1 + length bytes)))
  where
    short : Header
    short = record g { b = false }

    first : ℕ
    first = flag_nibble short * 2 ^ 4 + length bytes / 256

    some_bytes : (2 + length bytes == 0) ≡ false
    some_bytes = ground arith

    nibble : bit_and first 0x0f ≡ 0
    nibble = omega (arith, bit_and-0x0f first)

    rest : 2 + length bytes - 1 ≡ 1 + length bytes
    rest = omega arith

    nothing :
        (n : ℕ)
        → take_buffer (flagged short) (first ∷ (length bytes % 256) ∷ bytes) 1 n 0
          ≡ done (some (with_bytes short []))
    nothing n = ground arith
