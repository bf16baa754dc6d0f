-- ===== src/MidiPayload/Flags.antt =====
-- The flags in the first byte of a payload.
use pimidi.Common.{
  ℕ, ◌+◌, ◌*◌, ◌^◌, ◌≤◌, ◌<◌, ◌≡◌, refl, Bool, true, false, not, none, bit_and, bit_or, arith, ◌==◌,
  if◌then◌else◌,
}
use pimidi.Common.Bits.{bit_or-add, bit_and-0x80, bit_and-0x40, bit_and-0x20, bit_and-0x10}
use pimidi.MidiPayload.{Header, Payload, flag_bits, read_flags, put_b, put_j, put_z, put_p}

abbrev digit : Bool → ℕ
digit true = 1
digit false = 0

-- The flags as a number of four bits.
abbrev pub flag_nibble : Header → ℕ
flag_nibble h = ((digit h.b * 2 + digit h.j) * 2 + digit h.z) * 2 + digit h.p

pub digit_lem : (v : Bool) → digit v ≤ 1
digit_lem true = omega arith
digit_lem false = omega arith

flag_bits_lem : (h : Header) → flag_bits h ≡ flag_nibble h * 2 ^ 4
flag_bits_lem h =
    rw (at_b h.b, at_j (digit h.b) h.j, at_z (digit h.b * 2 + digit h.j) h.z)
      (at_p ((digit h.b * 2 + digit h.j) * 2 + digit h.z) h.p)
  where
    at_b : (v : Bool) → (if v then bit_or 0 0x80 else 0) ≡ digit v * 2 ^ 7
    at_b true = refl
    at_b false = refl

    at_j :
        (a : ℕ) (v : Bool)
        → (if v then bit_or (a * 2 ^ 7) 0x40 else a * 2 ^ 7) ≡ (a * 2 + digit v) * 2 ^ 6
    at_j a true = omega (arith, bit_or-add 7 a 0x40 (omega arith))
    at_j a false = omega arith

    at_z :
        (a : ℕ) (v : Bool)
        → (if v then bit_or (a * 2 ^ 6) 0x20 else a * 2 ^ 6) ≡ (a * 2 + digit v) * 2 ^ 5
    at_z a true = omega (arith, bit_or-add 6 a 0x20 (omega arith))
    at_z a false = omega arith

    at_p :
        (a : ℕ) (v : Bool)
        → (if v then bit_or (a * 2 ^ 5) 0x10 else a * 2 ^ 5) ≡ (a * 2 + digit v) * 2 ^ 4
    at_p a true = omega (arith, bit_or-add 5 a 0x10 (omega arith))
    at_p a false = omega arith

-- A first byte of the flags of `h` and four bits `n`.
pub first_byte : (h : Header) (n : ℕ) → n < 16 → bit_or (flag_bits h) n ≡ flag_nibble h * 2 ^ 4 + n
first_byte h n k = rw (flag_bits_lem h) (bit_or-add 4 (flag_nibble h) n k)

abbrev fresh : Payload
fresh = record {
  header = record { b = false; j = false; z = false; p = false; len = 0 };
  buffer = none;
}

-- A new payload with the flags of `h`.
abbrev pub flagged : Header → Payload
flagged h = record {
  header = record { b = h.b; j = h.j; z = h.z; p = h.p; len = 0 };
  buffer = none;
}

pub read_flags_lem :
    (h : Header) (n : ℕ) → n < 16 → read_flags (flag_nibble h * 2 ^ 4 + n) fresh ≡ flagged h
read_flags_lem h n k =
    rw (test_b, test_j, test_z, test_p, at_b h.b, at_j h.b h.j, at_z h.b h.j h.z)
      (at_p h.b h.j h.z h.p)
  where
    first : ℕ
    first = flag_nibble h * 2 ^ 4 + n

    bounds : (digit h.b ≤ 1) × (digit h.j ≤ 1) × (digit h.z ≤ 1) × (digit h.p ≤ 1)
    bounds = (digit_lem h.b, digit_lem h.j, digit_lem h.z, digit_lem h.p)

    is_set : (v : Bool) (m w : ℕ) → 0 < m → w ≡ digit v * m → not (w == 0) ≡ v
    is_set true m w e q = ground arith
    is_set false m w e q = ground arith

    test_b : not (bit_and first 0x80 == 0) ≡ h.b
    test_b =
        is_set h.b 128 (bit_and first 0x80) (omega arith)
          (omega (arith, bounds, bit_and-0x80 first))

    test_j : not (bit_and first 0x40 == 0) ≡ h.j
    test_j =
        is_set h.j 64 (bit_and first 0x40) (omega arith) (omega (arith, bounds, bit_and-0x40 first))

    test_z : not (bit_and first 0x20 == 0) ≡ h.z
    test_z =
        is_set h.z 32 (bit_and first 0x20) (omega arith) (omega (arith, bounds, bit_and-0x20 first))

    test_p : not (bit_and first 0x10 == 0) ≡ h.p
    test_p =
        is_set h.p 16 (bit_and first 0x10) (omega arith) (omega (arith, bounds, bit_and-0x10 first))

    mk : Bool → Bool → Bool → Bool → Payload
    mk b j z p = record { header = record { b = b; j = j; z = z; p = p; len = 0 }; buffer = none }

    at_b : (b : Bool) → (if b then put_b true fresh else fresh) ≡ mk b false false false
    at_b true = refl
    at_b false = refl

    at_j :
        (b j : Bool)
        → (if j then put_j true (mk b false false false) else mk b false false false)
          ≡ mk b j false false
    at_j b true = refl
    at_j b false = refl

    at_z :
        (b j z : Bool)
        → (if z then put_z true (mk b j false false) else mk b j false false) ≡ mk b j z false
    at_z b j true = refl
    at_z b j false = refl

    at_p :
        (b j z p : Bool) → (if p then put_p true (mk b j z false) else mk b j z false) ≡ mk b j z p
    at_p b j z true = refl
    at_p b j z false = refl
