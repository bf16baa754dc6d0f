-- ===== src/MidiPayload/Received.antt =====
-- `midi_payload_unpack` on bytes from the network: whatever they are, it reads inside the buffer.
use pimidi.Common.{
  ℕ, suc, ◌+◌, ◌-◌, ◌*◌, ◌%◌, ◌^◌, ◌≤◌, ◌<◌, ◌≡◌, refl, Bool, true, false, Option, none, some, List,
  [], ◌∷◌, bit_and, get_or, tabulate_from, arith, length, ltb, ◌==◌, if◌then◌else◌,
}
use native.Mathlib.Decide.{dec_lt}
use pimidi.Common.Bits.{bit_and-0x0f}
use pimidi.Common.Memory.{done, load, Returns}
use pimidi.Common.Memory.Blit.{memcpy-slice}
use pimidi.MidiPayload.{Payload, create, unpack, take_buffer, read_flags, after_flags}

-- The bytes of the length: two with the flag B.
abbrev pub start : Payload → ℕ
start payload = if payload.header.b then 2 else 1

-- No payload, or one that the datagram has in full: as many bytes as its length says, from behind
-- the length on.
pub IsTaken : List ℕ → Option Payload → Type 0
IsTaken buffer none = Unit
IsTaken buffer (some p) =
    (p.buffer ≡ some (tabulate_from p.header.len (λ i. get_or buffer i 0) (start p)))
    × (start p + p.header.len ≤ length buffer)
    × (p.header.len < 2 ^ 16)

take_buffer_safe :
    (payload : Payload) (buffer : List ℕ) (current_len temp_len : ℕ)
    → temp_len < 2 ^ 16
    → start payload + current_len ≤ length buffer
    → Returns (take_buffer payload buffer (start payload) current_len temp_len) (IsTaken buffer)
unfolding IsTaken
take_buffer_safe payload buffer c t h k = elim (dec_lt c t) [
  | yes short ↦ let e : ltb c t ≡ true = ground arith in rw e tt
  | no enough ↦
      let e : ltb c t ≡ false = ground arith in
      let m : t % 2 ^ 16 ≡ t = omega arith in
      rw (e, memcpy-slice t buffer (start payload) (omega arith), m) (refl, omega arith, h)
]

load-done : (buffer : List ℕ) (i : ℕ) → i < length buffer → load buffer i ≡ done (get_or buffer i 0)
load-done buffer i h = let e : ltb i (length buffer) ≡ true = ground arith in rw e refl

abbrev payload_of : Bool → Bool → Bool → Bool → ℕ → Option (List ℕ) → Payload
payload_of b j z p n buffer = record {
  header = record { b = b; j = j; z = z; p = p; len = n };
  buffer = buffer;
}

-- `midi_payload_unpack` behind the flags.
after_flags_safe :
    (first : ℕ) (buffer : List ℕ)
    → 0 < length buffer
    → (b j z p : Bool) (n : ℕ) (bytes : Option (List ℕ))
    → Returns
        (after_flags (payload_of b j z p n bytes) first buffer (length buffer))
        (IsTaken buffer)
unfolding IsTaken
after_flags_safe first buffer h true j z p n bytes = elim (dec_lt 1 (length buffer)) [
  | no one ↦ let e : (length buffer == 1) ≡ true = ground arith in rw e tt
  | yes more ↦
      let e : (length buffer == 1) ≡ false = ground arith in
      rw (e, load-done buffer 1 more)
        (take_buffer_safe (payload_of true j z p n bytes) buffer (length buffer - 2)
          ((bit_and first 0x0f * 2 ^ 8 + get_or buffer 1 0) % 2 ^ 16) (omega arith) (omega arith))
]
after_flags_safe first buffer h false j z p n bytes =
    take_buffer_safe (payload_of false j z p n bytes) buffer (length buffer - 1)
      (bit_and first 0x0f) (omega (arith, bit_and-0x0f first)) (omega arith)

-- `midi_payload_unpack` reads no byte outside a datagram of any content and length, and ends with no
-- payload or with one that lies inside the datagram. The length passed is the datagram's, and
-- the allocations succeed.
pub unpack-IsTaken :
    (buffer : List ℕ) → Returns (unpack true buffer (length buffer)) (IsTaken buffer)
unfolding unpack create IsTaken
unpack-IsTaken [] = tt
unpack-IsTaken (first ∷ rest) =
    let some_bytes : (suc (length rest) == 0) ≡ false = ground arith in
    let q : Payload = read_flags first (payload_of false false false false 0 none) in
    rw (some_bytes, load-done (first ∷ rest) 0 (omega arith))
      (after_flags_safe first (first ∷ rest) (omega arith) q.header.b q.header.j q.header.z
        q.header.p q.header.len q.buffer)
