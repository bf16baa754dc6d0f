-- ===== src/MidiPayload/FromCommand.antt =====
-- The payload of a command, as the sender makes it.
use pimidi.Common.{
  ℕ, ◌+◌, ◌%◌, ◌^◌, ◌≤◌, ◌<◌, ◌≡◌, refl, true, false, some, List, [], ◌∷◌, bit_and, arith, length,
  ltb,
}
use pimidi.Common.Bits.{bit_and-0x80}
use pimidi.Common.Memory.{done}
use pimidi.Common.Memory.Blit.{memcpy-suffix}
use pimidi.MidiCommand.{Command}
use pimidi.MidiPayload.{Header, Payload, create, set_buffer, command_to_payload, pack, unpack}
use pimidi.MidiPayload.RoundTrip.{with_bytes}
use pimidi.MidiPayload.Sent.{unpack-pack_payload}

abbrev no_flags : Header
no_flags = record { b = false; j = false; z = false; p = false; len = 0 }

command_to_payload_lem :
    (c : Command)
    → 0x80 ≤ c.status
    → c.status < 256
    → length c.payload + 1 < 2 ^ 16
    → command_to_payload true c ≡ done (some (with_bytes no_flags (c.status ∷ c.payload)))
unfolding command_to_payload set_buffer create
command_to_payload_lem c h k l =
    let bytes = c.status ∷ c.payload in
    let first : ltb 0 (length bytes) ≡ true = ground arith in
    let bit : bit_and c.status 0x80 ≡ 128 = omega (arith, bit_and-0x80 c.status) in
    let size : length c.payload + 1 ≡ length bytes = omega arith in
    let len : length bytes % 2 ^ 16 ≡ length bytes = omega arith in
    rw (first, bit, size, memcpy-suffix [] bytes, len) refl

-- A channel command, or any other of at most 15 bytes, becomes a payload that the other side reads
-- as these bytes: `midi_command_to_payload`, `midi_payload_pack` and `midi_payload_unpack` in turn
-- keep the status byte and the data. The status byte is one, and the allocations succeed.
command_sent :
    (c : Command)
    → 0x80 ≤ c.status
    → c.status < 256
    → length c.payload + 1 ≤ 15
    → (payload : Payload) × (packed : List ℕ) × (command_to_payload true c ≡ done (some payload))
      × (pack true payload ≡ done (some packed, length packed))
      × (unpack true packed (length packed) ≡ done (some payload))
      × (payload.buffer ≡ some (c.status ∷ c.payload))
command_sent c h k l =
    let short : false ≡ ltb 15 (length (c.status ∷ c.payload)) = ground arith in
    let (packed, e, u) = unpack-pack_payload no_flags (c.status ∷ c.payload) short (omega arith) in
    (
      with_bytes no_flags (c.status ∷ c.payload),
      packed,
      command_to_payload_lem c h k (omega arith),
      e,
      u,
      refl,
    )
