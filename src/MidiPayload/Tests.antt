-- ===== src/MidiPayload/Tests.antt =====
-- Payloads of a note, and of a long message without the length flag.
use pimidi.Common.{ℕ, ◌≡◌, refl, true, false, some, List, [], ◌∷◌, length, replicate, arith}
use pimidi.Common.Memory.{done, Returns}
use pimidi.MidiPayload.{Header, pack, unpack}
use pimidi.MidiPayload.RoundTrip.{with_bytes}
use pimidi.MidiPayload.Sent.{unpack-pack_payload, unpack-pack_unset}
use pimidi.MidiPayload.Received.{IsTaken, unpack-IsTaken}

abbrev journaled : Header
journaled = record { b = false; j = true; z = false; p = false; len = 0 }

abbrev note : List ℕ
note = 0x90 ∷ 60 ∷ 64 ∷ []

unpack-pack_payload_example :
    (packed : List ℕ) × (pack true (with_bytes journaled note) ≡ done (some packed, length packed))
    × (unpack true packed (length packed) ≡ done (some (with_bytes journaled note)))
unpack-pack_payload_example = unpack-pack_payload journaled note refl (omega arith)

unpack-pack_unset_example :
    (packed : List ℕ) × (pack true (with_bytes journaled (replicate 20 1))
      ≡ done (some packed, length packed))
    × (unpack true packed (length packed) ≡ done (some (with_bytes journaled [])))
unpack-pack_unset_example =
    unpack-pack_unset journaled (replicate 20 1) refl (omega arith) (omega arith)

unpack-IsTaken_example :
    Returns (unpack true (0x85 ∷ 0xff ∷ 1 ∷ []) 3) (IsTaken (0x85 ∷ 0xff ∷ 1 ∷ []))
unpack-IsTaken_example = unpack-IsTaken (0x85 ∷ 0xff ∷ 1 ∷ [])
