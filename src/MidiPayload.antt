-- ===== src/MidiPayload.antt =====
-- raveloxmidi/src/midi_payload.c: the MIDI command section of a packet. `buffer` is `none` where the
-- pointer is NULL; `mem` is the answer of an allocation.
pub mod Flags
pub mod RoundTrip
pub mod Received
pub mod Sent
mod Tests
pub mod FromCommand
use pimidi.Common.{
  ℕ, ◌+◌, ◌-◌, ◌*◌, ◌/◌, ◌%◌, ◌^◌, Bool, true, false, not, ◌&&◌, Option, none, some, List, [], ◌∷◌,
  bit_and, bit_or, if◌then◌else◌, ltb, leb, ◌==◌, length, replicate, add_size, sub_size,
}
use pimidi.Common.Memory.{Exec, done, fault, ◌>>=◌, memcpy, load, store}
use pimidi.MidiCommand.{Command}

-- `midi_payload_header_t`.
pub record Header : Type 0 where
  pub b : Bool
  pub j : Bool
  pub z : Bool
  pub p : Bool
  pub len : ℕ

-- `midi_payload_t`.
pub record Payload : Type 0 where
  pub header : Header
  pub buffer : Option (List ℕ)

-- `running_status`, which nothing sets.
abbrev running_status : ℕ
running_status = 0

-- `midi_payload_reset`, and what `midi_payload_create` gives.
unfoldable pub reset : Payload → Payload
reset payload = record {
  header = record { b = false; j = false; z = false; p = false; len = 0 };
  buffer = none;
}

unfoldable pub create : Bool → Option Payload
create mem =
    if mem
    then some (record {
      header = record { b = false; j = false; z = false; p = false; len = 0 };
      buffer = none;
    })
    else none

-- `midi_payload_set_b` and its kin, `midi_payload_unset_b` and its kin.
abbrev pub put_b : Bool → Payload → Payload
put_b v payload = record payload { header = record (payload.header) { b = v } }

abbrev pub put_j : Bool → Payload → Payload
put_j v payload = record payload { header = record (payload.header) { j = v } }

abbrev pub put_z : Bool → Payload → Payload
put_z v payload = record payload { header = record (payload.header) { z = v } }

abbrev pub put_p : Bool → Payload → Payload
put_p v payload = record payload { header = record (payload.header) { p = v } }

abbrev put_len : ℕ → Payload → Payload
put_len n payload = record payload { header = record (payload.header) { len = n % 2 ^ 16 } }

-- `midi_payload_set_buffer`: the payload and the new `*buffer_size`. A buffer that starts with a data
-- byte gets the running status in front.
unfoldable pub set_buffer : Bool → Payload → List ℕ → ℕ → Exec (Payload × ℕ)
set_buffer mem payload buffer buffer_size = do
  first ← load buffer 0
  let status_present = not (bit_and first 0x80 == 0)
  let size = if status_present then buffer_size else add_size buffer_size 1
  if mem
      then (if status_present
          then (memcpy (replicate size 0) 0 buffer 0 size >>= λ copy.
              done (record (put_len size payload) { buffer = some copy }, size))
          else (do
            copy ← memcpy (replicate size 0) 1 buffer 0 (sub_size size 1)
            copy' ← store copy 0 running_status
            done (record (put_len size payload) { buffer = some copy' }, size)))
      else done (record (put_len 0 payload) { buffer = none }, size)

-- The flags of the first byte.
abbrev pub flag_bits : Header → ℕ
flag_bits h =
    let t1 = if h.b then bit_or 0 0x80 else 0 in
    let t2 = if h.j then bit_or t1 0x40 else t1 in
    let t3 = if h.z then bit_or t2 0x20 else t2 in if h.p then bit_or t3 0x10 else t3

-- The first byte, or the first two for a length above 15.
abbrev pub length_bytes : Header → List ℕ
length_bytes h =
    if leb h.len 15
    then bit_or (flag_bits h) (bit_and h.len 0x0f) ∷ []
    else bit_or (flag_bits h) (bit_and h.len 0x0f00 / 2 ^ 8) % 256 ∷ bit_and h.len 0x00ff ∷ []

-- `midi_payload_pack`: `*buffer` and `*buffer_size`.
unfoldable pub pack : Bool → Payload → Exec (Option (List ℕ) × ℕ)
pack mem payload = elim (payload.buffer) [
  | none ↦ done (none, 0)
  | some bytes ↦
      let head = length_bytes (payload.header) in
      let size = 1 + payload.header.len + (if ltb 15 (payload.header.len) then 1 else 0) in
      if mem
      then (do
        out ← memcpy (replicate size 0) 0 head 0 (length head)
        out' ← memcpy out (length head) bytes 0 (payload.header.len)
        done (some out', size))
      else done (none, size)
]

-- The flags that the first byte sets.
abbrev pub read_flags : ℕ → Payload → Payload
read_flags first payload =
    let q1 = if not (bit_and first 0x80 == 0) then put_b true payload else payload in
    let q2 = if not (bit_and first 0x40 == 0) then put_j true q1 else q1 in
    let q3 = if not (bit_and first 0x20 == 0) then put_z true q2 else q2 in
    if not (bit_and first 0x10 == 0) then put_p true q3 else q3

-- The rest of `midi_payload_unpack` when the length is known: `p` is the cursor.
abbrev pub take_buffer : Payload → List ℕ → ℕ → ℕ → ℕ → Exec (Option Payload)
take_buffer payload buffer p current_len temp_len =
    if ltb current_len temp_len
    then done none
    else (memcpy (replicate temp_len 0) 0 buffer p temp_len >>= λ copy.
        done (some (record (put_len temp_len payload) { buffer = some copy })))

-- The length is in one byte or, with the flag B, in two.
abbrev pub after_flags : Payload → ℕ → List ℕ → ℕ → Exec (Option Payload)
after_flags payload first buffer buffer_len =
    if payload.header.b && buffer_len == 1
    then done none
    else if payload.header.b
    then (load buffer 1 >>= λ second.
        take_buffer payload buffer 2 (buffer_len - 2)
          ((bit_and first 0x0f * 2 ^ 8 + second) % 2 ^ 16))
    else take_buffer payload buffer 1 (buffer_len - 1) (bit_and first 0x0f)

-- `midi_payload_unpack` on the first `buffer_len` bytes of `buffer`: `none` where it gives no
-- payload.
unfoldable pub unpack : Bool → List ℕ → ℕ → Exec (Option Payload)
unfolding create
unpack mem buffer buffer_len = if buffer_len == 0 then done none else elim (create mem) [
  | none ↦ done none
  | some fresh ↦
      load buffer 0 >>= λ first. after_flags (read_flags first fresh) first buffer buffer_len
]

-- `midi_command_to_payload` for a command.
unfoldable pub command_to_payload : Bool → Command → Exec (Option Payload)
unfolding create set_buffer
command_to_payload mem command = elim (create mem) [
  | none ↦ done none
  | some fresh ↦
      set_buffer mem fresh (command.status ∷ command.payload) (length (command.payload) + 1)
      >>= λ (payload, size). done (some payload)
]
