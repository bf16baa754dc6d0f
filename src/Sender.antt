-- ===== src/Sender.antt =====
-- raveloxmidi/src/midi_sender.c: the packet that is built for each connection, and what is entered in
-- its journal. Allocations succeed. The output to ALSA and to the local file is left out.
pub mod Packet
pub mod Sent
mod Tests
use pimidi.Common.{
  ℕ, zero, suc, ◌+◌, ◌*◌, ◌/◌, ◌%◌, ◌^◌, Bool, true, false, Option, none, some, List, [], ◌∷◌, ◌++◌,
  bit_and, bit_or, if◌then◌else◌, ltb, leb, ◌==◌, length, replicate, add_size,
}
use pimidi.Common.Memory.{Exec, done, fault, ◌>>=◌, memcpy, store}
use pimidi.Bytes.{put_uint16, put_uint32}
use pimidi.RtpPacket
use pimidi.RtpPacket.{temp_header}
use pimidi.MidiPayload.{Payload, flag_bits, put_j, command_to_payload}
use pimidi.MidiPayload
use pimidi.MidiCommand.{
  Command, MessageType, message_type, note_off, note_on, control_change, program_change,
}
use pimidi.MidiNote.{Note}
use pimidi.MidiNote
use pimidi.MidiControl.{Control}
use pimidi.MidiControl
use pimidi.MidiProgram.{Program}
use pimidi.MidiProgram
use pimidi.DataTable.{DataTable, item_get, item_count, change}
use pimidi.Journal.Pack.{pack_journal}
use pimidi.Connection.{
  Ctx, Env, Datagram, increment_seq, update_rtp_fields, send, add_journal_note, add_journal_control,
  add_journal_program,
}

-- The fields of a packet's header that are the same for all.
abbrev pub plain_header : RtpPacket.Header
plain_header = record {
  v = 2;
  p = 0;
  x = 0;
  cc = 0;
  m = 0;
  pt = 97;
  seq = 0;
  timestamp = 0;
  ssrc = 0;
}

-- The flags and the length of the payload, at the cursor.
abbrev pub put_length : List ℕ → ℕ → ℕ → MidiPayload.Header → Exec (List ℕ × ℕ × ℕ)
put_length block p len h =
    if leb h.len 15
    then (store block p (bit_or (flag_bits h) (bit_and h.len 0x0f)) >>= λ b.
        done (b, p + 1, add_size len 1))
    else (store block p (bit_or (flag_bits h) (bit_and h.len 0x0f00 / 2 ^ 8) % 2 ^ 8) >>= λ b1.
        store b1 (p + 1) (bit_and h.len 0x00ff) >>= λ b2. done (b2, p + 2, add_size len 2))

-- The packed journal, if there is one.
abbrev pub put_journal : List ℕ → ℕ → ℕ → List ℕ → Exec (List ℕ × ℕ)
put_journal block p len journal =
    if ltb 0 (length journal)
    then (memcpy block p journal 0 (length journal) >>= λ b.
        done (b, add_size len (length journal)))
    else done (block, len)

-- The packet in its block, and its length: header, payload, journal.
unfoldable pub build : RtpPacket.Header → MidiPayload.Header → List ℕ → List ℕ → Exec (List ℕ × ℕ)
build header h bytes journal = do
  let payload_len = 1 + h.len + (if ltb 15 h.len then 1 else 0)
  (b1, p1, n1) ←
      put_uint16 (replicate (12 + payload_len + length journal) 0) 0 (temp_header header) 0
  (b2, p2, n2) ← put_uint16 b1 p1 header.seq n1
  (b3, p3, n3) ← put_uint32 b2 p2 header.timestamp n2
  (b4, p4, n4) ← put_uint32 b3 p3 header.ssrc n3
  (b5, p5, n5) ← put_length b4 p4 n4 h
  b6 ← memcpy b5 p5 bytes 0 h.len
  put_journal b6 (p5 + h.len) (add_size n5 h.len) journal

-- What the command is entered in the journals as.
pub data JournalEntry : Type 0 where
  no_entry : JournalEntry
  note : Note → JournalEntry
  control : Control → JournalEntry
  program : Program → JournalEntry

abbrev entry_or {ℓ} : {A : Type ℓ} → (A → JournalEntry) → Option A → JournalEntry
entry_or f none = no_entry
entry_or f (some a) = f a

-- The note, the control or the program of a command.
unfoldable entry_of : Command → Exec JournalEntry
entry_of c = elim (message_type c.status) [
  | note_off ↦ MidiNote.from_command true c >>= λ o. done (entry_or note o)
  | note_on ↦ MidiNote.from_command true c >>= λ o. done (entry_or note o)
  | control_change ↦ MidiControl.from_command true c >>= λ o. done (entry_or control o)
  | program_change ↦ MidiProgram.from_command true c >>= λ o. done (entry_or program o)
  | _ ↦ done no_entry
]

-- A connection with the entry in its journal.
abbrev journalled : JournalEntry → Ctx → Exec Ctx
journalled no_entry ctx = done ctx
journalled (note n) ctx = add_journal_note ctx n
journalled (control c) ctx = add_journal_control ctx c
journalled (program p) ctx = done (add_journal_program ctx p)

-- The bytes of a payload.
abbrev payload_bytes : Payload → List ℕ
payload_bytes payload = elim (payload.buffer) [ none ↦ [] | some bytes ↦ bytes ]

-- The body of the loop for one connection: its datagram, and the connection behind it.
unfoldable pub send_to : Env → Bool → Payload → JournalEntry → Ctx → Exec (Option Datagram × Ctx)
send_to env journal_enabled payload entry ctx = pack_journal ctx.journal >>= λ (journal, packed).
    let flagged = put_j (ltb 0 (length journal)) payload in
    let ctx' = increment_seq (record ctx { journal = packed }) in
    build (update_rtp_fields env ctx' plain_header) flagged.header (payload_bytes payload) journal
    >>= λ (buffer, len). (if journal_enabled then journalled entry ctx' else done ctx') >>= λ ctx''.
        done (send ctx' buffer len false, ctx'')

-- A connection of the table but the originator.
abbrev send_to_place :
    Env
    → Bool
    → Payload
    → JournalEntry
    → ℕ
    → DataTable Ctx
    → ℕ
    → Exec (Option Datagram × DataTable Ctx)
send_to_place env journal_enabled payload entry originator_ssrc t i = elim (item_get t i) [
  | none ↦ done (none, t)
  | some ctx ↦
      if ctx.ssrc == originator_ssrc
      then done (none, t)
      else (send_to env journal_enabled payload entry ctx >>= λ (datagram, ctx').
          done (datagram, change t i (λ old. ctx')))
]

abbrev with_datagram : Option Datagram → List Datagram → List Datagram
with_datagram none rest = rest
with_datagram (some d) rest = d ∷ rest

-- The loop over the connections from `i` on, `n` of them.
abbrev send_from :
    Env
    → Bool
    → Payload
    → JournalEntry
    → ℕ
    → ℕ
    → DataTable Ctx
    → ℕ
    → Exec (List Datagram × DataTable Ctx)
send_from env journal_enabled payload entry originator_ssrc zero t i = done ([], t)
send_from env journal_enabled payload entry originator_ssrc (suc n) t i =
    send_to_place env journal_enabled payload entry originator_ssrc t i >>= λ (d, t').
    send_from env journal_enabled payload entry originator_ssrc n t' (i + 1) >>= λ (ds, t'').
    done (with_datagram d ds, t'')

-- `midi_sender_send_single`: the datagrams in their order and the table.
unfoldable send_single :
    Env → Bool → DataTable Ctx → Command → ℕ → Exec (List Datagram × DataTable Ctx)
send_single env journal_enabled t command originator_ssrc =
    command_to_payload true command >>= λ made. elim made [
      | none ↦ done ([], t)
      | some payload ↦ entry_of command >>= λ entry.
          send_from env journal_enabled payload entry originator_ssrc (item_count t) t 0
    ]
