-- ===== src/Journal/Pack.antt =====
-- The packed recovery journal: chapter_c_pack of raveloxmidi/src/chapter_c.c, chapter_n_pack of
-- chapter_n.c, channel_pack and journal_pack of midi_journal.c. Packing brings the lengths in the
-- structures up to date, so each function returns its structure with the bytes. Allocations succeed.
pub mod ChapterCLog
pub mod Lengths
mod Tests
use pimidi.Common.{
  ℕ, zero, suc, ◌+◌, ◌-◌, ◌*◌, ◌%◌, ◌^◌, Bool, true, false, Option, none, some, List, [], ◌∷◌, ◌++◌,
  bit_and, bit_or, if◌then◌else◌, ltb, leb, ◌==◌, length, replicate, sub_size,
}
use pimidi.Common.Memory.{Exec, done, fault, ◌>>=◌, memcpy}
use pimidi.ChapterP.{ChapterP}
use pimidi.ChapterP
use pimidi.Journal.{ChapterC, ControllerLog, ChapterN, ChapterNNote, Channel, Journal, has_data}
use pimidi.Journal.Headers.{pack_header, pack_channel_header}

-- The logs whose number is their place, from the place `i` on.
abbrev pub count_logs : ℕ → List ControllerLog → ℕ
count_logs i [] = 0
count_logs i (log ∷ logs) =
    let rest = count_logs (i + 1) logs in if log.number == i then suc rest else rest

-- The two bytes of a log.
abbrev pub log_bytes : ControllerLog → List ℕ
log_bytes log =
    (bit_or (log.s * 2 ^ 7) (bit_and log.number 0x7f) % 2 ^ 8)
    ∷ (if log.a == 1
        then bit_or (bit_or (log.a * 2 ^ 7 % 2 ^ 8) (log.t * 2 ^ 6) % 2 ^ 8)
            (bit_and log.value 0x3f)
          % 2 ^ 8
        else bit_or (log.a * 2 ^ 7 % 2 ^ 8) (bit_and log.value 0x7f) % 2 ^ 8)
    ∷ []

-- The loop of `chapter_c_pack` with its count of the bytes that are left.
abbrev pub pack_logs : ℕ → ℕ → List ControllerLog → List ℕ
pack_logs i current_size [] = []
pack_logs i current_size (log ∷ logs) = elim (leb 2 current_size) [
  | false ↦ []
  | true ↦ elim (log.number == i) [
    | true ↦ log_bytes log ++ pack_logs (i + 1) (current_size - 2) logs
    | false ↦ pack_logs (i + 1) current_size logs
  ]
]

-- `chapter_c_pack`: the bytes, none where no log is in use. The block is zero behind what is
-- written, and the count of the bytes left has eight bits.
unfoldable pub pack_c : ChapterC → List ℕ × ChapterC
pack_c c =
    let len = count_logs 0 c.controller_log % 2 ^ 8 in
    let size = 1 + len * 2 in
    let first = bit_or (c.s * 2 ^ 7) (bit_and (sub_size len 1) 0x7f) % 2 ^ 8 in
    let logs = pack_logs 0 ((size % 2 ^ 8 + 2 ^ 8 - 1) % 2 ^ 8) c.controller_log in
    if len == 0
    then ([], record c { len = len })
    else (first ∷ (logs ++ replicate (size - 1 - length logs) 0), record c { len = len })

-- `chapter_n_header_pack`.
abbrev pack_n_header : ChapterN → List ℕ
pack_n_header n =
    bit_or (bit_and n.b 0x01 * 2 ^ 7) (bit_and n.len 0x7f)
    ∷ bit_or (bit_and n.low 0x0f * 2 ^ 4) (bit_and n.high 0x0f)
    ∷ []

-- `chapter_n_note_pack`, and the loop over the notes.
abbrev pack_n_note : ChapterNNote → List ℕ
pack_n_note note =
    bit_or (note.s * 2 ^ 7) (bit_and note.num 0x7f)
    ∷ bit_or (note.y * 2 ^ 7) (bit_and note.velocity 0x7f)
    ∷ []

abbrev pack_n_notes : List ChapterNNote → List ℕ
pack_n_notes [] = []
pack_n_notes (note ∷ notes) = pack_n_note note ++ pack_n_notes notes

-- The bytes of the NOTE OFFs, from `low` to `high`.
abbrev pack_offbits : ChapterN → Exec (List ℕ)
pack_offbits n =
    if ltb n.high n.low
    then done []
    else memcpy (replicate (n.high - n.low + 1) 0) 0 n.offbits n.low (n.high - n.low + 1)

-- `chapter_n_pack`. The length in the header has seven bits.
unfoldable pub pack_n : ChapterN → Exec (List ℕ × ChapterN)
pack_n n =
    let counted = record n { len = n.num_notes % 2 ^ 7 } in
    pack_offbits counted >>= λ offbits.
    done (pack_n_header counted ++ (pack_n_notes n.notes ++ offbits), counted)

-- The chapters that a channel has, each with its bytes.
abbrev pub pack_opt_p : Option ChapterP → List ℕ
pack_opt_p none = []
pack_opt_p (some p) = elim (ChapterP.pack true p).0 [ none ↦ [] | some bytes ↦ bytes ]

abbrev pub pack_opt_c : Option ChapterC → List ℕ × Option ChapterC
pack_opt_c none = ([], none)
pack_opt_c (some c) = let (bytes, c') = pack_c c in (bytes, some c')

abbrev pub pack_opt_n : Option ChapterN → Exec (List ℕ × Option ChapterN)
pack_opt_n none = done ([], none)
pack_opt_n (some n) = pack_n n >>= λ (bytes, n'). done (bytes, some n')

-- `channel_pack`. The length in the header is a bit field of ten bits.
unfoldable pub pack_channel : Channel → Exec (List ℕ × Channel)
pack_channel ch =
    let p = pack_opt_p ch.chapter_p in
    let (c, chapter_c) = pack_opt_c ch.chapter_c in
    pack_opt_n ch.chapter_n >>= λ (n, chapter_n).
    let packed = record ch {
      len = (3 + length p + length c + length n) % 2 ^ 10;
      chapter_c = chapter_c;
      chapter_n = chapter_n;
    } in
    done (pack_channel_header packed ++ (p ++ (c ++ n)), packed)

-- The loop of `journal_pack` over the channels.
abbrev pack_channels : List (Option Channel) → Exec (List ℕ × List (Option Channel))
pack_channels [] = done ([], [])
pack_channels (none ∷ os) = pack_channels os >>= λ (bytes, os'). done (bytes, none ∷ os')
pack_channels (some ch ∷ os) = pack_channel ch >>= λ (first, ch').
    pack_channels os >>= λ (bytes, os'). done (first ++ bytes, some ch' ∷ os')

-- `journal_pack`: no bytes for a journal without data.
unfoldable pub pack_journal : Journal → Exec (List ℕ × Journal)
pack_journal j =
    if has_data j
    then (pack_channels j.channels >>= λ (bytes, channels).
        done (pack_header j ++ bytes, record j { channels = channels }))
    else done ([], j)
