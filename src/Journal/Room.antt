-- ===== src/Journal/Room.antt =====
-- The arrays of the chapters N and C: events are stored inside them.
use pimidi.Common.{
  ◌%◌, ◌^◌, ◌≤◌, ◌<◌, ◌≡◌, refl, ◌∙◌, inl, inr, true, false, Option, none, some, List, [], ◌∷◌, ltb,
  leb, ◌&&◌, ◌||◌, ◌==◌, if◌then◌else◌, Bool-cases, length, length-set, length-append, length-take,
  take, arith,
}
use pimidi.Common.Memory.{Returns, Returns->>=}
use pimidi.MidiNote.{Note}
use pimidi.MidiControl.{Control}
use pimidi.Journal.{
  ChapterNNote, ChapterC, ChapterN, Channel, create_c, create_n, or_else, set_control, note_on,
  note_off, set_notes, offset_of, shift_of,
}

-- As many pointers to notes as it counts, 127 at most, and 16 bytes of NOTE OFF bits.
abbrev NotesFit : ChapterN → Type 0
NotesFit n = (n.num_notes ≤ 127) × (length n.notes ≡ n.num_notes) × (length n.offbits ≡ 16)

-- 128 logs of controllers.
abbrev LogsFit : ChapterC → Type 0
LogsFit c = length c.controller_log ≡ 128

abbrev IfThere {ℓ} : {A : Type ℓ} → (A → Type 0) → Option A → Type 0
IfThere P none = Unit
IfThere P (some a) = P a

-- The chapters of a channel have their arrays.
abbrev pub ChannelFits : Channel → Type 0
ChannelFits ch = IfThere NotesFit ch.chapter_n × IfThere LogsFit ch.chapter_c

-- A channel with the number of `ch`, whose chapters have their arrays.
abbrev pub Updated : Channel → Channel → Type 0
Updated ch out = (out.chan ≡ ch.chan) × ChannelFits out

note_on-NotesFit : (m : Note) (n : ChapterN) → NotesFit n → Returns (note_on m n) NotesFit
unfolding note_on
note_on-NotesFit m n (few, count, bits) = elim (Bool-cases (n.num_notes == 127)) [
  | inl e ↦ rw e (few, count, bits)
  | inr e ↦
      let inside : ltb n.num_notes 127 ≡ true = ground (arith, e, few) in
      let new : List ChapterNNote =
        record { s = 0; num = m.note % 2 ^ 7; y = 0; velocity = m.velocity % 2 ^ 7 } ∷ [] in
      let more : n.num_notes < 127 = ground (arith, inside) in
      rw (e, inside)
        (
          omega (arith, more),
          omega (
            arith,
            more,
            count,
            length-append (take n.num_notes n.notes) new,
            length-take n.num_notes n.notes,
          ),
          bits,
        )
]

note_off-NotesFit :
    (m : Note) (n : ChapterN)
    → m.note < 128
    → (m.note % 8 == 0) ≡ false
    → NotesFit n
    → Returns (note_off m n) NotesFit
unfolding note_off
note_off-NotesFit m n small other (few, count, bits) =
    let shift : ltb (shift_of m.note) 32 ≡ true = ground arith in
    let inside : ltb (offset_of m.note) (length n.offbits) ≡ true = ground (arith, bits) in
    rw (shift, inside) (few, count, length-set n.offbits (offset_of m.note) _ ∙ bits)

new_notes : (o : Option ChapterN) → IfThere NotesFit o → NotesFit (or_else o create_n)
new_notes none h = (omega arith, refl, refl)
new_notes (some n) h = h

new_logs : (o : Option ChapterC) → IfThere LogsFit o → LogsFit (or_else o create_c)
new_logs none h = refl
new_logs (some c) h = h

-- A note that is no NOTE OFF for a multiple of 8 or from 128 on.
abbrev pub IsPlainNote : Note → Type 0
IsPlainNote m = ((m.command == 8) && (leb 128 m.note || m.note % 8 == 0)) ≡ false

entry-NotesFit :
    (m : Note) (n : ChapterN)
    → IsPlainNote m
    → NotesFit n
    → Returns (if m.command == 8 then note_off m n else note_on m n) NotesFit
entry-NotesFit m n plain h = elim (Bool-cases (m.command == 8)) [
  | inl e ↦
      let small : leb 128 m.note ≡ false = ground (arith, e, plain) in
      let other : (m.note % 8 == 0) ≡ false = ground (arith, e, plain) in
      rw e (note_off-NotesFit m n (ground (arith, small)) other h)
  | inr e ↦ rw e (note_on-NotesFit m n h)
]

pub set_notes-Updated :
    (m : Note) (ch : Channel)
    → IsPlainNote m
    → ChannelFits ch
    → Returns
        (set_notes (λ n. if m.command == 8 then note_off m n else note_on m n) ch)
        (Updated ch)
set_notes-Updated m ch plain (h, k) =
    let old = record (or_else ch.chapter_n create_n) { b = 1 } in
    Returns->>= (if m.command == 8 then note_off m old else note_on m old) _ NotesFit (Updated ch)
      (entry-NotesFit m old plain (new_notes ch.chapter_n h)) (λ n w. (refl, (w, k)))

pub set_control-Updated :
    (m : Control) (ch : Channel)
    → ltb 127 m.controller_number ≡ false
    → ChannelFits ch
    → Returns (set_control m ch) (Updated ch)
set_control-Updated m ch small (h, k) =
    let c = or_else ch.chapter_c create_c in
    let size : length c.controller_log ≡ 128 = new_logs ch.chapter_c k in
    let inside : ltb m.controller_number (length c.controller_log) ≡ true =
      ground (arith, small, size) in
    rw inside (refl, (h, length-set c.controller_log m.controller_number _ ∙ size))
