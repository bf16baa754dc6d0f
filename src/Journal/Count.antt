-- ===== src/Journal/Count.antt =====
-- The number of channels in the journal's header.
use pimidi.Common.{
  ℕ, zero, suc, ◌+◌, ◌%◌, ◌^◌, ◌≤◌, ◌<◌, ◌≡◌, refl, ap, ◌∙◌, inl, inr, Bool, true, false, Option,
  none, some, replicate, List, [], ◌∷◌, leb, ltb, ◌==◌, if◌then◌else◌, Bool-cases, length,
  length-set, get_or, set, get_or-set, arith,
}
use pimidi.Common.Memory.{Exec, done, Returns, ◌>>=◌, Returns->>=}
use pimidi.MidiNote.{Note}
use pimidi.MidiControl.{Control}
use pimidi.MidiProgram.{Program}
use pimidi.Journal.Room.{ChannelFits, Updated, IsPlainNote, set_notes-Updated, set_control-Updated}
use pimidi.Journal.{
  Channel, Journal, init, or_else, open_channel, create_channel, numbered, put_channel, enter,
  add_note, add_control, add_program, set_program, set_control, set_notes, note_on, note_off,
}

abbrev is_present : Option Channel → Bool
is_present none = false
is_present (some ch) = true

abbrev pub count : List (Option Channel) → ℕ
count [] = 0
count (none ∷ os) = count os
count (some ch ∷ os) = suc (count os)

-- The header counts the channels that are there, and each of them knows its number and has the arrays
-- of its chapters.
pub record IsCounted (j : Journal) : Type 0 where
  pub sixteen : length j.channels ≡ 16
  pub total : j.totchan ≡ count j.channels
  pub tagged :
      (i : ℕ) → is_present (get_or j.channels i none) ≡ true → (open_channel j i).chan ≡ i + 1
  pub room : (i : ℕ) → ChannelFits (open_channel j i)

count-set :
    (os : List (Option Channel)) (i : ℕ) (ch : Channel)
    → i < length os
    → count (set os i (some ch)) ≡ count os + (if is_present (get_or os i none) then 0 else 1)
count-set [] i ch h = absurd (omega arith)
count-set (none ∷ os) zero ch h = omega arith
count-set (some c ∷ os) zero ch h = omega arith
count-set (none ∷ os) (suc i) ch h = count-set os i ch (omega arith)
count-set (some c ∷ os) (suc i) ch h = omega (arith, count-set os i ch (omega arith))

count_bound : (os : List (Option Channel)) → count os ≤ length os
count_bound [] = omega arith
count_bound (none ∷ os) = omega (arith, count_bound os)
count_bound (some c ∷ os) = omega (arith, count_bound os)

is_numbered : Journal → ℕ → Bool
is_numbered j i = (open_channel j i).chan == i + 1

-- On a counted journal a channel has its number exactly if it is there.
is_numbered_lem :
    (j : Journal) (i : ℕ) → IsCounted j → is_numbered j i ≡ is_present (get_or j.channels i none)
unfolding is_numbered
is_numbered_lem j i c = known (get_or j.channels i none) (c.tagged i)
  where
    known :
        (o : Option Channel)
        → (is_present o ≡ true → (or_else o create_channel).chan ≡ i + 1)
        → ((or_else o create_channel).chan == i + 1) ≡ is_present o
    known none t = ground arith
    known (some ch) t = let e : ch.chan ≡ i + 1 = t refl in ground arith

module _ (j : Journal) (i seq flag : ℕ) (ch : Channel) where
  module _ (new : Updated (numbered j i flag) ch) (c : IsCounted j) (h : i < 15) where
    entered_chan : ch.chan ≡ i + 1
    entered_chan = new.0 ∙ ground arith

    entered_total :
        (if (open_channel j i).chan == i + 1 then j.totchan else (j.totchan + 1) % 2 ^ 8)
        ≡ count (set j.channels i (some ch))
    unfolding is_numbered
    entered_total =
        let numbered : is_numbered j i ≡ is_present (get_or j.channels i none) =
          is_numbered_lem j i c in
        let more : count (set j.channels i (some ch))
            ≡ count j.channels + (if is_present (get_or j.channels i none) then 0 else 1) =
          count-set j.channels i ch (omega (arith, c.sixteen)) in
        rw (numbered, more)
          (at (is_present (get_or j.channels i none))
            (omega (arith, c.sixteen, count_bound j.channels)))
      where
        at :
            (b : Bool)
            → count j.channels ≤ 16
            → (if b then j.totchan else (j.totchan + 1) % 2 ^ 8)
              ≡ count j.channels + (if b then 0 else 1)
        at true k = omega (arith, c.total)
        at false k = omega (arith, c.total)

    entered_tagged :
        (k : ℕ)
        → is_present (get_or (set j.channels i (some ch)) k none) ≡ true
        → (or_else (get_or (set j.channels i (some ch)) k none) create_channel).chan ≡ k + 1
    entered_tagged k =
        rw (get_or-set j.channels i k (some ch) none (omega (arith, c.sixteen)))
          (elim (Bool-cases (i == k)) [
            | inl e ↦
                let same : i ≡ k = ground arith in rw e (λ p. entered_chan ∙ ap (λ n. n + 1) same)
            | inr e ↦ rw e (c.tagged k)
          ])

    entered_room :
        (k : ℕ) → ChannelFits (or_else (get_or (set j.channels i (some ch)) k none) create_channel)
    entered_room k =
        rw (get_or-set j.channels i k (some ch) none (omega (arith, c.sixteen)))
          (elim (Bool-cases (i == k)) [ inl e ↦ rw e new.1 | inr e ↦ rw e (c.room k) ])

    -- An event keeps a counted journal counted.
    put_channel-IsCounted : IsCounted (put_channel j i seq ch)
    unfolding put_channel
    put_channel-IsCounted = record {
      sixteen = length-set j.channels i (some ch) ∙ c.sixteen;
      total = entered_total;
      tagged = entered_tagged;
      room = entered_room;
    }

enter-IsCounted :
    (j : Journal) (i seq flag : ℕ) (update : Channel → Exec Channel)
    → Returns (update (numbered j i flag)) (Updated (numbered j i flag))
    → IsCounted j
    → i < 15
    → Returns (enter j i seq flag update) IsCounted
enter-IsCounted j i seq flag update w c h =
    Returns->>= (update (numbered j i flag)) _ (Updated (numbered j i flag)) IsCounted w
      (λ ch v. put_channel-IsCounted j i seq flag ch v c h)

-- The journal after a list of events, each with its sequence number.
pub data Event : Type 0 where
  note : Note → Event
  control : Control → Event
  program : Program → Event

abbrev pub add : Journal → ℕ → Event → Exec Journal
add j seq (note m) = add_note j seq m
add j seq (control m) = add_control j seq m
add j seq (program m) = done (add_program j seq m)

abbrev pub add_all : Journal → List (ℕ × Event) → Exec Journal
add_all j [] = done j
add_all j ((seq, e) ∷ es) = add j seq e >>= λ j'. add_all j' es

-- An event on one of the first 15 channels; a NOTE OFF is for a note below 128 that is no multiple of 8.
abbrev IsPlain : Event → Type 0
IsPlain (note m) = (m.channel < 15) × IsPlainNote m
IsPlain (control m) = m.channel < 15
IsPlain (program m) = m.channel < 15

abbrev AllPlain : List (ℕ × Event) → Type 0
AllPlain [] = Unit
AllPlain ((seq, e) ∷ es) = IsPlain e × AllPlain es

add_note-IsCounted :
    (j : Journal) (seq : ℕ) (m : Note)
    → IsPlain (note m)
    → IsCounted j
    → Returns (add_note j seq m) IsCounted
unfolding add_note
add_note-IsCounted j seq m (h, plain) c =
    let known : leb 16 m.channel ≡ false = ground arith in
    rw known (
      enter-IsCounted j m.channel seq 0x08
        (set_notes (λ n. if m.command == 8 then note_off m n else note_on m n))
        (set_notes-Updated m (numbered j m.channel 0x08) plain (c.room m.channel)) c h)

add_control-IsCounted :
    (j : Journal) (seq : ℕ) (m : Control)
    → m.channel < 15
    → IsCounted j
    → Returns (add_control j seq m) IsCounted
unfolding add_control
add_control-IsCounted j seq m h c =
    let known : leb 16 m.channel ≡ false = ground arith in
    rw known (elim (Bool-cases (ltb 127 m.controller_number)) [
      | inl e ↦ rw e c
      | inr e ↦ rw e (
          enter-IsCounted j m.channel seq 0x40 (set_control m)
            (set_control-Updated m (numbered j m.channel 0x40) e (c.room m.channel)) c h)
    ])

add_program-IsCounted :
    (j : Journal) (seq : ℕ) (m : Program)
    → m.channel < 15
    → IsCounted j
    → IsCounted (add_program j seq m)
unfolding add_program
add_program-IsCounted j seq m h c =
    let known : leb 16 m.channel ≡ false = ground arith in
    rw known (
      put_channel-IsCounted j m.channel seq 0x80 (set_program m (numbered j m.channel 0x80))
        (refl, c.room m.channel) c h)

add-IsCounted :
    (j : Journal) (seq : ℕ) (e : Event) → IsPlain e → IsCounted j → Returns (add j seq e) IsCounted
add-IsCounted j seq (note m) h c = add_note-IsCounted j seq m h c
add-IsCounted j seq (control m) h c = add_control-IsCounted j seq m h c
add-IsCounted j seq (program m) h c = add_program-IsCounted j seq m h c

-- A journal that counts its channels is entered any events on the first 15 channels without undefined
-- behaviour, where a NOTE OFF is for a note below 128 that is no multiple of 8, and counts its channels
-- again: the number in its header is the number of channels in it, each of which knows its own number
-- and has 16 bytes of NOTE OFF bits, the notes that it counts, 127 at most, and 128 logs of controllers,
-- as far as it has the chapters.
pub add_all-IsCounted :
    (j : Journal) (es : List (ℕ × Event))
    → IsCounted j
    → AllPlain es
    → Returns (add_all j es) IsCounted
add_all-IsCounted j [] c h = c
add_all-IsCounted j ((seq, e) ∷ es) c (h, hs) =
    Returns->>= (add j seq e) _ _ _ (add-IsCounted j seq e h c)
      λ j' c'. add_all-IsCounted j' es c' hs

no_channel : (n i : ℕ) → get_or (replicate {A = Option Channel} n none) i none ≡ none
no_channel zero i = refl
no_channel (suc n) zero = refl
no_channel (suc n) (suc i) = no_channel n i

-- A new journal is counted.
pub init-IsCounted : IsCounted init
init-IsCounted = record {
  sixteen = refl;
  total = refl;
  tagged = λ i. rw (no_channel 16 i) λ p. absurd (ground arith);
  room = λ i. rw (no_channel 16 i) (tt, tt);
}
