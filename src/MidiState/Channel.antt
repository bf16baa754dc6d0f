-- ===== src/MidiState/Channel.antt =====
-- What the parser makes of channel messages, sent with running status or without.
use pimidi.Common.{
  ℕ, ◌≤◌, ◌<◌, ◌≡◌, ◌⊎◌, inl, inr, refl, ap, ◌∙◌, Bool, true, false, List, [], ◌∷◌, ◌++◌, ◌==◌,
  if◌then◌else◌, arith, Bool-cases,
}
use pimidi.MidiCommand.{Command}
use pimidi.MidiCommand.Table.{bytes_needed_lem, channel_bytes}
use pimidi.MidiState.{Status, wait_byte_1, wait_byte_2}
use pimidi.MidiState.Parser.{Parser, step, run, stop}
use pimidi.MidiState.Stream.{delta_bytes, time_of, resting, ready, run-delta_bytes}

-- A channel message of one data byte or of two.
pub data ChannelMessage : Type 0 where
  one : ℕ → ℕ → ChannelMessage
  two : ℕ → ℕ → ℕ → ChannelMessage

abbrev status_of : ChannelMessage → ℕ
status_of (one status d) = status
status_of (two status d e) = status

abbrev pub payload_of : ChannelMessage → List ℕ
payload_of (one status d) = d ∷ []
payload_of (two status d e) = d ∷ e ∷ []

abbrev IsChannel : ChannelMessage → Type 0
IsChannel (one status d) = (0xc0 ≤ status) × (status < 0xe0) × (d < 0x80)
IsChannel (two status d e) =
    ((0x80 ≤ status) × (status < 0xc0) ⊎ (0xe0 ≤ status) × (status < 0xf0))
    × (d < 0x80)
    × (e < 0x80)

-- The bytes of a message after one with the status `running`, which a sender may leave out.
abbrev encode_message : ℕ → ChannelMessage → List ℕ
encode_message running m =
    if status_of m == running then payload_of m else status_of m ∷ payload_of m

-- Each message has a delta time.
abbrev pub AllTimed : List (ℕ × ChannelMessage) → Type 0
AllTimed [] = Unit
AllTimed ((d, m) ∷ ms) = (d < 0x80) × IsChannel m × AllTimed ms

-- Whether a delta time is read behind the first command: always in a payload of RTP MIDI.
abbrev next_timed : Bool → Bool → Bool
next_timed rtp g = if rtp then true else g

-- The bytes of messages, the first with its delta time where `g` says so.
abbrev pub encode : Bool → Bool → ℕ → List (ℕ × ChannelMessage) → List ℕ
encode rtp g running [] = []
encode rtp g running ((d, m) ∷ ms) =
    delta_bytes g d ++ (encode_message running m ++ encode rtp (next_timed rtp g) (status_of m) ms)

-- The commands that the messages are.
abbrev pub commands : Bool → Bool → List (ℕ × ChannelMessage) → List Command
commands rtp g [] = []
commands rtp g ((d, m) ∷ ms) =
    record { delta = time_of g d; status = status_of m; payload = payload_of m }
    ∷ commands rtp (next_timed rtp g) ms

abbrev pub last_status : ℕ → List (ℕ × ChannelMessage) → ℕ
last_status running [] = running
last_status running ((d, m) ∷ ms) = last_status (status_of m) ms

abbrev pub last_time : Bool → Bool → ℕ → List (ℕ × ChannelMessage) → ℕ
last_time rtp g d [] = d
last_time rtp g d ((e, m) ∷ ms) = last_time rtp (next_timed rtp g) (time_of g e) ms

module _ (rtp g : Bool) (x δ : ℕ) where
  -- The parser inside a message.
  abbrev inside : ℕ → Status → List ℕ → Parser
  inside status st held = record (ready status x δ) { status = st; held = held }

  step_status :
      (r status : ℕ)
      → 0x80 ≤ status
      → status < 0xf0
      → step rtp g (ready r x δ) status ≡ (
        inside status
            (if channel_bytes status == 1 then wait_byte_1 else wait_byte_2)
            (status ∷ []),
        g,
        [],
      )
  unfolding step
  step_status r status lo hi = ground (arith, bytes_needed_lem status lo hi)

  -- A data byte that another one follows.
  step_first :
      (status d : ℕ) (held : List ℕ)
      → d < 0x80
      → step rtp g (inside status wait_byte_2 held) d
        ≡ (inside status wait_byte_1 (held ++ (d ∷ [])), g, [])
  unfolding step
  step_first status d held h = ground arith

  -- The last data byte of a message.
  step_last :
      (status s d : ℕ) (held : List ℕ)
      → d < 0x80
      → step rtp g (inside status wait_byte_1 (s ∷ held)) d ≡ (
        resting status x δ,
        next_timed rtp g,
        record { delta = δ; status = s; payload = held ++ (d ∷ []) } ∷ [],
      )
  unfolding step
  step_last status s d held h = ground arith

  -- A data byte in place of a status byte.
  step_running_one :
      (status d : ℕ)
      → 0xc0 ≤ status
      → status < 0xe0
      → d < 0x80
      → step rtp g (ready status x δ) d ≡ (
        resting status x δ,
        next_timed rtp g,
        record { delta = δ; status = status; payload = d ∷ [] } ∷ [],
      )
  unfolding step
  step_running_one status d lo hi h = ground (arith, bytes_needed_lem status)

  step_running_two :
      (status d : ℕ)
      → (0x80 ≤ status) × (status < 0xf0)
      → channel_bytes status ≡ 2
      → d < 0x80
      → step rtp g (ready status x δ) d ≡ (inside status wait_byte_1 (status ∷ d ∷ []), g, [])
  unfolding step
  step_running_two status d range needs h = ground (arith, bytes_needed_lem status)

  -- A message, and then the rest of the stream.
  run_message :
      (r : ℕ) (m : ChannelMessage) (rest : List ℕ)
      → IsChannel m
      → run rtp g (ready r x δ) (encode_message r m ++ rest) ≡ (
        (run rtp (next_timed rtp g) (resting (status_of m) x δ) rest).0,
        record { delta = δ; status = status_of m; payload = payload_of m }
            ∷ (run rtp (next_timed rtp g) (resting (status_of m) x δ) rest).1,
      )
  unfolding run
  run_message r (one status d) rest (lo, hi, h) = elim (Bool-cases (status == r)) [
    | inl e ↦
        let same : r ≡ status = ground arith in rw (e, same, step_running_one status d lo hi h)
    | inr e ↦
        let needs : channel_bytes status ≡ 1 = ground arith in
        rw (
          e,
          step_status r status (omega arith) (omega arith),
          needs,
          step_last status status d [] h,
        )
  ]
  run_message r (two status d e) rest (range, h, k) = elim (Bool-cases (status == r)) [
    | inl same_status ↦
        let same : r ≡ status = ground arith in
        rw (
          same_status,
          same,
          step_running_two status d bounds needs h,
          step_last status status e (d ∷ []) k,
        )
    | inr other ↦ rw (
      other,
      step_status r status bounds.0 bounds.1,
      needs,
      step_first status d (status ∷ []) h,
      step_last status status e (d ∷ []) k,
    )
  ]
    where
      bounds : (0x80 ≤ status) × (status < 0xf0)
      bounds = omega arith

      needs : channel_bytes status ≡ 2
      needs = ground arith

-- A message has a first byte.
run-timed :
    (rtp g : Bool) (r x d0 d : ℕ) (m : ChannelMessage) (rest : List ℕ)
    → d < 0x80
    → run rtp g (resting r x d0) (delta_bytes g d ++ (encode_message r m ++ rest))
      ≡ run rtp g (ready r x (time_of g d)) (encode_message r m ++ rest)
run-timed rtp g r x d0 d (one status e) rest h = elim (Bool-cases (status == r)) [
  | inl same ↦ rw same (run-delta_bytes rtp g r x d0 d e rest h)
  | inr other ↦ rw other (run-delta_bytes rtp g r x d0 d status (e ∷ rest) h)
]
run-timed rtp g r x d0 d (two status e f) rest h = elim (Bool-cases (status == r)) [
  | inl same ↦ rw same (run-delta_bytes rtp g r x d0 d e (f ∷ rest) h)
  | inr other ↦ rw other (run-delta_bytes rtp g r x d0 d status (e ∷ f ∷ rest) h)
]

stop-resting : (rtp : Bool) (r x d : ℕ) → stop rtp (resting r x d) ≡ resting r x d
stop-resting true r x d = refl
stop-resting false r x d = refl

-- The parser between two commands, fed channel messages that each name their status byte or leave
-- it out where it is the one before, and have a delta time where one is read, sends exactly these
-- messages as commands, in their order, and stands between two commands again.
pub run-encode :
    (rtp g : Bool) (r x d : ℕ) (ms : List (ℕ × ChannelMessage))
    → AllTimed ms
    → run rtp g (resting r x d) (encode rtp g r ms)
      ≡ (resting (last_status r ms) x (last_time rtp g d ms), commands rtp g ms)
unfolding run
run-encode rtp g r x d [] h = ap (λ p. (p, [])) (stop-resting rtp r x d)
run-encode rtp g r x d ((e, m) ∷ ms) h =
    let rest = encode rtp (next_timed rtp g) (status_of m) ms in
    run-timed rtp g r x d e m rest h.0
    ∙ run_message rtp g x (time_of g e) r m rest h.1
    ∙ ap
        (λ (z : Parser × List Command).
          (z.0, record { delta = time_of g e; status = status_of m; payload = payload_of m } ∷ z.1))
        (run-encode rtp (next_timed rtp g) (status_of m) x (time_of g e) ms h.2)
