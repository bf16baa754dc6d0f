-- ===== src/MidiState/Stream.antt =====
-- What the parser makes of a MIDI stream: delta times, real-time messages between the bytes of others,
-- system exclusive messages, and a stream that comes in pieces.
use pimidi.Common.{
  ℕ, ◌+◌, ◌*◌, ◌%◌, ◌^◌, ◌≤◌, ◌<◌, ◌≡◌, refl, sym, ap, ◌∙◌, Bool, ◌&&◌, bit_and, true, false, List,
  [], ◌∷◌, ◌++◌, append_assoc, ◌==◌, arith, leb, Bool-cases, inl, inr,
}
use pimidi.Common.Bits.{bit_and-0x7f, bit_and-0x80}
use pimidi.MidiCommand.{Command}
use pimidi.MidiState.{is_delta, is_init, is_received, wait_command, wait_end_sysex}
use pimidi.MidiState.Parser.{
  Parser, idle, real_time, command_of, step, step_begun, finish, dispatch, run, begin,
}

-- Without delta times a step does not turn them on.
finish_simple : (p : Parser) → (finish false false p).1 ≡ false
finish_simple p = elim (Bool-cases (is_received p.status)) [ inl e ↦ rw e | inr e ↦ rw e ]

step_begun_simple : (p : Parser) (byte : ℕ) → (step_begun false false p byte).1 ≡ false
step_begun_simple p byte = elim (Bool-cases (is_delta p.status)) [
  | inl e ↦ rw e
  | inr e ↦ elim (Bool-cases (leb 0xf8 byte)) [
    | inl k ↦ rw (e, k)
    | inr k ↦ rw (e, k) (finish_simple (dispatch p.status p byte))
  ]
]

step_simple : (p : Parser) (byte : ℕ) → (step false false p byte).1 ≡ false
unfolding step
step_simple p byte = step_begun_simple (begin false p) byte

-- A stream without delta times may be cut anywhere: two calls on its parts leave the parser that
-- one call on the whole leaves, and send its commands in its order.
run-append :
    (p : Parser) (xs ys : List ℕ)
    → run false false p (xs ++ ys) ≡ (
      (run false false (run false false p xs).0 ys).0,
      (run false false p xs).1 ++ (run false false (run false false p xs).0 ys).1,
    )
unfolding run
run-append p [] ys = refl
run-append p (x ∷ xs) ys = rw (step_simple p x) (
    ap (λ (z : Parser × List Command). (z.0, (step false false p x).2 ++ z.1))
      (run-append (step false false p x).0 xs ys)
    ∙ ap
        (λ (out : List Command).
          ((run false false (run false false (step false false p x).0 xs).0 ys).0, out))
        (sym (
          append_assoc (step false false p x).2 (run false false (step false false p x).0 xs).1
            (run false false (run false false (step false false p x).0 xs).0 ys).1)))

-- The flag and the status say whether a delta time is read.
pub begin-is_delta :
    (g : Bool) (p : Parser)
    → is_delta p.status ≡ false
    → (g && is_init p.status) ≡ false
    → is_delta (begin g p).status ≡ false
begin-is_delta true p other running = rw running other
begin-is_delta false p other running = elim (Bool-cases (is_init p.status)) [
  | inl e ↦ rw e refl
  | inr e ↦ rw e other
]

module _ (rtp : Bool) where
  pub run_cons :
      (g : Bool) (p : Parser) (byte : ℕ) (rest : List ℕ)
      → run rtp g p (byte ∷ rest) ≡ (
        (run rtp (step rtp g p byte).1 (step rtp g p byte).0 rest).0,
        (step rtp g p byte).2 ++ (run rtp (step rtp g p byte).1 (step rtp g p byte).0 rest).1,
      )
  unfolding run
  run_cons g p byte rest = refl

  -- The start of a command is reached once.
  begin-begin : (g : Bool) (p : Parser) → begin g (begin g p) ≡ begin g p
  begin-begin true p = elim (Bool-cases (is_init p.status)) [
    | inl e ↦ rw e refl
    | inr e ↦ rw (e, e) refl
  ]
  begin-begin false p = elim (Bool-cases (is_init p.status)) [
    | inl e ↦ rw e refl
    | inr e ↦ rw (e, e) refl
  ]

  run-begin :
      (g : Bool) (p : Parser) (next : ℕ) (rest : List ℕ)
      → run rtp g (begin g p) (next ∷ rest) ≡ run rtp g p (next ∷ rest)
  unfolding run step
  run-begin g p next rest = rw (begin-begin g p) refl

  step-real_time :
      (g : Bool) (p : Parser) (byte : ℕ)
      → 0xf8 ≤ byte
      → is_delta (begin g p).status ≡ false
      → step rtp g p byte ≡ (begin g p, g, real_time (begin g p) byte ∷ [])
  unfolding step
  step-real_time g p byte h other =
      let e : leb 0xf8 byte ≡ true = ground arith in rw (other, e) refl

  -- A real-time message between any two bytes, where no delta time is read, is sent at once, and changes
  -- nothing in what the parser makes of the other bytes: with it the parser ends as without it, and
  -- sends the same commands behind it.
  pub run_real_time :
      (g : Bool) (p : Parser) (byte next : ℕ) (rest : List ℕ)
      → 0xf8 ≤ byte
      → is_delta (begin g p).status ≡ false
      → run rtp g p (byte ∷ next ∷ rest) ≡ (
        (run rtp g p (next ∷ rest)).0,
        record { delta = (begin g p).delta; status = byte; payload = [] }
            ∷ (run rtp g p (next ∷ rest)).1,
      )
  run_real_time g p byte next rest h other =
      run_cons g p byte (next ∷ rest)
      ∙ rw (step-real_time g p byte h other, run-begin g p next rest) refl

-- The octet of a delta time below 128, where there is one, and the time it says.
abbrev pub delta_bytes : Bool → ℕ → List ℕ
delta_bytes true d = d ∷ []
delta_bytes false d = []

abbrev pub time_of : Bool → ℕ → ℕ
time_of true d = d
time_of false d = 0

-- A parser between two commands, with the time of the one before, and one at the start of a command.
abbrev pub resting : ℕ → ℕ → ℕ → Parser
resting r x d = record (idle r x) { delta = d }

abbrev pub ready : ℕ → ℕ → ℕ → Parser
ready r x d = record (resting r x d) { status = wait_command }

-- A delta time is read in front of a command where the flag says that there is one.
pub run-delta_bytes :
    (rtp g : Bool) (r x d0 d b : ℕ) (bytes : List ℕ)
    → d < 0x80
    → run rtp g (resting r x d0) (delta_bytes g d ++ (b ∷ bytes))
      ≡ run rtp g (ready r x (time_of g d)) (b ∷ bytes)
unfolding run step
run-delta_bytes rtp false r x d0 d b bytes h = refl
run-delta_bytes rtp true r x d0 d b bytes h =
    let last : (bit_and d 0x80 == 0) ≡ true = ground (arith, bit_and-0x80 d) in
    let sum : (0 * 2 ^ 8 % 2 ^ 64 + bit_and d 0x7f) % 2 ^ 64 ≡ d = omega (arith, bit_and-0x7f d) in
    rw (last, sum) refl

abbrev pub AllData : List ℕ → Type 0
AllData [] = Unit
AllData (b ∷ bs) = (b < 0x80) × AllData bs

-- The parser inside a system exclusive message.
abbrev in_sysex : ℕ → List ℕ → Parser
in_sysex d held = record (ready 0 0 d) { status = wait_end_sysex; held = held }

in_sysex_data :
    (rtp g : Bool) (d : ℕ) (held : List ℕ) (b : ℕ)
    → b < 0x80
    → step rtp g (in_sysex d held) b ≡ (in_sysex d (held ++ (b ∷ [])), g, [])
unfolding step
in_sysex_data rtp g d held b h =
    let real : leb 0xf8 b ≡ false = ground arith in
    let start : (b == 0xf0) ≡ false = ground arith in
    let ends : (b == 0xf7) ≡ false = ground arith in rw (real, start, ends) refl

-- Data bytes are held until the message ends.
run-in_sysex :
    (rtp g : Bool) (d : ℕ) (held payload : List ℕ)
    → AllData payload
    → run rtp g (in_sysex d held) (payload ++ (0xf7 ∷ []))
      ≡ (resting 0 0 d, command_of d (held ++ (payload ++ (0xf7 ∷ []))) ∷ [])
unfolding run step
run-in_sysex true g d held [] h = refl
run-in_sysex false g d held [] h = refl
run-in_sysex rtp g d held (b ∷ bs) (h, hs) =
    run_cons rtp g (in_sysex d held) b (bs ++ (0xf7 ∷ []))
    ∙ rw (
      in_sysex_data rtp g d held b h,
      run-in_sysex rtp g d (held ++ (b ∷ [])) bs hs,
      append_assoc held (b ∷ []) (bs ++ (0xf7 ∷ [])),
    )

-- A system exclusive message of data bytes is sent whole when its end comes, with the end byte in
-- its data, and cancels running status.
pub run_sysex :
    (rtp g : Bool) (r d : ℕ) (payload : List ℕ)
    → d < 0x80
    → AllData payload
    → run rtp g (idle r 0) (delta_bytes g d ++ (0xf0 ∷ payload ++ (0xf7 ∷ []))) ≡ (
      resting 0 0 (time_of g d),
      record { delta = time_of g d; status = 0xf0; payload = payload ++ (0xf7 ∷ []) } ∷ [],
    )
unfolding run step
run_sysex rtp g r d payload k h =
    run-delta_bytes rtp g r 0 0 d 0xf0 (payload ++ (0xf7 ∷ [])) k
    ∙ run-in_sysex rtp g (time_of g d) (0xf0 ∷ []) payload h
