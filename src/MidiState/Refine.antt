-- ===== src/MidiState/Refine.antt =====
-- `midi_state_send` computes what the parser over lists computes.
use pimidi.Common.{
  ℕ, suc, ◌+◌, ◌-◌, ◌^◌, ◌<◌, ◌≡◌, ◌≢◌, refl, sym, ap, ◌∙◌, Bool, true, false, List, [], ◌∷◌, ◌++◌,
  length, length-append, take, take_all, drop, get_or, Bool-cases, inl, inr, leb, ltb, ◌==◌,
  if◌then◌else◌, arith,
}
use mathlib.Core.Path.{subst, subst₂}
use pimidi.Common.Memory.{done, ◌>>=◌, Returns, Returns->>=}
use pimidi.RingBuffer.{Ring}
use pimidi.Dbuffer
use pimidi.Dbuffer.{Dbuffer}
use pimidi.Dbuffer.Laws
use pimidi.MidiCommand.{Command, fresh, command_set, bytes_needed}
use pimidi.MidiState.{
  MidiState, Status, wait_delta, wait_command, wait_byte_1, wait_byte_2, wait_end_sysex,
  command_received, is_init, is_received, is_delta, hold_byte, after_running, on_data, on_status,
  on_sysex, dispatch, finish, step_begun, step,
}
use pimidi.MidiState.Parser
use pimidi.MidiState.Parser.{Parser}

-- The parser that a state stands for.
abbrev pub view : MidiState → Parser
view s = record {
  status = s.status;
  running_status = s.running_status;
  held = Laws.held s.hold;
  delta = s.current_delta;
  partial_sysex = s.partial_sysex;
}

-- A hold buffer that takes `room` bytes more.
pub record HasRoom (d : Dbuffer) (room : ℕ) : Type 0 where
  pub valid : Laws.IsValid d
  pub block : d.block_size ≡ 512
  pub small : d.len + room < 2 ^ 62

-- What a part of a step leaves: it gives the parser `p`, and leaves the ring and room in the hold
-- buffer for `room` bytes.
abbrev Gives : Ring → Parser → ℕ → MidiState → Type 0
Gives ring p room s = (view s ≡ p) × (s.ring ≡ ring) × HasRoom s.hold room

hold_byte-Gives :
    (s : MidiState) (byte room : ℕ)
    → HasRoom s.hold (suc room)
    → Returns (hold_byte s byte) (Gives s.ring (Parser.push (view s) byte) room)
hold_byte-Gives s byte room h =
    Returns->>= (Dbuffer.write true s.hold (byte ∷ []) 1) _ _ _
      (Laws.write_lem s.hold (byte ∷ []) 1 h.valid (omega arith) (omega arith))
      λ out w. (
        ap (λ q. record (view s) { held = q }) w.1,
        refl,
        record { valid = w.4; block = w.3 ∙ h.block; small = omega arith },
      )

on_data-Gives :
    (s : MidiState) (byte room : ℕ)
    → HasRoom s.hold (suc (suc room))
    → s.running_status ≢ 0
    → Returns (on_data s byte) (Gives s.ring (Parser.on_data (view s) byte) room)
on_data-Gives s byte room h ne =
    let some_running : (s.running_status == 0) ≡ false = ground arith in
    rw some_running (
      Returns->>= (hold_byte s s.running_status) _ _ _
        (hold_byte-Gives s s.running_status (suc room) h)
        λ s1 w. Returns->>= (hold_byte s1 byte) _ _ _ (hold_byte-Gives s1 byte room w.2) λ s2 u. (
          ap {A = Parser} (λ q. record q { status = after_running (bytes_needed s.running_status) })
              (u.0 ∙ ap (λ q. Parser.push q byte) w.0),
          u.1 ∙ w.1,
          u.2,
        ))

on_status-Gives :
    (s : MidiState) (byte room : ℕ)
    → HasRoom s.hold (suc room)
    → Returns (on_status s byte) (Gives s.ring (Parser.on_status (view s) byte) room)
on_status-Gives s byte room h =
    Returns->>= (hold_byte s byte) _ _ _ (hold_byte-Gives s byte room h) λ s1 w. ground arith

on_sysex-Gives :
    (s : MidiState) (byte room : ℕ)
    → HasRoom s.hold (suc room)
    → Returns (on_sysex s byte) (Gives s.ring (Parser.on_sysex (view s) byte) room)
on_sysex-Gives s byte room h =
    Returns->>= (hold_byte s byte) _ _ _ (hold_byte-Gives s byte room h) λ s1 w. ground arith

less : {d : Dbuffer} {room : ℕ} → HasRoom d (suc room) → HasRoom d room
less h = record { valid = h.valid; block = h.block; small = omega arith }

hold_then :
    (s : MidiState) (byte room : ℕ)
    → HasRoom s.hold (suc room)
    → (st : Status)
    → Returns
        (hold_byte s byte >>= λ s1. done (record s1 { status = st }))
        (Gives s.ring (record (Parser.push (view s) byte) { status = st }) room)
hold_then s byte room h st =
    Returns->>= (hold_byte s byte) _ _ _ (hold_byte-Gives s byte room h)
      λ s1 w. (ap {A = Parser} (λ q. record q { status = st }) w.0, w.1, w.2)

-- The command that the code makes of a hold buffer's bytes.
command_lem :
    (delta : ℕ) (buffer : List ℕ)
    → 0 < length buffer
    → command_set fresh delta (get_or buffer 0 0) (drop 1 buffer) (length buffer - 1)
      ≡ Parser.command_of delta buffer
unfolding command_set
command_lem delta [] h = absurd (omega arith)
command_lem delta (b ∷ bs) h =
    ap (λ payload. record { delta = delta; status = b; payload = payload })
      (ap (λ n. take n bs) (omega arith) ∙ take_all bs)

-- What a step leaves, with the commands it sends.
abbrev Stepped : Ring → ℕ → Parser × Bool × List Command → MidiState × Bool × List Command → Type 0
Stepped ring room q out =
    ((view out.0, out.1, out.2) ≡ q)
    × (out.0.ring ≡ ring)
    × HasRoom out.0.hold room
    × (is_received out.0.status ≡ false)

finish-Stepped :
    (rtp get_delta : Bool) (s : MidiState) (room : ℕ)
    → HasRoom s.hold room
    → (is_received s.status ≡ true → 0 < length (Laws.held s.hold))
    → Returns (finish rtp get_delta s) (Stepped s.ring room (Parser.finish rtp get_delta (view s)))
finish-Stepped rtp get_delta s room h some_held = elim (Bool-cases (is_received s.status)) [
  | inl e ↦
      rw (e, Laws.read_lem s.hold h.valid)
        (ground (
          arith,
          some_held e,
          command_lem s.current_delta (Laws.held s.hold),
          Laws.reset_lem s.hold,
          h.valid,
          h.small,
          h.block,
          reset_len,
        ))
  | inr e ↦ rw e (refl, refl, h, e)
]
  where
    reset_len : ((Dbuffer.reset s.hold).len ≡ 0) × ((Dbuffer.reset s.hold).block_size ≡ 512)
    reset_len = unfold Dbuffer.reset in (refl, h.block)

-- A command is whole only behind a byte that was held.
dispatch_holds :
    (p : Parser) (byte : ℕ)
    → is_received p.status ≡ false
    → is_received (Parser.dispatch p.status p byte).status ≡ true
    → 0 < length (Parser.dispatch p.status p byte).held
dispatch_holds p byte e h = holds p.status refl h
  where
    holds :
        (st : Status)
        → p.status ≡ st
        → is_received (Parser.dispatch st p byte).status ≡ true
        → 0 < length (Parser.dispatch st p byte).held
    holds wait_command q r = ground (
      arith,
      length-append p.held (byte ∷ []),
      length-append (p.held ++ (p.running_status ∷ [])) (byte ∷ []),
    )
    holds wait_byte_2 q r = omega (arith, length-append p.held (byte ∷ []))
    holds wait_byte_1 q r = omega (arith, length-append p.held (byte ∷ []))
    holds wait_end_sysex q r = ground (arith, length-append p.held (byte ∷ []))
    holds st q r = ground (arith)

dispatch-Gives :
    (st : Status) (s : MidiState) (byte room : ℕ)
    → HasRoom s.hold (suc (suc room))
    → Returns (dispatch st s byte) (Gives s.ring (Parser.dispatch st (view s) byte) room)
dispatch-Gives wait_command s byte room h = elim (Bool-cases (ltb byte 0x80)) [
  | inr e ↦ rw e (on_status-Gives s byte room (less h))
  | inl e ↦ elim (Bool-cases (s.running_status == 0)) [
    | inl none_running ↦ rw (e, none_running) (refl, refl, less (less h))
    | inr some_running ↦ rw e (on_data-Gives s byte room h (ground arith))
  ]
]
dispatch-Gives wait_byte_2 s byte room h = hold_then s byte room (less h) wait_byte_1
dispatch-Gives wait_byte_1 s byte room h = hold_then s byte room (less h) command_received
dispatch-Gives wait_end_sysex s byte room h = on_sysex-Gives s byte room (less h)
dispatch-Gives _ s byte room h = (refl, refl, less (less h))

step_begun-Stepped :
    (rtp get_delta : Bool) (s : MidiState) (byte room : ℕ)
    → HasRoom s.hold (suc (suc room))
    → is_received s.status ≡ false
    → Returns
        (step_begun rtp get_delta s byte)
        (Stepped s.ring room (Parser.step_begun rtp get_delta (view s) byte))
unfolding command_set
step_begun-Stepped rtp get_delta s byte room h e = elim (Bool-cases (is_delta s.status)) [
  | inl delta ↦ rw delta (refl, refl, less (less h), ground arith)
  | inr other ↦ elim (Bool-cases (leb 0xf8 byte)) [
    | inl now ↦ rw (other, now) (refl, refl, less (less h), e)
    | inr later ↦
        rw (other, later)
          (Returns->>= (dispatch s.status s byte) _ _ _ (dispatch-Gives s.status s byte room h)
            λ s1 w. finished s1 w.0 w.1 w.2)
  ]
]
  where
    finished :
        (s1 : MidiState)
        → view s1 ≡ Parser.dispatch s.status (view s) byte
        → s1.ring ≡ s.ring
        → HasRoom s1.hold room
        → Returns (finish rtp get_delta s1) (
            Stepped s.ring room
              (Parser.finish rtp get_delta (Parser.dispatch s.status (view s) byte)))
    finished s1 same ring room1 =
        subst₂
          (λ q g.
            Returns (finish rtp get_delta s1) (Stepped g room (Parser.finish rtp get_delta q)))
          same ring
          (finish-Stepped rtp get_delta s1 room room1 (
            subst (λ q. is_received q.status ≡ true → 0 < length q.held) (sym same)
              (dispatch_holds (view s) byte e)))

pub step-Stepped :
    (rtp get_delta : Bool) (s : MidiState) (byte room : ℕ)
    → HasRoom s.hold (suc (suc room))
    → is_received s.status ≡ false
    → Returns
        (step rtp get_delta s byte)
        (Stepped s.ring room (Parser.step rtp get_delta (view s) byte))
unfolding step Parser.step
step-Stepped rtp get_delta s byte room h e = elim (Bool-cases (is_init s.status)) [
  | inl i ↦ rw i (
      step_begun-Stepped rtp get_delta
        (record s { status = if get_delta then wait_delta else wait_command; current_delta = 0 })
        byte room h (ground arith))
  | inr i ↦ rw i (step_begun-Stepped rtp get_delta s byte room h e)
]
