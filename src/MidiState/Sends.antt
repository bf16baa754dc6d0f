-- ===== src/MidiState/Sends.antt =====
-- What `midi_state_send` sends for streams of MIDI messages, in its two modes.
use pimidi.Common.{ℕ, ◌*◌, ◌≤◌, ◌≡◌, sym, ap, ◌∙◌, Bool, ◌&&◌, false, List, [], ◌∷◌}
use pimidi.Common.Memory.{Exec, Returns}
use pimidi.RingBuffer.Inv
use pimidi.MidiCommand.{Command}
use pimidi.MidiState.{MidiState, is_received, is_delta, is_init, send}
use pimidi.MidiState.Refine.{view, HasRoom}
use pimidi.MidiState.Parser
use pimidi.MidiState.Parser.{Parser, run}
use pimidi.MidiState.Send.{send_refines}
use pimidi.MidiState.Stream.{begin-is_delta, resting, run_real_time}
use pimidi.MidiState.Channel.{
  ChannelMessage, AllTimed, encode, commands, last_status, last_time, run-encode,
}

-- A state that a call may be made on.
pub record IsReady (s : MidiState) : Type 0 where
  pub ring_valid : Inv.IsValid s.ring
  pub room : HasRoom s.hold (2 * s.ring.used)
  pub waits : is_received s.status ≡ false

pub Returns-map :
    {A : Type 0} (m : Exec A) (P Q : A → Type 0) → Returns m P → ((a : A) → P a → Q a) → Returns m Q
Returns-map (Exec.done a) P Q h k = k a h
Returns-map Exec.fault P Q h k = absurd h

-- A call leaves the parser and sends the commands that the parser over lists gives.
send-run :
    (rtp z_flag : Bool) (s : MidiState) (q : Parser × List Command)
    → IsReady s
    → run rtp z_flag (view s) (Inv.contents s.ring) ≡ q
    → Returns (send rtp z_flag s) (λ out. (view out.0 ≡ q.0) × (out.1 ≡ q.1))
send-run rtp z_flag s q h e =
    Returns-map (send rtp z_flag s) _ _ (send_refines rtp z_flag s h.ring_valid h.room h.waits)
      λ out w. (ap (λ z. z.0) (w.0 ∙ e), ap (λ z. z.1) (w.0 ∙ e))

-- `midi_state_send` in either mode and with either z flag, called between two commands when the ring
-- holds channel messages, each with its status byte or without it where it repeats the one before:
-- it sends exactly these messages, in their order, and stands between two commands again with the
-- last status byte as running status. Each message that has a delta time in front of it, which is the
-- first with the z flag, and every other one with the z flag or in MIDI_PARSE_MODE_RTP, is sent with
-- this time; the times are octets below 128.
pub send_channel :
    (rtp z_flag : Bool) (s : MidiState) (r x d : ℕ) (ms : List (ℕ × ChannelMessage))
    → IsReady s
    → view s ≡ resting r x d
    → Inv.contents s.ring ≡ encode rtp z_flag r ms
    → AllTimed ms
    → Returns (send rtp z_flag s) (λ out.
      (view out.0 ≡ resting (last_status r ms) x (last_time rtp z_flag d ms))
      × (out.1 ≡ commands rtp z_flag ms))
send_channel rtp z_flag s r x d ms h e c a =
    send-run rtp z_flag s
      (resting (last_status r ms) x (last_time rtp z_flag d ms), commands rtp z_flag ms) h
      (rw (e, c) (run-encode rtp z_flag r x d ms a))

-- `midi_state_send` in either mode and with either z flag lets a real-time message pass between the bytes
-- of any other: of two states that differ only in such a byte in front of the ring's bytes, it sends
-- that byte as a command and then the same commands, and leaves the same parser. No delta time is being
-- read, and none is about to be, as one is between two commands with the z flag.
pub send_real_time :
    (rtp z_flag : Bool) (s without : MidiState) (byte next : ℕ) (rest : List ℕ)
    → IsReady s
    → IsReady without
    → view s ≡ view without
    → is_delta s.status ≡ false
    → (z_flag && is_init s.status) ≡ false
    → 0xf8 ≤ byte
    → Inv.contents s.ring ≡ byte ∷ next ∷ rest
    → Inv.contents without.ring ≡ next ∷ rest
    → Returns (send rtp z_flag s) (λ out. Returns (send rtp z_flag without) (λ out'.
      (view out.0 ≡ view out'.0)
      × (out.1
          ≡ record { delta = (Parser.begin z_flag (view s)).delta; status = byte; payload = [] }
            ∷ out'.1)))
send_real_time rtp z_flag s without byte next rest h h' e o i b c c' =
    Returns-map (send rtp z_flag s) _ _
      (send-run rtp z_flag s _ h (
        ap (run rtp z_flag (view s)) c
        ∙ run_real_time rtp z_flag (view s) byte next rest b (begin-is_delta z_flag (view s) o i)))
      λ out w.
        Returns-map (send rtp z_flag without) _ _
          (send-run rtp z_flag without _ h' (
            ap (run rtp z_flag (view without)) c'
            ∙ ap (λ p. run rtp z_flag p (next ∷ rest)) (sym e)))
          λ out' w'. (
            w.0 ∙ sym w'.0,
            w.1
                ∙ ap
                    (λ t.
                      record {
                        delta = (Parser.begin z_flag (view s)).delta;
                        status = byte;
                        payload = [];
                      }
                      ∷ t)
                    (sym w'.1),
          )
