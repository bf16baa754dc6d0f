-- ===== src/MidiState/Send.antt =====
-- `midi_state_send` ends, and computes what the parser over lists computes on the ring's bytes.
use pimidi.Common.{
  ℕ, zero, suc, ◌*◌, ◌<◌, ◌≡◌, refl, sym, ap, ◌∙◌, Bool, true, false, Option, none, some, List, [],
  ◌∷◌, ◌++◌, length, length-tabulate_from, arith,
}
use mathlib.Core.Path.{subst}
use pimidi.Common.Memory.{done, ◌>>=◌, Returns, Returns->>=}
use pimidi.RingBuffer
use pimidi.RingBuffer.Inv
use pimidi.RingBuffer.Fifo
use pimidi.RingBuffer.Consume
use pimidi.MidiCommand.{Command}
use pimidi.MidiState.{MidiState, is_received, step, after_read, stop, send_loop, send}
use pimidi.MidiState.Refine.{view, HasRoom, step-Stepped}
use pimidi.MidiState.Parser
use pimidi.MidiState.Parser.{Parser}

-- What a whole call leaves, with the commands it sends.
abbrev Sent : Parser × List Command → MidiState × List Command → Type 0
Sent q out =
    ((view out.0, out.1) ≡ q)
    × (Inv.contents out.0.ring ≡ [])
    × Inv.IsValid out.0.ring
    × HasRoom out.0.hold 0
    × (is_received out.0.status ≡ false)

-- The claim about a loop with `fuel` rounds.
abbrev Loops : ℕ → Bool → Type 0
Loops fuel rtp =
    (get_delta : Bool) (s : MidiState)
    → Inv.IsValid s.ring
    → length (Inv.contents s.ring) < fuel
    → HasRoom s.hold (2 * length (Inv.contents s.ring))
    → is_received s.status ≡ false
    → Returns (send_loop fuel rtp get_delta s)
        (Sent (Parser.run rtp get_delta (view s) (Inv.contents s.ring)))

-- The commands of a step before those of the rounds that follow.
abbrev joined : Parser × Bool × List Command → Parser × List Command → Parser × List Command
joined q z = (z.0, q.2 ++ z.1)

module _ (fuel : ℕ) (rtp get_delta : Bool) (rest : Loops fuel rtp) where
  -- The rounds that follow a step that left the ring with `bytes`.
  go_on :
      (out : MidiState × Bool × List Command) (bytes : List ℕ)
      → Inv.contents out.0.ring ≡ bytes
      → Inv.IsValid out.0.ring
      → length bytes < fuel
      → HasRoom out.0.hold (2 * length bytes)
      → is_received out.0.status ≡ false
      → Returns
          (send_loop fuel rtp out.1 out.0 >>= λ x. done (x.0, out.2 ++ x.1))
          (Sent (joined (view out.0, out.1, out.2) (Parser.run rtp out.1 (view out.0) bytes)))
  go_on out bytes e v l h r =
      Returns->>= (send_loop fuel rtp out.1 out.0) _ _ _
        (rest out.1 out.0 v (omega (arith, same)) (rw e h) r)
        λ x u. (
          ap (λ z. (z.0, out.2 ++ z.1)) (u.0 ∙ ap (Parser.run rtp out.1 (view out.0)) e),
          u.1,
          u.2,
          u.3,
          u.4,
        )
    where
      same : length (Inv.contents out.0.ring) ≡ length bytes
      same = ap length e

  -- A round on what `ring_buffer_read_byte` returns from a ring that holds `bytes`.
  round :
      (s : MidiState) (bytes : List ℕ) (b : Option ℕ)
      → (b, Inv.contents s.ring) ≡ Fifo.read_byte bytes true
      → Inv.IsValid s.ring
      → length bytes < suc fuel
      → HasRoom s.hold (2 * length bytes)
      → is_received s.status ≡ false
      → Returns
          (after_read (send_loop fuel rtp) rtp get_delta s b)
          (Sent (Parser.run rtp get_delta (view s) bytes))
  unfolding Fifo.read_byte Parser.run
  round s [] none e v l h r = done_lem rtp
    where
      empty : Inv.contents s.ring ≡ []
      empty = ground arith

      done_lem : (m : Bool) → Sent (Parser.stop m (view s), []) (stop m s, [])
      done_lem true = (refl, empty, v, h, refl)
      done_lem false = (refl, empty, v, h, r)
  round s [] (some b) e v l h r = absurd (ground arith)
  round s (byte ∷ bytes) none e v l h r = absurd (ground arith)
  round s (byte ∷ bytes) (some b) e v l h r =
      Returns->>= (step rtp get_delta s b) _ _ _
        (step-Stepped rtp get_delta s b (2 * length bytes)
          (record { valid = h.valid; block = h.block; small = omega arith }) r)
        λ out w.
          subst
            (λ q.
              Returns (send_loop fuel rtp out.1 out.0 >>= λ x. done (x.0, out.2 ++ x.1))
                (Sent (joined q (Parser.run rtp q.1 q.0 bytes))))
            (w.0 ∙ ap (Parser.step rtp get_delta (view s)) same_byte)
            (go_on out bytes (ap Inv.contents w.1 ∙ same_bytes) (subst Inv.IsValid (sym w.1) v)
              (omega arith) w.2 w.3)
    where
      same_byte : b ≡ byte
      same_byte = ground arith

      same_bytes : Inv.contents s.ring ≡ bytes
      same_bytes = ground arith

-- The loop with a round more than the ring has bytes.
send_loop-Sent : (fuel : ℕ) (rtp : Bool) → Loops fuel rtp
unfolding send_loop
send_loop-Sent zero rtp get_delta s v l h r = absurd (omega arith)
send_loop-Sent (suc fuel) rtp get_delta s v l h r =
    Returns->>= (RingBuffer.read_byte s.ring true) _ _ _ (Consume.read_byte_refines s.ring true v)
      λ (b, ring) w.
        round fuel rtp get_delta (send_loop-Sent fuel rtp) (record s { ring = ring })
          (Inv.contents s.ring) b w.0 w.1 l h r

-- `midi_state_send` on a state with a valid ring and hold buffer, in which no whole command waits to
-- be sent, ends without an access outside its objects. The state it leaves and the commands it
-- sends, in order, are those of the parser over the list of the ring's bytes; the ring is empty and
-- valid, the hold buffer is valid, and again no whole command waits. The hold buffer stays below 2^62
-- bytes.
pub send_refines :
    (rtp z_flag : Bool) (s : MidiState)
    → Inv.IsValid s.ring
    → HasRoom s.hold (2 * s.ring.used)
    → is_received s.status ≡ false
    → Returns (send rtp z_flag s) (λ out.
      ((view out.0, out.1) ≡ Parser.run rtp z_flag (view s) (Inv.contents s.ring))
      × (Inv.contents out.0.ring ≡ [])
      × Inv.IsValid out.0.ring
      × HasRoom out.0.hold 0
      × (is_received out.0.status ≡ false))
unfolding send
send_refines rtp z_flag s v h r =
    send_loop-Sent (suc s.ring.used) rtp z_flag s v (omega (arith, stored))
      (record { valid = h.valid; block = h.block; small = omega (arith, stored, h.small) }) r
  where
    stored : length (Inv.contents s.ring) ≡ s.ring.used
    stored = length-tabulate_from s.ring.used (Inv.peek s.ring) 0
