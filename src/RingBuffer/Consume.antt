-- ===== src/RingBuffer/Consume.antt =====
-- The operations that take bytes out of a ring, against the queue of `RingBuffer.Fifo`:
-- `ring_buffer_read`, `ring_buffer_read_byte`, `ring_buffer_drain`, `ring_buffer_advance`.
use pimidi.Common.{
  ℕ, zero, suc, ◌+◌, ◌-◌, ◌≤◌, ◌<◌, ◌≡◌, refl, sym, ap, ◌∙◌, [], if◌then◌else◌, length, take, drop,
  Bool, true, false, some, none, inl, inr, ◌==◌, min, tabulate_from, get_or, add_size, sub_size,
  leb, ◌∷◌, length-tabulate_from, arith, take-tabulate_from,
}
use native.Mathlib.Decide.{dec_le}
use native.Mathlib.Nat.{zero-min}
use pimidi.Common.Memory.{fault, Returns, get_or-at}
use pimidi.RingBuffer.{Ring, data_index, read, read_byte, drain, advance}
use pimidi.RingBuffer.Fifo
use pimidi.RingBuffer.Inv.{IsValid, peek, contents, data_index_lem}
use pimidi.RingBuffer.Read.{IsSafe, Took, contents-Took, read_cases, read_split-fault}

-- On a valid ring, where the read takes nothing, the bytes from `start` on are in one piece, or the
-- read takes that piece whole, `ring_buffer_read` is defined: it copies inside the ring's block and its own. It returns
-- what the queue returns on `len`, leaves the ring holding the queue's bytes, and keeps it valid
-- with its size. The allocation succeeds.
pub read_refines :
    (r : Ring) (len : ℕ) (advance : Bool)
    → IsValid r
    → IsSafe r len
    → Returns (read true r len advance) (λ out.
      ((out.0, contents out.1) ≡ Fifo.read (contents r) len advance)
      × IsValid out.1
      × (out.1.size ≡ r.size))
unfolding Fifo.read
read_refines r len advance v s = elim (read_cases r len advance v s) [
  | inl (e, inl zero_len) ↦ rw e (ground (arith, stored), v, refl)
  | inl (e, inr short) ↦ rw e (ground (arith, stored), v, refl)
  | inr (r', e, t, held, some_bytes) ↦ rw e (taken r' t held some_bytes advance)
]
  where
    stored : length (contents r) ≡ r.used
    stored = length-tabulate_from r.used (peek r) 0

    taken :
        (r' : Ring)
        → Took r len r'
        → len ≤ r.used
        → 0 < len
        → (b : Bool)
        → ((some (take len (contents r)), contents (if b then r' else r))
            ≡ Fifo.read (contents r) len b)
          × IsValid (if b then r' else r)
          × ((if b then r' else r).size ≡ r.size)
    taken r' t held p true =
        (ground (arith, stored, contents-Took r len r' held t), t.valid, t.size_kept)
    taken r' t held p false = (ground (arith, stored), v, refl)

-- On a valid ring whose bytes go round the end of the block, `ring_buffer_read` of fewer bytes
-- than stand before that end runs into undefined behaviour: it copies the whole first piece into a
-- block of `len` bytes. The allocation succeeds.
pub read_overruns :
    (r : Ring) (len : ℕ) (advance : Bool)
    → IsValid r
    → 0 < len
    → len ≤ r.used
    → r.end ≤ r.start
    → r.start + len < r.size
    → read true r len advance ≡ fault
unfolding read
read_overruns r len advance v p q h k = ground (arith, read_split-fault r len v p q advance k)

pub drain-IsSafe : (r : Ring) → IsValid r → IsSafe r r.used
drain-IsSafe r v = ground arith

-- `ring_buffer_drain` is defined on every valid ring: it returns all its bytes, oldest first, with
-- their number (NULL and 0 for an empty ring), and leaves a valid empty ring of the same size. The
-- allocation succeeds.
drain_lem :
    (r : Ring)
    → IsValid r
    → Returns (drain true r) (λ out.
      (out.0 ≡ (if r.used == 0 then none else some (contents r)))
      × (out.1 ≡ length (contents r))
      × (contents out.2 ≡ [])
      × IsValid out.2
      × (out.2.size ≡ r.size))
unfolding drain
drain_lem r v = elim (read_cases r r.used true v (drain-IsSafe r v)) [
  | inl (e, inl none_used) ↦ rw e (ground arith, sym stored, rw none_used refl, v, refl)
  | inl (e, inr short) ↦ absurd (omega arith)
  | inr (r', e, t, held, some_bytes) ↦
      rw e (ground (arith, whole), sym stored, left r' t, t.valid, t.size_kept)
]
  where
    stored : length (contents r) ≡ r.used
    stored = length-tabulate_from r.used (peek r) 0

    whole : take r.used (contents r) ≡ contents r
    whole = take-tabulate_from r.used r.used (peek r) 0 (omega arith)

    left : (r' : Ring) → Took r r.used r' → contents r' ≡ []
    left r' t = ground (arith, t.used_left)

module _ (r : Ring) (v : IsValid r) where
  -- The oldest byte stands at `start`.
  contents-cons :
      0 < r.used → contents r ≡ get_or r.bytes r.start 0 ∷ tabulate_from (r.used - 1) (peek r) 1
  contents-cons h =
      ap (λ n. tabulate_from n (peek r) 0) one_more
      ∙ ap (λ b. b ∷ tabulate_from (r.used - 1) (peek r) 1)
          (get_or-at r.bytes (data_index r 0) r.start
            (ground (arith, data_index_lem r 0 v (omega arith))))
    where
      one_more : r.used ≡ suc (r.used - 1)
      one_more = omega arith

  -- The ring after its oldest byte is taken.
  byte_left : Ring
  byte_left =
      let start' = add_size r.start 1 in
      record r { start = if leb r.size start' then 0 else start'; used = sub_size r.used 1 }

  byte_left-IsValid : 0 < r.used → IsValid byte_left
  unfolding byte_left
  byte_left-IsValid h = ground arith

  byte_left-Took : 0 < r.used → Took r 1 byte_left
  unfolding byte_left
  byte_left-Took h = record {
    valid = byte_left-IsValid h;
    size_kept = refl;
    used_left = omega arith;
    bytes_left = λ i p. get_or-at r.bytes (data_index byte_left i) (data_index r (1 + i)) (
        ground (
          arith,
          data_index_lem byte_left i (byte_left-IsValid h) (omega arith),
          data_index_lem r (1 + i) v (omega arith),
        ));
  }

  -- The ring after `n` bytes are dropped.
  dropped : ℕ → Ring
  dropped n =
      let start' = data_index r n in
      let used' = sub_size r.used n in
      record r { start = start'; used = used'; end = if used' == 0 then start' else r.end }

  dropped-IsValid : (n : ℕ) → n ≤ r.used → IsValid (dropped n)
  unfolding dropped
  dropped-IsValid n h = ground (arith, data_index_lem r n v (omega arith))

  dropped-Took : (n : ℕ) → n ≤ r.used → Took r n (dropped n)
  unfolding dropped
  dropped-Took n h = record {
    valid = dropped-IsValid n h;
    size_kept = refl;
    used_left = omega arith;
    bytes_left = λ i p. get_or-at r.bytes (data_index (dropped n) i) (data_index r (n + i)) (
        ground (
          arith,
          data_index_lem (dropped n) i (dropped-IsValid n h) (omega arith),
          data_index_lem r (n + i) v (omega arith),
          data_index_lem r n v (omega arith),
        ));
  }

-- `ring_buffer_read_byte` is defined on every valid ring: it returns the oldest byte (-1 for an
-- empty ring), takes it out if asked to, and keeps the ring valid with its size.
pub read_byte_refines :
    (r : Ring) (take_out : Bool)
    → IsValid r
    → Returns (read_byte r take_out) (λ out.
      ((out.0, contents out.1) ≡ Fifo.read_byte (contents r) take_out)
      × IsValid out.1
      × (out.1.size ≡ r.size))
unfolding Fifo.read_byte read_byte byte_left
read_byte_refines r take_out v = elim (dec_le r.used 0) [
  | yes h ↦
      let e : r.used ≡ 0 = omega arith in
      let nothing : contents r ≡ [] = ap (λ n. tabulate_from n (peek r) 0) e in
      ground (arith, nothing)
  | no h ↦
      let p : 0 < r.used = omega arith in
      let t = byte_left-Took r v p in
      ground (arith, contents-cons r v p, contents-Took r 1 (byte_left r v) p t, t.valid)
]

-- `ring_buffer_advance` drops the `steps` oldest bytes, or all there are, and keeps a valid ring
-- valid with its size.
advance_lem :
    (r : Ring) (steps : ℕ)
    → IsValid r
    → (contents (advance r steps) ≡ drop (min steps r.used) (contents r))
      × IsValid (advance r steps)
      × ((advance r steps).size ≡ r.size)
unfolding advance dropped
advance_lem r zero v = (rw zero-min refl, v, refl)
advance_lem r (suc k) v =
    let n = min (suc k) r.used in
    let t = dropped-Took r v n (omega arith) in
    let some_steps : (suc k == 0) ≡ false = ground arith in
    rw some_steps (contents-Took r n (dropped r v n) (omega arith) t, t.valid, t.size_kept)
