-- ===== src/RingBuffer/Write.antt =====
-- `ring_buffer_write` appends: it is defined on every valid ring, keeps it valid, and the ring
-- then holds its old bytes followed by the new ones.
use pimidi.Common.{
  ℕ, zero, suc, ◌+◌, ◌-◌, ◌≤◌, ◌<◌, ◌≡◌, refl, ap, ap₂, ◌∙◌, List, ◌++◌, IsSize, ltb, leb,
  if◌then◌else◌, length, get_or, take, length-take, length-tabulate_from, append-nil, ◌⊎◌, inl, inr,
  tabulate_from, tabulate_from-ext, tabulate_from-append, tabulate_from-get_or, arith, add_size,
  sub_size,
}
use native.Mathlib.Nat.{zero-add}
use native.Mathlib.Decide.{dec_le}
use pimidi.Common.Memory.{done, Returns, blit, length-blit, get_or-blit, get_or-at, memcpy-done}
use pimidi.RingBuffer.{Ring, data_index, write, write_whole, write_split}
use pimidi.RingBuffer.Fifo
use pimidi.RingBuffer.Inv.{IsValid, peek, contents, data_index_lem}

-- What a write of `len` bytes of `src` to `r` leaves in the ring `r'`.
record Wrote (r : Ring) (src : List ℕ) (len : ℕ) (r' : Ring) : Type 0 where
  valid : IsValid r'
  used_grown : r'.used ≡ r.used + len
  size_kept : r'.size ≡ r.size
  old_bytes : (i : ℕ) → i < r.used → peek r' i ≡ peek r i
  new_bytes : (i : ℕ) → i < len → peek r' (r.used + i) ≡ get_or src i 0

-- Such a ring holds the old bytes and then the new ones.
contents-Wrote :
    (r : Ring) (src : List ℕ) (len : ℕ) (r' : Ring)
    → len ≤ length src
    → Wrote r src len r'
    → contents r' ≡ contents r ++ take len src
contents-Wrote r src len r' h w =
    ap (λ n. tabulate_from n (peek r') 0) w.used_grown
    ∙ tabulate_from-append r.used len (peek r') 0
    ∙ ap₂ ◌++◌ old (new ∙ tabulate_from-get_or len src 0 h)
  where
    old : tabulate_from r.used (peek r') 0 ≡ contents r
    old = tabulate_from-ext r.used (peek r') (peek r) 0 0 (λ i p. rw zero-add (w.old_bytes i p))

    new : tabulate_from len (peek r') (0 + r.used) ≡ tabulate_from len (λ i. get_or src i 0) 0
    new =
        tabulate_from-ext len (peek r') (λ i. get_or src i 0) (0 + r.used) 0
          (λ i p. simp zero-add (w.new_bytes i p))

module _ (r : Ring) (src : List ℕ) (len : ℕ) (v : IsValid r) (given : len ≤ length src)
    (some_bytes : 0 < len) (fits : r.used + len ≤ r.size) where
  whole_ring : Ring
  whole_ring = record r {
    bytes = blit len r.bytes r.end src 0;
    used = add_size r.used len;
    end = add_size r.end len;
  }

  whole-Wrote :
      r.end + len ≤ r.size
      → (r.start ≤ r.end → r.start + r.used ≡ r.end)
      → Wrote r src len whole_ring
  unfolding whole_ring
  whole-Wrote h k = record {
    valid = ground (arith, length-blit len r.bytes r.end src 0);
    used_grown = omega arith;
    size_kept = refl;
    old_bytes = λ i p. ground (
      arith,
      data_index_lem r i v (omega arith),
      get_or-blit len r.bytes r.end src 0 (data_index r i) (omega arith),
    );
    new_bytes = λ i p. ground (
      arith,
      data_index_lem r (r.used + i) v (omega arith),
      get_or-blit len r.bytes r.end src 0 (data_index r (r.used + i)) (omega arith),
      get_or-at src (data_index r (r.used + i) - r.end) i,
    );
  }

  first_part : ℕ
  first_part = sub_size r.size r.end

  second_part : ℕ
  unfolding first_part
  second_part = sub_size len first_part

  first_block : List ℕ
  unfolding first_part
  first_block = blit first_part r.bytes r.end src 0

  split_ring : Ring
  unfolding first_block second_part
  split_ring = record r {
    bytes = blit second_part first_block 0 src first_part;
    used = add_size r.used len;
    end = second_part;
  }

  -- What the two copies leave at place `p` of the block.
  split_bytes :
      (p : ℕ)
      → r.size < r.end + len
      → p < r.size
      → get_or (blit second_part first_block 0 src first_part) p 0 ≡ (
          if ltb p second_part
          then get_or src (first_part + p) 0
          else if leb r.end p
          then get_or src (p - r.end) 0
          else get_or r.bytes p 0)
  unfolding second_part first_block
  split_bytes p h b = ground (
    arith,
    length-blit first_part r.bytes r.end src 0,
    get_or-blit first_part r.bytes r.end src 0 p (omega arith),
    get_or-blit second_part first_block 0 src first_part p,
  )

  split-Wrote : r.start ≤ r.end → r.size < r.end + len → Wrote r src len split_ring
  unfolding split_ring
  split-Wrote s h = record {
    valid = ground (
      arith,
      length-blit first_part r.bytes r.end src 0,
      length-blit second_part first_block 0 src first_part,
    );
    used_grown = omega arith;
    size_kept = refl;
    old_bytes =
        λ i p. ground (arith, data_index_lem r i v (omega arith), split_bytes (data_index r i));
    new_bytes = λ i p. ground (
      arith,
      data_index_lem r (r.used + i) v (omega arith),
      split_bytes (data_index r (r.used + i)),
      get_or-at src (first_part + data_index r (r.used + i)) i,
      get_or-at src (data_index r (r.used + i) - r.end) i,
    );
  }

  -- The C copies are these copies.
  whole-done :
      r.end + len ≤ r.size → write_whole r src len (add_size r.used len) ≡ done (len, whole_ring)
  unfolding whole_ring
  whole-done h = rw (memcpy-done r.bytes r.end src 0 len (omega arith) (omega arith))

  split-done :
      r.size < r.end + len → write_split r src len (add_size r.used len) ≡ done (len, split_ring)
  unfolding split_ring
  split-done h = rw (memcpy-done r.bytes r.end src 0 first_part (omega arith) (omega arith)) (
      rw (
        memcpy-done first_block 0 src first_part second_part
          (omega (arith, length-blit first_part r.bytes r.end src 0)) (omega arith)))

  split_cases :
      ((r.start ≤ r.end) × (r.size < r.end + len))
      ⊎ ((r.end + len ≤ r.size) × (r.start ≤ r.end → r.start + r.used ≡ r.end))
  split_cases = elim (dec_le (r.end + len) r.size) [
    | yes h ↦ inr (h, λ s. omega arith)
    | no h ↦ inl (omega arith, omega arith)
  ]

  -- A write that fits is done, and leaves the ring that `Wrote` describes.
  write_fits : (r' : Ring) × (write r src len ≡ done (len, r')) × Wrote r src len r'
  unfolding write
  write_fits = elim split_cases [
    | inl (s, h) ↦ (split_ring, ground (arith, split-done h), split-Wrote s h)
    | inr (h, k) ↦ (whole_ring, ground (arith, whole-done h), whole-Wrote h k)
  ]

-- The whole operation, on either side of the capacity.
write_cases :
    (r : Ring) (src : List ℕ) (len : ℕ)
    → IsValid r
    → IsSize len
    → len ≤ length src
    → ((write r src len ≡ done (0, r)) × ((len ≡ 0) ⊎ (r.size < r.used + len)))
      ⊎ ((r' : Ring) × (write r src len ≡ done (len, r')) × Wrote r src len r')
unfolding write
write_cases r src zero v s h = inl (refl, inl refl)
write_cases r src (suc n) v s h = elim (dec_le (r.used + suc n) r.size) [
  | yes fits ↦ inr (write_fits r src (suc n) v h (omega arith) fits)
  | no full ↦ inl (ground arith, inr (omega arith))
]

-- On a valid ring `ring_buffer_write` of `len` bytes that the caller holds is defined: it never
-- writes outside the ring's block. It returns what the bounded queue returns on them (`len`, or 0
-- where they do not fit), leaves the ring holding the queue's bytes, and keeps it valid with its
-- size.
pub write_refines :
    (r : Ring) (src : List ℕ) (len : ℕ)
    → IsValid r
    → IsSize len
    → len ≤ length src
    → Returns (write r src len) (λ out.
      ((out.0, contents out.1) ≡ Fifo.write r.size (contents r) (take len src))
      × IsValid out.1
      × (out.1.size ≡ r.size))
unfolding Fifo.write
write_refines r src len v s h = elim (write_cases r src len v s h) [
  | inl (e, inl zero_len) ↦ rw e (ground (arith, lengths, nothing zero_len), v, refl)
  | inl (e, inr full) ↦ rw e (ground (arith, lengths), v, refl)
  | inr (r', e, w) ↦
      rw e (
        ground (arith, lengths, w.used_grown, contents-Wrote r src len r' h w),
        w.valid,
        w.size_kept,
      )
]
  where
    lengths : (length (contents r) ≡ r.used) × (length (take len src) ≡ len)
    lengths = (length-tabulate_from r.used (peek r) 0, length-take len src ∙ omega arith)

    nothing : len ≡ 0 → contents r ++ take len src ≡ contents r
    nothing e = rw e (append-nil (contents r))
