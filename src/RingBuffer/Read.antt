-- ===== src/RingBuffer/Read.antt =====
-- `ring_buffer_read`: where it is defined, what it returns and what it leaves.
use pimidi.Common.{
  ℕ, zero, suc, ◌+◌, ◌-◌, ◌≤◌, ◌<◌, ◌≡◌, refl, sym, ap, ◌∙◌, List, leb, if◌then◌else◌, take, drop,
  replicate, Bool, true, some, none, ◌⊎◌, inl, inr, length-replicate, tabulate_from,
  tabulate_from-ext, take-tabulate_from, drop-tabulate_from, eq_of_reads, arith, add_size, sub_size,
}
use native.Mathlib.Nat.{zero-add}
use native.Mathlib.Decide.{dec_le}
use pimidi.Common.Memory.{done, fault, blit, length-blit, get_or-blit, get_or-at, memcpy-done}
use pimidi.RingBuffer.{Ring, data_index, read, read_whole, read_split}
use pimidi.RingBuffer.Inv.{IsValid, peek, contents, data_index_lem}

-- What taking `len` bytes out of `r` leaves in `r'`.
pub record Took (r : Ring) (len : ℕ) (r' : Ring) : Type 0 where
  pub valid : IsValid r'
  pub size_kept : r'.size ≡ r.size
  pub used_left : r'.used ≡ r.used - len
  pub bytes_left : (i : ℕ) → i < r.used - len → peek r' i ≡ peek r (len + i)

pub contents-Took :
    (r : Ring) (len : ℕ) (r' : Ring)
    → len ≤ r.used
    → Took r len r'
    → contents r' ≡ drop len (contents r)
contents-Took r len r' h t =
    ap (λ n. tabulate_from n (peek r') 0) t.used_left
    ∙ tabulate_from-ext (r.used - len) (peek r') (peek r) 0 (0 + len)
        (λ i p. simp zero-add (t.bytes_left i p))
    ∙ sym (drop-tabulate_from len r.used (peek r) 0 h)

module _ (r : Ring) (len : ℕ) (v : IsValid r) (some_bytes : 0 < len) (held : len ≤ r.used) where
  -- The two ways to advance.
  whole_left : Ring
  whole_left = record r {
    start = if leb r.size (add_size r.start len) then 0 else add_size r.start len;
    used = sub_size r.used len;
  }

  split_left : Ring
  split_left = record r {
    used = sub_size r.used len;
    start = sub_size len (sub_size r.size r.start);
  }

  whole_left-IsValid : r.start < r.end → IsValid whole_left
  unfolding whole_left
  whole_left-IsValid h = ground arith

  split_left-IsValid : r.end ≤ r.start → r.size ≤ r.start + len → IsValid split_left
  unfolding split_left
  split_left-IsValid h k = ground arith

  whole-Took : r.start < r.end → Took r len whole_left
  unfolding whole_left
  whole-Took h = record {
    valid = whole_left-IsValid h;
    size_kept = refl;
    used_left = omega arith;
    bytes_left = λ i p. get_or-at r.bytes (data_index whole_left i) (data_index r (len + i)) (
        ground (
          arith,
          data_index_lem whole_left i (whole_left-IsValid h) (omega arith),
          data_index_lem r (len + i) v (omega arith),
        ));
  }

  split-Took : r.end ≤ r.start → r.size ≤ r.start + len → Took r len split_left
  unfolding split_left
  split-Took h k = record {
    valid = split_left-IsValid h k;
    size_kept = refl;
    used_left = omega arith;
    bytes_left = λ i p. get_or-at r.bytes (data_index split_left i) (data_index r (len + i)) (
        ground (
          arith,
          data_index_lem split_left i (split_left-IsValid h k) (omega arith),
          data_index_lem r (len + i) v (omega arith),
        ));
  }

  -- The block that a read returns.
  whole_block : List ℕ
  whole_block = blit len (replicate len 0) 0 r.bytes r.start

  split_block : List ℕ
  split_block =
      let first = sub_size r.size r.start in
      blit (sub_size len first) (blit first (replicate len 0) 0 r.bytes r.start) first r.bytes 0

  whole_block_lem : r.start < r.end → whole_block ≡ take len (contents r)
  unfolding whole_block
  whole_block_lem h =
      eq_of_reads whole_block len (peek r) 0
        (length-blit len (replicate len 0) 0 r.bytes r.start ∙ length-replicate {A = ℕ} len 0)
        (λ i p. ground (
          arith,
          length-replicate {A = ℕ} len 0,
          data_index_lem r i v (omega arith),
          get_or-blit len (replicate len 0) 0 r.bytes r.start i,
          get_or-at r.bytes (r.start + (i - 0)) (data_index r i),
        ))
      ∙ sym (take-tabulate_from len r.used (peek r) 0 held)

  split_block_lem : r.end ≤ r.start → r.size ≤ r.start + len → split_block ≡ take len (contents r)
  unfolding split_block
  split_block_lem h k =
      eq_of_reads split_block len (peek r) 0
        (length-blit second one first r.bytes 0
          ∙ length-blit first (replicate len 0) 0 r.bytes r.start
          ∙ length-replicate {A = ℕ} len 0)
        (λ i p. ground (
          arith,
          length-replicate {A = ℕ} len 0,
          length-blit first (replicate len 0) 0 r.bytes r.start,
          data_index_lem r i v (omega arith),
          get_or-blit first (replicate len 0) 0 r.bytes r.start i,
          get_or-blit second one first r.bytes 0 i,
          get_or-at r.bytes (r.start + (i - 0)) (data_index r i),
          get_or-at r.bytes (0 + (i - first)) (data_index r i),
        ))
      ∙ sym (take-tabulate_from len r.used (peek r) 0 held)
    where
      first : ℕ
      first = sub_size r.size r.start

      second : ℕ
      second = sub_size len first

      one : List ℕ
      one = blit first (replicate len 0) 0 r.bytes r.start

  read_whole-done :
      (advance : Bool)
      → r.start < r.end
      → read_whole r len advance ≡ done (some whole_block, if advance then whole_left else r)
  unfolding whole_block whole_left
  read_whole-done advance h = rw (
      memcpy-done (replicate len 0) 0 r.bytes r.start len
        (omega (arith, length-replicate {A = ℕ} len 0)) (ground arith))

  read_split-done :
      (advance : Bool)
      → r.end ≤ r.start
      → r.size ≤ r.start + len
      → read_split r len advance ≡ done (some split_block, if advance then split_left else r)
  unfolding split_block split_left
  read_split-done advance h k =
      rw
        (memcpy-done (replicate len 0) 0 r.bytes r.start first
          (omega (arith, length-replicate {A = ℕ} len 0)) (omega arith))
        (rw (
          memcpy-done one first r.bytes 0 (sub_size len first)
            (omega (
              arith,
              length-replicate {A = ℕ} len 0,
              length-blit first (replicate len 0) 0 r.bytes r.start,
            ))
            (ground arith)))
    where
      first : ℕ
      first = sub_size r.size r.start

      one : List ℕ
      one = blit first (replicate len 0) 0 r.bytes r.start

  pub read_split-fault :
      (advance : Bool) → r.start + len < r.size → read_split r len advance ≡ fault
  read_split-fault advance h = ground (arith, length-replicate {A = ℕ} len 0)

-- A read is safe if it takes nothing, if the bytes from `start` on are in one piece, or if it takes that piece whole.
abbrev pub IsSafe : Ring → ℕ → Type 0
IsSafe r len = (len ≡ 0) ⊎ (r.start < r.end) ⊎ (r.size ≤ r.start + len)

pub read_cases :
    (r : Ring) (len : ℕ) (advance : Bool)
    → IsValid r
    → IsSafe r len
    → ((read true r len advance ≡ done (none, r)) × ((len ≡ 0) ⊎ (r.used < len)))
      ⊎ ((r' : Ring) × (read true r len advance
            ≡ done (some (take len (contents r)), if advance then r' else r))
          × Took r len r'
          × (len ≤ r.used)
          × (0 < len))
unfolding read
read_cases r zero advance v s = inl (refl, inl refl)
read_cases r (suc n) advance v s = elim (dec_le (suc n) r.used) [
  | no h ↦ inl (ground arith, inr (omega arith))
  | yes held ↦ elim (dec_le r.end r.start) [
    | no h ↦
        let c : r.start < r.end = omega arith in
        inr (
          whole_left r (suc n) v (omega arith) held,
          ground (
            arith,
            read_whole-done r (suc n) v (omega arith) held advance c,
            whole_block_lem r (suc n) v (omega arith) held c,
          ),
          whole-Took r (suc n) v (omega arith) held c,
          held,
          omega arith,
        )
    | yes h ↦
        let c : r.size ≤ r.start + suc n = omega arith in
        inr (
          split_left r (suc n) v (omega arith) held,
          ground (
            arith,
            read_split-done r (suc n) v (omega arith) held advance h c,
            split_block_lem r (suc n) v (omega arith) held h c,
          ),
          split-Took r (suc n) v (omega arith) held h c,
          held,
          omega arith,
        )
  ]
]
