-- ===== src/RingBuffer/Inv.antt =====
-- The representation invariant of `ring_buffer_t`, and the bytes that a ring stands for.
use pimidi.Common.{
  ℕ, ◌+◌, ◌-◌, ◌≤◌, ◌<◌, ◌≡◌, ◌⊎◌, refl, List, IsSize, ltb, if◌then◌else◌, length, get_or,
  length-replicate, tabulate_from, arith, add_size, mod_once, inl, [],
}
use pimidi.RingBuffer.{Ring, data_index, reset}

-- Where `end` stands: `used` bytes past `start`, going round the block once at most. The last case
-- is a ring that was emptied at the very end of its block.
abbrev Linked : Ring → Type 0
Linked r =
    (r.start + r.used ≡ r.end)
    ⊎ (r.start + r.used ≡ r.end + r.size)
    ⊎ ((r.start ≡ 0) × (r.used ≡ 0) × (r.end ≡ r.size))

pub record IsValid (r : Ring) : Type 0 where
  pub block : length r.bytes ≡ r.size
  pub sized : IsSize r.size
  pub start_in : r.start < r.size
  pub end_in : r.end ≤ r.size
  pub used_in : r.used ≤ r.size
  pub linked : Linked r

-- The byte `i` places behind the oldest one.
abbrev pub peek : Ring → ℕ → ℕ
peek r i = get_or r.bytes (data_index r i) 0

-- The bytes in the ring, oldest first.
abbrev pub contents : Ring → List ℕ
contents r = tabulate_from r.used (peek r) 0

-- Inside a valid ring an index goes round at most once, and nothing wraps on 64 bits.
pub data_index_lem :
    (r : Ring) (i : ℕ)
    → IsValid r
    → i ≤ r.size
    → data_index r i ≡ (if ltb (r.start + i) r.size then r.start + i else r.start + i - r.size)
data_index_lem r i v h =
    let e : add_size r.start i ≡ r.start + i = omega arith in
    rw e (mod_once (r.start + i) r.size (omega arith) (omega arith))

-- A new ring of a positive size is valid and empty.
pub reset-IsValid :
    (r : Ring) (size : ℕ)
    → 0 < size
    → IsSize size
    → IsValid (reset r size) × (contents (reset r size) ≡ [])
unfolding reset
reset-IsValid r size h k = (
  record {
    block = length-replicate size 0;
    sized = k;
    start_in = h;
    end_in = omega arith;
    used_in = omega arith;
    linked = inl (omega arith);
  },
  refl,
)

-- What a ring reads at a place depends only on where its block is read.
peek_lem :
    (r : Ring) (i : ℕ)
    → IsValid r
    → i ≤ r.size
    → peek r i ≡ (
        if ltb (r.start + i) r.size
        then get_or r.bytes (r.start + i) 0
        else get_or r.bytes (r.start + i - r.size) 0)
peek_lem r i v h = ground (arith, data_index_lem r i v h)
