-- ===== src/RingBuffer/Fifo.antt =====
-- What a ring promises: a queue of at most `cap` bytes, oldest first, that takes a write whole or
-- not at all and gives a read whole or not at all.
use pimidi.Common.{
  ℕ, ◌+◌, Bool, ◌||◌, Option, none, some, List, [], ◌∷◌, ◌++◌, ltb, leb, ◌==◌, if◌then◌else◌,
  length, take, drop,
}

abbrev pub Fifo : Type 0
Fifo = List ℕ

-- The number of bytes taken, and the queue.
unfoldable pub write : ℕ → Fifo → List ℕ → ℕ × Fifo
write cap q bs = if leb (length q + length bs) cap then (length bs, q ++ bs) else (0, q)

-- The first `n` bytes if there are so many, and the queue without them if they are taken out.
unfoldable pub read : Fifo → ℕ → Bool → Option (List ℕ) × Fifo
read q n advance =
    if n == 0 || ltb (length q) n
    then (none, q)
    else (some (take n q), if advance then drop n q else q)

unfoldable pub read_byte : Fifo → Bool → Option ℕ × Fifo
read_byte [] advance = (none, [])
read_byte (b ∷ q) advance = (some b, if advance then q else b ∷ q)
