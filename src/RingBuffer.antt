-- ===== src/RingBuffer.antt =====
-- raveloxmidi/src/ring_buffer.c: the byte ring between the sockets and the MIDI parser.
-- The struct is a record; an operation returns the new record beside its result. `mem` is the
-- answer of an allocation. The mutex is left out: each operation runs under it from end to end.
pub mod Fifo
pub mod Inv
pub mod Resize
pub mod Consume
pub mod Read
pub mod Write
mod Tests
use pimidi.Common.{
  ℕ, zero, suc, ◌+◌, ◌-◌, ◌%◌, min, Bool, true, false, not, ◌&&◌, ◌||◌, Option, none, some, List,
  [], ◌∷◌, ltb, leb, ◌==◌, if◌then◌else◌, add_size, sub_size, length, get_or, replicate,
  tabulate_from,
}
use pimidi.Common.Memory.{Exec, done, fault, ◌>>=◌, memcpy, load}
use pimidi.Common.Int.{ℤ, pos, negsuc, sub_ℕ}

-- `ring_buffer_t`, with its data allocated.
pub record Ring : Type 0 where
  pub start : ℕ
  pub end : ℕ
  pub size : ℕ
  pub used : ℕ
  pub bytes : List ℕ

-- `ring_buffer_data_index`.
abbrev pub data_index : Ring → ℕ → ℕ
data_index r offset = add_size r.start offset % r.size

-- `ring_buffer_reset`; the block of `size` zero bytes is allocated.
unfoldable pub reset : Ring → ℕ → Ring
reset r size = record { start = 0; end = 0; size = size; used = 0; bytes = replicate size 0 }

-- `ring_buffer_create`.
unfoldable pub create : Bool → ℕ → Option Ring
unfolding reset
create mem size =
    if size == 0
    then none
    else if mem
    then some (reset (record { start = 0; end = 0; size = 0; used = 0; bytes = [] }) size)
    else none

-- A write whose bytes follow `end` in one piece.
abbrev write_whole : Ring → List ℕ → ℕ → ℕ → Exec (ℕ × Ring)
write_whole r src len used' = do
  bytes' ← memcpy r.bytes r.end src 0 len
  done (len, record r { bytes = bytes'; used = used'; end = add_size r.end len })

-- A write that goes on at the start of the block.
abbrev write_split : Ring → List ℕ → ℕ → ℕ → Exec (ℕ × Ring)
write_split r src len used' = do
  let first_part = sub_size r.size r.end
  let second_part = sub_size len first_part
  bytes' ← memcpy r.bytes r.end src 0 first_part
  bytes'' ← memcpy bytes' 0 src first_part second_part
  done (len, record r { bytes = bytes''; end = second_part; used = used' })

-- `ring_buffer_write`: all of `len` bytes of `src`, or nothing.
unfoldable pub write : Ring → List ℕ → ℕ → Exec (ℕ × Ring)
write r src len =
    let used' = add_size r.used len in
    if len == 0
    then done (0, r)
    else if ltb r.size used'
    then done (0, r)
    else if leb r.start r.end && ltb r.size (add_size r.end len)
    then write_split r src len used'
    else write_whole r src len used'

-- A read whose bytes lie in one piece.
abbrev read_whole : Ring → ℕ → Bool → Exec (Option (List ℕ) × Ring)
read_whole r len advance = do
  dest ← memcpy (replicate len 0) 0 r.bytes r.start len
  let start' = add_size r.start len
  let start'' = if leb r.size start' then 0 else start'
  done (some dest, if advance then record r { start = start''; used = sub_size r.used len } else r)

-- A read that takes the end of the block and then its start.
abbrev read_split : Ring → ℕ → Bool → Exec (Option (List ℕ) × Ring)
read_split r len advance = do
  let first_part = sub_size r.size r.start
  let second_part = sub_size len first_part
  dest ← memcpy (replicate len 0) 0 r.bytes r.start first_part
  dest' ← memcpy dest first_part r.bytes 0 second_part
  done (
    some dest',
    if advance then record r { used = sub_size r.used len; start = second_part } else r,
  )

-- `ring_buffer_read`: `len` bytes in a new block, or NULL; `advance` takes them out of the ring.
unfoldable pub read : Bool → Ring → ℕ → Bool → Exec (Option (List ℕ) × Ring)
read mem r len advance =
    if len == 0 || r.used == 0 || ltb r.used len || not mem
    then done (none, r)
    else if ltb r.start r.end
    then read_whole r len advance
    else read_split r len advance

-- `ring_buffer_read_byte`: `none` is the status -1, with the byte set to 0.
unfoldable pub read_byte : Ring → Bool → Exec (Option ℕ × Ring)
read_byte r advance =
    let start' = add_size r.start 1 in
    let start'' = if leb r.size start' then 0 else start' in
    let r' = if advance then record r { start = start''; used = sub_size r.used 1 } else r in
    if r.used == 0 then done (none, r) else (load r.bytes r.start >>= λ byte. done (some byte, r'))

-- What `ring_buffer_resize` does with the bytes that it has read.
abbrev refill : Ring → ℕ → ℕ → Option (List ℕ) → Exec (ℕ × Ring)
refill r new_size bytes_used none = done (1, reset r new_size)
refill r new_size bytes_used (some old) = do
  new ← memcpy (replicate new_size 0) 0 old 0 bytes_used
  done (1, record { start = 0; end = bytes_used; size = new_size; used = bytes_used; bytes = new })

-- `ring_buffer_resize`; the answers are those of its own allocation and of the read's.
unfoldable pub resize : Bool → Bool → Ring → ℕ → Exec (ℕ × Ring)
unfolding read reset
resize mem mem_read r new_size =
    if mem
    then (read mem_read r r.used false >>= λ (old, r'). refill r' new_size r.used old)
    else done (0, r)

-- `ring_buffer_drain`: the block, its length, the ring.
unfoldable pub drain : Bool → Ring → Exec (Option (List ℕ) × ℕ × Ring)
unfolding read
drain mem r = do (out, r') ← read mem r r.used true; done (out, r.used, r')

-- `ring_buffer_available`.
unfoldable available : Ring → ℕ → Bool
available r requested = if requested == 0 then false else leb requested r.used

-- The loop of `ring_buffer_compare`, `n` rounds to go from `i`.
unfoldable pub compare_from : ℕ → Ring → List ℕ → ℕ → Exec ℤ
compare_from zero r other i = done (pos 0)
compare_from (suc n) r other i =
    let rest = compare_from n r other (i + 1) in
    if leb r.used i then done (negsuc 0) else (do
      ring_byte ← load r.bytes (data_index r i)
      compare_byte ← load other i
      (if ring_byte == compare_byte then rest else done (sub_ℕ ring_byte compare_byte)))

-- `strlen`, which must find its zero byte.
abbrev pub strlen : List ℕ → Exec ℕ
strlen [] = fault
strlen (c ∷ s) = if c == 0 then done 0 else (strlen s >>= λ n. done (suc n))

-- `ring_buffer_compare`; a length of 0 compares a C string with its final zero.
unfoldable pub compare : Ring → List ℕ → ℕ → Exec ℤ
unfolding compare_from
compare r other compare_len =
    if ltb 0 compare_len
    then compare_from compare_len r other 0
    else (strlen other >>= λ n. compare_from (suc n) r other 0)

-- `ring_buffer_char_compare`.
unfoldable pub char_compare : Ring → ℕ → ℕ → Exec Bool
char_compare r c index =
    if leb r.used index
    then done false
    else (load r.bytes (data_index r index) >>= λ byte. done (byte == c))

-- `ring_buffer_advance`.
unfoldable pub advance : Ring → ℕ → Ring
advance r steps =
    let real_steps = min steps r.used in
    let start' = data_index r real_steps in
    let used' = sub_size r.used real_steps in
    if steps == 0
    then r
    else record r { start = start'; used = used'; end = if used' == 0 then start' else r.end }
