-- ===== src/Dbuffer.antt =====
-- raveloxmidi/src/dbuffer.c: the growing byte buffer that holds a MIDI command until it is whole.
-- An operation returns the new record beside its result; `mem` is the answer of an allocation.
-- The mutex is left out: each operation runs under it from end to end.
pub mod Laws
mod Tests
use pimidi.Common.{
  ℕ, ◌+◌, ◌-◌, ◌*◌, ◌/◌, ◌%◌, ◌^◌, Bool, true, false, Option, none, some, List, [], ◌++◌, ltb, ◌==◌,
  if◌then◌else◌, add_size, mul_size, replicate,
}
use pimidi.Common.Memory.{Exec, done, fault, ◌>>=◌, memcpy}

-- `dbuffer_t`. A NULL `data` is the empty list, and then `num_blocks` is 0.
pub record Dbuffer : Type 0 where
  pub len : ℕ
  pub num_blocks : ℕ
  pub block_size : ℕ
  pub bytes : List ℕ

-- `dbuffer_create`.
unfoldable pub create : Bool → ℕ → Option Dbuffer
create mem block_size =
    if block_size == 0
    then none
    else if mem
    then some (record { len = 0; num_blocks = 0; block_size = block_size; bytes = [] })
    else none

-- `dbuffer_reset`.
unfoldable pub reset : Dbuffer → Dbuffer
reset d = record d { bytes = []; len = 0; num_blocks = 0 }

-- The blocks that `required` bytes take, with one to spare.
abbrev pub block_count : Dbuffer → ℕ → ℕ
block_count d required = required / d.block_size + 1

-- The buffer after `X_REALLOC`, the bytes behind the old block set to 0.
abbrev pub grown : Dbuffer → ℕ → Dbuffer
grown d required =
    let allocated_len = mul_size d.num_blocks d.block_size in
    let new_allocated_len = mul_size (block_count d required) d.block_size in
    record d {
      num_blocks = block_count d required;
      bytes = d.bytes ++ replicate (new_allocated_len - allocated_len) 0;
    }

-- The copy behind the stored bytes.
abbrev pub append : Dbuffer → List ℕ → ℕ → Exec (ℕ × Dbuffer)
append d in_buffer in_buffer_len = do
  bytes' ← memcpy d.bytes d.len in_buffer 0 in_buffer_len
  done (in_buffer_len, record d { bytes = bytes'; len = add_size d.len in_buffer_len })

-- `dbuffer_write`: 0 where the buffer cannot grow.
unfoldable pub write : Bool → Dbuffer → List ℕ → ℕ → Exec (ℕ × Dbuffer)
write mem d in_buffer in_buffer_len =
    let required_len = add_size (add_size d.len in_buffer_len) 1 in
    if ltb (mul_size d.num_blocks d.block_size) required_len
    then (if mem then append (grown d required_len) in_buffer in_buffer_len else done (0, d))
    else append d in_buffer in_buffer_len

-- `dbuffer_read`: a copy of the stored bytes and their number. The new block is cleared before the
-- code looks whether there is one.
unfoldable pub read : Bool → Dbuffer → Exec (ℕ × List ℕ)
read mem d =
    if mem
    then (memcpy (replicate d.len 0) 0 d.bytes 0 d.len >>= λ out. done (d.len, out))
    else fault

-- `dbuffer_len`.
unfoldable stored_len : Dbuffer → ℕ
stored_len d = if d.num_blocks == 0 then 0 else d.len
