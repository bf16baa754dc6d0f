-- ===== src/Dstring.antt =====
-- raveloxmidi/src/dstring.c: a growing C string. `mem` is the answer of an allocation, `moved` whether
-- `realloc` gave a block at another address, and `junk` what is behind the old bytes in it. The mutex
-- is left out: each operation runs under it from end to end.
pub mod Copy
pub mod Laws
mod Tests
use pimidi.Common.{
  ℕ, ◌+◌, ◌-◌, ◌/◌, Bool, true, false, Option, none, some, List, [], ◌∷◌, ◌++◌, ltb, ◌==◌,
  if◌then◌else◌, add_size, mul_size, replicate, length, tabulate_from,
}
use pimidi.Common.Memory.{Exec, done, fault, ◌>>=◌, memcpy}

-- `dstring_t`; `block` is what `data` points to.
pub record Dstring : Type 0 where
  pub block_size : ℕ
  pub num_blocks : ℕ
  pub block : List ℕ

-- `strlen`, which reads up to a NUL.
unfoldable pub strlen : List ℕ → Exec ℕ
strlen [] = fault
strlen (c ∷ cs) = if c == 0 then done 0 else (strlen cs >>= λ n. done (n + 1))

-- `dstring_create`. The block is cleared before the code looks whether there is one.
unfoldable pub create : Bool → Bool → ℕ → Exec (Option Dstring)
create mem mem_data block_size =
    if block_size == 0
    then done none
    else if mem
    then if mem_data
      then done (
          some (record { block_size = block_size; num_blocks = 1; block = replicate block_size 0 }))
      else fault
    else done none

-- `dstring_reset`: the new block has whatever was in its memory.
unfoldable pub reset : (ℕ → ℕ) → Dstring → Dstring
reset junk d = record d { num_blocks = 1; block = tabulate_from d.block_size junk 0 }

abbrev pub allocated : Dstring → ℕ
allocated d = mul_size d.num_blocks d.block_size

-- `strcat( dstring->data, in_string )`; a C string ends in its NUL.
abbrev pub strcat : Dstring → List ℕ → Exec Dstring
strcat d in_string = strlen d.block >>= λ len.
    memcpy d.block len (in_string ++ (0 ∷ [])) 0 (length in_string + 1) >>= λ block.
    done (record d { block = block })

-- The number of blocks for `len` bytes and `in_len` more, with their NUL.
abbrev pub block_count : Dstring → ℕ → ℕ → ℕ
block_count d len in_len = (add_size (add_size len in_len) 1) / d.block_size + 1

-- The new block, its memory cleared where the string ends. The end is looked for in the old block,
-- which is freed if the new one is somewhere else.
abbrev pub grown : Bool → (ℕ → ℕ) → Dstring → ℕ → List ℕ → Exec Dstring
grown moved junk d len in_string = if moved then fault else (do
  let count = block_count d len (length in_string)
  let block = d.block ++ tabulate_from (mul_size count d.block_size - allocated d) junk 0
  cleared ← memcpy block len (replicate (length in_string + 1) 0) 0 (length in_string + 1)
  done (record d { num_blocks = count; block = cleared }))

-- `dstring_append`.
unfoldable pub append : Bool → Bool → (ℕ → ℕ) → Dstring → List ℕ → Exec Dstring
append mem moved junk d in_string = strlen d.block >>= λ len.
    if ltb (add_size len (length in_string)) (allocated d)
    then strcat d in_string
    else if mem
    then (grown moved junk d len in_string >>= λ larger. strcat larger in_string)
    else done d

-- `dstring_value`, as the C string it is.
abbrev pub value : Dstring → List ℕ
value d = d.block
