-- ===== src/Bytes.antt =====
-- raveloxmidi/src/utils.c: numbers in network order, written to a block and read from a buffer
-- through a cursor. `p` is the cursor as an offset, `len` the count that moves with it.
pub mod Laws
use pimidi.Common.{
  ℕ, ◌+◌, ◌*◌, ◌/◌, ◌%◌, ◌^◌, List, [], ◌∷◌, if◌then◌else◌, leb, length, get_or, add_size, sub_size,
}
use pimidi.Common.Memory.{Exec, done, fault, ◌>>=◌, memcpy}

-- A number as `htons`, `htonl` and `htonll` lay it out.
abbrev pub network16 : ℕ → List ℕ
network16 v = v / 256 % 256 ∷ v % 256 ∷ []

abbrev pub network32 : ℕ → List ℕ
network32 v = v / 2 ^ 24 % 256 ∷ v / 2 ^ 16 % 256 ∷ v / 256 % 256 ∷ v % 256 ∷ []

abbrev pub network64 : ℕ → List ℕ
network64 v =
    v / 2 ^ 56 % 256 ∷ v / 2 ^ 48 % 256 ∷ v / 2 ^ 40 % 256 ∷ v / 2 ^ 32 % 256 ∷ network32 v

-- Big-endian bytes as a number, what `ntohs`, `ntohl` and `ntohll` make of them.
abbrev pub big_endian : ℕ → List ℕ → ℕ
big_endian acc [] = acc
big_endian acc (b ∷ bs) = big_endian (acc * 256 + b) bs

-- A write at the cursor.
abbrev put : List ℕ → ℕ → List ℕ → ℕ → Exec (List ℕ × ℕ × ℕ)
put dest p src len = memcpy dest p src 0 (length src) >>= λ dest'.
    done (dest', p + length src, add_size len (length src))

-- `put_uint16`, `put_uint32`, `put_uint64`.
unfoldable pub put_uint16 : List ℕ → ℕ → ℕ → ℕ → Exec (List ℕ × ℕ × ℕ)
put_uint16 dest p src len = put dest p (network16 src) len

unfoldable pub put_uint32 : List ℕ → ℕ → ℕ → ℕ → Exec (List ℕ × ℕ × ℕ)
put_uint32 dest p src len = put dest p (network32 src) len

unfoldable pub put_uint64 : List ℕ → ℕ → ℕ → ℕ → Exec (List ℕ × ℕ × ℕ)
put_uint64 dest p src len = put dest p (network64 src) len

-- `n` bytes at the cursor. The count is not looked at before it is lowered.
abbrev get : ℕ → List ℕ → List ℕ → ℕ → ℕ → Exec (ℕ × ℕ × ℕ)
get n zeros src p len =
    memcpy zeros 0 src p n >>= λ value. done (big_endian 0 value, p + n, sub_size len n)

-- `get_uint16`, `get_uint32`, `get_uint64`: the value, the cursor, the count.
unfoldable pub get_uint16 : List ℕ → ℕ → ℕ → Exec (ℕ × ℕ × ℕ)
get_uint16 src p len = get 2 (0 ∷ 0 ∷ []) src p len

unfoldable pub get_uint32 : List ℕ → ℕ → ℕ → Exec (ℕ × ℕ × ℕ)
get_uint32 src p len = get 4 (0 ∷ 0 ∷ 0 ∷ 0 ∷ []) src p len

unfoldable pub get_uint64 : List ℕ → ℕ → ℕ → Exec (ℕ × ℕ × ℕ)
get_uint64 src p len = get 8 (0 ∷ 0 ∷ 0 ∷ 0 ∷ 0 ∷ 0 ∷ 0 ∷ 0 ∷ []) src p len
