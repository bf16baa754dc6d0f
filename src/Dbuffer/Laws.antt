-- ===== src/Dbuffer/Laws.antt =====
-- What `dbuffer.c` promises: the buffer holds the bytes written since its last reset, in order.
use pimidi.Common.{
  ℕ, ◌+◌, ◌-◌, ◌*◌, ◌≤◌, ◌<◌, ◌≡◌, refl, sym, ap, ap₂, ◌∙◌, List, [], ◌++◌, length, true, get_or,
  take, replicate, length-replicate, length-append, get_or-append, IsSize, mul_size, add_size,
  tabulate_from, tabulate_from-ext, tabulate_from-append, tabulate_from-get_or, eq_of_reads,
  length-tabulate_from, arith,
}
use native.Mathlib.Nat.{zero-add, div-add-mod, mod-lt}
use native.Mathlib.Decide.{dec_lt}
use pimidi.Common.Memory.{done, Returns, blit, length-blit, get_or-blit, get_or-at, memcpy-done}
use pimidi.Dbuffer.{Dbuffer, reset, write, read, grown, append, block_count}

pub record IsValid (d : Dbuffer) : Type 0 where
  pub blocks : 0 < d.block_size
  pub block : length d.bytes ≡ d.num_blocks * d.block_size
  pub sized : IsSize (d.num_blocks * d.block_size)
  pub len_in : d.len ≤ d.num_blocks * d.block_size

-- The bytes in the buffer.
abbrev pub held : Dbuffer → List ℕ
held d = tabulate_from d.len (λ i. get_or d.bytes i 0) 0

-- The buffer after `in_buffer_len` bytes are copied behind those it holds.
pub record Appended (d : Dbuffer) (src : List ℕ) (n : ℕ) (d' : Dbuffer) : Type 0 where
  pub valid : IsValid d'
  pub len_grown : d'.len ≡ d.len + n
  pub old_bytes : (i : ℕ) → i < d.len → get_or d'.bytes i 0 ≡ get_or d.bytes i 0
  pub new_bytes : (i : ℕ) → i < n → get_or d'.bytes (d.len + i) 0 ≡ get_or src i 0

held-Appended :
    (d : Dbuffer) (src : List ℕ) (n : ℕ) (d' : Dbuffer)
    → n ≤ length src
    → Appended d src n d'
    → held d' ≡ held d ++ take n src
held-Appended d src n d' h w =
    ap (λ k. tabulate_from k at 0) w.len_grown
    ∙ tabulate_from-append d.len n at 0
    ∙ ap₂ ◌++◌
        (tabulate_from-ext d.len at (λ i. get_or d.bytes i 0) 0 0
          (λ i p. simp zero-add (w.old_bytes i p)))
        (tabulate_from-ext n at (λ i. get_or src i 0) (0 + d.len) 0
            (λ i p. simp zero-add (w.new_bytes i p))
          ∙ tabulate_from-get_or n src 0 h)
  where
    at : ℕ → ℕ
    at i = get_or d'.bytes i 0

module _ (d : Dbuffer) (src : List ℕ) (n : ℕ) (v : IsValid d) (given : n ≤ length src) where
  appended : Dbuffer
  appended = record d { bytes = blit n d.bytes d.len src 0; len = add_size d.len n }

  append-done : d.len + n ≤ d.num_blocks * d.block_size → append d src n ≡ done (n, appended)
  unfolding appended
  append-done h = rw (memcpy-done d.bytes d.len src 0 n (omega arith) (omega arith))

  append-Appended : d.len + n ≤ d.num_blocks * d.block_size → Appended d src n appended
  unfolding appended
  append-Appended h = record {
    valid = record {
      blocks = v.blocks;
      block = length-blit n d.bytes d.len src 0 ∙ v.block;
      sized = v.sized;
      len_in = omega arith;
    };
    len_grown = omega arith;
    old_bytes = λ i p. ground (arith, get_or-blit n d.bytes d.len src 0 i);
    new_bytes = λ i p. ground (
      arith,
      get_or-blit n d.bytes d.len src 0 (d.len + i),
      get_or-at src (0 + (d.len + i - d.len)) i,
    );
  }

-- A write for which the buffer grows.
module _ (d : Dbuffer) (src : List ℕ) (n : ℕ) (v : IsValid d) (given : n ≤ length src) where
  required : ℕ
  required = d.len + n + 1

  -- Growing gives room for the bytes asked for, and one more.
  new_room :
      (required < block_count d required * d.block_size)
      × (block_count d required * d.block_size ≤ required + d.block_size)
  unfolding required
  new_room = grind (arith, div-add-mod (d.len + n + 1) d.block_size, mod-lt)

  module _ (s : IsSize (required + d.block_size)) (h : d.num_blocks * d.block_size < required) where
    bigger : Dbuffer
    bigger = grown d required

    old_size : mul_size d.num_blocks d.block_size ≡ d.num_blocks * d.block_size
    old_size = omega arith

    new_size :
        mul_size (block_count d required) d.block_size ≡ block_count d required * d.block_size
    new_size = omega (arith, new_room)

    added : ℕ
    added = mul_size (block_count d required) d.block_size - mul_size d.num_blocks d.block_size

    bigger-IsValid : IsValid bigger
    unfolding bigger added
    bigger-IsValid = record {
      blocks = v.blocks;
      block = omega (
        arith,
        length-append d.bytes (replicate added 0),
        length-replicate {A = ℕ} added 0,
        old_size,
        new_size,
        new_room,
      );
      sized = omega (arith, new_room);
      len_in = omega (arith, new_room);
    }

    bigger_bytes : (i : ℕ) → i < d.len → get_or bigger.bytes i 0 ≡ get_or d.bytes i 0
    unfolding bigger added
    bigger_bytes i p = get_or-append d.bytes (replicate added 0) i 0 (omega arith)

    room : bigger.len + n ≤ bigger.num_blocks * bigger.block_size
    unfolding bigger required
    room = omega (arith, new_room)

    grown_write : Dbuffer
    grown_write = appended bigger src n bigger-IsValid given

    grown-done : append (grown d required) src n ≡ done (n, grown_write)
    unfolding bigger grown_write
    grown-done = append-done bigger src n bigger-IsValid given room

    grown-Appended : Appended d src n grown_write
    unfolding grown_write appended bigger
    grown-Appended =
        let t = append-Appended bigger src n bigger-IsValid given room in
        record {
          valid = t.valid;
          len_grown = t.len_grown;
          old_bytes = λ i p. t.old_bytes i p ∙ bigger_bytes i p;
          new_bytes = t.new_bytes;
        }

-- A write that ends well.
write_cases :
    (d : Dbuffer) (src : List ℕ) (n : ℕ)
    → IsValid d
    → n ≤ length src
    → IsSize (d.len + n + 1 + d.block_size)
    → (d' : Dbuffer) × (write true d src n ≡ done (n, d'))
      × Appended d src n d'
      × (d'.block_size ≡ d.block_size)
unfolding write required
write_cases d src n v h s = elim (dec_lt (d.num_blocks * d.block_size) (d.len + n + 1)) [
  | no fits ↦ (
    appended d src n v h,
    ground (arith, no_wrap, append-done d src n v h (omega arith)),
    append-Appended d src n v h (omega arith),
    unfold appended in refl,
  )
  | yes short ↦ (
    grown_write d src n v h s short,
    ground (arith, no_wrap, grown-done d src n v h s short),
    grown-Appended d src n v h s short,
    unfold grown_write appended bigger in refl,
  )
]
  where
    no_wrap :
        (add_size (add_size d.len n) 1 ≡ d.len + n + 1)
        × (mul_size d.num_blocks d.block_size ≡ d.num_blocks * d.block_size)
    no_wrap = omega arith

-- `dbuffer_write` on a valid buffer is defined: it takes all `n` bytes, and the buffer then holds
-- its old bytes followed by the new ones and is valid. The buffer stays below 2^63 bytes, and the
-- allocation succeeds.
pub write_lem :
    (d : Dbuffer) (src : List ℕ) (n : ℕ)
    → IsValid d
    → n ≤ length src
    → IsSize (d.len + n + 1 + d.block_size)
    → Returns (write true d src n) (λ out.
      (out.0 ≡ n)
      × (held out.1 ≡ held d ++ take n src)
      × (out.1.len ≡ d.len + n)
      × (out.1.block_size ≡ d.block_size)
      × IsValid out.1)
write_lem d src n v h s =
    let (d', e, w, k) = write_cases d src n v h s in
    rw e (refl, held-Appended d src n d' h w, w.len_grown, k, w.valid)

-- `dbuffer_read` of a valid buffer is defined and returns the bytes that it holds and their
-- number. The allocation succeeds.
pub read_lem : (d : Dbuffer) → IsValid d → read true d ≡ done (length (held d), held d)
unfolding read
read_lem d v =
    rw (memcpy-done (replicate d.len 0) 0 d.bytes 0 d.len (omega (arith, zeros)) (omega arith))
      (ap₂ (λ k out. done (k, out)) (sym (length-tabulate_from d.len at 0)) copied)
  where
    at : ℕ → ℕ
    at i = get_or d.bytes i 0

    zeros : length (replicate {A = ℕ} d.len 0) ≡ d.len
    zeros = length-replicate d.len 0

    copied : blit d.len (replicate d.len 0) 0 d.bytes 0 ≡ held d
    copied =
        eq_of_reads (blit d.len (replicate d.len 0) 0 d.bytes 0) d.len at 0
          (length-blit d.len (replicate d.len 0) 0 d.bytes 0 ∙ zeros)
          (λ i p. ground (
            arith,
            zeros,
            get_or-blit d.len (replicate d.len 0) 0 d.bytes 0 i,
            get_or-at d.bytes (0 + (i - 0)) i,
          ))

-- A new buffer, and a buffer after a reset, are valid and hold nothing.
pub reset_lem : (d : Dbuffer) → 0 < d.block_size → (held (reset d) ≡ []) × IsValid (reset d)
unfolding reset
reset_lem d h = (refl, omega arith)
