-- ===== src/RingBuffer/Tests.antt =====
-- The ring on concrete bytes.
use pimidi.Common.{◌≡◌, inl, inr, refl, true, [], ◌∷◌, take, arith}
use pimidi.Common.Int.{pos}
use pimidi.Common.Memory.{done, fault, Returns}
use pimidi.RingBuffer.{Ring, write, read, compare, compare_from}
use pimidi.RingBuffer.Fifo
use pimidi.RingBuffer.Inv.{IsValid, contents}
use pimidi.RingBuffer.Write.{write_refines}
use pimidi.RingBuffer.Consume.{read_refines, read_overruns}

-- Five bytes that go round the end of a block of eight.
abbrev wrapped : Ring
wrapped = record {
  start = 5;
  end = 2;
  size = 8;
  used = 5;
  bytes = 4 ∷ 5 ∷ 0 ∷ 0 ∷ 0 ∷ 1 ∷ 2 ∷ 3 ∷ [];
}

wrapped-IsValid : IsValid wrapped
wrapped-IsValid = record {
  block = refl;
  sized = omega arith;
  start_in = omega arith;
  end_in = omega arith;
  used_in = omega arith;
  linked = inr (inl (omega arith));
}

-- A write of more than fits is refused.
write_full : write wrapped (1 ∷ 2 ∷ 3 ∷ 4 ∷ []) 4 ≡ done (0, wrapped)
unfolding write
write_full = refl

-- A C string is compared with its final zero.
compare_string : compare wrapped (1 ∷ 2 ∷ 0 ∷ []) 2 ≡ done (pos 0)
unfolding compare compare_from
compare_string = refl

write_refines_example : Returns (write wrapped (6 ∷ 7 ∷ 8 ∷ []) 3) (λ out.
    ((out.0, contents out.1) ≡ Fifo.write 8 (contents wrapped) (take 3 (6 ∷ 7 ∷ 8 ∷ [])))
    × IsValid out.1
    × (out.1.size ≡ 8))
write_refines_example =
    write_refines wrapped (6 ∷ 7 ∷ 8 ∷ []) 3 wrapped-IsValid (omega arith) (omega arith)

read_refines_example : Returns (read true wrapped 4 true) (λ out.
    ((out.0, contents out.1) ≡ Fifo.read (contents wrapped) 4 true)
    × IsValid out.1
    × (out.1.size ≡ 8))
read_refines_example = read_refines wrapped 4 true wrapped-IsValid (ground arith)

read_overruns_example : read true wrapped 2 true ≡ fault
read_overruns_example =
    read_overruns wrapped 2 true wrapped-IsValid (omega arith) (omega arith) (omega arith)
      (omega arith)
