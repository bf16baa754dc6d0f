-- ===== src/RingBuffer/Resize.antt =====
-- `ring_buffer_resize`: the bytes are kept in a block of the new size.
use pimidi.Common.{
  ℕ, ◌+◌, ◌-◌, ◌≤◌, ◌<◌, ◌≡◌, refl, sym, ap, ◌∙◌, List, length, take, IsSize, true, false, inl, inr,
  get_or, replicate, length-replicate, length-take, tabulate_from, length-tabulate_from,
  take-tabulate_from, tabulate_from-ext, tabulate_from-get_or, arith,
}
use pimidi.Common.Memory.{fault, Returns, blit, length-blit, get_or-blit, get_or-at, memcpy-done}
use pimidi.RingBuffer.{Ring, data_index, resize, reset}
use pimidi.RingBuffer.Inv.{IsValid, peek, contents, data_index_lem, reset-IsValid}
use pimidi.RingBuffer.Read.{read_cases}
use pimidi.RingBuffer.Consume.{drain-IsSafe}

module _ (r : Ring) (new_size : ℕ) (v : IsValid r) (p : 0 < new_size) (s : IsSize new_size) where
  -- The ring that takes the bytes over.
  refilled : List ℕ → ℕ → Ring
  refilled old used = record {
    start = 0;
    end = used;
    size = new_size;
    used = used;
    bytes = blit used (replicate new_size 0) 0 old 0;
  }

  refilled-IsValid : (old : List ℕ) (used : ℕ) → used ≤ new_size → IsValid (refilled old used)
  unfolding refilled
  refilled-IsValid old used h =
      ground (
        arith,
        length-blit used (replicate new_size 0) 0 old 0,
        length-replicate {A = ℕ} new_size 0,
      )

  refilled-contents :
      (old : List ℕ) (used : ℕ)
      → used ≤ new_size
      → contents (refilled old used) ≡ tabulate_from used (λ i. get_or old i 0) 0
  unfolding refilled
  refilled-contents old used h =
      tabulate_from-ext used (peek (refilled old used)) (λ i. get_or old i 0) 0 0 place
    where
      place : (i : ℕ) → i < used → peek (refilled old used) (0 + i) ≡ get_or old (0 + i) 0
      place i q = ground (
        arith,
        data_index_lem (refilled old used) (0 + i) (refilled-IsValid old used h) (omega arith),
        length-replicate {A = ℕ} new_size 0,
        get_or-blit used (replicate new_size 0) 0 old 0 (data_index (refilled old used) (0 + i)),
        get_or-at old (0 + (data_index (refilled old used) (0 + i) - 0)) (0 + i),
      )

stored : (r : Ring) → length (contents r) ≡ r.used
stored r = length-tabulate_from r.used (peek r) 0

-- `ring_buffer_resize` of a valid ring to a size that holds its bytes is defined, answers 1, keeps
-- the bytes in their order, and leaves a valid ring of the new size. The allocations succeed.
resize_lem :
    (r : Ring) (new_size : ℕ)
    → IsValid r
    → 0 < new_size
    → IsSize new_size
    → r.used ≤ new_size
    → Returns (resize true true r new_size) (λ out.
      (out.0 ≡ 1) × (contents out.1 ≡ contents r) × IsValid out.1 × (out.1.size ≡ new_size))
unfolding resize refilled
resize_lem r n v p s h = elim (read_cases r r.used false v (drain-IsSafe r v)) [
  | inl (e, inl none_used) ↦ rw e (
    refl,
    ap (λ k. tabulate_from k (peek r) 0) (sym none_used),
    (reset-IsValid r n p s).0,
    unfold reset in refl,
  )
  | inl (e, inr short) ↦ absurd (omega arith)
  | inr (r', e, t, held, some_bytes) ↦ rw e (
      rw (memcpy-done (replicate n 0) 0 old 0 r.used room held_old) (
        refl,
        refilled-contents r n v p s old r.used h
            ∙ tabulate_from-get_or r.used old 0 (omega (arith, held_old))
            ∙ whole,
        refilled-IsValid r n v p s old r.used h,
        refl,
      ))
]
  where
    old : List ℕ
    old = take r.used (contents r)

    once : take r.used (contents r) ≡ contents r
    once = take-tabulate_from r.used r.used (peek r) 0 (omega arith)

    whole : take r.used old ≡ contents r
    whole = ap (take r.used) once ∙ once

    held_old : 0 + r.used ≤ length old
    held_old = omega (arith, stored r, length-take r.used (contents r))

    room : 0 + r.used ≤ length (replicate {A = ℕ} n 0)
    room = omega (arith, length-replicate {A = ℕ} n 0)

-- `ring_buffer_resize` of a valid ring to a size below the number of its bytes runs into undefined
-- behaviour: it copies all of them into the new block. The allocations succeed.
resize_overruns :
    (r : Ring) (new_size : ℕ) → IsValid r → new_size < r.used → resize true true r new_size ≡ fault
unfolding resize
resize_overruns r n v h = elim (read_cases r r.used false v (drain-IsSafe r v)) [
  | inl (e, inl none_used) ↦ absurd (omega arith)
  | inl (e, inr short) ↦ absurd (omega arith)
  | inr (r', e, t, held, some_bytes) ↦ rw e (ground (arith, length-replicate {A = ℕ} n 0))
]
