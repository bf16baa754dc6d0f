-- ===== src/Common/Memory/Blit.antt =====
-- Copies that fill the rest of a block, or the whole of it.
use pimidi.Common.{
  ℕ, zero, suc, ◌+◌, ◌≤◌, ◌≡◌, refl, sym, ap, ◌∙◌, List, [], ◌∷◌, ◌++◌, append_assoc, append-nil,
  ap₂, length, get_or, set, replicate, length-append, length-replicate, tabulate_from,
  tabulate_from-ext, tabulate_from-get_or, take_all, arith,
}
use native.Mathlib.Nat.{zero-add}
use pimidi.Common.Memory.{done, blit, memcpy, memcpy-done}

pub set-append :
    (pre : List ℕ) (o : ℕ) (old : List ℕ) (v : ℕ)
    → set (pre ++ (o ∷ old)) (length pre) v ≡ (pre ++ (v ∷ [])) ++ old
set-append [] o old v = refl
set-append (x ∷ pre) o old v = ap (λ t. x ∷ t) (set-append pre o old v)

length-snoc : (pre : List ℕ) (v : ℕ) → length (pre ++ (v ∷ [])) ≡ length pre + 1
length-snoc pre v = length-append pre (v ∷ [])

-- A copy over all of `old`, between what it leaves alone.
pub blit-append :
    (pre old post : List ℕ) (src : List ℕ) (soff : ℕ)
    → blit (length old) (pre ++ (old ++ post)) (length pre) src soff
      ≡ pre ++ (tabulate_from (length old) (λ i. get_or src i 0) soff ++ post)
unfolding blit
blit-append pre [] post src soff = refl
blit-append pre (o ∷ old) post src soff =
    let v = get_or src soff 0 in
    ap (λ b. blit (length old) b (length pre + 1) src (soff + 1)) (set-append pre o (old ++ post) v)
    ∙ ap (λ k. blit (length old) ((pre ++ (v ∷ [])) ++ (old ++ post)) k src (soff + 1))
        (sym (length-snoc pre v))
    ∙ blit-append (pre ++ (v ∷ [])) old post src (soff + 1)
    ∙ append_assoc pre (v ∷ [])
        (tabulate_from (length old) (λ i. get_or src i 0) (soff + 1) ++ post)

get_or-append_right :
    (xs ys : List ℕ) (i d : ℕ) → get_or (xs ++ ys) (length xs + i) d ≡ get_or ys i d
get_or-append_right [] ys i d = ap (λ k. get_or ys k d) (zero-add i)
get_or-append_right (x ∷ xs) ys i d =
    ap (λ k. get_or ((x ∷ xs) ++ ys) k d) shift ∙ get_or-append_right xs ys i d
  where
    shift : suc (length xs) + i ≡ suc (length xs + i)
    shift = omega arith

-- What follows a prefix, as a table.
tabulate_from-append_right :
    (xs ys : List ℕ) → tabulate_from (length ys) (λ i. get_or (xs ++ ys) i 0) (length xs) ≡ ys
tabulate_from-append_right xs ys =
    tabulate_from-ext (length ys) (λ i. get_or (xs ++ ys) i 0) (λ i. get_or ys i 0) (length xs) 0
      (λ i p. get_or-append_right xs ys i 0 ∙ ap (λ k. get_or ys k 0) (sym (zero-add i)))
    ∙ tabulate_from-get_or (length ys) ys 0 (omega arith)
    ∙ take_all ys

-- A copy of all of `src` over the zeros behind `pre`.
pub memcpy-insert :
    (pre src : List ℕ) (n : ℕ)
    → memcpy (pre ++ (replicate (length src) 0 ++ replicate n 0)) (length pre) src 0 (length src)
      ≡ done (pre ++ (src ++ replicate n 0))
memcpy-insert pre src n =
    memcpy-done (pre ++ (old ++ post)) (length pre) src 0 (length src)
      (omega (arith, room, inner, zeros)) (omega arith)
    ∙ ap (λ out. done out)
        (ap (λ k. blit k (pre ++ (old ++ post)) (length pre) src 0) (sym zeros)
          ∙ blit-append pre old post src 0
          ∙ ap (λ t. pre ++ (t ++ post))
              (ap (λ k. tabulate_from k (λ i. get_or src i 0) 0) zeros
                ∙ tabulate_from-append_right [] src))
  where
    old : List ℕ
    old = replicate (length src) 0

    post : List ℕ
    post = replicate n 0

    zeros : length (replicate {A = ℕ} (length src) 0) ≡ length src
    zeros = length-replicate (length src) 0

    room : length (pre ++ (old ++ post)) ≡ length pre + length (old ++ post)
    room = length-append pre (old ++ post)

    inner : length (old ++ post) ≡ length old + length post
    inner = length-append old post

-- A copy of all of `src` behind `pre`.
pub memcpy-append :
    (pre src : List ℕ)
    → memcpy (pre ++ replicate (length src) 0) (length pre) src 0 (length src) ≡ done (pre ++ src)
memcpy-append pre src =
    ap (λ t. memcpy (pre ++ t) (length pre) src 0 (length src))
      (sym (append-nil (replicate (length src) 0)))
    ∙ memcpy-insert pre src 0
    ∙ ap (λ t. done (pre ++ t)) (append-nil src)

pub replicate-add : (m n : ℕ) → replicate {A = ℕ} (m + n) 0 ≡ replicate m 0 ++ replicate n 0
replicate-add zero n = ap (λ k. replicate k 0) (zero-add n)
replicate-add (suc m) n = ap (λ k. replicate k 0) shift ∙ ap (λ t. 0 ∷ t) (replicate-add m n)
  where
    shift : suc m + n ≡ suc (m + n)
    shift = omega arith

-- A copy of all of `src` to the start of a new block.
pub memcpy-prefix :
    (src : List ℕ) (n : ℕ)
    → memcpy (replicate (length src + n) 0) 0 src 0 (length src) ≡ done (src ++ replicate n 0)
memcpy-prefix src n =
    ap (λ t. memcpy t 0 src 0 (length src)) (replicate-add (length src) n) ∙ memcpy-insert [] src n

-- A copy of `k` bytes from anywhere in a buffer into a block of their number.
pub memcpy-slice :
    (k : ℕ) (src : List ℕ) (soff : ℕ)
    → soff + k ≤ length src
    → memcpy (replicate k 0) 0 src soff k ≡ done (tabulate_from k (λ i. get_or src i 0) soff)
memcpy-slice k src soff h =
    memcpy-done (replicate k 0) 0 src soff k (omega (arith, zeros)) h
    ∙ ap (λ out. done out)
        (ap₂ (λ n t. blit n t 0 src soff) (sym zeros) (sym (append-nil (replicate k 0)))
          ∙ blit-append [] (replicate k 0) [] src soff
          ∙ append-nil (tabulate_from (length (replicate {A = ℕ} k 0)) (λ i. get_or src i 0) soff)
          ∙ ap (λ n. tabulate_from n (λ i. get_or src i 0) soff) zeros)
  where
    zeros : length (replicate {A = ℕ} k 0) ≡ k
    zeros = length-replicate k 0

-- A copy of all that follows `pre` into a block of its length.
pub memcpy-suffix :
    (pre src : List ℕ)
    → memcpy (replicate (length src) 0) 0 (pre ++ src) (length pre) (length src) ≡ done src
memcpy-suffix pre src =
    memcpy-slice (length src) (pre ++ src) (length pre) (omega (arith, length-append pre src))
    ∙ ap (λ out. done out) (tabulate_from-append_right pre src)
