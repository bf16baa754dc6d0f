-- ===== src/Dstring/Copy.antt =====
-- `memcpy` over a part of a block.
use pimidi.Common.{
  ℕ, zero, suc, ◌≤◌, ◌≡◌, refl, sym, ap, ◌∙◌, List, [], ◌∷◌, ◌++◌, length, take, drop, take_all,
  length-append, length-take, tabulate_from, tabulate_from-get_or, get_or, arith,
}
use pimidi.Common.Memory.{done, memcpy, memcpy-done, blit}
use pimidi.Common.Memory.Blit.{blit-append}

take-drop : (n : ℕ) (xs : List ℕ) → take n xs ++ drop n xs ≡ xs
take-drop zero xs = refl
take-drop (suc n) [] = refl
take-drop (suc n) (x ∷ xs) = ap (λ t. x ∷ t) (take-drop n xs)

-- A copy over the middle of a block.
memcpy-over :
    (pre old post src : List ℕ)
    → length old ≡ length src
    → memcpy (pre ++ (old ++ post)) (length pre) src 0 (length src) ≡ done (pre ++ (src ++ post))
memcpy-over pre old post src e =
    memcpy-done (pre ++ (old ++ post)) (length pre) src 0 (length src)
      (omega (arith, e, length-append pre (old ++ post), length-append old post)) (omega arith)
    ∙ ap (λ n. done (blit n (pre ++ (old ++ post)) (length pre) src 0)) (sym e)
    ∙ ap (λ out. done out) (blit-append pre old post src 0)
    ∙ ap (λ n. done (pre ++ (tabulate_from n (λ i. get_or src i 0) 0 ++ post))) e
    ∙ ap (λ t. done (pre ++ (t ++ post)))
        (tabulate_from-get_or (length src) src 0 (omega arith) ∙ take_all src)

-- The same over the end of a block that is long enough.
pub memcpy-end :
    (pre rest src : List ℕ)
    → length src ≤ length rest
    → memcpy (pre ++ rest) (length pre) src 0 (length src)
      ≡ done (pre ++ (src ++ drop (length src) rest))
memcpy-end pre rest src h =
    ap (λ t. memcpy (pre ++ t) (length pre) src 0 (length src)) (sym (take-drop (length src) rest))
    ∙ memcpy-over pre (take (length src) rest) (drop (length src) rest) src
        (omega (arith, length-take (length src) rest))
