-- ===== src/Dstring/Laws.antt =====
-- The string that is held, and what an append makes of it.
use pimidi.Common.{
  ℕ, suc, ◌+◌, ◌-◌, ◌*◌, ◌^◌, ◌≤◌, ◌<◌, ◌≡◌, refl, sym, ap, ap₂, subst, ◌∙◌, true, false, List, [],
  ◌∷◌, ◌++◌, append_assoc, ltb, ◌==◌, if◌then◌else◌, add_size, mul_size, replicate, length, drop,
  length-append, length-replicate, length-tabulate_from, length-drop, tabulate_from, arith,
}
use native.Mathlib.Nat.{div-add-mod, mod-lt}
use native.Mathlib.Decide.{dec_lt}
use pimidi.Common.Memory.{Returns->>=, Exec, done, fault, ◌>>=◌, memcpy, Returns}
use pimidi.Dstring.Copy.{memcpy-end}
use pimidi.Dstring.{Dstring, strlen, allocated, strcat, block_count, grown, append}

-- No byte is NUL.
abbrev NoNul : List ℕ → Type 0
NoNul [] = Unit
NoNul (c ∷ cs) = ((c == 0) ≡ false) × NoNul cs

-- The block has its size, and the string with its NUL in front.
pub record HoldsString (d : Dstring) (s : List ℕ) : Type 0 where
  pub rest : List ℕ
  pub front : d.block ≡ s ++ (0 ∷ rest)
  pub size : length d.block ≡ d.num_blocks * d.block_size
  pub small : d.num_blocks * d.block_size < 2 ^ 62
  pub positive : 0 < d.block_size
  pub no_nul : NoNul s

strlen_lem : (s rest : List ℕ) → NoNul s → strlen (s ++ (0 ∷ rest)) ≡ done (length s)
unfolding strlen
strlen_lem [] rest h = refl
strlen_lem (c ∷ s) rest h = rw (h.0, strlen_lem s rest h.1) (ap (λ n. done n) (omega arith))

reassociate :
    (s t : List ℕ) (rest : List ℕ) → s ++ ((t ++ (0 ∷ [])) ++ rest) ≡ (s ++ t) ++ (0 ∷ rest)
reassociate s t rest = simp append_assoc refl

NoNul-append : (s t : List ℕ) → NoNul s → NoNul t → NoNul (s ++ t)
NoNul-append [] t h k = k
NoNul-append (c ∷ s) t h k = (h.0, NoNul-append s t h.1 k)

total_size :
    (d : Dstring) (s : List ℕ) (h : HoldsString d s)
    → length s + suc (length h.rest) ≡ d.num_blocks * d.block_size
total_size d s h = sym (length-append s (0 ∷ h.rest)) ∙ ap (λ b. length b) (sym h.front) ∙ h.size

-- A copy behind the string where there is room for it.
strcat-HoldsString :
    (d : Dstring) (s t : List ℕ)
    → HoldsString d s
    → NoNul t
    → length s + length t < d.num_blocks * d.block_size
    → Returns (strcat d t) (λ out. HoldsString out (s ++ t))
strcat-HoldsString d s t h k room =
    let src = t ++ (0 ∷ []) in
    let rest' = drop (length src) (0 ∷ h.rest) in
    let src_size : length src ≡ length t + 1 = length-append t (0 ∷ []) in
    let copied : memcpy (s ++ (0 ∷ h.rest)) (length s) src 0 (length src)
        ≡ done (s ++ (src ++ rest')) =
      memcpy-end s (0 ∷ h.rest) src (omega (arith, src_size, room, total_size d s h)) in
    let catted : strcat d t ≡ done (record d { block = s ++ (src ++ rest') }) =
      ap (λ b. strcat (record d { block = b }) t) h.front
      ∙ ap
          (λ m. m >>= λ len. memcpy (s ++ (0 ∷ h.rest)) len src 0 (length t + 1) >>= λ block.
            done (record d { block = block }))
          (strlen_lem s h.rest h.no_nul)
      ∙ ap
          (λ n. memcpy (s ++ (0 ∷ h.rest)) (length s) src 0 n >>= λ block.
            done (record d { block = block }))
          (sym src_size)
      ∙ ap (λ m. m >>= λ block. done (record d { block = block })) copied in
    subst (λ m. Returns m (λ out. HoldsString out (s ++ t))) (sym catted)
      (record {
        rest = rest';
        front = reassociate s t rest';
        size = omega (
          arith,
          length-append s (src ++ rest'),
          length-append src rest',
          src_size,
          length-drop (length src) (0 ∷ h.rest),
          room,
          total_size d s h,
        );
        small = h.small;
        positive = h.positive;
        no_nul = NoNul-append s t h.no_nul k;
      })

module _ (d : Dstring) (s t : List ℕ) (junk : ℕ → ℕ) (h : HoldsString d s)
    (large : length s + length t + d.block_size < 2 ^ 61) where
  count : ℕ
  count = block_count d (length s) (length t)

  -- The blocks that are asked for have room for both strings and a NUL.
  count_room :
      (length s + length t + 1 < count * d.block_size)
      × (count * d.block_size ≤ length s + length t + 1 + d.block_size)
  unfolding count
  count_room =
      let plain : add_size (add_size (length s) (length t)) 1 ≡ length s + length t + 1 =
        omega arith in
      rw plain
        (grind (arith, h.positive, div-add-mod (length s + length t + 1) d.block_size, mod-lt))

  -- The string in its larger block.
  grown-HoldsString :
      d.num_blocks * d.block_size ≤ length s + length t
      → Returns
          (grown false junk d (length s) t)
          (λ out. HoldsString out s × (length s + length t < out.num_blocks * out.block_size))
  unfolding count
  grown-HoldsString full =
      let n = mul_size count d.block_size - allocated d in
      let behind = (0 ∷ h.rest) ++ tabulate_from n junk 0 in
      let zeros : List ℕ = replicate (length t + 1) 0 in
      let zeros_size : length zeros ≡ length t + 1 = length-replicate (length t + 1) 0 in
      let n_size : n ≡ count * d.block_size - d.num_blocks * d.block_size =
        omega (arith, count_room, h.small) in
      let behind_size : length s + length behind ≡ count * d.block_size = omega (
        arith,
        length-append (0 ∷ h.rest) (tabulate_from n junk 0),
        length-tabulate_from n junk 0,
        n_size,
        count_room,
        total_size d s h,
        full,
      ) in
      let rest' = drop (length zeros) behind in
      let whole : d.block ++ tabulate_from n junk 0 ≡ s ++ behind =
        ap (λ b. b ++ tabulate_from n junk 0) h.front
        ∙ append_assoc s (0 ∷ h.rest) (tabulate_from n junk 0) in
      let cleared : memcpy (s ++ behind) (length s) zeros 0 (length zeros)
          ≡ done (s ++ (zeros ++ rest')) =
        memcpy-end s behind zeros (omega (arith, zeros_size, behind_size, count_room)) in
      let made : grown false junk d (length s) t
          ≡ done (record d { num_blocks = count; block = s ++ (zeros ++ rest') }) =
        ap (λ m. m >>= λ b. done (record d { num_blocks = count; block = b }))
          (ap₂ (λ b k. memcpy b (length s) zeros 0 k) whole (sym zeros_size) ∙ cleared) in
      let one : length t + 1 ≡ suc (length t) = omega arith in
      let first : zeros ≡ 0 ∷ replicate (length t) 0 = ap (λ k. replicate {A = ℕ} k 0) one in
      subst
        (λ m.
          Returns m
            (λ out. HoldsString out s × (length s + length t < out.num_blocks * out.block_size)))
        (sym made)
        (
          record {
            rest = replicate (length t) 0 ++ rest';
            front = ap (λ z. s ++ (z ++ rest')) first;
            size = omega (
              arith,
              length-append s (zeros ++ rest'),
              length-append zeros rest',
              length-drop (length zeros) behind,
              behind_size,
              zeros_size,
              count_room,
            );
            small = omega (arith, count_room);
            positive = h.positive;
            no_nul = h.no_nul;
          },
          omega (arith, count_room),
        )

abbrev Returns-appended : List ℕ → List ℕ → Exec Dstring → Type 0
Returns-appended s t m = Returns m (λ out. HoldsString out (s ++ t))

-- `dstring_append` puts a string behind the one that is held, and nothing else, where `realloc`, if it
-- is called, leaves the block where it is. The strings have no NUL in them, their length with a block
-- is below 2^61, and there is memory.
pub append-HoldsString :
    (junk : ℕ → ℕ) (d : Dstring) (s t : List ℕ)
    → HoldsString d s
    → NoNul t
    → length s + length t + d.block_size < 2 ^ 61
    → Returns (append true false junk d t) (λ out. HoldsString out (s ++ t))
unfolding append
append-HoldsString junk d s t h k large =
    let begun = ap (λ b. strlen b) h.front ∙ strlen_lem s h.rest h.no_nul in
    let known : append true false junk d t ≡ (
        if ltb (add_size (length s) (length t)) (allocated d)
        then strcat d t
        else (grown false junk d (length s) t >>= λ larger. strcat larger t)) =
      ap
        (λ m. m >>= λ len.
          if ltb (add_size len (length t)) (allocated d)
          then strcat d t
          else (grown false junk d len t >>= λ larger. strcat larger t))
        begun in
    let there = Returns-appended s t in
    elim (dec_lt (length s + length t) (d.num_blocks * d.block_size)) [
      | yes fits ↦
          let in_place : ltb (add_size (length s) (length t)) (allocated d) ≡ true =
            ground (arith, h.small) in
          subst there
            (sym (
              known
              ∙ ap
                  (λ b.
                    if b
                    then strcat d t
                    else (grown false junk d (length s) t >>= λ larger. strcat larger t))
                  in_place))
            (strcat-HoldsString d s t h k fits)
      | no full ↦
          let too_long : ltb (add_size (length s) (length t)) (allocated d) ≡ false =
            ground (arith, h.small) in
          subst there
            (sym (
              known
              ∙ ap
                  (λ b.
                    if b
                    then strcat d t
                    else (grown false junk d (length s) t >>= λ larger. strcat larger t))
                  too_long))
            (Returns->>= (grown false junk d (length s) t) _ _ _
              (grown-HoldsString d s t junk h large (omega arith))
              (λ out w. strcat-HoldsString out s t w.0 k w.1))
    ]

-- `dstring_append` looks for the end of the string in the block that `realloc` has freed, where the
-- string does not fit and the new block is at another address.
append_moved :
    (junk : ℕ → ℕ) (d : Dstring) (s t : List ℕ)
    → HoldsString d s
    → length s + length t < 2 ^ 62
    → d.num_blocks * d.block_size ≤ length s + length t
    → append true true junk d t ≡ fault
unfolding append
append_moved junk d s t h large full =
    let begun = ap (λ b. strlen b) h.front ∙ strlen_lem s h.rest h.no_nul in
    let too_long : ltb (add_size (length s) (length t)) (allocated d) ≡ false =
      ground (arith, h.small) in
    rw (begun, too_long) refl
