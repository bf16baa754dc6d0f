-- ===== src/Journal/Pack/ChapterCLog.antt =====
-- `chapter_c_pack` and the number of controllers in use.
use pimidi.Common.{
  ℕ, suc, ◌+◌, ◌-◌, ◌*◌, ◌%◌, ◌^◌, ◌≤◌, ◌<◌, ◌≡◌, refl, sym, ap, inl, inr, true, false, List, [],
  ◌∷◌, ◌++◌, append-nil, bit_and, bit_or, if◌then◌else◌, leb, ◌==◌, length, replicate, sub_size,
  arith, Bool-cases,
}
use native.Mathlib.Decide.{dec_lt}
use pimidi.Common.Bits.{bit_or-add, bit_and-0x7f}
use pimidi.Journal.{ChapterC, ControllerLog}
use pimidi.Journal.Pack.{count_logs, log_bytes, pack_logs, pack_c}

-- Two bytes for each controller in use, in their order.
abbrev all_logs : ℕ → List ControllerLog → List ℕ
all_logs i [] = []
all_logs i (log ∷ logs) =
    let rest = all_logs (i + 1) logs in if log.number == i then log_bytes log ++ rest else rest

length-all_logs :
    (i : ℕ) (logs : List ControllerLog) → length (all_logs i logs) ≡ count_logs i logs * 2
length-all_logs i [] = refl
length-all_logs i (log ∷ logs) = elim (Bool-cases (log.number == i)) [
  | inl e ↦ rw (all_logs, count_logs, e) (omega (arith, length-all_logs (i + 1) logs))
  | inr e ↦ rw (all_logs, count_logs, e) (length-all_logs (i + 1) logs)
]

length_zero : (xs : List ℕ) → length xs ≡ 0 → xs ≡ []
length_zero [] h = refl
length_zero (x ∷ xs) h = absurd (omega (arith, h))

count_used :
    (i : ℕ) (log : ControllerLog) (logs : List ControllerLog)
    → (log.number == i) ≡ true
    → count_logs i (log ∷ logs) ≡ suc (count_logs (i + 1) logs)
count_used i log logs e = rw (count_logs, e) refl

count_unused :
    (i : ℕ) (log : ControllerLog) (logs : List ControllerLog)
    → (log.number == i) ≡ false
    → count_logs i (log ∷ logs) ≡ count_logs (i + 1) logs
count_unused i log logs e = rw (count_logs, e) refl

-- With room for all of them the loop packs them all.
pack_logs_all :
    (i current_size : ℕ) (logs : List ControllerLog)
    → count_logs i logs * 2 ≤ current_size
    → pack_logs i current_size logs ≡ all_logs i logs
pack_logs_all i n [] h = refl
pack_logs_all i n (log ∷ logs) h = elim (dec_lt n 2) [
  | yes short ↦
      let e : leb 2 n ≡ false = ground arith in
      let nothing : all_logs i (log ∷ logs) ≡ [] =
        length_zero (all_logs i (log ∷ logs)) (omega (arith, h, length-all_logs i (log ∷ logs))) in
      rw (pack_logs, e) (sym nothing)
  | no room ↦
      let e : leb 2 n ≡ true = ground arith in
      elim (Bool-cases (log.number == i)) [
        | inl u ↦
            rw (pack_logs, all_logs, e, u)
              (ap (λ t. log_bytes log ++ t)
                (pack_logs_all (i + 1) (n - 2) logs (omega (arith, h, count_used i log logs u))))
        | inr u ↦
            rw (pack_logs, all_logs, e, u)
              (pack_logs_all (i + 1) n logs (omega (arith, h, count_unused i log logs u)))
      ]
]

-- Without room for one the loop packs none.
pack_logs_none :
    (i current_size : ℕ) (logs : List ControllerLog)
    → current_size < 2
    → pack_logs i current_size logs ≡ []
pack_logs_none i n [] h = refl
pack_logs_none i n (log ∷ logs) h = let e : leb 2 n ≡ false = ground arith in rw (pack_logs, e) refl

-- `chapter_c_pack` of a chapter with 1 to 127 controllers in use: the flag S and the number of them
-- less 1 in the first byte, then two bytes for each in their order, and nothing behind them.
pack_c_lem :
    (c : ChapterC)
    → c.s < 2
    → 0 < count_logs 0 c.controller_log
    → count_logs 0 c.controller_log ≤ 127
    → (pack_c c).0 ≡ (c.s * 128 + (count_logs 0 c.controller_log - 1)) ∷ all_logs 0 c.controller_log
unfolding pack_c
pack_c_lem c s lo hi = rw (pack_c, small, some_logs, all, no_rest, append-nil, first) refl
  where
    n : ℕ
    n = count_logs 0 c.controller_log

    small : n % 2 ^ 8 ≡ n
    small = omega (arith, hi)

    some_logs : (n == 0) ≡ false
    some_logs = ground (arith, lo)

    all :
        pack_logs 0 (((1 + n * 2) % 2 ^ 8 + 2 ^ 8 - 1) % 2 ^ 8) c.controller_log
        ≡ all_logs 0 c.controller_log
    all =
        pack_logs_all 0 (((1 + n * 2) % 2 ^ 8 + 2 ^ 8 - 1) % 2 ^ 8) c.controller_log
          (omega (arith, lo, hi))

    no_rest : 1 + n * 2 - 1 - length (all_logs 0 c.controller_log) ≡ 0
    no_rest = omega (arith, length-all_logs 0 c.controller_log)

    first : bit_or (c.s * 2 ^ 7) (bit_and (sub_size n 1) 0x7f) % 2 ^ 8 ≡ c.s * 128 + (n - 1)
    first = omega (
      arith,
      s,
      lo,
      hi,
      bit_and-0x7f (sub_size n 1),
      bit_or-add 7 c.s (bit_and (sub_size n 1) 0x7f) (omega (arith, bit_and-0x7f (sub_size n 1))),
    )

-- `chapter_c_pack` of a chapter with all 128 controllers in use: the count of the bytes left is 0 in
-- its eight bits, and 256 zeros stand for the controllers.
pack_c_full :
    (c : ChapterC)
    → count_logs 0 c.controller_log ≡ 128
    → (first : ℕ) × ((pack_c c).0 ≡ first ∷ replicate 256 0)
unfolding pack_c
pack_c_full c h = (
  bit_or (c.s * 2 ^ 7) (bit_and (sub_size 128 1) 0x7f) % 2 ^ 8,
  rw (pack_c, h, pack_logs_none 0 0 c.controller_log (omega arith)) refl,
)
