-- ===== src/Common/Bits.antt =====
-- Masks and disjoint ors as arithmetic: one step of the digit recursion, then the shapes that the
-- packers use.
use Prim.Native.Nat.{
  ℕ, zero, suc, ◌+◌, ◌*◌, ◌/◌, ◌%◌, ◌^◌, ◌≤◌, ◌<◌, min, max, bit_and, bit_or, digits,
  bit_and-bitwise, bit_or-bitwise,
}
use mathlib.Core.Path.{◌≡◌, refl, sym, ap, ◌∙◌}
use native.Mathlib.Nat.{pow-suc}
use native.Mathlib.Decide.{dec_le}
use native.Mathlib.Omega.{arith}

-- The recursion over digits, for any operation on them.
module _ (last : ℕ → ℕ) (op : ℕ → ℕ → ℕ) where
  -- A round more than there are digits changes nothing.
  spare_round : (n a b : ℕ) → a ≤ n → digits last op (suc n) a b ≡ digits last op n a b
  spare_round (suc n) (suc a) b h =
      ap (λ d. d * 2 + op (suc a % 2) (b % 2)) (spare_round n (suc a / 2) (b / 2) (omega arith))
  spare_round (suc n) zero b h = refl
  spare_round zero (suc a) b h = absurd (omega arith)
  spare_round zero zero b h = refl

  enough_rounds : (n a b : ℕ) → a ≤ n → digits last op n a b ≡ digits last op a a b
  enough_rounds zero (suc a) b h = absurd (omega arith)
  enough_rounds zero zero b h = refl
  enough_rounds (suc n) a b h = elim (dec_le a n) [
    | yes spare ↦ spare_round n a b spare ∙ enough_rounds n a b spare
    | no full ↦ let e : suc n ≡ a = omega arith in ap (λ k. digits last op k a b) e
  ]

  lowest_digit :
      (a b : ℕ)
      → digits last op (suc a) (suc a) b
        ≡ digits last op (suc a / 2) (suc a / 2) (b / 2) * 2 + op (suc a % 2) (b % 2)
  lowest_digit a b =
      ap (λ d. d * 2 + op (suc a % 2) (b % 2)) (enough_rounds a (suc a / 2) (b / 2) (omega arith))

bit_and_step : (a b : ℕ) → bit_and a b ≡ bit_and (a / 2) (b / 2) * 2 + min (a % 2) (b % 2)
bit_and_step zero b = omega (arith, bit_and-bitwise 0 b, bit_and-bitwise 0 (b / 2))
bit_and_step (suc a) b =
    bit_and-bitwise (suc a) b
    ∙ lowest_digit (λ d. zero) min a b
    ∙ ap (λ d. d * 2 + min (suc a % 2) (b % 2)) (sym (bit_and-bitwise (suc a / 2) (b / 2)))

pub zero-bit_or : (b : ℕ) → bit_or 0 b ≡ b
zero-bit_or b = bit_or-bitwise 0 b

bit_or_step : (a b : ℕ) → bit_or a b ≡ bit_or (a / 2) (b / 2) * 2 + max (a % 2) (b % 2)
bit_or_step zero b = omega (arith, bit_or-bitwise 0 b, bit_or-bitwise 0 (b / 2))
bit_or_step (suc a) b =
    bit_or-bitwise (suc a) b
    ∙ lowest_digit (λ d. d) max a b
    ∙ ap (λ d. d * 2 + max (suc a % 2) (b % 2)) (sym (bit_or-bitwise (suc a / 2) (b / 2)))

and_digits-zero : (n a : ℕ) → digits (λ d. zero) min n a 0 ≡ 0
and_digits-zero (suc n) (suc a) = omega (arith, and_digits-zero n (suc a / 2))
and_digits-zero (suc n) zero = refl
and_digits-zero zero a = refl

or_digits-zero : (n a : ℕ) → a ≤ n → digits (λ d. d) max n a 0 ≡ a
or_digits-zero (suc n) (suc a) h = omega (arith, or_digits-zero n (suc a / 2) (omega arith))
or_digits-zero (suc n) zero h = refl
or_digits-zero zero a h = omega arith

bit_and-zero : (a : ℕ) → bit_and a 0 ≡ 0
bit_and-zero a = bit_and-bitwise a 0 ∙ and_digits-zero a a

bit_or-zero : (a : ℕ) → bit_or a 0 ≡ a
bit_or-zero a = bit_or-bitwise a 0 ∙ or_digits-zero a a (omega arith)

-- Low masks: `a & (2^k - 1)`.
pub bit_and-0x01 : (a : ℕ) → bit_and a 0x01 ≡ a % 2
bit_and-0x01 a = omega (arith, bit_and_step a 1, bit_and-zero (a / 2))

bit_and-0x03 : (a : ℕ) → bit_and a 0x03 ≡ a % 4
bit_and-0x03 a = omega (arith, bit_and_step a 3, bit_and-0x01 (a / 2))

bit_and-0x07 : (a : ℕ) → bit_and a 0x07 ≡ a % 8
bit_and-0x07 a = omega (arith, bit_and_step a 7, bit_and-0x03 (a / 2))

pub bit_and-0x0f : (a : ℕ) → bit_and a 0x0f ≡ a % 16
bit_and-0x0f a = omega (arith, bit_and_step a 0x0f, bit_and-0x07 (a / 2))

bit_and-0x1f : (a : ℕ) → bit_and a 0x1f ≡ a % 32
bit_and-0x1f a = omega (arith, bit_and_step a 0x1f, bit_and-0x0f (a / 2))

bit_and-0x3f : (a : ℕ) → bit_and a 0x3f ≡ a % 64
bit_and-0x3f a = omega (arith, bit_and_step a 0x3f, bit_and-0x1f (a / 2))

pub bit_and-0x7f : (a : ℕ) → bit_and a 0x7f ≡ a % 128
bit_and-0x7f a = omega (arith, bit_and_step a 0x7f, bit_and-0x3f (a / 2))

pub bit_and-0xff : (a : ℕ) → bit_and a 0xff ≡ a % 256
bit_and-0xff a = omega (arith, bit_and_step a 0xff, bit_and-0x7f (a / 2))

pub bit_and-0x3ff : (a : ℕ) → bit_and a 0x3ff ≡ a % 1024
bit_and-0x3ff a =
    omega (arith, bit_and_step a 0x3ff, bit_and_step (a / 2) 0x1ff, bit_and-0xff (a / 2 / 2))

-- High masks.
bit_and-0x02 : (a : ℕ) → bit_and a 0x02 ≡ a / 2 % 2 * 2
bit_and-0x02 a = omega (arith, bit_and_step a 2, bit_and-0x01 (a / 2))

bit_and-0x04 : (a : ℕ) → bit_and a 0x04 ≡ a / 4 % 2 * 4
bit_and-0x04 a = omega (arith, bit_and_step a 4, bit_and-0x02 (a / 2))

bit_and-0x08 : (a : ℕ) → bit_and a 0x08 ≡ a / 8 % 2 * 8
bit_and-0x08 a = omega (arith, bit_and_step a 8, bit_and-0x04 (a / 2))

pub bit_and-0x10 : (a : ℕ) → bit_and a 0x10 ≡ a / 16 % 2 * 16
bit_and-0x10 a = omega (arith, bit_and_step a 0x10, bit_and-0x08 (a / 2))

pub bit_and-0x20 : (a : ℕ) → bit_and a 0x20 ≡ a / 32 % 2 * 32
bit_and-0x20 a = omega (arith, bit_and_step a 0x20, bit_and-0x10 (a / 2))

pub bit_and-0x40 : (a : ℕ) → bit_and a 0x40 ≡ a / 64 % 2 * 64
bit_and-0x40 a = omega (arith, bit_and_step a 0x40, bit_and-0x20 (a / 2))

pub bit_and-0x80 : (a : ℕ) → bit_and a 0x80 ≡ a / 128 % 2 * 128
bit_and-0x80 a = omega (arith, bit_and_step a 0x80, bit_and-0x40 (a / 2))

bit_and-0x1e : (a : ℕ) → bit_and a 0x1e ≡ a / 2 % 16 * 2
bit_and-0x1e a = omega (arith, bit_and_step a 0x1e, bit_and-0x0f (a / 2))

bit_and-0x3c : (a : ℕ) → bit_and a 0x3c ≡ a / 4 % 16 * 4
bit_and-0x3c a = omega (arith, bit_and_step a 0x3c, bit_and-0x1e (a / 2))

bit_and-0x78 : (a : ℕ) → bit_and a 0x78 ≡ a / 8 % 16 * 8
bit_and-0x78 a = omega (arith, bit_and_step a 0x78, bit_and-0x3c (a / 2))

pub bit_and-0xf0 : (a : ℕ) → bit_and a 0xf0 ≡ a / 16 % 16 * 16
bit_and-0xf0 a = omega (arith, bit_and_step a 0xf0, bit_and-0x78 (a / 2))

bit_and-0x1e0 : (a : ℕ) → bit_and a 0x1e0 ≡ a / 32 % 16 * 32
bit_and-0x1e0 a = omega (arith, bit_and_step a 0x1e0, bit_and-0xf0 (a / 2))

pub bit_and-0x0f00 : (a : ℕ) → bit_and a 0x0f00 ≡ a / 256 % 16 * 256
bit_and-0x0f00 a = omega (
  arith,
  bit_and_step a 0x0f00,
  bit_and_step (a / 2) 0x0780,
  bit_and_step (a / 2 / 2) 0x03c0,
  bit_and-0x1e0 (a / 2 / 2 / 2),
)

-- An or of a number shifted by `k` and one below 2^k is their sum.
pub bit_or-add : (k a b : ℕ) → b < 2 ^ k → bit_or (a * 2 ^ k) b ≡ a * 2 ^ k + b
bit_or-add zero a b h = let e : b ≡ 0 = omega arith in rw (e, bit_or-zero) (omega arith)
bit_or-add (suc k) a b h =
    let p : 2 ^ suc k ≡ 2 ^ k * 2 = pow-suc 2 k in
    let t : a * 2 ^ suc k ≡ a * 2 ^ k * 2 = rw p (omega arith) in
    let h' : b / 2 < 2 ^ k = omega arith in
    let halved : a * 2 ^ suc k / 2 ≡ a * 2 ^ k = rw t (omega arith) in
    let even : a * 2 ^ suc k % 2 ≡ 0 = rw t (omega arith) in
    bit_or_step (a * 2 ^ suc k) b ∙ rw (halved, even, bit_or-add k a (b / 2) h') (omega arith)
