-- ===== src/Common/Tests.antt =====
-- Boolean tests on the native numbers, the conditional, and size_t arithmetic.
use Prim.Native.Nat.{ℕ, zero, suc, ◌+◌, ◌-◌, ◌*◌, ◌%◌, ◌^◌, ◌<◌, compare, Ordering}
use mathlib.Core.Path.{◌≡◌, refl}
use mathlib.Core.Logic.{◌⊎◌, inl, inr}
use mathlib.Core.Bool.{Bool, true, false, ◌&&◌}
use native.Mathlib.Omega.{arith}
use native.Mathlib.Decide.{dec_lt}
use native.Mathlib.Nat.{mod-eq_of_lt, mod-eq-sub-mod}

abbrev pub ltb : ℕ → ℕ → Bool
ltb a b = elim (compare a b) [ Ordering.lt ↦ true | _ ↦ false ]

abbrev pub leb : ℕ → ℕ → Bool
leb a b = elim (compare a b) [ Ordering.gt ↦ false | _ ↦ true ]

infix 50 ◌==◌
abbrev pub ◌==◌ : ℕ → ℕ → Bool
a == b = elim (compare a b) [ Ordering.eq ↦ true | _ ↦ false ]

infix 1 if◌then◌else◌
abbrev pub if◌then◌else◌ {ℓ} : {A : Type ℓ} → Bool → A → A → A
if true then x else y = x
if false then x else y = y

pub Bool-cases : (b : Bool) → (b ≡ true) ⊎ (b ≡ false)
Bool-cases true = inl refl
Bool-cases false = inr refl

-- `size_t` addition and subtraction, on 64 bits.
abbrev pub add_size : ℕ → ℕ → ℕ
add_size a b = (a + b) % 2 ^ 64

abbrev pub sub_size : ℕ → ℕ → ℕ
sub_size a b = (a + 2 ^ 64 - b) % 2 ^ 64

-- An object of more than 2^63 - 1 bytes cannot be allocated.
abbrev pub IsSize : ℕ → Type 0
IsSize n = n < 2 ^ 63

abbrev IsByte : ℕ → Type 0
IsByte b = b < 256

-- The remainder of a number below twice the divisor.
pub mod_once : (a n : ℕ) → 0 < n → a < n + n → a % n ≡ (if ltb a n then a else a - n)
mod_once a n h k = elim (dec_lt a n) [
  | yes p ↦ ground (arith, mod-eq_of_lt {n = a} {m = n} p)
  | no p ↦ ground (
    arith,
    mod-eq-sub-mod {n = a} {m = n} (omega arith),
    mod-eq_of_lt {n = a - n} {m = n} (omega arith),
  )
]

abbrev pub mul_size : ℕ → ℕ → ℕ
mul_size a b = a * b % 2 ^ 64

-- A test that passes for every number below a bound, by evaluation.
unfoldable pub passes_below : ℕ → (ℕ → Bool) → Bool
passes_below zero test = true
passes_below (suc n) test = test n && passes_below n test

pub passes_below_lem :
    (n : ℕ) (test : ℕ → Bool) → passes_below n test ≡ true → (i : ℕ) → i < n → test i ≡ true
unfolding passes_below
passes_below_lem zero test e i h = absurd (omega arith)
passes_below_lem (suc n) test e i h = ground (arith, passes_below_lem n test (ground arith) i)
