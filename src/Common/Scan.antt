-- ===== src/Common/Scan.antt =====
-- Scans of a C string from its end: what is read in front of a byte, at it and behind it.
use Prim.Native.Nat.{ℕ, zero, suc, ◌+◌, ◌≤◌}
use mathlib.Core.Path.{◌≡◌, refl, ap, ◌∙◌}
use mathlib.Core.Bool.{Bool, true}
use mathlib.Core.List.{List, [], ◌∷◌, ◌++◌}
use native.Mathlib.Omega.{arith}
use pimidi.Common.Lists.{length, get_or, take, drop}
use pimidi.Common.Memory.{get_or-at}

-- Every byte passes a test.
abbrev pub All : (ℕ → Bool) → List ℕ → Type 0
All test [] = Unit
All test (c ∷ cs) = (test c ≡ true) × All test cs

pub get_or-All :
    (test : ℕ → Bool) (xs : List ℕ) (n : ℕ)
    → All test xs
    → suc n ≤ length xs
    → test (get_or xs n 0) ≡ true
get_or-All test [] n a h = absurd (omega arith)
get_or-All test (x ∷ xs) zero a h = a.0
get_or-All test (x ∷ xs) (suc n) a h = get_or-All test xs n a.1 (omega arith)

pub get_or_before : (xs ys : List ℕ) (c : ℕ) → get_or (xs ++ (c ∷ ys)) (length xs) 0 ≡ c
get_or_before [] ys c = refl
get_or_before (x ∷ xs) ys c = get_or_before xs ys c

pub take_before :
    (xs ys : List ℕ) (c : ℕ) → take (suc (length xs)) (xs ++ (c ∷ ys)) ≡ xs ++ (c ∷ [])
take_before [] ys c = refl
take_before (x ∷ xs) ys c = ap (λ t. x ∷ t) (take_before xs ys c)

pub get_or_behind :
    (xs ws : List ℕ) (c m : ℕ) → get_or (xs ++ (c ∷ ws)) (suc (length xs + m)) 0 ≡ get_or ws m 0
get_or_behind [] ws c m = get_or-at ws (0 + m) m (omega arith)
get_or_behind (x ∷ xs) ws c m =
    get_or-at (xs ++ (c ∷ ws)) (suc (length xs) + m) (suc (length xs + m)) (omega arith)
    ∙ get_or_behind xs ws c m

pub drop_behind : (xs ys : List ℕ) (c : ℕ) → drop (suc (length xs)) (xs ++ (c ∷ ys)) ≡ ys
drop_behind [] ys c = refl
drop_behind (x ∷ xs) ys c = drop_behind xs ys c

pub take_front : (xs ys : List ℕ) → take (length xs) (xs ++ ys) ≡ xs
take_front [] [] = refl
take_front [] (y ∷ ys) = refl
take_front (x ∷ xs) ys = ap (λ t. x ∷ t) (take_front xs ys)
