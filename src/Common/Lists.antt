-- ===== src/Common/Lists.antt =====
-- C arrays as lists with native indices: reads, writes and tables of a function's values.
use Prim.Native.Nat.{ℕ, zero, suc, ◌+◌, ◌-◌, ◌<◌, ◌≤◌, min}
use mathlib.Core.Path.{◌≡◌, refl, sym, ap, ap₂, ◌∙◌}
use mathlib.Core.List.{List, [], ◌∷◌, ◌++◌}
use mathlib.Core.Option.{Option, none, some}
use native.Mathlib.Nat.{zero-add}
use native.Mathlib.Omega.{arith}
use pimidi.Common.Tests.{◌==◌, if◌then◌else◌}

module _ {ℓ} {A : Type ℓ} where
  abbrev pub length : List A → ℕ
  length [] = 0
  length (x ∷ xs) = suc (length xs)

  abbrev pub get_elem? : List A → ℕ → Option A
  get_elem? [] i = none
  get_elem? (x ∷ xs) zero = some x
  get_elem? (x ∷ xs) (suc i) = get_elem? xs i

  abbrev pub get_or : List A → ℕ → A → A
  get_or [] i d = d
  get_or (x ∷ xs) zero d = x
  get_or (x ∷ xs) (suc i) d = get_or xs i d

  -- A write out of bounds changes nothing.
  abbrev pub set : List A → ℕ → A → List A
  set [] i v = []
  set (x ∷ xs) zero v = v ∷ xs
  set (x ∷ xs) (suc i) v = x ∷ set xs i v

  abbrev pub take : ℕ → List A → List A
  take zero xs = []
  take (suc n) [] = []
  take (suc n) (x ∷ xs) = x ∷ take n xs

  abbrev pub drop : ℕ → List A → List A
  drop zero xs = xs
  drop (suc n) [] = []
  drop (suc n) (x ∷ xs) = drop n xs

  abbrev pub replicate : ℕ → A → List A
  replicate zero a = []
  replicate (suc n) a = a ∷ replicate n a

  -- f k, f (k + 1), …, n values.
  abbrev pub tabulate_from : ℕ → (ℕ → A) → ℕ → List A
  tabulate_from zero f k = []
  tabulate_from (suc n) f k = f k ∷ tabulate_from n f (k + 1)

module _ {ℓ} {A : Type ℓ} where
  pub length-append : (xs ys : List A) → length (xs ++ ys) ≡ length xs + length ys
  length-append [] ys = omega arith
  length-append (x ∷ xs) ys = omega (arith, length-append xs ys)

  pub length-set : (xs : List A) (i : ℕ) (v : A) → length (set xs i v) ≡ length xs
  length-set [] i v = refl
  length-set (x ∷ xs) zero v = refl
  length-set (x ∷ xs) (suc i) v = ap suc (length-set xs i v)

  pub length-replicate : (n : ℕ) (a : A) → length (replicate n a) ≡ n
  length-replicate zero a = refl
  length-replicate (suc n) a = ap suc (length-replicate n a)

  pub length-drop : (n : ℕ) (xs : List A) → length (drop n xs) ≡ length xs - n
  length-drop zero xs = omega arith
  length-drop (suc n) [] = omega arith
  length-drop (suc n) (x ∷ xs) = omega (arith, length-drop n xs)

  pub length-take : (n : ℕ) (xs : List A) → length (take n xs) ≡ min n (length xs)
  length-take zero xs = omega arith
  length-take (suc n) [] = omega arith
  length-take (suc n) (x ∷ xs) = omega (arith, length-take n xs)

  pub length-tabulate_from : (n : ℕ) (f : ℕ → A) (k : ℕ) → length (tabulate_from n f k) ≡ n
  length-tabulate_from zero f k = refl
  length-tabulate_from (suc n) f k = ap suc (length-tabulate_from n f (k + 1))

  pub get_or-set :
      (xs : List A) (i j : ℕ) (v d : A)
      → i < length xs
      → get_or (set xs i v) j d ≡ (if i == j then v else get_or xs j d)
  get_or-set [] i j v d h = absurd (omega arith)
  get_or-set (x ∷ xs) zero zero v d h = refl
  get_or-set (x ∷ xs) zero (suc j) v d h = ground arith
  get_or-set (x ∷ xs) (suc i) zero v d h = ground arith
  get_or-set (x ∷ xs) (suc i) (suc j) v d h = ground (arith, get_or-set xs i j v d)

  -- Two tables agree where their functions do.
  pub tabulate_from-ext :
      (n : ℕ) (f g : ℕ → A) (k m : ℕ)
      → ((i : ℕ) → i < n → f (k + i) ≡ g (m + i))
      → tabulate_from n f k ≡ tabulate_from n g m
  tabulate_from-ext zero f g k m h = refl
  tabulate_from-ext (suc n) f g k m h =
      ap₂ ◌∷◌ (grind (arith, h 0)) (tabulate_from-ext n f g (k + 1) (m + 1) (step h))
    where
      step :
          ((i : ℕ) → i < suc n → f (k + i) ≡ g (m + i))
          → (i : ℕ) → i < n
          → f (k + 1 + i) ≡ g (m + 1 + i)
      step h' i p = grind (arith, h' (i + 1))

  pub tabulate_from-append :
      (m n : ℕ) (f : ℕ → A) (k : ℕ)
      → tabulate_from (m + n) f k ≡ tabulate_from m f k ++ tabulate_from n f (k + m)
  tabulate_from-append zero n f k = grind arith
  tabulate_from-append (suc m) n f k = grind (arith, tabulate_from-append m n f (k + 1))

  -- A list is the table of its elements.
  pub tabulate_from-get_or :
      (n : ℕ) (xs : List A) (d : A)
      → n ≤ length xs
      → tabulate_from n (λ i. get_or xs i d) 0 ≡ take n xs
  tabulate_from-get_or zero xs d h = refl
  tabulate_from-get_or (suc n) [] d h = absurd (omega arith)
  tabulate_from-get_or (suc n) (x ∷ xs) d h =
      ap (λ t. x ∷ t)
        (tabulate_from-ext n (λ i. get_or (x ∷ xs) i d) (λ i. get_or xs i d) 1 0 (λ i p. shift i)
          ∙ tabulate_from-get_or n xs d (omega arith))
    where
      shift : (i : ℕ) → get_or (x ∷ xs) (1 + i) d ≡ get_or xs (0 + i) d
      shift i = grind arith

  pub take-tabulate_from :
      (m n : ℕ) (f : ℕ → A) (k : ℕ) → m ≤ n → take m (tabulate_from n f k) ≡ tabulate_from m f k
  take-tabulate_from zero n f k h = refl
  take-tabulate_from (suc m) zero f k h = absurd (omega arith)
  take-tabulate_from (suc m) (suc n) f k h =
      ap (λ t. f k ∷ t) (take-tabulate_from m n f (k + 1) (omega arith))

  pub drop-tabulate_from :
      (m n : ℕ) (f : ℕ → A) (k : ℕ)
      → m ≤ n
      → drop m (tabulate_from n f k) ≡ tabulate_from (n - m) f (k + m)
  drop-tabulate_from zero n f k h = grind arith
  drop-tabulate_from (suc m) zero f k h = absurd (omega arith)
  drop-tabulate_from (suc m) (suc n) f k h =
      grind (arith, drop-tabulate_from m n f (k + 1) (omega arith))

  pub take_all : (xs : List A) → take (length xs) xs ≡ xs
  take_all [] = refl
  take_all (x ∷ xs) = ap (λ t. x ∷ t) (take_all xs)

  -- A list that reads as `f` does is the table of `f`.
  pub eq_of_reads :
      (xs : List A) (n : ℕ) (f : ℕ → A) (d : A)
      → length xs ≡ n
      → ((i : ℕ) → i < n → get_or xs i d ≡ f i)
      → xs ≡ tabulate_from n f 0
  eq_of_reads xs n f d e h =
      sym (take_all xs)
      ∙ ap (λ m. take m xs) e
      ∙ sym (tabulate_from-get_or n xs d (omega arith))
      ∙ tabulate_from-ext n (λ i. get_or xs i d) f 0 0 (λ i p. simp zero-add (h i p))

  pub get_or-append :
      (xs ys : List A) (i : ℕ) (d : A) → i < length xs → get_or (xs ++ ys) i d ≡ get_or xs i d
  get_or-append [] ys i d h = absurd (omega arith)
  get_or-append (x ∷ xs) ys zero d h = refl
  get_or-append (x ∷ xs) ys (suc i) d h = get_or-append xs ys i d (omega arith)
