-- ===== src/Common/Memory.antt =====
-- Memory as C sees it: an execution ends with a value or in undefined behaviour, and `memcpy`
-- and array accesses are defined only inside their objects.
pub mod Blit
use Prim.Native.Nat.{ℕ, zero, suc, ◌+◌, ◌-◌, ◌≤◌, ◌<◌}
use mathlib.Core.Path.{◌≡◌, refl, ◌∙◌}
use mathlib.Core.Bool.{◌&&◌}
use mathlib.Core.List.{List}
use native.Mathlib.Omega.{arith}
use pimidi.Common.Tests.{ltb, leb, if◌then◌else◌}
use pimidi.Common.Lists.{length, get_or, set, length-set, get_or-set}

-- `fault` is undefined behaviour: an access outside its object.
pub data Exec {ℓ} (A : Type ℓ) : Type ℓ where
  done : A → Exec A
  fault : Exec A

infixl 5 ◌>>=◌
abbrev pub ◌>>=◌ {ℓ κ} : {A : Type ℓ} {B : Type κ} → Exec A → (A → Exec B) → Exec B
done a >>= f = f a
fault >>= f = fault

-- Total correctness: the execution is defined, and what it returns satisfies `P`.
abbrev pub Returns {ℓ} : {A : Type ℓ} → Exec A → (A → Type 0) → Type 0
Returns (done a) P = P a
Returns fault P = ⊥

-- `n` bytes of `src` from `soff` on, written over `dst` from `doff` on.
unfoldable pub blit : ℕ → List ℕ → ℕ → List ℕ → ℕ → List ℕ
blit zero dst doff src soff = dst
blit (suc n) dst doff src soff = blit n (set dst doff (get_or src soff 0)) (doff + 1) src (soff + 1)

-- `memcpy( dst + doff, src + soff, n )`.
abbrev pub memcpy : List ℕ → ℕ → List ℕ → ℕ → ℕ → Exec (List ℕ)
memcpy dst doff src soff n =
    if leb (doff + n) (length dst) && leb (soff + n) (length src)
    then done (blit n dst doff src soff)
    else fault

-- `p[i]`.
abbrev pub load : List ℕ → ℕ → Exec ℕ
load p i = if ltb i (length p) then done (get_or p i 0) else fault

-- `p[i] = v`.
abbrev pub store : List ℕ → ℕ → ℕ → Exec (List ℕ)
store p i v = if ltb i (length p) then done (set p i v) else fault

pub length-blit :
    (n : ℕ) (dst : List ℕ) (doff : ℕ) (src : List ℕ) (soff : ℕ)
    → length (blit n dst doff src soff) ≡ length dst
unfolding blit
length-blit zero dst doff src soff = refl
length-blit (suc n) dst doff src soff =
    length-blit n (set dst doff (get_or src soff 0)) (doff + 1) src (soff + 1)
    ∙ length-set dst doff (get_or src soff 0)

-- Inside the written range a copy reads the source, outside it reads the old bytes.
pub get_or-blit :
    (n : ℕ) (dst : List ℕ) (doff : ℕ) (src : List ℕ) (soff j : ℕ)
    → doff + n ≤ length dst
    → get_or (blit n dst doff src soff) j 0 ≡ (
        if leb doff j && ltb j (doff + n) then get_or src (soff + (j - doff)) 0 else get_or dst j 0)
unfolding blit
get_or-blit zero dst doff src soff j h = ground arith
get_or-blit (suc n) dst doff src soff j h =
    let v = get_or src soff 0 in
    ground (
      arith,
      length-set dst doff v,
      get_or-set dst doff j v 0,
      get_or-blit n (set dst doff v) (doff + 1) src (soff + 1) j,
      at_start (soff + (j - doff)),
    )
  where
    at_start : (k : ℕ) → k ≡ soff → get_or src k 0 ≡ get_or src soff 0
    at_start k e = rw e

pub memcpy-done :
    (dst : List ℕ) (doff : ℕ) (src : List ℕ) (soff n : ℕ)
    → doff + n ≤ length dst
    → soff + n ≤ length src
    → memcpy dst doff src soff n ≡ done (blit n dst doff src soff)
memcpy-done dst doff src soff n h k = ground arith

pub memcpy-fault :
    (dst : List ℕ) (doff : ℕ) (src : List ℕ) (soff n : ℕ)
    → length src < soff + n
    → memcpy dst doff src soff n ≡ fault
memcpy-fault dst doff src soff n h = ground arith

-- Reads at equal places are equal.
pub get_or-at : (xs : List ℕ) (i j : ℕ) → i ≡ j → get_or xs i 0 ≡ get_or xs j 0
get_or-at xs i j e = rw e

-- Total correctness of a chain.
pub Returns->>= {ℓ κ} :
    {A : Type ℓ} {B : Type κ} (m : Exec A) (f : A → Exec B) (P : A → Type 0) (Q : B → Type 0)
    → Returns m P
    → ((a : A) → P a → Returns (f a) Q)
    → Returns (m >>= f) Q
Returns->>= (done a) f P Q h k = k a h
Returns->>= fault f P Q h k = absurd h

pub Returns-weaken {ℓ} :
    {A : Type ℓ} (m : Exec A) (P Q : A → Type 0) → Returns m P → ((a : A) → P a → Q a) → Returns m Q
Returns-weaken (done a) P Q h k = k a h
Returns-weaken fault P Q h k = absurd h
