-- ===== src/Config/Iter.antt =====
-- The keys with an index behind their prefix.
use pimidi.Common.{
  ℕ, zero, suc, ◌+◌, ◌*◌, ◌/◌, ◌%◌, ◌≤◌, ◌<◌, ◌≡◌, refl, Option, List, [], ◌∷◌, ◌++◌, ltb, leb,
  if◌then◌else◌, Bool, true, length, length-append, arith, min,
}
use pimidi.Common.Int.{ℤ}
use pimidi.Common.Memory.{Exec, done, fault, ◌>>=◌}
use pimidi.Common.Strings.{digits, decimal}
use pimidi.KvTable.{KvTable}
use pimidi.Config.{string_get}
use pimidi.Config.Values.{int_get, long_get, is_set}

-- `raveloxmidi_config_iter_t`.
pub record ConfigIter : Type 0 where
  pub prefix : List ℕ
  pub index : ℕ

-- `config_iter_create`, where there is memory for it, and `config_iter_reset`.
abbrev pub iter_create : List ℕ → ConfigIter
iter_create prefix = record { prefix = prefix; index = 0 }

abbrev iter_reset : ConfigIter → ConfigIter
iter_reset iter = record iter { index = 0 }

-- `config_iter_next`, up to MAX_ITER_INDEX.
unfoldable pub iter_next : ConfigIter → ConfigIter
iter_next iter = if ltb iter.index 10000 then record iter { index = iter.index + 1 } else iter

-- `config_make_key`: `sprintf` into a block of the prefix's length and 7 bytes.
unfoldable pub make_key : List ℕ → ℕ → Exec (List ℕ)
make_key prefix index =
    let key = prefix ++ (b'.' ∷ decimal index) in
    if leb (length key + 1) (length prefix + 7) then done key else fault

-- `config_iter_string_get`, `config_iter_int_get`, `config_iter_long_get`, `config_iter_is_set`.
abbrev pub iter_string_get : KvTable → ConfigIter → Exec (Option (List ℕ))
iter_string_get table iter = make_key iter.prefix iter.index >>= λ key. done (string_get table key)

abbrev iter_int_get : KvTable → ConfigIter → Exec ℤ
iter_int_get table iter = make_key iter.prefix iter.index >>= λ key. int_get table key

abbrev iter_long_get : KvTable → ConfigIter → Exec ℤ
iter_long_get table iter = make_key iter.prefix iter.index >>= λ key. long_get table key

abbrev iter_is_set : KvTable → ConfigIter → Exec Bool
iter_is_set table iter = make_key iter.prefix iter.index >>= λ key. done (is_set table key)

-- One digit more for ten times the number.
digits_step :
    (b k fuel n : ℕ)
    → ((g m : ℕ) → m < b → length (digits g m) ≤ k)
    → n < 10 * b
    → length (digits fuel n) ≤ k + 1
unfolding digits
digits_step b k zero n h l = omega arith
digits_step b k (suc fuel) n h l = ground (
  arith,
  length-append (digits fuel (n / 10)) ((n % 10 + b'0') ∷ []),
  h fuel (n / 10) (omega arith),
)

digits_none : (g m : ℕ) → m < 10 → length (digits g m) ≤ 1
unfolding digits
digits_none zero m h = omega arith
digits_none (suc g) m h = ground arith

five_digits : (n : ℕ) → n < 100000 → length (decimal n) ≤ 5
five_digits n h =
    digits_step 10000 4 (suc n) n
      (λ g m l.
        digits_step 1000 3 g m
          (λ g m l.
            digits_step 100 2 g m (λ g m l. digits_step 10 1 g m (λ g m l. digits_none g m l) l) l)
          l)
      h

-- `n` calls of `config_iter_next`.
abbrev pub nexts : ℕ → ConfigIter → ConfigIter
nexts zero iter = iter
nexts (suc n) iter = iter_next (nexts n iter)

nexts-index :
    (n : ℕ) (prefix : List ℕ)
    → nexts n (iter_create prefix) ≡ record { prefix = prefix; index = min n 10000 }
unfolding iter_next
nexts-index zero prefix = refl
nexts-index (suc n) prefix = rw (nexts-index n prefix) (ground arith)

-- After any number of calls of `config_iter_next` on a new iterator, the key that is looked up is the
-- prefix, a full stop and the digits of the number of calls, or of 10000 where there were more; it is
-- written inside its block.
pub iter_string_get-nexts :
    (table : KvTable) (prefix : List ℕ) (n : ℕ)
    → iter_string_get table (nexts n (iter_create prefix))
      ≡ done (string_get table (prefix ++ (b'.' ∷ decimal (min n 10000))))
unfolding make_key
iter_string_get-nexts table prefix n =
    let key = prefix ++ (b'.' ∷ decimal (min n 10000)) in
    let inside : leb (length key + 1) (length prefix + 7) ≡ true = ground (
      arith,
      length-append prefix (b'.' ∷ decimal (min n 10000)),
      five_digits (min n 10000) (omega arith),
    ) in
    rw (nexts-index n prefix, make_key, inside) refl
