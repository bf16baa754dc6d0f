-- ===== src/DataContext/Laws.antt =====
-- What an operation makes of a context with a number of users.
use pimidi.Common.{
  ℕ, zero, suc, ◌+◌, ◌-◌, ◌%◌, ◌^◌, ◌<◌, ◌≡◌, refl, ap, Bool, true, Option, none, some, List, [],
  ◌∷◌, ◌++◌, if◌then◌else◌, arith,
}
use pimidi.Common.Memory.{done, Returns}
use pimidi.DataContext.{DataContext, acquire, drop_reference, destroy, read_data}

-- A last reference is dropped by a thread that is about to destroy the context.
abbrev pub ending_one : Bool → ℕ
ending_one last = if last then 1 else 0

module _ {A : Type 0} (a : A) where
  -- The context of `a` with so many references.
  abbrev live : ℕ → Option (DataContext A)
  live n = some (record { data_of = some a; reference = n; destroy_func = true })

  -- There are users, or the last one is about to destroy the context, or it is freed.
  pub data Phase (cell : Option (DataContext A)) (users closers : ℕ) (out : List (Option A))
      : Type 0 where
    alive : cell ≡ live users → 0 < users → closers ≡ 0 → out ≡ [] → Phase cell users closers out
    last_one : cell ≡ live 0 → users ≡ 0 → closers ≡ 1 → out ≡ [] → Phase cell users closers out
    gone : cell ≡ none → users ≡ 0 → closers ≡ 0 → out ≡ some a ∷ [] → Phase cell users closers out

  pub acquire-Phase :
      (cell : Option (DataContext A)) (u k : ℕ) (out : List (Option A))
      → Phase cell u k out
      → 0 < u
      → u + 1 < 2 ^ 32
      → Returns (acquire cell) (λ c. Phase c (suc u) k out)
  unfolding acquire
  acquire-Phase cell u k out (alive e p c o) l h =
      let count : (u + 1) % 2 ^ 32 ≡ suc u = omega arith in
      rw e (alive (ap (λ n. live n) count) (omega arith) c o)
  acquire-Phase cell u k out (last_one e p c o) l h = absurd (omega arith)
  acquire-Phase cell u k out (gone e p c o) l h = absurd (omega arith)

  pub drop_reference-Phase :
      (cell : Option (DataContext A)) (u k : ℕ) (out : List (Option A))
      → Phase cell (suc u) k out
      → suc u < 2 ^ 32
      → Returns (drop_reference cell) (λ r. Phase r.0 u (ending_one r.1 + k) out)
  unfolding drop_reference
  drop_reference-Phase cell zero k out (alive e p c o) h = rw e (last_one refl refl (omega arith) o)
  drop_reference-Phase cell (suc u) k out (alive e p c o) h =
      let count : (suc (suc u) + (2 ^ 32 - 1)) % 2 ^ 32 ≡ suc u = omega arith in
      rw (e, count) (alive refl (omega arith) (ground (arith, c)) o)
  drop_reference-Phase cell u k out (last_one e p c o) h = absurd (omega arith)
  drop_reference-Phase cell u k out (gone e p c o) h = absurd (omega arith)

  pub destroy-Phase :
      (cell : Option (DataContext A)) (u k : ℕ) (out : List (Option A))
      → Phase cell u (suc k) out
      → Returns (destroy cell) (λ r. Phase r.0 u k (out ++ r.1))
  unfolding destroy
  destroy-Phase cell u k out (alive e p c o) = absurd (omega arith)
  destroy-Phase cell u k out (last_one e p c o) =
      rw e (gone refl p (omega arith) (ap (λ t. t ++ (some a ∷ [])) o))
  destroy-Phase cell u k out (gone e p c o) = absurd (omega arith)

  pub read_data_lem :
      (cell : Option (DataContext A)) (u k : ℕ) (out : List (Option A))
      → Phase cell (suc u) k out
      → read_data cell ≡ done (some a)
  unfolding read_data
  read_data_lem cell u k out (alive e p c o) = rw e refl
  read_data_lem cell u k out (last_one e p c o) = absurd (omega arith)
  read_data_lem cell u k out (gone e p c o) = absurd (omega arith)
