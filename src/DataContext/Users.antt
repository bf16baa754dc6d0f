-- ===== src/DataContext/Users.antt =====
-- The users of a context in every order of the steps.
use pimidi.Common.{
  ℕ, suc, ◌+◌, ◌^◌, ◌≤◌, ◌<◌, ◌≡◌, refl, Option, none, some, List, [], ◌∷◌, length, arith,
}
use pimidi.Common.Memory.{done, Returns, Returns-weaken}
use pimidi.DataContext.{DataContext, acquire, drop_reference, destroy, read_data}
use pimidi.DataContext.Shared.{
  Reader, sending, closing, left, Sender, free, holding, ending, sharing, Reach,
}
use pimidi.DataContext.Laws.{
  Phase, alive, last_one, gone, acquire-Phase, drop_reference-Phase, destroy-Phase, read_data_lem,
}
use pimidi.DataContext.Inv.{
  reader_holds, reader_closes, sender_holds, sender_closes, users, closers, AllSeen, moved,
  Reach-Inv,
}

module _ {A : Type 0} (a : A) where
  pub ReaderGoes : Option (DataContext A) → Reader → Type 0
  ReaderGoes cell sending =
      Returns (acquire cell) (λ c. Unit) × Returns (drop_reference cell) (λ r. Unit)
  ReaderGoes cell closing = Returns (destroy cell) (λ r. Unit)
  ReaderGoes cell left = Unit

  pub SenderGoes : Option (DataContext A) → Sender → Type 0
  SenderGoes cell free = Unit
  SenderGoes cell holding =
      (read_data cell ≡ done (some a)) × Returns (drop_reference cell) (λ r. Unit)
  SenderGoes cell ending = Returns (destroy cell) (λ r. Unit)

  acquires :
      (cell : Option (DataContext A)) (u v k : ℕ) (out : List (Option A))
      → Phase a cell u k out
      → u ≡ suc v
      → u + 1 < 2 ^ 32
      → Returns (acquire cell) (λ c. Unit)
  acquires cell u v k out p e h =
      Returns-weaken (acquire cell) _ _ (acquire-Phase a cell u k out p (omega arith) h) (λ c w. tt)

  drops :
      (cell : Option (DataContext A)) (u v k : ℕ) (out : List (Option A))
      → Phase a cell u k out
      → u ≡ suc v
      → u < 2 ^ 32
      → Returns (drop_reference cell) (λ r. Unit)
  drops cell u v k out p e h =
      Returns-weaken (drop_reference cell) _ _
        (drop_reference-Phase a cell v k out (moved a e refl p) (omega arith)) (λ r w. tt)

  destroys :
      (cell : Option (DataContext A)) (u k l : ℕ) (out : List (Option A))
      → Phase a cell u k out
      → k ≡ suc l
      → Returns (destroy cell) (λ r. Unit)
  destroys cell u k l out p e =
      Returns-weaken (destroy cell) _ _ (destroy-Phase a cell u l out (moved a refl e p))
        (λ r w. tt)

  reader_goes :
      (cell : Option (DataContext A)) (q : ℕ) (r : Reader) (s : Sender) (out : List (Option A))
      → Phase a cell (users r q s) (closers r s) out
      → users r q s + 1 < 2 ^ 32
      → ReaderGoes cell r
  unfolding ReaderGoes
  reader_goes cell q sending s out p h = (
    acquires cell _ (q + sender_holds s) _ out p (omega arith) h,
    drops cell _ (q + sender_holds s) _ out p (omega arith) (omega arith),
  )
  reader_goes cell q closing s out p h = destroys cell _ _ (sender_closes s) out p (omega arith)
  reader_goes cell q left s out p h = tt

  sender_goes :
      (cell : Option (DataContext A)) (q : ℕ) (r : Reader) (s : Sender) (out : List (Option A))
      → Phase a cell (users r q s) (closers r s) out
      → users r q s + 1 < 2 ^ 32
      → SenderGoes cell s
  unfolding SenderGoes
  sender_goes cell q r free out p h = tt
  sender_goes cell q r holding out p h = (
    read_data_lem a cell (reader_holds r + q) _ out (moved a (omega arith) refl p),
    drops cell _ (reader_holds r + q) _ out p (omega arith) (omega arith),
  )
  sender_goes cell q r ending out p h = destroys cell _ _ (reader_closes r) out p (omega arith)

  at_most_once :
      (cell : Option (DataContext A)) (u k : ℕ) (out : List (Option A))
      → Phase a cell u k out
      → length out ≤ 1
  at_most_once cell u k out (alive e p c o) = rw o (omega arith)
  at_most_once cell u k out (last_one e p c o) = rw o (omega arith)
  at_most_once cell u k out (gone e p c o) = rw o (omega arith)

  -- A context is used only while it is there: in every state that the two threads reach, what each of
  -- them does next with the context is done on memory that is not freed; the thread of the queue has read
  -- the data of the context for every command that it took, and `destroy_func` was called once at most.
  -- Fewer than 2^32 - 2 commands were added for the datagram.
  pub Reach-shared :
      {cell : Option (DataContext A)} {q : ℕ} {r : Reader} {s : Sender} {n : ℕ}
      {seen out : List (Option A)}
      → Reach a (sharing cell q r s n seen out)
      → n + 2 < 2 ^ 32
      → ReaderGoes cell r × SenderGoes cell s × AllSeen a seen × (length out ≤ 1)
  Reach-shared {cell} {q} {r} {s} {n} {seen} {out} reach h =
      let (p, l, w) = Reach-Inv a reach (omega arith) in
      (
        reader_goes cell q r s out p (omega arith),
        sender_goes cell q r s out p (omega arith),
        w,
        at_most_once cell _ _ out p,
      )

  freed :
      (cell : Option (DataContext A)) (u k : ℕ) (out : List (Option A))
      → Phase a cell u k out
      → u ≡ 0
      → k ≡ 0
      → (cell ≡ none) × (out ≡ some a ∷ [])
  freed cell u k out (alive e p c o) f g = absurd (omega arith)
  freed cell u k out (last_one e p c o) f g = absurd (omega arith)
  freed cell u k out (gone e p c o) f g = (e, o)

  -- A context does not stay behind: in every state that the two threads reach, where the reader has left
  -- and no command of the context is in the queue or in hand, it is freed, and `destroy_func` was called
  -- once, with its data. Fewer than 2^32 - 1 commands were added for the datagram.
  pub Reach-freed :
      {cell : Option (DataContext A)} {n : ℕ} {seen out : List (Option A)}
      → Reach a (sharing cell 0 left free n seen out)
      → n + 1 < 2 ^ 32
      → (cell ≡ none) × (out ≡ some a ∷ [])
  Reach-freed {cell} {n} {seen} {out} reach h =
      let (p, l, w) = Reach-Inv a reach h in freed cell _ _ out p (omega arith) (omega arith)
