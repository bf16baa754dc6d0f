-- ===== src/DataContext/Shared.antt =====
-- A context between the thread of net_socket_read, which adds the commands of a datagram to the queue,
-- and the thread of the queue in midi_sender.c, in any order of their steps.
use pimidi.Common.{ℕ, suc, ◌≡◌, Bool, true, Option, some, List, [], ◌∷◌, ◌++◌, if◌then◌else◌}
use pimidi.Common.Memory.{done}
use pimidi.DataContext.{DataContext, create, acquire, drop_reference, destroy, read_data}

-- Where `net_socket_read` is: in `midi_state_send`, in a release that was the last, or behind it.
pub data Reader : Type 0 where
  sending closing left : Reader

-- Where the thread of the queue is: at another item, with a command of this context, or in a release
-- that was the last.
pub data Sender : Type 0 where
  free holding ending : Sender

abbrev pub reader_after : Bool → Reader
reader_after last = if last then closing else left

abbrev pub sender_after : Bool → Sender
sender_after last = if last then ending else free

-- The cell, the number of the commands in the queue, the two threads, how many commands were added,
-- what the sender read for each that it took, the last one first, and what `destroy_func` was called
-- with.
pub data Sharing (A : Type 0) : Type 0 where
  sharing :
      Option (DataContext A)
      → ℕ
      → Reader
      → Sender
      → ℕ
      → List (Option A)
      → List (Option A)
      → Sharing A

-- Behind `data_context_create` and the first `data_context_acquire` for the data `a`.
abbrev opened : {A : Type 0} → A → Sharing A
opened a =
    sharing (some (record (create true) { data_of = some a; reference = 1 })) 0 sending free 0 [] []

-- The steps of the two threads. `midi_sender_add` is `adds`, a command that the queue hands on `takes`,
-- and the release of each thread has a second step where it was the last.
pub data Step {A : Type 0} : Sharing A → Sharing A → Type 0 where
  adds :
      {cell c : Option (DataContext A)} {q : ℕ} {s : Sender} {n : ℕ} {seen out : List (Option A)}
      → acquire cell ≡ done c
      → Step (sharing cell q sending s n seen out) (sharing c (suc q) sending s (suc n) seen out)
  leaves :
      {cell c : Option (DataContext A)} {q : ℕ} {s : Sender} {n : ℕ} {seen out : List (Option A)}
      {last : Bool}
      → drop_reference cell ≡ done (c, last)
      → Step (sharing cell q sending s n seen out) (sharing c q (reader_after last) s n seen out)
  closes :
      {cell c : Option (DataContext A)} {q : ℕ} {s : Sender} {n : ℕ}
      {seen out more : List (Option A)}
      → destroy cell ≡ done (c, more)
      → Step (sharing cell q closing s n seen out) (sharing c q left s n seen (out ++ more))
  takes :
      {cell : Option (DataContext A)} {q : ℕ} {r : Reader} {n : ℕ} {seen out : List (Option A)}
      → Step (sharing cell (suc q) r free n seen out) (sharing cell q r holding n seen out)
  sends :
      {cell c : Option (DataContext A)} {q : ℕ} {r : Reader} {n : ℕ} {seen out : List (Option A)}
      {last : Bool} {d : Option A}
      → read_data cell ≡ done d
      → drop_reference cell ≡ done (c, last)
      → Step
          (sharing cell q r holding n seen out)
          (sharing c q r (sender_after last) n (d ∷ seen) out)
  ends :
      {cell c : Option (DataContext A)} {q : ℕ} {r : Reader} {n : ℕ}
      {seen out more : List (Option A)}
      → destroy cell ≡ done (c, more)
      → Step (sharing cell q r ending n seen out) (sharing c q r free n seen (out ++ more))

pub data Reach {A : Type 0} (a : A) : Sharing A → Type 0 where
  start : Reach a (opened a)
  later : {s t : Sharing A} → Reach a s → Step s t → Reach a t
