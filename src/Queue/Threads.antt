-- ===== src/Queue/Threads.antt =====
-- Threads that add items, the thread that handles them and one that stops the queue, in any order. A
-- step that is made under the mutex is one step, and so is what the thread does between two of them.
pub mod Inv
pub mod Work
pub mod Order
pub mod Drain
use pimidi.Common.{
  ℕ, zero, suc, ◌+◌, ◌≤◌, ◌<◌, ◌≡◌, refl, sym, ap, subst, ◌∙◌, Bool, true, false, not, ◌&&◌, Option,
  none, some, List, [], ◌∷◌, ◌++◌, append_assoc, append-nil, if◌then◌else◌, length, length-set, set,
  arith, Bool-cases, inl, inr,
}
use pimidi.Common.Memory.{Exec, done, fault, ◌>>=◌, Returns, Returns->>=, Returns-weaken}
use pimidi.Queue.{
  Node, Queue, empty, used, is_empty, node_at, read_node, create, add, get, Handler, looking,
  waiting, stopped, acting, handler_step, take_item, stop, signalled,
}
use pimidi.Queue.Refine.{Holds, is_nil, Added, add-Added, Got, get-Got, free-Holds}

-- The queue with its thread, the items that were added and those that were handled, in their order.
pub record System (A : Type 0) : Type 0 where
  pub queue : Queue A
  pub handler : Handler A
  pub added : List A
  pub handled : List A

pub data Step {A : Type 0} (s : System A) : System A → Type 0 where
  adds :
      (a : A) {q : Queue A} {sig : Bool}
      → add true s.queue a ≡ done (q, sig)
      → Step s (record {
        queue = q;
        handler = signalled sig s.handler;
        added = s.added ++ (a ∷ []);
        handled = s.handled;
      })
  stops : Step s (record s { queue = stop s.queue; handler = signalled true s.handler })
  wakes : s.handler ≡ waiting → Step s (record s { handler = looking })
  works :
      {q : Queue A} {h : Handler A} {out : List A}
      → handler_step s.queue s.handler ≡ done (q, h, out)
      → Step s (record s { queue = q; handler = h; handled = s.handled ++ out })

abbrev pub init : {A : Type 0} → System A
init = record { queue = create; handler = looking; added = []; handled = [] }

pub data Reach {A : Type 0} : System A → Type 0 where
  start : Reach init
  later : {s t : System A} → Reach s → Step s t → Reach t

-- `n` steps of the thread, where nothing else happens; what was handled is put behind `handled`.
unfoldable pub run :
    {A : Type 0} → ℕ → Queue A → Handler A → List A → Exec (Queue A × Handler A × List A)
run zero q h handled = done (q, h, handled)
run (suc n) q h handled = handler_step q h >>= λ (q', h', out). run n q' h' (handled ++ out)
