-- ===== src/Queue.antt =====
-- raveloxmidi/src/data_queue.c: a linked list of items behind a mutex, and the thread that takes them
-- out. An address is a place in the store of the nodes; a place that was freed is none, and is not
-- given out again. `A` is what an item holds, its data with its context; the data is not NULL.
pub mod Chain
pub mod Refine
pub mod Threads
mod Tests
use pimidi.Common.{
  ℕ, zero, suc, Bool, true, false, not, ◌&&◌, Option, none, some, List, [], ◌∷◌, ◌++◌,
  if◌then◌else◌, length, get_or, set,
}
use pimidi.Common.Memory.{Exec, done, fault, ◌>>=◌}

-- `data_queue_item_t`.
pub record Node (A : Type 0) : Type 0 where
  pub item : A
  pub next : Option ℕ

pub data QueueState : Type 0 where
  empty used : QueueState

-- `data_queue_t`, with the store that its pointers go to.
pub record Queue (A : Type 0) : Type 0 where
  pub nodes : List (Option (Node A))
  pub top : Option ℕ
  pub bottom : Option ℕ
  pub state : QueueState
  pub shutdown : Bool

abbrev pub is_empty : QueueState → Bool
is_empty empty = true
is_empty used = false

abbrev top_with : Option ℕ → ℕ → Option ℕ
top_with none new_item = some new_item
top_with (some t) new_item = some t

abbrev pub state_of : Option ℕ → QueueState
state_of none = empty
state_of (some t) = used

abbrev bottom_of : Option ℕ → Option ℕ → Option ℕ
bottom_of none bottom = none
bottom_of (some t) bottom = bottom

-- Where the thread of the queue is: about to lock the mutex and look at the queue, in
-- `pthread_cond_wait`, behind the unlocking with an item, or at its end.
pub data Handler (A : Type 0) : Type 0 where
  looking waiting stopped : Handler A
  acting : ℕ → A → Handler A

module _ {A : Type 0} where
  abbrev pub node_at : List (Option (Node A)) → ℕ → Option (Node A)
  node_at nodes p = get_or nodes p none

  abbrev pub read_node : Option (Node A) → Exec (Node A)
  read_node none = fault
  read_node (some n) = done n

  -- `*p`.
  abbrev pub deref : List (Option (Node A)) → ℕ → Exec (Node A)
  deref nodes p = read_node (node_at nodes p)

  -- `data_queue_create`, where there is memory.
  abbrev pub create : Queue A
  create = record { nodes = []; top = none; bottom = none; state = empty; shutdown = false }

  -- `queue->bottom->next = new_item`, if there is a bottom.
  abbrev pub link : Option ℕ → ℕ → List (Option (Node A)) → Exec (List (Option (Node A)))
  link none new_item nodes = done nodes
  link (some b) new_item nodes =
      deref nodes b >>= λ n. done (set nodes b (some (record n { next = some new_item })))

  -- `data_queue_add`: the queue, and whether the thread is signalled.
  unfoldable pub add : Bool → Queue A → A → Exec (Queue A × Bool)
  add mem queue a =
      let new_item = length queue.nodes in
      let nodes = queue.nodes ++ (some (record { item = a; next = none }) ∷ []) in
      if mem
      then (link queue.bottom new_item nodes >>= λ linked. done (
        record queue {
          nodes = linked;
          top = top_with queue.top new_item;
          bottom = some new_item;
          state = used;
        },
        is_empty queue.state,
      ))
      else done (queue, false)

  -- `queue->top->next`, if there is a top.
  abbrev pub next_top : List (Option (Node A)) → Option ℕ → Exec (Option ℕ)
  next_top nodes none = done none
  next_top nodes (some t) = deref nodes t >>= λ n. done n.next

  -- `data_queue_get`: the item and the queue.
  unfoldable pub get : Queue A → Exec (Option ℕ × Queue A)
  get queue = next_top queue.nodes queue.top >>= λ top. done (
    queue.top,
    record queue { top = top; bottom = bottom_of top queue.bottom; state = state_of top },
  )

  abbrev take_item : Option ℕ × Queue A → Exec (Queue A × Handler A × List A)
  take_item (none, queue) = done (queue, looking, [])
  take_item (some p, queue) = deref queue.nodes p >>= λ n. done (queue, acting p n.item, [])

  -- A step of `data_queue_handler`: the queue, where the thread is, and what it has called the action
  -- on. The loop around `pthread_cond_wait` is left when there is something to do.
  unfoldable pub handler_step : Queue A → Handler A → Exec (Queue A × Handler A × List A)
  unfolding get
  handler_step queue looking =
      if is_empty queue.state && not queue.shutdown
      then done (queue, waiting, [])
      else if queue.shutdown
      then done (queue, stopped, [])
      else (get queue >>= take_item)
  handler_step queue (acting p a) = deref queue.nodes p >>= λ n.
      done (record queue { nodes = set queue.nodes p none }, looking, a ∷ [])
  handler_step queue waiting = done (queue, waiting, [])
  handler_step queue stopped = done (queue, stopped, [])

  -- `data_queue_stop`, which signals too.
  abbrev pub stop : Queue A → Queue A
  stop queue = record queue { shutdown = true }

  -- What a signal does to the thread.
  abbrev pub signalled : Bool → Handler A → Handler A
  signalled sig waiting = if sig then looking else waiting
  signalled sig looking = looking
  signalled sig stopped = stopped
  signalled sig (acting p a) = acting p a
