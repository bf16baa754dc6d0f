-- ===== src/Queue/Tests.antt =====
-- A queue of numbers.
use pimidi.Common.{
  ℕ, ◌+◌, ◌*◌, ◌≡◌, refl, true, false, some, none, List, [], ◌∷◌, ◌++◌, arith, length,
}
use pimidi.Common.Memory.{Returns}
use pimidi.Queue.{Queue, empty, used, looking, waiting, handler_step, add, get}
use pimidi.Queue.Chain.{Chain}
use pimidi.Queue.Refine.{Holds, Added}
use pimidi.Queue.Threads.{System, Reach, start, later, adds, works, run}
use pimidi.Queue.Threads.Inv.{in_hand}
use pimidi.Queue.Threads.Work.{Kept}
use pimidi.Queue.Threads.Order.{Reach-order, Reach-waiting}
use pimidi.Queue.Threads.Drain.{run-waits}

-- Two items, the first place freed before.
abbrev two_items : Queue ℕ
two_items = record {
  nodes =
      none
      ∷ some (record { item = 5; next = some 2 })
      ∷ some (record { item = 6; next = none })
      ∷ [];
  top = some 1;
  bottom = some 2;
  state = used;
  shutdown = false;
}

two_items-Holds : Holds 1 two_items (5 ∷ 6 ∷ [])
unfolding Holds Chain
two_items-Holds = (1, 2, refl, refl, refl, (omega arith, 2, refl, (omega arith, refl, refl)))

run-waits_example :
    Returns
      (run (1 + 2 * length {A = ℕ} (5 ∷ 6 ∷ [])) two_items looking [])
      (λ out. (out.1 ≡ waiting) × (out.2 ≡ [] ++ (5 ∷ 6 ∷ [])))
run-waits_example = run-waits 1 two_items (5 ∷ 6 ∷ []) [] two_items-Holds refl

-- One item is added and handled; then the thread waits.
abbrev one_handled : System ℕ
one_handled = record {
  queue = record { nodes = none ∷ []; top = none; bottom = none; state = empty; shutdown = false };
  handler = waiting;
  added = 7 ∷ [];
  handled = 7 ∷ [];
}

one_handled-Reach : Reach one_handled
unfolding add get handler_step
one_handled-Reach =
    later (later (later (later start (adds 7 refl)) (works refl)) (works refl)) (works refl)

Reach-order_example :
    (low : ℕ) × (items : List ℕ) × Holds low one_handled.queue items
    × ((7 ∷ []) ++ (in_hand {A = ℕ} waiting ++ items) ≡ 7 ∷ [])
    × Returns (add true one_handled.queue 9) (Added low one_handled.queue items 9)
    × Returns (handler_step one_handled.queue waiting) (Kept (7 ∷ []) (7 ∷ []))
Reach-order_example = Reach-order 9 one_handled-Reach

Reach-waiting_example :
    (one_handled.handled ≡ one_handled.added) × (one_handled.queue.shutdown ≡ false)
Reach-waiting_example = Reach-waiting one_handled-Reach refl
