-- ===== src/Queue/Threads/Order.antt =====
-- What the threads keep in every order of their steps.
use pimidi.Common.{
  ℕ, ◌≡◌, refl, sym, ap, subst, ◌∙◌, true, false, List, [], ◌∷◌, ◌++◌, append-nil, arith,
}
use pimidi.Common.Memory.{Returns}
use pimidi.Queue.{Queue, empty, is_empty, add, Handler, looking, waiting, handler_step}
use pimidi.Queue.Refine.{Holds, Added, add-Added}
use pimidi.Queue.Threads.{System, Step, adds, stops, wakes, works, Reach, start, later}
use pimidi.Queue.Threads.Inv.{in_hand, Inv, adds-Inv, stops-Inv}
use pimidi.Queue.Threads.Work.{Kept, handler_step-Inv}

module _ {A : Type 0} where
  wakes-Inv :
      (q : Queue A) (h : Handler A) (added handled : List A)
      → Inv q h added handled
      → h ≡ waiting
      → Inv q looking added handled
  wakes-Inv q h added handled v e =
      let w : Inv q waiting added handled = subst (λ k. Inv q k added handled) e v in
      record {
        low = w.low;
        items = w.items;
        holds = w.holds;
        inside = w.inside;
        held = tt;
        order = w.order;
        quiet = tt;
      }

  Step-Inv :
      {s t : System A}
      → Step s t
      → Inv s.queue s.handler s.added s.handled
      → Inv t.queue t.handler t.added t.handled
  Step-Inv {s} (adds a {q} {sig} e) v = adds-Inv s.queue s.handler s.added s.handled a (q, sig) v e
  Step-Inv {s} stops v = stops-Inv s.queue s.handler s.added s.handled v
  Step-Inv {s} (wakes e) v = wakes-Inv s.queue s.handler s.added s.handled v e
  Step-Inv {s} (works {q} {h} {out} e) v =
      subst (λ m. Returns m (Kept s.added s.handled)) e
        (handler_step-Inv s.queue s.handler s.added s.handled v)

  Reach-Inv : {s : System A} → Reach s → Inv s.queue s.handler s.added s.handled
  unfolding Holds
  Reach-Inv start = record {
    low = 0;
    items = [];
    holds = (refl, refl, refl);
    inside = omega arith;
    held = tt;
    order = refl;
    quiet = tt;
  }
  Reach-Inv (later r st) = Step-Inv st (Reach-Inv r)

  -- In every state that the threads reach, the items that were handled, the one that the thread has in
  -- hand and those in the queue, are the items that were added, in the order in which they were added;
  -- the next entry and the next step of the thread are made without an access outside the nodes, or to
  -- one that was freed.
  pub Reach-order :
      {s : System A} (a : A)
      → Reach s
      → (low : ℕ) × (items : List A) × Holds low s.queue items
        × (s.handled ++ (in_hand s.handler ++ items) ≡ s.added)
        × Returns (add true s.queue a) (Added low s.queue items a)
        × Returns (handler_step s.queue s.handler) (Kept s.added s.handled)
  Reach-order {s} a r =
      let v = Reach-Inv r in
      (
        v.low,
        v.items,
        v.holds,
        v.order,
        add-Added v.low s.queue v.items a v.holds v.inside,
        handler_step-Inv s.queue s.handler s.added s.handled v,
      )

  nothing_left :
      (q : Queue A) (lo : ℕ) (items : List A) → Holds lo q items → q.state ≡ empty → items ≡ []
  unfolding Holds
  nothing_left q lo [] g e = refl
  nothing_left q lo (x ∷ items) g e = absurd (ground (arith, ap (λ u. is_empty u) (sym g.4 ∙ e)))

  waiting_lem :
      (q : Queue A) (added handled : List A)
      → Inv q waiting added handled
      → (handled ≡ added) × (q.shutdown ≡ false)
  waiting_lem q added handled v = (
    sym (append-nil handled)
        ∙ ap (λ t. handled ++ t) (sym (nothing_left q v.low v.items v.holds v.quiet.0))
        ∙ v.order,
    v.quiet.1,
  )

  -- No signal is lost: in every state that the threads reach and in which the thread waits, all the
  -- items that were added have been handled, in their order, and the queue is not told to stop.
  pub Reach-waiting :
      {s : System A}
      → Reach s
      → s.handler ≡ waiting
      → (s.handled ≡ s.added) × (s.queue.shutdown ≡ false)
  Reach-waiting {s} r e =
      waiting_lem s.queue s.added s.handled
        (subst (λ k. Inv s.queue k s.added s.handled) e (Reach-Inv r))
