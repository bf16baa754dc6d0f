-- ===== src/Queue/Threads/Drain.antt =====
-- The thread gets through what is in the queue.
use pimidi.Common.{
  ℕ, suc, ◌+◌, ◌*◌, ◌≡◌, refl, ap, ◌∙◌, false, Option, none, List, [], ◌∷◌, ◌++◌, append_assoc,
  append-nil, length, set, arith,
}
use pimidi.Common.Memory.{Exec, done, fault, ◌>>=◌, Returns, Returns-weaken}
use pimidi.Queue.{Queue, get, looking, waiting, acting, handler_step, take_item}
use pimidi.Queue.Refine.{Holds, Got, get-Got, free-Holds}
use pimidi.Queue.Threads.{run}
use pimidi.Queue.Threads.Work.{wait_step, take_step, taken_lem, free_step}

module _ {A : Type 0} where
  -- What two steps leave of a queue that holds `x` and `xs`.
  record Round (q : Queue A) (x : A) (xs : List A) : Type 0 where
    low : ℕ
    middle : Queue A
    place : ℕ
    last : Queue A
    takes : handler_step q looking ≡ done (middle, acting place x, [])
    frees : handler_step middle (acting place x) ≡ done (last, looking, x ∷ [])
    holds : Holds low last xs
    shut : last.shutdown ≡ q.shutdown

  Got-Round :
      (lo : ℕ) (q : Queue A) (x : A) (xs : List A) (m : Exec (Option ℕ × Queue A))
      → handler_step q looking ≡ (m >>= λ r. take_item r)
      → Returns m (Got lo q x xs)
      → Round q x xs
  Got-Round lo q x xs fault e g = absurd g
  Got-Round lo q x xs (done (o, q')) e g = record {
    low = suc g.place;
    middle = q';
    place = g.place;
    last = record q' { nodes = set q'.nodes g.place none };
    takes = e ∙ ap (λ o. take_item (o, q')) g.taken ∙ taken_lem q' g.place x g.next g.node;
    frees = free_step q' g.place x _ g.node;
    holds = free-Holds (suc g.place) q' xs g.place g.holds (omega arith) g.inside;
    shut = g.shut;
  }

  -- `data_queue_handler` on a queue that is not told to stop and to which nothing is added gets through
  -- all its items in their order, in two steps for each, and then waits.
  pub run-waits :
      (lo : ℕ) (q : Queue A) (items handled : List A)
      → Holds lo q items
      → q.shutdown ≡ false
      → Returns
          (run (1 + 2 * length items) q looking handled)
          (λ out. (out.1 ≡ waiting) × (out.2 ≡ handled ++ items))
  unfolding run Holds
  run-waits lo q [] handled g e = rw (wait_step q g.2 e) (refl, refl)
  run-waits lo q (x ∷ xs) handled g e =
      let r = Got-Round lo q x xs (get q) (take_step q g.4 e) (get-Got lo q x xs g) in
      let count : 1 + 2 * suc (length xs) ≡ suc (suc (1 + 2 * length xs)) = omega arith in
      let rest = run-waits r.low r.last xs ((handled ++ []) ++ (x ∷ [])) r.holds (r.shut ∙ e) in
      let placed : ((handled ++ []) ++ (x ∷ [])) ++ xs ≡ handled ++ (x ∷ xs) =
        ap (λ t. (t ++ (x ∷ [])) ++ xs) (append-nil handled) ∙ append_assoc handled (x ∷ []) xs in
      rw (count, r.takes, r.frees)
        (Returns-weaken (run (1 + 2 * length xs) r.last looking ((handled ++ []) ++ (x ∷ []))) _ _
          rest (λ out w. (w.0, w.1 ∙ placed)))
