-- ===== src/Queue/Threads/Work.antt =====
-- The steps of the thread that handles the items.
use pimidi.Common.{
  ℕ, suc, ◌≤◌, ◌≡◌, refl, sym, ap, subst, ◌∙◌, true, false, Option, none, some, List, [], ◌∷◌, ◌++◌,
  append_assoc, append-nil, length, length-set, set, arith, Bool-cases, inl, inr,
}
use pimidi.Common.Memory.{done, ◌>>=◌, Returns, Returns->>=}
use pimidi.Queue.{
  Node, Queue, empty, used, node_at, read_node, get, Handler, looking, waiting, stopped, acting,
  handler_step, take_item,
}
use pimidi.Queue.Refine.{Holds, Got, get-Got, free-Holds}
use pimidi.Queue.Threads.Inv.{Inv}

module _ {A : Type 0} where
  -- The claim about what a step gives.
  abbrev pub Kept : List A → List A → Queue A × Handler A × List A → Type 0
  Kept added handled out = Inv out.0 out.1 added (handled ++ out.2)

  nothing-Kept :
      (q : Queue A) (h : Handler A) (added handled : List A)
      → Inv q h added handled
      → Kept added handled (q, h, [])
  nothing-Kept q h added handled v = subst (λ d. Inv q h added d) (sym (append-nil handled)) v

  pub wait_step :
      (q : Queue A)
      → q.state ≡ empty
      → q.shutdown ≡ false
      → handler_step q looking ≡ done (q, waiting, [])
  unfolding handler_step
  wait_step q e f = rw (e, f) refl

  stop_step : (q : Queue A) → q.shutdown ≡ true → handler_step q looking ≡ done (q, stopped, [])
  unfolding handler_step
  stop_step q e = ground (arith, e)

  pub take_step :
      (q : Queue A)
      → q.state ≡ used
      → q.shutdown ≡ false
      → handler_step q looking ≡ (get q >>= λ r. take_item r)
  unfolding handler_step
  take_step q e f = rw (e, f) refl

  pub free_step :
      (q : Queue A) (p : ℕ) (a : A) (n : Node A)
      → node_at q.nodes p ≡ some n
      → handler_step q (acting p a)
        ≡ done (record q { nodes = set q.nodes p none }, looking, a ∷ [])
  unfolding handler_step
  free_step q p a n e =
      ap (λ o. read_node o >>= λ m. done (record q { nodes = set q.nodes p none }, looking, a ∷ []))
        e

  pub taken_lem :
      (q : Queue A) (p : ℕ) (x : A) (next : Option ℕ)
      → node_at q.nodes p ≡ some (record { item = x; next = next })
      → take_item (some p, q) ≡ done (q, acting p x, [])
  taken_lem q p x next e = ap (λ o. read_node o >>= λ m. done (q, acting p m.item, [])) e

  Got-Kept :
      (q : Queue A) (lo : ℕ) (x : A) (xs added handled : List A) (out : Option ℕ × Queue A)
      → handled ++ (x ∷ xs) ≡ added
      → Got lo q x xs out
      → Returns (take_item out) (Kept added handled)
  Got-Kept q lo x xs added handled (o, q') order g =
      subst (λ o. Returns (take_item (o, q')) (Kept added handled)) (sym g.taken)
        (subst (λ m. Returns m (Kept added handled)) (sym (taken_lem q' g.place x g.next g.node))
          (nothing-Kept q' (acting g.place x) added handled (record {
            low = suc g.place;
            items = xs;
            holds = g.holds;
            inside = omega (arith, g.inside);
            held = (omega arith, g.inside, _, g.node);
            order = order;
            quiet = tt;
          })))

  looking-Kept :
      (q : Queue A) (added handled : List A) (lo : ℕ) (items : List A)
      → Holds lo q items
      → lo ≤ length q.nodes
      → handled ++ items ≡ added
      → q.shutdown ≡ false
      → Returns (handler_step q looking) (Kept added handled)
  unfolding Holds
  looking-Kept q added handled lo [] g i o e =
      subst (λ m. Returns m (Kept added handled)) (sym (wait_step q g.2 e))
        (nothing-Kept q waiting added handled (record {
          low = lo;
          items = [];
          holds = g;
          inside = i;
          held = tt;
          order = o;
          quiet = (g.2, e);
        }))
  looking-Kept q added handled lo (x ∷ xs) g i o e =
      subst (λ m. Returns m (Kept added handled)) (sym (take_step q g.4 e))
        (Returns->>= (get q) (λ r. take_item r) (Got lo q x xs) (Kept added handled)
          (get-Got lo q x xs g) (λ out w. Got-Kept q lo x xs added handled out o w))

  -- A step of the thread is defined, and keeps the invariant.
  pub handler_step-Inv :
      (q : Queue A) (h : Handler A) (added handled : List A)
      → Inv q h added handled
      → Returns (handler_step q h) (Kept added handled)
  unfolding handler_step
  handler_step-Inv q stopped added handled v = nothing-Kept q stopped added handled v
  handler_step-Inv q waiting added handled v = nothing-Kept q waiting added handled v
  handler_step-Inv q (acting p a) added handled v =
      let (l, k, n, e) = v.held in
      subst (λ m. Returns m (Kept added handled)) (sym (free_step q p a n e))
        (record {
          low = v.low;
          items = v.items;
          holds = free-Holds v.low q v.items p v.holds l k;
          inside = omega (arith, v.inside, length-set q.nodes p none);
          held = tt;
          order = append_assoc handled (a ∷ []) v.items ∙ v.order;
          quiet = tt;
        })
  handler_step-Inv q looking added handled v = elim (Bool-cases q.shutdown) [
    | inl e ↦
        subst (λ m. Returns m (Kept added handled)) (sym (stop_step q e))
          (nothing-Kept q stopped added handled (record {
            low = v.low;
            items = v.items;
            holds = v.holds;
            inside = v.inside;
            held = tt;
            order = v.order;
            quiet = tt;
          }))
    | inr e ↦ looking-Kept q added handled v.low v.items v.holds v.inside v.order e
  ]
