-- ===== src/Queue/Threads/Inv.antt =====
-- The invariant of the queue with its threads, kept by an entry and by a stop.
use pimidi.Common.{
  ℕ, ◌≤◌, ◌<◌, ◌≡◌, refl, sym, ap, subst, ◌∙◌, Bool, true, false, Option, some, List, [], ◌∷◌, ◌++◌,
  append_assoc, length, arith,
}
use pimidi.Common.Memory.{done, Returns}
use pimidi.Queue.{
  Node, Queue, empty, is_empty, node_at, add, Handler, looking, waiting, stopped, acting, stop,
  signalled,
}
use pimidi.Queue.Refine.{Holds, Added, add-Added}

module _ {A : Type 0} where
  -- The item that the thread has in hand, whose node is not freed yet and below those of the queue.
  abbrev pub in_hand : Handler A → List A
  in_hand (acting p a) = a ∷ []
  in_hand looking = []
  in_hand waiting = []
  in_hand stopped = []

  abbrev IsHeld : ℕ → List (Option (Node A)) → Handler A → Type 0
  IsHeld lo nodes (acting p a) =
      (p < lo) × (p < length nodes) × (n : Node A) × (node_at nodes p ≡ some n)
  IsHeld lo nodes looking = Unit
  IsHeld lo nodes waiting = Unit
  IsHeld lo nodes stopped = Unit

  -- The thread waits only where there is nothing to do.
  abbrev IsQuiet : Queue A → Handler A → Type 0
  IsQuiet q waiting = (q.state ≡ empty) × (q.shutdown ≡ false)
  IsQuiet q looking = Unit
  IsQuiet q stopped = Unit
  IsQuiet q (acting p a) = Unit

  pub record Inv (q : Queue A) (h : Handler A) (added handled : List A) : Type 0 where
    pub low : ℕ
    pub items : List A
    pub holds : Holds low q items
    pub inside : low ≤ length q.nodes
    pub held : IsHeld low q.nodes h
    pub order : handled ++ (in_hand h ++ items) ≡ added
    pub quiet : IsQuiet q h

  IsHeld-Added :
      (lo : ℕ) (q : Queue A) (items : List A) (a : A) (out : Queue A × Bool) (h : Handler A)
      → Added lo q items a out
      → IsHeld lo q.nodes h
      → IsHeld lo out.0.nodes (signalled out.1 h)
  IsHeld-Added lo q items a out (acting p b) w (l, k, n, e) =
      (l, omega (arith, k, w.size), n, w.kept p l ∙ e)
  IsHeld-Added lo q items a out looking w k = tt
  IsHeld-Added lo q items a out stopped w k = tt
  IsHeld-Added lo q items a (q', true) waiting w k = tt
  IsHeld-Added lo q items a (q', false) waiting w k = tt

  in_hand-signalled : (sig : Bool) (h : Handler A) → in_hand (signalled sig h) ≡ in_hand h
  in_hand-signalled sig (acting p a) = refl
  in_hand-signalled sig looking = refl
  in_hand-signalled sig stopped = refl
  in_hand-signalled true waiting = refl
  in_hand-signalled false waiting = refl

  IsQuiet-Added :
      (lo : ℕ) (q : Queue A) (items : List A) (a : A) (out : Queue A × Bool) (h : Handler A)
      → Holds lo q items
      → Added lo q items a out
      → IsQuiet q h
      → IsQuiet out.0 (signalled out.1 h)
  unfolding Holds
  IsQuiet-Added lo q items a out (acting p b) g w k = tt
  IsQuiet-Added lo q items a out looking g w k = tt
  IsQuiet-Added lo q items a out stopped g w k = tt
  IsQuiet-Added lo q items a (q', true) waiting g w k = tt
  IsQuiet-Added lo q [] a (q', false) waiting g w k = absurd (ground (arith, w.signal))
  IsQuiet-Added lo q (x ∷ items) a (q', false) waiting g w k =
      absurd (ground (arith, ap (λ u. is_empty u) (sym g.4 ∙ k.0)))

  reassociated : (xs ys zs ws : List A) → xs ++ (ys ++ (zs ++ ws)) ≡ (xs ++ (ys ++ zs)) ++ ws
  reassociated xs ys zs ws = simp append_assoc refl

  pub adds-Inv :
      (q : Queue A) (h : Handler A) (added handled : List A) (a : A) (out : Queue A × Bool)
      → Inv q h added handled
      → add true q a ≡ done out
      → Inv out.0 (signalled out.1 h) (added ++ (a ∷ [])) handled
  adds-Inv q h added handled a out v e =
      let w : Added v.low q v.items a out =
        subst (λ m. Returns m (Added v.low q v.items a)) e
          (add-Added v.low q v.items a v.holds v.inside) in
      record {
        low = v.low;
        items = v.items ++ (a ∷ []);
        holds = w.holds;
        inside = omega (arith, v.inside, w.size);
        held = IsHeld-Added v.low q v.items a out h w v.held;
        order =
            ap (λ t. handled ++ (t ++ (v.items ++ (a ∷ [])))) (in_hand-signalled out.1 h)
            ∙ reassociated handled (in_hand h) v.items (a ∷ [])
            ∙ ap (λ t. t ++ (a ∷ [])) v.order;
        quiet = IsQuiet-Added v.low q v.items a out h v.holds w v.quiet;
      }

  stop-Holds : (lo : ℕ) (q : Queue A) (items : List A) → Holds lo q items → Holds lo (stop q) items
  unfolding Holds
  stop-Holds lo q [] g = g
  stop-Holds lo q (x ∷ items) g = g

  IsHeld-signalled :
      (lo : ℕ) (nodes : List (Option (Node A))) (sig : Bool) (h : Handler A)
      → IsHeld lo nodes h
      → IsHeld lo nodes (signalled sig h)
  IsHeld-signalled lo nodes sig (acting p a) k = k
  IsHeld-signalled lo nodes sig looking k = tt
  IsHeld-signalled lo nodes sig stopped k = tt
  IsHeld-signalled lo nodes true waiting k = tt
  IsHeld-signalled lo nodes false waiting k = tt

  IsQuiet-stop : (q : Queue A) (h : Handler A) → IsQuiet (stop q) (signalled true h)
  IsQuiet-stop q (acting p a) = tt
  IsQuiet-stop q looking = tt
  IsQuiet-stop q stopped = tt
  IsQuiet-stop q waiting = tt

  pub stops-Inv :
      (q : Queue A) (h : Handler A) (added handled : List A)
      → Inv q h added handled
      → Inv (stop q) (signalled true h) added handled
  stops-Inv q h added handled v = record {
    low = v.low;
    items = v.items;
    holds = stop-Holds v.low q v.items v.holds;
    inside = v.inside;
    held = IsHeld-signalled v.low q.nodes true h v.held;
    order = ap (λ t. handled ++ (t ++ v.items)) (in_hand-signalled true h) ∙ v.order;
    quiet = IsQuiet-stop q h;
  }
