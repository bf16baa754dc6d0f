-- ===== src/Queue/Refine.antt =====
-- The linked list holds a sequence, and its operations are those of a first-in first-out queue.
use pimidi.Common.{
  ℕ, suc, ◌+◌, ◌≤◌, ◌<◌, ◌≡◌, refl, ap, ◌∙◌, Bool, true, false, Option, none, some, List, [], ◌∷◌,
  ◌++◌, if◌then◌else◌, length, get_or-append, length-append, length-set, set, get_or-set, arith,
  ◌==◌,
}
use pimidi.Common.Memory.{done, ◌>>=◌, Returns}
use pimidi.Queue.{Node, Queue, empty, used, node_at, read_node, link, next_top, add, get}
use pimidi.Queue.Chain.{
  Chain, Chain-le, Chain-frame, Chain-last, Chain-inside, Chain-snoc, node_at-inside,
}

module _ {A : Type 0} where
  -- The queue holds these items, the oldest first, at addresses from `lo` on.
  unfoldable pub Holds : ℕ → Queue A → List A → Type 0
  Holds lo q [] = (q.top ≡ none) × (q.bottom ≡ none) × (q.state ≡ empty)
  Holds lo q (x ∷ xs) =
      (p : ℕ) × (b : ℕ) × (q.top ≡ some p)
      × (q.bottom ≡ some b)
      × (q.state ≡ used)
      × Chain q.nodes lo p b x xs

  abbrev pub is_nil : List A → Bool
  is_nil [] = true
  is_nil (x ∷ xs) = false

  get_or_new :
      (nodes : List (Option (Node A))) (o : Option (Node A))
      → node_at (nodes ++ (o ∷ [])) (length nodes) ≡ o
  get_or_new [] o = refl
  get_or_new (n ∷ nodes) o = get_or_new nodes o

  link_lem :
      (nodes : List (Option (Node A))) (b e : ℕ) (n : Node A)
      → node_at nodes b ≡ some n
      → link (some b) e nodes ≡ done (set nodes b (some (record n { next = some e })))
  link_lem nodes b e n h =
      ap (λ o. read_node o >>= λ m. done (set nodes b (some (record m { next = some e })))) h

  next_top_lem :
      (nodes : List (Option (Node A))) (t : ℕ) (n : Node A)
      → node_at nodes t ≡ some n
      → next_top nodes (some t) ≡ done n.next
  next_top_lem nodes t n h = ap (λ o. read_node o >>= λ m. done m.next) h

  -- What an entry leaves: the items with the new one behind them, the nodes below `lo`, and whether the
  -- thread is signalled.
  pub record Added (lo : ℕ) (q : Queue A) (xs : List A) (a : A) (out : Queue A × Bool)
      : Type 0 where
    pub holds : Holds lo out.0 (xs ++ (a ∷ []))
    pub signal : out.1 ≡ is_nil xs
    pub size : length out.0.nodes ≡ length q.nodes + 1
    pub shut : out.0.shutdown ≡ q.shutdown
    pub kept : (i : ℕ) → i < lo → node_at out.0.nodes i ≡ node_at q.nodes i

  below_new :
      (nodes : List (Option (Node A))) (o : Option (Node A)) (i : ℕ)
      → i < length nodes
      → node_at (nodes ++ (o ∷ [])) i ≡ node_at nodes i
  below_new nodes o i h = get_or-append nodes (o ∷ []) i none h

  pub add-Added :
      (lo : ℕ) (q : Queue A) (xs : List A) (a : A)
      → Holds lo q xs
      → lo ≤ length q.nodes
      → Returns (add true q a) (Added lo q xs a)
  unfolding Holds add Chain
  add-Added lo q [] a h l =
      rw (h.0, h.1, h.2)
        (record {
          holds =
              (length q.nodes, length q.nodes, refl, refl, refl, (l, refl, get_or_new q.nodes _));
          signal = refl;
          size = length-append q.nodes _;
          shut = refl;
          kept = λ i k. below_new q.nodes _ i (omega (arith, k));
        })
  add-Added lo q (x ∷ xs) a (p, b, t, d, u, c) l =
      let last = Chain-last q.nodes lo p b x xs c in
      let inside = Chain-inside q.nodes lo p b x xs c in
      let e = length q.nodes in
      let grown = q.nodes ++ (some (record { item = a; next = none }) ∷ []) in
      let longer : length grown ≡ e + 1 = length-append q.nodes _ in
      let old : node_at grown b ≡ some (record { item = last.0; next = none }) =
        below_new q.nodes _ b inside ∙ last.1 in
      let v : Option (Node A) = some (record { item = last.0; next = some e }) in
      let linked : List (Option (Node A)) = set grown b v in
      let read : (j : ℕ) → node_at linked j ≡ (if b == j then v else node_at grown j) =
        λ j. get_or-set grown b j v none (omega (arith, longer)) in
      let before : (j : ℕ) → j < b → node_at linked j ≡ node_at q.nodes j = λ j k.
        ground (arith, read j, below_new q.nodes (some (record { item = a; next = none })) j) in
      let at_b : node_at linked b ≡ v = ground (arith, read b) in
      let at_e : node_at linked e ≡ some (record { item = a; next = none }) =
        ground (arith, read e, get_or_new q.nodes (some (record { item = a; next = none }))) in
      let bounds = Chain-le q.nodes lo p b x xs c in
      rw (d, link_lem grown b e _ old, t, u)
        (record {
          holds = (
            p,
            e,
            refl,
            refl,
            refl,
            Chain-snoc q.nodes linked lo p b e x a last.0 xs inside before last.1 at_b at_e c,
          );
          signal = refl;
          size = length-set grown b v ∙ longer;
          shut = refl;
          kept = λ i k. before i (omega (arith, k, bounds.0, bounds.1));
        })

  -- What taking an item leaves: its node at an address below those of the rest.
  pub record Got (lo : ℕ) (q : Queue A) (x : A) (xs : List A) (out : Option ℕ × Queue A)
      : Type 0 where
    pub place : ℕ
    pub taken : out.0 ≡ some place
    pub next : Option ℕ
    pub node : node_at out.1.nodes place ≡ some (record { item = x; next = next })
    pub above : lo ≤ place
    pub holds : Holds (suc place) out.1 xs
    pub inside : place < length out.1.nodes
    pub same : out.1.nodes ≡ q.nodes
    pub shut : out.1.shutdown ≡ q.shutdown

  pub get-Got :
      (lo : ℕ) (q : Queue A) (x : A) (xs : List A)
      → Holds lo q (x ∷ xs)
      → Returns (get q) (Got lo q x xs)
  unfolding Holds get Chain
  get-Got lo q x [] (p, b, t, d, u, c) =
      rw (t, next_top_lem q.nodes p _ c.2)
        (record {
          place = p;
          taken = refl;
          next = none;
          node = c.2;
          above = c.0;
          holds = (refl, refl, refl);
          inside = node_at-inside q.nodes p _ c.2;
          same = refl;
          shut = refl;
        })
  get-Got lo q x (y ∷ xs) (p, b, t, d, u, c) =
      rw (t, next_top_lem q.nodes p _ c.2)
        (record {
          place = p;
          taken = refl;
          next = some c.1;
          node = c.2;
          above = c.0;
          holds = (c.1, b, refl, d, refl, c.3);
          inside = node_at-inside q.nodes p _ c.2;
          same = refl;
          shut = refl;
        })

  -- A node below the list is freed.
  pub free-Holds :
      (lo : ℕ) (q : Queue A) (xs : List A) (i : ℕ)
      → Holds lo q xs
      → i < lo
      → i < length q.nodes
      → Holds lo (record q { nodes = set q.nodes i none }) xs
  unfolding Holds
  free-Holds lo q [] i h l k = h
  free-Holds lo q (x ∷ xs) i (p, b, t, d, u, c) l k = (
    p,
    b,
    t,
    d,
    u,
    Chain-frame q.nodes (set q.nodes i none) lo p b x xs
        (λ j above below. ground (arith, get_or-set q.nodes i j none none k)) c,
  )
