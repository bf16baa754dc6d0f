-- ===== src/Queue/Chain.antt =====
-- The chain of the nodes from one address to another. The addresses go up along it.
use pimidi.Common.{
  ℕ, zero, suc, ◌≤◌, ◌<◌, ◌≡◌, refl, sym, ap, subst, ◌∙◌, Option, none, some, List, [], ◌∷◌, ◌++◌,
  length, arith,
}
use pimidi.Queue.{Node, node_at}

module _ {A : Type 0} where
  abbrev item_or : A → Option (Node A) → A
  item_or a none = a
  item_or a (some n) = n.item

  -- From `p`, at `lo` or behind, to `b`, with `x` and then `xs` in the nodes.
  unfoldable pub Chain : List (Option (Node A)) → ℕ → ℕ → ℕ → A → List A → Type 0
  Chain nodes lo p b x [] =
      (lo ≤ p) × (p ≡ b) × (node_at nodes p ≡ some (record { item = x; next = none }))
  Chain nodes lo p b x (y ∷ xs) =
      (lo ≤ p)
      × (q : ℕ) × (node_at nodes p ≡ some (record { item = x; next = some q }))
      × Chain nodes (suc p) q b y xs

  pub Chain-le :
      (nodes : List (Option (Node A))) (lo p b : ℕ) (x : A) (xs : List A)
      → Chain nodes lo p b x xs
      → (lo ≤ p) × (p ≤ b)
  unfolding Chain
  Chain-le nodes lo p b x [] c = (c.0, omega (arith, c.1))
  Chain-le nodes lo p b x (y ∷ xs) c =
      let rest = Chain-le nodes (suc p) c.1 b y xs c.3 in (c.0, omega (arith, rest.0, rest.1))

  pub Chain-weaken :
      (nodes : List (Option (Node A))) (lo lo' p b : ℕ) (x : A) (xs : List A)
      → lo' ≤ lo
      → Chain nodes lo p b x xs
      → Chain nodes lo' p b x xs
  unfolding Chain
  Chain-weaken nodes lo lo' p b x [] h c = (omega (arith, c.0), c.1, c.2)
  Chain-weaken nodes lo lo' p b x (y ∷ xs) h c = (omega (arith, c.0), c.1, c.2, c.3)

  -- A change of the store that leaves the addresses of the chain.
  pub Chain-frame :
      (nodes nodes' : List (Option (Node A))) (lo p b : ℕ) (x : A) (xs : List A)
      → ((i : ℕ) → lo ≤ i → i ≤ b → node_at nodes' i ≡ node_at nodes i)
      → Chain nodes lo p b x xs
      → Chain nodes' lo p b x xs
  unfolding Chain
  Chain-frame nodes nodes' lo p b x [] f c = (c.0, c.1, f p c.0 (omega (arith, c.1)) ∙ c.2)
  Chain-frame nodes nodes' lo p b x (y ∷ xs) f c =
      let rest = Chain-le nodes (suc p) c.1 b y xs c.3 in
      (
        c.0,
        c.1,
        f p c.0 (omega (arith, rest.0, rest.1)) ∙ c.2,
        Chain-frame nodes nodes' (suc p) c.1 b y xs (λ i h k. f i (omega (arith, c.0)) k) c.3,
      )

  -- The last node.
  pub Chain-last :
      (nodes : List (Option (Node A))) (lo p b : ℕ) (x : A) (xs : List A)
      → Chain nodes lo p b x xs
      → (z : A) × (node_at nodes b ≡ some (record { item = z; next = none }))
  unfolding Chain
  Chain-last nodes lo p b x [] c =
      (x, subst (λ i. node_at nodes i ≡ some (record { item = x; next = none })) c.1 c.2)
  Chain-last nodes lo p b x (y ∷ xs) c = Chain-last nodes (suc p) c.1 b y xs c.3

  pub node_at-inside :
      (nodes : List (Option (Node A))) (p : ℕ) (n : Node A)
      → node_at nodes p ≡ some n
      → p < length nodes
  node_at-inside [] p n e = absurd (ground arith)
  node_at-inside (m ∷ nodes) zero n e = omega arith
  node_at-inside (m ∷ nodes) (suc p) n e = omega (arith, node_at-inside nodes p n e)

  -- A chain is inside the store.
  pub Chain-inside :
      (nodes : List (Option (Node A))) (lo p b : ℕ) (x : A) (xs : List A)
      → Chain nodes lo p b x xs
      → b < length nodes
  Chain-inside nodes lo p b x xs c =
      let last = Chain-last nodes lo p b x xs c in node_at-inside nodes b _ last.1

  -- The last node is linked to a new one.
  pub Chain-snoc :
      (nodes nodes' : List (Option (Node A))) (lo p b e : ℕ) (x y z : A) (xs : List A)
      → b < e
      → ((i : ℕ) → i < b → node_at nodes' i ≡ node_at nodes i)
      → node_at nodes b ≡ some (record { item = z; next = none })
      → node_at nodes' b ≡ some (record { item = z; next = some e })
      → node_at nodes' e ≡ some (record { item = y; next = none })
      → Chain nodes lo p b x xs
      → Chain nodes' lo p e x (xs ++ (y ∷ []))
  unfolding Chain
  Chain-snoc nodes nodes' lo p b e x y z [] l f old linked new c =
      let same : z ≡ x =
        ap (λ o. item_or x o) (sym old ∙ ap (λ i. node_at nodes i) (sym c.1) ∙ c.2) in
      (
        c.0,
        e,
        ap (λ i. node_at nodes' i) c.1
            ∙ linked
            ∙ ap (λ w. some (record { item = w; next = some e })) same,
        (omega (arith, c.1), refl, new),
      )
  Chain-snoc nodes nodes' lo p b e x y z (w ∷ xs) l f old linked new c =
      let rest = Chain-le nodes (suc p) c.1 b w xs c.3 in
      (
        c.0,
        c.1,
        f p (omega (arith, rest.0, rest.1)) ∙ c.2,
        Chain-snoc nodes nodes' (suc p) c.1 b e w y z xs l f old linked new c.3,
      )
