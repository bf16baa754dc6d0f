-- ===== src/DataTable/Laws.antt =====
-- What the operations of a table do to what `data_table_item_get` reads.
use pimidi.Common.{
  ℕ, zero, suc, ◌<◌, ◌≡◌, ◌≢◌, ◌⊎◌, inl, inr, refl, sym, ap, subst, ◌∙◌, Bool, true, false, Option,
  none, some, List, [], ◌∷◌, ◌++◌, arith, length, get_or, set, ◌==◌, get_or-set, if◌then◌else◌,
}
use pimidi.DataTable.{
  Item, DataTable, first_of, item_get, content_of, is_free, find_free, add_item, change,
  change_item, passes, find, find_item, used_item, place,
}

first_of-none : (b : Bool) (r : Option ℕ) → first_of b r ≡ none → (b ≡ false) × (r ≡ none)
first_of-none true r e = absurd (ground arith)
first_of-none false none e = (refl, refl)
first_of-none false (some i) e = absurd (ground arith)

first_of-some :
    (b : Bool) (r : Option ℕ) (i : ℕ)
    → first_of b r ≡ some i
    → ((b ≡ true) × (i ≡ 0)) ⊎ ((k : ℕ) × (b ≡ false) × (r ≡ some k) × (i ≡ suc k))
first_of-some true r i e = inl (refl, ground arith)
first_of-some false none i e = absurd (ground arith)
first_of-some false (some k) i e = inr (k, refl, refl, ground arith)

first : {P Q : Type 0} → P × Q → P
first (p, q) = p

second : {P Q : Type 0} → P × Q → Q
second (p, q) = q

pub Option-cases {ℓ} : {A : Type ℓ} (o : Option A) → (o ≡ none) ⊎ ((a : A) × (o ≡ some a))
Option-cases none = inl refl
Option-cases (some a) = inr (a, refl)

module _ {ℓ} {A : Type ℓ} where
  -- An item that is not found fails the test.
  find_item-none :
      (test : A → Bool) (os : List (Option (Item A))) (i : ℕ)
      → find_item test os ≡ none
      → passes test (content_of (get_or os i none)) ≡ false
  unfolding find_item
  find_item-none test [] i e = refl
  find_item-none test (o ∷ os) zero e =
      first (first_of-none (passes test (content_of o)) (find_item test os) e)
  find_item-none test (o ∷ os) (suc n) e =
      find_item-none test os n
        (second (first_of-none (passes test (content_of o)) (find_item test os) e))

  -- The item found passes the test.
  find_item-some :
      (test : A → Bool) (os : List (Option (Item A))) (i : ℕ)
      → find_item test os ≡ some i
      → passes test (content_of (get_or os i none)) ≡ true
  unfolding find_item
  find_item-some test [] i e = absurd (ground arith)
  find_item-some test (o ∷ os) i e =
      elim (first_of-some (passes test (content_of o)) (find_item test os) i e) [
        | inl (h, z) ↦ rw z h
        | inr (k, h, r, z) ↦ rw z (find_item-some test os k r)
      ]

  find_free-some : (os : List (Option (Item A))) (i : ℕ) → find_free os ≡ some i → i < length os
  find_free-some [] i e = absurd (ground arith)
  find_free-some (o ∷ os) i e = elim (first_of-some (is_free o) (find_free os) i e) [
    | inl (h, z) ↦ omega arith
    | inr (k, h, r, z) ↦ omega (arith, find_free-some os k r)
  ]

  get_or-snoc :
      (os : List (Option (Item A))) (o : Option (Item A)) (j : ℕ)
      → get_or (os ++ (o ∷ [])) j none ≡ (if j == length os then o else get_or os j none)
  get_or-snoc [] o zero = refl
  get_or-snoc [] o (suc j) = ground arith
  get_or-snoc (x ∷ os) o zero = ground arith
  get_or-snoc (x ∷ os) o (suc j) = ground (arith, get_or-snoc os o j)

  content_changed :
      (f : A → A) (o : Option (Item A)) (a : A)
      → content_of o ≡ some a
      → content_of (change_item f o) ≡ some (f a)
  content_changed f none a e = absurd (ground arith)
  content_changed f (some item) a e = rw e refl

  -- A place that holds something is in the table.
  pub item_inside :
      (os : List (Option (Item A))) (i : ℕ) (a : A)
      → content_of (get_or os i none) ≡ some a
      → i < length os
  item_inside [] i a e = absurd (ground arith)
  item_inside (o ∷ os) zero a e = omega arith
  item_inside (o ∷ os) (suc i) a e = omega (arith, item_inside os i a e)

  -- One place of a table has got `o`, the others hold what they held.
  unfoldable pub Puts : DataTable A → DataTable A → ℕ → Option A → Type ℓ
  Puts t t' i o = (item_get t' i ≡ o) × ((j : ℕ) → j ≢ i → item_get t' j ≡ item_get t j)

  set-Puts :
      (t : DataTable A) (i : ℕ) (o : Option (Item A))
      → i < length t.items
      → Puts t (record t { items = set t.items i o }) i (content_of o)
  unfolding Puts
  set-Puts t i o h = (ap (λ p. content_of p) same, λ j n. ap (λ p. content_of p) (other j n))
    where
      same : get_or (set t.items i o) i none ≡ o
      same = let e : (i == i) ≡ true = ground arith in get_or-set t.items i i o none h ∙ (rw e refl)

      other : (j : ℕ) → j ≢ i → get_or (set t.items i o) j none ≡ get_or t.items j none
      other j n =
          let e : (i == j) ≡ false = ground arith in get_or-set t.items i j o none h ∙ (rw e refl)

  pub change-Puts :
      (t : DataTable A) (i : ℕ) (f : A → A) (a : A)
      → item_get t i ≡ some a
      → Puts t (change t i f) i (some (f a))
  unfolding change Puts
  change-Puts t i f a e =
      subst (λ o. Puts t (change t i f) i o) (content_changed f (get_or t.items i none) a e)
        (set-Puts t i (change_item f (get_or t.items i none)) (item_inside t.items i a e))

  snoc-Puts :
      (t : DataTable A) (a : A)
      → Puts t (record t { items = t.items ++ (used_item a ∷ []) }) (length t.items) (some a)
  unfolding Puts
  snoc-Puts t a = (ap (λ p. content_of p) same, λ j n. ap (λ p. content_of p) (other j n))
    where
      o : Option (Item A)
      o = used_item a

      same : get_or (t.items ++ (o ∷ [])) (length t.items) none ≡ o
      same =
          let e : (length t.items == length t.items) ≡ true = ground arith in
          get_or-snoc t.items o (length t.items) ∙ (rw e refl)

      other :
          (j : ℕ) → j ≢ length t.items → get_or (t.items ++ (o ∷ [])) j none ≡ get_or t.items j none
      other j n =
          let e : (j == length t.items) ≡ false = ground arith in
          get_or-snoc t.items o j ∙ (rw e refl)

  -- `data_table_add_item` with memory answers 1 and gives the data one place in the table.
  pub add_item-Puts :
      (t : DataTable A) (a : A)
      → ((add_item true true t (some a)).0 ≡ 1)
        × Puts t ((add_item true true t (some a)).1) (place t) (some a)
  unfolding add_item
  add_item-Puts t a = elim (Option-cases (find_free t.items)) [
    | inl e ↦ rw (add_item, place, e) (refl, snoc-Puts t a)
    | inr (i, e) ↦
        rw (add_item, place, e) (refl, set-Puts t i (used_item a) (find_free-some t.items i e))
  ]

  pub find-none :
      (test : A → Bool) (t : DataTable A) (i : ℕ) (a : A)
      → find test t ≡ none
      → item_get t i ≡ some a
      → test a ≡ false
  unfolding find
  find-none test t i a e h = sym (ap (λ o. passes test o) h) ∙ find_item-none test t.items i e

  pub find-some :
      (test : A → Bool) (t : DataTable A) (i : ℕ)
      → find test t ≡ some i
      → (a : A) × (item_get t i ≡ some a) × (test a ≡ true)
  unfolding find
  find-some test t i e = elim (Option-cases (item_get t i)) [
    | inl n ↦
        let b : false ≡ true = sym (ap (λ o. passes test o) n) ∙ find_item-some test t.items i e in
        absurd (ground arith)
    | inr (a, h) ↦ (a, h, sym (ap (λ o. passes test o) h) ∙ find_item-some test t.items i e)
  ]

  -- A change that the test does not see leaves the search as it is.
  find_item-set :
      (test : A → Bool) (os : List (Option (Item A))) (k : ℕ) (o : Option (Item A))
      → passes test (content_of o) ≡ passes test (content_of (get_or os k none))
      → find_item test (set os k o) ≡ find_item test os
  unfolding find_item
  find_item-set test [] k o e = refl
  find_item-set test (x ∷ os) zero o e = ap (λ b. first_of b (find_item test os)) e
  find_item-set test (x ∷ os) (suc k) o e =
      ap (λ r. first_of (passes test (content_of x)) r) (find_item-set test os k o e)

  pub find-change :
      (test : A → Bool) (t : DataTable A) (k : ℕ) (f : A → A) (a : A)
      → item_get t k ≡ some a
      → test (f a) ≡ test a
      → find test (change t k f) ≡ find test t
  unfolding find change
  find-change test t k f a h e =
      find_item-set test t.items k (change_item f (get_or t.items k none)) (
        ap (λ o. passes test o) (content_changed f (get_or t.items k none) a h)
        ∙ e
        ∙ sym (ap (λ o. passes test o) h))
