-- ===== src/Connection/Unique.antt =====
-- No two connections in use have the same SSRC.
use pimidi.Common.{
  ℕ, ◌≡◌, ◌≢◌, inl, inr, refl, sym, ap, ◌∙◌, Bool, true, false, ◌&&◌, none, some, arith, ◌==◌,
  Bool-cases,
}
use pimidi.DataTable.{DataTable, item_get, change}
use pimidi.DataTable.Laws.{Puts, change-Puts, find-none, find-some, Option-cases}
use pimidi.Connection.{Ctx, is_used, reset, find_by_ssrc}

unfoldable pub IsUnique : DataTable Ctx → Type 0
IsUnique t =
    (i j : ℕ) (c d : Ctx)
    → item_get t i ≡ some c
    → item_get t j ≡ some d
    → is_used c ≡ true
    → is_used d ≡ true
    → c.ssrc ≡ d.ssrc
    → i ≡ j

-- No connection in use but the one at `i` has the SSRC of `c`.
abbrev pub IsFresh : DataTable Ctx → ℕ → Ctx → Type 0
IsFresh t i c =
    (j : ℕ) (d : Ctx)
    → item_get t j ≡ some d
    → is_used d ≡ true
    → is_used c ≡ true
    → d.ssrc ≡ c.ssrc
    → j ≡ i

pub some-injective {ℓ} : {A : Type ℓ} (a b : A) → some a ≡ some b → a ≡ b
some-injective a b e = ground arith

pub IsUnique-Puts :
    (t t' : DataTable Ctx) (i : ℕ) (c : Ctx)
    → IsUnique t
    → Puts t t' i (some c)
    → IsFresh t i c
    → IsUnique t'
unfolding IsUnique Puts
IsUnique-Puts t t' k c u (at, others) fresh i j a b ha hb ua ub e = elim (Bool-cases (i == k)) [
  | inl p ↦ elim (Bool-cases (j == k)) [
    | inl q ↦ ground arith
    | inr q ↦ at_place i j a b (ground arith) (ground arith) ha hb ua ub e
  ]
  | inr p ↦ elim (Bool-cases (j == k)) [
    | inl q ↦ sym (at_place j i b a (ground arith) (ground arith) hb ha ub ua (sym e))
    | inr q ↦
        u i j a b (sym (others i (ground arith)) ∙ ha) (sym (others j (ground arith)) ∙ hb) ua ub e
  ]
]
  where
    at_place :
        (i' j' : ℕ) (a' b' : Ctx)
        → i' ≡ k
        → j' ≢ k
        → item_get t' i' ≡ some a'
        → item_get t' j' ≡ some b'
        → is_used a' ≡ true
        → is_used b' ≡ true
        → a'.ssrc ≡ b'.ssrc
        → i' ≡ j'
    at_place i' j' a' b' p q ha' hb' ua' ub' e' =
        let same : c ≡ a' = some-injective c a' (sym at ∙ sym (ap (λ n. item_get t' n) p) ∙ ha') in
        p
        ∙ sym (
            fresh j' b' (sym (others j' q) ∙ hb') ub' (ap (λ x. is_used x) same ∙ ua')
              (sym (ap (λ x. x.ssrc) same ∙ e')))

and_true : (p q : Bool) → p ≡ true → q ≡ true → (p && q) ≡ true
and_true true q h k = k
and_true false q h k = h

pub true_is_not_false {ℓ} : {A : Type ℓ} → true ≡ false → A
true_is_not_false e = absurd (ground arith)

-- What `net_ctx_find_by_ssrc` does not find is not there.
not_found_absurd :
    {A : Type 0} (t : DataTable Ctx) (ssrc j : ℕ) (d : Ctx)
    → find_by_ssrc t ssrc ≡ none
    → item_get t j ≡ some d
    → is_used d ≡ true
    → d.ssrc ≡ ssrc
    → A
unfolding find_by_ssrc
not_found_absurd t ssrc j d n h ud e =
    let test : (is_used d && d.ssrc == ssrc) ≡ false =
      find-none (λ ctx. is_used ctx && ctx.ssrc == ssrc) t j d n h in
    let equal : (d.ssrc == ssrc) ≡ true = ground (arith, e) in
    true_is_not_false (sym (and_true (is_used d) (d.ssrc == ssrc) ud equal) ∙ test)

-- A connection with an SSRC that is not found is fresh everywhere.
pub IsFresh-not_found :
    (t : DataTable Ctx) (ssrc i : ℕ) (c : Ctx)
    → find_by_ssrc t ssrc ≡ none
    → c.ssrc ≡ ssrc
    → IsFresh t i c
IsFresh-not_found t ssrc i c n e j d h ud uc s = not_found_absurd t ssrc j d n h ud (s ∙ e)

-- A change keeps the SSRC and puts no unused connection in use.
abbrev IsTame : (Ctx → Ctx) → Type 0
IsTame f = (c : Ctx) → is_used (f c) ≡ true → (is_used c ≡ true) × ((f c).ssrc ≡ c.ssrc)

pub change-IsUnique :
    (t : DataTable Ctx) (i : ℕ) (f : Ctx → Ctx) (c : Ctx)
    → item_get t i ≡ some c
    → IsTame f
    → IsUnique t
    → IsUnique (change t i f)
unfolding IsUnique
change-IsUnique t i f c h tame u =
    IsUnique-Puts t (change t i f) i (f c) u (change-Puts t i f c h)
      (λ j d hd ud uf s. u j i d c hd h ud (kept uf).0 (s ∙ (kept uf).1))
  where
    kept : is_used (f c) ≡ true → (is_used c ≡ true) × ((f c).ssrc ≡ c.ssrc)
    kept uf = tame c uf

pub reset-IsTame : IsTame reset
unfolding reset
reset-IsTame c e = true_is_not_false (sym e)

and_split : (p q : Bool) → (p && q) ≡ true → (p ≡ true) × (q ≡ true)
and_split true q e = (refl, e)
and_split false q e = true_is_not_false (sym e)

-- What `net_ctx_find_by_ssrc` finds.
pub find_by_ssrc-some :
    (t : DataTable Ctx) (ssrc i : ℕ)
    → find_by_ssrc t ssrc ≡ some i
    → (c : Ctx) × (item_get t i ≡ some c) × (is_used c ≡ true) × (c.ssrc ≡ ssrc)
unfolding find_by_ssrc
find_by_ssrc-some t ssrc i e =
    let found = find-some (λ ctx. is_used ctx && ctx.ssrc == ssrc) t i e in
    let c : Ctx = found.0 in
    let both = and_split (is_used c) (c.ssrc == ssrc) found.2 in
    let equal : (c.ssrc == ssrc) ≡ true = both.1 in (c, found.1, both.0, ground arith)

-- A connection in use is found by its SSRC, where no other has the same.
pub find_by_ssrc-used :
    (t : DataTable Ctx) (i : ℕ) (c : Ctx)
    → IsUnique t
    → item_get t i ≡ some c
    → is_used c ≡ true
    → find_by_ssrc t c.ssrc ≡ some i
unfolding IsUnique
find_by_ssrc-used t i c u h uc = elim (Option-cases (find_by_ssrc t c.ssrc)) [
  | inl n ↦ not_found_absurd t c.ssrc i c n h uc refl
  | inr (k, e) ↦
      let found = find_by_ssrc-some t c.ssrc k e in
      e ∙ ap (λ n. some n) (u k i found.0 c found.1 h found.2 uc found.3)
]
