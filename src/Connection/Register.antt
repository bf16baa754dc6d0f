-- ===== src/Connection/Register.antt =====
-- `net_ctx_register`: the connection it answers with, and the SSRCs in the table.
use pimidi.Common.{ℕ, ◌%◌, ◌^◌, ◌≡◌, ◌≢◌, inl, inr, refl, true, not, Option, none, some, List}
use pimidi.DataTable.{DataTable, item_get, change, place}
use pimidi.DataTable.Laws.{Puts, change-Puts, add_item-Puts, find-some, Option-cases}
use pimidi.Connection.{
  Ctx, Env, is_used, set, create, fresh_ctx, find_unused, find_by_ssrc, add, register,
}
use pimidi.Connection.Unique.{
  IsUnique, IsFresh, IsUnique-Puts, IsFresh-not_found, find_by_ssrc-some, find_by_ssrc-used,
}

set-IsFresh :
    (env : Env) (t : DataTable Ctx) (ssrc initiator send_ssrc port : ℕ)
    (ip_address name : Option (List ℕ)) (i : ℕ) (c : Ctx)
    → find_by_ssrc t ssrc ≡ none
    → IsFresh t i (set env ssrc initiator send_ssrc port ip_address name c)
unfolding set
set-IsFresh env t ssrc initiator send_ssrc port ip_address name i c n =
    IsFresh-not_found t ssrc i (set env ssrc initiator send_ssrc port ip_address name c) n refl

-- The connection that `net_ctx_register` answers with: it is in the table and in use, has the SSRC,
-- and the others are as they were.
unfoldable IsRegistered : DataTable Ctx → ℕ → Option ℕ × DataTable Ctx → Type 0
IsRegistered t ssrc (none, t') = ⊥
IsRegistered t ssrc (some i, t') =
    ((c : Ctx) × (item_get t' i ≡ some c) × (is_used c ≡ true) × (c.ssrc ≡ ssrc))
    × ((j : ℕ) → j ≢ i → item_get t' j ≡ item_get t j)

IsRegistered-Puts :
    (env : Env) (t t' : DataTable Ctx) (ssrc initiator send_ssrc port : ℕ)
    (ip_address name : Option (List ℕ)) (i : ℕ) (c : Ctx)
    → Puts t t' i (some (set env ssrc initiator send_ssrc port ip_address name c))
    → IsRegistered t ssrc (some i, t')
unfolding Puts set IsRegistered
IsRegistered-Puts env t t' ssrc initiator send_ssrc port ip_address name i c (at, others) =
    ((set env ssrc initiator send_ssrc port ip_address name c, at, refl, refl), others)

add-Puts :
    (env : Env) (t : DataTable Ctx) (ssrc initiator send_ssrc port : ℕ)
    (ip_address name : Option (List ℕ)) (c : Ctx)
    → Puts t
        (add t (set env ssrc initiator send_ssrc port ip_address name c))
        (place t)
        (some (set env ssrc initiator send_ssrc port ip_address name c))
unfolding set add
add-Puts env t ssrc initiator send_ssrc port ip_address name c =
    (add_item-Puts t (set env ssrc initiator send_ssrc port ip_address name c)).1

module _ (env : Env) (t : DataTable Ctx) (ssrc initiator : ℕ) (ip_address : Option (List ℕ))
    (port : ℕ) (name : Option (List ℕ)) where
  abbrev fill : Ctx → Ctx
  fill c = set env ssrc initiator (env.random 0 % 2 ^ 32) port ip_address name c

  taken :
      (P : Option ℕ × DataTable Ctx → Type 0)
      → ((i : ℕ) (c : Ctx) (t' : DataTable Ctx)
          → find_by_ssrc t ssrc ≡ none
          → Puts t t' i (some (fill c))
          → P (some i, t'))
      → find_by_ssrc t ssrc ≡ none
      → (i : ℕ) → find_unused t ≡ some i
      → P (some i, change t i fill)
  unfolding find_unused
  taken P put e i f =
      let found = find-some (λ ctx. not (is_used ctx)) t i f in
      put i found.0 (change t i fill) e (change-Puts t i fill found.0 found.1)

  -- `net_ctx_register` finds the connection, takes an unused one or makes a new one; the table
  -- differs from the one before in this connection only.
  pub register_cases :
      (P : Option ℕ × DataTable Ctx → Type 0)
      → ((i : ℕ) → find_by_ssrc t ssrc ≡ some i → P (some i, t))
      → ((i : ℕ) (c : Ctx) (t' : DataTable Ctx)
          → find_by_ssrc t ssrc ≡ none
          → Puts t t' i (some (fill c))
          → P (some i, t'))
      → P (register env true t ssrc initiator ip_address port name)
  unfolding register create
  register_cases P found put = elim (Option-cases (find_by_ssrc t ssrc)) [
    | inr (i, e) ↦ rw (register, e) (found i e)
    | inl e ↦ elim (Option-cases (find_unused t)) [
      | inr (i, f) ↦ rw (register, e, f) (taken P put e i f)
      | inl f ↦
          rw (register, e, f)
            (put (place t) (fresh_ctx env) (add t (fill (fresh_ctx env))) e (
              add-Puts env t ssrc initiator (env.random 0 % 2 ^ 32) port ip_address name
                (fresh_ctx env)))
    ]
  ]

-- `net_ctx_register` keeps the SSRCs of the connections in use different, whether it finds the SSRC,
-- takes an unused connection or makes a new one. There is memory for a new one.
pub register-IsUnique :
    (env : Env) (t : DataTable Ctx) (ssrc initiator : ℕ) (ip_address : Option (List ℕ)) (port : ℕ)
    (name : Option (List ℕ))
    → IsUnique t
    → IsUnique (register env true t ssrc initiator ip_address port name).1
register-IsUnique env t ssrc initiator ip_address port name u =
    register_cases env t ssrc initiator ip_address port name (λ r. IsUnique r.1) (λ i e. u)
      (λ i c t' e p.
        IsUnique-Puts t t' i (set env ssrc initiator (env.random 0 % 2 ^ 32) port ip_address name c)
          u p (set-IsFresh env t ssrc initiator (env.random 0 % 2 ^ 32) port ip_address name i c e))

-- `net_ctx_register` answers with a connection of the table that is in use and has the SSRC.
register-IsRegistered :
    (env : Env) (t : DataTable Ctx) (ssrc initiator : ℕ) (ip_address : Option (List ℕ)) (port : ℕ)
    (name : Option (List ℕ))
    → IsRegistered t ssrc (register env true t ssrc initiator ip_address port name)
unfolding IsRegistered
register-IsRegistered env t ssrc initiator ip_address port name =
    register_cases env t ssrc initiator ip_address port name (IsRegistered t ssrc)
      (λ i e. (find_by_ssrc-some t ssrc i e, λ j n. refl))
      (λ i c t' e p.
        IsRegistered-Puts env t t' ssrc initiator (env.random 0 % 2 ^ 32) port ip_address name i c
          p)

-- The connection that `net_ctx_register` answers with is the one that `net_ctx_find_by_ssrc` finds
-- for the SSRC from then on. The SSRCs of the connections in use are different, and there is memory
-- for a new one.
pub find_by_ssrc-register :
    (env : Env) (t : DataTable Ctx) (ssrc initiator : ℕ) (ip_address : Option (List ℕ)) (port : ℕ)
    (name : Option (List ℕ))
    → IsUnique t
    → find_by_ssrc (register env true t ssrc initiator ip_address port name).1 ssrc
      ≡ (register env true t ssrc initiator ip_address port name).0
unfolding Puts set
find_by_ssrc-register env t ssrc initiator ip_address port name u =
    register_cases env t ssrc initiator ip_address port name (λ r. find_by_ssrc r.1 ssrc ≡ r.0)
      (λ i e. e)
      (λ i c t' e p.
        find_by_ssrc-used t' i
          (set env ssrc initiator (env.random 0 % 2 ^ 32) port ip_address name c)
          (IsUnique-Puts t t' i
            (set env ssrc initiator (env.random 0 % 2 ^ 32) port ip_address name c) u p
            (set-IsFresh env t ssrc initiator (env.random 0 % 2 ^ 32) port ip_address name i c e))
          p.0 refl)
