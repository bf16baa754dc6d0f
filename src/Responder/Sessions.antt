-- ===== src/Responder/Sessions.antt =====
-- The table of sessions under the commands from the network.
use pimidi.Common.{
  ℕ, ◌≡◌, ◌≢◌, refl, sym, ap, subst, ◌∙◌, inl, inr, Bool, true, false, Option, none, some, List,
  arith, length, ◌==◌, Bool-cases, leb,
}
use pimidi.Common.Memory.{Exec, done, fault, ◌>>=◌}
use pimidi.DataTable.{DataTable, item_get, change}
use pimidi.DataTable.Laws.{Option-cases, change-Puts, Puts}
use pimidi.AppleMidi.{
  Inv, Feedback, AppleCommand, cmd_accept, cmd_inv, cmd_end, cmd_sync, cmd_feedback, unpack,
}
use pimidi.Connection.{
  Ctx, Env, is_used, find_by_ssrc, reset, journal_reset, init_connections, Datagram,
}
use pimidi.Connection.Unique.{
  IsUnique, change-IsUnique, reset-IsTame, find_by_ssrc-some, true_is_not_false, some-injective,
}
use pimidi.Connection.Register.{register-IsUnique}
use pimidi.Responder.Leaves.{
  Leaves, Leaves->>=, Leaves-chain, Leaves-as_inv, Leaves-as_sync, Leaves-as_feedback,
}
use pimidi.Responder.{
  Response, inv_responder, by_responder, feedback_responder, sync_responder, read_command, dispatch,
  find_or_register, pack_response, accept, deref, answer_inv, rtp_seq_1,
}

by_responder-IsUnique : (t : DataTable Ctx) (i : Inv) → IsUnique t → IsUnique (by_responder t i)
unfolding by_responder
by_responder-IsUnique t i u = elim (Option-cases (find_by_ssrc t i.ssrc)) [
  | inl e ↦ rw (by_responder, e) u
  | inr (k, e) ↦
      let found = find_by_ssrc-some t i.ssrc k e in
      rw (by_responder, e) (change-IsUnique t k reset found.0 found.1 reset-IsTame u)
]

find_or_register-IsUnique :
    (env : Env) (t : DataTable Ctx) (i : Inv) (ip_address : Option (List ℕ)) (port : ℕ)
    → IsUnique t
    → IsUnique (find_or_register env t i ip_address port).1
find_or_register-IsUnique env t i ip_address port u = elim (Option-cases (find_by_ssrc t i.ssrc)) [
  | inr (k, e) ↦ rw (find_or_register, e) u
  | inl e ↦
      rw (find_or_register, e) (register-IsUnique env t i.ssrc i.initiator ip_address port i.name u)
]

answer_inv-IsUnique :
    (service_name : Option (List ℕ)) (r : Option ℕ × DataTable Ctx)
    → IsUnique r.1
    → Leaves (answer_inv service_name r) (λ r'. IsUnique r'.1)
answer_inv-IsUnique service_name (none, t) u = u
answer_inv-IsUnique service_name (some k, t) u =
    Leaves->>= (deref (item_get t k) (λ ctx. pack_response (accept service_name ctx))) _ _
      (λ response. u)

feedback_responder-IsUnique :
    (t : DataTable Ctx) (f : Feedback) → IsUnique t → Leaves (feedback_responder t f) IsUnique
unfolding feedback_responder
feedback_responder-IsUnique t f u = elim (Option-cases (find_by_ssrc t f.ssrc)) [
  | inl e ↦ rw (feedback_responder, e) u
  | inr (k, e) ↦
      let found = find_by_ssrc-some t f.ssrc k e in
      rw (feedback_responder, e, found.1)
        (elim (Bool-cases (leb (found.0).seq (rtp_seq_1 f))) [
          | inl b ↦ rw b (change-IsUnique t k journal_reset found.0 found.1 (λ c uc. (uc, refl)) u)
          | inr b ↦ rw b u
        ])
]

-- The table that a command other than OK leaves.
dispatch-IsUnique :
    (signed : Bool) (env : Env) (service_name : Option (List ℕ)) (t : DataTable Ctx)
    (ip_address : List ℕ) (port : ℕ) (c : AppleCommand)
    → c.command ≢ cmd_accept
    → IsUnique t
    → Leaves (dispatch signed env service_name t ip_address port c) (λ r. IsUnique r.2)
unfolding inv_responder
dispatch-IsUnique signed env service_name t ip_address port c n u =
    let not_ok : (c.command == cmd_accept) ≡ false = ground arith in
    elim (Bool-cases (c.command == cmd_inv)) [
      | inl e ↦ rw e (
          Leaves-as_inv c.command_data _ _ (λ i.
            Leaves-chain (inv_responder env service_name t (some ip_address) port i) _
              (λ r. IsUnique r.1) (λ r. IsUnique r.2)
              (answer_inv-IsUnique service_name (find_or_register env t i (some ip_address) port)
                (find_or_register-IsUnique env t i (some ip_address) port u))
              (λ r v. v)))
      | inr e ↦
          rw (e, not_ok)
            (elim (Bool-cases (c.command == cmd_end)) [
              | inl e1 ↦ rw e1 (
                  Leaves-as_inv c.command_data _ (λ r. IsUnique r.2)
                    (λ i. by_responder-IsUnique t i u))
              | inr e1 ↦ rw e1 (elim (Bool-cases (c.command == cmd_sync)) [
                | inl e2 ↦ rw e2 (
                    Leaves-as_sync c.command_data _ (λ r. IsUnique r.2)
                      (λ s.
                        Leaves->>= (sync_responder signed env t s) _ (λ r. IsUnique r.2) (λ r. u)))
                | inr e2 ↦ rw e2 (elim (Bool-cases (c.command == cmd_feedback)) [
                  | inl e3 ↦ rw e3 (
                      Leaves-as_feedback c.command_data _ (λ r. IsUnique r.2)
                        (λ f.
                          Leaves-chain (feedback_responder t f) _ IsUnique (λ r. IsUnique r.2)
                            (feedback_responder-IsUnique t f u) (λ t' v. v)))
                  | inr e3 ↦ rw e3 u
                ])
              ])
            ])
    ]

-- A datagram that is not unpacked to an OK.
unfoldable pub IsNotOk : List ℕ → Type 0
IsNotOk b =
    (ret : ℕ) (c : AppleCommand)
    → unpack true true (some b) (length b) ≡ done (ret, some c)
    → c.command ≢ cmd_accept

-- The tables that come of datagrams, from the empty one on. An OK, which answers an invitation of
-- this side, is not among them.
pub data Reaches : DataTable Ctx → Type 0 where
  start : Reaches init_connections
  received :
      (t t' : DataTable Ctx) (signed : Bool) (env : Env) (service_name : Option (List ℕ))
      (ip_address : List ℕ) (port : ℕ) (b : List ℕ) (response : Option Response)
      (datagram : Option Datagram)
      → Reaches t
      → IsNotOk b
      → read_command signed env service_name t ip_address port b ≡ done (response, datagram, t')
      → Reaches t'

read_command-IsUnique :
    (signed : Bool) (env : Env) (service_name : Option (List ℕ)) (t : DataTable Ctx)
    (ip_address : List ℕ) (port : ℕ) (b : List ℕ)
    → IsNotOk b
    → IsUnique t
    → Leaves (read_command signed env service_name t ip_address port b) (λ r. IsUnique r.2)
unfolding read_command IsNotOk
read_command-IsUnique signed env service_name t ip_address port b n u =
    unpacked (unpack true true (some b) (length b)) n
  where
    unpacked :
        (m : Exec (ℕ × Option AppleCommand))
        → ((ret : ℕ) (c : AppleCommand) → m ≡ done (ret, some c) → c.command ≢ cmd_accept)
        → Leaves
            (m >>= λ (ret, command).
              deref command (dispatch signed env service_name t ip_address port))
            (λ r. IsUnique r.2)
    unpacked fault k = tt
    unpacked (done (ret, none)) k = tt
    unpacked (done (ret, some c)) k =
        dispatch-IsUnique signed env service_name t ip_address port c (k ret c refl) u

-- In every table that comes of datagrams other than OKs, from the empty one on, the connections in
-- use have different SSRCs.
pub Reaches-IsUnique : (t : DataTable Ctx) → Reaches t → IsUnique t
unfolding IsUnique
Reaches-IsUnique _ start = λ i j c d h. absurd (ground arith)
Reaches-IsUnique _
      (received t t' signed env service_name ip_address port b response datagram r n e) =
    subst (λ m. Leaves m (λ q. IsUnique q.2)) e
      (read_command-IsUnique signed env service_name t ip_address port b n (Reaches-IsUnique t r))

-- A connection that is found in the table after the reset of one with its SSRC.
still_found :
    (t : DataTable Ctx) (ssrc k m : ℕ) (c d : Ctx)
    → IsUnique t
    → item_get t k ≡ some c
    → is_used c ≡ true
    → c.ssrc ≡ ssrc
    → item_get (change t k reset) m ≡ some d
    → is_used d ≡ true
    → d.ssrc ≡ ssrc
    → ⊥
unfolding IsUnique Puts reset
still_found t ssrc k m c d u hc uc ec hd ud ed = elim (Bool-cases (m == k)) [
  | inl p ↦
      let q : m ≡ k = ground arith in
      let same : reset c ≡ d =
        some-injective (reset c) d
          (sym at.0 ∙ sym (ap (λ n. item_get (change t k reset) n) q) ∙ hd) in
      true_is_not_false (sym ud ∙ sym (ap (λ x. is_used x) same))
  | inr p ↦
      let q : m ≢ k = ground arith in q (u m k d c (sym (at.1 m q) ∙ hd) hc ud uc (ed ∙ sym ec))
]
  where
    at : Puts t (change t k reset) k (some (reset c))
    at = change-Puts t k reset c hc

-- After a BY, `net_ctx_find_by_ssrc` does not find its SSRC any more. The SSRCs of the connections in
-- use are different.
pub find_by_ssrc-by_responder :
    (t : DataTable Ctx) (i : Inv) → IsUnique t → find_by_ssrc (by_responder t i) i.ssrc ≡ none
unfolding by_responder
find_by_ssrc-by_responder t i u = elim (Option-cases (find_by_ssrc t i.ssrc)) [
  | inl e ↦ rw (by_responder, e) e
  | inr (k, e) ↦
      rw (by_responder, e)
        (elim (Option-cases (find_by_ssrc (change t k reset) i.ssrc)) [
          | inl n ↦ n
          | inr (m, f) ↦
              let c = find_by_ssrc-some t i.ssrc k e in
              let d = find_by_ssrc-some (change t k reset) i.ssrc m f in
              absurd (still_found t i.ssrc k m c.0 d.0 u c.1 c.2 c.3 d.1 d.2 d.3)
        ])
]
