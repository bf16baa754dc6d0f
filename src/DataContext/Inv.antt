-- ===== src/DataContext/Inv.antt =====
-- The number of the users of a context, which the steps keep.
use pimidi.Common.{
  ℕ, suc, ◌+◌, ◌^◌, ◌≤◌, ◌<◌, ◌≡◌, refl, sym, subst, ◌∙◌, Bool, true, false, Option, some, List, [],
  ◌∷◌, ◌++◌, arith,
}
use pimidi.Common.Memory.{Returns}
use pimidi.DataContext.{DataContext}
use pimidi.DataContext.Shared.{
  Reader, sending, closing, left, Sender, free, holding, ending, reader_after, sender_after,
  Sharing, sharing, Step, adds, leaves, closes, takes, sends, ends, Reach, start, later,
}
use pimidi.DataContext.Laws.{
  Phase, alive, ending_one, acquire-Phase, drop_reference-Phase, destroy-Phase, read_data_lem,
}

abbrev pub reader_holds : Reader → ℕ
reader_holds sending = 1
reader_holds closing = 0
reader_holds left = 0

abbrev pub reader_closes : Reader → ℕ
reader_closes sending = 0
reader_closes closing = 1
reader_closes left = 0

abbrev pub sender_holds : Sender → ℕ
sender_holds free = 0
sender_holds holding = 1
sender_holds ending = 0

abbrev pub sender_closes : Sender → ℕ
sender_closes free = 0
sender_closes holding = 0
sender_closes ending = 1

-- The references that there should be: one for the reader, one for each command in the queue or in hand.
abbrev pub users : Reader → ℕ → Sender → ℕ
users r q s = reader_holds r + (q + sender_holds s)

abbrev pub closers : Reader → Sender → ℕ
closers r s = reader_closes r + sender_closes s

reader_after_lem :
    (b : Bool)
    → (reader_holds (reader_after b) ≡ 0) × (reader_closes (reader_after b) ≡ ending_one b)
reader_after_lem true = (refl, refl)
reader_after_lem false = (refl, refl)

sender_after_lem :
    (b : Bool)
    → (sender_holds (sender_after b) ≡ 0) × (sender_closes (sender_after b) ≡ ending_one b)
sender_after_lem true = (refl, refl)
sender_after_lem false = (refl, refl)

module _ {A : Type 0} (a : A) where
  abbrev pub AllSeen : List (Option A) → Type 0
  AllSeen [] = Unit
  AllSeen (d ∷ seen) = (d ≡ some a) × AllSeen seen

  abbrev pub Inv : Sharing A → Type 0
  Inv (sharing cell q r s n seen out) =
      Phase a cell (users r q s) (closers r s) out × (users r q s ≤ n + 1) × AllSeen seen

  abbrev pub added : Sharing A → ℕ
  added (sharing cell q r s n seen out) = n

  pub moved :
      {cell : Option (DataContext A)} {u v k l : ℕ} {out : List (Option A)}
      → u ≡ v
      → k ≡ l
      → Phase a cell u k out
      → Phase a cell v l out
  moved {cell} {u} {v} {k} {l} {out} e f p =
      subst (λ m. Phase a cell v m out) f (subst (λ m. Phase a cell m k out) e p)

  added-Step : {s t : Sharing A} → Step s t → added s ≤ added t
  added-Step (adds e) = omega arith
  added-Step (leaves e) = omega arith
  added-Step (closes e) = omega arith
  added-Step takes = omega arith
  added-Step (sends d e) = omega arith
  added-Step (ends e) = omega arith

  Step-Inv : {s t : Sharing A} → Step s t → added t + 1 < 2 ^ 32 → Inv s → Inv t
  Step-Inv (adds {cell} {c} {q} {s} {n} {seen} {out} e) h (p, l, w) =
      let got =
        subst (λ m. Returns m (λ x. Phase a x (suc (users sending q s)) (closers sending s) out)) e
          (acquire-Phase a cell (users sending q s) (closers sending s) out p (omega arith)
            (omega arith)) in
      (moved (omega arith) refl got, omega arith, w)
  Step-Inv (leaves {cell} {c} {q} {s} {n} {seen} {out} {last} e) h (p, l, w) =
      let got =
        subst
          (λ m.
            Returns m
              (λ x. Phase a x.0 (q + sender_holds s) (ending_one x.1 + closers sending s) out))
          e
          (drop_reference-Phase a cell (q + sender_holds s) (closers sending s) out
            (moved (omega arith) refl p) (omega arith)) in
      (
        moved (omega (arith, reader_after_lem last)) (omega (arith, reader_after_lem last)) got,
        omega (arith, reader_after_lem last),
        w,
      )
  Step-Inv (closes {cell} {c} {q} {s} {n} {seen} {out} {more} e) h (p, l, w) =
      let got =
        subst (λ m. Returns m (λ x. Phase a x.0 (users closing q s) (sender_closes s) (out ++ x.1)))
          e
          (destroy-Phase a cell (users closing q s) (sender_closes s) out
            (moved refl (omega arith) p)) in
      (moved (omega arith) (omega arith) got, omega arith, w)
  Step-Inv takes h (p, l, w) = (moved (omega arith) refl p, omega arith, w)
  Step-Inv (sends {cell} {c} {q} {r} {n} {seen} {out} {last} {d} f e) h (p, l, w) =
      let before = moved {v = suc (reader_holds r + q)} (omega arith) refl p in
      let got =
        subst
          (λ m.
            Returns m
              (λ x. Phase a x.0 (reader_holds r + q) (ending_one x.1 + closers r holding) out))
          e
          (drop_reference-Phase a cell (reader_holds r + q) (closers r holding) out before
            (omega arith)) in
      let read =
        sym (read_data_lem a cell (reader_holds r + q) (closers r holding) out before) ∙ f in
      (
        moved (omega (arith, sender_after_lem last)) (omega (arith, sender_after_lem last)) got,
        omega (arith, sender_after_lem last),
        (subst (λ m. Returns m (λ x. x ≡ some a)) read refl, w),
      )
  Step-Inv (ends {cell} {c} {q} {r} {n} {seen} {out} {more} e) h (p, l, w) =
      let got =
        subst (λ m. Returns m (λ x. Phase a x.0 (users r q ending) (reader_closes r) (out ++ x.1)))
          e
          (destroy-Phase a cell (users r q ending) (reader_closes r) out
            (moved refl (omega arith) p)) in
      (moved (omega arith) (omega arith) got, omega arith, w)

  pub Reach-Inv : {s : Sharing A} → Reach a s → added s + 1 < 2 ^ 32 → Inv s
  Reach-Inv start h = (alive refl (omega arith) (omega arith) refl, omega arith, tt)
  Reach-Inv (later {s} {t} r st) h = Step-Inv st h (Reach-Inv r (omega (arith, added-Step st)))
