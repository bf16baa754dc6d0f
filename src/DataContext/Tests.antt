-- ===== src/DataContext/Tests.antt =====
-- A datagram with one command.
use pimidi.Common.{ℕ, ◌≤◌, ◌≡◌, refl, true, Option, none, some, List, [], ◌∷◌, length, arith}
use pimidi.DataContext.{DataContext, acquire, drop_reference, destroy, read_data}
use pimidi.DataContext.Shared.{
  left, free, holding, sharing, Reach, start, later, adds, leaves, takes, sends, ends,
}
use pimidi.DataContext.Inv.{AllSeen}
use pimidi.DataContext.Users.{ReaderGoes, SenderGoes, Reach-shared, Reach-freed}

abbrev one_user : DataContext ℕ
one_user = record { data_of = some 5; reference = 1; destroy_func = true }

-- The command is in hand, and the reader has left.
in_hand-Reach : Reach 5 (sharing (some one_user) 0 left holding 1 [] [])
unfolding acquire drop_reference
in_hand-Reach = later (later (later start (adds refl)) (leaves refl)) takes

ended-Reach : Reach {A = ℕ} 5 (sharing none 0 left free 1 (some 5 ∷ []) (some 5 ∷ []))
unfolding read_data drop_reference destroy
ended-Reach = later (later in_hand-Reach (sends refl refl)) (ends refl)

Reach-shared_example :
    ReaderGoes 5 (some one_user) left
    × SenderGoes 5 (some one_user) holding
    × AllSeen {A = ℕ} 5 []
    × (length {A = Option ℕ} [] ≤ 1)
Reach-shared_example = Reach-shared 5 in_hand-Reach (omega arith)

abbrev no_context : Option (DataContext ℕ)
no_context = none

abbrev data_given : List (Option ℕ)
data_given = some 5 ∷ []

Reach-freed_example : (no_context ≡ none) × (data_given ≡ some 5 ∷ [])
Reach-freed_example = Reach-freed 5 ended-Reach (omega arith)
