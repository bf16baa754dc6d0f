-- ===== src/AppleMidi/Tests.antt =====
-- Invitations with a name.
use pimidi.Common.{ℕ, ◌≡◌, refl, ap, true, some, inr, inl, List, [], ◌∷◌, arith, length}
use pimidi.Common.Memory.{Returns, done}
use pimidi.AppleMidi.{AppleCommand, inv, cmd_inv, is_invitation, pack, unpack, ok}
use pimidi.AppleMidi.Wire.{Fits, FitsData, IsName, IsOptionalName, wire}
use pimidi.AppleMidi.Packed.{Holds}
use pimidi.AppleMidi.RoundTrip.{unpack-pack_apple}
use pimidi.AppleMidi.Received.{IsAnswer, IsEnded, IsWhole, unpack-IsAnswer}

abbrev invitation : AppleCommand
invitation = record {
  signature = 0xffff;
  command = cmd_inv;
  command_data =
      inv (record { ssrc = 0xdeadbeef; version = 2; initiator = 77; name = some (82 ∷ 80 ∷ []) });
}

invitation-Fits : Fits invitation
unfolding Fits FitsData IsOptionalName IsName is_invitation
invitation-Fits = (
  omega arith,
  omega arith,
  (
    refl,
    omega arith,
    omega arith,
    omega arith,
    ((λ e. absurd (omega (arith, e)), (λ e. absurd (omega (arith, e)), tt)), omega arith),
  ),
)

unpack-pack_apple_example :
    Returns (pack true true true (some invitation)) (Holds (wire invitation))
    × (unpack true true (some (wire invitation)) (length (wire invitation))
        ≡ done (ok, some invitation))
unpack-pack_apple_example = unpack-pack_apple invitation invitation-Fits

abbrev whole_invitation : List ℕ
whole_invitation =
    0xff ∷ 0xff ∷ 0x49 ∷ 0x4e ∷ 0 ∷ 0 ∷ 0 ∷ 2 ∷ 0 ∷ 0 ∷ 0 ∷ 77 ∷ 1 ∷ 2 ∷ 3 ∷ 4 ∷ 82 ∷ 0 ∷ []

whole_invitation-IsWhole : IsWhole whole_invitation
unfolding IsWhole IsEnded
whole_invitation-IsWhole e =
    inr (omega arith, inr ((λ n. absurd (omega (arith, ap (λ l. length l) n))), inl refl))

unpack-IsAnswer_example :
    Returns (unpack true true (some whole_invitation) (length whole_invitation)) IsAnswer
unpack-IsAnswer_example = unpack-IsAnswer whole_invitation (omega arith) whole_invitation-IsWhole
