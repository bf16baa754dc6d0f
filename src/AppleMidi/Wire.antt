-- ===== src/AppleMidi/Wire.antt =====
-- The bytes of an AppleMIDI command, as the protocol has them, and the commands that have them.
use pimidi.Common.{ℕ, ◌<◌, ◌^◌, ◌≡◌, ◌≢◌, true, Option, none, some, List, [], ◌∷◌, ◌++◌, length}
use pimidi.Bytes.{network16, network32, network64}
use pimidi.AppleMidi.{
  AppleCommand, CommandData, null, unset, inv, sync, feedback, bitrate, is_invitation, cmd_feedback,
  cmd_bitrate, cmd_sync,
}

-- The characters of a C string.
unfoldable pub IsName : List ℕ → Type 0
IsName [] = Unit
IsName (c ∷ cs) = (c ≢ 0) × (IsName cs)

unfoldable pub IsOptionalName : Option (List ℕ) → Type 0
IsOptionalName none = Unit
IsOptionalName (some name) = (IsName name) × (length name < 2 ^ 62)

-- The data belongs to the command, and its fields fit their widths.
unfoldable pub FitsData : ℕ → CommandData → Type 0
FitsData command null = ⊥
FitsData command unset = ⊥
FitsData command (inv i) =
    (is_invitation command ≡ true)
    × (i.ssrc < 2 ^ 32)
    × (i.version < 2 ^ 32)
    × (i.initiator < 2 ^ 32)
    × (IsOptionalName i.name)
FitsData command (sync s) =
    (command ≡ cmd_sync)
    × (s.ssrc < 2 ^ 32)
    × (length s.padding ≡ 3)
    × (s.timestamp1 < 2 ^ 64)
    × (s.timestamp2 < 2 ^ 64)
    × (s.timestamp3 < 2 ^ 64)
FitsData command (feedback f) =
    (command ≡ cmd_feedback) × (f.ssrc < 2 ^ 32) × (f.apple_seq < 2 ^ 32)
FitsData command (bitrate r) = (command ≡ cmd_bitrate) × (r.ssrc < 2 ^ 32) × (r.limit < 2 ^ 32)

unfoldable pub Fits : AppleCommand → Type 0
Fits c = (c.signature < 2 ^ 16) × (c.command < 2 ^ 16) × (FitsData c.command c.command_data)

abbrev pub name_bytes : Option (List ℕ) → List ℕ
name_bytes none = []
name_bytes (some name) = name ++ (0 ∷ [])

abbrev pub data_bytes : CommandData → List ℕ
data_bytes null = []
data_bytes unset = []
data_bytes (inv i) =
    network32 i.version ++ (network32 i.initiator ++ (network32 i.ssrc ++ name_bytes i.name))
data_bytes (sync s) =
    network32 s.ssrc
    ++ ((s.count ∷ s.padding)
        ++ (network64 s.timestamp1 ++ (network64 s.timestamp2 ++ network64 s.timestamp3)))
data_bytes (feedback f) = network32 f.ssrc ++ network32 f.apple_seq
data_bytes (bitrate r) = network32 r.ssrc ++ network32 r.limit

-- Signature, command, data.
abbrev pub wire : AppleCommand → List ℕ
wire c = network16 c.signature ++ (network16 c.command ++ data_bytes c.command_data)
