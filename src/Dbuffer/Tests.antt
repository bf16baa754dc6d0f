-- ===== src/Dbuffer/Tests.antt =====
-- The byte buffer on concrete bytes.
use pimidi.Common.{◌≡◌, refl, true, [], ◌∷◌}
use pimidi.Common.Memory.{done, blit}
use pimidi.Dbuffer.{Dbuffer, read}

-- Three bytes in a block of four.
abbrev three : Dbuffer
three = record { len = 3; num_blocks = 1; block_size = 4; bytes = 0x90 ∷ 60 ∷ 64 ∷ 0 ∷ [] }

read-three : read true three ≡ done (3, 0x90 ∷ 60 ∷ 64 ∷ [])
unfolding read blit
read-three = refl
