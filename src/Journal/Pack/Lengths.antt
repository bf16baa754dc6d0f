-- ===== src/Journal/Pack/Lengths.antt =====
-- The length that the header of a packed channel has.
use pimidi.Common.{◌<◌, ◌≡◌, Option, none, some, length}
use pimidi.Journal.{ChapterN}

-- The places of the NOTE OFFs are in the block of 16 bytes.
unfoldable pub IsPlaced : Option ChapterN → Type 0
IsPlaced none = Unit
IsPlaced (some n) = (n.high < 16) × (length n.offbits ≡ 16)
