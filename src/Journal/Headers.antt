-- ===== src/Journal/Headers.antt =====
-- raveloxmidi/src/midi_journal.c, the headers of the journal and of a channel in their packed form.
-- Allocations succeed.
use pimidi.Common.{
  ℕ, ◌+◌, ◌-◌, ◌*◌, ◌/◌, ◌%◌, ◌^◌, ◌≤◌, ◌<◌, ◌≡◌, refl, ap, List, [], ◌∷◌, ◌++◌, bit_and, bit_or,
  if◌then◌else◌, ◌==◌, arith,
}
use pimidi.Common.Bits.{zero-bit_or, bit_or-add, bit_and-0x01, bit_and-0x0f, bit_and-0x3ff}
use pimidi.Bytes.{network16}
use pimidi.Journal.{Channel, Journal}

-- A number counted from 1, as it is packed.
abbrev from_zero : ℕ → ℕ
from_zero n = if n == 0 then 0 else n - 1

-- `journal_header_pack`.
unfoldable pub pack_header : Journal → List ℕ
pack_header j =
    (bit_or (bit_or 0 (bit_and j.bitfield 0x0f * 2 ^ 4)) (bit_and (from_zero j.totchan) 0x0f)
      % 2 ^ 8)
    ∷ network16 j.seq

-- The first 16 bits of a channel header.
abbrev channel_bits : Channel → ℕ
channel_bits ch =
    let t1 = bit_or 0 (ch.s * 2 ^ 15) % 2 ^ 16 in
    let t2 = bit_or t1 (bit_and (from_zero ch.chan) 0x0f * 2 ^ 11) % 2 ^ 16 in
    let t3 = bit_or t2 (bit_and ch.h 0x01 * 2 ^ 10) % 2 ^ 16 in
    bit_or t3 (bit_and ch.len 0x03ff) % 2 ^ 16

-- `channel_header_pack`.
unfoldable pub pack_channel_header : Channel → List ℕ
pack_channel_header ch = network16 (channel_bits ch) ++ (ch.bitfield ∷ [])

-- The three bytes of a channel header, by the figure of RFC 6295: the flag S, the channel from 0 in
-- four bits, the flag H, the length in ten bits, and the flags of the chapters.
abbrev rfc_channel_header : Channel → List ℕ
rfc_channel_header ch =
    (ch.s * 128 + (ch.chan - 1) * 8 + ch.h * 4 + ch.len / 256) ∷ (ch.len % 256) ∷ ch.bitfield ∷ []

pub record Fits (ch : Channel) : Type 0 where
  pub s_fits : ch.s < 2
  pub chan_fits : ch.chan < 16
  pub h_fits : ch.h < 2
  pub len_fits : ch.len < 1024

channel_bits_lem :
    (ch : Channel)
    → Fits ch
    → channel_bits ch ≡ ((ch.s * 16 + (ch.chan - 1)) * 2 + ch.h) * 2 ^ 10 + ch.len
channel_bits_lem ch f = rw (e1, e2, e3) e4
  where
    number : bit_and (from_zero ch.chan) 0x0f ≡ ch.chan - 1
    number = ground (arith, bit_and-0x0f (from_zero ch.chan))

    e1 : bit_or 0 (ch.s * 2 ^ 15) % 2 ^ 16 ≡ ch.s * 2 ^ 15
    e1 = omega (arith, f, zero-bit_or (ch.s * 2 ^ 15))

    e2 :
        bit_or (ch.s * 2 ^ 15) (bit_and (from_zero ch.chan) 0x0f * 2 ^ 11) % 2 ^ 16
        ≡ (ch.s * 16 + (ch.chan - 1)) * 2 ^ 11
    e2 =
        rw number (omega (arith, f, bit_or-add 15 ch.s ((ch.chan - 1) * 2 ^ 11) (omega (arith, f))))

    e3 :
        bit_or ((ch.s * 16 + (ch.chan - 1)) * 2 ^ 11) (bit_and ch.h 0x01 * 2 ^ 10) % 2 ^ 16
        ≡ ((ch.s * 16 + (ch.chan - 1)) * 2 + ch.h) * 2 ^ 10
    e3 = omega (
      arith,
      f,
      bit_and-0x01 ch.h,
      bit_or-add 11 (ch.s * 16 + (ch.chan - 1)) (bit_and ch.h 0x01 * 2 ^ 10)
          (omega (arith, f, bit_and-0x01 ch.h)),
    )

    e4 :
        bit_or (((ch.s * 16 + (ch.chan - 1)) * 2 + ch.h) * 2 ^ 10) (bit_and ch.len 0x03ff) % 2 ^ 16
        ≡ ((ch.s * 16 + (ch.chan - 1)) * 2 + ch.h) * 2 ^ 10 + ch.len
    e4 = omega (
      arith,
      f,
      bit_and-0x3ff ch.len,
      bit_or-add 10 ((ch.s * 16 + (ch.chan - 1)) * 2 + ch.h) (bit_and ch.len 0x03ff)
          (omega (arith, f, bit_and-0x3ff ch.len)),
    )

-- `channel_header_pack` of a header whose fields fit their widths gives the three bytes of the figure
-- in RFC 6295.
pack_channel_header_lem : (ch : Channel) → Fits ch → pack_channel_header ch ≡ rfc_channel_header ch
unfolding pack_channel_header
pack_channel_header_lem ch f = rw (channel_bits_lem ch f) (rw (high, low) refl)
  where
    t : ℕ
    t = ((ch.s * 16 + (ch.chan - 1)) * 2 + ch.h) * 2 ^ 10 + ch.len

    high : t / 256 % 256 ≡ ch.s * 128 + (ch.chan - 1) * 8 + ch.h * 4 + ch.len / 256
    high = omega (arith, f)

    low : t % 256 ≡ ch.len % 256
    low = omega (arith, f)

-- `journal_header_pack` of four flags and a count of 1 to 16 channels gives the three bytes of the
-- figure in RFC 6295: the flags, the count less 1 in four bits, the sequence number.
pack_header_lem :
    (j : Journal)
    → j.bitfield < 16
    → 0 < j.totchan
    → j.totchan ≤ 16
    → pack_header j ≡ (j.bitfield * 16 + (j.totchan - 1)) ∷ network16 j.seq
unfolding pack_header
pack_header_lem j f lo hi = ap (λ b. b ∷ network16 j.seq) first
  where
    number : bit_and (from_zero j.totchan) 0x0f ≡ j.totchan - 1
    number = ground (arith, bit_and-0x0f (from_zero j.totchan))

    flags : bit_or 0 (bit_and j.bitfield 0x0f * 2 ^ 4) ≡ j.bitfield * 2 ^ 4
    flags = omega (arith, zero-bit_or (bit_and j.bitfield 0x0f * 2 ^ 4), bit_and-0x0f j.bitfield)

    first :
        bit_or (bit_or 0 (bit_and j.bitfield 0x0f * 2 ^ 4)) (bit_and (from_zero j.totchan) 0x0f)
          % 2 ^ 8
        ≡ j.bitfield * 16 + (j.totchan - 1)
    first =
        rw (flags, number) (omega (arith, bit_or-add 4 j.bitfield (j.totchan - 1) (omega arith)))
