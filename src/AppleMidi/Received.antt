-- ===== src/AppleMidi/Received.antt =====
-- `net_applemidi_unpack` on bytes from the network: where it stays inside the datagram, and where not.
use pimidi.Common.{
  ℕ, ◌+◌, ◌-◌, ◌≤◌, ◌<◌, ◌≡◌, ◌≢◌, refl, ◌∙◌, ◌⊎◌, inl, inr, true, false, Option, none, some, List,
  [], ◌∷◌, arith, length, length-drop, get_or, if◌then◌else◌, tabulate_from, drop, ltb, ◌==◌,
  sub_size, IsSize, Bool-cases,
}
use native.Mathlib.Decide.{dec_lt}
use pimidi.Common.Memory.{Returns, Returns->>=, done, fault, load, memcpy-fault, ◌>>=◌}
use pimidi.Common.Memory.Blit.{memcpy-slice}
use pimidi.Bytes.{big_endian, get_uint16, get_uint32, get_uint64}
use pimidi.AppleMidi.{
  AppleCommand, cmd_feedback, cmd_bitrate, cmd_sync, is_invitation, unpack, unpack_data, unpack_inv,
  unpack_feedback, unpack_bitrate, unpack_sync, unpack_name, strdup, ok, need_data,
}

-- The value of `n` bytes of a buffer.
abbrev value_at : ℕ → List ℕ → ℕ → ℕ
value_at n b p = big_endian 0 (tabulate_from n (λ i. get_or b i 0) p)

read16 :
    (b : List ℕ) (p len : ℕ)
    → p + 2 ≤ length b
    → get_uint16 b p len ≡ done (value_at 2 b p, p + 2, sub_size len 2)
unfolding get_uint16
read16 b p len h = rw (memcpy-slice 2 b p h) refl

read32 :
    (b : List ℕ) (p len : ℕ)
    → p + 4 ≤ length b
    → get_uint32 b p len ≡ done (value_at 4 b p, p + 4, sub_size len 4)
unfolding get_uint32
read32 b p len h = rw (memcpy-slice 4 b p h) refl

read64 :
    (b : List ℕ) (p len : ℕ)
    → p + 8 ≤ length b
    → get_uint64 b p len ≡ done (value_at 8 b p, p + 8, sub_size len 8)
unfolding get_uint64
read64 b p len h = rw (memcpy-slice 8 b p h) refl

-- The answer NEED_DATA without a command, or DONE with one.
unfoldable pub IsAnswer : ℕ × Option AppleCommand → Type 0
IsAnswer (result, none) = result ≡ need_data
IsAnswer (result, some c) = result ≡ ok

-- No byte, or a NUL among them.
unfoldable pub IsEnded : List ℕ → Type 0
IsEnded [] = Unit
IsEnded (c ∷ cs) = (c ≡ 0) ⊎ ((cs ≢ []) × IsEnded cs)

-- The command that a datagram has in its bytes 2 and 3.
abbrev pub command_in : List ℕ → ℕ
command_in b = value_at 2 b 2

-- An invitation has no data at all, or all its numbers and the end of its name.
unfoldable pub IsWhole : List ℕ → Type 0
IsWhole b =
    is_invitation (command_in b) ≡ true → (length b < 12) ⊎ ((16 ≤ length b) × IsEnded (drop 16 b))

strdup_ended : (c : ℕ) (cs : List ℕ) → IsEnded (c ∷ cs) → Returns (strdup (c ∷ cs)) (λ s. Unit)
unfolding IsEnded strdup
strdup_ended c cs (inl e) = let t : (c == 0) ≡ true = ground arith in rw (strdup, t) tt
strdup_ended c [] (inr (h, k)) = absurd (h refl)
strdup_ended c (d ∷ cs) (inr (h, k)) = elim (Bool-cases (c == 0)) [
  | inl e ↦ rw (strdup, e) tt
  | inr e ↦ rw (strdup, e) (Returns->>= (strdup (d ∷ cs)) _ _ _ (strdup_ended d cs k) (λ s u. tt))
]

unpack_feedback_safe :
    (sig cmd : ℕ) (b : List ℕ)
    → 4 ≤ length b
    → Returns (unpack_feedback true sig cmd b 4 (length b - 4)) IsAnswer
unfolding IsAnswer
unpack_feedback_safe sig cmd b h = elim (dec_lt (length b - 4) 8) [
  | yes short ↦ let e : ltb (length b - 4) 8 ≡ true = ground arith in rw e refl
  | no enough ↦
      let e : ltb (length b - 4) 8 ≡ false = ground arith in
      rw
        (
          e,
          read32 b 4 (length b - 4) (omega arith),
          read32 b 8 (sub_size (length b - 4) 4) (omega arith),
        )
        refl
]

unpack_bitrate_safe :
    (sig cmd : ℕ) (b : List ℕ)
    → 4 ≤ length b
    → Returns (unpack_bitrate true sig cmd b 4 (length b - 4)) IsAnswer
unfolding IsAnswer
unpack_bitrate_safe sig cmd b h = elim (dec_lt (length b - 4) 8) [
  | yes short ↦ let e : ltb (length b - 4) 8 ≡ true = ground arith in rw e refl
  | no enough ↦
      let e : ltb (length b - 4) 8 ≡ false = ground arith in
      let n1 = sub_size (length b - 4) 4 in
      rw (e, read32 b 4 (length b - 4) (omega arith), read32 b 8 n1 (omega arith)) refl
]

load-done : (b : List ℕ) (i : ℕ) → i < length b → load b i ≡ done (get_or b i 0)
load-done b i h = let e : ltb i (length b) ≡ true = ground arith in rw e refl

unpack_sync_safe :
    (sig cmd : ℕ) (b : List ℕ)
    → 4 ≤ length b
    → Returns (unpack_sync true sig cmd b 4 (length b - 4)) IsAnswer
unfolding IsAnswer
unpack_sync_safe sig cmd b h = elim (dec_lt (length b - 4) 32) [
  | yes short ↦ let e : ltb (length b - 4) 32 ≡ true = ground arith in rw e refl
  | no enough ↦
      let e : ltb (length b - 4) 32 ≡ false = ground arith in
      let n1 = sub_size (sub_size (sub_size (length b - 4) 4) 1) 3 in
      rw
        (
          e,
          read32 b 4 (length b - 4) (omega arith),
          load-done b 8 (omega arith),
          memcpy-slice 3 b 9 (omega arith),
          read64 b 12 n1 (omega arith),
          read64 b 20 (sub_size n1 8) (omega arith),
          read64 b 28 (sub_size (sub_size n1 8) 8) (omega arith),
        )
        refl
]

unpack_name_safe :
    (b : List ℕ) (len : ℕ)
    → len ≡ length (drop 16 b)
    → IsEnded (drop 16 b)
    → Returns (unpack_name b 16 len) (λ name. Unit)
unpack_name_safe b len e k = named (drop 16 b) len e k
  where
    named :
        (rest : List ℕ) (len' : ℕ)
        → len' ≡ length rest
        → IsEnded rest
        → Returns
            (if ltb 0 len' then (strdup rest >>= λ name. done (some name)) else done none)
            (λ name. Unit)
    named [] len' e' k' = rw e' tt
    named (c ∷ cs) len' e' k' =
        let t : ltb 0 len' ≡ true = ground arith in
        rw t (
          Returns->>= (strdup (c ∷ cs)) (λ name. done (some name)) (λ s. Unit) (λ name. Unit)
            (strdup_ended c cs k') (λ s u. tt))

unpack_inv_safe :
    (sig cmd : ℕ) (b : List ℕ)
    → IsSize (length b)
    → 4 ≤ length b
    → (length b < 12) ⊎ ((16 ≤ length b) × IsEnded (drop 16 b))
    → Returns (unpack_inv true sig cmd b 4 (length b - 4)) IsAnswer
unfolding IsAnswer
unpack_inv_safe sig cmd b z h (inl short) =
    let e : ltb (length b - 4) (16 - 8) ≡ true = ground arith in rw e refl
unpack_inv_safe sig cmd b z h (inr (enough, k)) =
    let e : ltb (length b - 4) (16 - 8) ≡ false = ground arith in
    let n1 = sub_size (length b - 4) 4 in
    rw
      (
        e,
        read32 b 4 (length b - 4) (omega arith),
        read32 b 8 n1 (omega arith),
        read32 b 12 (sub_size n1 4) (omega arith),
      )
      (Returns->>= (unpack_name b 16 (sub_size (sub_size n1 4) 4)) _ (λ name. Unit) IsAnswer
        (unpack_name_safe b (sub_size (sub_size n1 4) 4) (omega (arith, z, length-drop 16 b)) k)
        (λ name u. refl))

unpack_data_safe :
    (sig cmd : ℕ) (b : List ℕ)
    → IsSize (length b)
    → 4 ≤ length b
    → (is_invitation cmd ≡ true → (length b < 12) ⊎ ((16 ≤ length b) × IsEnded (drop 16 b)))
    → Returns (unpack_data true sig cmd b 4 (length b - 4)) IsAnswer
unfolding IsAnswer unpack_data
unpack_data_safe sig cmd b z h w = elim (Bool-cases (is_invitation cmd)) [
  | inl e ↦ rw e (unpack_inv_safe sig cmd b z h (w e))
  | inr e ↦ rw e (elim (Bool-cases (cmd == cmd_feedback)) [
    | inl e1 ↦ rw e1 (unpack_feedback_safe sig cmd b h)
    | inr e1 ↦ rw e1 (elim (Bool-cases (cmd == cmd_bitrate)) [
      | inl e2 ↦ rw e2 (unpack_bitrate_safe sig cmd b h)
      | inr e2 ↦ rw e2 (elim (Bool-cases (cmd == cmd_sync)) [
        | inl e3 ↦ rw e3 (unpack_sync_safe sig cmd b h)
        | inr e3 ↦ rw e3 refl
      ])
    ])
  ])
]

-- What `net_applemidi_unpack` does with a datagram of at least four bytes.
pub unpack_long :
    (b : List ℕ)
    → IsSize (length b)
    → 4 ≤ length b
    → unpack true true (some b) (length b)
      ≡ unpack_data true (value_at 2 b 0) (command_in b) b 4 (length b - 4)
unfolding unpack
unpack_long b z h =
    let e : ltb (length b) 4 ≡ false = ground arith in
    let left : sub_size (sub_size (length b) 2) 2 ≡ length b - 4 = omega (arith, z) in
    rw
      (
        e,
        read16 b 0 (length b) (omega arith),
        read16 b 2 (sub_size (length b) 2) (omega arith),
        left,
      )
      refl

IsAnswer-short :
    (b : List ℕ) → length b < 4 → Returns (unpack true true (some b) (length b)) IsAnswer
unfolding unpack IsAnswer
IsAnswer-short b h = let e : ltb (length b) 4 ≡ true = ground arith in rw e refl

-- `net_applemidi_unpack` of a datagram, passed with its length, reads no byte outside it, and answers
-- NEED_DATA without a command or DONE with one. This is for datagrams of any content and length but
-- those with an invitation's command (IN, OK, NO, BY) that have 12 to 15 bytes, or a name without a
-- NUL: these are left out by a hypothesis. The allocations succeed.
pub unpack-IsAnswer :
    (b : List ℕ)
    → IsSize (length b)
    → IsWhole b
    → Returns (unpack true true (some b) (length b)) IsAnswer
unfolding IsWhole
unpack-IsAnswer b z w = elim (dec_lt (length b) 4) [
  | yes short ↦ IsAnswer-short b short
  | no long ↦
      rw (unpack_long b z (omega arith))
        (unpack_data_safe (value_at 2 b 0) (command_in b) b z (omega arith) w)
]

-- `net_applemidi_unpack` of a datagram of 12 to 15 bytes, passed with its length, whose command is
-- one with an invitation's data, reads past its end. The allocations succeed.
pub unpack_short_invitation :
    (b : List ℕ)
    → is_invitation (command_in b) ≡ true
    → 12 ≤ length b
    → length b < 16
    → unpack true true (some b) (length b) ≡ fault
unfolding unpack_data get_uint32
unpack_short_invitation b i h k =
    let e : ltb (length b - 4) (16 - 8) ≡ false = ground arith in
    let n1 = sub_size (length b - 4) 4 in
    let zeros : List ℕ = 0 ∷ 0 ∷ 0 ∷ 0 ∷ [] in
    unpack_long b (omega arith) (omega arith)
    ∙ rw
        (
          i,
          e,
          memcpy-slice 4 b 4 (omega arith),
          memcpy-slice 4 b 8 (omega arith),
          memcpy-fault zeros 0 b 12 4 (omega arith),
        )
        refl
