-- ===== src/AppleMidi/Packed.antt =====
-- What `net_applemidi_pack` puts in its block: the bytes of the command, in front of the block.
use pimidi.Common.{
  ℕ, zero, suc, ◌+◌, ◌-◌, ◌≤◌, ◌<◌, ◌^◌, ◌≡◌, refl, sym, ap, ◌∙◌, true, Option, none, some, List,
  [], ◌∷◌, ◌++◌, append_assoc, append-nil, arith, length, length-append, length-replicate,
  replicate, take, ltb, take_all, add_size,
}
use pimidi.Common.Memory.{Returns, done, store, memcpy, blit}
use pimidi.Common.Memory.Blit.{memcpy-insert, set-append, replicate-add}
use pimidi.Bytes.{network16, network32, put_uint16, put_uint32, put_uint64}
use pimidi.AppleMidi.{
  AppleCommand, CommandData, cmd_sync, Sync, null, unset, inv, sync, feedback, bitrate,
  is_invitation, pack, pack_data, pack_name, realloc, ok,
}
use pimidi.AppleMidi.Wire.{FitsData, IsOptionalName, wire, name_bytes}

take-append : (pre ys : List ℕ) (n : ℕ) → take (length pre + n) (pre ++ ys) ≡ pre ++ take n ys
take-append [] ys n = ap (λ k. take k ys) (omega arith)
take-append (x ∷ pre) ys n =
    ap (λ k. take k (x ∷ (pre ++ ys))) shift ∙ ap (λ t. x ∷ t) (take-append pre ys n)
  where
    shift : suc (length pre) + n ≡ suc (length pre + n)
    shift = omega arith

take-replicate : (m n : ℕ) → m ≤ n → take m (replicate {A = ℕ} n 0) ≡ replicate m 0
take-replicate zero n h = refl
take-replicate (suc m) zero h = absurd (omega arith)
take-replicate (suc m) (suc n) h = ap (λ t. 0 ∷ t) (take-replicate m n (omega arith))

-- A block with room behind `pre`, brought to another size.
realloc-append :
    (pre : List ℕ) (room n : ℕ)
    → realloc (pre ++ replicate room 0) (length pre + n) ≡ pre ++ replicate n 0
realloc-append pre room n =
    ap (λ t. take (length pre + n) t)
      (append_assoc pre (replicate room 0) (replicate more 0)
        ∙ ap (λ t. pre ++ t) (sym (replicate-add room more)))
    ∙ take-append pre (replicate (room + more) 0) n
    ∙ ap (λ t. pre ++ t) (take-replicate n (room + more) (omega (arith, size, zeros)))
  where
    more : ℕ
    more = length pre + n - length (pre ++ replicate {A = ℕ} room 0)

    size : length (pre ++ replicate {A = ℕ} room 0) ≡ length pre + length (replicate {A = ℕ} room 0)
    size = length-append pre (replicate room 0)

    zeros : length (replicate {A = ℕ} room 0) ≡ room
    zeros = length-replicate room 0

store-append :
    (pre : List ℕ) (o v : ℕ) → store (pre ++ (o ∷ [])) (length pre) v ≡ done (pre ++ (v ∷ []))
store-append pre o v =
    let inside : ltb (length pre) (length (pre ++ (o ∷ []))) ≡ true =
      ground (arith, length-append pre (o ∷ [])) in
    rw inside (ap (λ b. done b) (set-append pre o [] v ∙ append-nil (pre ++ (v ∷ []))))

take-prefix : (pre ys : List ℕ) → take (length pre) (pre ++ ys) ≡ pre
take-prefix [] ys = refl
take-prefix (x ∷ pre) ys = ap (λ t. x ∷ t) (take-prefix pre ys)

-- The block is `bytes` in front, and `n` is their number.
unfoldable pub Holds : List ℕ → ℕ × Option (List ℕ) × ℕ → Type 0
Holds bytes (result, none, n) = ⊥
Holds bytes (result, some block, n) =
    (result ≡ ok) × (n ≡ length bytes) × (take (length bytes) block ≡ bytes)

-- The name of an invitation goes behind its fields.
pack_name_lem :
    (pre : List ℕ) (name : Option (List ℕ))
    → length pre + 4 < 2 ^ 62
    → IsOptionalName name
    → Returns
        (pack_name true name (pre ++ replicate 4 0) (length pre))
        (Holds (pre ++ name_bytes name))
unfolding IsOptionalName Holds
pack_name_lem pre none s h = (
  refl,
  ap (λ t. length t) (sym (append-nil pre)),
  ap (λ t. take (length t) (pre ++ replicate 4 0)) (append-nil pre)
      ∙ take-prefix pre (replicate 4 0)
      ∙ sym (append-nil pre),
)
pack_name_lem pre (some name) s (h1, h2) = rw (fits, resized, copied, ended) (refl, size, whole)
  where
    bytes : List ℕ
    bytes = pre ++ (name ++ (0 ∷ []))

    size : length pre + (length name + 1) ≡ length bytes
    size = omega (arith, length-append pre (name ++ (0 ∷ [])), length-append name (0 ∷ []))

    fits : add_size (add_size (length pre) (length name)) 1 ≡ length pre + (length name + 1)
    fits = omega (arith, s, h2)

    resized :
        realloc (pre ++ replicate 4 0) (length pre + (length name + 1))
        ≡ pre ++ (replicate (length name) 0 ++ replicate 1 0)
    resized =
        realloc-append pre 4 (length name + 1) ∙ ap (λ t. pre ++ t) (replicate-add (length name) 1)

    copied :
        memcpy
          (pre ++ (replicate (length name) 0 ++ replicate 1 0))
          (length pre)
          name
          0
          (length name)
        ≡ done (pre ++ (name ++ (0 ∷ [])))
    copied = memcpy-insert pre name 1

    ended : store bytes (length pre + length name) 0 ≡ done bytes
    ended =
        ap (λ b. store b (length pre + length name) 0) (sym (append_assoc pre name (0 ∷ [])))
        ∙ ap (λ k. store ((pre ++ name) ++ (0 ∷ [])) k 0) (sym (length-append pre name))
        ∙ store-append (pre ++ name) 0 0
        ∙ ap (λ b. done b) (append_assoc pre name (0 ∷ []))

    whole : take (length bytes) bytes ≡ bytes
    whole = take_all bytes

abbrev pub command_of : ℕ → ℕ → CommandData → AppleCommand
command_of sig cmd d = record { signature = sig; command = cmd; command_data = d }

pack_padding :
    (sig cmd : ℕ) (s : Sync) (padding : List ℕ)
    → length padding ≡ 3
    → (cmd ≡ cmd_sync)
    → s.padding ≡ padding
    → Returns
        (pack true true true (some (command_of sig cmd (sync s))))
        (Holds (wire (command_of sig cmd (sync s))))
unfolding pack pack_data is_invitation put_uint16 put_uint32 put_uint64 blit Holds
pack_padding sig cmd s (a ∷ b ∷ c ∷ []) h e p = rw (e, p) (refl, refl, refl)
pack_padding sig cmd s [] h e p = absurd (omega (arith, h))
pack_padding sig cmd s (a ∷ []) h e p = absurd (omega (arith, h))
pack_padding sig cmd s (a ∷ b ∷ []) h e p = absurd (omega (arith, h))
pack_padding sig cmd s (a ∷ b ∷ c ∷ d ∷ t) h e p = absurd (omega (arith, h))

-- `net_applemidi_pack` of a command whose data belongs to it and fits: the block starts with the
-- command's bytes, and the length is theirs.
pub pack_command :
    (sig cmd : ℕ) (d : CommandData)
    → FitsData cmd d
    → Returns
        (pack true true true (some (command_of sig cmd d)))
        (Holds (wire (command_of sig cmd d)))
unfolding pack pack_data put_uint16 put_uint32 FitsData blit Holds is_invitation
pack_command sig cmd null h = absurd h
pack_command sig cmd unset h = absurd h
pack_command sig cmd (inv i) (e, _, _, _, n) = rw e (
    pack_name_lem
      (network16 sig
        ++ (network16 cmd ++ (network32 i.version ++ (network32 i.initiator ++ network32 i.ssrc))))
      i.name (omega arith) n)
pack_command sig cmd (sync s) (e, _, p, _, _, _) = pack_padding sig cmd s s.padding p e refl
pack_command sig cmd (feedback f) (e, _, _) = rw e (refl, refl, refl)
pack_command sig cmd (bitrate r) (e, _, _) = rw e (refl, refl, refl)
