-- ===== src/AppleMidi/RoundTrip.antt =====
-- A command that is packed is unpacked to itself.
use pimidi.Common.{
  ℕ, ◌+◌, ◌-◌, ◌<◌, ◌^◌, ◌≡◌, refl, sym, subst, ◌∙◌, true, false, Option, none, some, List, [], ◌∷◌,
  ◌++◌, arith, length, length-append, ltb, ◌==◌, sub_size, drop, IsSize,
}
use pimidi.Common.Memory.{Returns, done, memcpy-done, blit}
use pimidi.Bytes.{network16, network32, network64, get_uint16, get_uint32, get_uint64}
use pimidi.Bytes.Laws.{big_endian-network16, big_endian-network32, big_endian-network64}
use pimidi.AppleMidi.{
  AppleCommand, CommandData, cmd_sync, cmd_feedback, cmd_bitrate, Inv, Feedback, Bitrate, null,
  unset, inv, sync, feedback, bitrate, is_invitation, pack, unpack, unpack_data, unpack_inv,
  unpack_sync, unpack_name, strdup, ok,
}
use pimidi.AppleMidi.Wire.{Fits, FitsData, IsName, IsOptionalName, wire, data_bytes, name_bytes}
use pimidi.AppleMidi.Packed.{Holds, command_of, pack_command}

strdup-name : (name : List ℕ) → IsName name → strdup (name ++ (0 ∷ [])) ≡ done name
unfolding IsName strdup
strdup-name [] h = refl
strdup-name (c ∷ cs) (h, k) =
    let e : (c == 0) ≡ false = ground arith in rw (strdup, e, strdup-name cs k) refl

unpack_name_lem :
    (pre : List ℕ) (name : Option (List ℕ))
    → IsOptionalName name
    → drop 16 (pre ++ name_bytes name) ≡ name_bytes name
    → unpack_name (pre ++ name_bytes name) 16 (length (name_bytes name)) ≡ done name
unfolding IsOptionalName
unpack_name_lem pre none h e = refl
unpack_name_lem pre (some name) (h, _) e =
    let some_left : ltb 0 (length (name ++ (0 ∷ []))) ≡ true =
      ground (arith, length-append name (0 ∷ [])) in
    rw (some_left, e, strdup-name name h) refl

abbrev header_bytes : ℕ → ℕ → List ℕ → List ℕ
header_bytes sig cmd body = network16 sig ++ (network16 cmd ++ body)

-- The signature and the command.
unpack_header :
    (sig cmd : ℕ) (body : List ℕ)
    → sig < 2 ^ 16
    → cmd < 2 ^ 16
    → IsSize (4 + length body)
    → unpack true true (some (header_bytes sig cmd body)) (length (header_bytes sig cmd body))
      ≡ unpack_data true sig cmd (header_bytes sig cmd body) 4 (length body)
unfolding unpack get_uint16 blit
unpack_header sig cmd body s c h =
    let b = header_bytes sig cmd body in
    let enough : ltb (length b) 4 ≡ false = ground arith in
    let left : sub_size (sub_size (length b) 2) 2 ≡ length body = omega (arith, h) in
    rw
      (
        enough,
        memcpy-done (0 ∷ 0 ∷ []) 0 b 0 2 (omega arith) (omega arith),
        memcpy-done (0 ∷ 0 ∷ []) 0 b 2 2 (omega arith) (omega arith),
        big_endian-network16 sig s,
        big_endian-network16 cmd c,
        left,
      )
      refl

unpack_inv_lem :
    (sig cmd : ℕ) (i : Inv)
    → i.ssrc < 2 ^ 32
    → i.version < 2 ^ 32
    → i.initiator < 2 ^ 32
    → IsOptionalName i.name
    → IsSize (16 + length (name_bytes i.name))
    → unpack_inv true sig cmd (wire (command_of sig cmd (inv i))) 4 (length (data_bytes (inv i)))
      ≡ done (ok, some (command_of sig cmd (inv i)))
unfolding get_uint32 blit
unpack_inv_lem sig cmd i f1 f2 f3 n z =
    let b = wire (command_of sig cmd (inv i)) in
    let k = length (name_bytes i.name) in
    let enough : ltb (length (data_bytes (inv i))) (16 - 8) ≡ false = ground arith in
    let left : sub_size (sub_size (sub_size (length (data_bytes (inv i))) 4) 4) 4 ≡ k =
      omega (arith, z) in
    let zeros : List ℕ = 0 ∷ 0 ∷ 0 ∷ 0 ∷ [] in
    let name : unpack_name b 16 k ≡ done i.name =
      unpack_name_lem
        (header_bytes sig cmd (network32 i.version ++ (network32 i.initiator ++ network32 i.ssrc)))
        i.name n refl in
    rw
      (
        enough,
        memcpy-done zeros 0 b 4 4 (omega arith) (omega arith),
        memcpy-done zeros 0 b 8 4 (omega arith) (omega arith),
        memcpy-done zeros 0 b 12 4 (omega arith) (omega arith),
        left,
        name,
        big_endian-network32 i.version f2,
        big_endian-network32 i.initiator f3,
        big_endian-network32 i.ssrc f1,
      )
      refl

abbrev sync_of : ℕ → ℕ → List ℕ → ℕ → ℕ → ℕ → CommandData
sync_of ssrc count padding t1 t2 t3 = sync (record {
  ssrc = ssrc;
  count = count;
  padding = padding;
  timestamp1 = t1;
  timestamp2 = t2;
  timestamp3 = t3;
})

unpack_sync_lem :
    (sig ssrc count : ℕ) (padding : List ℕ) (t1 t2 t3 : ℕ)
    → ssrc < 2 ^ 32
    → length padding ≡ 3
    → t1 < 2 ^ 64
    → t2 < 2 ^ 64
    → t3 < 2 ^ 64
    → unpack_sync true sig cmd_sync
        (wire (command_of sig cmd_sync (sync_of ssrc count padding t1 t2 t3)))
        4
        (length (data_bytes (sync_of ssrc count padding t1 t2 t3)))
      ≡ done (ok, some (command_of sig cmd_sync (sync_of ssrc count padding t1 t2 t3)))
unfolding get_uint32 get_uint64 blit
unpack_sync_lem sig ssrc count (a ∷ b ∷ c ∷ []) t1 t2 t3 f1 h f2 f3 f4 =
    rw
      (
        big_endian-network32 ssrc f1,
        big_endian-network64 t1 f2,
        big_endian-network64 t2 f3,
        big_endian-network64 t3 f4,
      )
      refl
unpack_sync_lem sig ssrc count [] t1 t2 t3 f1 h f2 f3 f4 = absurd (omega (arith, h))
unpack_sync_lem sig ssrc count (a ∷ []) t1 t2 t3 f1 h f2 f3 f4 = absurd (omega (arith, h))
unpack_sync_lem sig ssrc count (a ∷ b ∷ []) t1 t2 t3 f1 h f2 f3 f4 = absurd (omega (arith, h))
unpack_sync_lem sig ssrc count (a ∷ b ∷ c ∷ d ∷ t) t1 t2 t3 f1 h f2 f3 f4 =
    absurd (omega (arith, h))

name-IsSize :
    (name : Option (List ℕ)) → IsOptionalName name → IsSize (16 + length (name_bytes name))
unfolding IsOptionalName
name-IsSize none h = omega arith
name-IsSize (some name) (_, h) = omega (arith, h, length-append name (0 ∷ []))

sync_dispatch :
    (sig : ℕ) (b : List ℕ) (p len : ℕ)
    → unpack_data true sig cmd_sync b p len ≡ unpack_sync true sig cmd_sync b p len
unfolding unpack_data is_invitation
sync_dispatch sig b p len = refl

unpack_feedback_lem :
    (sig : ℕ) (f : Feedback)
    → f.ssrc < 2 ^ 32
    → f.apple_seq < 2 ^ 32
    → unpack_data true sig cmd_feedback (wire (command_of sig cmd_feedback (feedback f))) 4 8
      ≡ done (ok, some (command_of sig cmd_feedback (feedback f)))
unfolding unpack_data is_invitation get_uint32 blit
unpack_feedback_lem sig f f1 f2 =
    rw (big_endian-network32 f.ssrc f1, big_endian-network32 f.apple_seq f2) refl

unpack_bitrate_lem :
    (sig : ℕ) (r : Bitrate)
    → r.ssrc < 2 ^ 32
    → r.limit < 2 ^ 32
    → unpack_data true sig cmd_bitrate (wire (command_of sig cmd_bitrate (bitrate r))) 4 8
      ≡ done (ok, some (command_of sig cmd_bitrate (bitrate r)))
unfolding unpack_data is_invitation get_uint32 blit
unpack_bitrate_lem sig r f1 f2 =
    rw (big_endian-network32 r.ssrc f1, big_endian-network32 r.limit f2) refl

data-IsSize : (cmd : ℕ) (d : CommandData) → FitsData cmd d → IsSize (4 + length (data_bytes d))
unfolding FitsData
data-IsSize cmd null h = absurd h
data-IsSize cmd unset h = absurd h
data-IsSize cmd (inv i) (_, _, _, _, n) = omega (arith, name-IsSize i.name n)
data-IsSize cmd (sync y) (_, _, p, _, _, _) =
    let times : List ℕ =
      network64 y.timestamp1 ++ (network64 y.timestamp2 ++ network64 y.timestamp3) in
    omega (arith, p, length-append y.padding times)
data-IsSize cmd (feedback f) h = omega arith
data-IsSize cmd (bitrate r) h = omega arith

-- The data, as the command says.
unpack_body :
    (sig cmd : ℕ) (d : CommandData)
    → FitsData cmd d
    → unpack_data true sig cmd (wire (command_of sig cmd d)) 4 (length (data_bytes d))
      ≡ done (ok, some (command_of sig cmd d))
unfolding unpack_data FitsData
unpack_body sig cmd null h = absurd h
unpack_body sig cmd unset h = absurd h
unpack_body sig cmd (inv i) (e, f1, f2, f3, n) =
    rw e (unpack_inv_lem sig cmd i f1 f2 f3 n (name-IsSize i.name n))
unpack_body sig cmd (sync y) (e, f1, p, f2, f3, f4) =
    subst
      (λ k.
        unpack_data true sig k (wire (command_of sig k (sync y))) 4 (length (data_bytes (sync y)))
        ≡ done (ok, some (command_of sig k (sync y))))
      (sym e)
      (sync_dispatch sig (wire (command_of sig cmd_sync (sync y))) 4 (length (data_bytes (sync y)))
        ∙ unpack_sync_lem sig y.ssrc y.count y.padding y.timestamp1 y.timestamp2 y.timestamp3 f1 p
            f2 f3 f4)
unpack_body sig cmd (feedback f) (e, f1, f2) =
    subst
      (λ k.
        unpack_data true sig k (wire (command_of sig k (feedback f))) 4 8
        ≡ done (ok, some (command_of sig k (feedback f))))
      (sym e) (unpack_feedback_lem sig f f1 f2)
unpack_body sig cmd (bitrate r) (e, f1, f2) =
    subst
      (λ k.
        unpack_data true sig k (wire (command_of sig k (bitrate r))) 4 8
        ≡ done (ok, some (command_of sig k (bitrate r))))
      (sym e) (unpack_bitrate_lem sig r f1 f2)

-- `net_applemidi_pack` of a command of any kind gives the bytes that the protocol has for it, at the
-- front of its block and as many as its length says, and `net_applemidi_unpack` makes the same
-- command of these bytes. The data belongs to the command, its fields fit their widths, and the
-- allocations succeed.
pub unpack-pack_apple :
    (c : AppleCommand)
    → Fits c
    → Returns (pack true true true (some c)) (Holds (wire c))
      × (unpack true true (some (wire c)) (length (wire c)) ≡ done (ok, some c))
unfolding Fits
unpack-pack_apple c (s, m, h) = (
  pack_command c.signature c.command c.command_data h,
  unpack_header c.signature c.command (data_bytes c.command_data) s m
        (data-IsSize c.command c.command_data h)
      ∙ unpack_body c.signature c.command c.command_data h,
)
