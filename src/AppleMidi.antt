-- ===== src/AppleMidi.antt =====
-- raveloxmidi/src/net_applemidi.c: the commands of the AppleMIDI session protocol, packed and
-- unpacked. A pointer's `char` strings are lists of their characters without the NUL. The booleans
-- are the answers of the allocations in their order; pointers have 8 bytes.
pub mod Wire
pub mod Packed
pub mod RoundTrip
pub mod Received
mod Tests
use pimidi.Common.{
  ℕ, ◌+◌, ◌-◌, Bool, true, false, ◌&&◌, ◌||◌, Option, none, some, List, [], ◌∷◌, ◌++◌,
  if◌then◌else◌, ltb, ◌==◌, length, replicate, take, drop, add_size, sub_size,
}
use pimidi.Common.Memory.{Exec, done, fault, ◌>>=◌, memcpy, load, store}
use pimidi.Bytes.{put_uint16, put_uint32, put_uint64, get_uint16, get_uint32, get_uint64}

-- `NET_APPLEMIDI_DONE`, `NET_APPLEMIDI_NEED_DATA`, `NET_APPLEMIDI_NO_MEMORY`.
abbrev pub ok : ℕ
ok = 0

abbrev pub need_data : ℕ
need_data = 1

abbrev no_memory : ℕ
no_memory = 2

-- `NET_APPLEMIDI_CMD_INV` ….
abbrev pub cmd_inv : ℕ
cmd_inv = 0x494e

abbrev pub cmd_sync : ℕ
cmd_sync = 0x434b

abbrev pub cmd_accept : ℕ
cmd_accept = 0x4f4b

abbrev pub cmd_reject : ℕ
cmd_reject = 0x4e4f

abbrev pub cmd_end : ℕ
cmd_end = 0x4259

abbrev pub cmd_feedback : ℕ
cmd_feedback = 0x5253

abbrev pub cmd_bitrate : ℕ
cmd_bitrate = 0x524c

-- `net_applemidi_inv`.
pub record Inv : Type 0 where
  pub ssrc : ℕ
  pub version : ℕ
  pub initiator : ℕ
  pub name : Option (List ℕ)

-- `net_applemidi_sync`. `count` is the byte that stands for the `char`.
pub record Sync : Type 0 where
  pub ssrc : ℕ
  pub count : ℕ
  pub padding : List ℕ
  pub timestamp1 : ℕ
  pub timestamp2 : ℕ
  pub timestamp3 : ℕ

-- `net_applemidi_feedback`; the union is its 32-bit member.
pub record Feedback : Type 0 where
  pub ssrc : ℕ
  pub apple_seq : ℕ

-- `net_applemidi_bitrate`.
pub record Bitrate : Type 0 where
  pub ssrc : ℕ
  pub limit : ℕ

-- What the `void *` of a command points to; `unset` is a pointer that nothing was assigned to.
pub data CommandData : Type 0 where
  null : CommandData
  unset : CommandData
  inv : Inv → CommandData
  sync : Sync → CommandData
  feedback : Feedback → CommandData
  bitrate : Bitrate → CommandData

-- `net_applemidi_command`.
pub record AppleCommand : Type 0 where
  pub signature : ℕ
  pub command : ℕ
  pub command_data : CommandData

-- The commands that have an invitation's data.
unfoldable pub is_invitation : ℕ → Bool
is_invitation command =
    (command == cmd_inv)
    || ((command == cmd_accept) || ((command == cmd_reject) || (command == cmd_end)))

-- `net_applemidi_cmd_create`.
abbrev cmd_create : Bool → ℕ → Option AppleCommand
cmd_create mem command =
    if mem
    then some (record { signature = 0xffff; command = command; command_data = null })
    else none

-- `strdup`: the characters up to the NUL, which has to be inside the object.
unfoldable pub strdup : List ℕ → Exec (List ℕ)
strdup [] = fault
strdup (c ∷ cs) = elim (c == 0) [ true ↦ done [] | false ↦ strdup cs >>= λ s. done (c ∷ s) ]

-- The name is what is left of the buffer.
abbrev pub unpack_name : List ℕ → ℕ → ℕ → Exec (Option (List ℕ))
unpack_name buffer p len =
    if ltb 0 len then (strdup (drop p buffer) >>= λ name. done (some name)) else done none

-- An invitation's data.
abbrev pub unpack_inv : Bool → ℕ → ℕ → List ℕ → ℕ → ℕ → Exec (ℕ × Option AppleCommand)
unpack_inv mem signature command buffer p len =
    if ltb len (16 - 8)
    then done (need_data, none)
    else if mem
    then (do
      (version, p1, n1) ← get_uint32 buffer p len
      (initiator, p2, n2) ← get_uint32 buffer p1 n1
      (ssrc, p3, n3) ← get_uint32 buffer p2 n2
      name ← unpack_name buffer p3 n3
      done (
        ok,
        some (record {
          signature = signature;
          command = command;
          command_data =
              inv (record { ssrc = ssrc; version = version; initiator = initiator; name = name });
        }),
      ))
    else done (no_memory, none)

abbrev pub unpack_feedback : Bool → ℕ → ℕ → List ℕ → ℕ → ℕ → Exec (ℕ × Option AppleCommand)
unpack_feedback mem signature command buffer p len =
    if ltb len 8
    then done (need_data, none)
    else if mem
    then (do
      (ssrc, p1, n1) ← get_uint32 buffer p len
      (apple_seq, p2, n2) ← get_uint32 buffer p1 n1
      done (
        ok,
        some (record {
          signature = signature;
          command = command;
          command_data = feedback (record { ssrc = ssrc; apple_seq = apple_seq });
        }),
      ))
    else done (no_memory, none)

abbrev pub unpack_bitrate : Bool → ℕ → ℕ → List ℕ → ℕ → ℕ → Exec (ℕ × Option AppleCommand)
unpack_bitrate mem signature command buffer p len =
    if ltb len 8
    then done (need_data, none)
    else if mem
    then (do
      (ssrc, p1, n1) ← get_uint32 buffer p len
      (limit, p2, n2) ← get_uint32 buffer p1 n1
      done (
        ok,
        some (record {
          signature = signature;
          command = command;
          command_data = bitrate (record { ssrc = ssrc; limit = limit });
        }),
      ))
    else done (no_memory, none)

abbrev pub unpack_sync : Bool → ℕ → ℕ → List ℕ → ℕ → ℕ → Exec (ℕ × Option AppleCommand)
unpack_sync mem signature command buffer p len =
    if ltb len 32
    then done (need_data, none)
    else if mem
    then (do
      (ssrc, p1, n1) ← get_uint32 buffer p len
      count ← load buffer p1
      padding ← memcpy (replicate 3 0) 0 buffer (p1 + 1) 3
      (timestamp1, p2, n2) ← get_uint64 buffer (p1 + 1 + 3) (sub_size (sub_size n1 1) 3)
      (timestamp2, p3, n3) ← get_uint64 buffer p2 n2
      (timestamp3, p4, n4) ← get_uint64 buffer p3 n3
      done (
        ok,
        some (record {
          signature = signature;
          command = command;
          command_data = sync (record {
            ssrc = ssrc;
            count = count;
            padding = padding;
            timestamp1 = timestamp1;
            timestamp2 = timestamp2;
            timestamp3 = timestamp3;
          });
        }),
      ))
    else done (no_memory, none)

-- Behind the signature and the command.
unfoldable pub unpack_data : Bool → ℕ → ℕ → List ℕ → ℕ → ℕ → Exec (ℕ × Option AppleCommand)
unpack_data mem signature command buffer p len =
    if is_invitation command
    then unpack_inv mem signature command buffer p len
    else if command == cmd_feedback
    then unpack_feedback mem signature command buffer p len
    else if command == cmd_bitrate
    then unpack_bitrate mem signature command buffer p len
    else if command == cmd_sync
    then unpack_sync mem signature command buffer p len
    else done (ok, some (record { signature = signature; command = command; command_data = unset }))

-- `net_applemidi_unpack`: the return value and the command.
unfoldable pub unpack : Bool → Bool → Option (List ℕ) → ℕ → Exec (ℕ × Option AppleCommand)
unpack mem mem_data none buffer_len = done (need_data, none)
unpack mem mem_data (some buffer) buffer_len =
    if ltb buffer_len 4
    then done (need_data, none)
    else if mem
    then (do
      (signature, p1, n1) ← get_uint16 buffer 0 buffer_len
      (command, p2, n2) ← get_uint16 buffer p1 n1
      unpack_data mem_data signature command buffer p2 n2)
    else done (no_memory, none)

-- `realloc`: the bytes that the block gains are 0 here until they are written.
abbrev pub realloc : List ℕ → ℕ → List ℕ
realloc block n = take n (block ++ replicate (n - length block) 0)

-- The name and its NUL.
abbrev pub pack_name : Bool → Option (List ℕ) → List ℕ → ℕ → Exec (ℕ × Option (List ℕ) × ℕ)
pack_name mem none block len = done (ok, some block, len)
pack_name mem (some name) block len =
    if mem
    then (do
      copied ←
          memcpy (realloc block (add_size (add_size len (length name)) 1)) len name 0 (length name)
      ended ← store copied (len + length name) 0
      done (ok, some ended, add_size (add_size len (length name)) 1))
    else done (no_memory, none, 0)

-- An unchecked `realloc` that fails leaves a null pointer, which the next line writes through.
abbrev grown : Bool → List ℕ → ℕ → Exec (List ℕ)
grown mem block n = if mem then done (realloc block n) else fault

abbrev pack_inv : Bool → Bool → CommandData → List ℕ → ℕ → Exec (ℕ × Option (List ℕ) × ℕ)
pack_inv mem mem_name null block len = done (need_data, none, 0)
pack_inv mem mem_name (inv i) block len = do
  b ← grown mem block (4 + 16)
  (b1, p1, n1) ← put_uint32 b len i.version len
  (b2, p2, n2) ← put_uint32 b1 p1 i.initiator n1
  (b3, p3, n3) ← put_uint32 b2 p2 i.ssrc n2
  pack_name mem_name i.name b3 n3
pack_inv mem mem_name other block len = fault

abbrev pack_feedback : Bool → CommandData → List ℕ → ℕ → Exec (ℕ × Option (List ℕ) × ℕ)
pack_feedback mem null block len = done (need_data, none, 0)
pack_feedback mem (feedback f) block len = do
  b ← grown mem block (4 + 8)
  (b1, p1, n1) ← put_uint32 b len f.ssrc len
  (b2, p2, n2) ← put_uint32 b1 p1 f.apple_seq n1
  done (ok, some b2, n2)
pack_feedback mem other block len = fault

abbrev pack_bitrate : Bool → CommandData → List ℕ → ℕ → Exec (ℕ × Option (List ℕ) × ℕ)
pack_bitrate mem null block len = done (need_data, none, 0)
pack_bitrate mem (bitrate r) block len = do
  b ← grown mem block (4 + 8)
  (b1, p1, n1) ← put_uint32 b len r.ssrc len
  (b2, p2, n2) ← put_uint32 b1 p1 r.limit n1
  done (ok, some b2, n2)
pack_bitrate mem other block len = fault

-- The data of a `sync` is not tested for NULL.
abbrev pack_sync : Bool → CommandData → List ℕ → ℕ → Exec (ℕ × Option (List ℕ) × ℕ)
pack_sync mem (sync s) block len =
    if mem
    then (do
      (b1, p1, n1) ← put_uint32 (realloc block (4 + 36)) len s.ssrc len
      b2 ← store b1 p1 s.count
      b3 ← memcpy b2 (p1 + 1) s.padding 0 3
      (b4, p4, n4) ← put_uint64 b3 (p1 + 1 + 3) s.timestamp1 (add_size (add_size n1 1) 3)
      (b5, p5, n5) ← put_uint64 b4 p4 s.timestamp2 n4
      (b6, p6, n6) ← put_uint64 b5 p5 s.timestamp3 n5
      done (ok, some b6, n6))
    else done (no_memory, none, 0)
pack_sync mem other block len = if mem then fault else done (no_memory, none, 0)

-- Behind the signature and the command.
unfoldable pub pack_data : Bool → Bool → AppleCommand → List ℕ → ℕ → Exec (ℕ × Option (List ℕ) × ℕ)
pack_data mem mem_name c block len =
    if is_invitation c.command
    then pack_inv mem mem_name c.command_data block len
    else if c.command == cmd_feedback
    then pack_feedback mem c.command_data block len
    else if c.command == cmd_bitrate
    then pack_bitrate mem c.command_data block len
    else if c.command == cmd_sync
    then pack_sync mem c.command_data block len
    else done (ok, some block, len)

-- `net_applemidi_pack`: the return value, `*out_buffer` and `*out_buffer_len`.
unfoldable pub pack : Bool → Bool → Bool → Option AppleCommand → Exec (ℕ × Option (List ℕ) × ℕ)
pack mem mem_data mem_name none = done (need_data, none, 0)
pack mem mem_data mem_name (some c) =
    if mem
    then (do
      (b1, p1, n1) ← put_uint16 (replicate 4 0) 0 c.signature 0
      (b2, p2, n2) ← put_uint16 b1 p1 c.command n1
      pack_data mem_data mem_name c b2 n2)
    else done (no_memory, none, 0)
