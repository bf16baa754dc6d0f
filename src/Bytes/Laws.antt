-- ===== src/Bytes/Laws.antt =====
-- What `utils.c` writes in network order it reads back.
use pimidi.Common.{ℕ, ◌^◌, ◌<◌, ◌≡◌, arith}
use pimidi.Bytes.{network16, network32, network64, big_endian}

pub big_endian-network16 : (v : ℕ) → v < 2 ^ 16 → big_endian 0 (network16 v) ≡ v
big_endian-network16 v h = omega arith

pub big_endian-network32 : (v : ℕ) → v < 2 ^ 32 → big_endian 0 (network32 v) ≡ v
big_endian-network32 v h = omega arith

pub big_endian-network64 : (v : ℕ) → v < 2 ^ 64 → big_endian 0 (network64 v) ≡ v
big_endian-network64 v h = omega arith
