-- ===== src/Bitfield.antt =====
-- src/bitfield.c: one bit for each piece, the highest bit of a byte first.
pub mod Bits
pub mod Laws
use btb.Base.{
  ℕ, ◌+◌, ◌-◌, ◌*◌, ◌/◌, ◌%◌, ◌^◌, Bool, not, bit_and, bit_or, List, Result, ok, ◌>>=◌, ◌>>◌,
  defined, ltb, ◌==◌, read, write, read_range,
}

pub record Bitfield : Type 0 where
  pub length : ℕ
  -- the field `data`
  pub bytes : List ℕ

-- A new block with `length` bytes copied from `bytes`.
unfoldable pub init_bitfield : List ℕ → ℕ → Result Bitfield
init_bitfield bytes length = do
  copy ← read_range bytes 0 length
  ok (record { length = length; bytes = copy })

-- `int byte_index = index / 8`: a value of 2 ^ 31 or more wraps to a negative index.
abbrev pub byte_index : ℕ → Result ℕ
byte_index index = do let i = index / 8 % 2 ^ 32; defined (ltb i (2 ^ 31)); ok i

unfoldable pub has_piece : Bitfield → ℕ → Result Bool
has_piece b index = do
  i ← byte_index index
  byte ← read b.bytes i
  ok (not (bit_and (byte / 2 ^ (7 - index % 8)) 1 == 0))

unfoldable pub set_piece : Bitfield → ℕ → Result Bitfield
set_piece b index = do
  i ← byte_index index
  byte ← read b.bytes i
  bytes' ← write b.bytes i (bit_or byte (2 ^ (7 - index % 8)) % 2 ^ 8)
  ok (record b { bytes = bytes' })

-- `~(1 << k)` keeps every bit of the byte but `k`.
unfoldable pub unset_piece : Bitfield → ℕ → Result Bitfield
unset_piece b index = do
  i ← byte_index index
  byte ← read b.bytes i
  bytes' ← write b.bytes i (bit_and byte (255 - 2 ^ (7 - index % 8)))
  ok (record b { bytes = bytes' })
