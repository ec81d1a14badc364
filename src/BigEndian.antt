-- ===== src/BigEndian.antt =====
-- src/big_endian.c: unsigned numbers as big-endian bytes, and back.
pub mod Laws
use btb.Base.{
  ℕ, zero, suc, ◌+◌, ◌-◌, ◌*◌, ◌/◌, ◌%◌, ◌^◌, List, [], ◌∷◌, Result, ok, fault, ◌>>=◌, ◌>>◌,
  defined, ltb, if◌then◌else◌, read, write, u64_mod,
}

-- The loop of `lu_to_big_endian` at index `i`, with `left` rounds to go. The buffer is the part of
-- the block from `start` on. A shift of an `unsigned long` is defined below 64.
lu_to_big_endian_loop : ℕ → ℕ → ℕ → List ℕ → ℕ → ℕ → Result (List ℕ)
lu_to_big_endian_loop zero i n block start buf_size = ok block
lu_to_big_endian_loop (suc left) i n block start buf_size = do
  let shift = 8 * (buf_size - i - 1)
  defined (ltb shift 64)
  block' ← write block (start + i) (n / 2 ^ shift % 256)
  lu_to_big_endian_loop left (i + 1) n block' start buf_size

-- The block after the call; the C function always returns true.
unfoldable pub lu_to_big_endian : ℕ → List ℕ → ℕ → ℕ → Result (List ℕ)
unfolding lu_to_big_endian_loop
lu_to_big_endian n block start buf_size = lu_to_big_endian_loop buf_size 0 n block start buf_size

-- `buf[i] << shift` on the byte promoted to a 32-bit `int`, converted to `unsigned long` by `n +=`:
-- gcc shifts into the sign bit, and the conversion extends it.
abbrev pub shifted_int : ℕ → ℕ → Result ℕ
shifted_int b shift = do
  defined (ltb shift 32)
  let w = b * 2 ^ shift % 2 ^ 32
  ok (if ltb w (2 ^ 31) then w else w + (u64_mod - 2 ^ 32))

big_endian_to_lu_loop : ℕ → ℕ → List ℕ → ℕ → ℕ → Result ℕ
big_endian_to_lu_loop zero i buf buf_size n = ok n
big_endian_to_lu_loop (suc left) i buf buf_size n = do
  b ← read buf i
  v ← shifted_int b (8 * (buf_size - i - 1))
  big_endian_to_lu_loop left (i + 1) buf buf_size ((n + v) % u64_mod)

unfoldable pub big_endian_to_lu : List ℕ → ℕ → Result ℕ
unfolding big_endian_to_lu_loop
big_endian_to_lu buf buf_size = big_endian_to_lu_loop buf_size 0 buf buf_size 0
