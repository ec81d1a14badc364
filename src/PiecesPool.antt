-- ===== src/PiecesPool.antt =====
-- src/pieces_pool.c: which pieces are handed out. Every operation holds the mutex from its first
-- access to its last, so each is one atomic step here; `Locked` has them statement by statement, and
-- `Client.Swarm` interleaves them.
pub mod Laws
pub mod Locked
use btb.Base.{
  ℕ, zero, suc, ◌+◌, ◌-◌, ◌%◌, Bool, true, false, List, Result, ok, ◌>>=◌, ◌==◌, replicate, u64_mod,
}
use btb.Bitfield.{Bitfield, init_bitfield, has_piece, set_piece, unset_piece}

pub record PiecesPool : Type 0 where
  pub current_bitfield : Bitfield
  pub num_pieces : ℕ

-- `calloc(1, num_pieces)`: a byte for each piece, although a bit would do.
unfoldable pub init_pieces_pool : ℕ → Result PiecesPool
init_pieces_pool num_pieces = do
  b ← init_bitfield (replicate num_pieces 0) num_pieces
  ok (record { current_bitfield = b; num_pieces = num_pieces })

-- The search of `get_piece_index` at `i`, with `left` rounds to go: the first clear bit is set.
get_piece_index_loop : ℕ → ℕ → PiecesPool → Result (PiecesPool × ℕ)
get_piece_index_loop zero i pool = ok (pool, pool.num_pieces + 1)
get_piece_index_loop (suc left) i pool = do
  held ← has_piece pool.current_bitfield i
  elim held [
    | true ↦ get_piece_index_loop left (i + 1) pool
    | false ↦ do b ← set_piece pool.current_bitfield i; ok (record pool { current_bitfield = b }, i)
  ]

unfoldable pub get_piece_index : PiecesPool → Result (PiecesPool × ℕ)
unfolding get_piece_index_loop
get_piece_index pool = get_piece_index_loop pool.num_pieces 0 pool

unfoldable pub mark_as_undone : PiecesPool → ℕ → Result PiecesPool
mark_as_undone pool index = do
  b ← unset_piece pool.current_bitfield index
  ok (record pool { current_bitfield = b })

-- The loop that `is_done` and `get_num_undone_pieces` share.
pieces_sum_loop : ℕ → ℕ → Bitfield → ℕ → Result ℕ
pieces_sum_loop zero i b sum = ok sum
pieces_sum_loop (suc left) i b sum = do
  held ← has_piece b i
  pieces_sum_loop left (i + 1) b (elim held [ true ↦ sum + 1 | false ↦ sum ])

unfoldable pub is_done : PiecesPool → Result Bool
unfolding pieces_sum_loop
is_done pool = do
  sum ← pieces_sum_loop pool.num_pieces 0 pool.current_bitfield 0
  ok (sum == pool.num_pieces)

unfoldable pub get_num_undone_pieces : PiecesPool → Result ℕ
unfolding pieces_sum_loop
get_num_undone_pieces pool = do
  sum ← pieces_sum_loop pool.num_pieces 0 pool.current_bitfield 0
  ok ((pool.num_pieces + u64_mod - sum) % u64_mod)
