-- ===== src/PieceProgress.antt =====
-- src/piece_progress.c: a piece that is being downloaded.
use btb.Base.{ℕ, List}

abbrev pub piece_index_bytes : ℕ
piece_index_bytes = 4

abbrev pub block_offset_bytes : ℕ
block_offset_bytes = 4

abbrev pub block_length_bytes : ℕ
block_length_bytes = 4

abbrev pub block_size : ℕ
block_size = 16384

pub record PieceProgress : Type 0 where
  pub index : ℕ
  pub size : ℕ
  pub buf : List ℕ
  -- number of downloaded blocks
  pub downloaded : ℕ

-- `block` is what `malloc(piece_size)` returned; its bytes are not initialised.
abbrev pub init_piece_progress : ℕ → ℕ → List ℕ → PieceProgress
init_piece_progress piece_index piece_size block = record {
  index = piece_index;
  size = piece_size;
  buf = block;
  downloaded = 0;
}
