-- ===== src/DownloadedFile.antt =====
-- src/downloaded_file.c: the pieces that have arrived, and the output file.
pub mod Laws
pub mod Slots
pub mod Written
use btb.Base.{
  ℕ, zero, suc, ◌+◌, Bool, true, false, List, [], ◌++◌, Option, none, some, Result, ok, ◌>>=◌, ◌==◌,
  if◌then◌else◌, replicate, read, write, read_range, write_range, or_fault, through_int, take,
}
use btb.PieceProgress.{PieceProgress}
use btb.TorrentFile.{TorrentFile}

-- `none` is a piece that was not added.
pub record DownloadedFile : Type 0 where
  pub pieces_buf : List (Option (List ℕ))
  pub tf : TorrentFile

unfoldable pub init_downloaded_file : TorrentFile → DownloadedFile
init_downloaded_file tf = record { pieces_buf = replicate tf.num_pieces none; tf = tf }

-- `block` is what `malloc(piece_length)` returned. The mutex makes the call one step.
unfoldable pub add_piece : DownloadedFile → PieceProgress → List ℕ → Result DownloadedFile
add_piece df pp block = do
  bytes ← read_range pp.buf 0 pp.size
  filled ← write_range block 0 bytes
  pieces ← write df.pieces_buf pp.index (some filled)
  ok (record df { pieces_buf = pieces })

has_all_pieces_loop : ℕ → ℕ → List (Option (List ℕ)) → Result Bool
has_all_pieces_loop zero i pieces = ok true
has_all_pieces_loop (suc left) i pieces = do
  piece ← read pieces i
  elim piece [ none ↦ ok false | some bytes ↦ has_all_pieces_loop left (i + 1) pieces ]

unfoldable pub has_all_pieces : DownloadedFile → Result Bool
unfolding has_all_pieces_loop
has_all_pieces df = has_all_pieces_loop df.tf.num_pieces 0 df.pieces_buf

-- What the C library does with the output file: the bytes that are left in it after `remove`,
-- whether `fopen` opens it, and how many of the bytes handed to its i-th call `fwrite` writes.
pub record Disk : Type 0 where
  pub after_remove : List ℕ
  pub opens : Bool
  pub fwrite : ℕ → ℕ → ℕ

-- The loop that appends the pieces: the contents of the file and the result.
write_loop : ℕ → ℕ → DownloadedFile → Disk → List ℕ → Result (List ℕ × Bool)
write_loop zero i df disk contents = ok (contents, true)
write_loop (suc left) i df disk contents = do
  piece ← read df.pieces_buf i
  bytes ← or_fault piece
  whole ← read_range bytes 0 df.tf.piece_length
  let written = disk.fwrite i df.tf.piece_length
  let rest = write_loop left (i + 1) df disk (contents ++ whole)
  if through_int written == df.tf.piece_length
      then rest
      else ok (contents ++ take written whole, false)

-- From the answer of `fopen` on. `none` for the contents: the file was not opened.
write_opened : Bool → DownloadedFile → Disk → Result (Option (List ℕ) × Bool)
unfolding write_loop
write_opened false df disk = ok (none, false)
write_opened true df disk = do
  out ← write_loop df.tf.num_pieces 0 df disk disk.after_remove
  ok (some (out.0), out.1)

unfoldable pub write_to_file : DownloadedFile → Disk → Result (Option (List ℕ) × Bool)
unfolding has_all_pieces write_opened
write_to_file df disk = do
  all ← has_all_pieces df
  elim all [
    | false ↦ ok (none, false)
    | true ↦ do name ← or_fault df.tf.name; write_opened disk.opens df disk
  ]
