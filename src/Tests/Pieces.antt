-- ===== src/Tests/Pieces.antt =====
-- Pieces, from the pool to the output file, at concrete inputs.
use btb.PiecesPool.{PiecesPool, get_piece_index}
use btb.PiecesPool.Locked.{
  Returned, pick, ask_done, index, flag, free, Turns, OneByOne, begun, then_call, at_once,
}
use btb.Bitfield.{has_piece, set_piece}
use btb.PiecesPool.Locked.Realized.{Turns-iff-OneByOne}
use btb.PiecesPool.Laws.{IsPool, Found, get_piece_index-Found}
use btb.PieceProgress.{PieceProgress, block_size, init_piece_progress}
use btb.TorrentFile.{TorrentFile}
use btb.DownloadedFile.{DownloadedFile, Disk, write_to_file}
use btb.DownloadedFile.Laws.{IsDownloadedFile, IsComplete, joined, write_to_file_lem, slot}
use btb.DownloadedFile.Written.{length-write_to_file}
use btb.HandshakeMsg.{codes}
use btb.Conn.{Conn}
use btb.Client.DownloadPiece.{num_blocks, store_block, download_piece}
use btb.Client.DownloadPiece.Exchange.{linked, piece}
use btb.Client.DownloadPiece.Laws.{
  Answer, AreAnswers, arriving_answers, accepting_requests, requests, blocks,
  download_piece-answers, num_blocks_iff, store_block_overflow,
}
use btb.Base.{
  ap, sym, ℕ, zero, suc, ◌+◌, ◌-◌, ◌*◌, ◌/◌, ◌%◌, ◌≤◌, ◌≡◌, refl, true, List, [], ◌∷◌, ◌++◌, none,
  some, ok, fault, replicate, length, length-replicate, append-nil, ◌↔◌, arith,
}

-- Three pieces, of which the first is handed out.
abbrev three : PiecesPool
three = record {
  current_bitfield = record { length = 3; bytes = 128 ∷ 0 ∷ 0 ∷ [] };
  num_pieces = 3;
}

three-IsPool : IsPool three
three-IsPool = record {
  valid = record {
    sized = refl;
    small = omega arith;
    in_byte = (omega arith, (omega arith, (omega arith, tt)));
  };
  sized = refl;
  some_pieces = omega arith;
}

get_piece_index-Found_example : Found three-IsPool 0 (get_piece_index three)
get_piece_index-Found_example = get_piece_index-Found three-IsPool

-- Two threads have each asked for a piece, and a third whether all are done.
abbrev replies : List Returned
replies =
    record { thread = 1; call = pick; reply = index 1 }
    ∷ record { thread = 0; call = pick; reply = index 2 }
    ∷ record { thread = 2; call = ask_done; reply = flag true }
    ∷ []

abbrev all_three : PiecesPool
all_three = record {
  current_bitfield = record { length = 3; bytes = 224 ∷ 0 ∷ 0 ∷ [] };
  num_pieces = 3;
}

one_by_one : OneByOne three replies all_three
unfolding at_once has_piece set_piece
one_by_one =
    then_call 2 ask_done (flag true)
      (then_call 0 pick (index 2) (then_call 1 pick (index 1) begun refl) refl) refl

Turns-iff-OneByOne_example : Turns three replies all_three free ↔ OneByOne three replies all_three
Turns-iff-OneByOne_example = Turns-iff-OneByOne three all_three replies

abbrev two_pieces : TorrentFile
two_pieces = record {
  announce = none;
  comment = none;
  info_hash = none;
  piece_length = 2;
  num_pieces = 2;
  piece_hashes = [];
  length = 3;
  name = some (codes "out");
}

abbrev half : DownloadedFile
half = record { pieces_buf = some (1 ∷ 2 ∷ []) ∷ none ∷ []; tf = two_pieces }

abbrev full : DownloadedFile
full = record { pieces_buf = some (1 ∷ 2 ∷ []) ∷ some (3 ∷ 0 ∷ []) ∷ []; tf = two_pieces }

half-IsDownloadedFile : IsDownloadedFile half
half-IsDownloadedFile = record { slots = refl }

full-IsDownloadedFile : IsDownloadedFile full
full-IsDownloadedFile = record { slots = refl }

full-IsComplete : IsComplete full
full-IsComplete zero h = (1 ∷ 2 ∷ [], refl, refl)
full-IsComplete (suc zero) h = (3 ∷ 0 ∷ [], refl, refl)
full-IsComplete (suc (suc i)) h = absurd (omega arith)

abbrev second : PieceProgress
second = record { index = 1; size = 2; buf = 3 ∷ 0 ∷ []; downloaded = 1 }

abbrev disk : Disk
disk = record { after_remove = []; opens = true; fwrite = λ i n. n }

write_to_file_lem_example :
    write_to_file full disk ≡ ok (some ([] ++ joined 2 0 full.pieces_buf), true)
write_to_file_lem_example =
    write_to_file_lem full disk (codes "out") full-IsDownloadedFile full-IsComplete refl
      (omega arith) refl (λ k. refl)

full-sized : (j : ℕ) (bytes : List ℕ) → slot full.pieces_buf j ≡ some bytes → length bytes ≡ 2
full-sized zero bytes at = let same : 1 ∷ 2 ∷ [] ≡ bytes = cc in ap length (sym same)
full-sized (suc zero) bytes at = let same : 3 ∷ 0 ∷ [] ≡ bytes = cc in ap length (sym same)
full-sized (suc (suc j)) bytes at = absurd (cc at)

length-write_to_file_example : length {A = ℕ} (1 ∷ 2 ∷ 3 ∷ 0 ∷ []) ≡ 0 + 2 * 2
length-write_to_file_example =
    length-write_to_file full disk (1 ∷ 2 ∷ 3 ∷ 0 ∷ []) full-IsDownloadedFile full-sized
      write_to_file_lem_example

abbrev malloc : ℕ → List ℕ
malloc n = replicate n 255

malloc_length : (n : ℕ) → length (malloc n) ≡ n
malloc_length n = length-replicate n 255

abbrev ones : List ℕ
ones = replicate block_size 1

abbrev answer : Answer
answer = record { block = ones; cut = (piece 7 0 ones).payload ∷ [] }

answer-AreAnswers : AreAnswers 7 0 (answer ∷ [])
answer-AreAnswers = (
  length-replicate {A = ℕ} block_size 1,
  (omega arith, tt),
  append-nil (piece 7 0 ones).payload,
  tt,
)

abbrev quiet : Conn
quiet = record {
  addr = codes "127.0.0.1";
  port = 6881;
  sockfd = 3;
  incoming = [];
  outgoing = [];
  sent = [];
}

download_piece-answers_example :
    download_piece malloc (init_piece_progress 7 (1 * block_size) (malloc (1 * block_size))) (
      some
        (linked quiet (arriving_answers 7 0 (answer ∷ [])) (accepting_requests (answer ∷ [])) []))
    ≡ ok (
      record { index = 7; size = 1 * block_size; buf = blocks (answer ∷ []); downloaded = 1 },
      some (linked quiet [] [] ([] ++ requests 7 0 (answer ∷ []))),
      true,
    )
download_piece-answers_example =
    download_piece-answers malloc malloc_length (answer ∷ []) 7 (malloc (1 * block_size)) quiet []
      (omega arith) (omega arith) (malloc_length (1 * block_size)) answer-AreAnswers

num_blocks_iff_example :
    (num_blocks 20000 ≡ (20000 + block_size - 1) / block_size) ↔ (20000 % block_size ≤ 1)
num_blocks_iff_example = num_blocks_iff 20000

store_block_overflow_example : store_block second 0 none (piece 1 0 (4 ∷ 5 ∷ 6 ∷ [])) ≡ fault
store_block_overflow_example =
    store_block_overflow second 0 (4 ∷ 5 ∷ 6 ∷ []) none (omega arith) (omega arith) (omega arith)
      (omega arith)
