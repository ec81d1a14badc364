-- ===== src/Client/DownloadPiece/Laws.antt =====
-- A whole piece from a peer that answers, and what the loop does otherwise.
use btb.Base.{
  ℕ, suc, ◌+◌, ◌-◌, ◌*◌, ◌/◌, ◌%◌, ◌^◌, ◌≤◌, ◌<◌, ◌≡◌, refl, sym, ◌∙◌, true, List, [], ◌∷◌, ◌++◌,
  Option, some, ok, fault, arith, length, drop, append_assoc, append-nil, length-append,
  length-drop, nil_of_length, ◌↔◌, u64_mod, read_range-append, lt→leb,
}
use btb.PieceProgress.{PieceProgress, block_size, init_piece_progress}
use btb.Conn.{Conn, RecvCall, SendCall}
use btb.Message.Codec.{frame}
use btb.Message.Framing.{joined, ArePieces}
use btb.Client.DownloadPiece.{download_piece, download_loop, num_blocks, store_block}
use btb.BigEndian.Laws.{be_bytes}
use btb.Client.DownloadPiece.Exchange.{
  read_number, accepting, linked, request, piece, answering, download_block-answering,
}

-- The blocks of a piece, each with the way its answer is cut by the network.
pub record Answer : Type 0 where
  pub block : List ℕ
  pub cut : List (List ℕ)

-- Whole blocks, whose answers at these offsets are cut into pieces that are not empty.
abbrev pub AreAnswers : ℕ → ℕ → List Answer → Type 0
AreAnswers index offset [] = Unit {0}
AreAnswers index offset (a ∷ answers) =
    (length a.block ≡ block_size)
    × ArePieces a.cut
    × (joined a.cut ≡ (piece index offset a.block).payload)
    × AreAnswers index (offset + block_size) answers

abbrev pub arriving_answers : ℕ → ℕ → List Answer → List RecvCall
arriving_answers index offset [] = []
arriving_answers index offset (a ∷ answers) =
    answering (piece index offset a.block) a.cut
    ++ arriving_answers index (offset + block_size) answers

abbrev pub accepting_requests : List Answer → List SendCall
accepting_requests [] = []
accepting_requests (a ∷ answers) = accepting 17 ∷ accepting_requests answers

-- The requests, one for each block, in order of their offsets.
abbrev pub requests : ℕ → ℕ → List Answer → List ℕ
requests index offset [] = []
requests index offset (a ∷ answers) =
    frame (request index offset) ++ requests index (offset + block_size) answers

abbrev pub blocks : List Answer → List ℕ
blocks [] = []
blocks (a ∷ answers) = a.block ++ blocks answers

module _ (malloc : ℕ → List ℕ) (malloc_length : (n : ℕ) → length (malloc n) ≡ n) where
  download_loop-answers :
      (answers : List Answer) (p : PieceProgress) (filled old : List ℕ) (c : Conn)
      (more_in : List RecvCall) (more_out : List SendCall) (sent : List ℕ)
      → p.index < 2 ^ 31
      → length filled + length old < 2 ^ 31
      → length old ≡ length answers * block_size
      → p.buf ≡ filled ++ old
      → p.downloaded * block_size ≡ length filled
      → AreAnswers p.index (length filled) answers
      → download_loop malloc (length answers) p (
          some (
            linked c
              (arriving_answers p.index (length filled) answers ++ more_in)
              (accepting_requests answers ++ more_out)
              sent))
        ≡ ok (
          record p { buf = filled ++ blocks answers; downloaded = p.downloaded + length answers },
          some (linked c more_in more_out (sent ++ requests p.index (length filled) answers)),
          true,
        )
  unfolding download_loop
  download_loop-answers [] p filled old c more_in more_out sent index size whole e at h =
      let n : p.downloaded + 0 ≡ p.downloaded = omega arith in
      ground (arith, n, append-nil filled, append-nil sent, nil_of_length old (omega arith), e)
  download_loop-answers (a ∷ answers) p filled old c more_in more_out sent index size whole e at h =
      let grown = length-append filled a.block in
      let next : length (filled ++ a.block) ≡ length filled + block_size = omega (arith, h.0) in
      let counted : p.downloaded + 1 + length answers ≡ p.downloaded + suc (length answers) =
        omega arith in
      let rest =
        download_loop-answers answers
          (record p {
            buf = filled ++ (a.block ++ drop (length a.block) old);
            downloaded = p.downloaded + 1;
          })
          (filled ++ a.block) (drop (length a.block) old) c more_in more_out
          (sent ++ frame (request p.index (length filled))) index
          (omega (arith, h.0, length-drop (length a.block) old))
          (omega (arith, h.0, length-drop (length a.block) old))
          (sym (append_assoc filled a.block _)) (omega arith) (rw next h.3) in
      rw
        (
          append_assoc (answering (piece p.index (length filled) a.block) a.cut)
              (arriving_answers p.index (length filled + block_size) answers) more_in,
          download_block-answering malloc malloc_length p filled old a.block a.cut c
              (arriving_answers p.index (length filled + block_size) answers ++ more_in)
              (accepting_requests answers ++ more_out) sent index (omega arith) (omega (arith, h.0))
              (omega (arith, h.0)) e at h.1 h.2,
          download_loop,
        )
        (rw next at rest
          ∙ rw (
            append_assoc filled a.block (blocks answers),
            append_assoc sent (frame (request p.index (length filled)))
                (requests p.index (length filled + block_size) answers),
            counted,
          ))

  -- The same where the peer has more to send, and takes more, behind the piece.
  pub download_piece-serves :
      (answers : List Answer) (index : ℕ) (block : List ℕ) (c : Conn) (more_in : List RecvCall)
      (more_out : List SendCall) (sent : List ℕ)
      → index < 2 ^ 31
      → length answers * block_size < 2 ^ 31
      → length block ≡ length answers * block_size
      → AreAnswers index 0 answers
      → download_piece malloc (init_piece_progress index (length answers * block_size) block) (
          some (
            linked c
              (arriving_answers index 0 answers ++ more_in)
              (accepting_requests answers ++ more_out)
              sent))
        ≡ ok (
          record {
            index = index;
            size = length answers * block_size;
            buf = blocks answers;
            downloaded = length answers;
          },
          some (linked c more_in more_out (sent ++ requests index 0 answers)),
          true,
        )
  unfolding download_piece
  download_piece-serves answers index block c more_in more_out sent small size whole h =
      let n = length answers in
      let rounds : num_blocks (n * block_size) - 0 ≡ n = omega arith in
      let from_zero : 0 + n ≡ n = omega arith in
      rw rounds (
        download_loop-answers answers (init_piece_progress index (n * block_size) block) [] block c
          more_in more_out sent small (omega arith) whole refl refl h
        ∙ rw from_zero)

  -- For a piece of whole blocks with index and size below 2 ^ 31, from a peer that takes every
  -- request whole and answers it with the block asked for, cut anywhere behind the header into
  -- parts that are not empty: `download_piece` sends one request for each block in order of the
  -- offsets, returns true, and the buffer holds the blocks in that order.
  pub download_piece-answers :
      (answers : List Answer) (index : ℕ) (block : List ℕ) (c : Conn) (sent : List ℕ)
      → index < 2 ^ 31
      → length answers * block_size < 2 ^ 31
      → length block ≡ length answers * block_size
      → AreAnswers index 0 answers
      → download_piece malloc
          (init_piece_progress index (length answers * block_size) block)
          (some (linked c (arriving_answers index 0 answers) (accepting_requests answers) sent))
        ≡ ok (
          record {
            index = index;
            size = length answers * block_size;
            buf = blocks answers;
            downloaded = length answers;
          },
          some (linked c [] [] (sent ++ requests index 0 answers)),
          true,
        )
  download_piece-answers answers index block c sent small size whole h =
      let serves = download_piece-serves answers index block c [] [] sent small size whole h in
      rw (append-nil (arriving_answers index 0 answers), append-nil (accepting_requests answers)) at
        serves

-- The number of rounds for a piece is its size divided by the block size and rounded up exactly if
-- at most one byte is left over behind the whole blocks.
pub num_blocks_iff :
    (size : ℕ) → (num_blocks size ≡ (size + block_size - 1) / block_size) ↔ (size % block_size ≤ 1)
num_blocks_iff size = (λ e. omega arith, λ h. omega arith)

-- An answer with the piece's index and the offset asked for, both below 2 ^ 31, and a block of
-- less than 2 ^ 30 bytes that ends behind the piece's buffer, is a fault: it is copied past the
-- end of the buffer.
pub store_block_overflow :
    (p : PieceProgress) (offset : ℕ) (block : List ℕ) (c : Option Conn)
    → p.index < 2 ^ 31
    → offset < 2 ^ 31
    → length block < 2 ^ 30
    → length p.buf < offset + length block
    → store_block p offset c (piece p.index offset block) ≡ fault
unfolding store_block
store_block_overflow p offset block c index small short over =
    let number = read_number p.index (be_bytes 4 offset ++ block) index in
    let at = read_number offset block small in
    let size : (8 + length block + u64_mod - 4 - 4) % u64_mod ≡ length block = omega arith in
    let bytes = read_range-append (be_bytes 4 p.index ++ be_bytes 4 offset) block [] in
    let outside = lt→leb (offset + length block) (length p.buf) over in
    ground (arith, number, at, size, bytes, append-nil block, outside)
