-- ===== src/Client/Swarm/Served.antt =====
-- A download from one peer that has every piece and answers every request, in src/client.c: what
-- the peer sends, and what the file then holds.
pub mod Handed
pub mod Leads
pub mod Rounds
pub mod Whole
use btb.PieceProgress.{PieceProgress, init_piece_progress, block_size}
use btb.TorrentFile.{TorrentFile}
use btb.Bitfield.{Bitfield, has_piece}
use btb.PiecesPool.{PiecesPool, is_done, get_piece_index, init_pieces_pool}
use btb.PiecesPool.Laws.{
  IsPool, taken, free, none_free, get_piece_index-Found, is_done_iff, init_pieces_pool-IsPool,
}
use btb.DownloadedFile.{DownloadedFile, init_downloaded_file, add_piece}
use btb.Conn.{Conn, Connecting, RecvCall, SendCall}
use btb.Peer.{Peer}
use btb.Client.DownloadPiece.{download_piece}
use btb.Client.DownloadPiece.Exchange.{linked}
use btb.Client.DownloadPiece.Laws.{
  Answer, AreAnswers, arriving_answers, accepting_requests, requests, blocks, download_piece-serves,
}
use btb.Client.Session.{Local, open_session}
use btb.Client.Swarm.{Pc, connecting, looping, picking, holding, finished, Shared, System, run}
use btb.Client.Thread.{World, thread_move, run_alone}
use btb.Client.Thread.Laws.{IsWorld, thread_move-Move}
use btb.Client.Swarm.Bound.{Run, at_start, step}
use btb.Base.{
  ℕ, suc, ◌+◌, ◌*◌, ◌^◌, ◌≤◌, ◌<◌, ◌≡◌, refl, sym, ◌∙◌, ap, true, false, List, [], ◌∷◌, ◌++◌,
  Option, none, some, ok, arith, length, set, replicate, drop_all, append-nil, ltb, lt→ltb, le→leb,
  read_range_all, length-append, append_assoc, subst, Bool-cases, inl, inr,
}

-- What the peer sends and takes for the pieces from `i` on, in their order.
abbrev pub serving : ℕ → List (List Answer) → List RecvCall
serving i [] = []
serving i (answers ∷ pieces) = arriving_answers i 0 answers ++ serving (i + 1) pieces

abbrev pub taking : List (List Answer) → List SendCall
taking [] = []
taking (answers ∷ pieces) = accepting_requests answers ++ taking pieces

-- Each piece from `i` on comes in whole blocks and has the torrent's piece length.
abbrev pub AreServed : TorrentFile → ℕ → List (List Answer) → Type 0
AreServed tf i [] = Unit {0}
AreServed tf i (answers ∷ pieces) =
    (tf.piece_length ≡ length answers * block_size)
    × AreAnswers i 0 answers
    × AreServed tf (i + 1) pieces

pub length-blocks :
    (index offset : ℕ) (answers : List Answer)
    → AreAnswers index offset answers
    → length (blocks answers) ≡ length answers * block_size
length-blocks index offset [] h = refl
length-blocks index offset (a ∷ answers) h = omega (
  arith,
  length-append a.block (blocks answers),
  length-blocks index (offset + block_size) answers h.3,
  h.0,
)

-- The slots of a file that holds these pieces.
abbrev pub slots : List (List Answer) → List (Option (List ℕ))
slots [] = []
slots (answers ∷ pieces) = some (blocks answers) ∷ slots pieces

abbrev pub absent_slots : ℕ → List (Option (List ℕ))
absent_slots n = replicate n none

set-middle :
    (done rest : List (Option (List ℕ))) (v w : Option (List ℕ))
    → set (done ++ v ∷ rest) (length done) w ≡ done ++ w ∷ rest
set-middle [] rest v w = refl
set-middle (x ∷ done) rest v w = ap (◌∷◌ x) (set-middle done rest v w)

abbrev pub file : TorrentFile → List (Option (List ℕ)) → DownloadedFile
file tf pieces = record { pieces_buf = pieces; tf = tf }

pub add_piece-middle :
    (tf : TorrentFile) (done rest : List (Option (List ℕ))) (pp : PieceProgress) (block : List ℕ)
    → pp.index ≡ length done
    → length pp.buf ≡ pp.size
    → length block ≡ pp.size
    → add_piece (file tf (done ++ none ∷ rest)) pp block ≡ ok (file tf (done ++ some pp.buf ∷ rest))
unfolding add_piece
add_piece-middle tf done rest pp block at sized room =
    let at_end : 0 + length pp.buf ≡ pp.size = omega arith in
    let inside : length done < length (done ++ none ∷ rest) =
      omega (arith, length-append done (none ∷ rest)) in
    rw (
      read_range_all pp.buf pp.size sized,
      at_end,
      le→leb pp.size (length block) (omega arith),
      drop_all pp.size block (omega arith),
      append-nil pp.buf,
      at,
      lt→ltb (length done) (length (done ++ none ∷ rest)) inside,
      set-middle done rest none (some pp.buf),
    )

-- The surroundings of a thread whose connection is made and scripted like this, with any blocks.
abbrev pub scripted :
    Connecting → List RecvCall → List SendCall → (ℕ → List ℕ) → (ℕ → List ℕ) → ℕ → World
scripted connects incoming outgoing block piece_block n = record {
  connects = connects;
  incoming = incoming;
  outgoing = outgoing;
  block = block n;
  piece_block = piece_block n;
}
