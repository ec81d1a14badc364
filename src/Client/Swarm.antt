-- ===== src/Client/Swarm.antt =====
-- The threads of src/client.c: the loop of `download_torrent_thread_fun` over the shared pool and
-- file. Each operation on a shared object holds its mutex, so it is one step; the steps of the
-- threads interleave in any order.
pub mod Bound
pub mod Contents
pub mod Counting
pub mod Invariant
pub mod Potential
pub mod Refinement
pub mod Safety
pub mod Served
pub mod Specification
pub mod Stored
use btb.Bitfield.{has_piece}
use btb.PiecesPool.{PiecesPool, init_pieces_pool, get_piece_index, mark_as_undone, is_done}
use btb.PieceProgress.{PieceProgress, init_piece_progress}
use btb.TorrentFile.{TorrentFile}
use btb.DownloadedFile.{DownloadedFile, init_downloaded_file, add_piece}
use btb.Peer.{Peer}
use btb.Conn.{Conn, Connecting, RecvCall, SendCall}
use btb.Client.DownloadPiece.{download_piece}
use btb.Client.Session.{Local, open_session}
use btb.Base.{
  map, ℕ, zero, suc, ◌+◌, ◌≤◌, ◌<◌, ◌≡◌, Bool, true, false, List, Option, none, some, Result, ok,
  length, get_elem?, set, replicate,
}

abbrev pub peer_max_fails : ℕ
peer_max_fails = 8

-- Where a thread is. `picking` is between the loop's test and `get_piece_index`, `holding` between
-- that and the end of the round.
pub data Pc : Type 0 where
  connecting : Peer → Pc
  looping : Local → Pc
  picking : Local → Pc
  holding : Local → ℕ → Pc
  finished : Bool → Pc

pub record Shared : Type 0 where
  pub pool : PiecesPool
  pub df : DownloadedFile

abbrev pub after_fail : Local → Option Conn → Local
after_fail l c = record l { failed_attempts = l.failed_attempts + 1; c = c }

-- The steps of one thread. `block`, `piece_block` and `malloc` are what
-- `malloc` returned, with bytes that are not initialised.
pub data Move (malloc : ℕ → List ℕ) (s s' : Shared) : Pc → Pc → Type 0 where
  refused :
      (peer : Peer) (e : Connecting) (incoming : List RecvCall) (outgoing : List SendCall)
      → open_session malloc s.df.tf peer e incoming outgoing ≡ ok none
      → s' ≡ s
      → Move malloc s s' (connecting peer) (finished false)
  opened :
      (peer : Peer) (e : Connecting) (incoming : List RecvCall) (outgoing : List SendCall)
      {l : Local}
      → open_session malloc s.df.tf peer e incoming outgoing ≡ ok (some l)
      → s' ≡ s
      → Move malloc s s' (connecting peer) (looping l)
  all_done :
      {l : Local} → is_done s.pool ≡ ok true → s' ≡ s → Move malloc s s' (looping l) (finished true)
  give_up :
      {l : Local}
      → is_done s.pool ≡ ok false
      → peer_max_fails ≤ l.failed_attempts
      → s' ≡ s
      → Move malloc s s' (looping l) (finished true)
  go_on :
      {l : Local}
      → is_done s.pool ≡ ok false
      → l.failed_attempts < peer_max_fails
      → s' ≡ s
      → Move malloc s s' (looping l) (picking l)
  pick :
      {l : Local} (pool : PiecesPool) {i : ℕ}
      → get_piece_index s.pool ≡ ok (pool, i)
      → s' ≡ record s { pool = pool }
      → Move malloc s s' (picking l) (holding l i)
  absent :
      {l : Local} (pool : PiecesPool) {i : ℕ}
      → has_piece l.peer_bf i ≡ ok false
      → mark_as_undone s.pool i ≡ ok pool
      → s' ≡ record s { pool = pool }
      → Move malloc s s' (holding l i) (looping (after_fail l l.c))
  not_downloaded :
      {l : Local} (pool : PiecesPool) {i : ℕ} (block : List ℕ) (p : PieceProgress) {c : Option Conn}
      → length block ≡ s.df.tf.piece_length
      → has_piece l.peer_bf i ≡ ok true
      → download_piece malloc (init_piece_progress i s.df.tf.piece_length block) l.c
        ≡ ok (p, c, false)
      → mark_as_undone s.pool i ≡ ok pool
      → s' ≡ record s { pool = pool }
      → Move malloc s s' (holding l i) (looping (after_fail l c))
  downloaded :
      {l : Local} (df : DownloadedFile) {i : ℕ} (block piece_block : List ℕ) (p : PieceProgress)
      {c : Option Conn}
      → length block ≡ s.df.tf.piece_length
      → length piece_block ≡ s.df.tf.piece_length
      → has_piece l.peer_bf i ≡ ok true
      → download_piece malloc (init_piece_progress i s.df.tf.piece_length block) l.c
        ≡ ok (p, c, true)
      → add_piece s.df p piece_block ≡ ok df
      → s' ≡ record s { df = df }
      → Move malloc s s' (holding l i) (looping (record l { c = c }))

-- One thread for each peer.
pub record System : Type 0 where
  pub shared : Shared
  pub threads : List Pc

pub data Step (malloc : ℕ → List ℕ) (s t : System) : Type 0 where
  run :
      (k : ℕ) (pc pc' : Pc)
      → get_elem? s.threads k ≡ some pc
      → Move malloc s.shared t.shared pc pc'
      → t.threads ≡ set s.threads k pc'
      → Step malloc s t

-- The state in which `download_torrent` starts the threads.
abbrev pub IsInitial : TorrentFile → List Peer → System → Type 0
IsInitial tf peers s =
    (init_pieces_pool tf.num_pieces ≡ ok s.shared.pool)
    × (s.shared.df ≡ init_downloaded_file tf)
    × (s.threads ≡ map connecting peers)

pub data Reach (malloc : ℕ → List ℕ) (tf : TorrentFile) (peers : List Peer) : System → Type 0 where
  start : {s : System} → IsInitial tf peers s → Reach malloc tf peers s
  later : {s t : System} → Reach malloc tf peers s → Step malloc s t → Reach malloc tf peers t
