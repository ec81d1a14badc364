-- ===== src/Client/Download.antt =====
-- `download_torrent` of src/client.c: the torrent file, the tracker, the threads and the output
-- file.
pub mod Correct
pub mod Honest
use btb.FileBuf.{FileBuf, InFile, read_file}
use btb.TorrentFile.{TorrentFile, init_torrent_file}
use btb.TorrentFile.Parse.{parse_torrent_file}
use btb.TrackerResponse.{TrackerResponse, Curl, init_tracker_response, contact_tracker}
use btb.PiecesPool.{init_pieces_pool, is_done, get_num_undone_pieces}
use btb.DownloadedFile.{Disk, init_downloaded_file, write_to_file}
use btb.Peer.{Peer}
use btb.Client.Swarm.{System, Reach, connecting}
use btb.Client.Swarm.Counting.{IsFinished}
use btb.Base.{
  ℕ, Bool, true, false, List, Option, none, some, Result, ok, ◌>>=◌, ◌>>◌, ◌≡◌, defined, ltb,
  length, map, All, if◌then◌else◌,
}

-- The surroundings of a call: the torrent file, what libcurl and libcrypto answer, what `malloc`
-- returns, and the disk that takes the output file.
pub record Machine : Type 0 where
  pub torrent_fname : Option InFile
  pub sha1 : List ℕ → List ℕ
  pub curl : Curl
  pub malloc : ℕ → List ℕ
  pub disk : Disk

-- What the threads are started with.
pub record Job : Type 0 where
  pub tf : TorrentFile
  pub peers : List Peer
  pub system : System

abbrev contents_of : Option FileBuf → Option (List ℕ)
contents_of none = none
contents_of (some fb) = some fb.content

-- The shared objects, and a thread for each peer. The arrays of the threads have `num_threads`
-- elements, and an array without elements is not defined.
pub start_threads : TorrentFile → List Peer → Result (Option Job)
start_threads tf peers = do
  pp ← init_pieces_pool tf.num_pieces
  let df = init_downloaded_file tf
  defined (ltb 0 (length peers))
  ok (
      some (record {
        tf = tf;
        peers = peers;
        system = record { shared = record { pool = pp; df = df }; threads = map connecting peers };
      }))

-- `none` where the call returns false before it starts the threads.
unfoldable pub prepare : Machine → Result (Option Job)
unfolding start_threads
prepare m = do
  buf ← read_file m.torrent_fname
  (tf, parsed) ← parse_torrent_file m.sha1 init_torrent_file (contents_of buf)
  let contact = do
    (tr, answered) ← contact_tracker m.curl init_tracker_response tf
    if answered then start_threads tf tr.peers else ok none
  if parsed then contact else ok none

-- After the threads are joined: the contents of the output file, if it was opened, and the result.
unfoldable pub finish : System → Disk → Result (Option (List ℕ) × Bool)
finish s disk = do
  done ← is_done s.shared.pool
  let report = do undone ← get_num_undone_pieces s.shared.pool; ok (none, false)
  if done then write_to_file s.shared.df disk else report

-- How a call can come out: the threads run in any order from the state in which they are started
-- to one in which all have returned.
pub data Download (m : Machine) (out : Option (List ℕ) × Bool) : Type 0 where
  refused : prepare m ≡ ok none → out ≡ (none, false) → Download m out
  ran :
      (job : Job) (s : System)
      → prepare m ≡ ok (some job)
      → Reach m.malloc job.tf job.peers s
      → All IsFinished s.threads
      → finish s m.disk ≡ ok out
      → Download m out
