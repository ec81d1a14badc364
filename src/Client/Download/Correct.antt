-- ===== src/Client/Download/Correct.antt =====
-- What a call of `download_torrent` in src/client.c that returns has done.
use btb.TorrentFile.{TorrentFile}
use btb.DownloadedFile.{Disk, write_to_file}
use btb.DownloadedFile.Laws.{IsComplete, joined}
use btb.DownloadedFile.Written.{write_to_file-true}
use btb.PiecesPool.{is_done, get_num_undone_pieces}
use btb.Client.Swarm.{System, Reach}
use btb.Client.Swarm.Counting.{IsFinished}
use btb.Client.Swarm.Contents.{IsFetched, Reach-IsFetched, fetched-IsComplete}
use btb.Client.Download.{Machine, Job, Download, refused, ran, prepare, finish}
use btb.Base.{
  ℕ, All, ◌≡◌, refl, ◌∙◌, ap, Bool, true, false, List, ◌++◌, Option, none, some, Result, ok, ◌>>=◌,
  >>=-ok, arith, if◌then◌else◌,
}

-- A call that returned true: a run of the threads, with what it has brought into the file, and the
-- output file.
pub record IsSaved (m : Machine) (contents : List ℕ) : Type 0 where
  pub job : Job
  pub prepared : prepare m ≡ ok (some job)
  pub s : System
  pub reached : Reach m.malloc job.tf job.peers s
  pub ended : All IsFinished s.threads
  pub all_done : is_done s.shared.pool ≡ ok true
  pub fetched : IsFetched reached
  pub complete : IsComplete s.shared.df
  pub written : contents ≡ m.disk.after_remove ++ joined job.tf.num_pieces 0 s.shared.df.pieces_buf

abbrev pub saved : List ℕ → Result (Option (List ℕ) × Bool)
saved contents = ok (some contents, true)

after_test :
    (s : System) (disk : Disk) (contents : List ℕ) (done : Bool)
    → (if done
        then write_to_file s.shared.df disk
        else get_num_undone_pieces s.shared.pool >>= λ undone. ok (none, false))
      ≡ saved contents
    → (done ≡ true) × (write_to_file s.shared.df disk ≡ saved contents)
after_test s disk contents true e = (refl, e)
after_test s disk contents false e =
    let (undone, counted, next) = >>=-ok (get_num_undone_pieces s.shared.pool) _ e in cc

-- If `download_torrent` returns true and has written `contents`, then the torrent file was parsed
-- and the tracker has answered, and the threads have made a run, from the state in which they are
-- started to one in which all have returned and `is_done` answers true, after which the file has a
-- piece of `piece_length` bytes for each piece of the torrent. Each of these was stored by a step
-- of this run, that of a thread which held this piece: it is the buffer that the call of
-- `download_piece` for the piece on this thread's own connection, which returned true, has filled
-- with the `Piece` messages that it read for the piece's blocks in order. `contents` is what
-- `remove` has left of the output file, followed by the pieces in order of their indices.
pub Download-IsSaved :
    (m : Machine) (contents : List ℕ) → Download m (some contents, true) → IsSaved m contents
unfolding finish
Download-IsSaved m contents (refused e out) = cc
Download-IsSaved m contents (ran job s prepared reached ended e) =
    let df = s.shared.df in
    let (done, tested, next) = >>=-ok (is_done s.shared.pool) _ e in
    let fetched = Reach-IsFetched m.malloc job.tf job.peers s reached in
    let num = ap (λ (t : TorrentFile). t.num_pieces) fetched.same_torrent in
    let (all_done, wrote) = after_test s m.disk contents done next in
    let (complete, written) =
      write_to_file-true df m.disk contents fetched.valid
        (λ all.
          fetched-IsComplete m.malloc job.tf job.peers s reached fetched
            (λ j h. all j (omega arith)))
        wrote in
    record {
      job = job;
      prepared = prepared;
      s = s;
      reached = reached;
      ended = ended;
      all_done = tested ∙ ap ok all_done;
      fetched = fetched;
      complete = complete;
      written = written ∙ ap (λ (n : ℕ). m.disk.after_remove ++ joined n 0 df.pieces_buf) num;
    }
