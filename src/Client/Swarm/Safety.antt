-- ===== src/Client/Swarm/Safety.antt =====
-- What the invariant of the threads of src/client.c gives: a piece is held by one thread at a time,
-- is not stored twice, and none is lost when the threads have ended.
use btb.PiecesPool.{is_done}
use btb.PiecesPool.Laws.{taken, is_done_iff}
use btb.TorrentFile.{TorrentFile}
use btb.DownloadedFile.{has_all_pieces}
use btb.DownloadedFile.Laws.{present, has_all_pieces_iff}
use btb.Peer.{Peer}
use btb.Client.Session.{Local}
use btb.Client.Swarm.{holding, System, Reach}
use btb.Client.Swarm.Counting.{holders-ge, holders-two, holds_self, holders-finished, IsFinished}
use btb.Client.Swarm.Invariant.{IsSystem, Reach-IsSystem}
use btb.Base.{
  ℕ, ◌^◌, ◌≤◌, ◌<◌, ◌≡◌, refl, ◌∙◌, sym, ap, Bool, true, false, List, some, ok, arith, get_elem?,
  All,
}

same_answer : (r r' : Bool) → (r ≡ true → r' ≡ true) → (r' ≡ true → r ≡ true) → r ≡ r'
same_answer true r' forth back = sym (forth refl)
same_answer false true forth back = back refl
same_answer false false forth back = refl

module _ (malloc : ℕ → List ℕ) (tf : TorrentFile) (peers : List Peer) (s : System)
    (pos : 0 < tf.num_pieces) (small : tf.num_pieces ≤ 2 ^ 31)
    (reached : Reach malloc tf peers s) where
  system : IsSystem tf s
  system = Reach-IsSystem malloc tf peers s pos small reached

  -- For a torrent of 1 to 2 ^ 31 pieces, two threads of a reached state that hold the same piece,
  -- of an index below the number of pieces, are the same thread.
  pub held_once :
      (k m i : ℕ) (l l' : Local)
      → i < tf.num_pieces
      → get_elem? s.threads k ≡ some (holding l i)
      → get_elem? s.threads m ≡ some (holding l' i)
      → k ≡ m
  held_once k m i l l' h e f =
      let only = system.accounted i h in
      let one = holds_self i l in
      let one' = holds_self i l' in
      let up = holders-two i s.threads k m (holding l i) (holding l' i) in
      let down = holders-two i s.threads m k (holding l' i) (holding l i) in
      ground (arith, only, one, one', up, down, e, f)

  -- For a torrent of 1 to 2 ^ 31 pieces, a piece of an index below the number of pieces that a
  -- thread of a reached state holds is marked in the pool and is not in the file.
  pub held-absent :
      (k i : ℕ) (l : Local)
      → i < tf.num_pieces
      → get_elem? s.threads k ≡ some (holding l i)
      → (taken s.shared.pool i ≡ true) × (present s.shared.df i ≡ false)
  held-absent k i l h e =
      let only = system.accounted i h in
      let one = holds_self i l in
      let held = holders-ge i s.threads k (holding l i) e in
      (ground (arith, only, one, held), ground (arith, only, one, held))

  -- When all threads of a reached state have ended, the pieces in the file are those handed out.
  pub finished_present :
      All IsFinished s.threads
      → (j : ℕ) → j < tf.num_pieces
      → present s.shared.df j ≡ taken s.shared.pool j
  finished_present ended j h =
      let only = system.accounted j h in
      let none_held = holders-finished j s.threads ended in ground (arith, only, none_held)

  -- For a torrent of 1 to 2 ^ 31 pieces, in every state that the interleaved threads reach and in
  -- which all of them have ended, `is_done` on the pool and `has_all_pieces` on the file both
  -- return, with the same answer.
  pub finished_complete :
      All IsFinished s.threads
      → (r : Bool) × (is_done s.shared.pool ≡ ok r) × (has_all_pieces s.shared.df ≡ ok r)
  finished_complete ended =
      let v = system.objects in
      let (r, e, done) = is_done_iff v.valid in
      let (r', e', all) = has_all_pieces_iff s.shared.df v.slots in
      let pool_size = v.all_pieces in
      let file_size = ap (λ (t : TorrentFile). t.num_pieces) v.same_torrent in
      let forth : r ≡ true → r' ≡ true =
        λ t. all.1 (λ j h. finished_present ended j (omega arith) ∙ done.0 t j (omega arith)) in
      let back : r' ≡ true → r ≡ true = λ t.
        done.1 (λ j h. sym (finished_present ended j (omega arith)) ∙ all.0 t j (omega arith)) in
      (r, e, e' ∙ ap ok (sym (same_answer r r' forth back)))
