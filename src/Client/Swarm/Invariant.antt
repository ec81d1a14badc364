-- ===== src/Client/Swarm/Invariant.antt =====
-- What holds between the steps of the threads of src/client.c: each piece that is handed out is
-- held by one thread or is in the file, and each other piece by none.
use btb.PiecesPool.{PiecesPool, get_piece_index, mark_as_undone}
use btb.PiecesPool.Laws.{
  IsPool, taken, free, none_free, mark_as_undone-Marks, get_piece_index-Found,
  init_pieces_pool-IsPool,
}
use btb.PieceProgress.{PieceProgress, init_piece_progress}
use btb.TorrentFile.{TorrentFile}
use btb.DownloadedFile.{DownloadedFile, add_piece}
use btb.DownloadedFile.Laws.{IsDownloadedFile, present}
use btb.DownloadedFile.Slots.{IsAdded, add_piece-IsAdded, init_downloaded_file-absent}
use btb.Peer.{Peer}
use btb.Client.DownloadPiece.Kept.{download_piece-Keeps}
use btb.Client.Session.{Local}
use btb.Client.Swarm.{
  Pc, connecting, looping, picking, holding, finished, Shared, System, Move, refused, opened,
  all_done, give_up, go_on, pick, absent, not_downloaded, downloaded, Step, run, IsInitial, Reach,
  start, later, after_fail,
}
use btb.Client.Swarm.Counting.{
  holds, holders, IsHolding, holders-set, holders-ge, holders-connecting, All-connecting, All-get,
  All-set,
}
use btb.Base.{
  ℕ, ◌+◌, ◌^◌, ◌≤◌, ◌<◌, ◌≡◌, refl, sym, ◌∙◌, Bool, true, false, List, ok, arith, if◌then◌else◌,
  All, subst, IsWhenOk-ok,
}

abbrev pub one_if : Bool → ℕ
one_if b = if b then 1 else 0

-- The shared objects belong to the torrent.
pub record IsShared (tf : TorrentFile) (s : Shared) : Type 0 where
  pub valid : IsPool s.pool
  pub all_pieces : s.pool.num_pieces ≡ tf.num_pieces
  pub slots : IsDownloadedFile s.df
  pub same_torrent : s.df.tf ≡ tf

-- Where piece `j` is.
abbrev pub IsAccounted : List Pc → Shared → ℕ → Type 0
IsAccounted threads s j = holders j threads + one_if (present s.df j) ≡ one_if (taken s.pool j)

pub record IsSystem (tf : TorrentFile) (s : System) : Type 0 where
  pub objects : IsShared tf s.shared
  pub bounded : All (IsHolding tf.num_pieces) s.threads
  pub accounted : (j : ℕ) → j < tf.num_pieces → IsAccounted s.threads s.shared j

-- What one move of a thread does to a piece: who holds it and where it is change together.
record Moves (tf : TorrentFile) (s s' : Shared) (pc pc' : Pc) : Type 0 where
  pub objects : IsShared tf s'
  pub bounded : IsHolding tf.num_pieces pc'
  pub balanced :
      (j : ℕ)
      → j < tf.num_pieces
      → holds j pc + one_if (present s.df j) ≤ one_if (taken s.pool j)
      → (holds j pc' + one_if (present s'.df j)) + one_if (taken s.pool j)
        ≡ (holds j pc + one_if (present s.df j)) + one_if (taken s'.pool j)

module _ {tf : TorrentFile} {s : Shared} (v : IsShared tf s) where
  -- A move that touches no shared object and holds nothing.
  idle :
      (s' : Shared) (pc pc' : Pc)
      → s' ≡ s
      → IsHolding tf.num_pieces pc'
      → ((j : ℕ) → holds j pc ≡ 0)
      → ((j : ℕ) → holds j pc' ≡ 0)
      → Moves tf s s' pc pc'
  idle s' pc pc' e h before after = record {
    objects = subst (IsShared tf) (sym e) v;
    bounded = h;
    balanced = λ j lt le. rw (e, before j, after j) refl;
  }

  in_pool :
      (pool : PiecesPool)
      → IsPool pool
      → pool.num_pieces ≡ tf.num_pieces
      → IsShared tf (record s { pool = pool })
  in_pool pool valid all_pieces = record {
    valid = valid;
    all_pieces = all_pieces;
    slots = v.slots;
    same_torrent = v.same_torrent;
  }

  picked :
      (l : Local) (pool : PiecesPool) (i : ℕ)
      → get_piece_index s.pool ≡ ok (pool, i)
      → Moves tf s (record s { pool = pool }) (picking l) (holding l i)
  picked l pool i e = elim (get_piece_index-Found v.valid) [
    | free pool' k found lo hi not_taken before m ↦
        let same_pool : pool' ≡ pool = cc in
        let same_index : k ≡ i = cc in
        rw (sym same_pool, sym same_index)
          (record {
            objects = in_pool pool' m.valid (m.same_size ∙ v.all_pieces);
            bounded = omega (arith, v.all_pieces);
            balanced = λ j lt le. ground (arith, m.marks j);
          })
    | none_free found all ↦
        let same_pool : s.pool ≡ pool = cc in
        let same_index : s.pool.num_pieces + 1 ≡ i = cc in
        rw (sym same_pool, sym same_index)
          (record {
            objects = v;
            bounded = omega (arith, v.all_pieces);
            balanced = λ j lt le. ground (arith, v.all_pieces);
          })
  ]

  given_back :
      (l l' : Local) (pool : PiecesPool) (i : ℕ)
      → i ≤ tf.num_pieces + 1
      → mark_as_undone s.pool i ≡ ok pool
      → Moves tf s (record s { pool = pool }) (holding l i) (looping l')
  given_back l l' pool i small e =
      let (pool', done, m) = mark_as_undone-Marks v.valid i (omega (arith, v.all_pieces)) in
      let same_pool : pool' ≡ pool = cc in
      rw (sym same_pool) (record {
        objects = in_pool pool' m.valid (m.same_size ∙ v.all_pieces);
        bounded = tt;
        balanced = λ j lt le. ground (arith, m.marks j);
      })

  stored :
      (l l' : Local) (df : DownloadedFile) (p : PieceProgress) (block : List ℕ) (i : ℕ)
      → p.index ≡ i
      → add_piece s.df p block ≡ ok df
      → Moves tf s (record s { df = df }) (holding l i) (looping l')
  stored l l' df p block i same_index e =
      let added =
        IsWhenOk-ok (IsAdded s.df p block) (add_piece s.df p block)
          (add_piece-IsAdded s.df p block v.slots) e in
      record {
        objects = record {
          valid = v.valid;
          all_pieces = v.all_pieces;
          slots = added.slots;
          same_torrent = added.same_torrent ∙ v.same_torrent;
        };
        bounded = tt;
        balanced = λ j lt le. ground (arith, added.filled j);
      }

Move-Moves :
    (malloc : ℕ → List ℕ) {tf : TorrentFile} {s s' : Shared} {pc pc' : Pc}
    → IsShared tf s
    → IsHolding tf.num_pieces pc
    → Move malloc s s' pc pc'
    → Moves tf s s' pc pc'
Move-Moves malloc {s' = s'} v h (refused peer e incoming outgoing ends same) =
    idle v s' (connecting peer) (finished false) same tt (λ j. refl) (λ j. refl)
Move-Moves malloc {s' = s'} v h (opened peer e incoming outgoing {l = l} done same) =
    idle v s' (connecting peer) (looping l) same tt (λ j. refl) (λ j. refl)
Move-Moves malloc {s' = s'} v h (all_done {l = l} done same) =
    idle v s' (looping l) (finished true) same tt (λ j. refl) (λ j. refl)
Move-Moves malloc {s' = s'} v h (give_up {l = l} done many same) =
    idle v s' (looping l) (finished true) same tt (λ j. refl) (λ j. refl)
Move-Moves malloc {s' = s'} v h (go_on {l = l} done few same) =
    idle v s' (looping l) (picking l) same tt (λ j. refl) (λ j. refl)
Move-Moves malloc {tf = tf} {s = s} v h (pick {l = l} pool {i = i} e same) =
    subst (λ (s' : Shared). Moves tf s s' (picking l) (holding l i)) (sym same)
      (picked v l pool i e)
Move-Moves malloc {tf = tf} {s = s} v h (absent {l = l} pool {i = i} gone e same) =
    let l' = after_fail l l.c in
    subst (λ (s' : Shared). Moves tf s s' (holding l i) (looping l')) (sym same)
      (given_back v l l' pool i h e)
Move-Moves malloc {tf = tf} {s = s} v h
      (not_downloaded {l = l} pool {i = i} block p {c = c} sized there got e same) =
    let l' = after_fail l c in
    subst (λ (s' : Shared). Moves tf s s' (holding l i) (looping l')) (sym same)
      (given_back v l l' pool i h e)
Move-Moves malloc {tf = tf} {s = s} v h
      (downloaded {l = l} df {i = i} block piece_block p {c = c} sized room there got e same) =
    let l' = record l { c = c } in
    let start_piece = init_piece_progress i s.df.tf.piece_length block in
    let same_index : p.index ≡ i =
      (download_piece-Keeps malloc start_piece p l.c c true got).same_index in
    subst (λ (s' : Shared). Moves tf s s' (holding l i) (looping l')) (sym same)
      (stored v l l' df p piece_block i same_index e)

-- Every step of a thread keeps the invariant.
pub Step-IsSystem :
    (malloc : ℕ → List ℕ) (tf : TorrentFile) (s t : System)
    → IsSystem tf s
    → Step malloc s t
    → IsSystem tf t
Step-IsSystem malloc tf s t v (run k pc pc' at move next) =
    let m =
      Move-Moves malloc v.objects (All-get (IsHolding tf.num_pieces) s.threads k pc v.bounded at)
        move in
    record {
      objects = m.objects;
      bounded = rw next (All-set (IsHolding tf.num_pieces) s.threads k pc' v.bounded m.bounded);
      accounted = λ j lt.
          let changed = holders-set j s.threads k pc pc' at in
          let held = holders-ge j s.threads k pc at in
          let before = v.accounted j lt in
          let moved = m.balanced j lt (omega arith) in rw next (omega arith);
    }

-- `download_torrent` starts the threads with nothing handed out and nothing in the file.
pub initial-IsSystem :
    (tf : TorrentFile) (peers : List Peer) (s : System)
    → 0 < tf.num_pieces
    → tf.num_pieces ≤ 2 ^ 31
    → IsInitial tf peers s
    → IsSystem tf s
initial-IsSystem tf peers s pos small (e_pool, e_df, e_threads) =
    let (pool, made, valid, size, none_taken) = init_pieces_pool-IsPool tf.num_pieces pos small in
    let (slots, same_torrent, absent_all) = init_downloaded_file-absent tf in
    let same_pool : s.shared.pool ≡ pool = cc in
    record {
      objects = record {
        valid = rw same_pool valid;
        all_pieces = rw same_pool size;
        slots = rw e_df slots;
        same_torrent = rw e_df same_torrent;
      };
      bounded = rw e_threads (All-connecting tf.num_pieces peers);
      accounted = λ j lt.
          rw (same_pool, e_df, e_threads, none_taken j, absent_all j, holders-connecting j peers)
            (omega arith);
    }

-- For a torrent of 1 to 2 ^ 31 pieces, in every state that the threads reach the pool is valid and
-- has the torrent's number of pieces, the file has a slot for each piece, what a thread holds is
-- at most one past the number of pieces, and for each piece the threads that hold it and its copy
-- in the file together are one if it is marked in the pool, and none otherwise.
pub Reach-IsSystem :
    (malloc : ℕ → List ℕ) (tf : TorrentFile) (peers : List Peer) (s : System)
    → 0 < tf.num_pieces
    → tf.num_pieces ≤ 2 ^ 31
    → Reach malloc tf peers s
    → IsSystem tf s
Reach-IsSystem malloc tf peers s pos small (start initial) =
    initial-IsSystem tf peers s pos small initial
Reach-IsSystem malloc tf peers s pos small (later {s = before} reached step) =
    Step-IsSystem malloc tf before s (Reach-IsSystem malloc tf peers before pos small reached) step
