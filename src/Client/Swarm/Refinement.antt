-- ===== src/Client/Swarm/Refinement.antt =====
-- What the threads of src/client.c promise for each piece: it is free, held by one of them, or in the
-- file, and a piece in the file stays there.
use btb.PiecesPool.{PiecesPool, get_piece_index, mark_as_undone}
use btb.PiecesPool.Laws.{
  taken, free, none_free, get_piece_index-Found, mark_as_undone-Marks, init_pieces_pool-IsPool,
}
use btb.PieceProgress.{PieceProgress}
use btb.TorrentFile.{TorrentFile}
use btb.DownloadedFile.{DownloadedFile, add_piece}
use btb.DownloadedFile.Laws.{present}
use btb.DownloadedFile.Slots.{IsAdded, add_piece-IsAdded, init_downloaded_file-absent}
use btb.Client.DownloadPiece.Kept.{download_piece-Keeps}
use btb.Client.Session.{Local}
use btb.Peer.{Peer}
use btb.Client.Swarm.{
  Pc, connecting, looping, picking, finished, holding, Shared, System, Move, refused, opened,
  all_done, give_up, go_on, pick, absent, not_downloaded, downloaded, run, Reach, start, later,
  IsInitial,
}
use btb.Client.Swarm.Counting.{IsHolding, All-get, holders-ge, holds_self}
use btb.Client.Swarm.Invariant.{IsSystem, IsShared, Reach-IsSystem}
use btb.Base.{
  ℕ, ◌+◌, ◌^◌, ◌≤◌, ◌<◌, ◌≡◌, refl, sym, ◌∙◌, ap, Bool, true, false, List, Option, none, some, ok,
  arith, if◌then◌else◌, get_elem?, ltb, ltb→lt, IsWhenOk-ok, Bool-cases, inl, inr,
}
use btb.Client.Swarm.Specification.{
  Place, unclaimed, claimed, stored, SpecStep, idle, claim, claim_none, release, release_none,
  store,
}

-- What a thread holds.
abbrev pub held_by : Pc → Option ℕ
held_by (connecting peer) = none
held_by (looping l) = none
held_by (picking l) = none
held_by (holding l i) = some i
held_by (finished r) = none

abbrev place : Bool → Bool → Place
place in_file marked = if in_file then stored else (if marked then claimed else unclaimed)

-- Where the pieces of a state are.
abbrev pub places : Shared → ℕ → Place
places s j = place (present s.df j) (taken s.pool j)

module _ {tf : TorrentFile} {s : Shared} (v : IsShared tf s) where
  spec_picked :
      (pool : PiecesPool) (i : ℕ)
      → ((j : ℕ) → j < tf.num_pieces → taken s.pool j ≡ false → present s.df j ≡ false)
      → get_piece_index s.pool ≡ ok (pool, i)
      → SpecStep tf.num_pieces (places s) (places (record s { pool = pool })) none (some i)
  spec_picked pool i absent_if e = elim (get_piece_index-Found v.valid) [
    | free pool' k found lo hi not_taken before m ↦
        let same_pool : pool' ≡ pool = cc in
        let same_i : k ≡ i = cc in
        let gone = absent_if k (omega (arith, v.all_pieces)) not_taken in
        rw (sym same_pool) (
          claim k refl (ap some (sym same_i)) (omega (arith, v.all_pieces))
            (rw (gone, not_taken) refl) (ground (arith, gone, m.marks k))
            (λ j lt ne. ground (arith, m.marks j, ne)))
    | none_free found all ↦
        let same_pool : s.pool ≡ pool = cc in
        let same_i : s.pool.num_pieces + 1 ≡ i = cc in
        rw (sym same_pool) (claim_none i refl refl (omega (arith, v.all_pieces)) (λ j lt. refl))
  ]

  spec_given_back :
      (pool : PiecesPool) (i : ℕ)
      → i ≤ tf.num_pieces + 1
      → (i < tf.num_pieces → (taken s.pool i ≡ true) × (present s.df i ≡ false))
      → mark_as_undone s.pool i ≡ ok pool
      → SpecStep tf.num_pieces (places s) (places (record s { pool = pool })) (some i) none
  spec_given_back pool i small held e =
      let (pool', done, m) = mark_as_undone-Marks v.valid i (omega (arith, v.all_pieces)) in
      let same_pool : pool' ≡ pool = cc in
      rw (sym same_pool) (elim (Bool-cases (ltb i tf.num_pieces)) [
        | inr outside ↦
            release_none i refl refl (ground (arith, outside))
              (λ j lt. ground (arith, m.marks j, outside))
        | inl inside ↦
            let (marked, gone) = held (ltb→lt i tf.num_pieces inside) in
            release i refl refl (ltb→lt i tf.num_pieces inside) (rw (gone, marked) refl)
              (ground (arith, gone, m.marks i)) (λ j lt ne. ground (arith, m.marks j, ne))
      ])

  spec_stored :
      (df : DownloadedFile) (p : PieceProgress) (block : List ℕ) (i : ℕ)
      → p.index ≡ i
      → (i < tf.num_pieces → (taken s.pool i ≡ true) × (present s.df i ≡ false))
      → add_piece s.df p block ≡ ok df
      → SpecStep tf.num_pieces (places s) (places (record s { df = df })) (some i) none
  spec_stored df p block i same held e =
      let added =
        IsWhenOk-ok (IsAdded s.df p block) (add_piece s.df p block)
          (add_piece-IsAdded s.df p block v.slots) e in
      let num = ap (λ (t : TorrentFile). t.num_pieces) v.same_torrent in
      let (marked, gone) = held (omega (arith, added.inside)) in
      store i refl refl (omega (arith, added.inside, num, same)) (rw (gone, marked) refl)
        (ground (arith, added.filled i, same)) (λ j lt ne. ground (arith, added.filled j, same, ne))

-- What a thread holds is claimed.
held_claimed :
    (tf : TorrentFile) (s : System) (k i : ℕ) (l : Local)
    → IsSystem tf s
    → get_elem? s.threads k ≡ some (holding l i)
    → i < tf.num_pieces
    → (taken s.shared.pool i ≡ true) × (present s.shared.df i ≡ false)
held_claimed tf s k i l v at h =
    let only = v.accounted i h in
    let one = holds_self i l in
    let held = holders-ge i s.threads k (holding l i) at in
    (ground (arith, only, one, held), ground (arith, only, one, held))

Move-SpecStep :
    (malloc : ℕ → List ℕ) {tf : TorrentFile} {s s' : Shared} {pc pc' : Pc}
    → IsShared tf s
    → IsHolding tf.num_pieces pc
    → ((j : ℕ) → j < tf.num_pieces → taken s.pool j ≡ false → present s.df j ≡ false)
    → ((l : Local) (i : ℕ)
        → pc ≡ holding l i
        → i < tf.num_pieces
        → (taken s.pool i ≡ true) × (present s.df i ≡ false))
    → Move malloc s s' pc pc'
    → SpecStep tf.num_pieces (places s) (places s') (held_by pc) (held_by pc')
Move-SpecStep malloc v h a g (refused peer e incoming outgoing ends same) =
    rw same (idle refl refl (λ j lt. refl))
Move-SpecStep malloc v h a g (opened peer e incoming outgoing done same) =
    rw same (idle refl refl (λ j lt. refl))
Move-SpecStep malloc v h a g (all_done done same) = rw same (idle refl refl (λ j lt. refl))
Move-SpecStep malloc v h a g (give_up done many same) = rw same (idle refl refl (λ j lt. refl))
Move-SpecStep malloc v h a g (go_on done few same) = rw same (idle refl refl (λ j lt. refl))
Move-SpecStep malloc v h a g (pick pool {i = i} e same) = rw same (spec_picked v pool i a e)
Move-SpecStep malloc v h a g (absent {l = l} pool {i = i} gone e same) =
    rw same (spec_given_back v pool i h (g l i refl) e)
Move-SpecStep malloc v h a g (not_downloaded {l = l} pool {i = i} block p sized there got e same) =
    rw same (spec_given_back v pool i h (g l i refl) e)
Move-SpecStep malloc v h a g
      (downloaded {l = l} df {i = i} block piece_block p {c = c} sized room there got e same) =
    let same_index = (download_piece-Keeps malloc _ p l.c c true got).same_index in
    rw same (spec_stored v df p piece_block i same_index (g l i refl) e)

-- A run of the threads is a run of the specification: no piece is claimed at first, and each step is
-- a step of the specification by the thread that makes it.
pub IsTrace :
    {malloc : ℕ → List ℕ} {tf : TorrentFile} {peers : List Peer} {s : System}
    → Reach malloc tf peers s
    → Type 0
IsTrace {tf = tf} {s = s} (start initial) =
    (j : ℕ) → j < tf.num_pieces → places s.shared j ≡ unclaimed
IsTrace {tf = tf} {s = t} (later {s = s} reached (run k pc pc' at move next)) =
    IsTrace reached
    × SpecStep tf.num_pieces (places s.shared) (places t.shared) (held_by pc) (held_by pc')

module _ (malloc : ℕ → List ℕ) (tf : TorrentFile) (peers : List Peer) where
  initial-places :
      (s : System)
      → 0 < tf.num_pieces
      → tf.num_pieces ≤ 2 ^ 31
      → IsInitial tf peers s
      → (j : ℕ) → places s.shared j ≡ unclaimed
  initial-places s pos small (e_pool, e_df, e_threads) j =
      let (pool, made, valid, size, none_taken) = init_pieces_pool-IsPool tf.num_pieces pos small in
      let (slots, same_torrent, absent_all) = init_downloaded_file-absent tf in
      let same_pool : s.shared.pool ≡ pool = cc in
      rw (same_pool, e_df, absent_all j, none_taken j) refl

  -- For a torrent of 1 to 2 ^ 31 pieces, every run of the interleaved threads is a run of the
  -- specification, in which every piece is unclaimed, claimed or stored: all are unclaimed at
  -- first, and in each step the thread that makes it, if it holds nothing, claims one unclaimed
  -- piece or changes nothing, and if it holds a piece, that piece is claimed and the thread gives
  -- it back or stores it, while all other pieces stay where they are. An index outside the torrent
  -- stands for no piece, and to get or to give back one changes nothing.
  pub Reach-IsTrace :
      (s : System)
      → 0 < tf.num_pieces
      → tf.num_pieces ≤ 2 ^ 31
      → (reached : Reach malloc tf peers s) → IsTrace reached
  unfolding IsTrace
  Reach-IsTrace s pos small (start initial) = λ j lt. initial-places s pos small initial j
  Reach-IsTrace s pos small (later {s = before} reached (run k pc pc' at move next)) =
      let v = Reach-IsSystem malloc tf peers before pos small reached in
      (
        Reach-IsTrace before pos small reached,
        Move-SpecStep malloc v.objects
            (All-get (IsHolding tf.num_pieces) before.threads k pc v.bounded at)
            (λ j lt gone. ground (arith, v.accounted j lt, gone))
            (λ l i is. held_claimed tf before k i l v (at ∙ ap some is)) move,
      )
