-- ===== src/Client/Swarm/Potential.antt =====
-- What the threads of src/client.c can still do: each move of a thread that stores no piece, and each
-- piece that is stored, lowers a bound on the steps to come.
use btb.TorrentFile.{TorrentFile}
use btb.PieceProgress.{PieceProgress}
use btb.DownloadedFile.{DownloadedFile, add_piece}
use btb.Conn.{Conn}
use btb.DownloadedFile.Laws.{present}
use btb.DownloadedFile.Slots.{IsAdded, add_piece-IsAdded}
use btb.Peer.{Peer}
use btb.Client.DownloadPiece.Kept.{download_piece-Keeps}
use btb.Client.Session.{Local}
use btb.Client.Swarm.{
  Pc, connecting, looping, picking, holding, finished, Shared, Move, refused, opened, all_done,
  give_up, go_on, pick, absent, not_downloaded, downloaded, after_fail,
}
use btb.Client.Swarm.Invariant.{IsShared}
use btb.Base.{
  map, length, ℕ, zero, suc, ◌+◌, ◌-◌, ◌*◌, ◌≤◌, ◌<◌, ◌≡◌, refl, sym, ap, true, false, List, [],
  ◌∷◌, some, ok, arith, ◌==◌, if◌then◌else◌, get_elem?, set, subst, Option, ◌≢◌, IsWhenOk-ok,
  Bool-cases, inl, inr, ==_iff,
}

-- At most so many more steps are taken by a thread that stores no piece.
abbrev pub steps_left : Pc → ℕ
steps_left (connecting peer) = 26
steps_left (looping l) = 3 * (8 - l.failed_attempts) + 1
steps_left (picking l) = 3 * (8 - l.failed_attempts)
steps_left (holding l i) = 3 * (8 - l.failed_attempts) - 1
steps_left (finished r) = 0

abbrev pub all_steps_left : List Pc → ℕ
all_steps_left [] = 0
all_steps_left (pc ∷ threads) = steps_left pc + all_steps_left threads

-- How many of the `n` pieces from `i` on are not in the file.
abbrev pub missing : ℕ → ℕ → DownloadedFile → ℕ
missing zero i df = 0
missing (suc n) i df = (if present df i then 0 else 1) + missing n (i + 1) df

-- Within the loop's round the failures are fewer than the most allowed.
abbrev pub IsTrying : Pc → Type 0
IsTrying (connecting peer) = Unit
IsTrying (looping l) = Unit
IsTrying (picking l) = l.failed_attempts < 8
IsTrying (holding l i) = l.failed_attempts < 8
IsTrying (finished r) = Unit

pub all_steps_left-set :
    (threads : List Pc) (k : ℕ) (pc pc' : Pc)
    → get_elem? threads k ≡ some pc
    → all_steps_left (set threads k pc') + steps_left pc ≡ all_steps_left threads + steps_left pc'
all_steps_left-set [] k pc pc' e = cc
all_steps_left-set (x ∷ threads) zero pc pc' e = let same : x ≡ pc = cc in rw same (omega arith)
all_steps_left-set (x ∷ threads) (suc k) pc pc' e =
    omega (arith, all_steps_left-set threads k pc pc' e)

pub all_steps_left-connecting :
    (peers : List Peer) → all_steps_left (map connecting peers) ≡ 26 * length peers
all_steps_left-connecting [] = refl
all_steps_left-connecting (p ∷ peers) = omega (arith, all_steps_left-connecting peers)

pub missing-le : (n i : ℕ) (df : DownloadedFile) → missing n i df ≤ n
missing-le zero i df = omega arith
missing-le (suc n) i df = ground (arith, missing-le n (i + 1) df)

module _ (df df' : DownloadedFile) (k : ℕ)
    (filled : (j : ℕ) → present df' j ≡ (if k == j then true else present df j)) where
  missing-same : (n i : ℕ) → k < i → missing n i df' ≡ missing n i df
  missing-same zero i lt = refl
  missing-same (suc n) i lt = ground (arith, filled i, missing-same n (i + 1) (omega arith))

  -- A piece that is added is not missing any more.
  missing-filled :
      (n i : ℕ) → present df k ≡ false → i ≤ k → k < i + n → missing n i df' + 1 ≡ missing n i df
  missing-filled zero i gone lo hi = absurd (omega arith)
  missing-filled (suc n) i gone lo hi = elim (Bool-cases (k == i)) [
    | inl here ↦
        let same = (==_iff k i).0 here in
        let now : present df i ≡ false = rw (sym same) gone in
        ground (arith, filled i, now, here, missing-same n (i + 1) (omega arith))
    | inr elsewhere ↦
        let apart : k ≢ i = λ e. cc ((==_iff k i).1 e) in
        ground (arith, filled i, elsewhere, missing-filled n (i + 1) gone (omega arith))
  ]

-- What one move spends of the bound.
pub record Spends (tf : TorrentFile) (s s' : Shared) (pc pc' : Pc) : Type 0 where
  pub spent :
      steps_left pc' + 3 * missing tf.num_pieces 0 s'.df + 1
      ≤ steps_left pc + 3 * missing tf.num_pieces 0 s.df
  pub trying : IsTrying pc'

same_file :
    (tf : TorrentFile) (s s' : Shared) (pc pc' : Pc)
    → s'.df ≡ s.df
    → steps_left pc' < steps_left pc
    → IsTrying pc'
    → Spends tf s s' pc pc'
same_file tf s s' pc pc' e lt trying = record { spent = rw e (omega arith); trying = trying }

module _ {tf : TorrentFile} {s : Shared} (v : IsShared tf s) where
  Spends-stored :
      (l : Local) (c : Option Conn) (df : DownloadedFile) (p : PieceProgress) (block : List ℕ)
      (i : ℕ)
      → p.index ≡ i
      → i < tf.num_pieces
      → present s.df i ≡ false
      → l.failed_attempts < 8
      → add_piece s.df p block ≡ ok df
      → Spends tf s (record s { df = df }) (holding l i) (looping (record l { c = c }))
  Spends-stored l c df p block i same h gone few e =
      let added =
        IsWhenOk-ok (IsAdded s.df p block) (add_piece s.df p block)
          (add_piece-IsAdded s.df p block v.slots) e in
      let one =
        missing-filled s.df df p.index added.filled tf.num_pieces 0 (rw same gone) (omega arith)
          (omega arith) in
      record { spent = omega arith; trying = tt }

pub Move-Spends :
    (malloc : ℕ → List ℕ) {tf : TorrentFile} {s s' : Shared} {pc pc' : Pc}
    → IsShared tf s
    → IsTrying pc
    → ((l : Local) (i : ℕ) → pc ≡ holding l i → i < tf.num_pieces → present s.df i ≡ false)
    → Move malloc s s' pc pc'
    → Spends tf s s' pc pc'
Move-Spends malloc {tf = tf} {s = s} {s' = s'} v h g (refused peer e incoming outgoing ends same) =
    same_file tf s s' (connecting peer) (finished false) (ap (λ (x : Shared). x.df) same)
      (omega arith) tt
Move-Spends malloc {tf = tf} {s = s} {s' = s'} v h g
      (opened peer e incoming outgoing {l = l} done same) =
    same_file tf s s' (connecting peer) (looping l) (ap (λ (x : Shared). x.df) same) (omega arith)
      tt
Move-Spends malloc {tf = tf} {s = s} {s' = s'} v h g (all_done {l = l} done same) =
    same_file tf s s' (looping l) (finished true) (ap (λ (x : Shared). x.df) same) (omega arith) tt
Move-Spends malloc {tf = tf} {s = s} {s' = s'} v h g (give_up {l = l} done many same) =
    same_file tf s s' (looping l) (finished true) (ap (λ (x : Shared). x.df) same) (omega arith) tt
Move-Spends malloc {tf = tf} {s = s} {s' = s'} v h g (go_on {l = l} done few same) =
    same_file tf s s' (looping l) (picking l) (ap (λ (x : Shared). x.df) same) (omega arith) few
Move-Spends malloc {tf = tf} {s = s} {s' = s'} v h g (pick {l = l} pool {i = i} e same) =
    same_file tf s s' (picking l) (holding l i) (ap (λ (x : Shared). x.df) same) (omega arith) h
Move-Spends malloc {tf = tf} {s = s} {s' = s'} v h g (absent {l = l} pool {i = i} gone e same) =
    same_file tf s s' (holding l i) (looping (after_fail l l.c)) (ap (λ (x : Shared). x.df) same)
      (omega arith) tt
Move-Spends malloc {tf = tf} {s = s} {s' = s'} v h g
      (not_downloaded {l = l} pool {i = i} block p {c = c} sized there got e same) =
    same_file tf s s' (holding l i) (looping (after_fail l c)) (ap (λ (x : Shared). x.df) same)
      (omega arith) tt
Move-Spends malloc {tf = tf} {s = s} v h g
      (downloaded {l = l} df {i = i} block piece_block p {c = c} sized room there got e same) =
    let same_index = (download_piece-Keeps malloc _ p l.c c true got).same_index in
    let added =
      IsWhenOk-ok (IsAdded s.df p piece_block) (add_piece s.df p piece_block)
        (add_piece-IsAdded s.df p piece_block v.slots) e in
    let num = ap (λ (t : TorrentFile). t.num_pieces) v.same_torrent in
    let inside : i < tf.num_pieces = omega (arith, added.inside) in
    subst (λ (s' : Shared). Spends tf s s' (holding l i) (looping (record l { c = c }))) (sym same)
      (Spends-stored v l c df p piece_block i same_index inside (g l i refl inside) h e)
