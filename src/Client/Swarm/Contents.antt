-- ===== src/Client/Swarm/Contents.antt =====
-- What the file of src/client.c holds: each piece in it is the buffer of a download of that piece
-- that succeeded.
use btb.TorrentFile.{TorrentFile}
use btb.DownloadedFile.{init_downloaded_file}
use btb.DownloadedFile.Laws.{slot, present, IsDownloadedFile, IsComplete}
use btb.DownloadedFile.Written.{present-slot, slot-get_elem?}
use btb.Peer.{Peer}
use btb.Client.Swarm.{System, run, IsInitial, Reach, start, later}
use btb.Base.{
  ℕ, zero, suc, ◌<◌, ◌≡◌, refl, sym, ◌∙◌, ap, true, List, none, some, arith, length, replicate, ◌⊎◌,
  inl, inr, length-replicate,
}
use btb.Client.Swarm.Stored.{IsStored, Move-Fills}

-- One of the steps of a run has stored these bytes as piece `i`.
pub HasStored :
    {malloc : ℕ → List ℕ} {tf : TorrentFile} {peers : List Peer} {s : System}
    → Reach malloc tf peers s
    → ℕ
    → List ℕ
    → Type 0
HasStored (start initial) i bytes = ⊥
HasStored {malloc = malloc} {tf = tf} (later reached (run k pc pc' at move next)) i bytes =
    IsStored malloc tf pc pc' i bytes ⊎ HasStored reached i bytes

-- The file of a run is the torrent's, and what is in it was stored by a step of the run.
pub record IsFetched {malloc : ℕ → List ℕ} {tf : TorrentFile} {peers : List Peer} {s : System}
    (reached : Reach malloc tf peers s) : Type 0 where
  pub same_torrent : s.shared.df.tf ≡ tf
  pub valid : IsDownloadedFile s.shared.df
  pub fetched :
      (j : ℕ) (bytes : List ℕ)
      → slot s.shared.df.pieces_buf j ≡ some bytes
      → HasStored reached j bytes

slot-replicate : (n j : ℕ) → slot (replicate n none) j ≡ none
slot-replicate zero j = refl
slot-replicate (suc n) zero = refl
slot-replicate (suc n) (suc j) = slot-replicate n j

module _ (malloc : ℕ → List ℕ) (tf : TorrentFile) where
  initial-empty :
      (peers : List Peer) (s : System)
      → IsInitial tf peers s
      → (s.shared.df.tf ≡ tf)
        × IsDownloadedFile s.shared.df
        × ((j : ℕ) → slot s.shared.df.pieces_buf j ≡ none)
  unfolding init_downloaded_file
  initial-empty peers s (e_pool, e_df, e_threads) =
      rw e_df
        (refl, record { slots = length-replicate tf.num_pieces none }, slot-replicate tf.num_pieces)

  -- In every state that the interleaved threads reach, the file is the torrent's and has a slot
  -- for each piece, and the bytes in a slot were stored by a step of the run, that of a thread
  -- which held this piece: they are the buffer, of `piece_length` bytes, that the call of
  -- `download_piece` for the piece on this thread's own connection, which returned true, has
  -- filled with the `Piece` messages that it read for the piece's blocks in order.
  pub Reach-IsFetched :
      (peers : List Peer) (s : System) (reached : Reach malloc tf peers s) → IsFetched reached
  unfolding HasStored
  Reach-IsFetched peers s (start initial) =
      let (torrent, valid, empty) = initial-empty peers s initial in
      record {
        same_torrent = torrent;
        valid = valid;
        fetched = λ j bytes at. absurd (cc (empty j));
      }
  Reach-IsFetched peers s (later {s = before} reached (run k pc pc' at move next)) =
      let v = Reach-IsFetched peers before reached in
      let now = Move-Fills malloc tf v.same_torrent v.valid move in
      record {
        same_torrent = now.same_torrent;
        valid = now.valid;
        fetched = λ j bytes here. elim (now.filled j bytes here) [
          | inl stores ↦ inl stores
          | inr earlier ↦ inr (v.fetched j bytes earlier)
        ];
      }

stored_sized :
    {malloc : ℕ → List ℕ} {tf : TorrentFile} {peers : List Peer} (s : System)
    (reached : Reach malloc tf peers s) (i : ℕ) (bytes : List ℕ)
    → HasStored reached i bytes
    → length bytes ≡ tf.piece_length
unfolding HasStored
stored_sized s (start initial) i bytes h = absurd h
stored_sized s (later {s = before} reached (run k pc pc' at move next)) i bytes (inl now) =
    now.sized
stored_sized s (later {s = before} reached (run k pc pc' at move next)) i bytes (inr h) =
    stored_sized before reached i bytes h

-- The file of a run in which every piece is present is complete.
pub fetched-IsComplete :
    (malloc : ℕ → List ℕ) (tf : TorrentFile) (peers : List Peer) (s : System)
    (reached : Reach malloc tf peers s)
    → IsFetched reached
    → ((j : ℕ) → j < tf.num_pieces → present s.shared.df j ≡ true)
    → IsComplete s.shared.df
fetched-IsComplete malloc tf peers s reached v all i h =
    let df = s.shared.df in
    let num_lem = ap (λ (t : TorrentFile). t.num_pieces) v.same_torrent in
    let length_lem = ap (λ (t : TorrentFile). t.piece_length) v.same_torrent in
    let (bytes, at) = present-slot (slot df.pieces_buf i) (all i (omega arith)) in
    let sized = stored_sized s reached i bytes (v.fetched i bytes at) in
    (bytes, slot-get_elem? df.pieces_buf i bytes at, sized ∙ sym length_lem)
