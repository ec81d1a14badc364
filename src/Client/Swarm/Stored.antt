-- ===== src/Client/Swarm/Stored.antt =====
-- The step of src/client.c in which a thread stores a piece, and what every step leaves in the file.
use btb.PieceProgress.{PieceProgress, init_piece_progress}
use btb.TorrentFile.{TorrentFile}
use btb.Conn.{Conn}
use btb.DownloadedFile.{DownloadedFile, add_piece}
use btb.DownloadedFile.Laws.{slot, IsDownloadedFile}
use btb.DownloadedFile.Slots.{IsAdded, add_piece-IsAdded, whole_block}
use btb.Client.DownloadPiece.{download_piece, num_blocks}
use btb.Client.DownloadPiece.Received.{Blocks, download_piece-Blocks}
use btb.Client.DownloadPiece.Kept.{download_piece-Keeps}
use btb.Client.Session.{Local}
use btb.Client.Swarm.{
  looping, holding, Pc, Shared, Move, refused, opened, all_done, give_up, go_on, pick, absent,
  not_downloaded, downloaded,
}
use btb.Base.{
  ℕ, ◌≡◌, refl, sym, ◌∙◌, ap, true, List, Option, some, ok, arith, ◌==◌, length, take_all, drop_all,
  append-nil, subst, IsWhenOk-ok, Bool-cases, ◌⊎◌, inl, inr, ==_iff,
}

-- The step of a thread from `pc` to `pc'` is that in which it stores piece `i`: it holds the piece,
-- `download_piece` returns true for it on the thread's own connection, and the bytes are the buffer
-- that this call has filled.
pub record IsStored (malloc : ℕ → List ℕ) (tf : TorrentFile) (pc pc' : Pc) (i : ℕ) (bytes : List ℕ)
    : Type 0 where
  pub l : Local
  pub block : List ℕ
  pub after : Option Conn
  pub p : PieceProgress
  pub holds_it : pc ≡ holding l i
  pub downloads :
      download_piece malloc (init_piece_progress i tf.piece_length block) l.c ≡ ok (p, after, true)
  -- the messages from the peer that brought the bytes
  pub received :
      Blocks malloc p after
        (num_blocks tf.piece_length)
        (init_piece_progress i tf.piece_length block)
        l.c
  pub buffer : p.buf ≡ bytes
  pub sized : length bytes ≡ tf.piece_length
  pub goes_on : pc' ≡ looping (record l { c = after })

-- What a step leaves: the torrent's file, and slots that it has filled or that were filled before.
pub record Fills (malloc : ℕ → List ℕ) (tf : TorrentFile) (df df' : DownloadedFile) (pc pc' : Pc)
    : Type 0 where
  pub same_torrent : df'.tf ≡ tf
  pub valid : IsDownloadedFile df'
  pub filled :
      (j : ℕ) (bytes : List ℕ)
      → slot df'.pieces_buf j ≡ some bytes
      → IsStored malloc tf pc pc' j bytes ⊎ (slot df.pieces_buf j ≡ some bytes)

whole_block-buffer :
    (pp : PieceProgress) (block : List ℕ)
    → length pp.buf ≡ pp.size
    → length block ≡ pp.size
    → whole_block pp block ≡ pp.buf
whole_block-buffer pp block sized room =
    rw (take_all pp.size pp.buf sized, drop_all pp.size block (omega arith)) (append-nil pp.buf)

module _ (malloc : ℕ → List ℕ) (tf : TorrentFile) where
  stored :
      (df df' : DownloadedFile) (l : Local) (i : ℕ) (block piece_block : List ℕ) (p : PieceProgress)
      (c' : Option Conn)
      → df.tf ≡ tf
      → IsDownloadedFile df
      → length block ≡ df.tf.piece_length
      → length piece_block ≡ df.tf.piece_length
      → download_piece malloc (init_piece_progress i df.tf.piece_length block) l.c
        ≡ ok (p, c', true)
      → add_piece df p piece_block ≡ ok df'
      → Fills malloc tf df df' (holding l i) (looping (record l { c = c' }))
  stored df df' l i block piece_block p c' torrent valid sized room got e =
      let same = download_piece-Keeps malloc _ p l.c c' true got in
      let added =
        IsWhenOk-ok (IsAdded df p piece_block) (add_piece df p piece_block)
          (add_piece-IsAdded df p piece_block valid) e in
      let length_lem = ap (λ (t : TorrentFile). t.piece_length) torrent in
      let downloads : download_piece malloc (init_piece_progress i tf.piece_length block) l.c
          ≡ ok (p, c', true) =
        subst
          (λ (n : ℕ). download_piece malloc (init_piece_progress i n block) l.c ≡ ok (p, c', true))
          length_lem got in
      let whole =
        whole_block-buffer p piece_block (same.same_length ∙ sized ∙ sym same.same_size)
          (room ∙ sym same.same_size) in
      record {
        same_torrent = added.same_torrent ∙ torrent;
        valid = added.slots;
        filled = λ j bytes at. elim (Bool-cases (p.index == j)) [
          | inl here ↦
              let index_lem : i ≡ j = sym same.same_index ∙ (==_iff p.index j).0 here in
              let bytes_lem : p.buf ≡ bytes = ground (arith, added.contents j, whole, here, at) in
              inl (record {
                l = l;
                block = block;
                after = c';
                p = p;
                holds_it = ap (holding l) index_lem;
                downloads =
                    subst
                      (λ (k : ℕ).
                        download_piece malloc (init_piece_progress k tf.piece_length block) l.c
                        ≡ ok (p, c', true))
                      index_lem downloads;
                received =
                    subst
                      (λ (k : ℕ).
                        Blocks malloc p c' (num_blocks tf.piece_length)
                          (init_piece_progress k tf.piece_length block) l.c)
                      index_lem (download_piece-Blocks malloc _ p l.c c' refl downloads);
                buffer = bytes_lem;
                sized = rw (sym bytes_lem) (same.same_length ∙ sized ∙ length_lem);
                goes_on = refl;
              })
          | inr elsewhere ↦ inr (ground (arith, added.contents j, elsewhere, at))
        ];
      }

  left_alone :
      (df df' : DownloadedFile) (pc pc' : Pc)
      → df.tf ≡ tf
      → IsDownloadedFile df
      → df' ≡ df
      → Fills malloc tf df df' pc pc'
  left_alone df df' pc pc' torrent valid same =
      rw same (record { same_torrent = torrent; valid = valid; filled = λ j bytes at. inr at })

  pub Move-Fills :
      {s s' : Shared} {pc pc' : Pc}
      → s.df.tf ≡ tf
      → IsDownloadedFile s.df
      → Move malloc s s' pc pc'
      → Fills malloc tf s.df s'.df pc pc'
  Move-Fills t v (refused peer e incoming outgoing ends same) =
      left_alone _ _ _ _ t v (ap (λ (u : Shared). u.df) same)
  Move-Fills t v (opened peer e incoming outgoing done same) =
      left_alone _ _ _ _ t v (ap (λ (u : Shared). u.df) same)
  Move-Fills t v (all_done done same) = left_alone _ _ _ _ t v (ap (λ (u : Shared). u.df) same)
  Move-Fills t v (give_up done many same) = left_alone _ _ _ _ t v (ap (λ (u : Shared). u.df) same)
  Move-Fills t v (go_on done few same) = left_alone _ _ _ _ t v (ap (λ (u : Shared). u.df) same)
  Move-Fills t v (pick pool e same) = left_alone _ _ _ _ t v (ap (λ (u : Shared). u.df) same)
  Move-Fills t v (absent pool gone e same) = left_alone _ _ _ _ t v (ap (λ (u : Shared). u.df) same)
  Move-Fills t v (not_downloaded pool block p sized there got e same) =
      left_alone _ _ _ _ t v (ap (λ (u : Shared). u.df) same)
  Move-Fills {s} t v
        (downloaded {l = l} df {i = i} block piece_block p {c = c} sized room there got e same) =
      rw same (stored s.df df l i block piece_block p c t v sized room got e)
