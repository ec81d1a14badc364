-- ===== src/DownloadedFile/Slots.antt =====
-- downloaded_file.c: what a call of `add_piece` that returns has done to the slots.
use btb.PieceProgress.{PieceProgress}
use btb.TorrentFile.{TorrentFile}
use btb.DownloadedFile.{DownloadedFile, init_downloaded_file, add_piece}
use btb.DownloadedFile.Laws.{IsDownloadedFile, present, slot, slot-set}
use btb.Base.{
  ℕ, zero, suc, ◌<◌, ◌≡◌, refl, ◌∙◌, true, false, List, Option, none, some, ok, arith, ltb, ltb→lt,
  ◌==◌, if◌then◌else◌, length, set, length-set, length-replicate, replicate, write, IsWhenOk,
  >>=-IsWhenOk, read_range, write_range, >>=-ok, subst, ◌+◌, sym, take, drop, length-take, leb,
  leb→le, ◌++◌, [], ◌∷◌, defined, defined-ok,
}

write-ok :
    (pieces pieces' : List (Option (List ℕ))) (i : ℕ) (v : Option (List ℕ))
    → write pieces i v ≡ ok pieces'
    → (i < length pieces) × (set pieces i v ≡ pieces')
write-ok pieces pieces' i v e =
    let (done, e₁, e₂) = >>=-ok (defined (ltb i (length pieces))) (λ done. ok (set pieces i v)) e in
    (ltb→lt i (length pieces) (defined-ok (ltb i (length pieces)) e₁), cc)

slot-set_value :
    (pieces : List (Option (List ℕ))) (i j : ℕ) (v : Option (List ℕ))
    → i < length pieces
    → slot (set pieces i v) j ≡ (if i == j then v else slot pieces j)
slot-set_value [] i j v h = elim h [ ]
slot-set_value (x ∷ pieces) zero zero v h = refl
slot-set_value (x ∷ pieces) zero (suc j) v h = ground arith
slot-set_value (x ∷ pieces) (suc i) zero v h = ground arith
slot-set_value (x ∷ pieces) (suc i) (suc j) v h = ground (arith, slot-set_value pieces i j v)

-- The bytes of the slot: the piece's, and behind them what the new block held.
abbrev pub whole_block : PieceProgress → List ℕ → List ℕ
whole_block pp block = take pp.size pp.buf ++ drop pp.size block

-- What a call that returns has changed: the slot of the piece alone, which is filled.
pub record IsAdded (df : DownloadedFile) (pp : PieceProgress) (block : List ℕ)
    (df' : DownloadedFile) : Type 0 where
  pub inside : pp.index < df.tf.num_pieces
  pub slots : IsDownloadedFile df'
  pub same_torrent : df'.tf ≡ df.tf
  pub filled : (j : ℕ) → present df' j ≡ (if pp.index == j then true else present df j)
  pub contents :
      (j : ℕ)
      → slot df'.pieces_buf j
        ≡ (if pp.index == j then some (whole_block pp block) else slot df.pieces_buf j)

copied :
    (pp : PieceProgress) (block bytes whole : List ℕ)
    → read_range pp.buf 0 pp.size ≡ ok bytes
    → write_range block 0 bytes ≡ ok whole
    → whole ≡ whole_block pp block
copied pp block bytes whole e e' =
    let (d, e₁, e₂) =
      >>=-ok (defined (leb (0 + pp.size) (length pp.buf))) (λ d. ok (take pp.size pp.buf)) e in
    let fits =
      leb→le (0 + pp.size) (length pp.buf) (defined-ok (leb (0 + pp.size) (length pp.buf)) e₁) in
    let same_bytes : take pp.size pp.buf ≡ bytes = cc in
    let sized : length bytes ≡ pp.size =
      rw (sym same_bytes) (omega (arith, length-take pp.size pp.buf)) in
    let (d', e₃, e₄) =
      >>=-ok (defined (leb (0 + length bytes) (length block)))
        (λ d. ok (bytes ++ drop (0 + length bytes) block)) e' in
    let at_end : 0 + length bytes ≡ pp.size = omega arith in
    let same_whole : bytes ++ drop (0 + length bytes) block ≡ whole = cc in
    sym same_whole ∙ rw (at_end, same_bytes) refl

-- If the call returns, the index was inside and its slot alone changed: it is filled.
pub add_piece-IsAdded :
    (df : DownloadedFile) (pp : PieceProgress) (block : List ℕ)
    → IsDownloadedFile df
    → IsWhenOk (IsAdded df pp block) (add_piece df pp block)
unfolding add_piece
add_piece-IsAdded df pp block v =
    let P = IsAdded df pp block in
    >>=-IsWhenOk P (read_range pp.buf 0 pp.size) _ λ bytes e.
      >>=-IsWhenOk P (write_range block 0 bytes) _ λ whole e'.
        >>=-IsWhenOk P (write df.pieces_buf pp.index (some whole)) _ λ pieces e''.
          let (inside, at) = write-ok df.pieces_buf pieces pp.index (some whole) e'' in
          subst (λ (slots : List (Option (List ℕ))). P (record df { pieces_buf = slots })) at
            record {
              inside = omega (arith, v.slots);
              slots = record { slots = length-set df.pieces_buf pp.index (some whole) ∙ v.slots };
              same_torrent = refl;
              filled = λ j. slot-set df.pieces_buf pp.index j whole (omega (arith, inside));
              contents = λ j.
                  subst
                    (λ (w : List ℕ).
                      slot (set df.pieces_buf pp.index (some whole)) j
                      ≡ (if pp.index == j then some w else slot df.pieces_buf j))
                    (copied pp block bytes whole e e')
                    (slot-set_value df.pieces_buf pp.index j (some whole) (omega (arith, inside)));
            }

slot_empty :
    (n j : ℕ) (tf : TorrentFile)
    → present (record { pieces_buf = replicate n none; tf = tf }) j ≡ false
slot_empty zero j tf = refl
slot_empty (suc n) zero tf = refl
slot_empty (suc n) (suc j) tf = slot_empty n j tf

-- A new file has a slot for each piece, and no piece.
pub init_downloaded_file-absent :
    (tf : TorrentFile)
    → IsDownloadedFile (init_downloaded_file tf)
      × ((init_downloaded_file tf).tf ≡ tf)
      × ((j : ℕ) → present (init_downloaded_file tf) j ≡ false)
unfolding init_downloaded_file
init_downloaded_file-absent tf = (
  record { slots = length-replicate tf.num_pieces none },
  refl,
  λ j. slot_empty tf.num_pieces j tf,
)
