-- ===== src/Client/Swarm/Served/Handed.antt =====
-- A pool of src/pieces_pool.c of which the first pieces are handed out, as one thread of
-- src/client.c sees it.
use btb.TorrentFile.{TorrentFile}
use btb.PiecesPool.{PiecesPool, is_done, get_piece_index}
use btb.PiecesPool.Laws.{IsPool, taken, free, none_free, get_piece_index-Found, is_done_iff}
use btb.Base.{
  ℕ, ◌+◌, ◌≤◌, ◌<◌, ◌≡◌, ◌∙◌, ap, true, false, ok, arith, ltb, lt→ltb, Bool-cases, inl, inr,
}

-- The first `i` pieces are handed out.
pub record IsAt (tf : TorrentFile) (i : ℕ) (pool : PiecesPool) : Type 0 where
  pub valid : IsPool pool
  pub all_pieces : pool.num_pieces ≡ tf.num_pieces
  pub marks : (j : ℕ) → j < tf.num_pieces → taken pool j ≡ ltb j i

module _ {tf : TorrentFile} {i : ℕ} {pool : PiecesPool} (v : IsAt tf i pool) where
  pub is_done-false : i < tf.num_pieces → is_done pool ≡ ok false
  is_done-false h =
      let (r, e, all) = is_done_iff v.valid in
      elim (Bool-cases r) [
        | inl yes_done ↦
            absurd (ground (arith, v.marks i h, all.0 yes_done i (omega (arith, v.all_pieces))))
        | inr more ↦ e ∙ ap ok more
      ]

  pub is_done-true : i ≡ tf.num_pieces → is_done pool ≡ ok true
  is_done-true h =
      let (r, e, all) = is_done_iff v.valid in
      e
      ∙ ap ok (
          all.1 (λ j lt.
            v.marks j (omega (arith, v.all_pieces)) ∙ lt→ltb j i (omega (arith, v.all_pieces))))

  pub get_piece_index-next :
      i < tf.num_pieces
      → (pool' : PiecesPool) × (get_piece_index pool ≡ ok (pool', i)) × IsAt tf (i + 1) pool'
  get_piece_index-next h = elim (get_piece_index-Found v.valid) [
    | free pool' k found lo hi not_taken before m ↦
        let lo' : i ≤ k = ground (arith, v.marks k (omega (arith, v.all_pieces))) in
        let hi' : k ≤ i = ground (arith, v.marks i h, before i) in
        let same : k ≡ i = omega arith in
        (
          pool',
          found ∙ ap (λ (x : ℕ). ok (pool', x)) same,
          record {
            valid = m.valid;
            all_pieces = m.same_size ∙ v.all_pieces;
            marks = λ j lt. ground (arith, m.marks j, v.marks j lt);
          },
        )
    | none_free found all ↦
        absurd (ground (arith, v.marks i h, all i (omega arith) (omega (arith, v.all_pieces))))
  ]
