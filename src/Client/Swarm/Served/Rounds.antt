-- ===== src/Client/Swarm/Served/Rounds.antt =====
-- The rounds of the loop in src/client.c with a peer that has every piece.
use btb.PieceProgress.{PieceProgress, init_piece_progress, block_size}
use btb.TorrentFile.{TorrentFile}
use btb.Bitfield.{Bitfield, has_piece}
use btb.PiecesPool.{PiecesPool, is_done}
use btb.Conn.{Conn, RecvCall, SendCall}
use btb.Peer.{Peer}
use btb.Client.DownloadPiece.{download_piece}
use btb.Client.DownloadPiece.Exchange.{linked}
use btb.Client.DownloadPiece.Laws.{
  Answer, AreAnswers, arriving_answers, accepting_requests, requests, blocks, download_piece-serves,
}
use btb.Client.Session.{Local}
use btb.Client.Swarm.{Pc, looping, picking, holding, finished, Shared}
use btb.Client.Thread.{World, thread_move}
use btb.Base.{
  ℕ, suc, ◌+◌, ◌*◌, ◌^◌, ◌≤◌, ◌<◌, ◌≡◌, refl, sym, ◌∙◌, true, List, [], ◌∷◌, ◌++◌, Option, none,
  some, ok, arith, length, lt→ltb, length-append, append_assoc, subst,
}
use btb.Client.Swarm.Served.{
  serving, taking, AreServed, length-blocks, slots, absent_slots, file, add_piece-middle,
}
use btb.Client.Swarm.Served.Handed.{IsAt, is_done-false, is_done-true, get_piece_index-next}
use btb.Client.Swarm.Served.Leads.{AreWorlds, Leads, Leads-step, Leads-then}

module _ (malloc : ℕ → List ℕ) (malloc_length : (n : ℕ) → length (malloc n) ≡ n) (tf : TorrentFile)
    (few_pieces : tf.num_pieces ≤ 2 ^ 31) (short : tf.piece_length < 2 ^ 31) (peer : Peer)
    (w : ℕ → World) (ws : AreWorlds tf w) where
  abbrev shared : PiecesPool → List (Option (List ℕ)) → Shared
  shared pool pieces = record { pool = pool; df = file tf pieces }

  abbrev LeadsTo : ℕ → Shared → Shared → Pc → Pc → Type 0
  LeadsTo = Leads malloc tf peer w ws

  module _ (fails : ℕ) (few : fails < 8) (bf : Bitfield) (c : Conn)
      (has : (j : ℕ) → j < tf.num_pieces → has_piece bf j ≡ ok true) where
    abbrev local_at : List RecvCall → List SendCall → List ℕ → Local
    local_at incoming outgoing sent = record {
      failed_attempts = fails;
      c = some (linked c incoming outgoing sent);
      peer_bf = bf;
    }

    ends :
        (i : ℕ) (pool : PiecesPool) (pieces : List (Option (List ℕ))) (l : Local)
        → IsAt tf i pool
        → i ≡ tf.num_pieces
        → LeadsTo 1 (shared pool pieces) (shared pool pieces) (looping l) (finished true)
    unfolding thread_move
    ends i pool pieces l v e =
        Leads-step malloc tf peer w ws (shared pool pieces) (shared pool pieces) (looping l)
          (finished true) refl (λ f. rw (is_done-true v e) refl)

    -- The piece at hand is downloaded and stored.
    stores :
        (pool : PiecesPool) (done rest : List (Option (List ℕ))) (answers : List Answer)
        (more_in : List RecvCall) (more_out : List SendCall) (sent : List ℕ)
        → length done < tf.num_pieces
        → tf.piece_length ≡ length answers * block_size
        → AreAnswers (length done) 0 answers
        → LeadsTo 1
            (shared pool (done ++ none ∷ rest))
            (shared pool (done ++ some (blocks answers) ∷ rest))
            (holding
              (local_at
                (arriving_answers (length done) 0 answers ++ more_in)
                (accepting_requests answers ++ more_out)
                sent)
              (length done))
            (looping (local_at more_in more_out (sent ++ requests (length done) 0 answers)))
    unfolding thread_move
    stores pool done rest answers more_in more_out sent h size served =
        let i = length done in
        let l =
          local_at (arriving_answers i 0 answers ++ more_in)
            (accepting_requests answers ++ more_out) sent in
        let l' = local_at more_in more_out (sent ++ requests i 0 answers) in
        let p : PieceProgress = record {
          index = i;
          size = tf.piece_length;
          buf = blocks answers;
          downloaded = length answers;
        } in
        let whole : length (blocks answers) ≡ tf.piece_length =
          length-blocks i 0 answers served ∙ sym size in
        let got : (f : ℕ)
            → download_piece malloc (init_piece_progress i tf.piece_length ((w f).block)) l.c
              ≡ ok (p, l'.c, true) =
          λ f.
            subst
              (λ (size : ℕ).
                download_piece malloc (init_piece_progress i size ((w f).block)) l.c
                ≡ ok (record p { size = size }, l'.c, true))
              (sym size)
              (download_piece-serves malloc malloc_length answers i ((w f).block) c more_in more_out
                sent (omega arith) (omega arith) (ws.blocks_sized f ∙ size) served) in
        let before = shared pool (done ++ none ∷ rest) in
        let after = shared pool (done ++ some (blocks answers) ∷ rest) in
        Leads-step malloc tf peer w ws before after (holding l i) (looping l') refl (λ f.
          rw
            (
              has i h,
              got f,
              add_piece-middle tf done rest p ((w f).piece_block) refl whole
                  (ws.piece_blocks_sized f),
            )
            refl)

    -- One round stores the next piece.
    round :
        (pool : PiecesPool) (done rest : List (Option (List ℕ))) (answers : List Answer)
        (more_in : List RecvCall) (more_out : List SendCall) (sent : List ℕ)
        → IsAt tf (length done) pool
        → length done < tf.num_pieces
        → tf.piece_length ≡ length answers * block_size
        → AreAnswers (length done) 0 answers
        → (pool' : PiecesPool) × IsAt tf (length done + 1) pool'
          × LeadsTo 3
              (shared pool (done ++ none ∷ rest))
              (shared pool' (done ++ some (blocks answers) ∷ rest))
              (looping (
                local_at
                  (arriving_answers (length done) 0 answers ++ more_in)
                  (accepting_requests answers ++ more_out)
                  sent))
              (looping (local_at more_in more_out (sent ++ requests (length done) 0 answers)))
    unfolding thread_move
    round pool done rest answers more_in more_out sent v h size served =
        let l =
          local_at (arriving_answers (length done) 0 answers ++ more_in)
            (accepting_requests answers ++ more_out) sent in
        let (pool', picks, next) = get_piece_index-next v h in
        let before = shared pool (done ++ none ∷ rest) in
        let taken = shared pool' (done ++ none ∷ rest) in
        let tests =
          Leads-step malloc tf peer w ws before before (looping l) (picking l) refl
            (λ f. rw (is_done-false v h, lt→ltb fails 8 few) refl) in
        let takes =
          Leads-step malloc tf peer w ws before taken (picking l) (holding l (length done)) refl
            (λ f. rw picks refl) in
        (
          pool',
          next,
          Leads-then malloc tf peer w ws tests (
              Leads-then malloc tf peer w ws takes
                (stores pool' done rest answers more_in more_out sent h size served)),
        )

    -- What the thread comes to: it has returned, and the file holds these pieces.
    abbrev Ends : ℕ → Shared → Pc → List (Option (List ℕ)) → Type 0
    Ends n s pc pieces =
        (pool : PiecesPool) × LeadsTo n s (shared pool pieces) pc (finished true)
        × (is_done pool ≡ ok true)

    pub serve :
        (pieces : List (List Answer)) (pool : PiecesPool) (done : List (Option (List ℕ)))
        (sent : List ℕ)
        → IsAt tf (length done) pool
        → length done + length pieces ≡ tf.num_pieces
        → AreServed tf (length done) pieces
        → Ends
            (3 * length pieces + 1)
            (shared pool (done ++ absent_slots (length pieces)))
            (looping (local_at (serving (length done) pieces) (taking pieces) sent))
            (done ++ slots pieces)
    serve [] pool done sent v e served =
        (pool, ends (length done) pool (done ++ []) _ v (omega arith), is_done-true v (omega arith))
    serve (answers ∷ pieces) pool done sent v e (size, answered, served) =
        let i = length done in
        let (pool', v', first) =
          round pool done (absent_slots (length pieces)) answers (serving (i + 1) pieces)
            (taking pieces) sent v (omega arith) size answered in
        let done' = done ++ some (blocks answers) ∷ [] in
        let grown : length done' ≡ i + 1 = length-append done (some (blocks answers) ∷ []) in
        let one_more = append_assoc done (some (blocks answers) ∷ []) in
        let (pool'', rest, finds_all) =
          serve pieces pool' done' (sent ++ requests i 0 answers) (rw grown v') (omega arith)
            (rw grown served) in
        let later =
          rw (grown, one_more (absent_slots (length pieces)), one_more (slots pieces)) at rest in
        let counted : 3 + (3 * length pieces + 1) ≡ 3 * suc (length pieces) + 1 = omega arith in
        (pool'', rw (← counted) (Leads-then malloc tf peer w ws first later), finds_all)
