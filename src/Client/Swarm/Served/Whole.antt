-- ===== src/Client/Swarm/Served/Whole.antt =====
-- The whole of a thread in src/client.c with a peer that has every piece.
use btb.TorrentFile.{TorrentFile}
use btb.Bitfield.{has_piece}
use btb.PiecesPool.{PiecesPool, is_done, init_pieces_pool}
use btb.PiecesPool.Laws.{init_pieces_pool-IsPool}
use btb.DownloadedFile.{init_downloaded_file}
use btb.Conn.{Conn, Connecting, RecvCall, SendCall}
use btb.Peer.{Peer}
use btb.Client.DownloadPiece.Exchange.{linked}
use btb.Client.DownloadPiece.Laws.{Answer}
use btb.Client.Session.{Local, open_session}
use btb.Client.Swarm.{Pc, connecting, looping, finished, Shared}
use btb.Client.Thread.{World, thread_move, run_alone}
use btb.Client.Swarm.Bound.{Run, at_start}
use btb.Base.{
  ℕ, ◌+◌, ◌*◌, ◌^◌, ◌≤◌, ◌<◌, ◌≡◌, refl, sym, ap, true, List, [], ◌∷◌, Option, some, ok, arith,
  length, subst,
}
use btb.Client.Swarm.Served.{serving, taking, AreServed, slots, absent_slots, file, scripted}
use btb.Client.Swarm.Served.Handed.{IsAt}
use btb.Client.Swarm.Served.Leads.{AreWorlds, Leads, Leads-step, Leads-then}
use btb.Client.Swarm.Served.Rounds.{serve}

module _ (malloc : ℕ → List ℕ) (malloc_length : (n : ℕ) → length (malloc n) ≡ n) (tf : TorrentFile)
    (few_pieces : tf.num_pieces ≤ 2 ^ 31) (short : tf.piece_length < 2 ^ 31) (peer : Peer)
    (w : ℕ → World) (ws : AreWorlds tf w) where
  abbrev shared : PiecesPool → List (Option (List ℕ)) → Shared
  shared pool pieces = record { pool = pool; df = file tf pieces }

  abbrev LeadsTo : ℕ → Shared → Shared → Pc → Pc → Type 0
  LeadsTo = Leads malloc tf peer w ws

  -- From the thread's start.
  serve-alone :
      (pieces : List (List Answer)) (l : Local) (c : Conn) (sent : List ℕ)
      → 0 < tf.num_pieces
      → length pieces ≡ tf.num_pieces
      → AreServed tf 0 pieces
      → ((n : ℕ)
          → open_session malloc tf peer ((w n).connects) ((w n).incoming) ((w n).outgoing)
            ≡ ok (some l))
      → l.failed_attempts < 8
      → ((j : ℕ) → j < tf.num_pieces → has_piece l.peer_bf j ≡ ok true)
      → l.c ≡ some (linked c (serving 0 pieces) (taking pieces) sent)
      → (started pool : PiecesPool) × (init_pieces_pool tf.num_pieces ≡ ok started)
        × LeadsTo
            (3 * length pieces + 2)
            (shared started (absent_slots tf.num_pieces))
            (shared pool (slots pieces))
            (connecting peer)
            (finished true)
        × (is_done pool ≡ ok true)
  unfolding thread_move
  serve-alone pieces l c sent some_pieces all served opens few has linked_lem =
      let (started, made, valid, num, none_taken) =
        init_pieces_pool-IsPool tf.num_pieces some_pieces few_pieces in
      let v : IsAt tf 0 started = record {
        valid = valid;
        all_pieces = num;
        marks = λ j h. ground (arith, none_taken j);
      } in
      let before = shared started (absent_slots tf.num_pieces) in
      let session =
        Leads-step malloc tf peer w ws before before (connecting peer) (looping l) refl
          (λ f. rw (opens f) refl) in
      let (pool, rest, finds_all) =
        serve malloc malloc_length tf few_pieces short peer w ws l.failed_attempts few l.peer_bf c
          has pieces started [] sent v (omega arith) served in
      let empty : absent_slots tf.num_pieces ≡ absent_slots (length pieces) =
        ap (λ (n : ℕ). absent_slots n) (sym all) in
      let from_session : LeadsTo (3 * length pieces + 1) before (shared pool (slots pieces))
          (looping l) (finished true) =
        rw empty (
          subst
            (λ (x : Option Conn).
              LeadsTo (3 * length pieces + 1) (shared started (absent_slots (length pieces)))
                (shared pool (slots pieces)) (looping (record l { c = x })) (finished true))
            (sym linked_lem) rest) in
      let counted : 1 + (3 * length pieces + 1) ≡ 3 * length pieces + 2 = omega arith in
      (
        started,
        pool,
        made,
        rw (← counted) (Leads-then malloc tf peer w ws session from_session),
        finds_all,
      )

module _ (malloc : ℕ → List ℕ) (malloc_length : (n : ℕ) → length (malloc n) ≡ n) (tf : TorrentFile)
    (few_pieces : tf.num_pieces ≤ 2 ^ 31) (short : tf.piece_length < 2 ^ 31) (peer : Peer)
    (connects : Connecting) (incoming : List RecvCall) (outgoing : List SendCall)
    (block piece_block : ℕ → List ℕ) (block_sized : (n : ℕ) → length (block n) ≡ tf.piece_length)
    (piece_block_sized : (n : ℕ) → length (piece_block n) ≡ tf.piece_length)
    (pieces : List (List Answer)) (l : Local) (c : Conn) (sent : List ℕ)
    (some_pieces : 0 < tf.num_pieces) (all : length pieces ≡ tf.num_pieces)
    (served : AreServed tf 0 pieces)
    (opens : open_session malloc tf peer connects incoming outgoing ≡ ok (some l))
    (few : l.failed_attempts < 8)
    (has : (j : ℕ) → j < tf.num_pieces → has_piece l.peer_bf j ≡ ok true)
    (linked_lem : l.c ≡ some (linked c (serving 0 pieces) (taking pieces) sent)) where
  -- For a torrent of 1 to 2 ^ 31 pieces, each of the same number of whole blocks of 16384 bytes
  -- and of less than 2 ^ 31 bytes, a `malloc` that gives the length asked for with any contents,
  -- and one peer with which a session is opened with less than 8 failed attempts, whose bitfield
  -- has every piece, and which then takes every request whole and answers it with the block asked
  -- for, the five bytes of the message's header in one part and the rest cut anywhere into parts
  -- that are not empty: the thread that talks to the peer, started alone with nothing downloaded,
  -- has returned after exactly 3 steps for each piece and 2 more; then `is_done` answers true, and
  -- the slots of the file hold the peer's pieces in their order.
  pub run_alone-served :
      (started pool : PiecesPool) × (init_pieces_pool tf.num_pieces ≡ ok started)
      × (run_alone malloc
            (scripted connects incoming outgoing block piece_block)
            (3 * tf.num_pieces + 2)
            (record { pool = started; df = init_downloaded_file tf })
            (connecting peer)
          ≡ ok (
            record { pool = pool; df = record { pieces_buf = slots pieces; tf = tf } },
            finished true,
          ))
      × (is_done pool ≡ ok true)
  unfolding init_downloaded_file run_alone
  run_alone-served =
      let w = scripted connects incoming outgoing block piece_block in
      let ws : AreWorlds tf w = record {
        blocks_sized = block_sized;
        piece_blocks_sized = piece_block_sized;
      } in
      let (started, pool, made, leads, done) =
        serve-alone malloc malloc_length tf few_pieces short peer w ws pieces l c sent some_pieces
          all served (λ n. opens) few has linked_lem in
      let counted : 3 * length pieces + 2 + 0 ≡ 3 * tf.num_pieces + 2 = omega arith in
      (started, pool, made, rw (← counted) (leads.runs 0), done)

  -- The same as a run of the swarm of one peer.
  pub serve-Run :
      (m : ℕ) × (pool : PiecesPool) × Run malloc tf (peer ∷ []) m (record {
        shared = record { pool = pool; df = record { pieces_buf = slots pieces; tf = tf } };
        threads = finished true ∷ [];
      })
      × (is_done pool ≡ ok true)
  unfolding init_downloaded_file
  serve-Run =
      let w = scripted connects incoming outgoing block piece_block in
      let ws : AreWorlds tf w = record {
        blocks_sized = block_sized;
        piece_blocks_sized = piece_block_sized;
      } in
      let (started, pool, made, leads, done) =
        serve-alone malloc malloc_length tf few_pieces short peer w ws pieces l c sent some_pieces
          all served (λ n. opens) few has linked_lem in
      let (m, runs) = leads.reaches 0 (at_start (made, refl, refl)) in (m, pool, runs, done)
