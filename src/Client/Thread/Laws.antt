-- ===== src/Client/Thread/Laws.antt =====
-- The program of a thread against the step relation of the swarm.
use btb.PiecesPool.{get_piece_index, mark_as_undone, is_done}
use btb.Bitfield.{has_piece}
use btb.PieceProgress.{PieceProgress, init_piece_progress}
use btb.DownloadedFile.{add_piece}
use btb.Peer.{Peer}
use btb.Conn.{Conn}
use btb.Client.DownloadPiece.{download_piece}
use btb.Client.Session.{Local, open_session}
use btb.Client.Swarm.{
  Pc, connecting, looping, picking, holding, finished, Shared, Move, refused, opened, all_done,
  give_up, go_on, pick, absent, not_downloaded, downloaded, peer_max_fails,
}
use btb.Client.Thread.{
  World, thread_move, try_piece, give_back, store_or_give_back, test_loop, after_test, start_loop,
}
use btb.Base.{
  ℕ, ◌≡◌, refl, Bool, true, false, List, [], Option, none, some, Result, ok, >>=-ok, arith, subst,
  ltb→lt, length, replicate, length-replicate, ltb, ◌↔◌,
}

abbrev next_state : Shared → Pc → Result (Shared × Pc)
next_state s pc = ok (s, pc)

-- The blocks are those of `malloc(piece_length)`.
pub record IsWorld (s : Shared) (w : World) : Type 0 where
  pub block_sized : length w.block ≡ s.df.tf.piece_length
  pub piece_block_sized : length w.piece_block ≡ s.df.tf.piece_length

abbrev zeros : ℕ → List ℕ
zeros n = replicate n 0

-- Nothing from the network, and blocks of zeros.
abbrev silent : Shared → World
silent s = record {
  connects = record {
    resolves = false;
    clock_ok = false;
    in_time = false;
    connects = false;
    sockfd = 0;
  };
  incoming = [];
  outgoing = [];
  block = zeros s.df.tf.piece_length;
  piece_block = zeros s.df.tf.piece_length;
}

silent_sized : (s : Shared) → length (zeros s.df.tf.piece_length) ≡ s.df.tf.piece_length
silent_sized s = length-replicate s.df.tf.piece_length 0

silent-IsWorld : (s : Shared) → IsWorld s (silent s)
silent-IsWorld s = record { block_sized = silent_sized s; piece_block_sized = silent_sized s }

-- Some surroundings lead the program from one state to the other.
abbrev pub Moved : (ℕ → List ℕ) → Shared → Shared → Pc → Pc → Type 0
Moved malloc s s' pc pc' = (w : World) × IsWorld s w × (thread_move malloc w s pc ≡ ok (s', pc'))

module _ (malloc : ℕ → List ℕ) where
  Move-Moved : {s s' : Shared} {pc pc' : Pc} → Move malloc s s' pc pc' → Moved malloc s s' pc pc'
  unfolding thread_move start_loop test_loop after_test try_piece store_or_give_back give_back
  Move-Moved {s} (refused peer e incoming outgoing ends same) = (
    record (silent s) { connects = e; incoming = incoming; outgoing = outgoing },
    record { block_sized = silent_sized s; piece_block_sized = silent_sized s },
    rw (ends, same) refl,
  )
  Move-Moved {s} (opened peer e incoming outgoing done same) = (
    record (silent s) { connects = e; incoming = incoming; outgoing = outgoing },
    record { block_sized = silent_sized s; piece_block_sized = silent_sized s },
    rw (done, same) refl,
  )
  Move-Moved {s} (all_done done same) = (silent s, silent-IsWorld s, rw (done, same) refl)
  Move-Moved {s} (give_up {l = l} done many same) =
      (silent s, silent-IsWorld s, ground (arith, done, many, same))
  Move-Moved {s} (go_on {l = l} done few same) =
      (silent s, silent-IsWorld s, ground (arith, done, few, same))
  Move-Moved {s} (pick pool e same) = (silent s, silent-IsWorld s, rw (e, same) refl)
  Move-Moved {s} (absent pool gone e same) = (silent s, silent-IsWorld s, rw (gone, e, same) refl)
  Move-Moved {s} (not_downloaded pool block p sized there got e same) = (
    record (silent s) { block = block },
    record { block_sized = sized; piece_block_sized = silent_sized s },
    rw (there, got, e, same) refl,
  )
  Move-Moved {s} (downloaded df block piece_block p sized room there got e same) = (
    record (silent s) { block = block; piece_block = piece_block },
    record { block_sized = sized; piece_block_sized = room },
    rw (there, got, e, same) refl,
  )

  moved :
      {s s₁ s' : Shared} {pc pc₁ pc' : Pc}
      → Move malloc s s₁ pc pc₁
      → next_state s₁ pc₁ ≡ ok (s', pc')
      → Move malloc s s' pc pc'
  moved {s} {s₁} {s'} {pc} {pc₁} {pc'} m e =
      let same : s₁ ≡ s' = cc in
      let same_pc : pc₁ ≡ pc' = cc in
      subst (λ (t : Shared). Move malloc s t pc pc') same
        (subst (λ (q : Pc). Move malloc s s₁ pc q) same_pc m)

  from_session :
      (w : World) (peer : Peer) (s : Shared) (session : Option Local) {s' : Shared} {pc' : Pc}
      → open_session malloc s.df.tf peer w.connects w.incoming w.outgoing ≡ ok session
      → start_loop s session ≡ ok (s', pc')
      → Move malloc s s' (connecting peer) pc'
  unfolding start_loop
  from_session w peer s none done e =
      moved (refused peer w.connects w.incoming w.outgoing done refl) e
  from_session w peer s (some l) done e =
      moved (opened peer w.connects w.incoming w.outgoing done refl) e

  from_test :
      (s : Shared) (l : Local) (done few : Bool) {s' : Shared} {pc' : Pc}
      → is_done s.pool ≡ ok done
      → ltb l.failed_attempts peer_max_fails ≡ few
      → after_test s l done ≡ ok (s', pc')
      → Move malloc s s' (looping l) pc'
  unfolding after_test
  from_test s l true few tested e next = moved (all_done tested refl) next
  from_test s l false true tested e next =
      moved (go_on tested (ltb→lt _ _ e) refl) (ground (arith, e, next))
  from_test s l false false tested e next =
      moved (give_up tested (ground (arith, e)) refl) (ground (arith, e, next))

  module _ (w : World) (s : Shared) (l : Local) (i : ℕ) (v : IsWorld s w) where
    from_download :
        (p : PieceProgress) (c : Option Conn) (done : Bool) {s' : Shared} {pc' : Pc}
        → has_piece l.peer_bf i ≡ ok true
        → download_piece malloc (init_piece_progress i s.df.tf.piece_length w.block) l.c
          ≡ ok (p, c, done)
        → store_or_give_back w s l i (p, c, done) ≡ ok (s', pc')
        → Move malloc s s' (holding l i) pc'
    unfolding store_or_give_back give_back
    from_download p c true has got e =
        let (df, added, next) = >>=-ok (add_piece s.df p w.piece_block) _ e in
        moved
          (downloaded df w.block w.piece_block p v.block_sized v.piece_block_sized has got added
            refl)
          next
    from_download p c false has got e =
        let (pool, undone, next) = >>=-ok (mark_as_undone s.pool i) _ e in
        moved (not_downloaded pool w.block p v.block_sized has got undone refl) next

    from_round :
        (there : Bool) {s' : Shared} {pc' : Pc}
        → has_piece l.peer_bf i ≡ ok there
        → try_piece malloc w s l i ≡ ok (s', pc')
        → Move malloc s s' (holding l i) pc'
    unfolding try_piece give_back
    from_round true has e =
        let download =
          download_piece malloc (init_piece_progress i s.df.tf.piece_length w.block) l.c in
        let ((p, c, done), got, next) =
          >>=-ok download (store_or_give_back w s l i) (rw has at e) in
        from_download p c done has got next
    from_round false has e =
        let (pool, undone, next) = >>=-ok (mark_as_undone s.pool i) _ (rw has at e) in
        moved (absent pool has undone refl) next

  Moved-Move : (s s' : Shared) (pc pc' : Pc) → Moved malloc s s' pc pc' → Move malloc s s' pc pc'
  unfolding thread_move test_loop try_piece
  Moved-Move s s' (connecting peer) pc' (w, v, e) =
      let (session, opens, next) =
        >>=-ok (open_session malloc s.df.tf peer w.connects w.incoming w.outgoing) (start_loop s)
          e in
      from_session w peer s session opens next
  Moved-Move s s' (looping l) pc' (w, v, e) =
      let (done, tested, next) = >>=-ok (is_done s.pool) (after_test s l) e in
      from_test s l done (ltb l.failed_attempts peer_max_fails) tested refl next
  Moved-Move s s' (picking l) pc' (w, v, e) =
      let ((pool, i), picks, next) = >>=-ok (get_piece_index s.pool) _ e in
      moved (pick pool picks refl) next
  Moved-Move s s' (holding l i) pc' (w, v, e) =
      let (there, has, next) = >>=-ok (has_piece l.peer_bf i) _ e in
      from_round w s l i v there has e
  Moved-Move s s' (finished r) pc' (w, v, e) = cc

  -- A thread has a step from one state of the shared objects and of itself to another exactly if
  -- for some surroundings (outcomes of the socket calls, and blocks of `piece_length` bytes from
  -- `malloc`) its program, run up to its next access to the shared objects, returns that state.
  pub thread_move-Move :
      (s s' : Shared) (pc pc' : Pc) → Moved malloc s s' pc pc' ↔ Move malloc s s' pc pc'
  thread_move-Move s s' pc pc' = (Moved-Move s s' pc pc', Move-Moved)
