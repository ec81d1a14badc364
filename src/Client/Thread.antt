-- ===== src/Client/Thread.antt =====
-- One thread of src/client.c as a program: `download_torrent_thread_fun`, run up to its next access
-- to what the threads share.
pub mod Laws
use btb.Bitfield.{has_piece}
use btb.PiecesPool.{get_piece_index, mark_as_undone, is_done}
use btb.PieceProgress.{init_piece_progress}
use btb.DownloadedFile.{add_piece}
use btb.Peer.{Peer}
use btb.Conn.{Conn, Connecting, RecvCall, SendCall}
use btb.Client.DownloadPiece.{download_piece, Progress}
use btb.Client.Session.{Local, open_session}
use btb.Client.Swarm.{
  Pc, connecting, looping, picking, holding, finished, Shared, peer_max_fails, after_fail,
}
use btb.Base.{
  ℕ, zero, suc, Bool, true, false, List, Option, none, some, Result, ok, failed, ◌>>=◌, ltb,
  if◌then◌else◌,
}

-- What the thread's surroundings give for one step: the peer, how the calls on its socket come out,
-- and the blocks that `malloc` returns for `p_prog->buf` and for the piece in the file.
pub record World : Type 0 where
  pub connects : Connecting
  pub incoming : List RecvCall
  pub outgoing : List SendCall
  pub block : List ℕ
  pub piece_block : List ℕ

-- Whether the thread goes into the loop.
start_loop : Shared → Option Local → Result (Shared × Pc)
start_loop s none = ok (s, finished false)
start_loop s (some l) = ok (s, looping l)

-- The loop's test `!is_done(d->pool) && failed_attempts < PEER_MAX_FAILS`.
after_test : Shared → Local → Bool → Result (Shared × Pc)
after_test s l done =
    if done
    then ok (s, finished true)
    else (if ltb l.failed_attempts peer_max_fails then ok (s, picking l) else ok (s, finished true))

test_loop : Shared → Local → Result (Shared × Pc)
unfolding after_test
test_loop s l = do done ← is_done s.pool; after_test s l done

-- `mark_as_undone` and one more failed attempt.
give_back : Shared → Local → ℕ → Option Conn → Result (Shared × Pc)
give_back s l i c = do
  pool ← mark_as_undone s.pool i
  ok (record s { pool = pool }, looping (after_fail l c))

-- After the call of `download_piece`.
store_or_give_back : World → Shared → Local → ℕ → Progress → Result (Shared × Pc)
unfolding give_back
store_or_give_back w s l i (p, c, done) =
    if done
    then (do
      df ← add_piece s.df p w.piece_block
      ok (record s { df = df }, looping (record l { c = c })))
    else give_back s l i c

module _ (malloc : ℕ → List ℕ) where
  -- The rest of a round, with the piece that `get_piece_index` gave.
  try_piece : World → Shared → Local → ℕ → Result (Shared × Pc)
  unfolding store_or_give_back give_back
  try_piece w s l i = do
    there ← has_piece l.peer_bf i
    let attempt = do
      out ← download_piece malloc (init_piece_progress i s.df.tf.piece_length w.block) l.c
      store_or_give_back w s l i out
    if there then attempt else give_back s l i l.c

  -- `failed` for a thread that has returned: it takes no step.
  unfoldable pub thread_move : World → Shared → Pc → Result (Shared × Pc)
  unfolding start_loop test_loop try_piece
  thread_move w s (connecting peer) = do
    session ← open_session malloc s.df.tf peer w.connects w.incoming w.outgoing
    start_loop s session
  thread_move w s (looping l) = test_loop s l
  thread_move w s (picking l) = do
    (pool, i) ← get_piece_index s.pool
    ok (record s { pool = pool }, holding l i)
  thread_move w s (holding l i) = try_piece w s l i
  thread_move w s (finished r) = failed

  -- `n` steps of a thread that runs alone; `w` gives the surroundings of each step by the number of
  -- steps that are left after it.
  unfoldable pub run_alone : (ℕ → World) → ℕ → Shared → Pc → Result (Shared × Pc)
  unfolding thread_move
  run_alone w zero s pc = ok (s, pc)
  run_alone w (suc n) s pc = do (s', pc') ← thread_move (w n) s pc; run_alone w n s' pc'
