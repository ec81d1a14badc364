-- ===== src/Client/Swarm/Served/Leads.antt =====
-- What a thread of src/client.c that runs alone comes to, as a program and as a run of the swarm.
use btb.TorrentFile.{TorrentFile}
use btb.PiecesPool.{PiecesPool}
use btb.Peer.{Peer}
use btb.Client.Swarm.{Pc, Shared, System, run}
use btb.Client.Thread.{World, thread_move, run_alone}
use btb.Client.Thread.Laws.{IsWorld, thread_move-Move}
use btb.Client.Swarm.Bound.{Run, step}
use btb.Base.{ℕ, suc, ◌+◌, ◌≡◌, refl, sym, ◌∙◌, ap, List, [], ◌∷◌, Option, ok, arith, length}
use btb.Client.Swarm.Served.{file}

-- The surroundings of each step, in which the blocks are those of `malloc(piece_length)`.
pub record AreWorlds (tf : TorrentFile) (w : ℕ → World) : Type 0 where
  pub blocks_sized : (n : ℕ) → length ((w n).block) ≡ tf.piece_length
  pub piece_blocks_sized : (n : ℕ) → length ((w n).piece_block) ≡ tf.piece_length

module _ (malloc : ℕ → List ℕ) (tf : TorrentFile) (peer : Peer) (w : ℕ → World)
    (ws : AreWorlds tf w) where
  abbrev alone : PiecesPool → List (Option (List ℕ)) → Pc → System
  alone pool pieces pc = record {
    shared = record { pool = pool; df = file tf pieces };
    threads = pc ∷ [];
  }

  -- The thread, if it runs alone, gets in `n` steps from one state to the other, and the system of
  -- this one thread has a run that does so.
  pub record Leads (n : ℕ) (s s' : Shared) (pc pc' : Pc) : Type 0 where
    pub runs : (f : ℕ) → run_alone malloc w (n + f) s pc ≡ run_alone malloc w f s' pc'
    pub reaches :
        (k : ℕ)
        → Run malloc tf (peer ∷ []) k (record { shared = s; threads = pc ∷ [] })
        → (m : ℕ) × Run malloc tf (peer ∷ []) m (record { shared = s'; threads = pc' ∷ [] })

  pub Leads-step :
      (s s' : Shared) (pc pc' : Pc)
      → s.df.tf ≡ tf
      → ((f : ℕ) → thread_move malloc (w f) s pc ≡ ok (s', pc'))
      → Leads 1 s s' pc pc'
  unfolding run_alone
  Leads-step s s' pc pc' same h =
      let each = ap (λ (t : TorrentFile). t.piece_length) same in
      let v : IsWorld s (w 0) = record {
        block_sized = ws.blocks_sized 0 ∙ sym each;
        piece_block_sized = ws.piece_blocks_sized 0 ∙ sym each;
      } in
      let move = (thread_move-Move malloc s s' pc pc').0 (w 0, v, h 0) in
      record {
        runs = λ f. let one : 1 + f ≡ suc f = omega arith in rw (one, h f) refl;
        reaches = λ k before. (k + 1, step before (run 0 pc pc' refl move refl));
      }

  pub Leads-then :
      {n m : ℕ} {s s' s'' : Shared} {pc pc' pc'' : Pc}
      → Leads n s s' pc pc'
      → Leads m s' s'' pc' pc''
      → Leads (n + m) s s'' pc pc''
  Leads-then {n} {m} {s} {s'} {s''} {pc} {pc'} {pc''} a b = record {
    runs = λ f. let e : n + m + f ≡ n + (m + f) = omega arith in rw e (a.runs (m + f) ∙ b.runs f);
    reaches = λ k before. let (k', after) = a.reaches k before in b.reaches k' after;
  }
