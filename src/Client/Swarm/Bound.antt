-- ===== src/Client/Swarm/Bound.antt =====
-- How many steps the threads of src/client.c take: each round of a thread stores a piece or is one
-- of its PEER_MAX_FAILS failures.
use btb.TorrentFile.{TorrentFile}
use btb.DownloadedFile.Laws.{present}
use btb.Peer.{Peer}
use btb.Client.Session.{Local}
use btb.Client.Swarm.{Pc, connecting, holding, System, Step, run, IsInitial, Reach, start, later}
use btb.Client.Swarm.Counting.{holders-ge, holds_self, All-get, All-set}
use btb.Client.Swarm.Invariant.{IsSystem, initial-IsSystem, Step-IsSystem}
use btb.Base.{
  map, length, ℕ, ◌+◌, ◌*◌, ◌^◌, ◌≤◌, ◌<◌, ◌≡◌, ◌∙◌, ap, false, List, [], ◌∷◌, some, arith,
  get_elem?, All,
}
use btb.Client.Swarm.Potential.{
  all_steps_left, missing, IsTrying, all_steps_left-set, all_steps_left-connecting, missing-le,
  Move-Spends,
}

-- The runs of `n` steps from the state in which `download_torrent` starts the threads.
pub data Run (malloc : ℕ → List ℕ) (tf : TorrentFile) (peers : List Peer)
    : ℕ → System → Type 0 where
  at_start : {s : System} → IsInitial tf peers s → Run malloc tf peers 0 s
  step :
      {n : ℕ} {s t : System}
      → Run malloc tf peers n s
      → Step malloc s t
      → Run malloc tf peers (n + 1) t

-- A piece that a thread holds is not in the file.
held_gone :
    (tf : TorrentFile) (s : System) (k : ℕ) (pc : Pc)
    → IsSystem tf s
    → get_elem? s.threads k ≡ some pc
    → (l : Local) (i : ℕ) → pc ≡ holding l i
    → i < tf.num_pieces
    → present s.shared.df i ≡ false
held_gone tf s k pc v at l i e h =
    let only = v.accounted i h in
    let one = holds_self i l in
    let held = holders-ge i s.threads k (holding l i) (at ∙ ap some e) in
    ground (arith, only, one, held)

-- After `n` steps.
record IsSpent (malloc : ℕ → List ℕ) (tf : TorrentFile) (peers : List Peer) (n : ℕ) (s : System)
    : Type 0 where
  pub valid : IsSystem tf s
  pub trying : All IsTrying s.threads
  pub spent :
      n + (all_steps_left s.threads + 3 * missing tf.num_pieces 0 s.shared.df)
      ≤ 26 * length peers + 3 * tf.num_pieces

connecting-IsTrying : (peers : List Peer) → All IsTrying (map connecting peers)
connecting-IsTrying [] = tt
connecting-IsTrying (p ∷ peers) = (tt, connecting-IsTrying peers)

module _ (malloc : ℕ → List ℕ) (tf : TorrentFile) (peers : List Peer) where
  IsSpent-Step :
      (n : ℕ) (s t : System)
      → IsSpent malloc tf peers n s
      → Step malloc s t
      → IsSpent malloc tf peers (n + 1) t
  IsSpent-Step n s t v (run k pc pc' at move next) =
      let m =
        Move-Spends malloc v.valid.objects (All-get IsTrying s.threads k pc v.trying at)
          (held_gone tf s k pc v.valid at) move in
      let changed = all_steps_left-set s.threads k pc pc' at in
      record {
        valid = Step-IsSystem malloc tf s t v.valid (run k pc pc' at move next);
        trying = rw next (All-set IsTrying s.threads k pc' v.trying m.trying);
        spent = rw next (omega (arith, m.spent, v.spent));
      }

  Run-IsSpent :
      (n : ℕ) (s : System)
      → 0 < tf.num_pieces
      → tf.num_pieces ≤ 2 ^ 31
      → Run malloc tf peers n s
      → IsSpent malloc tf peers n s
  Run-IsSpent n s pos small (at_start initial) =
      let counted = all_steps_left-connecting peers in
      let few = missing-le tf.num_pieces 0 s.shared.df in
      let (e_pool, e_df, e_threads) = initial in
      record {
        valid = initial-IsSystem tf peers s pos small initial;
        trying = rw e_threads (connecting-IsTrying peers);
        spent = rw e_threads (omega arith);
      }
  Run-IsSpent n s pos small (step {n = m} {s = before} runs one) =
      IsSpent-Step m before s (Run-IsSpent m before pos small runs) one

  -- For a torrent of 1 to 2 ^ 31 pieces, every run of the interleaved threads from the state in
  -- which they are started takes at most 26 steps for each thread and 3 steps for each piece,
  -- whatever the peers do.
  pub Run-bound :
      (n : ℕ) (s : System)
      → 0 < tf.num_pieces
      → tf.num_pieces ≤ 2 ^ 31
      → Run malloc tf peers n s
      → n ≤ 26 * length peers + 3 * tf.num_pieces
  Run-bound n s pos small runs = let v = Run-IsSpent n s pos small runs in omega (arith, v.spent)

pub Run-Reach :
    (malloc : ℕ → List ℕ) (tf : TorrentFile) (peers : List Peer) (n : ℕ) (s : System)
    → Run malloc tf peers n s
    → Reach malloc tf peers s
Run-Reach malloc tf peers n s (at_start initial) = start initial
Run-Reach malloc tf peers n s (step {n = k} {s = before} runs one) =
    later (Run-Reach malloc tf peers k before runs) one
