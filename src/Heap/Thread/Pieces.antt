-- ===== src/Heap/Thread/Pieces.antt =====
-- What the exchange of blocks and pieces leaves in use: nothing of its own but the pieces stored.
use btb.Heap.Laws.{
  part_blocks, nothing_new, Holds-append, Held-append, Holds, Held, Leaves, Consumes, >>=-Consumes,
  pure-Consumes, if-Consumes, >>=-Leaves_append,
}
use btb.Heap.Rules.{access_then-Consumes, access_all_then-Consumes, malloc_then-Consumes}
use btb.Heap.Defer.{defer-Consumes}
use btb.Heap.Message.{message_or_null, send_message-Leaves, read_message-Leaves}
use btb.Heap.Objects.{Owner, owner_blocks}
use btb.Heap.Objects.Laws.{
  owner-Holds_self, owner-Held_part, new_message-Leaves, free_message-Frees,
  free_piece_progress-Frees, new_piece_progress-Leaves,
}
use btb.Heap.Thread.{
  Exchange, Round, store_answer, take_answer, ask, exchange_block, exchange_blocks, store_piece,
  fetch_piece, run_round, run_rounds,
}
use btb.Base.{ℕ, true, false, inr, List, [], ◌∷◌, ◌++◌, Option, none, some}

-- Both blocks of a struct can be used.
abbrev pub Usable : List ℕ → Owner → Type 0
Usable held o = Holds o.self held × Held (part_blocks o.part) held

pub Usable-append : (o : Owner) (xs held : List ℕ) → Usable held o → Usable (xs ++ held) o
Usable-append o xs held u =
    (Holds-append o.self xs held u.0, Held-append (part_blocks o.part) xs held u.1)

pub Usable-own : (o : Owner) (held : List ℕ) → Usable (owner_blocks o ++ held) o
Usable-own o held = (owner-Holds_self held o, owner-Held_part held o)

-- A list of blocks that outlive a call.
abbrev pub kept : List ℕ → List ℕ
kept xs = xs

module _ (held : List ℕ) (p : Owner) (p_there : Usable held p) (x : Exchange) where
  store_answer-Leaves :
      (msg : Owner) → Usable held msg → Leaves held nothing_new (store_answer p x msg)
  unfolding store_answer
  store_answer-Leaves msg msg_there =
      let stop = pure-Consumes held nothing_new false in
      access_then-Consumes [] held nothing_new msg.self _ msg_there.0 (
        if-Consumes [] held nothing_new _ _ _
          (access_all_then-Consumes [] held nothing_new msg.part _ msg_there.1 (
            if-Consumes [] held nothing_new _ _ _
              (access_then-Consumes [] held nothing_new p.self _ p_there.0 (
                access_all_then-Consumes [] held nothing_new p.part _ p_there.1
                  (pure-Consumes held nothing_new true)))
              stop))
          stop)

module _ (held : List ℕ) (p : Owner) (p_there : Usable held p) (x : Exchange) where
  take_answer-Consumes :
      (msg : Option Owner) → Consumes (message_or_null msg) held nothing_new (take_answer p x msg)
  unfolding take_answer
  take_answer-Consumes none = pure-Consumes held nothing_new false
  take_answer-Consumes (some msg) =
      defer-Consumes (owner_blocks msg) held nothing_new _ _ (free_message-Frees (some msg)) (
        store_answer-Leaves (owner_blocks msg ++ held) p
          (Usable-append p (owner_blocks msg) held p_there) x msg (Usable-own msg held))

module _ (c : ℕ) (held : List ℕ) (conn_there : Holds c held) (p : Owner) (p_there : Usable held p)
    (x : Exchange) where
  ask-Leaves : (request : Owner) → Usable held request → Leaves held nothing_new (ask c p x request)
  unfolding ask
  ask-Leaves request there =
      >>=-Consumes [] held nothing_new nothing_new _ _
        (send_message-Leaves c held conn_there request x.request there.0 there.1)
        (λ sent.
          if-Consumes [] held nothing_new sent _ _
            (>>=-Consumes [] held message_or_null nothing_new _ _
              (read_message-Leaves c held conn_there x.answer)
              (take_answer-Consumes held p p_there x))
            (pure-Consumes held nothing_new false))

module _ (c : ℕ) (held : List ℕ) (conn_there : Holds c held) (p : Owner)
    (p_there : Usable held p) where
  exchange_block-Leaves : (x : Exchange) → Leaves held nothing_new (exchange_block c p x)
  unfolding exchange_block
  exchange_block-Leaves x = access_then-Consumes [] held nothing_new p.self _ p_there.0 (
      if-Consumes [] held nothing_new _ _ _
        (>>=-Consumes [] held owner_blocks nothing_new _ _ (new_message-Leaves held 12 none tt)
          (λ request.
            let own = owner_blocks request in
            defer-Consumes own held nothing_new _ _ (free_message-Frees (some request)) (
              ask-Leaves c (own ++ held) (Holds-append c own held conn_there) p
                (Usable-append p own held p_there) x request (Usable-own request held))))
        (pure-Consumes held nothing_new false))

  exchange_blocks-Leaves : (xs : List Exchange) → Leaves held nothing_new (exchange_blocks c p xs)
  unfolding exchange_blocks
  exchange_blocks-Leaves [] = pure-Consumes held nothing_new true
  exchange_blocks-Leaves (x ∷ xs) =
      >>=-Consumes [] held nothing_new nothing_new _ _ (exchange_block-Leaves x) (λ stored.
        if-Consumes [] held nothing_new stored _ _ (exchange_blocks-Leaves xs)
          (pure-Consumes held nothing_new false))

  store_piece-Leaves : Leaves held kept (store_piece p)
  unfolding store_piece
  store_piece-Leaves = malloc_then-Consumes [] held kept _ (λ block.
      access_then-Consumes (block ∷ []) held kept p.self _ (inr p_there.0) (
        access_all_then-Consumes (block ∷ []) held kept p.part _
          (Held-append (part_blocks p.part) (block ∷ []) held p_there.1)
          (pure-Consumes held kept (block ∷ []))))

  fetch_piece-Leaves : (xs : List Exchange) → Leaves held kept (fetch_piece c p xs)
  unfolding fetch_piece
  fetch_piece-Leaves xs =
      >>=-Consumes [] held nothing_new kept _ _ (exchange_blocks-Leaves xs)
        (λ done. if-Consumes [] held kept done _ _ store_piece-Leaves (pure-Consumes held kept []))

module _ (c : ℕ) (held : List ℕ) (conn_there : Holds c held) (bf : Owner)
    (bf_there : Usable held bf) where
  run_round-Leaves : (r : Round) → Leaves held kept (run_round c bf r)
  unfolding run_round
  run_round-Leaves r = access_then-Consumes [] held kept bf.self _ bf_there.0 (
      access_all_then-Consumes [] held kept bf.part _ bf_there.1 (
        if-Consumes [] held kept _ _ _
          (>>=-Consumes [] held owner_blocks kept _ _ (new_piece_progress-Leaves held) (λ p.
            let own = owner_blocks p in
            defer-Consumes own held kept _ _ (free_piece_progress-Frees (some p)) (
              fetch_piece-Leaves c (own ++ held) (Holds-append c own held conn_there) p
                (Usable-own p held) r.exchanges)))
          (pure-Consumes held kept [])))

  -- The pieces that are stored, the last one first, are all that the loop leaves.
  pub run_rounds-Leaves : (rs : List Round) → Leaves held kept (run_rounds c bf rs)
  unfolding run_rounds
  run_rounds-Leaves [] = pure-Consumes held kept []
  run_rounds-Leaves (r ∷ rs) =
      >>=-Leaves_append held _ _ (run_round-Leaves r) (run_rounds-Leaves rs)
