-- ===== src/Heap/Thread/Stored.antt =====
-- How many pieces a thread stores.
use btb.Heap.{Mem, pure, ◌>>=◌, ◌>>◌, access, access_all}
use btb.Heap.Defer.{defer}
use btb.Heap.Answers.{
  Answers, >>=-Answers, then-Answers, unit_then-Answers, malloc_then-Answers, pure-Answers,
  defer-Answers,
}
use btb.Heap.Objects.{Owner, new_message, free_message, new_piece_progress, free_piece_progress}
use btb.Heap.Objects.Answers.{is_some, bit}
use btb.Heap.Message.{send_message, read_message}
use btb.Heap.Message.Answers.{delivers, arrives, send_message-Answers, read_message-Answers}
use btb.Heap.Thread.{
  Exchange, Round, store_answer, take_answer, ask, exchange_block, exchange_blocks, store_piece,
  fetch_piece, run_round, run_rounds,
}
use btb.Base.{
  ℕ, ◌+◌, ◌≡◌, refl, Bool, true, false, ◌&&◌, List, [], ◌∷◌, ◌++◌, length, length-append, Option,
  none, some, if◌then◌else◌, arith,
}

-- Whether a block is asked for, answered and copied.
abbrev pub completes : Exchange → Bool
completes x = x.fits && (delivers x.request && (arrives x.answer && (x.is_piece && x.asked_for)))

abbrev pub all_complete : List Exchange → Bool
all_complete [] = true
all_complete (x ∷ xs) = completes x && all_complete xs

abbrev pub is_fetched : Round → Bool
is_fetched r = r.has_it && all_complete r.exchanges

-- The rounds in which a piece is stored.
abbrev pub stored_count : List Round → ℕ
stored_count [] = 0
stored_count (r ∷ rs) = bit (is_fetched r) + stored_count rs

and-Answers :
    (b rest : Bool) (m : Mem Bool)
    → Answers (λ r. r ≡ rest) m
    → Answers (λ r. r ≡ (b && rest)) (if b then m else pure false)
and-Answers true rest m p = p
and-Answers false rest m p = pure-Answers _ false refl

-- After a call whose result is the test.
and_then-Answers :
    (b rest : Bool) (call m : Mem Bool)
    → Answers (λ r. r ≡ b) call
    → Answers (λ r. r ≡ rest) m
    → Answers (λ r. r ≡ (b && rest)) (do r ← call; if r then m else pure false)
and_then-Answers b rest call m p q =
    >>=-Answers (λ r. r ≡ b) (λ r. r ≡ (b && rest)) call _ p
      (λ r e. rw (← e) (and-Answers r rest m q))

asked-Answers :
    (p : Owner) (asked_for : Bool)
    → Answers
        (λ r. r ≡ asked_for)
        (if asked_for then (do access p.self; access_all p.part; pure true) else pure false)
asked-Answers p true =
    unit_then-Answers _ (access p.self) _
      (unit_then-Answers _ (access_all p.part) _ (pure-Answers _ true refl))
asked-Answers p false = pure-Answers _ false refl

store_answer-Answers :
    (p : Owner) (x : Exchange) (msg : Owner)
    → Answers (λ r. r ≡ (x.is_piece && x.asked_for)) (store_answer p x msg)
unfolding store_answer
store_answer-Answers p x msg = unit_then-Answers _ (access msg.self) _ (
    and-Answers x.is_piece x.asked_for _
      (unit_then-Answers _ (access_all msg.part) _ (asked-Answers p x.asked_for)))

take_answer-Answers :
    (p : Owner) (x : Exchange) (msg : Option Owner)
    → Answers (λ r. r ≡ (is_some msg && (x.is_piece && x.asked_for))) (take_answer p x msg)
unfolding take_answer
take_answer-Answers p x none = pure-Answers _ false refl
take_answer-Answers p x (some msg) =
    defer-Answers _ (free_message (some msg)) _ (store_answer-Answers p x msg)

module _ (c : ℕ) (p : Owner) where
  answer-Answers :
      (x : Exchange)
      → Answers
          (λ r. r ≡ (arrives x.answer && (x.is_piece && x.asked_for)))
          (do msg ← read_message c x.answer; take_answer p x msg)
  answer-Answers x =
      let test = x.is_piece && x.asked_for in
      >>=-Answers (λ o. is_some o ≡ arrives x.answer) (λ r. r ≡ (arrives x.answer && test))
        (read_message c x.answer) _ (read_message-Answers c x.answer)
        (λ msg e. rw (← e) (take_answer-Answers p x msg))

  ask-Answers :
      (x : Exchange) (request : Owner)
      → Answers
          (λ r. r ≡ (delivers x.request && (arrives x.answer && (x.is_piece && x.asked_for))))
          (ask c p x request)
  unfolding ask
  ask-Answers x request =
      and_then-Answers (delivers x.request) _ (send_message c request x.request) _
        (send_message-Answers c request x.request) (answer-Answers x)

  exchange_block-Answers : (x : Exchange) → Answers (λ r. r ≡ completes x) (exchange_block c p x)
  unfolding exchange_block
  exchange_block-Answers x = unit_then-Answers _ (access p.self) _ (
      and-Answers x.fits _ _ (
        then-Answers _ (new_message 12 none) _
          (λ request. defer-Answers _ (free_message (some request)) _ (ask-Answers x request))))

  -- `download_piece` succeeds where every block of the piece arrives.
  exchange_blocks-Answers :
      (xs : List Exchange) → Answers (λ r. r ≡ all_complete xs) (exchange_blocks c p xs)
  unfolding exchange_blocks
  exchange_blocks-Answers [] = pure-Answers _ true refl
  exchange_blocks-Answers (x ∷ xs) =
      and_then-Answers (completes x) (all_complete xs) (exchange_block c p x) _
        (exchange_block-Answers x) (exchange_blocks-Answers xs)

abbrev pub Counts : ℕ → List ℕ → Type 0
Counts n xs = length xs ≡ n

abbrev pub when_true : Bool → ℕ → ℕ
when_true b n = if b then n else 0

pub when-Answers :
    (b : Bool) (n : ℕ) (m : Mem (List ℕ))
    → Answers (Counts n) m
    → Answers (Counts (when_true b n)) (if b then m else pure [])
when-Answers true n m p = p
when-Answers false n m p = pure-Answers _ [] refl

fetched-Answers :
    (p : Owner) (done : Bool)
    → Answers (Counts (bit done)) (if done then store_piece p else pure [])
unfolding store_piece
fetched-Answers p true = malloc_then-Answers _ _ (λ block.
    unit_then-Answers _ (access p.self) _
      (unit_then-Answers _ (access_all p.part) _ (pure-Answers _ (block ∷ []) refl)))
fetched-Answers p false = pure-Answers _ [] refl

fetch_piece-Answers :
    (c : ℕ) (p : Owner) (xs : List Exchange)
    → Answers (Counts (bit (all_complete xs))) (fetch_piece c p xs)
unfolding fetch_piece
fetch_piece-Answers c p xs =
    >>=-Answers (λ r. r ≡ all_complete xs) (Counts (bit (all_complete xs))) (exchange_blocks c p xs)
      _ (exchange_blocks-Answers c p xs) (λ done e. rw (← e) (fetched-Answers p done))

has_it-Answers :
    (c : ℕ) (xs : List Exchange) (has_it : Bool)
    → Answers (Counts (bit (has_it && all_complete xs))) (
        if has_it
        then (do p ← new_piece_progress; defer (free_piece_progress (some p)) (fetch_piece c p xs))
        else pure [])
has_it-Answers c xs true =
    then-Answers _ new_piece_progress _
      (λ p. defer-Answers _ (free_piece_progress (some p)) _ (fetch_piece-Answers c p xs))
has_it-Answers c xs false = pure-Answers _ [] refl

module _ (c : ℕ) (bf : Owner) where
  run_round-Answers : (r : Round) → Answers (Counts (bit (is_fetched r))) (run_round c bf r)
  unfolding run_round
  run_round-Answers r =
      unit_then-Answers _ (access bf.self) _
        (unit_then-Answers _ (access_all bf.part) _ (has_it-Answers c r.exchanges r.has_it))

  -- The loop stores one piece in each round whose blocks all arrive.
  pub run_rounds-Answers :
      (rs : List Round) → Answers (Counts (stored_count rs)) (run_rounds c bf rs)
  unfolding run_rounds
  run_rounds-Answers [] = pure-Answers _ [] refl
  run_rounds-Answers (r ∷ rs) =
      >>=-Answers (Counts (bit (is_fetched r))) (Counts (stored_count (r ∷ rs))) (run_round c bf r)
        _ (run_round-Answers r)
        (λ stored e.
          >>=-Answers (Counts (stored_count rs)) (Counts (stored_count (r ∷ rs)))
            (run_rounds c bf rs) _ (run_rounds-Answers rs)
            (λ later e'.
              pure-Answers _ (later ++ stored) (omega (arith, e, e', length-append later stored))))
