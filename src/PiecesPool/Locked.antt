-- ===== src/PiecesPool/Locked.antt =====
-- The operations of src/pieces_pool.c statement by statement, between `pthread_mutex_lock` and
-- `pthread_mutex_unlock`: threads take turns at the mutex, and each works alone while it holds it.
pub mod Atomic
pub mod Realized
use btb.Base.{
  ℕ, zero, suc, ◌+◌, ◌-◌, ◌%◌, ◌≡◌, Bool, true, false, List, [], ◌∷◌, ◌++◌, Result, ok, failed,
  ◌>>=◌, ◌==◌, u64_mod,
}
use btb.Bitfield.{Bitfield, has_piece, set_piece, unset_piece}
use btb.PiecesPool.{
  PiecesPool, get_piece_index, get_piece_index_loop, pieces_sum_loop, mark_as_undone, is_done,
  get_num_undone_pieces,
}

-- A call of `get_piece_index`, `mark_as_undone`, `is_done` or `get_num_undone_pieces`.
pub data Call : Type 0 where
  pick : Call
  undo : ℕ → Call
  ask_done ask_undone : Call

-- What a call returns.
pub data Reply : Type 0 where
  index : ℕ → Reply
  nothing : Reply
  flag : Bool → Reply
  number : ℕ → Reply

-- Where a thread is inside the mutex. In the loops, `left` rounds are to go from `i` on; `leaving`
-- is the call of `pthread_mutex_unlock`.
pub data Section : Type 0 where
  scanning : (left i : ℕ) → Section
  unmarking : ℕ → Section
  summing : (left i sum : ℕ) → (ℕ → Reply) → Section
  leaving : Reply → Section

pub data Lock : Type 0 where
  free : Lock
  held : ℕ → Call → Section → Lock

-- What `is_done` and `get_num_undone_pieces` return for a sum; `num_pieces` never changes.
abbrev pub done_reply : PiecesPool → ℕ → Reply
done_reply pool sum = flag (sum == pool.num_pieces)

abbrev pub undone_reply : PiecesPool → ℕ → Reply
undone_reply pool sum = number ((pool.num_pieces + u64_mod - sum) % u64_mod)

-- The first statement after `pthread_mutex_lock`.
pub first_section : Call → PiecesPool → Section
first_section pick pool = scanning pool.num_pieces 0
first_section (undo i) pool = unmarking i
first_section ask_done pool = summing pool.num_pieces 0 0 (done_reply pool)
first_section ask_undone pool = summing pool.num_pieces 0 0 (undone_reply pool)

-- One round of a loop, or one statement. `failed` for a thread that waits to leave.
pub work : Section → PiecesPool → Result (PiecesPool × Section)
work (scanning zero i) pool = ok (pool, leaving (index (pool.num_pieces + 1)))
work (scanning (suc left) i) pool = do
  taken ← has_piece pool.current_bitfield i
  elim taken [
    | true ↦ ok (pool, scanning left (i + 1))
    | false ↦ do
      b ← set_piece pool.current_bitfield i
      ok (record pool { current_bitfield = b }, leaving (index i))
  ]
work (unmarking i) pool = do
  b ← unset_piece pool.current_bitfield i
  ok (record pool { current_bitfield = b }, leaving nothing)
work (summing zero i sum reply) pool = ok (pool, leaving (reply sum))
work (summing (suc left) i sum reply) pool = do
  taken ← has_piece pool.current_bitfield i
  ok (pool, summing left (i + 1) (elim taken [ true ↦ sum + 1 | false ↦ sum ]) reply)
work (leaving r) pool = failed

-- What is left of a call, taken at once.
pub finish : Section → PiecesPool → Result (PiecesPool × Reply)
finish (scanning left i) pool = do
  (pool', found) ← get_piece_index_loop left i pool
  ok (pool', index found)
finish (unmarking i) pool = do pool' ← mark_as_undone pool i; ok (pool', nothing)
finish (summing left i sum reply) pool = do
  total ← pieces_sum_loop left i pool.current_bitfield sum
  ok (pool, reply total)
finish (leaving r) pool = ok (pool, r)

-- A thread has called and got its reply.
pub record Returned : Type 0 where
  pub thread : ℕ
  pub call : Call
  pub reply : Reply

-- A step of some thread, and the call that returns by it, if any.
pub data Turn : PiecesPool → Lock → List Returned → PiecesPool → Lock → Type 0 where
  lock :
      (pool : PiecesPool) (t : ℕ) (c : Call) (s : Section)
      → s ≡ first_section c pool
      → Turn pool free [] pool (held t c s)
  run :
      (pool pool' : PiecesPool) (t : ℕ) (c : Call) (s s' : Section)
      → work s pool ≡ ok (pool', s')
      → Turn pool (held t c s) [] pool' (held t c s')
  unlock :
      (pool : PiecesPool) (t : ℕ) (c : Call) (r : Reply)
      → Turn pool (held t c (leaving r)) (record { thread = t; call = c; reply = r } ∷ []) pool free

-- The calls that have returned, in their order, since the mutex was free and the pool `start`.
pub data Turns (start : PiecesPool) : List Returned → PiecesPool → Lock → Type 0 where
  none_yet : Turns start [] start free
  then_turn :
      {pool pool' : PiecesPool} {l l' : Lock} {before now : List Returned}
      → Turns start before pool l
      → Turn pool l now pool' l'
      → Turns start (before ++ now) pool' l'

-- The whole call as one step.
unfoldable pub at_once : Call → PiecesPool → Result (PiecesPool × Reply)
unfolding get_piece_index mark_as_undone is_done get_num_undone_pieces
at_once pick pool = do (pool', i) ← get_piece_index pool; ok (pool', index i)
at_once (undo i) pool = do pool' ← mark_as_undone pool i; ok (pool', nothing)
at_once ask_done pool = do done ← is_done pool; ok (pool, flag done)
at_once ask_undone pool = do n ← get_num_undone_pieces pool; ok (pool, number n)

-- Calls one after the other.
pub data OneByOne (start : PiecesPool) : List Returned → PiecesPool → Type 0 where
  begun : OneByOne start [] start
  then_call :
      {pool pool' : PiecesPool} {before : List Returned} (t : ℕ) (c : Call) (r : Reply)
      → OneByOne start before pool
      → at_once c pool ≡ ok (pool', r)
      → OneByOne start (before ++ record { thread = t; call = c; reply = r } ∷ []) pool'
