-- ===== src/PiecesPool/Locked/Atomic.antt =====
-- The operations of the pool, taken statement by statement under the mutex, are steps that happen
-- at once.
use btb.Base.{
  ℕ, zero, suc, ◌+◌, ◌-◌, ◌%◌, ◌≡◌, refl, ap, sym, ◌∙◌, Bool, true, false, List, ◌++◌, append-nil,
  subst, Result, ok, failed, fault, ◌>>=◌, ◌==◌, u64_mod,
}
use btb.Bitfield.{Bitfield, has_piece, set_piece, unset_piece}
use btb.PiecesPool.{
  PiecesPool, get_piece_index, get_piece_index_loop, mark_as_undone, is_done, get_num_undone_pieces,
  pieces_sum_loop,
}
use btb.PiecesPool.Locked.{
  Call, pick, undo, ask_done, ask_undone, Reply, index, nothing, flag, number, Section, scanning,
  unmarking, summing, leaving, Lock, free, held, first_section, finish, work, Returned, Turn, lock,
  run, unlock, Turns, none_yet, then_turn, at_once, OneByOne, begun, then_call,
}

-- A computed number, put into a reply in two steps or in one.
sum_reply :
    {A : Type 0} (pool : PiecesPool) (f : ℕ → A) (g : A → Reply) (total : Result ℕ)
    → ◌>>=◌ {Next = PiecesPool × Reply} total (λ sum. ok (pool, g (f sum)))
      ≡ ◌>>=◌ {Next = PiecesPool × Reply} (total >>= λ sum. ok (f sum)) (λ a. ok (pool, g a))
sum_reply pool f g (ok sum) = refl
sum_reply pool f g failed = refl
sum_reply pool f g fault = refl

-- The first statement has the whole call left.
pub finish-first_section :
    (c : Call) (pool : PiecesPool) → finish (first_section c pool) pool ≡ at_once c pool
unfolding finish first_section at_once get_piece_index is_done get_num_undone_pieces
finish-first_section pick pool = refl
finish-first_section (undo i) pool = refl
finish-first_section ask_done pool =
    sum_reply pool (λ sum. sum == pool.num_pieces) flag
      (pieces_sum_loop pool.num_pieces 0 pool.current_bitfield 0)
finish-first_section ask_undone pool =
    sum_reply pool (λ sum. (pool.num_pieces + u64_mod - sum) % u64_mod) number
      (pieces_sum_loop pool.num_pieces 0 pool.current_bitfield 0)

-- What is left after a statement.
abbrev finish_after : Result (PiecesPool × Section) → Result (PiecesPool × Reply)
finish_after next = next >>= λ (pool, s). finish s pool

module _ (pool : PiecesPool) (left i : ℕ) where
  marked :
      (b : Result Bitfield)
      → finish_after (b >>= λ b. ok (record pool { current_bitfield = b }, leaving (index i)))
        ≡ ◌>>=◌ {Next = PiecesPool × Reply}
            (◌>>=◌ {Next = PiecesPool × ℕ} b (λ b. ok (record pool { current_bitfield = b }, i)))
            (λ (pool', found). ok (pool', index found))
  unfolding finish
  marked (ok b) = refl
  marked failed = refl
  marked fault = refl

  looked :
      (taken : Result Bool)
      → finish_after (
          taken >>= λ taken. elim taken [
            | true ↦ ok (pool, scanning left (i + 1))
            | false ↦ (do
              b ← set_piece pool.current_bitfield i
              ok (record pool { current_bitfield = b }, leaving (index i)))
          ])
        ≡ ◌>>=◌ {Next = PiecesPool × Reply}
            (◌>>=◌ {Next = PiecesPool × ℕ} taken (λ taken. elim taken [
              | true ↦ get_piece_index_loop left (i + 1) pool
              | false ↦ (do
                b ← set_piece pool.current_bitfield i
                ok (record pool { current_bitfield = b }, i))
            ]))
            (λ (pool', found). ok (pool', index found))
  unfolding finish
  looked (ok true) = refl
  looked (ok false) = marked (set_piece pool.current_bitfield i)
  looked failed = refl
  looked fault = refl

  unmarked :
      (b : Result Bitfield)
      → finish_after (b >>= λ b. ok (record pool { current_bitfield = b }, leaving nothing))
        ≡ ◌>>=◌ {Next = PiecesPool × Reply}
            (◌>>=◌ {Next = PiecesPool} b (λ b. ok (record pool { current_bitfield = b })))
            (λ pool'. ok (pool', nothing))
  unfolding finish
  unmarked (ok b) = refl
  unmarked failed = refl
  unmarked fault = refl

  counted :
      (sum : ℕ) (reply : ℕ → Reply) (taken : Result Bool)
      → finish_after (
          taken >>= λ taken.
          ok (pool, summing left (i + 1) (elim taken [ true ↦ sum + 1 | false ↦ sum ]) reply))
        ≡ ◌>>=◌ {Next = PiecesPool × Reply}
            (◌>>=◌ {Next = ℕ} taken (λ taken.
              pieces_sum_loop left
                (i + 1)
                pool.current_bitfield
                (elim taken [ true ↦ sum + 1 | false ↦ sum ])))
            (λ total. ok (pool, reply total))
  unfolding finish
  counted sum reply (ok taken) = refl
  counted sum reply failed = refl
  counted sum reply fault = refl

-- Before `pthread_mutex_unlock`, a statement leaves the rest of the call.
abbrev IsInside : Section → Type 0
IsInside (leaving r) = ⊥
IsInside s = Unit

work-finish :
    (s : Section) (pool : PiecesPool) → IsInside s → finish_after (work s pool) ≡ finish s pool
unfolding work finish get_piece_index_loop mark_as_undone pieces_sum_loop
work-finish (scanning zero i) pool inside = refl
work-finish (scanning (suc left) i) pool inside =
    looked pool left i (has_piece pool.current_bitfield i)
work-finish (unmarking i) pool inside = unmarked pool 0 i (unset_piece pool.current_bitfield i)
work-finish (summing zero i sum reply) pool inside = refl
work-finish (summing (suc left) i sum reply) pool inside =
    counted pool left i sum reply (has_piece pool.current_bitfield i)
work-finish (leaving r) pool inside = elim inside [ ]

work-IsInside :
    (s : Section) (pool pool' : PiecesPool) (s' : Section)
    → work s pool ≡ ok (pool', s')
    → IsInside s
unfolding work
work-IsInside (scanning left i) pool pool' s' e = tt
work-IsInside (unmarking i) pool pool' s' e = tt
work-IsInside (summing left i sum reply) pool pool' s' e = tt
work-IsInside (leaving r) pool pool' s' e = cc

-- While the mutex is held, what is left of the call gives what the call gives at once from the pool
-- that the last call has left.
Between : PiecesPool → List Returned → PiecesPool → Lock → Type 0
Between start before pool free = OneByOne start before pool
Between start before pool (held t c s) =
    (last : PiecesPool) × (OneByOne start before last) × (finish s pool ≡ at_once c last)

Turn-Between :
    (start pool pool' : PiecesPool) (before now : List Returned) (l l' : Lock)
    → Turn pool l now pool' l'
    → Between start before pool l
    → Between start (before ++ now) pool' l'
unfolding Between finish
Turn-Between start pool pool' before now l l' (lock _ t c s e) b = (
  pool,
  subst (λ (es : List Returned). OneByOne start es pool) (sym (append-nil before)) b,
  ap (λ (s : Section). finish s pool) e ∙ finish-first_section c pool,
)
Turn-Between start pool pool' before now l l' (run _ _ t c s s' e) (last, b, left) = (
  last,
  subst (λ (es : List Returned). OneByOne start es last) (sym (append-nil before)) b,
  sym (ap finish_after e) ∙ work-finish s pool (work-IsInside s pool pool' s' e) ∙ left,
)
Turn-Between start pool pool' before now l l' (unlock _ t c r) (last, b, left) =
    then_call t c r b (sym left)

Turns-Between :
    {start pool : PiecesPool} {es : List Returned} {l : Lock}
    → Turns start es pool l
    → Between start es pool l
unfolding Between
Turns-Between none_yet = begun
Turns-Between (then_turn turns turn) = Turn-Between _ _ _ _ _ _ _ turn (Turns-Between turns)

-- x
pub Turns-OneByOne :
    (start pool : PiecesPool) (es : List Returned)
    → Turns start es pool free
    → OneByOne start es pool
unfolding Between
Turns-OneByOne start pool es turns = Turns-Between turns
