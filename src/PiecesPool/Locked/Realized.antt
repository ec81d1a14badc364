-- ===== src/PiecesPool/Locked/Realized.antt =====
-- Every call that returns when it is taken at once is a run of its statements.
use btb.Base.{
  ℕ, zero, suc, ◌+◌, ◌≡◌, refl, ◌∙◌, ◌↔◌, inl, inr, true, false, List, [], ◌∷◌, ◌++◌, append-nil,
  subst, Result, ok, ◌>>=◌, Result-cases,
}
use btb.Bitfield.{has_piece, set_piece, unset_piece}
use btb.PiecesPool.{PiecesPool, get_piece_index_loop, mark_as_undone, pieces_sum_loop}
use btb.PiecesPool.Locked.{
  Call, Reply, index, nothing, Section, scanning, unmarking, summing, leaving, free, held,
  first_section, finish, work, Returned, lock, run, unlock, Turns, none_yet, then_turn, OneByOne,
  begun, then_call,
}
use btb.PiecesPool.Locked.Atomic.{finish-first_section, Turns-OneByOne}

module _ (start : PiecesPool) (es : List Returned) (t : ℕ) (c : Call) where
  abbrev Inside : PiecesPool → Section → Type 0
  Inside pool s = Turns start es pool (held t c s)

  abbrev Done : PiecesPool → Reply → Type 0
  Done pool r = Turns start (es ++ record { thread = t; call = c; reply = r } ∷ []) pool free

  onward :
      (pool pool' : PiecesPool) (s s' : Section)
      → work s pool ≡ ok (pool', s')
      → Inside pool s
      → Inside pool' s'
  onward pool pool' s s' e turns =
      subst (λ (now : List Returned). Turns start now pool' (held t c s')) (append-nil es)
        (then_turn turns (run pool pool' t c s s' e))

  leave :
      (pool pool' : PiecesPool) (r r' : Reply)
      → ◌≡◌ {A = Result (PiecesPool × Reply)} (ok (pool, r)) (ok (pool', r'))
      → Inside pool (leaving r)
      → Done pool' r'
  leave pool pool' r r' e turns =
      let same : pool ≡ pool' = cc in
      let same_reply : r ≡ r' = cc in
      rw (← same, ← same_reply) (then_turn turns (unlock pool t c r))

  -- The first clear bit is set.
  mark :
      (left i : ℕ) (pool pool' : PiecesPool) (r : Reply)
      → has_piece pool.current_bitfield i ≡ ok false
      → ◌≡◌ {A = Result (PiecesPool × Reply)}
          (◌>>=◌ {Next = PiecesPool × ℕ}
              (set_piece pool.current_bitfield i)
              (λ b. ok (record pool { current_bitfield = b }, i))
            >>= λ (pool', found). ok (pool', index found))
          (ok (pool', r))
      → Inside pool (scanning (suc left) i)
      → Done pool' r
  unfolding work
  mark left i pool pool' r clear_bit e turns =
      elim (Result-cases (set_piece pool.current_bitfield i)) [
        | inl (inl (b, h)) ↦
            let next = record pool { current_bitfield = b } in
            leave next pool' (index i) r (rw h at e) (
              onward pool next (scanning (suc left) i) (leaving (index i)) (rw (clear_bit, h) refl)
                turns)
        | inl (inr h) ↦ (let bad = rw h at e in cc)
        | inr h ↦ (let bad = rw h at e in cc)
      ]

  scan :
      (left i : ℕ) (pool pool' : PiecesPool) (r : Reply)
      → finish (scanning left i) pool ≡ ok (pool', r)
      → Inside pool (scanning left i)
      → Done pool' r
  unfolding finish work get_piece_index_loop
  scan zero i pool pool' r e turns =
      leave pool pool' _ r e (onward pool pool (scanning zero i) _ refl turns)
  scan (suc left) i pool pool' r e turns = elim (Result-cases (has_piece pool.current_bitfield i)) [
    | inl (inl (true, h)) ↦
        scan left (i + 1) pool pool' r (rw h at e)
          (onward pool pool (scanning (suc left) i) (scanning left (i + 1)) (rw h refl) turns)
    | inl (inl (false, h)) ↦ mark left i pool pool' r h (rw h at e) turns
    | inl (inr h) ↦ (let bad = rw h at e in cc)
    | inr h ↦ (let bad = rw h at e in cc)
  ]

  clear :
      (i : ℕ) (pool pool' : PiecesPool) (r : Reply)
      → finish (unmarking i) pool ≡ ok (pool', r)
      → Inside pool (unmarking i)
      → Done pool' r
  unfolding finish work mark_as_undone
  clear i pool pool' r e turns = elim (Result-cases (unset_piece pool.current_bitfield i)) [
    | inl (inl (b, h)) ↦
        let next = record pool { current_bitfield = b } in
        leave next pool' nothing r (rw h at e)
          (onward pool next (unmarking i) (leaving nothing) (rw h refl) turns)
    | inl (inr h) ↦ (let bad = rw h at e in cc)
    | inr h ↦ (let bad = rw h at e in cc)
  ]

  sum_up :
      (left i sum : ℕ) (reply : ℕ → Reply) (pool pool' : PiecesPool) (r : Reply)
      → finish (summing left i sum reply) pool ≡ ok (pool', r)
      → Inside pool (summing left i sum reply)
      → Done pool' r
  unfolding finish work pieces_sum_loop
  sum_up zero i sum reply pool pool' r e turns =
      leave pool pool' (reply sum) r e
        (onward pool pool (summing zero i sum reply) (leaving (reply sum)) refl turns)
  sum_up (suc left) i sum reply pool pool' r e turns =
      elim (Result-cases (has_piece pool.current_bitfield i)) [
        | inl (inl (taken, h)) ↦
            let sum' : ℕ = elim taken [ true ↦ sum + 1 | false ↦ sum ] in
            sum_up left (i + 1) sum' reply pool pool' r (rw h at e) (
              onward pool pool (summing (suc left) i sum reply) (summing left (i + 1) sum' reply)
                (rw h refl) turns)
        | inl (inr h) ↦ (let bad = rw h at e in cc)
        | inr h ↦ (let bad = rw h at e in cc)
      ]

  run_to_end :
      (s : Section) (pool pool' : PiecesPool) (r : Reply)
      → finish s pool ≡ ok (pool', r)
      → Inside pool s
      → Done pool' r
  unfolding finish
  run_to_end (scanning left i) pool pool' r e turns = scan left i pool pool' r e turns
  run_to_end (unmarking i) pool pool' r e turns = clear i pool pool' r e turns
  run_to_end (summing left i sum reply) pool pool' r e turns =
      sum_up left i sum reply pool pool' r e turns
  run_to_end (leaving r) pool pool' r' e turns = leave pool pool' r r' e turns

OneByOne-Turns :
    (start pool : PiecesPool) (es : List Returned)
    → OneByOne start es pool
    → Turns start es pool free
OneByOne-Turns start _ _ begun = none_yet
OneByOne-Turns start pool' _ (then_call {pool = pool} {before = before} t c r calls e) =
    let s = first_section c pool in
    let turns =
      subst (λ (now : List Returned). Turns start now pool (held t c s)) (append-nil before)
        (then_turn (OneByOne-Turns start pool before calls) (lock pool t c s refl)) in
    run_to_end start before t c s pool pool' r (finish-first_section c pool ∙ e) turns

-- Threads that take turns at the mutex of the pool, in any order, and run its operations statement
-- by statement while they hold it, get from one pool to another with certain calls returned
-- exactly if these calls, made one after the other in the order in which the mutex is released and
-- each in one step, return the same replies and lead to the same pool.
pub Turns-iff-OneByOne :
    (start pool : PiecesPool) (es : List Returned)
    → Turns start es pool free ↔ OneByOne start es pool
Turns-iff-OneByOne start pool es = (Turns-OneByOne start pool es, OneByOne-Turns start pool es)
