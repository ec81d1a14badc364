-- ===== src/PiecesPool/Laws.antt =====
-- pieces_pool.c against a set of piece indices.
use btb.Base.{
  ℕ, zero, suc, ◌+◌, ◌-◌, ◌/◌, ◌%◌, ◌^◌, ◌≤◌, ◌<◌, ◌≡◌, refl, ap, ◌∙◌, Bool, true, false, List, ◌∷◌,
  Result, ok, arith, ◌==◌, length, replicate, All, IsByte, if◌then◌else◌, inl, inr, Bool-cases,
  length-replicate, get_or, take, ==_iff, ◌↔◌,
}
use native.Mathlib.Nat.{zero-div}
use btb.Bitfield.Bits.{bit_is_set}
use btb.Bitfield.{Bitfield, has_piece}
use btb.Bitfield.Laws.{
  IsBitfield, Covers, bit, Changes, has_piece_lem, set_piece_lem, unset_piece_lem,
  init_bitfield_lem,
}
use btb.PiecesPool.{
  PiecesPool, init_pieces_pool, get_piece_index, get_piece_index_loop, mark_as_undone, is_done,
  get_num_undone_pieces, pieces_sum_loop,
}

-- A pool of at least one piece, whose bitfield has a byte for each.
pub record IsPool (pool : PiecesPool) : Type 0 where
  pub valid : IsBitfield pool.current_bitfield
  pub sized : pool.current_bitfield.length ≡ pool.num_pieces
  pub some_pieces : 0 < pool.num_pieces

-- The piece is handed out.
abbrev pub taken : PiecesPool → ℕ → Bool
taken pool i = bit pool.current_bitfield i

-- `pool'` differs from `pool` in the mark of `index` alone, which is `v`.
pub record Marks (pool pool' : PiecesPool) (index : ℕ) (v : Bool) : Type 0 where
  pub valid : IsPool pool'
  pub same_size : pool'.num_pieces ≡ pool.num_pieces
  pub marks : (j : ℕ) → taken pool' j ≡ (if index == j then v else taken pool j)

-- How many of the `n` pieces from `i` on are handed out.
abbrev pub count_taken : ℕ → ℕ → PiecesPool → ℕ
count_taken zero i pool = 0
count_taken (suc n) i pool = (if taken pool i then 1 else 0) + count_taken n (i + 1) pool

pub count_taken-le : (n i : ℕ) (pool : PiecesPool) → count_taken n i pool ≤ n
count_taken-le zero i pool = omega arith
count_taken-le (suc n) i pool = ground (arith, count_taken-le n (i + 1) pool)

pub count_taken-full :
    (n i : ℕ) (pool : PiecesPool)
    → count_taken n i pool ≡ n
    → (j : ℕ) → i ≤ j
    → j < i + n
    → taken pool j ≡ true
count_taken-full zero i pool e j lo hi = absurd (omega arith)
count_taken-full (suc n) i pool e j lo hi = ground (
  arith,
  count_taken-full n (i + 1) pool,
  count_taken-full n (i + 1) pool (ground (arith, count_taken-le n (i + 1) pool)) j,
  count_taken-le n (i + 1) pool,
)

pub full-count_taken :
    (n i : ℕ) (pool : PiecesPool)
    → ((j : ℕ) → i ≤ j → j < i + n → taken pool j ≡ true)
    → count_taken n i pool ≡ n
full-count_taken zero i pool all = refl
full-count_taken (suc n) i pool all = ground (
  arith,
  all i (omega arith) (omega arith),
  full-count_taken n (i + 1) pool (λ j lo hi. all j (omega arith) (omega arith)),
)

module _ {pool : PiecesPool} (v : IsPool pool) where
  -- Every index that the code passes, one past the number of pieces included, lies in the bitfield.
  covers : (i : ℕ) → i ≤ pool.num_pieces + 1 → Covers pool.current_bitfield i
  covers i h = omega (arith, v.sized, v.some_pieces)

  pub has_piece-taken :
      (i : ℕ) → i ≤ pool.num_pieces + 1 → has_piece pool.current_bitfield i ≡ ok (taken pool i)
  has_piece-taken i h = has_piece_lem v.valid i (covers i h)

  Changes-Marks :
      (b : Bitfield) (i : ℕ) (value : Bool)
      → Changes pool.current_bitfield b i value
      → Marks pool (record pool { current_bitfield = b }) i value
  Changes-Marks b i value c = record {
    valid = record {
      valid = c.valid;
      sized = c.same_length ∙ v.sized;
      some_pieces = v.some_pieces;
    };
    same_size = refl;
    marks = c.bits;
  }

  -- On a valid pool and an index up to one past the number of pieces, `mark_as_undone` returns a
  -- valid pool of the same size in which the index is not marked and every other mark is as
  -- before.
  pub mark_as_undone-Marks :
      (i : ℕ)
      → i ≤ pool.num_pieces + 1
      → (pool' : PiecesPool) × (mark_as_undone pool i ≡ ok pool') × Marks pool pool' i false
  unfolding mark_as_undone
  mark_as_undone-Marks i h =
      let (b, e, c) = unset_piece_lem v.valid i (covers i h) in
      (record pool { current_bitfield = b }, rw e, Changes-Marks b i false c)

  pieces_sum_loop_lem :
      (left i sum : ℕ)
      → i + left ≤ pool.num_pieces
      → pieces_sum_loop left i pool.current_bitfield sum ≡ ok (sum + count_taken left i pool)
  unfolding pieces_sum_loop
  pieces_sum_loop_lem zero i sum h = ap ok (omega arith)
  pieces_sum_loop_lem (suc left) i sum h =
      rw (has_piece-taken i (omega arith)) (elim (Bool-cases (taken pool i)) [
        | inl e ↦
            rw e (pieces_sum_loop_lem left (i + 1) (sum + 1) (omega arith) ∙ ap ok (omega arith))
        | inr e ↦ rw e (pieces_sum_loop_lem left (i + 1) sum (omega arith) ∙ ap ok (omega arith))
      ])

  count : ℕ
  count = count_taken pool.num_pieces 0 pool

  is_done_count : is_done pool ≡ ok (count_taken pool.num_pieces 0 pool == pool.num_pieces)
  unfolding is_done
  is_done_count = rw (pieces_sum_loop_lem pool.num_pieces 0 0 (omega arith)) (ap ok (ground arith))

  -- What a search from `i` finds: a free piece, all before it taken, or that there is none.
  pub data Found (i : ℕ) (r : Result (PiecesPool × ℕ)) : Type 0 where
    free :
        (pool' : PiecesPool) (k : ℕ)
        → r ≡ ok (pool', k)
        → i ≤ k
        → k < pool.num_pieces
        → taken pool k ≡ false
        → ((j : ℕ) → i ≤ j → j < k → taken pool j ≡ true)
        → Marks pool pool' k true
        → Found i r
    none_free :
        r ≡ ok (pool, pool.num_pieces + 1)
        → ((j : ℕ) → i ≤ j → j < pool.num_pieces → taken pool j ≡ true)
        → Found i r

  Found-skip :
      (i : ℕ) (r : Result (PiecesPool × ℕ)) → taken pool i ≡ true → Found (i + 1) r → Found i r
  Found-skip i r held (free pool' k e lo hi f before m) =
      free pool' k e (omega arith) hi f (λ j p q. ground (arith, before j)) m
  Found-skip i r held (none_free e all) = none_free e (λ j p q. ground (arith, all j))

  get_piece_index_loop-Found :
      (left i : ℕ) → i + left ≡ pool.num_pieces → Found i (get_piece_index_loop left i pool)
  unfolding get_piece_index_loop
  get_piece_index_loop-Found zero i h = none_free refl (λ j p q. absurd (omega arith))
  get_piece_index_loop-Found (suc left) i h = elim (Bool-cases (taken pool i)) [
    | inl held ↦
        rw (has_piece-taken i (omega arith), held)
          (Found-skip i _ held (get_piece_index_loop-Found left (i + 1) (omega arith)))
    | inr not_held ↦
        let (b, e, c) = set_piece_lem v.valid i (covers i (omega arith)) in
        rw (has_piece-taken i (omega arith), not_held, e)
          (free (record pool { current_bitfield = b }) i refl (omega arith) (omega arith) not_held
            (λ j p q. absurd (omega arith)) (Changes-Marks b i true c))
  ]

  -- On a valid pool `get_piece_index` returns the lowest index that is not marked and marks it
  -- alone, or, if every index is marked, returns the number of pieces plus one and changes
  -- nothing.
  pub get_piece_index-Found : Found 0 (get_piece_index pool)
  unfolding get_piece_index
  get_piece_index-Found = get_piece_index_loop-Found pool.num_pieces 0 (omega arith)

  -- On a valid pool `is_done` returns, and answers true exactly if every index below the number of
  -- pieces is marked.
  pub is_done_iff :
      (r : Bool) × (is_done pool ≡ ok r)
      × ((r ≡ true) ↔ ((j : ℕ) → j < pool.num_pieces → taken pool j ≡ true))
  is_done_iff = (
    count_taken pool.num_pieces 0 pool == pool.num_pieces,
    is_done_count,
    (
      λ e j h.
          count_taken-full pool.num_pieces 0 pool ((==_iff _ _).0 e) j (omega arith) (omega arith),
      λ all.
          (==_iff _ _).1 (full-count_taken pool.num_pieces 0 pool (λ j lo hi. all j (omega arith))),
    ),
  )

  -- On a valid pool `get_num_undone_pieces` returns the number of pieces less the number of marked
  -- indices, and the subtraction does not wrap.
  pub get_num_undone_pieces_lem :
      get_num_undone_pieces pool ≡ ok (pool.num_pieces - count_taken pool.num_pieces 0 pool)
  unfolding get_num_undone_pieces
  get_num_undone_pieces_lem =
      rw (pieces_sum_loop_lem pool.num_pieces 0 0 (omega arith))
        (ap ok (omega (arith, count_taken-le pool.num_pieces 0 pool, v.valid.small, v.sized)))

abbrev zeros : ℕ → List ℕ
zeros n = replicate n 0

length-zeros : (n : ℕ) → length (zeros n) ≡ n
length-zeros n = length-replicate n 0

zeros-IsByte : (n : ℕ) → All IsByte (zeros n)
zeros-IsByte zero = tt
zeros-IsByte (suc n) = (omega arith, zeros-IsByte n)

get_or-zeros : (n i : ℕ) → get_or (zeros n) i 0 ≡ 0
get_or-zeros zero i = refl
get_or-zeros (suc n) zero = refl
get_or-zeros (suc n) (suc i) = get_or-zeros n i

take-zeros : (n : ℕ) → take n (zeros n) ≡ zeros n
take-zeros zero = refl
take-zeros (suc n) = ap (◌∷◌ 0) (take-zeros n)

zero_bit : (k : ℕ) → k < 8 → bit_is_set 0 k ≡ false
zero_bit k h = ground (arith, zero-div (2 ^ k))

-- For 1 to 2 ^ 31 pieces, `init_pieces_pool` returns a valid pool of that many pieces in which no
-- index is marked.
pub init_pieces_pool-IsPool :
    (n : ℕ)
    → 0 < n
    → n ≤ 2 ^ 31
    → (pool : PiecesPool) × (init_pieces_pool n ≡ ok pool)
      × IsPool pool
      × (pool.num_pieces ≡ n)
      × ((j : ℕ) → taken pool j ≡ false)
unfolding init_pieces_pool
init_pieces_pool-IsPool n pos small =
    let (b, e, valid, sized, bytes) =
      init_bitfield_lem (zeros n) n small (omega (arith, length-zeros n)) (zeros-IsByte n) in
    (
      record { current_bitfield = b; num_pieces = n },
      rw e,
      record { valid = valid; sized = sized; some_pieces = pos },
      refl,
      λ j. rw (bytes, take-zeros n, get_or-zeros n (j / 8)) (zero_bit (7 - j % 8) (omega arith)),
    )
