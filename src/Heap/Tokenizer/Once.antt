-- ===== src/Heap/Tokenizer/Once.antt =====
-- The calls of `next` on a given text, and the tokens that they lose.
use btb.Heap.{Heap}
use btb.Heap.Laws.{IsHeap, Returns, Returns-mono}
use btb.Heap.Tokenizer.{
  NextCall, resizes, ends, malformed, use_tokenizer, lost_count, is_positive_size,
  use_tokenizer-memory,
}
use btb.Tokenizer.{Tokenizer, next, error, tokenizer_ok, tokenizer_end, tokenizer_malformed_string}
use btb.Tokenizer.Codes.{next-error, next-stuck, next-le}
use btb.Base.{
  ℕ, zero, suc, ◌≤◌, ◌≡◌, refl, Bool, true, false, not, ◌||◌, List, [], ◌∷◌, ◌++◌, length, Result,
  ok, failed, fault, ◌==◌, if◌then◌else◌, arith, subst,
}

-- What a returned code means for the memory; `size` is the size of the token.
abbrev call_of : ℕ → ℕ → NextCall
call_of code size =
    if code == tokenizer_ok
    then resizes size
    else (if code == tokenizer_end then ends else malformed)

-- The calls after one that has returned `r`.
abbrev after_call : (Tokenizer → List NextCall) → Result (Tokenizer × ℕ) → List NextCall
after_call later failed = []
after_call later fault = []
after_call later (ok (u, code)) = call_of code u.token_size ∷ later u

-- The first `n` calls of `next`, up to one that does not return.
pub next_calls : ℕ → Tokenizer → List NextCall
next_calls zero t = []
next_calls (suc n) t = after_call (next_calls n) (next t)

module _ (later : Tokenizer → List NextCall) (t : Tokenizer) where
  after_stuck :
      (r : Result (Tokenizer × ℕ))
      → next t ≡ r
      → t.status_fn ≡ error
      → ((u : Tokenizer) → u.status_fn ≡ error → lost_count false (later u) ≡ 0)
      → lost_count false (after_call later r) ≡ 0
  after_stuck failed r e none_lost = refl
  after_stuck fault r e none_lost = refl
  after_stuck (ok (u, code)) r e none_lost =
      let (is_malformed, still_stuck) = next-stuck t u code e r in
      rw is_malformed (none_lost u still_stuck)

stuck_count : (n : ℕ) (t : Tokenizer) → t.status_fn ≡ error → lost_count false (next_calls n t) ≡ 0
unfolding next_calls
stuck_count zero t e = refl
stuck_count (suc n) t e = after_stuck (next_calls n) t (next t) refl e (stuck_count n)

-- One call, with what is known of the later ones.
count-le :
    (has : Bool) (code size : ℕ) (later : List NextCall)
    → code ≤ 2
    → ((has' : Bool) → lost_count has' later ≤ 1)
    → (code ≡ tokenizer_malformed_string → lost_count false later ≡ 0)
    → lost_count has (call_of code size ∷ later) ≤ 1
count-le has zero size later known small stuck = small (not has || is_positive_size size)
count-le has (suc zero) size later known small stuck = small false
count-le true (suc (suc zero)) size later known small stuck = omega (arith, stuck refl)
count-le false (suc (suc zero)) size later known small stuck = small false
count-le has (suc (suc (suc code))) size later known small stuck = absurd (omega arith)

lost_after :
    (n : ℕ) (t : Tokenizer) (has : Bool) (r : Result (Tokenizer × ℕ))
    → next t ≡ r
    → ((u : Tokenizer) (has' : Bool) → lost_count has' (next_calls n u) ≤ 1)
    → lost_count has (after_call (next_calls n) r) ≤ 1
lost_after n t has failed r small = omega arith
lost_after n t has fault r small = omega arith
lost_after n t has (ok (u, code)) r small =
    count-le has code u.token_size (next_calls n u) (next-le t u code r) (small u)
      (λ e. stuck_count n u (next-error t u (subst (λ (c : ℕ). next t ≡ ok (u, c)) e r)))

lost_count-le : (n : ℕ) (t : Tokenizer) (has : Bool) → lost_count has (next_calls n t) ≤ 1
unfolding next_calls
lost_count-le zero t has = omega arith
lost_count-le (suc n) t has = lost_after n t has (next t) refl (lost_count-le n)

-- A tokenizer that is made, used for the first calls of `next` on any state, and released, uses no
-- block that is not in use, frees none twice, and leaves in use what was there before and at most
-- one lost token.
pub use_tokenizer-once :
    (n : ℕ) (t : Tokenizer) (h : Heap)
    → IsHeap h
    → Returns
        (λ u h'. (lost : List ℕ) × (IsHeap h') × (h'.live ≡ lost ++ h.live) × (length lost ≤ 1))
        (use_tokenizer (next_calls n t) h)
use_tokenizer-once n t h d =
    Returns-mono (use_tokenizer-memory (next_calls n t) h d) (λ u h' (lost, heap, live, count).
      (lost, heap, live, omega (arith, count, lost_count-le n t false)))
