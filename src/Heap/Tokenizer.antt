-- ===== src/Heap/Tokenizer.antt =====
-- The memory of src/tokenizer.c: the token is one block, which each successful call of `next` resizes.
pub mod Once
use btb.Heap.{Heap, Mem, pure, and_then, ◌>>=◌, ◌>>◌, malloc, free, access}
use btb.Heap.Laws.{
  part_blocks, IsHeap, Returns, returns, malloc-Consumes, free-Frees, bind-Returns, Returns-mono,
}
use btb.Heap.Tables.Laws.{Stands, still}
use btb.Base.{
  ℕ, zero, suc, ◌+◌, ◌≡◌, refl, ap, ◌∙◌, sym, inl, inr, Bool, true, false, not, ◌||◌, List, [], ◌∷◌,
  ◌++◌, length, Option, none, some, ltb, append_assoc, arith,
}

-- What a call of `next` comes to: a token of that size, the end, or an error.
pub data NextCall : Type 0 where
  resizes : ℕ → NextCall
  ends malformed : NextCall

-- `realloc` of the C library that the program is built with: at size 0 it frees the block and
-- returns NULL, and from NULL it allocates at every size.
pub realloc : Option ℕ → ℕ → Mem (Option ℕ)
realloc none size = do p ← malloc; pure (some p)
realloc (some p) zero = do free (some p); pure none
realloc (some p) (suc size) = do free (some p); q ← malloc; pure (some q)

-- The pointer `t->token` after the call. `tokenize_error` overwrites it with NULL.
pub next_token : Option ℕ → NextCall → Mem (Option ℕ)
unfolding realloc
next_token token (resizes size) = realloc token size
next_token token ends = do free token; pure none
next_token token malformed = pure none

pub next_tokens : ℕ → Option ℕ → List NextCall → Mem (Option ℕ)
unfolding next_token
next_tokens self token [] = pure token
next_tokens self token (n ∷ ns) = do
  access self
  token' ← next_token token n
  next_tokens self token' ns

-- `free_tokenizer`
pub free_tokenizer_blocks : ℕ → ℕ → Option ℕ → Mem (Unit {0})
free_tokenizer_blocks self bytes token = do
  access self
  free (some bytes)
  access self
  free token
  free (some self)

-- `init_tokenizer`, calls of `next`, and the release.
pub use_tokenizer : List NextCall → Mem (Unit {0})
unfolding next_tokens free_tokenizer_blocks
use_tokenizer ns = do
  self ← malloc
  bytes ← malloc
  token ← next_tokens self none ns
  free_tokenizer_blocks self bytes token

abbrev pub is_positive_size : ℕ → Bool
is_positive_size zero = false
is_positive_size (suc size) = true

-- The number of tokens that are lost, where `has` says whether there is a token.
abbrev pub lost_count : Bool → List NextCall → ℕ
lost_count has [] = 0
lost_count has (resizes size ∷ ns) = lost_count (not has || is_positive_size size) ns
lost_count has (ends ∷ ns) = lost_count false ns
lost_count true (malformed ∷ ns) = suc (lost_count false ns)
lost_count false (malformed ∷ ns) = lost_count false ns

abbrev has_token : Option ℕ → Bool
has_token none = false
has_token (some p) = true

module _ (self bytes : ℕ) (base : List ℕ) where
  abbrev under_token : List ℕ
  under_token = bytes ∷ self ∷ base

  -- The token, if there is one, on the tokens that are lost.
  abbrev Loses : Option ℕ → List ℕ → Heap → Type 0
  Loses token lost h = Stands (part_blocks token ++ lost) under_token h

  free_token :
      (token : Option ℕ) (lost : List ℕ) (h : Heap)
      → Loses token lost h
      → Returns (λ u h'. Stands lost under_token h') (free token h)
  free_token token lost h st =
      free-Frees token h [] (lost ++ under_token) st.0
        (st.1 ∙ append_assoc (part_blocks token) lost under_token)

  new_token :
      (lost : List ℕ) (h : Heap)
      → Stands lost under_token h
      → Returns (λ p h'. Stands (p ∷ lost) under_token h') (malloc h)
  new_token lost h st = malloc-Consumes [] [] h (lost ++ under_token) st.0 st.1 tt

  -- A state in which `total` tokens will be lost after the calls `ns`.
  abbrev Will : ℕ → List NextCall → Option ℕ → Heap → Type 0
  Will total ns token h =
      (lost : List ℕ) × (Loses token lost h)
      × (length lost + lost_count (has_token token) ns ≡ total)

  realloc-Will :
      (token : Option ℕ) (size : ℕ) (total : ℕ) (ns : List NextCall) (h : Heap)
      → Will total (resizes size ∷ ns) token h
      → Returns (λ token' h'. Will total ns token' h') (realloc token size h)
  unfolding realloc
  realloc-Will none size total ns h (lost, st, e) =
      bind-Returns (new_token lost h st) (λ p h₁ st₁. returns (lost, st₁, e))
  realloc-Will (some p) zero total ns h (lost, st, e) =
      bind-Returns (free_token (some p) lost h st) (λ u h₁ st₁. returns (lost, st₁, e))
  realloc-Will (some p) (suc size) total ns h (lost, st, e) =
      bind-Returns (free_token (some p) lost h st)
        (λ u h₁ st₁. bind-Returns (new_token lost h₁ st₁) (λ q h₂ st₂. returns (lost, st₂, e)))

  next_token-Will :
      (token : Option ℕ) (n : NextCall) (total : ℕ) (ns : List NextCall) (h : Heap)
      → Will total (n ∷ ns) token h
      → Returns (λ token' h'. Will total ns token' h') (next_token token n h)
  unfolding next_token
  next_token-Will token (resizes size) total ns h will = realloc-Will token size total ns h will
  next_token-Will none ends total ns h (lost, st, e) =
      bind-Returns (free_token none lost h st) (λ u h₁ st₁. returns (lost, st₁, e))
  next_token-Will (some p) ends total ns h (lost, st, e) =
      bind-Returns (free_token (some p) lost h st) (λ u h₁ st₁. returns (lost, st₁, e))
  next_token-Will none malformed total ns h (lost, st, e) = returns (lost, st, e)
  next_token-Will (some p) malformed total ns h (lost, st, e) =
      returns (p ∷ lost, st, omega (arith, e))

  next_tokens-Will :
      (ns : List NextCall) (token : Option ℕ) (total : ℕ) (h : Heap)
      → Will total ns token h
      → Returns (λ token' h'. Will total [] token' h') (next_tokens self token ns h)
  unfolding next_tokens
  next_tokens-Will [] token total h will = returns will
  next_tokens-Will (n ∷ ns) token total h (lost, st, e) =
      bind-Returns (still self (part_blocks token ++ lost) under_token h (inr (inl refl)) st)
        (λ u h₁ st₁.
          bind-Returns (next_token-Will token n total ns h₁ (lost, st₁, e))
            (λ token' h₂ will. next_tokens-Will ns token' total h₂ will))

  released :
      (token : Option ℕ) (lost : List ℕ) (h : Heap)
      → Loses token lost h
      → Returns (λ u h'. Stands lost base h') (free_tokenizer_blocks self bytes token h)
  unfolding free_tokenizer_blocks
  released token lost h st =
      let own = part_blocks token ++ lost in
      bind-Returns (still self own under_token h (inr (inl refl)) st) (λ u h₁ st₁.
        bind-Returns (free-Frees (some bytes) h₁ own (self ∷ base) st₁.0 st₁.1) (λ u h₂ st₂.
          bind-Returns (still self own (self ∷ base) h₂ (inl refl) st₂) (λ u h₃ st₃.
            bind-Returns
              (free-Frees token h₃ [] (lost ++ self ∷ base) st₃.0
                (st₃.1 ∙ append_assoc (part_blocks token) lost (self ∷ base)))
              (λ u h₄ st₄. free-Frees (some self) h₄ lost base st₄.0 st₄.1))))

-- A tokenizer that is made, used for any calls and released leaves in use as many blocks more as
-- tokens are lost.
pub use_tokenizer-memory :
    (ns : List NextCall) (h : Heap)
    → IsHeap h
    → Returns
        (λ u h'.
          (lost : List ℕ) × (IsHeap h')
          × (h'.live ≡ lost ++ h.live)
          × (length lost ≡ lost_count false ns))
        (use_tokenizer ns h)
unfolding use_tokenizer
use_tokenizer-memory ns h d =
    bind-Returns (malloc-Consumes [] [] h h.live d refl tt) (λ self h₁ st₁.
      bind-Returns (malloc-Consumes [] [] h₁ (self ∷ h.live) st₁.0 st₁.1 tt) (λ bytes h₂ st₂.
        bind-Returns
          (next_tokens-Will self bytes h.live ns none (lost_count false ns) h₂
            ([], st₂, omega arith))
          (λ token h₃ (lost, st₃, e).
            Returns-mono (released self bytes h.live token lost h₃ st₃)
              (λ u h₄ st₄. (lost, st₄.0, st₄.1, omega (arith, e))))))
