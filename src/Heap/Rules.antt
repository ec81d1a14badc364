-- ===== src/Heap/Rules.antt =====
-- One rule for each first statement of a function.
use btb.Heap.{Mem, ◌>>=◌, ◌>>◌, malloc, free, access, access_all}
use btb.Heap.Laws.{
  part_blocks, Consumes, Holds, Held, >>=-Consumes, malloc-Consumes, access-Consumes,
  access_all-Consumes, Frees-first-Consumes, free-Frees,
}
use btb.Base.{ℕ, List, [], ◌∷◌, ◌++◌, Option, some}

module _ (own held : List ℕ) where
  -- After the release of what is on top.
  pub free_top-Consumes :
      {A : Type 0} (new : A → List ℕ) (p : ℕ) (rest : Mem A)
      → Consumes own held new rest
      → Consumes (p ∷ own) held new (free (some p) >> rest)
  free_top-Consumes new p rest then_rest =
      >>=-Consumes (p ∷ own) held (λ u. own) new _ _
        (Frees-first-Consumes (p ∷ []) own held (free (some p)) (free-Frees (some p)))
        (λ u. then_rest)

  pub access_then-Consumes :
      {A : Type 0} (new : A → List ℕ) (p : ℕ) (rest : Mem A)
      → Holds p (own ++ held)
      → Consumes own held new rest
      → Consumes own held new (access p >> rest)
  access_then-Consumes new p rest i then_rest =
      >>=-Consumes own held (λ u. own) new _ _ (access-Consumes own held p i) (λ u. then_rest)

  pub access_all_then-Consumes :
      {A : Type 0} (new : A → List ℕ) (p : Option ℕ) (rest : Mem A)
      → Held (part_blocks p) (own ++ held)
      → Consumes own held new rest
      → Consumes own held new (access_all p >> rest)
  access_all_then-Consumes new p rest i then_rest =
      >>=-Consumes own held (λ u. own) new _ _ (access_all-Consumes own held p i) (λ u. then_rest)

  pub malloc_then-Consumes :
      {A : Type 0} (new : A → List ℕ) (rest : ℕ → Mem A)
      → ((p : ℕ) → Consumes (p ∷ own) held new (rest p))
      → Consumes own held new (malloc >>= rest)
  malloc_then-Consumes new rest next =
      >>=-Consumes own held (λ p. p ∷ own) new _ rest (malloc-Consumes own held) next
