-- ===== src/Heap/Tables/Laws.antt =====
-- What the structs with tables leave in use, from their allocation to their release.
use btb.Heap.{Heap, Mem, access}
use btb.Heap.Laws.{
  part_blocks, IsHeap, Returns, returns, Frees, Holds, Holds-append, Held-refl, access-Consumes,
  bind-Returns,
}
use btb.Heap.Tables.{free_each}
use btb.Base.{ℕ, ◌≡◌, sym, ap, ◌∙◌, List, [], ◌∷◌, ◌++◌, Option, none, some, append_assoc}

-- The pointers are the addresses of the list, each of them once, in any order; NULL is none of them.
abbrev pub Points : List (Option ℕ) → List ℕ → Type 0
Points [] own = own ≡ []
Points (none ∷ ps) own = Points ps own
Points (some p ∷ ps) own =
    (above : List ℕ) × (below : List ℕ) × (own ≡ above ++ p ∷ below) × Points ps (above ++ below)

-- A heap whose last blocks are `own`, on `base`.
abbrev pub Stands : List ℕ → List ℕ → Heap → Type 0
Stands own base h = IsHeap h × (h.live ≡ own ++ base)

pub middle :
    (above below base : List ℕ) (p : ℕ)
    → (above ++ p ∷ below) ++ base ≡ above ++ ((p ∷ []) ++ (below ++ base))
middle above below base p = append_assoc above (p ∷ below) base

pub still :
    (table : ℕ) (own base : List ℕ) (h : Heap)
    → Holds table base
    → Stands own base h
    → Returns (λ u h'. Stands own base h') (access table h)
still table own base h i st =
    access-Consumes [] (own ++ base) table (Holds-append table own base i) h (own ++ base) st.0 st.1
      (Held-refl (own ++ base))

module _ (release : Option ℕ → Mem (Unit {0}))
    (frees : (p : Option ℕ) → Frees (part_blocks p) (release p)) (table : ℕ) where
  pub free_each-Returns :
      (ps : List (Option ℕ)) (own base : List ℕ) (h : Heap)
      → Holds table base
      → Points ps own
      → Stands own base h
      → Returns (λ u h'. Stands [] base h') (free_each release table ps h)
  unfolding free_each
  free_each-Returns [] own base h i p st = returns (st.0, st.1 ∙ ap (λ (xs : List ℕ). xs ++ base) p)
  free_each-Returns (none ∷ ps) own base h i p st =
      bind-Returns (still table own base h i st) (λ u h₁ st₁.
        bind-Returns (frees none h₁ [] (own ++ base) st₁.0 st₁.1)
          (λ u h₂ st₂. free_each-Returns ps own base h₂ i p st₂))
  free_each-Returns (some a ∷ ps) own base h i (above, below, e, p) st =
      bind-Returns (still table own base h i st) (λ u h₁ st₁.
        bind-Returns
          (frees (some a) h₁ above (below ++ base) st₁.0
            (st₁.1 ∙ ap (λ (xs : List ℕ). xs ++ base) e ∙ middle above below base a))
          (λ u h₂ st₂.
            free_each-Returns ps (above ++ below) base h₂ i p
              (st₂.0, st₂.1 ∙ sym (append_assoc above below base))))
