-- ===== src/Heap/Tables/File.antt =====
-- `downloaded_file`: what `add_piece` stores is released by `free_downloaded_file`.
use btb.Heap.{Heap, free}
use btb.Heap.Laws.{IsHeap, Returns, returns, malloc-Consumes, free-Frees, bind-Returns}
use btb.Heap.Tables.{
  Table, new_downloaded_file, add_piece_block, add_piece_blocks, free_downloaded_file,
  use_downloaded_file,
}
use btb.Heap.Tables.Laws.{Points, Stands, still, free_each-Returns}
use btb.Base.{
  ℕ, zero, suc, ◌<◌, ◌≡◌, ◌≢◌, refl, sym, ap, ◌∙◌, inl, inr, List, [], ◌∷◌, ◌++◌, Option, none,
  some, set, get_elem?, replicate, All, arith, get_elem?-set_ne,
}

-- No two are the same.
abbrev pub Apart : List ℕ → Type 0
Apart [] = Unit
Apart (i ∷ is) = All (λ j. i ≢ j) is × Apart is

Points-replicate : (n : ℕ) → Points (replicate n none) []
Points-replicate zero = refl
Points-replicate (suc n) = Points-replicate n

-- A new block at an entry that was NULL.
Points-set :
    (ps : List (Option ℕ)) (i block : ℕ) (own : List ℕ)
    → get_elem? ps i ≡ some none
    → Points ps own
    → Points (set ps i (some block)) (block ∷ own)
Points-set [] i block own e p = cc
Points-set (none ∷ ps) zero block own e p = ([], own, refl, p)
Points-set (some a ∷ ps) zero block own e p = absurd (ground arith)
Points-set (none ∷ ps) (suc i) block own e p = Points-set ps i block own e p
Points-set (some a ∷ ps) (suc i) block own e (above, below, split, p) =
    (block ∷ above, below, ap (◌∷◌ block) split, Points-set ps i block (above ++ below) e p)

abbrev Unset : List (Option ℕ) → ℕ → Type 0
Unset ps i = get_elem? ps i ≡ some none

Unset-replicate : (n i : ℕ) → i < n → Unset (replicate n none) i
Unset-replicate zero i h = elim h [ ]
Unset-replicate (suc n) zero h = refl
Unset-replicate (suc n) (suc i) h = Unset-replicate n i (omega arith)

All-Unset-replicate :
    (n : ℕ) (is : List ℕ) → All (λ i. i < n) is → All (Unset (replicate n none)) is
All-Unset-replicate n [] h = tt
All-Unset-replicate n (i ∷ is) h = (Unset-replicate n i h.0, All-Unset-replicate n is h.1)

All-Unset-set :
    (ps : List (Option ℕ)) (i block : ℕ) (is : List ℕ)
    → All (λ j. i ≢ j) is
    → All (Unset ps) is
    → All (Unset (set ps i (some block))) is
All-Unset-set ps i block [] apart h = tt
All-Unset-set ps i block (j ∷ is) apart h =
    (get_elem?-set_ne ps (some block) apart.0 ∙ h.0, All-Unset-set ps i block is apart.1 h.1)

module _ (self at : ℕ) (base : List ℕ) where
  abbrev under : List ℕ
  under = at ∷ self ∷ base

  -- A file whose pieces are the last blocks, and whose entries for `is` are NULL.
  abbrev Fills : List ℕ → Table → Heap → Type 0
  Fills is df h =
      (own : List ℕ) × (Stands own under h)
      × (Points df.entries own)
      × (All (Unset df.entries) is)
      × (df.self ≡ self)
      × (df.entries_at ≡ at)

  add_piece_block-Returns :
      (df : Table) (i : ℕ) (is : List ℕ) (h : Heap)
      → All (λ j. i ≢ j) is
      → Fills (i ∷ is) df h
      → Returns (λ df' h'. Fills is df' h') (add_piece_block df i h)
  unfolding add_piece_block
  add_piece_block-Returns df i is h apart (own, st, points, unset, e, e') =
      bind-Returns (still df.self own under h (inr (inl e)) st) (λ u h₁ st₁.
        bind-Returns (malloc-Consumes [] [] h₁ (own ++ under) st₁.0 st₁.1 tt) (λ block h₂ st₂.
          bind-Returns (still df.entries_at (block ∷ own) under h₂ (inl e') st₂) (λ u h₃ st₃.
            returns (
              block ∷ own,
              st₃,
              Points-set df.entries i block own unset.0 points,
              All-Unset-set df.entries i block is apart unset.1,
              e,
              e',
            ))))

  add_piece_blocks-Returns :
      (is : List ℕ) (df : Table) (h : Heap)
      → Apart is
      → Fills is df h
      → Returns (λ df' h'. Fills [] df' h') (add_piece_blocks df is h)
  unfolding add_piece_blocks
  add_piece_blocks-Returns [] df h apart fills = returns fills
  add_piece_blocks-Returns (i ∷ is) df h apart fills =
      bind-Returns (add_piece_block-Returns df i is h apart.0 fills)
        (λ df' h' fills'. add_piece_blocks-Returns is df' h' apart.1 fills')

  free_downloaded_file-Returns :
      (df : Table) (h : Heap)
      → Fills [] df h
      → Returns (λ u h'. Stands [] base h') (free_downloaded_file df h)
  unfolding free_downloaded_file
  free_downloaded_file-Returns df h (own, st, points, unset, e, e') =
      bind-Returns (still df.self own under h (inr (inl e)) st) (λ u h₁ st₁.
        bind-Returns
          (free_each-Returns free free-Frees df.entries_at df.entries own under h₁ (inl e') points
            st₁)
          (λ u h₂ st₂.
            bind-Returns
              (free-Frees (some df.entries_at) h₂ [] (self ∷ base) st₂.0
                (st₂.1 ∙ ap (λ (p : ℕ). p ∷ self ∷ base) (sym e')))
              (λ u h₃ st₃. bind-Returns (still df.self [] (self ∷ base) h₃ (inl e) st₃) (λ u h₄ st₄.
                free-Frees (some df.self) h₄ [] base st₄.0
                  (st₄.1 ∙ ap (λ (p : ℕ). p ∷ base) (sym e))))))

new_downloaded_file-Returns :
    (n : ℕ) (is : List ℕ) (h : Heap)
    → All (λ i. i < n) is
    → IsHeap h
    → Returns (λ df h'. Fills df.self df.entries_at h.live is df h') (new_downloaded_file n h)
unfolding new_downloaded_file
new_downloaded_file-Returns n is h below d =
    bind-Returns (malloc-Consumes [] [] h h.live d refl tt) (λ self h₁ st₁.
      bind-Returns (malloc-Consumes [] [] h₁ (self ∷ h.live) st₁.0 st₁.1 tt) (λ at h₂ st₂.
        returns ([], st₂, Points-replicate n, All-Unset-replicate n is below, refl, refl)))

-- A file that is made, into which pieces with different indices below the number of pieces are
-- stored in any order, and that is released, uses no block that is not in use, frees none twice,
-- and leaves in use what was there before.
pub use_downloaded_file-memory :
    (num_pieces : ℕ) (is : List ℕ) (h : Heap)
    → All (λ i. i < num_pieces) is
    → Apart is
    → IsHeap h
    → Returns (λ u h'. IsHeap h' × (h'.live ≡ h.live)) (use_downloaded_file num_pieces is h)
unfolding use_downloaded_file
use_downloaded_file-memory n is h below apart d =
    bind-Returns (new_downloaded_file-Returns n is h below d) (λ df h₁ fills.
      bind-Returns (add_piece_blocks-Returns df.self df.entries_at h.live is df h₁ apart fills)
        (λ df' h₂ fills'. free_downloaded_file-Returns df.self df.entries_at h.live df' h₂ fills'))
