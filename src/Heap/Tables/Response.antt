-- ===== src/Heap/Tables/Response.antt =====
-- `tracker_response` and `pieces_pool`: the blocks of the peers and of the bitfield are released.
use btb.Heap.{Heap}
use btb.Heap.Laws.{IsHeap, Returns, returns, Holds, malloc-Consumes, free-Frees, bind-Returns}
use btb.Heap.Objects.{owner_blocks, free_peer}
use btb.Heap.Objects.Laws.{
  free_peer-Frees, new_peer-Leaves, new_bitfield-Leaves, free_bitfield-Frees,
}
use btb.Heap.Tables.{
  new_peers, free_tracker_response, use_tracker_response, new_pieces_pool, free_pieces_pool,
  use_pieces_pool,
}
use btb.Heap.Tables.Laws.{Points, Stands, still, free_each-Returns}
use btb.Base.{
  ℕ, zero, suc, ◌≡◌, refl, sym, ◌∙◌, inl, inr, List, [], ◌∷◌, ◌++◌, Option, some, append_assoc,
  append-nil, subst,
}

-- One more pointer, to the block below the others.
Points-below :
    (p : ℕ) (ps : List (Option ℕ)) (own : List ℕ)
    → Points ps own
    → Points (some p ∷ ps) (own ++ p ∷ [])
Points-below p ps own points = (own, [], refl, subst (Points ps) (sym (append-nil own)) points)

module _ (peers : ℕ) where
  new_peers-Returns :
      (n : ℕ) (base : List ℕ) (h : Heap)
      → Holds peers base
      → Stands [] base h
      → Returns
          (λ ps h'. (own : List ℕ) × (Stands own base h') × Points ps own)
          (new_peers peers n h)
  unfolding new_peers
  new_peers-Returns zero base h i st = returns ([], st, refl)
  new_peers-Returns (suc n) base h i st =
      bind-Returns (malloc-Consumes [] [] h base st.0 st.1 tt) (λ repr h₁ st₁.
        bind-Returns
          (new_peer-Leaves (repr ∷ []) repr (inl refl) h₁ (repr ∷ base) st₁.0 st₁.1 (inl refl, tt))
          (λ p h₂ st₂. bind-Returns (still peers (p ∷ repr ∷ []) base h₂ i st₂) (λ u h₃ st₃.
            bind-Returns (free-Frees (some repr) h₃ (p ∷ []) base st₃.0 st₃.1) (λ u h₄ st₄.
              bind-Returns (new_peers-Returns n (p ∷ base) h₄ (inr i) st₄)
                (λ ps h₅ (own, st₅, points). returns (
                  own ++ p ∷ [],
                  (st₅.0, st₅.1 ∙ sym (append_assoc own (p ∷ []) base)),
                  Points-below p ps own points,
                ))))))

-- A tracker response that is filled with any number of peers and released uses no block that is
-- not in use, frees none twice, and leaves in use what was there before.
pub use_tracker_response-memory :
    (num_peers : ℕ) (h : Heap)
    → IsHeap h
    → Returns (λ u h'. IsHeap h' × (h'.live ≡ h.live)) (use_tracker_response num_peers h)
unfolding use_tracker_response free_tracker_response
use_tracker_response-memory n h d =
    bind-Returns (malloc-Consumes [] [] h h.live d refl tt) (λ self h₁ st₁.
      bind-Returns (malloc-Consumes [] [] h₁ (self ∷ h.live) st₁.0 st₁.1 tt) (λ peers h₂ st₂.
        let base = peers ∷ self ∷ h.live in
        bind-Returns (new_peers-Returns peers n base h₂ (inl refl) st₂) (λ ps h₃ (own, st₃, points).
          bind-Returns (still self own base h₃ (inr (inl refl)) st₃) (λ u h₄ st₄.
            bind-Returns
              (free_each-Returns free_peer free_peer-Frees peers ps own base h₄ (inl refl) points
                st₄)
              (λ u h₅ st₅. bind-Returns (still self [] base h₅ (inr (inl refl)) st₅) (λ u h₆ st₆.
                bind-Returns (free-Frees (some peers) h₆ [] (self ∷ h.live) st₆.0 st₆.1)
                  (λ u h₇ st₇. free-Frees (some self) h₇ [] h.live st₇.0 st₇.1)))))))

new_pieces_pool-Returns :
    (h : Heap)
    → IsHeap h
    → Returns
        (λ pool h'. Stands (owner_blocks pool.bits) (pool.self ∷ h.live) h')
        (new_pieces_pool h)
unfolding new_pieces_pool
new_pieces_pool-Returns h d =
    bind-Returns (malloc-Consumes [] [] h h.live d refl tt) (λ self h₁ st₁.
      bind-Returns (malloc-Consumes [] [] h₁ (self ∷ h.live) st₁.0 st₁.1 tt) (λ zeros h₂ st₂.
        bind-Returns
          (new_bitfield-Leaves (zeros ∷ []) (some zeros) (inl refl, tt) h₂ (zeros ∷ self ∷ h.live)
            st₂.0 st₂.1 (inl refl, tt))
          (λ bits h₃ st₃.
            bind-Returns
              (free-Frees (some zeros) h₃ (owner_blocks bits) (self ∷ h.live) st₃.0 st₃.1)
              (λ u h₄ st₄. returns st₄))))

-- A pool that is made and released leaves the heap as it was.
pub use_pieces_pool-memory :
    (h : Heap) → IsHeap h → Returns (λ u h'. IsHeap h' × (h'.live ≡ h.live)) (use_pieces_pool h)
unfolding use_pieces_pool free_pieces_pool
use_pieces_pool-memory h d = bind-Returns (new_pieces_pool-Returns h d) (λ pool h₁ st₁.
    let base = pool.self ∷ h.live in
    bind-Returns (still pool.self (owner_blocks pool.bits) base h₁ (inl refl) st₁) (λ u h₂ st₂.
      bind-Returns (free_bitfield-Frees (some pool.bits) h₂ [] base st₂.0 st₂.1)
        (λ u h₃ st₃. free-Frees (some pool.self) h₃ [] h.live st₃.0 st₃.1)))
