-- ===== src/Heap/Tables/Torrent.antt =====
-- `free_torrent_file`: it releases every block that the struct points to.
use btb.Heap.{Heap, free, access}
use btb.Heap.Laws.{
  IsHeap, Returns, returns, Holds, Holds-append, Held-refl, access-Consumes, free-Frees,
  bind-Returns, Returns-mono,
}
use btb.Heap.Tables.{TorrentBlocks, free_each, free_hashes, free_torrent_file}
use btb.Heap.Tables.Laws.{Points, Stands, still, middle}
use btb.Base.{
  ℕ, ◌≡◌, refl, sym, ap, ◌∙◌, inl, inr, List, [], ◌∷◌, ◌++◌, Option, none, some, append_assoc,
  subst,
}

-- The pointers of the struct in the order of the function.
abbrev hash_pointers : Option ℕ → List (Option ℕ) → List (Option ℕ)
hash_pointers none hashes = []
hash_pointers (some table) hashes = hashes

abbrev last_pointers : TorrentBlocks → List (Option ℕ)
last_pointers t = t.info_hash ∷ t.comment ∷ t.announce ∷ []

abbrev pub pointers : TorrentBlocks → List (Option ℕ)
pointers t = t.name ∷ (hash_pointers t.piece_hashes t.hashes ++ t.piece_hashes ∷ last_pointers t)

Holds-left : (p : ℕ) (xs ys : List ℕ) → Holds p xs → Holds p (xs ++ ys)
Holds-left p [] ys i = elim i [ ]
Holds-left p (x ∷ xs) ys (inl e) = inl e
Holds-left p (x ∷ xs) ys (inr i) = inr (Holds-left p xs ys i)

-- What is left of the blocks after the release of some of their pointers.
abbrev Left : List (Option ℕ) → List ℕ → Heap → Type 0
Left ps base h = (own : List ℕ) × (Stands own base h) × Points ps own

free_next :
    (p : Option ℕ) (ps : List (Option ℕ)) (base : List ℕ) (h : Heap)
    → Left (p ∷ ps) base h
    → Returns (λ u h'. Left ps base h') (free p h)
free_next none ps base h (own, st, points) =
    Returns-mono (free-Frees none h [] (own ++ base) st.0 st.1) (λ u h₁ st₁. (own, st₁, points))
free_next (some p) ps base h (own, st, (above, below, e, points)) =
    Returns-mono
      (free-Frees (some p) h above (below ++ base) st.0
        (st.1 ∙ ap (λ (xs : List ℕ). xs ++ base) e ∙ middle above below base p))
      (λ u h₁ st₁. (above ++ below, (st₁.0, st₁.1 ∙ sym (append_assoc above below base)), points))

Holds-middle :
    (p q : ℕ) (above below : List ℕ) → Holds q (above ++ below) → Holds q (above ++ p ∷ below)
Holds-middle p q [] below i = inr i
Holds-middle p q (x ∷ above) below (inl e) = inl e
Holds-middle p q (x ∷ above) below (inr i) = inr (Holds-middle p q above below i)

Points-Holds :
    (ps : List (Option ℕ)) (p : ℕ) (qs : List (Option ℕ)) (own : List ℕ)
    → Points (ps ++ some p ∷ qs) own
    → Holds p own
Points-Holds [] p qs own (above, below, e, points) =
    subst (Holds p) (sym e) (Holds-append p above (p ∷ below) (inl refl))
Points-Holds (none ∷ ps) p qs own points = Points-Holds ps p qs own points
Points-Holds (some q ∷ ps) p qs own (above, below, e, points) =
    subst (Holds p) (sym e)
      (Holds-middle q p above below (Points-Holds ps p qs (above ++ below) points))

-- The table is one of the blocks that are still to be released.
touch :
    (table : ℕ) (ps : List (Option ℕ)) (base : List ℕ) (h : Heap) (own : List ℕ)
    → Holds table own
    → Stands own base h
    → Points ps own
    → Returns (λ u h'. Left ps base h') (access table h)
touch table ps base h own i st points =
    Returns-mono
      (access-Consumes own base table (Holds-left table own base i) h base st.0 st.1
        (Held-refl base))
      (λ u h₁ st₁. (own, st₁, points))

free_each-Left :
    (table : ℕ) (ps qs : List (Option ℕ)) (base : List ℕ) (h : Heap)
    → Left (ps ++ some table ∷ qs) base h
    → Returns (λ u h'. Left (some table ∷ qs) base h') (free_each free table ps h)
unfolding free_each
free_each-Left table [] qs base h left = returns left
free_each-Left table (p ∷ ps) qs base h (own, st, points) =
    bind-Returns
      (touch table (p ∷ ps ++ some table ∷ qs) base h own
        (Points-Holds (p ∷ ps) table qs own points) st points)
      (λ u h₁ left₁.
        bind-Returns (free_next p (ps ++ some table ∷ qs) base h₁ left₁)
          (λ u h₂ left₂. free_each-Left table ps qs base h₂ left₂))

free_hashes-Left :
    (table : Option ℕ) (hashes qs : List (Option ℕ)) (base : List ℕ) (h : Heap)
    → Left (hash_pointers table hashes ++ table ∷ qs) base h
    → Returns (λ u h'. Left (table ∷ qs) base h') (free_hashes table hashes h)
unfolding free_hashes
free_hashes-Left none hashes qs base h left = returns left
free_hashes-Left (some table) hashes qs base h left = free_each-Left table hashes qs base h left

-- If the pointers of a torrent file are the blocks above its own, each of them once and in any
-- order, or NULL, `free_torrent_file` uses no block that is not in use, frees none twice, and
-- leaves in use only what is below.
pub free_torrent_file-memory :
    (t : TorrentBlocks) (own base : List ℕ) (h : Heap)
    → IsHeap h
    → h.live ≡ own ++ t.self ∷ base
    → Points (pointers t) own
    → Returns (λ u h'. IsHeap h' × (h'.live ≡ base)) (free_torrent_file t h)
unfolding free_torrent_file
free_torrent_file-memory t own base h d live points =
    let under = t.self ∷ base in
    bind-Returns (still t.self own under h (inl refl) (d, live)) (λ u h₀ st.
      bind-Returns (free_next t.name _ under h₀ (own, st, points)) (λ u h₁ left₁.
        bind-Returns (free_hashes-Left t.piece_hashes t.hashes (last_pointers t) under h₁ left₁)
          (λ u h₂ left₂. bind-Returns (free_next t.piece_hashes _ under h₂ left₂) (λ u h₃ left₃.
            bind-Returns (free_next t.info_hash _ under h₃ left₃) (λ u h₄ left₄.
              bind-Returns (free_next t.comment _ under h₄ left₄) (λ u h₅ left₅.
                bind-Returns (free_next t.announce [] under h₅ left₅) (λ u h₆ (none_left, st₆, e).
                  free-Frees (some t.self) h₆ [] base st₆.0
                    (st₆.1 ∙ ap (λ (xs : List ℕ). xs ++ under) e))))))))
