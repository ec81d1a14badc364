-- ===== src/Heap/Laws/Calls.antt =====
-- What `malloc`, `free` and an access leave in use.
use btb.Heap.{Heap, with_live, when_live, remove, malloc, free, access, access_all}
use btb.Base.{ℕ, ◌≡◌, ap, sym, ◌∙◌, List, [], ◌∷◌, ◌++◌, subst, Option, none, some, arith}
use btb.Heap.Laws.Judgement.{
  Descends, IsHeap, Holds, Held, Returns, returns, Consumes, part_blocks, Frees,
}
use btb.Heap.Laws.Blocks.{Descends-middle, remove-middle, remove-Holds, Held-own, Held-Holds}

freed :
    (h : Heap) (o : Option (List ℕ)) (zs : List ℕ)
    → o ≡ some zs
    → Descends h.fresh zs
    → Returns (λ a h'. IsHeap h' × (h'.live ≡ zs)) (with_live h o)
freed h none zs e d = absurd (ground arith)
freed h (some live) zs e d =
    let same : live ≡ zs = ground arith in returns (subst (Descends h.fresh) (sym same) d, same)

free-some : (p : ℕ) → Frees (p ∷ []) (free (some p))
unfolding free
free-some p h xs ys d e =
    let d' : Descends h.fresh (xs ++ p ∷ ys) = subst (Descends h.fresh) e d in
    freed h (remove p h.live) (xs ++ ys) (ap (remove p) e ∙ remove-middle h.fresh p xs ys d')
      (Descends-middle h.fresh p xs ys d')

-- A block that is in use can be freed, wherever it is, and so can NULL.
pub free-Frees : (p : Option ℕ) → Frees (part_blocks p) (free p)
unfolding free
free-Frees none h xs ys d e = returns (d, e)
free-Frees (some p) h xs ys d e = free-some p h xs ys d e

used :
    (h : Heap) (o : Option (List ℕ)) (zs base : List ℕ)
    → o ≡ some zs
    → IsHeap h
    → h.live ≡ base
    → Returns (λ a h'. IsHeap h' × (h'.live ≡ base)) (when_live h o)
used h none zs base e d same = absurd (ground arith)
used h (some live) zs base e d same = returns (d, same)

-- A block that is owned or held can be used.
pub access-Consumes :
    (own held : List ℕ) (p : ℕ) → Holds p (own ++ held) → Consumes own held (λ u. own) (access p)
unfolding access
access-Consumes own held p i h base d e k =
    let live : Holds p h.live =
      subst (Holds p) (sym e)
        (Held-Holds p (own ++ held) (own ++ base) (Held-own own held base k) i) in
    let (zs, found) = remove-Holds p h.live live in
    used h (remove p h.live) zs (own ++ base) found d e

pub malloc-Consumes : (own held : List ℕ) → Consumes own held (λ p. p ∷ own) malloc
unfolding malloc
malloc-Consumes own held h base d e k = returns ((omega arith, d), ap (◌∷◌ h.fresh) e)

-- A source that may be empty.
pub access_all-Consumes :
    (own held : List ℕ) (p : Option ℕ)
    → Held (part_blocks p) (own ++ held)
    → Consumes own held (λ u. own) (access_all p)
unfolding access_all
access_all-Consumes own held none i h base d e k = returns (d, e)
access_all-Consumes own held (some p) i h base d e k = access-Consumes own held p i.0 h base d e k
