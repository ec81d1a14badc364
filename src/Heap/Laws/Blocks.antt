-- ===== src/Heap/Laws/Blocks.antt =====
-- Lists of blocks in use: what is in them, and what is left when one is taken out.
use btb.Heap.{remove}
use btb.Base.{
  ℕ, ◌≤◌, ◌<◌, ◌≡◌, refl, inl, inr, List, [], ◌∷◌, ◌++◌, some, ◌==◌, append-nil, arith, ==_refl,
  Bool-cases,
}
use btb.Heap.Laws.Judgement.{Descends, Holds, Held}

Descends-le : (m n : ℕ) (xs : List ℕ) → m ≤ n → Descends m xs → Descends n xs
Descends-le m n [] le d = tt
Descends-le m n (x ∷ xs) le d = (omega arith, d.1)

Descends-middle_lt : (n p : ℕ) (xs ys : List ℕ) → Descends n (xs ++ p ∷ ys) → p < n
Descends-middle_lt n p [] ys d = d.0
Descends-middle_lt n p (x ∷ xs) ys d = omega (arith, Descends-middle_lt x p xs ys d.1)

pub Descends-middle : (n p : ℕ) (xs ys : List ℕ) → Descends n (xs ++ p ∷ ys) → Descends n (xs ++ ys)
Descends-middle n p [] ys d = Descends-le p n ys (omega arith) d.1
Descends-middle n p (x ∷ xs) ys d = (d.0, Descends-middle x p xs ys d.1)

pub remove-middle :
    (n p : ℕ) (xs ys : List ℕ)
    → Descends n (xs ++ p ∷ ys)
    → remove p (xs ++ p ∷ ys) ≡ some (xs ++ ys)
unfolding remove
remove-middle n p [] ys d = rw (==_refl p)
remove-middle n p (x ∷ xs) ys d =
    ground (arith, Descends-middle_lt x p xs ys d.1, remove-middle x p xs ys d.1)

pub remove-Holds : (p : ℕ) (xs : List ℕ) → Holds p xs → (ys : List ℕ) × (remove p xs ≡ some ys)
unfolding remove
remove-Holds p [] i = elim i [ ]
remove-Holds p (x ∷ xs) (inl e) = (xs, ground arith)
remove-Holds p (x ∷ xs) (inr i) = elim (Bool-cases (x == p)) [
  | inl same ↦ (xs, rw same refl)
  | inr other ↦ let (ys, e) = remove-Holds p xs i in (x ∷ ys, rw (other, e) refl)
]

pub Holds-append : (p : ℕ) (xs ys : List ℕ) → Holds p ys → Holds p (xs ++ ys)
Holds-append p [] ys i = i
Holds-append p (x ∷ xs) ys i = inr (Holds-append p xs ys i)

pub Held-append : (ps xs ys : List ℕ) → Held ps ys → Held ps (xs ++ ys)
Held-append [] xs ys h = tt
Held-append (p ∷ ps) xs ys h = (Holds-append p xs ys h.0, Held-append ps xs ys h.1)

Held-cons : (ps : List ℕ) (x : ℕ) (ys : List ℕ) → Held ps ys → Held ps (x ∷ ys)
Held-cons ps x ys = Held-append ps (x ∷ []) ys

pub Held-own : (own held base : List ℕ) → Held held base → Held (own ++ held) (own ++ base)
Held-own [] held base h = h
Held-own (p ∷ own) held base h =
    (inl refl, Held-cons (own ++ held) p (own ++ base) (Held-own own held base h))

pub Held-refl : (own : List ℕ) → Held own own
Held-refl own = rw (append-nil own) at (Held-own own [] [] tt)

pub Held-self : (own base : List ℕ) → Held own (own ++ base)
Held-self own base = rw (append-nil own) at (Held-own own [] base tt)

pub Held-Holds : (p : ℕ) (ps live : List ℕ) → Held ps live → Holds p ps → Holds p live
Held-Holds p [] live h i = elim i [ ]
Held-Holds p (q ∷ ps) live h (inl e) = rw e h.0
Held-Holds p (q ∷ ps) live h (inr i) = Held-Holds p ps live h.1 i
