-- ===== src/Heap/Laws/Judgement.antt =====
-- The judgement by which the functions' use of memory is stated: what a run leaves in use.
use btb.Heap.{Heap, Run, Mem}
use btb.Base.{ℕ, ◌<◌, ◌≡◌, ◌⊎◌, List, [], ◌∷◌, ◌++◌, Option, none, some}

-- Addresses that fall from below `n`.
abbrev pub Descends : ℕ → List ℕ → Type 0
Descends n [] = Unit
Descends n (x ∷ xs) = (x < n) × Descends x xs

-- Every block in use was given out, and none twice.
abbrev pub IsHeap : Heap → Type 0
IsHeap h = Descends h.fresh h.live

abbrev pub Holds : ℕ → List ℕ → Type 0
Holds p [] = ⊥
Holds p (x ∷ xs) = (p ≡ x) ⊎ Holds p xs

-- All of the first list are in the second.
abbrev pub Held : List ℕ → List ℕ → Type 0
Held [] live = Unit
Held (p ∷ ps) live = Holds p live × Held ps live

-- A run that is defined, and returns what satisfies `P`.
pub data Returns {A : Type 0} (P : A → Heap → Type 0) : Run A → Type 0 where
  returns : {a : A} {h : Heap} → P a h → Returns P (some (a, h))

-- From a heap with the blocks `own` on `base`, the call gives `own` back: it ends, and leaves `base`
-- in use with the blocks `new` of its result on it. It may use the blocks `held` of `base` too.
abbrev pub Consumes : {A : Type 0} → List ℕ → List ℕ → (A → List ℕ) → Mem A → Type 0
Consumes own held new call =
    (h : Heap) (base : List ℕ)
    → IsHeap h
    → h.live ≡ own ++ base
    → Held held base
    → Returns (λ a h'. IsHeap h' × (h'.live ≡ new a ++ base)) (call h)

abbrev pub Leaves : {A : Type 0} → List ℕ → (A → List ℕ) → Mem A → Type 0
Leaves = Consumes []

abbrev pub nothing_new : {A : Type 0} → A → List ℕ
nothing_new a = []

-- The block behind a pointer that may be NULL.
abbrev pub part_blocks : Option ℕ → List ℕ
part_blocks none = []
part_blocks (some p) = p ∷ []

-- The call frees the blocks `own`, wherever they are.
abbrev pub Frees : List ℕ → Mem (Unit {0}) → Type 0
Frees own call =
    (h : Heap) (xs ys : List ℕ)
    → IsHeap h
    → h.live ≡ xs ++ (own ++ ys)
    → Returns (λ a h'. IsHeap h' × (h'.live ≡ xs ++ ys)) (call h)
