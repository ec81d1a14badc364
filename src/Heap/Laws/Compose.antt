-- ===== src/Heap/Laws/Compose.antt =====
-- Rules for calls one after the other.
use btb.Heap.{Heap, Run, Mem, pure, and_then, ◌>>=◌, ◌>>◌, access}
use btb.Base.{ℕ, ap, sym, ◌∙◌, Bool, true, false, List, [], ◌++◌, if◌then◌else◌, append_assoc}
use btb.Heap.Laws.Judgement.{Holds, Returns, returns, Consumes, Leaves, nothing_new, Frees}
use btb.Heap.Laws.Blocks.{Held-append, Held-self}
use btb.Heap.Laws.Calls.{access-Consumes}

module _ {A : Type 0} where
  pub pure-Consumes :
      (held : List ℕ) (new : A → List ℕ) (a : A) → Consumes (new a) held new (pure a)
  pure-Consumes held new a h base d e k = returns (d, e)

  pub if-Consumes :
      (own held : List ℕ) (new : A → List ℕ) (b : Bool) (m n : Mem A)
      → Consumes own held new m
      → Consumes own held new n
      → Consumes own held new (if b then m else n)
  if-Consumes own held new true m n p q = p
  if-Consumes own held new false m n p q = q

module _ {A : Type 0} {P Q : A → Heap → Type 0} where
  pub Returns-mono : {r : Run A} → Returns P r → ((a : A) (h : Heap) → P a h → Q a h) → Returns Q r
  Returns-mono (returns p) weaken = returns (weaken _ _ p)

module _ {A B : Type 0} where
  pub bind-Returns :
      {P : A → Heap → Type 0} {Q : B → Heap → Type 0} {r : Run A} {rest : A → Mem B}
      → Returns P r
      → ((a : A) (h : Heap) → P a h → Returns Q (rest a h))
      → Returns Q (and_then r rest)
  bind-Returns (returns p) next = next _ _ p

  -- What a call has allocated is given back by the rest.
  pub >>=-Consumes :
      (own held : List ℕ) (mid : A → List ℕ) (new : B → List ℕ) (call : Mem A) (rest : A → Mem B)
      → Consumes own held mid call
      → ((a : A) → Consumes (mid a) held new (rest a))
      → Consumes own held new (call >>= rest)
  >>=-Consumes own held mid new call rest first next h base d e k =
      bind-Returns (first h base d e k) (λ a h' p. next a h' base p.0 p.1 k)

-- Two calls that leave blocks in use, one after the other.
pub >>=-Leaves_append :
    (held : List ℕ) (first second : Mem (List ℕ))
    → Leaves held (λ xs. xs) first
    → Leaves held (λ xs. xs) second
    → Leaves held (λ xs. xs) (do xs ← first; ys ← second; pure (ys ++ xs))
>>=-Leaves_append held first second runs runs' h base d e k =
    bind-Returns (runs h base d e k) (λ xs h' p.
      bind-Returns (runs' h' (xs ++ base) p.0 p.1 (Held-append held xs base k))
        (λ ys h'' q. returns (q.0, q.1 ∙ sym (append_assoc ys xs base))))

module _ (own : List ℕ) where
  pub access-Frees :
      (p : ℕ) (rest : Mem (Unit {0})) → Holds p own → Frees own rest → Frees own (access p >> rest)
  access-Frees p rest i frees h xs ys d e =
      bind-Returns
        (access-Consumes [] own p i h (xs ++ (own ++ ys)) d e
          (Held-append own xs (own ++ ys) (Held-self own ys)))
        (λ u h' q. frees h' xs ys q.0 q.1)

  pub >>-Frees :
      (own' : List ℕ) (first second : Mem (Unit {0}))
      → Frees own first
      → Frees own' second
      → Frees (own ++ own') (first >> second)
  >>-Frees own' first second frees frees' h xs ys d e =
      bind-Returns (frees h xs (own' ++ ys) d (e ∙ ap (◌++◌ xs) (append_assoc own own' ys)))
        (λ u h' q. frees' h' xs ys q.0 q.1)

  -- The blocks are freed in the other order.
  pub >>-Frees_swap :
      (own' : List ℕ) (first second : Mem (Unit {0}))
      → Frees own' first
      → Frees own second
      → Frees (own ++ own') (first >> second)
  >>-Frees_swap own' first second frees frees' h xs ys d e =
      bind-Returns
        (frees h (xs ++ own) ys d
          (e ∙ ap (◌++◌ xs) (append_assoc own own' ys) ∙ sym (append_assoc xs own (own' ++ ys))))
        (λ u h' q. frees' h' xs ys q.0 (q.1 ∙ append_assoc xs own ys))

  pub Frees-Consumes :
      (held : List ℕ) (call : Mem (Unit {0})) → Frees own call → Consumes own held nothing_new call
  Frees-Consumes held call frees h base d e k = frees h [] base d e

  pub Frees-first-Consumes :
      (own' held : List ℕ) (call : Mem (Unit {0}))
      → Frees own call
      → Consumes (own ++ own') held (λ u. own') call
  Frees-first-Consumes own' held call frees h base d e k =
      frees h [] (own' ++ base) d (e ∙ append_assoc own own' base)
