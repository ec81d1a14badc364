-- ===== src/Heap/Answers.antt =====
-- What a run returns, whatever it does to the heap.
use btb.Heap.{Heap, Run, Mem, pure, and_then, ◌>>=◌, ◌>>◌, malloc}
use btb.Heap.Defer.{defer}
use btb.Base.{ℕ, ◌≡◌, refl, Bool, true, false, none, some, if◌then◌else◌}

pub data IfDefined {A : Type 0} (P : A → Type 0) : Run A → Type 0 where
  undefined : IfDefined P none
  returned : {a : A} {h : Heap} → P a → IfDefined P (some (a, h))

abbrev pub Answers : {A : Type 0} → (A → Type 0) → Mem A → Type 0
Answers P call = (h : Heap) → IfDefined P (call h)

module _ {A B : Type 0} (Q : A → Type 0) (P : B → Type 0) where
  and_then-Answers :
      {r : Run A} (rest : A → Mem B)
      → IfDefined Q r
      → ((a : A) → Q a → Answers P (rest a))
      → IfDefined P (and_then r rest)
  and_then-Answers rest undefined next = undefined
  and_then-Answers rest (returned q) next = next _ q _

  pub >>=-Answers :
      (call : Mem A) (rest : A → Mem B)
      → Answers Q call
      → ((a : A) → Q a → Answers P (rest a))
      → Answers P (call >>= rest)
  >>=-Answers call rest q next h = and_then-Answers rest (q h) next

any-IfDefined : {A : Type 0} (r : Run A) → IfDefined (λ (a : A). Unit {0}) r
any-IfDefined none = undefined
any-IfDefined (some (a, h)) = returned tt

-- Whatever the first call returns.
pub then-Answers :
    {A B : Type 0} (P : B → Type 0) (call : Mem A) (rest : A → Mem B)
    → ((a : A) → Answers P (rest a))
    → Answers P (call >>= rest)
then-Answers {A} P call rest next =
    >>=-Answers (λ (a : A). Unit {0}) P call rest (λ h. any-IfDefined (call h)) (λ a u. next a)

-- A cleanup does not change the result.
pub defer-Answers :
    {A : Type 0} (P : A → Type 0) (cleanup : Mem (Unit {0})) (body : Mem A)
    → Answers P body
    → Answers P (defer cleanup body)
defer-Answers P cleanup body p =
    >>=-Answers P P body _ p (λ a q. then-Answers P cleanup _ (λ u h. returned q))

pub if-Answers :
    {A : Type 0} (P : A → Type 0) (b : Bool) (m n : Mem A)
    → (b ≡ true → Answers P m)
    → (b ≡ false → Answers P n)
    → Answers P (if b then m else n)
if-Answers P true m n p q = p refl
if-Answers P false m n p q = q refl

pub pure-Answers : {A : Type 0} (P : A → Type 0) (a : A) → P a → Answers P (pure a)
pure-Answers P a p h = returned p

pub unit_then-Answers :
    {B : Type 0} (P : B → Type 0) (call : Mem (Unit {0})) (rest : Mem B)
    → Answers P rest
    → Answers P (call >> rest)
unit_then-Answers P call rest next = then-Answers P call (λ u. rest) (λ u. next)

pub malloc_then-Answers :
    {B : Type 0} (P : B → Type 0) (rest : ℕ → Mem B)
    → ((p : ℕ) → Answers P (rest p))
    → Answers P (malloc >>= rest)
malloc_then-Answers P rest next = then-Answers P malloc rest next
