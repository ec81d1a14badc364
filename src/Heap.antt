-- ===== src/Heap.antt =====
-- The blocks of memory that the program has allocated. What they hold is the matter of the other
-- modules; here a run is followed through `malloc` and `free`, and `none` is undefined behaviour: a
-- block that is freed twice, or used after it was freed. The memory is taken to be enough, since no
-- caller tests for the NULL of `malloc`. A struct is known by the addresses of its blocks, and a
-- call of another part of the program by the outcome of its tests, which are arguments, so that
-- every path through a function is one of the arguments' values.
pub mod Laws
pub mod Answers
pub mod Defer
pub mod Objects
pub mod Rules
pub mod Message
pub mod Tables
pub mod Tokenizer
pub mod Thread
use btb.Base.{
  ℕ, zero, suc, Bool, true, false, List, [], ◌∷◌, Option, none, some, ◌==◌, if◌then◌else◌,
}

-- `fresh` is an address that no block has had; `live` are the blocks in use, the last one first.
pub record Heap : Type 0 where
  pub fresh : ℕ
  pub live : List ℕ

abbrev pub Run : Type 0 → Type 0
Run A = Option (A × Heap)

abbrev pub Mem : Type 0 → Type 0
Mem A = Heap → Run A

abbrev pub pure : {A : Type 0} → A → Mem A
pure a h = some (a, h)

abbrev pub and_then : {A B : Type 0} → Run A → (A → Mem B) → Run B
and_then none rest = none
and_then (some (a, h)) rest = rest a h

infixl 5 ◌>>=◌
abbrev pub ◌>>=◌ : {A B : Type 0} → Mem A → (A → Mem B) → Mem B
◌>>=◌ call rest h = and_then (call h) rest

infixl 5 ◌>>◌
abbrev pub ◌>>◌ : {B : Type 0} → Mem (Unit {0}) → Mem B → Mem B
call >> rest = call >>= λ nothing. rest

-- The list without `p`, or `none` where `p` is not in it.
pub remove : ℕ → List ℕ → Option (List ℕ)
remove p [] = none
remove p (x ∷ xs) =
    let rest : Option (List ℕ) = elim (remove p xs) [ none ↦ none | some ys ↦ some (x ∷ ys) ] in
    if x == p then some xs else rest

abbrev pub with_live : Heap → Option (List ℕ) → Run (Unit {0})
with_live h none = none
with_live h (some xs) = some (tt, record h { live = xs })

-- `malloc`: a block that is not in use.
unfoldable pub malloc : Mem ℕ
malloc h = some (h.fresh, record { fresh = suc h.fresh; live = h.fresh ∷ h.live })

-- `free`, which does nothing at NULL.
unfoldable pub free : Option ℕ → Mem (Unit {0})
unfolding remove
free none h = some (tt, h)
free (some p) h = with_live h (remove p h.live)

abbrev pub when_live : Heap → Option (List ℕ) → Run (Unit {0})
when_live h none = none
when_live h (some xs) = some (tt, h)

-- An access to the block at `p`: it has to be in use.
unfoldable pub access : ℕ → Mem (Unit {0})
unfolding remove
access p h = when_live h (remove p h.live)

-- An access to as many bytes as a block has, of which there may be none.
unfoldable pub access_all : Option ℕ → Mem (Unit {0})
unfolding access
access_all none h = some (tt, h)
access_all (some p) h = access p h
