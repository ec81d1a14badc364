-- ===== src/Heap/Defer.antt =====
-- src/defer.h: a cleanup that runs when its scope is left, on every path out of it.
use btb.Heap.{Mem, pure, ◌>>=◌, ◌>>◌}
use btb.Heap.Laws.{Frees, Consumes, Leaves, Held-own, bind-Returns, returns}
use btb.Base.{ℕ, List, ◌++◌}

-- `DEFER(cleanup); body`. The result is computed before the cleanup runs, and a cleanup that is
-- deferred later, which is part of the body, runs earlier.
abbrev pub defer : {A : Type 0} → Mem (Unit {0}) → Mem A → Mem A
defer cleanup body = do a ← body; cleanup; pure a

module _ {A : Type 0} (own held : List ℕ) (new : A → List ℕ) where
  -- The body may use what is freed after it.
  pub defer-Consumes :
      (cleanup : Mem (Unit {0})) (body : Mem A)
      → Frees own cleanup
      → Leaves (own ++ held) new body
      → Consumes own held new (defer cleanup body)
  defer-Consumes cleanup body frees runs h base d e k =
      bind-Returns (runs h (own ++ base) d e (Held-own own held base k))
        (λ a h' p. bind-Returns (frees h' (new a) base p.0 p.1) (λ u h'' q. returns q))
