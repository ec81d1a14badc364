-- ===== src/Client/Swarm/Counting.antt =====
-- How many threads of the swarm hold a piece.
use btb.Peer.{Peer}
use btb.Client.Session.{Local}
use btb.Client.Swarm.{Pc, connecting, looping, picking, holding, finished}
use btb.Base.{
  map, ℕ, zero, suc, ◌+◌, ◌≤◌, ◌<◌, ◌≡◌, refl, Bool, List, [], ◌∷◌, some, arith, ◌==◌, ==_refl,
  if◌then◌else◌, get_elem?, set, All, subst,
}

-- 1 if the thread holds piece `j`.
abbrev pub holds : ℕ → Pc → ℕ
holds j (connecting peer) = 0
holds j (looping l) = 0
holds j (picking l) = 0
holds j (holding l i) = if i == j then 1 else 0
holds j (finished r) = 0

abbrev pub holders : ℕ → List Pc → ℕ
holders j [] = 0
holders j (pc ∷ threads) = holds j pc + holders j threads

-- What a thread holds is at most one past the number of pieces.
abbrev pub IsHolding : ℕ → Pc → Type 0
IsHolding n (connecting peer) = Unit
IsHolding n (looping l) = Unit
IsHolding n (picking l) = Unit
IsHolding n (holding l i) = i ≤ n + 1
IsHolding n (finished r) = Unit

abbrev pub IsFinished : Pc → Type 0
IsFinished pc = (r : Bool) × (pc ≡ finished r)

pub holders-set :
    (j : ℕ) (threads : List Pc) (k : ℕ) (pc pc' : Pc)
    → get_elem? threads k ≡ some pc
    → holders j (set threads k pc') + holds j pc ≡ holders j threads + holds j pc'
holders-set j [] k pc pc' e = cc
holders-set j (x ∷ threads) zero pc pc' e = let same : x ≡ pc = cc in rw same (omega arith)
holders-set j (x ∷ threads) (suc k) pc pc' e = omega (arith, holders-set j threads k pc pc' e)

pub holders-ge :
    (j : ℕ) (threads : List Pc) (k : ℕ) (pc : Pc)
    → get_elem? threads k ≡ some pc
    → holds j pc ≤ holders j threads
holders-ge j [] k pc e = cc
holders-ge j (x ∷ threads) zero pc e = let same : x ≡ pc = cc in rw same (omega arith)
holders-ge j (x ∷ threads) (suc k) pc e = omega (arith, holders-ge j threads k pc e)

pub holders-two :
    (j : ℕ) (threads : List Pc) (k m : ℕ) (a b : Pc)
    → k < m
    → get_elem? threads k ≡ some a
    → get_elem? threads m ≡ some b
    → holds j a + holds j b ≤ holders j threads
holders-two j [] k m a b lt e f = cc
holders-two j (x ∷ threads) k zero a b lt e f = absurd (omega arith)
holders-two j (x ∷ threads) zero (suc m) a b lt e f =
    let same : x ≡ a = cc in rw same (omega (arith, holders-ge j threads m b f))
holders-two j (x ∷ threads) (suc k) (suc m) a b lt e f =
    omega (arith, holders-two j threads k m a b (omega arith) e f)

pub holds_self : (i : ℕ) (l : Local) → holds i (holding l i) ≡ 1
holds_self i l = rw (==_refl i) refl

pub holders-finished : (j : ℕ) (threads : List Pc) → All IsFinished threads → holders j threads ≡ 0
holders-finished j [] all = refl
holders-finished j (pc ∷ threads) ((r, e), all) =
    rw e (omega (arith, holders-finished j threads all))

pub holders-connecting : (j : ℕ) (peers : List Peer) → holders j (map connecting peers) ≡ 0
holders-connecting j [] = refl
holders-connecting j (p ∷ peers) = omega (arith, holders-connecting j peers)

pub All-connecting : (n : ℕ) (peers : List Peer) → All (IsHolding n) (map connecting peers)
All-connecting n [] = tt
All-connecting n (p ∷ peers) = (tt, All-connecting n peers)

module _ {κ} (P : Pc → Type κ) where
  pub All-get :
      (threads : List Pc) (k : ℕ) (pc : Pc) → All P threads → get_elem? threads k ≡ some pc → P pc
  All-get [] k pc all e = absurd cc
  All-get (x ∷ threads) zero pc (p, all) e = let same : x ≡ pc = cc in subst P same p
  All-get (x ∷ threads) (suc k) pc (p, all) e = All-get threads k pc all e

  pub All-set :
      (threads : List Pc) (k : ℕ) (pc : Pc) → All P threads → P pc → All P (set threads k pc)
  All-set [] k pc all q = tt
  All-set (x ∷ threads) zero pc (p, all) q = (q, all)
  All-set (x ∷ threads) (suc k) pc (p, all) q = (p, All-set threads k pc all q)
