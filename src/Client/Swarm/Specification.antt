-- ===== src/Client/Swarm/Specification.antt =====
-- The specification of the threads of src/client.c: what can happen to a piece.
use btb.Base.{ℕ, ◌≤◌, ◌<◌, ◌≡◌, ◌≢◌, Option, none, some}

-- The specification: every piece is in one of three places.
pub data Place : Type 0 where
  unclaimed claimed stored : Place

-- A step of the specification among the pieces below `n`, by a client that holds `held` before it and
-- `held'` after it. A client that holds no piece can claim one that is unclaimed, and one that holds
-- a piece gives it back or stores it; no other piece changes. A number outside the pieces, which
-- stands for none of them, changes nothing.
pub data SpecStep (n : ℕ) (before after : ℕ → Place) (held held' : Option ℕ) : Type 0 where
  idle :
      held ≡ none
      → held' ≡ none
      → ((j : ℕ) → j < n → after j ≡ before j)
      → SpecStep n before after held held'
  claim :
      (i : ℕ)
      → held ≡ none
      → held' ≡ some i
      → i < n
      → before i ≡ unclaimed
      → after i ≡ claimed
      → ((j : ℕ) → j < n → j ≢ i → after j ≡ before j)
      → SpecStep n before after held held'
  claim_none :
      (i : ℕ)
      → held ≡ none
      → held' ≡ some i
      → n ≤ i
      → ((j : ℕ) → j < n → after j ≡ before j)
      → SpecStep n before after held held'
  release :
      (i : ℕ)
      → held ≡ some i
      → held' ≡ none
      → i < n
      → before i ≡ claimed
      → after i ≡ unclaimed
      → ((j : ℕ) → j < n → j ≢ i → after j ≡ before j)
      → SpecStep n before after held held'
  release_none :
      (i : ℕ)
      → held ≡ some i
      → held' ≡ none
      → n ≤ i
      → ((j : ℕ) → j < n → after j ≡ before j)
      → SpecStep n before after held held'
  store :
      (i : ℕ)
      → held ≡ some i
      → held' ≡ none
      → i < n
      → before i ≡ claimed
      → after i ≡ stored
      → ((j : ℕ) → j < n → j ≢ i → after j ≡ before j)
      → SpecStep n before after held held'
