-- ===== src/Bitfield/Bits.antt =====
-- Setting, clearing and testing one bit of a byte, checked over all bytes.
use btb.Base.{
  ℕ, zero, suc, ◌-◌, ◌/◌, ◌%◌, ◌^◌, ◌<◌, ◌≡◌, refl, Bool, true, false, not, ◌&&◌, ◌||◌, bit_and,
  bit_or, arith, ltb, ◌==◌, ltb→lt,
}

-- The test of bit `k`, as `has_piece` makes it.
abbrev pub bit_is_set : ℕ → ℕ → Bool
bit_is_set byte k = not (bit_and (byte / 2 ^ k) 1 == 0)

abbrev same : Bool → Bool → Bool
same true b = b
same false b = not b

same→eq : (a b : Bool) → same a b ≡ true → a ≡ b
same→eq true b h = ground arith
same→eq false b h = ground arith

every : ℕ → (ℕ → Bool) → Bool
every zero p = true
every (suc n) p = p n && every n p

every_sound : (n : ℕ) (p : ℕ → Bool) (x : ℕ) → every n p ≡ true → x < n → p x ≡ true
unfolding every
every_sound zero p x h lt = absurd (omega arith)
every_sound (suc n) p x h lt = ground (arith, every_sound n p x)

-- What must hold of a byte for bits `k` and `j`.
abbrev set_ok : ℕ → ℕ → ℕ → Bool
set_ok k j byte = same (bit_is_set (bit_or byte (2 ^ k) % 2 ^ 8) j) (k == j || bit_is_set byte j)

abbrev unset_ok : ℕ → ℕ → ℕ → Bool
unset_ok k j byte =
    same (bit_is_set (bit_and byte (255 - 2 ^ k)) j) (not (k == j) && bit_is_set byte j)
    && ltb (bit_and byte (255 - 2 ^ k)) 256

set_table : every 8 (λ k. every 8 (λ j. every 256 (set_ok k j))) ≡ true
unfolding every
set_table = refl

unset_table : every 8 (λ k. every 8 (λ j. every 256 (unset_ok k j))) ≡ true
unfolding every
unset_table = refl

pub set_bit :
    (byte k j : ℕ)
    → byte < 256
    → k < 8
    → j < 8
    → bit_is_set (bit_or byte (2 ^ k) % 2 ^ 8) j ≡ (k == j || bit_is_set byte j)
set_bit byte k j b hk hj =
    let table_k = every_sound 8 (λ k. every 8 (λ j. every 256 (set_ok k j))) k set_table hk in
    let table_j = every_sound 8 (λ j. every 256 (set_ok k j)) j table_k hj in
    same→eq _ _ (every_sound 256 (set_ok k j) byte table_j b)

and_parts : (a b : Bool) → (a && b) ≡ true → (a ≡ true) × (b ≡ true)
and_parts a b h = ground arith

unset_both : (byte k j : ℕ) → byte < 256 → k < 8 → j < 8 → unset_ok k j byte ≡ true
unset_both byte k j b hk hj =
    let table_k = every_sound 8 (λ k. every 8 (λ j. every 256 (unset_ok k j))) k unset_table hk in
    let table_j = every_sound 8 (λ j. every 256 (unset_ok k j)) j table_k hj in
    every_sound 256 (unset_ok k j) byte table_j b

pub unset_bit :
    (byte k j : ℕ)
    → byte < 256
    → k < 8
    → j < 8
    → bit_is_set (bit_and byte (255 - 2 ^ k)) j ≡ (not (k == j) && bit_is_set byte j)
unset_bit byte k j b hk hj = same→eq _ _ (and_parts _ _ (unset_both byte k j b hk hj)).0

pub unset-lt : (byte k : ℕ) → byte < 256 → k < 8 → bit_and byte (255 - 2 ^ k) < 256
unset-lt byte k b hk = ltb→lt _ _ (and_parts _ _ (unset_both byte k 0 b hk (omega arith))).1
