-- ===== src/BigEndian/Laws.antt =====
-- big_endian.c against positional notation in base 256.
use native.Mathlib.Nat.{div-add-mod, mod-add-div, div-div-eq-div-mul, mul_comm}
use native.Mathlib.Numerals.{towards_suc}
use btb.Base.{
  ℕ, zero, suc, ◌+◌, ◌-◌, ◌*◌, ◌/◌, ◌%◌, ◌^◌, ◌≤◌, ◌<◌, ◌≡◌, refl, sym, ap, ◌∙◌, List, [], ◌∷◌,
  ◌++◌, ok, arith, ltb, if◌then◌else◌, length, take, drop, IsByte, All, u64_mod, lt→ltb, set, ◌>>=◌,
  length-set, append_assoc, take-append-drop,
}
use btb.BigEndian.{lu_to_big_endian, lu_to_big_endian_loop, big_endian_to_lu}

-- The `k` low base-256 digits of `n`, the highest first.
abbrev pub be_bytes : ℕ → ℕ → List ℕ
be_bytes zero n = []
be_bytes (suc k) n = n / 2 ^ (8 * k) % 256 ∷ be_bytes k n

-- The number that big-endian bytes stand for.
abbrev pub be_value : List ℕ → ℕ
be_value [] = 0
be_value (b ∷ bs) = b * 2 ^ (8 * length bs) + be_value bs

pub length-be_bytes : (k n : ℕ) → length (be_bytes k n) ≡ k
length-be_bytes zero n = refl
length-be_bytes (suc k) n = ap suc (length-be_bytes k n)

pub be_bytes-IsByte : (k n : ℕ) → All IsByte (be_bytes k n)
be_bytes-IsByte zero n = tt
be_bytes-IsByte (suc k) n = (omega arith, be_bytes-IsByte k n)

take-suc-set :
    (block : List ℕ) (i v : ℕ)
    → i < length block
    → take (suc i) (set block i v) ≡ take i block ++ v ∷ []
take-suc-set [] i v h = elim h [ ]
take-suc-set (x ∷ block) zero v h = refl
take-suc-set (x ∷ block) (suc i) v h = ap (◌∷◌ x) (take-suc-set block i v (omega arith))

drop-set : (block : List ℕ) (i j v : ℕ) → i < j → drop j (set block i v) ≡ drop j block
drop-set block i zero v h = absurd (omega arith)
drop-set [] i (suc j) v h = refl
drop-set (x ∷ block) zero (suc j) v h = refl
drop-set (x ∷ block) (suc i) (suc j) v h = drop-set block i j v (omega arith)

-- One round of the loop.
loop-suc :
    (left i n : ℕ) (block : List ℕ) (start k : ℕ)
    → k ≤ 8
    → i + suc left ≡ k
    → start + k ≤ length block
    → lu_to_big_endian_loop (suc left) i n block start k
      ≡ lu_to_big_endian_loop left
          (i + 1)
          n
          (set block (start + i) (n / 2 ^ (8 * left) % 256))
          start
          k
unfolding lu_to_big_endian_loop
loop-suc left i n block start k small e fits =
    let s : k - i - 1 ≡ left = omega arith in
    rw (s, lt→ltb (8 * left) 64 (omega arith), lt→ltb (start + i) (length block) (omega arith))

lu_to_big_endian_loop_lem :
    (left i n : ℕ) (block : List ℕ) (start k : ℕ)
    → k ≤ 8
    → i + left ≡ k
    → start + k ≤ length block
    → lu_to_big_endian_loop left i n block start k
      ≡ ok (take (start + i) block ++ (be_bytes left n ++ drop (start + k) block))
lu_to_big_endian_loop_lem zero i n block start k small e fits =
    let e' : k ≡ i = omega arith in
    rw e' (rw (take-append-drop (start + i) block) (unfold lu_to_big_endian_loop in refl))
lu_to_big_endian_loop_lem (suc left) i n block start k small e fits =
    let v = n / 2 ^ (8 * left) % 256 in
    let rest =
      lu_to_big_endian_loop_lem left (i + 1) n (set block (start + i) v) start k small (omega arith)
        (omega (arith, length-set block (start + i) v)) in
    let at : start + (i + 1) ≡ suc (start + i) = omega arith in
    let grown = take-suc-set block (start + i) v (omega arith) in
    let kept = drop-set block (start + i) (start + k) v (omega arith) in
    loop-suc left i n block start k small e fits ∙ rest ∙ rw (at, grown, kept, append_assoc)

-- For a count of at most 8 bytes inside a block, `lu_to_big_endian` writes the low bytes of the
-- number there, the highest first, and leaves the rest of the block as it was.
pub lu_to_big_endian_lem :
    (n : ℕ) (block : List ℕ) (start k : ℕ)
    → k ≤ 8
    → start + k ≤ length block
    → lu_to_big_endian n block start k
      ≡ ok (take start block ++ (be_bytes k n ++ drop (start + k) block))
unfolding lu_to_big_endian
lu_to_big_endian_lem n block start k small fits =
    let here : start + 0 ≡ start = omega arith in
    rw here at (lu_to_big_endian_loop_lem k 0 n block start k small (omega arith) fits)

-- The four bytes of a wire field: the value, with the sign of the 32-bit `int` extended.
pub big_endian_to_lu_four :
    (a b c d : ℕ) (rest : List ℕ)
    → IsByte a
    → IsByte b
    → IsByte c
    → IsByte d
    → let v = be_value (a ∷ b ∷ c ∷ d ∷ []) in
      big_endian_to_lu (a ∷ b ∷ c ∷ d ∷ rest) 4
      ≡ ok (if ltb v (2 ^ 31) then v else v + (u64_mod - 2 ^ 32))
unfolding big_endian_to_lu
big_endian_to_lu_four a b c d rest ha hb hc hd = ground arith

pub big_endian_to_lu_two :
    (a b : ℕ) (rest : List ℕ)
    → IsByte a
    → IsByte b
    → big_endian_to_lu (a ∷ b ∷ rest) 2 ≡ ok (be_value (a ∷ b ∷ []))
unfolding big_endian_to_lu
big_endian_to_lu_two a b rest ha hb = ground arith

two_pow_step : (k : ℕ) → 2 ^ (8 * suc k) ≡ 256 * 2 ^ (8 * k)
two_pow_step k =
    let e : 8 * suc k ≡ 8 * k + 8 = omega arith in rw e (simp towards_suc (omega arith))

-- The digit at `p` above the remainder by `p`.
mod_digit : (n p : ℕ) → n % (256 * p) ≡ n / p % 256 * p + n % p
mod_digit n p = omega (
  arith,
  div-add-mod n p,
  mod-add-div n (256 * p),
  ap (λ (t : ℕ). n / t) (mul_comm 256 p),
  div-div-eq-div-mul n p 256,
  ap (λ (t : ℕ). p * t) (div-add-mod (n / p) 256),
  ap (λ (t : ℕ). p * t) (ap (λ (t : ℕ). n / t) (mul_comm 256 p) ∙ sym (div-div-eq-div-mul n p 256)),
)

-- The digits of a number stand for it, modulo the width.
pub be_value-be_bytes : (k n : ℕ) → be_value (be_bytes k n) ≡ n % 2 ^ (8 * k)
be_value-be_bytes zero n = omega arith
be_value-be_bytes (suc k) n =
    rw (two_pow_step k, length-be_bytes k n, be_value-be_bytes k n, mod_digit n (2 ^ (8 * k)))

drop-take_append :
    (start : ℕ) (block rest : List ℕ)
    → start ≤ length block
    → drop start (take start block ++ rest) ≡ rest
drop-take_append zero block rest h = refl
drop-take_append (suc start) [] rest h = absurd (omega arith)
drop-take_append (suc start) (x ∷ block) rest h = drop-take_append start block rest (omega arith)

-- A number below 2 ^ 32 that is written to four bytes inside a block is read back from there as
-- itself if it is below 2 ^ 31, and with its upper 32 bits set otherwise.
pub big_endian_to_lu-lu_to_big_endian :
    (n : ℕ) (block : List ℕ) (start : ℕ)
    → n < 2 ^ 32
    → start + 4 ≤ length block
    → (lu_to_big_endian n block start 4 >>= λ out. big_endian_to_lu (drop start out) 4)
      ≡ ok (if ltb n (2 ^ 31) then n else n + (u64_mod - 2 ^ 32))
big_endian_to_lu-lu_to_big_endian n block start small fits =
    let bs = be_bytes-IsByte 4 n in
    let v : be_value (be_bytes 4 n) ≡ n = omega (arith, be_value-be_bytes 4 n) in
    rw (
      lu_to_big_endian_lem n block start 4 (omega arith) fits,
      drop-take_append start block (be_bytes 4 n ++ drop (start + 4) block) (omega arith),
      big_endian_to_lu_four _ _ _ _ (drop (start + 4) block) bs.0 bs.1.0 bs.1.1.0 bs.1.1.1.0,
      v,
    )
