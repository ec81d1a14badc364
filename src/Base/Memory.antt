-- ===== src/Base/Memory.antt =====
-- Blocks of bytes: a block is the list of its bytes, and an access outside it is a fault.
use Prim.Native.Nat.{ℕ, zero, suc, ◌+◌, ◌-◌, ◌%◌, ◌^◌, ◌≤◌, ◌<◌}
use mathlib.Core.Path.{◌≡◌, refl, ap, ap₂, sym}
use mathlib.Core.Logic.{◌≢◌, inl, inr}
use mathlib.Core.Bool.{Bool, true, false, ◌&&◌}
use mathlib.Core.List.{List, [], ◌∷◌, ◌++◌}
use mathlib.Core.Option.{Option, none, some}
use native.Mathlib.Omega.{arith}
use btb.Base.Lists.{length, get_elem?, set, take, drop, length-append, length-take, length-drop}
use btb.Base.Tests.{leb, ltb, leb→le, le→leb, if◌then◌else◌, ◌==◌, ==_refl, ==_iff, Bool-cases}
use btb.Base.Outcome.{Result, ok, fault, ◌>>◌, >>=-ok, defined, defined-ok}

abbrev pub or_fault {ℓ} : {A : Type ℓ} → Option A → Result A
or_fault none = fault
or_fault (some a) = ok a

-- `block[i]`
abbrev pub read {ℓ} : {A : Type ℓ} → List A → ℕ → Result A
read block i = or_fault (get_elem? block i)

-- `block[i] = v`
abbrev pub write {ℓ} : {A : Type ℓ} → List A → ℕ → A → Result (List A)
write block i v = do defined (ltb i (length block)); ok (set block i v)

-- The `n` bytes at `block + from`, as the source of a `memcpy`.
abbrev pub read_range {ℓ} : {A : Type ℓ} → List A → ℕ → ℕ → Result (List A)
read_range block from n = do defined (leb (from + n) (length block)); ok (take n (drop from block))

-- A `memcpy` of `bytes` to `block + at`.
abbrev pub write_range {ℓ} : {A : Type ℓ} → List A → ℕ → List A → Result (List A)
write_range block at bytes = do
  defined (leb (at + length bytes) (length block))
  ok (take at block ++ (bytes ++ drop (at + length bytes) block))

-- A predicate on every element.
abbrev pub All {ℓ κ} : {A : Type ℓ} → (A → Type κ) → List A → Type κ
All P [] = Unit
All P (x ∷ xs) = P x × All P xs

-- The values of an `unsigned char`, and of a `char` read as the bits that it holds.
abbrev pub IsByte : ℕ → Type 0
IsByte b = b < 256

-- `size_t` and `unsigned long` arithmetic.
abbrev pub u64_mod : ℕ
u64_mod = 2 ^ 64

-- The largest block that `malloc` gives (PTRDIFF_MAX); a larger request yields NULL.
abbrev pub ptrdiff_max : ℕ
ptrdiff_max = 2 ^ 63 - 1

module _ {ℓ} {A : Type ℓ} where
  pub take-length_append : (xs ys : List A) → take (length xs) (xs ++ ys) ≡ xs
  take-length_append [] ys = refl
  take-length_append (x ∷ xs) ys = ap (◌∷◌ x) (take-length_append xs ys)

  pub drop-length_append : (xs ys : List A) → drop (length xs) (xs ++ ys) ≡ ys
  drop-length_append [] ys = refl
  drop-length_append (x ∷ xs) ys = drop-length_append xs ys

  pub get_elem?-append_right :
      (xs ys : List A) (i : ℕ) → get_elem? (xs ++ ys) (length xs + i) ≡ get_elem? ys i
  get_elem?-append_right [] ys i = ap (get_elem? ys) (omega arith)
  get_elem?-append_right (x ∷ xs) ys i =
      let e : suc (length xs) + i ≡ suc (length xs + i) = omega arith in
      rw e (get_elem?-append_right xs ys i)

  pub get_elem?-head :
      (xs : List A) (y : A) (ys : List A) → get_elem? (xs ++ y ∷ ys) (length xs) ≡ some y
  get_elem?-head [] y ys = refl
  get_elem?-head (x ∷ xs) y ys = get_elem?-head xs y ys

  pub get_elem?-some : (xs : List A) (i : ℕ) → i < length xs → (a : A) × (get_elem? xs i ≡ some a)
  get_elem?-some [] i h = elim h [ ]
  get_elem?-some (x ∷ xs) zero h = (x, refl)
  get_elem?-some (x ∷ xs) (suc i) h = get_elem?-some xs i (omega arith)

  pub get_elem?-none : (xs : List A) (i : ℕ) → length xs ≤ i → get_elem? xs i ≡ none
  get_elem?-none [] i h = refl
  get_elem?-none (x ∷ xs) zero h = absurd (omega arith)
  get_elem?-none (x ∷ xs) (suc i) h = get_elem?-none xs i (omega arith)

  -- A source that lies inside the block is read whole.
  pub read_range-append :
      (xs ys zs : List A) → read_range (xs ++ (ys ++ zs)) (length xs) (length ys) ≡ ok ys
  read_range-append xs ys zs = rw (
    le→leb (length xs + length ys) (length (xs ++ (ys ++ zs)))
        (omega (arith, length-append xs (ys ++ zs), length-append ys zs)),
    drop-length_append xs (ys ++ zs),
    take-length_append ys zs,
  )

-- An `int` made from a `size_t` and compared with one: cut to 32 bits, then sign-extended.
abbrev pub through_int : ℕ → ℕ
through_int n = let w = n % 2 ^ 32 in if ltb w (2 ^ 31) then w else w + (u64_mod - 2 ^ 32)

module _ {ℓ} {A : Type ℓ} where
  pub drop_all : (n : ℕ) (xs : List A) → length xs ≤ n → drop n xs ≡ []
  drop_all zero [] h = refl
  drop_all zero (x ∷ xs) h = absurd (omega arith)
  drop_all (suc n) [] h = refl
  drop_all (suc n) (x ∷ xs) h = drop_all n xs (omega arith)

  pub take_all : (n : ℕ) (xs : List A) → length xs ≡ n → take n xs ≡ xs
  take_all zero [] h = refl
  take_all zero (x ∷ xs) h = absurd (omega arith)
  take_all (suc n) [] h = absurd (omega arith)
  take_all (suc n) (x ∷ xs) h = ap (◌∷◌ x) (take_all n xs (omega arith))

  -- A source that is a whole block.
  pub read_range_all : (xs : List A) (n : ℕ) → length xs ≡ n → read_range xs 0 n ≡ ok xs
  read_range_all xs n h = rw (le→leb (0 + n) (length xs) (omega arith), take_all n xs h)

  pub uncons :
      (n : ℕ) (xs : List A)
      → length xs ≡ suc n
      → (x : A) × (rest : List A) × (xs ≡ x ∷ rest) × (length rest ≡ n)
  uncons n [] h = absurd (omega arith)
  uncons n (x ∷ xs) h = (x, xs, refl, omega arith)

  pub nil_of_length : (xs : List A) → length xs ≡ 0 → xs ≡ []
  nil_of_length [] h = refl
  nil_of_length (x ∷ xs) h = absurd (omega arith)

  drop-add_length : (xs ys : List A) (n : ℕ) → drop (length xs + n) (xs ++ ys) ≡ drop n ys
  drop-add_length [] ys n = ap (λ (k : ℕ). drop k ys) (omega arith)
  drop-add_length (x ∷ xs) ys n =
      let e : suc (length xs) + n ≡ suc (length xs + n) = omega arith in
      rw e (drop-add_length xs ys n)

  -- A copy to the end of what is written so far.
  pub write_range-end :
      (written old bytes : List A)
      → length bytes ≤ length old
      → write_range (written ++ old) (length written) bytes
        ≡ ok (written ++ (bytes ++ drop (length bytes) old))
  write_range-end written old bytes h =
      let room =
        le→leb (length written + length bytes) (length (written ++ old))
          (omega (arith, length-append written old)) in
      rw (room, take-length_append written old, drop-add_length written old (length bytes))

-- `memcmp(a, b, n) == 0` on blocks of the same length.
abbrev pub same_bytes : List ℕ → List ℕ → Bool
same_bytes [] [] = true
same_bytes (x ∷ xs) (y ∷ ys) = x == y && same_bytes xs ys
same_bytes _ _ = false

pub same_bytes_refl : (xs : List ℕ) → same_bytes xs xs ≡ true
same_bytes_refl [] = refl
same_bytes_refl (x ∷ xs) = rw (==_refl x, same_bytes_refl xs) refl

pub same_bytes-ne : (xs ys : List ℕ) → xs ≢ ys → same_bytes xs ys ≡ false
same_bytes-ne [] [] h = absurd (h refl)
same_bytes-ne [] (y ∷ ys) h = refl
same_bytes-ne (x ∷ xs) [] h = refl
same_bytes-ne (x ∷ xs) (y ∷ ys) h = elim (Bool-cases (x == y)) [
  | inl same ↦
      let e : x ≡ y = (==_iff x y).0 same in
      rw (same, same_bytes-ne xs ys (λ f. h (ap₂ ◌∷◌ e f))) refl
  | inr other ↦ rw other refl
]

module _ {ℓ} {A : Type ℓ} where
  -- A `memcpy` that is defined leaves the size of the block as it was.
  pub length-write_range :
      (block bytes : List A) (at : ℕ) (block' : List A)
      → write_range block at bytes ≡ ok block'
      → length block' ≡ length block
  length-write_range block bytes at block' e =
      let end = at + length bytes in
      let (done, e₁, e₂) =
        >>=-ok (defined (leb end (length block)))
          (λ done. ok (take at block ++ (bytes ++ drop end block))) e in
      let fits : end ≤ length block =
        leb→le end (length block) (defined-ok (leb end (length block)) e₁) in
      let same : take at block ++ (bytes ++ drop end block) ≡ block' = cc in
      rw (sym same) (
        omega (
          arith,
          length-append (take at block) (bytes ++ drop end block),
          length-append bytes (drop end block),
          length-take at block,
          length-drop end block,
        ))
