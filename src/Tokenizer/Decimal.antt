-- ===== src/Tokenizer/Decimal.antt =====
-- `strtol` reads back the decimal digits of a length.
use native.Mathlib.Nat.{pow-suc}
use btb.Base.{
  ℕ, zero, suc, ◌+◌, ◌-◌, ◌*◌, ◌/◌, ◌%◌, ◌^◌, ◌<◌, ◌≡◌, refl, ap, ◌∙◌, true, false, List, [], ◌∷◌,
  ◌++◌, ok, arith, length, ltb, All, Bool-cases, inl, inr, ltb→lt, length-append,
}
use btb.Tokenizer.Scan.{is_digit, skip_digits, decimal_prefix, strtol}
use btb.Tokenizer.Bencode.{decimal, decimal_fuel, IsDigit}

pub IsDigit-is_digit : (b : ℕ) → IsDigit b → is_digit b ≡ true
IsDigit-is_digit b h = ground arith

-- Digits are taken up to the byte that follows them.
pub skip_digits-append :
    (digits : List ℕ) (b : ℕ) (rest : List ℕ) (p : ℕ)
    → All IsDigit digits
    → is_digit b ≡ false
    → skip_digits (digits ++ b ∷ rest) p ≡ ok (p + length digits)
unfolding skip_digits
skip_digits-append [] b rest p h stop = rw stop (ap ok (omega arith))
skip_digits-append (d ∷ digits) b rest p h stop =
    rw (IsDigit-is_digit d h.0)
      (skip_digits-append digits b rest (p + 1) h.1 stop ∙ ap ok (omega arith))

-- The number that digits stand for, behind digits that stand for `value`.
abbrev pub digits_value : ℕ → List ℕ → ℕ
digits_value value [] = value
digits_value value (d ∷ digits) = digits_value (10 * value + (d - b'0')) digits

digits_value-append :
    (value : ℕ) (xs : List ℕ) (d : ℕ)
    → digits_value value (xs ++ d ∷ []) ≡ 10 * digits_value value xs + (d - b'0')
digits_value-append value [] d = refl
digits_value-append value (x ∷ xs) d = digits_value-append (10 * value + (x - b'0')) xs d

decimal_prefix-append :
    (digits : List ℕ) (b : ℕ) (rest : List ℕ) (value p : ℕ)
    → All IsDigit digits
    → is_digit b ≡ false
    → decimal_prefix (digits ++ b ∷ rest) value p
      ≡ ok (digits_value value digits, p + length digits)
unfolding decimal_prefix
decimal_prefix-append [] b rest value p h stop =
    rw stop (ap (λ (q : ℕ). ok (value, q)) (omega arith))
decimal_prefix-append (d ∷ digits) b rest value p h stop = rw (IsDigit-is_digit d h.0) (
    decimal_prefix-append digits b rest (10 * value + (d - b'0')) (p + 1) h.1 stop
    ∙ ap (λ (q : ℕ). ok (digits_value (10 * value + (d - b'0')) digits, q)) (omega arith))

All-append_one : (xs : List ℕ) (d : ℕ) → All IsDigit xs → IsDigit d → All IsDigit (xs ++ d ∷ [])
All-append_one [] d h k = (k, tt)
All-append_one (x ∷ xs) d h k = (h.0, All-append_one xs d h.1 k)

decimal_fuel-IsDigit : (fuel n : ℕ) → All IsDigit (decimal_fuel fuel n)
decimal_fuel-IsDigit zero n = omega arith
decimal_fuel-IsDigit (suc fuel) n = elim (Bool-cases (ltb n 10)) [
  | inl small ↦ let h = ltb→lt n 10 small in rw small (omega arith)
  | inr large ↦ rw large (
      All-append_one (decimal_fuel fuel (n / 10)) _ (decimal_fuel-IsDigit fuel (n / 10))
        (omega arith))
]

decimal_fuel_value : (fuel n : ℕ) → n < 10 ^ suc fuel → digits_value 0 (decimal_fuel fuel n) ≡ n
decimal_fuel_value zero n h = omega arith
decimal_fuel_value (suc fuel) n h = elim (Bool-cases (ltb n 10)) [
  | inl small ↦ rw small (omega arith)
  | inr large ↦ rw large (
      digits_value-append 0 (decimal_fuel fuel (n / 10)) (b'0' + n % 10)
      ∙ omega (arith, decimal_fuel_value fuel (n / 10) (omega (arith, pow-suc 10 (suc fuel)))))
]

decimal_fuel_length : (fuel n : ℕ) → 0 < length (decimal_fuel fuel n)
decimal_fuel_length zero n = omega arith
decimal_fuel_length (suc fuel) n = elim (Bool-cases (ltb n 10)) [
  | inl small ↦ rw small (omega arith)
  | inr large ↦
      rw large (omega (arith, length-append (decimal_fuel fuel (n / 10)) ((b'0' + n % 10) ∷ [])))
]

pub decimal-IsDigit : (n : ℕ) → All IsDigit (decimal n)
unfolding decimal
decimal-IsDigit n = decimal_fuel-IsDigit 19 n

pub length-decimal_pos : (n : ℕ) → 0 < length (decimal n)
unfolding decimal
length-decimal_pos n = decimal_fuel_length 19 n

-- What is printed is read back, and the pointer stands behind it.
pub strtol-decimal :
    (n b : ℕ) (rest : List ℕ) (p : ℕ)
    → n < 2 ^ 63
    → is_digit b ≡ false
    → strtol (decimal n ++ b ∷ rest) p ≡ ok (n, p + length (decimal n))
unfolding strtol decimal
strtol-decimal n b rest p small stop =
    rw
      (
        decimal_prefix-append (decimal_fuel 19 n) b rest 0 p (decimal_fuel-IsDigit 19 n) stop,
        decimal_fuel_value 19 n (omega arith),
      )
      (ap (λ (q : ℕ). ok (q, p + length (decimal_fuel 19 n))) (omega arith))

pub digits_value-decimal : (n : ℕ) → n < 10 ^ 20 → digits_value 0 (decimal n) ≡ n
unfolding decimal
digits_value-decimal n small = decimal_fuel_value 19 n small
