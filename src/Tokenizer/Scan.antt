-- ===== src/Tokenizer/Scan.antt =====
-- The C library's character classes and `strtol`, as tokenizer.c uses them. A scan stops at the
-- first byte that it does not take, so it must read one; at the end of the block that is a fault.
use btb.Base.{
  ℕ, ◌+◌, ◌-◌, ◌*◌, ◌^◌, Bool, ◌&&◌, ◌||◌, List, [], ◌∷◌, Result, ok, fault, ◌>>=◌, leb, ◌==◌,
  if◌then◌else◌, min,
}

abbrev pub is_digit : ℕ → Bool
is_digit b = leb b'0' b && leb b b'9'

abbrev pub is_space : ℕ → Bool
is_space b = b == b' ' || (leb 9 b && leb b 13)

-- `while (isdigit(*p)) p++;` over the bytes from `p` on.
unfoldable pub skip_digits : List ℕ → ℕ → Result ℕ
skip_digits [] p = fault
skip_digits (b ∷ rest) p = let on = skip_digits rest (p + 1) in if is_digit b then on else ok p

unfoldable pub decimal_prefix : List ℕ → ℕ → ℕ → Result (ℕ × ℕ)
decimal_prefix [] value p = fault
decimal_prefix (b ∷ rest) value p =
    let on = decimal_prefix rest (10 * value + (b - b'0')) (p + 1) in
    if is_digit b then on else ok (value, p)

abbrev pub long_max : ℕ
long_max = 2 ^ 63 - 1

-- `strtol(p, &p, 10)` where `*p` is a digit: the value, cut off at LONG_MAX, and the new `p`.
unfoldable pub strtol : List ℕ → ℕ → Result (ℕ × ℕ)
unfolding decimal_prefix
strtol rest p = do (value, after) ← decimal_prefix rest 0 p; ok (min value long_max, after)
