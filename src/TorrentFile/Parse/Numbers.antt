-- ===== src/TorrentFile/Parse/Numbers.antt =====
-- The numbers of a torrent file and of a tracker's answer: `strtoll` reads back decimal digits.
use btb.Tokenizer.Bencode.{decimal, IsDigit}
use btb.Tokenizer.Decimal.{digits_value, digits_value-decimal, decimal-IsDigit, IsDigit-is_digit}
use btb.Tokenizer.RoundTrip.Scalars.{decimal-cons}
use btb.TorrentFile.Parse.{leading_value, strtoll}
use btb.Base.{ℕ, ◌+◌, ◌-◌, ◌*◌, ◌^◌, ◌<◌, ◌≡◌, refl, List, [], ◌∷◌, All, arith, ◌∙◌}

leading_value_digits :
    (digits : List ℕ) (value : ℕ)
    → All IsDigit digits
    → leading_value digits value ≡ digits_value value digits
unfolding leading_value
leading_value_digits [] value h = refl
leading_value_digits (d ∷ digits) value h =
    rw (IsDigit-is_digit d h.0) (leading_value_digits digits (10 * value + (d - b'0')) h.1)

strtoll-digits :
    (d : ℕ) (digits : List ℕ)
    → All IsDigit (d ∷ digits)
    → digits_value 0 (d ∷ digits) < 2 ^ 63
    → strtoll (d ∷ digits) ≡ digits_value 0 (d ∷ digits)
unfolding strtoll
strtoll-digits d digits h small =
    ground (arith, leading_value_digits (d ∷ digits) 0 h, IsDigit-is_digit d h.0)

pub strtoll-decimal : (n : ℕ) → n < 2 ^ 63 → strtoll (decimal n) ≡ n
strtoll-decimal n small =
    let (d, digits, e, first) = decimal-cons n in
    let all = rw e at (decimal-IsDigit n) in
    let value : digits_value 0 (d ∷ digits) ≡ n = rw e at (digits_value-decimal n (omega arith)) in
    rw e (strtoll-digits d digits all (omega arith) ∙ value)
