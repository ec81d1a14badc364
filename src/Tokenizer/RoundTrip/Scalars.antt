-- ===== src/Tokenizer/RoundTrip/Scalars.antt =====
-- Strings and integers in front of the tokenizer.
use btb.Tokenizer.RoundTrip.Place.{IsAt, Reads, stop, more, Reads-append}
use btb.Tokenizer.RoundTrip.Steps.{
  Gives, read_int_start, read_int_end, read_int_digits, read_str_start, read_str_parse,
}
use btb.Base.{
  ℕ, ◌<◌, ◌≡◌, refl, Bool, true, false, List, [], ◌∷◌, ◌++◌, arith, length, All, ℤ, append_assoc,
  ◌⊎◌, inl, inr,
}
use btb.Tokenizer.{Tokenizer, Status, start}
use btb.Tokenizer.Bencode.{Token, IsDigit, sign, decimal, encode_string, string_tokens, IsString}
use btb.Tokenizer.Decimal.{decimal-IsDigit, length-decimal_pos}

-- From `t` the calls of `next` give these tokens, and leave the tokenizer in front of a value.
abbrev pub Parses : Tokenizer → List Token → List ℕ → List ℕ → ℤ → Type 0
Parses t toks written unread stack =
    (u : Tokenizer) × Reads t toks u × IsAt u start written unread stack

pub Parses-more :
    (t : Tokenizer) (tok : Token) (toks : List Token) (status : Status)
    (written w' unread u' : List ℕ) (stack s' : ℤ)
    → Gives t tok status written unread stack
    → ((u : Tokenizer) → IsAt u status written unread stack → Parses u toks w' u' s')
    → Parses t (tok ∷ toks) w' u' s'
Parses-more t tok toks status written w' unread u' stack s' (u, e, k, l, a) rest =
    let (v, r, b) = rest u a in (v, more e k l r, b)

pub Parses-append :
    (t : Tokenizer) (xs ys : List Token) (written w' unread u' : List ℕ) (stack s' : ℤ)
    → Parses t xs written unread stack
    → ((u : Tokenizer) → IsAt u start written unread stack → Parses u ys w' u' s')
    → Parses t (xs ++ ys) w' u' s'
Parses-append t xs ys written w' unread u' stack s' (u, r, a) rest =
    let (v, r', b) = rest u a in (v, Reads-append r r', b)

pub Parses-one :
    (t : Tokenizer) (tok : Token) (written unread : List ℕ) (stack : ℤ)
    → Gives t tok start written unread stack
    → Parses t (tok ∷ []) written unread stack
Parses-one t tok written unread stack (u, e, k, l, a) = (u, more e k l stop, a)

-- The digits of a number begin with one.
pub decimal-cons : (n : ℕ) → (d : ℕ) × (digits : List ℕ) × (decimal n ≡ d ∷ digits) × IsDigit d
decimal-cons n = go (decimal n) refl (length-decimal_pos n) (decimal-IsDigit n)
  where
    go :
        (xs : List ℕ)
        → decimal n ≡ xs
        → 0 < length xs
        → All IsDigit xs
        → (d : ℕ) × (digits : List ℕ) × (decimal n ≡ d ∷ digits) × IsDigit d
    go [] e pos all = absurd (omega arith)
    go (d ∷ digits) e pos all = (d, digits, e, all.0)

-- The text of an integer is one byte that may start it, and digits.
pub sign-cons :
    (negative : Bool) (digits : List ℕ)
    → 0 < length digits
    → All IsDigit digits
    → (c : ℕ) × (rest : List ℕ) × (sign negative digits ≡ c ∷ rest)
      × (IsDigit c ⊎ (c ≡ b'-'))
      × All IsDigit rest
sign-cons true digits pos all = (b'-', digits, refl, inr refl, all)
sign-cons false [] pos all = absurd (omega arith)
sign-cons false (d ∷ digits) pos all = (d, digits, refl, inl all.0, all.1)

-- A string: its length, a colon, its bytes.
pub read_string :
    (t : Tokenizer) (written s rest : List ℕ) (stack : ℤ)
    → IsString s
    → IsAt t start written (encode_string s ++ rest) stack
    → Parses t (string_tokens s) (written ++ encode_string s) rest stack
read_string t written s rest stack small a =
    let n = length s in
    let (d, digits, e, h) = decimal-cons n in
    let a' : IsAt t start written (decimal n ++ b':' ∷ (s ++ rest)) stack =
      rw (append_assoc (decimal n) (b':' ∷ s) rest) at a in
    let (u, eq, k, l, b, len) = read_str_start (s ++ rest) n d digits small e h a' in
    let (v, eq', k', l', c) = read_str_parse rest s b len in
    let whole : (written ++ (decimal n ++ b':' ∷ [])) ++ s ≡ written ++ encode_string s =
      simp append_assoc in
    (v, more eq k l (more eq' k' l' stop), rw whole at c)

-- An integer: `i`, sign and digits, `e`.
pub read_integer :
    (t : Tokenizer) (written rest : List ℕ) (stack : ℤ) (negative : Bool) (digits : List ℕ)
    → (0 < length digits) × All IsDigit digits
    → IsAt t start written ((b'i' ∷ sign negative digits ++ b'e' ∷ []) ++ rest) stack
    → Parses t
        ((b'i' ∷ []) ∷ sign negative digits ∷ (b'e' ∷ []) ∷ [])
        (written ++ (b'i' ∷ sign negative digits ++ b'e' ∷ []))
        rest
        stack
read_integer t written rest stack negative digits h a =
    let (c, text, e, first, all) = sign-cons negative digits h.0 h.1 in
    let a' : IsAt t start written (b'i' ∷ ((c ∷ text) ++ b'e' ∷ rest)) stack =
      rw (e, append_assoc text (b'e' ∷ []) rest) at a in
    let (u, eq, k, l, b) = read_int_start ((c ∷ text) ++ b'e' ∷ rest) a' in
    let (v, eq', k', l', b') = read_int_digits rest c text first all b in
    let (w, eq'', k'', l'', b'') = read_int_end rest b' in
    let whole : ((written ++ b'i' ∷ []) ++ c ∷ text) ++ b'e' ∷ []
        ≡ written ++ (b'i' ∷ (c ∷ text) ++ b'e' ∷ []) =
      simp append_assoc in
    rw e (w, more eq k l (more eq' k' l' (more eq'' k'' l'' stop)), rw whole at b'')
