-- ===== src/Tokenizer/RoundTrip/Steps.antt =====
-- What one call of `next` does in front of given bytes.
use btb.Tokenizer.RoundTrip.Place.{
  IsAt, at_byte, at_left, at_rest, at_range, forward, moved, at_rest_suc, at_byte_after,
}
use btb.Base.{
  ℕ, ◌+◌, ◌-◌, ◌^◌, ◌<◌, ◌≡◌, refl, List, [], ◌∷◌, ◌++◌, ok, arith, length, All, ℤ, incr, decr,
  append_assoc, length-append, ◌⊎◌,
}
use btb.Tokenizer.{Tokenizer, Status, start, int_parse, int_end, str_parse, next, tokenizer_ok}
use btb.Tokenizer.Bencode.{Token, IsDigit, decimal}
use btb.Tokenizer.Decimal.{skip_digits-append, strtol-decimal}

-- From `t` one call of `next` gives `tok`, and leaves the tokenizer behind the bytes `written`.
abbrev pub Gives : Tokenizer → Token → Status → List ℕ → List ℕ → ℤ → Type 0
Gives t tok status written unread stack =
    (u : Tokenizer) × (next t ≡ ok (u, tokenizer_ok))
    × (u.token ≡ tok)
    × (u.token_size ≡ length tok)
    × IsAt u status written unread stack

module _ {t : Tokenizer} {written : List ℕ} {stack : ℤ} (rest : List ℕ) where
  pub read_open :
      (b : ℕ)
      → (b ≡ b'l') ⊎ (b ≡ b'd')
      → IsAt t start written (b ∷ rest) stack
      → Gives t (b ∷ []) start (written ++ b ∷ []) rest (incr stack)
  unfolding next
  read_open b h a =
      let byte = at_byte b rest a in
      let left = at_left (b ∷ rest) a in
      (
        moved t (b ∷ []) (t.current + 1) start t.strlen (incr stack),
        ground (arith, byte, left, a.stack_is, a.status_is),
        refl,
        refl,
        forward (b ∷ []) rest _ _ _ _ _ _ a (omega arith),
      )

  pub read_close :
      IsAt t start written (b'e' ∷ rest) stack
      → Gives t (b'e' ∷ []) start (written ++ b'e' ∷ []) rest (decr stack)
  unfolding next
  read_close a =
      let byte = at_byte b'e' rest a in
      let left = at_left (b'e' ∷ rest) a in
      (
        moved t (b'e' ∷ []) (t.current + 1) start t.strlen (decr stack),
        ground (arith, byte, left, a.stack_is, a.status_is),
        refl,
        refl,
        forward (b'e' ∷ []) rest _ _ _ _ _ _ a (omega arith),
      )

  pub read_int_start :
      IsAt t start written (b'i' ∷ rest) stack
      → Gives t (b'i' ∷ []) int_parse (written ++ b'i' ∷ []) rest stack
  unfolding next
  read_int_start a =
      let byte = at_byte b'i' rest a in
      let left = at_left (b'i' ∷ rest) a in
      (
        moved t (b'i' ∷ []) (t.current + 1) int_parse t.strlen stack,
        ground (arith, byte, left, a.stack_is, a.status_is),
        refl,
        refl,
        forward (b'i' ∷ []) rest _ _ _ _ _ _ a (omega arith),
      )

  pub read_int_end :
      IsAt t int_end written (b'e' ∷ rest) stack
      → Gives t (b'e' ∷ []) start (written ++ b'e' ∷ []) rest stack
  unfolding next
  read_int_end a =
      let byte = at_byte b'e' rest a in
      (
        moved t (b'e' ∷ []) (t.current + 1) start t.strlen stack,
        ground (arith, byte, a.stack_is, a.status_is),
        refl,
        refl,
        forward (b'e' ∷ []) rest _ _ _ _ _ _ a (omega arith),
      )

module _ {t : Tokenizer} {written : List ℕ} {stack : ℤ} (rest : List ℕ) where
  pub read_int_digits :
      (c : ℕ) (digits : List ℕ)
      → IsDigit c ⊎ (c ≡ b'-')
      → All IsDigit digits
      → IsAt t int_parse written ((c ∷ digits) ++ b'e' ∷ rest) stack
      → Gives t (c ∷ digits) int_end (written ++ c ∷ digits) (b'e' ∷ rest) stack
  unfolding next
  read_int_digits c digits h all a =
      let byte = at_byte c (digits ++ b'e' ∷ rest) a in
      let after = at_rest_suc c (digits ++ b'e' ∷ rest) a in
      let run = skip_digits-append digits b'e' rest (t.current + 1) all refl in
      let range = at_range (c ∷ digits) (b'e' ∷ rest) a in
      let e : t.current + 1 + length digits - t.current ≡ length (c ∷ digits) = omega arith in
      (
        moved t (c ∷ digits) (t.current + 1 + length digits) int_end t.strlen stack,
        ground (arith, byte, after, run, range, e, a.stack_is, a.status_is),
        refl,
        refl,
        forward (c ∷ digits) (b'e' ∷ rest) _ _ _ _ _ _ a (omega arith),
      )

  pub read_str_start :
      (n d : ℕ) (digits : List ℕ)
      → n < 2 ^ 63
      → decimal n ≡ d ∷ digits
      → IsDigit d
      → IsAt t start written (decimal n ++ b':' ∷ rest) stack
      → (u : Tokenizer) × (next t ≡ ok (u, tokenizer_ok))
        × (u.token ≡ b's' ∷ [])
        × (u.token_size ≡ 1)
        × IsAt u str_parse (written ++ (decimal n ++ b':' ∷ [])) rest stack
        × (u.strlen ≡ n)
  unfolding next
  read_str_start n d digits small e h a =
      let first : decimal n ++ b':' ∷ rest ≡ d ∷ (digits ++ b':' ∷ rest) = rw e in
      let a' : IsAt t start written (d ∷ (digits ++ b':' ∷ rest)) stack = rw first at a in
      let byte = at_byte d (digits ++ b':' ∷ rest) a' in
      let left = at_left (d ∷ (digits ++ b':' ∷ rest)) a' in
      let scanned =
        rw (← at_rest (decimal n ++ b':' ∷ rest) a) at
          (strtol-decimal n b':' rest t.current small refl) in
      let a'' : IsAt t start written ((decimal n ++ b':' ∷ []) ++ rest) stack = rw append_assoc a in
      let colon = at_byte_after (decimal n) b':' rest a in
      (
        moved t (b's' ∷ []) (t.current + length (decimal n) + 1) str_parse n stack,
        ground (arith, byte, left, scanned, colon, a.stack_is, a.status_is),
        refl,
        refl,
        forward (decimal n ++ b':' ∷ []) rest _ _ _ _ _ _ a''
            (omega (arith, length-append (decimal n) (b':' ∷ []))),
        refl,
      )

  pub read_str_parse :
      (s : List ℕ)
      → IsAt t str_parse written (s ++ rest) stack
      → t.strlen ≡ length s
      → Gives t s start (written ++ s) rest stack
  unfolding next
  read_str_parse s a e =
      let range = at_range s rest a in
      (
        moved t s (t.current + length s) start t.strlen stack,
        ground (arith, range, e, a.stack_is, a.status_is),
        refl,
        refl,
        forward s rest _ _ _ _ _ _ a refl,
      )
