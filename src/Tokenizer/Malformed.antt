-- ===== src/Tokenizer/Malformed.antt =====
-- Inputs that are no Bencode: one that is accepted, and one that reads outside the data.
use btb.Base.{
  ℕ, ◌+◌, ◌^◌, ◌<◌, ◌≡◌, refl, List, [], ◌∷◌, ◌++◌, ok, fault, arith, length, ℤ, pos, decr, Bool,
  lt→leb, length-append, leb, ap, append_assoc, append-nil,
}
use btb.Tokenizer.{Tokenizer, next, str_parse, tokenizer_ok, tokenizer_end}
use btb.Tokenizer.Bencode.{Value, IsValue, encode, tokens, decimal}
use btb.Tokenizer.RoundTrip.Place.{IsAt, Reads, Reads-append, more, stop}
use btb.Tokenizer.RoundTrip.Steps.{read_close, read_str_start}
use btb.Tokenizer.RoundTrip.Scalars.{decimal-cons}
use btb.Tokenizer.RoundTrip.{next_at_end, read_value, fresh, fresh-IsAt}

-- The encoding of a value as in the round trip, with a closing byte behind it, is read as the
-- tokens of the value and one more token for that byte, and the end is then reported as for a
-- well-formed input.
pub read_unbalanced :
    (v : Value)
    → IsValue v
    → (u : Tokenizer) × (at_end : Tokenizer) × Reads
        (fresh (encode v ++ b'e' ∷ []))
        (tokens v ++ (b'e' ∷ []) ∷ [])
        u
      × (next u ≡ ok (at_end, tokenizer_end))
read_unbalanced v h =
    let begin =
      rw (append_assoc (encode v) (b'e' ∷ []) []) at (fresh-IsAt (encode v ++ b'e' ∷ [])) in
    let (t, r, a) = read_value v (fresh (encode v ++ b'e' ∷ [])) [] (b'e' ∷ []) (pos 0) h begin in
    let (u, e, k, l, b) = read_close [] a in
    let (at_end, over) = next_at_end u (encode v ++ b'e' ∷ []) (decr (pos 0)) b refl in
    (u, at_end, Reads-append r (more e k l stop), over)

next_outside :
    (t : Tokenizer) (written rest : List ℕ) (stack : ℤ)
    → IsAt t str_parse written rest stack
    → length rest < t.strlen
    → next t ≡ fault
unfolding next
next_outside t written rest stack a short =
    let outside : leb (t.current + t.strlen) (length t.bytes) ≡ Bool.false =
      lt→leb _ _ (omega (arith, a.here, ap length a.content, length-append written rest)) in
    ground (arith, outside, a.status_is)

-- For a string that announces n bytes, n below 2 ^ 63, and is followed by less, the first call of
-- `next` hands out a token and the second is a fault: it copies from behind the data.
pub next_truncated :
    (n : ℕ) (s : List ℕ)
    → n < 2 ^ 63
    → length s < n
    → (u : Tokenizer) × (next (fresh (decimal n ++ b':' ∷ s)) ≡ ok (u, tokenizer_ok))
      × (next u ≡ fault)
next_truncated n s small short =
    let (d, digits, e, h) = decimal-cons n in
    let begin = rw (append-nil (decimal n ++ b':' ∷ s)) at (fresh-IsAt (decimal n ++ b':' ∷ s)) in
    let (u, first, k, l, a, len) =
      read_str_start {t = fresh (decimal n ++ b':' ∷ s)} s n d digits small e h begin in
    (u, first, next_outside u _ s (pos 0) a (omega (arith, len)))
