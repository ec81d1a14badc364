-- ===== src/Tokenizer/RoundTrip/Place.antt =====
-- Where the tokenizer stands in given bytes.
use btb.Base.{
  ℕ, ◌+◌, ◌-◌, ◌≡◌, refl, ap, sym, ◌∙◌, List, [], ◌∷◌, ◌++◌, some, ok, arith, length, get_elem?,
  drop, read_range, ℤ, append_assoc, length-append, get_elem?-head, drop-length_append,
  read_range-append,
}
use btb.Tokenizer.{Tokenizer, Status, next, tokenizer_ok}
use btb.Tokenizer.Bencode.{Token}

-- The tokenizer has consumed `written`, and `unread` lies ahead.
pub record IsAt (t : Tokenizer) (status : Status) (written unread : List ℕ) (stack : ℤ)
    : Type 0 where
  pub status_is : t.status_fn ≡ status
  pub content : t.bytes ≡ written ++ unread
  pub here : t.current ≡ length written
  pub sized : t.data_size ≡ length t.bytes
  pub stack_is : t.list_dict_stack ≡ stack

-- Successive calls of `next` succeed with these tokens.
pub data Reads : Tokenizer → List Token → Tokenizer → Type 0 where
  stop : {t : Tokenizer} → Reads t [] t
  more :
      {t u v : Tokenizer} {tok : Token} {toks : List Token}
      → next t ≡ ok (u, tokenizer_ok)
      → u.token ≡ tok
      → u.token_size ≡ length tok
      → Reads u toks v
      → Reads t (tok ∷ toks) v

pub Reads-append :
    {t u v : Tokenizer} {xs ys : List Token} → Reads t xs u → Reads u ys v → Reads t (xs ++ ys) v
Reads-append stop s = s
Reads-append (more e k l r) s = more e k l (Reads-append r s)

module _ {t : Tokenizer} {status : Status} {written : List ℕ} {stack : ℤ} where
  pub at_byte :
      (b : ℕ) (rest : List ℕ)
      → IsAt t status written (b ∷ rest) stack
      → get_elem? t.bytes t.current ≡ some b
  at_byte b rest a = rw (a.content, a.here) (get_elem?-head written b rest)

  pub at_left :
      (unread : List ℕ)
      → IsAt t status written unread stack
      → t.data_size - t.current ≡ length unread
  at_left unread a =
      omega (arith, a.here, a.sized, ap length a.content, length-append written unread)

  pub at_rest :
      (unread : List ℕ) → IsAt t status written unread stack → drop t.current t.bytes ≡ unread
  at_rest unread a = rw (a.content, a.here) (drop-length_append written unread)

  pub at_range :
      (bytes rest : List ℕ)
      → IsAt t status written (bytes ++ rest) stack
      → read_range t.bytes t.current (length bytes) ≡ ok bytes
  at_range bytes rest a = rw (a.content, a.here) (read_range-append written bytes rest)

  -- Past some bytes.
  pub forward :
      (bytes rest : List ℕ) (tok : Token) (size n : ℕ) (next_status : Status) (depth : ℤ) (q : ℕ)
      → IsAt t status written (bytes ++ rest) stack
      → q ≡ t.current + length bytes
      → IsAt
          (record t {
            token = tok;
            token_size = size;
            current = q;
            status_fn = next_status;
            strlen = n;
            list_dict_stack = depth;
          })
          next_status
          (written ++ bytes)
          rest
          depth
  forward bytes rest tok size n next_status depth q a e = record {
    status_is = refl;
    content = a.content ∙ sym (append_assoc written bytes rest);
    here = omega (arith, e, a.here, length-append written bytes);
    sized = a.sized;
    stack_is = refl;
  }

abbrev pub moved : Tokenizer → Token → ℕ → Status → ℕ → ℤ → Tokenizer
moved t tok q status n depth = record t {
  token = tok;
  token_size = length tok;
  current = q;
  status_fn = status;
  strlen = n;
  list_dict_stack = depth;
}

module _ {t : Tokenizer} {status : Status} {written : List ℕ} {stack : ℤ} where
  -- Behind the first byte.
  pub at_rest_suc :
      (c : ℕ) (unread : List ℕ)
      → IsAt t status written (c ∷ unread) stack
      → drop (t.current + 1) t.bytes ≡ unread
  at_rest_suc c unread a =
      let e : t.current + 1 ≡ length (written ++ c ∷ []) =
        omega (arith, a.here, length-append written (c ∷ [])) in
      let f : t.bytes ≡ (written ++ c ∷ []) ++ unread =
        a.content ∙ sym (append_assoc written (c ∷ []) unread) in
      rw (e, f) (drop-length_append (written ++ c ∷ []) unread)

  -- The byte behind some others.
  pub at_byte_after :
      (bytes : List ℕ) (b : ℕ) (rest : List ℕ)
      → IsAt t status written (bytes ++ b ∷ rest) stack
      → get_elem? t.bytes (t.current + length bytes) ≡ some b
  at_byte_after bytes b rest a =
      let e : t.current + length bytes ≡ length (written ++ bytes) =
        omega (arith, a.here, length-append written bytes) in
      let f : t.bytes ≡ (written ++ bytes) ++ b ∷ rest =
        a.content ∙ sym (append_assoc written bytes (b ∷ rest)) in
      rw (e, f) (get_elem?-head (written ++ bytes) b rest)
