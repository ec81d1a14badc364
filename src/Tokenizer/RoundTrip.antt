-- ===== src/Tokenizer/RoundTrip.antt =====
-- The tokenizer hands out the tokens of every encoded value.
pub mod Place
pub mod Steps
pub mod Scalars
use Place.{IsAt, Reads, stop, more, at_left}
use Scalars.{Parses, Parses-more, Parses-append, read_integer, read_string}
use Steps.{read_open, read_close, Gives}
use btb.Base.{
  ℕ, zero, suc, ◌+◌, ◌-◌, ◌^◌, ◌<◌, ◌≤◌, ◌≡◌, refl, sym, ap, ◌∙◌, List, [], ◌∷◌, ◌++◌, append_assoc,
  append-nil, ℤ, pos, incr, decr, ok, length, inl, inr, arith, read_range_all, Result, ==_refl,
  is_positive, false,
}
use btb.Tokenizer.{Tokenizer, start, end, next, init_tokenizer, tokenizer_end, tokenize_start_loop}
use btb.Tokenizer.Bencode.{
  Value, integer, string, list, dict, Items, nil, cons, Entries, done, entry, encode, encode_items,
  encode_entries, encode_string, tokens, tokens_items, tokens_entries, string_tokens, IsValue,
  AreItems, AreEntries,
}

decr-incr : (z : ℤ) → decr (incr z) ≡ z
decr-incr z = ground arith

-- A bracketed run of values: the opening byte, what `inside` reads, the closing byte.
read_brackets :
    (t : Tokenizer) (b : ℕ) (written body rest : List ℕ) (toks : List (List ℕ)) (stack : ℤ)
    → Gives t (b ∷ []) start (written ++ b ∷ []) (body ++ b'e' ∷ rest) (incr stack)
    → ((u : Tokenizer)
        → IsAt u start (written ++ b ∷ []) (body ++ b'e' ∷ rest) (incr stack)
        → Parses u toks ((written ++ b ∷ []) ++ body) (b'e' ∷ rest) (incr stack))
    → Parses t ((b ∷ []) ∷ toks ++ (b'e' ∷ []) ∷ []) (written ++ (b ∷ body ++ b'e' ∷ [])) rest stack
read_brackets t b written body rest toks stack opened inside =
    let whole : ((written ++ b ∷ []) ++ body) ++ b'e' ∷ [] ≡ written ++ (b ∷ body ++ b'e' ∷ []) =
      simp append_assoc in
    rw (← whole) (
      Parses-more t (b ∷ []) (toks ++ (b'e' ∷ []) ∷ []) start (written ++ b ∷ []) _
        (body ++ b'e' ∷ rest) rest (incr stack) stack opened
        λ u a.
          Parses-append u toks ((b'e' ∷ []) ∷ []) ((written ++ b ∷ []) ++ body) _ (b'e' ∷ rest) rest
            (incr stack) stack (inside u a)
            λ v c.
              let (w, e, k, l, d) = read_close rest c in
              (w, more e k l stop, rw (decr-incr stack) at d))

mutual
  unfolding encode encode_items encode_entries tokens tokens_items tokens_entries IsValue AreItems
      AreEntries

  parse_value :
      (v : Value) (t : Tokenizer) (written rest : List ℕ) (stack : ℤ)
      → IsValue v
      → IsAt t start written (encode v ++ rest) stack
      → Parses t (tokens v) (written ++ encode v) rest stack
  parse_value (integer negative digits) t written rest stack h a =
      read_integer t written rest stack negative digits h a
  parse_value (string s) t written rest stack h a = read_string t written s rest stack h a
  parse_value (list items) t written rest stack h a =
      read_brackets t b'l' written (encode_items items) rest (tokens_items items) stack
        (read_open (encode_items items ++ b'e' ∷ rest) b'l' (inl refl)
          (rw (append_assoc (encode_items items) (b'e' ∷ []) rest) at a))
        (λ u b. parse_items items u (written ++ b'l' ∷ []) (b'e' ∷ rest) (incr stack) h b)
  parse_value (dict entries) t written rest stack h a =
      read_brackets t b'd' written (encode_entries entries) rest (tokens_entries entries) stack
        (read_open (encode_entries entries ++ b'e' ∷ rest) b'd' (inr refl)
          (rw (append_assoc (encode_entries entries) (b'e' ∷ []) rest) at a))
        (λ u b. parse_entries entries u (written ++ b'd' ∷ []) (b'e' ∷ rest) (incr stack) h b)

  parse_items :
      (items : Items) (t : Tokenizer) (written rest : List ℕ) (stack : ℤ)
      → AreItems items
      → IsAt t start written (encode_items items ++ rest) stack
      → Parses t (tokens_items items) (written ++ encode_items items) rest stack
  parse_items nil t written rest stack h a = (t, stop, rw append-nil a)
  parse_items (cons v items) t written rest stack h a =
      rw (← append_assoc written (encode v) (encode_items items)) (
        Parses-append t (tokens v) (tokens_items items) (written ++ encode v) _
          (encode_items items ++ rest) rest stack stack
          (parse_value v t written (encode_items items ++ rest) stack h.0
            (rw (append_assoc (encode v) (encode_items items) rest) at a))
          λ u b. parse_items items u (written ++ encode v) rest stack h.1 b)

  parse_entries :
      (entries : Entries) (t : Tokenizer) (written rest : List ℕ) (stack : ℤ)
      → AreEntries entries
      → IsAt t start written (encode_entries entries ++ rest) stack
      → Parses t (tokens_entries entries) (written ++ encode_entries entries) rest stack
  parse_entries done t written rest stack h a = (t, stop, rw append-nil a)
  parse_entries (entry key v entries) t written rest stack h a =
      let whole : ((written ++ encode_string key) ++ encode v) ++ encode_entries entries
          ≡ written ++ (encode_string key ++ (encode v ++ encode_entries entries)) =
        simp append_assoc in
      rw (← whole) (
        Parses-append t (string_tokens key) (tokens v ++ tokens_entries entries)
          (written ++ encode_string key) _ ((encode v ++ encode_entries entries) ++ rest) rest stack
          stack
          (read_string t written key ((encode v ++ encode_entries entries) ++ rest) stack h.0
            (rw (append_assoc (encode_string key) (encode v ++ encode_entries entries) rest) at a))
          λ u b.
            Parses-append u (tokens v) (tokens_entries entries)
              ((written ++ encode_string key) ++ encode v) _ (encode_entries entries ++ rest) rest
              stack stack
              (parse_value v u (written ++ encode_string key) (encode_entries entries ++ rest) stack
                h.1 (rw (append_assoc (encode v) (encode_entries entries) rest) at b))
              λ w c.
                parse_entries entries w ((written ++ encode_string key) ++ encode v) rest stack h.2
                  c)

-- `next` on an encoded value, with anything behind it, gives its tokens and stops behind it, with
-- as many open lists and dictionaries as before.
pub read_value :
    (v : Value) (t : Tokenizer) (written rest : List ℕ) (stack : ℤ)
    → IsValue v
    → IsAt t start written (encode v ++ rest) stack
    → Parses t (tokens v) (written ++ encode v) rest stack
read_value v t written rest stack h a = parse_value v t written rest stack h a

abbrev pub fresh : List ℕ → Tokenizer
fresh bytes = record {
  data_size = length bytes;
  bytes = bytes;
  current = 0;
  token_size = 0;
  token = [];
  status_fn = start;
  strlen = 0;
  list_dict_stack = pos 0;
}

pub fresh-IsAt : (bytes : List ℕ) → IsAt (fresh bytes) start [] (bytes ++ []) (pos 0)
fresh-IsAt bytes = record {
  status_is = refl;
  content = sym (append-nil bytes);
  here = refl;
  sized = refl;
  stack_is = refl;
}

-- With nothing unread and no bracket open the end is reported.
pub next_at_end :
    (t : Tokenizer) (written : List ℕ) (stack : ℤ)
    → IsAt t start written [] stack
    → is_positive stack ≡ false
    → (u : Tokenizer) × (next t ≡ ok (u, tokenizer_end))
unfolding next
next_at_end t written stack a closed =
    let left = at_left [] a in
    (
      record t { status_fn = end; token = []; token_size = 0 },
      ground (
        arith,
        closed,
        left,
        a.status_is,
        a.stack_is,
        a.sized,
        a.here,
        ap length a.content,
        append-nil written,
      ),
    )

-- For every Bencode value whose integers have digits and whose strings have a length below 2 ^ 63,
-- a tokenizer made from its encoding hands out by successive calls of `next` exactly the tokens of
-- the value, each with its size, and then reports the end.
pub read_whole :
    (v : Value)
    → IsValue v
    → (t : Tokenizer) × (u : Tokenizer) × (at_end : Tokenizer) × (init_tokenizer
          (encode v)
          (length (encode v))
        ≡ ok t)
      × Reads t (tokens v) u
      × (next u ≡ ok (at_end, tokenizer_end))
unfolding init_tokenizer
read_whole v h =
    let (u, r, a) = read_value v (fresh (encode v)) [] [] (pos 0) h (fresh-IsAt (encode v)) in
    let (at_end, e) = next_at_end u (encode v) (pos 0) a refl in
    (fresh (encode v), u, at_end, rw (read_range_all (encode v) (length (encode v)) refl), r, e)
