-- ===== src/Tokenizer/Codes.antt =====
-- The codes that `next` returns.
use btb.Tokenizer.{
  Tokenizer, Status, start, end, error, int_start, int_parse, int_end, str_start, str_parse,
  list_dict_start, list_dict_end, next, next_in, tokenize_start, tokenize_start_loop, tokenize_end,
  tokenize_error, tokenize_int_start, tokenize_int_parse, tokenize_int_end, tokenize_str_start,
  tokenize_str_parse, tokenize_list_dict_start, tokenize_list_dict_end, go_error,
  tokenizer_malformed_string,
}
use btb.Tokenizer.Scan.{is_digit, is_space, skip_digits, strtol}
use btb.Base.{
  ℕ, zero, suc, ◌+◌, ◌-◌, ◌≤◌, ◌≡◌, Bool, Result, ok, IsWhenOk, >>=-IsWhenOk, IsWhenOk-ok, ◌==◌,
  ◌||◌, read, read_range, drop, is_negative, if◌then◌else◌, is_positive, arith, true, false, refl,
  ◌∙◌,
}

abbrev IsCode : Tokenizer × ℕ → Type 0
IsCode (t, code) = (code ≤ 2) × (code ≡ tokenizer_malformed_string → t.status_fn ≡ error)

if-IsCode :
    (b : Bool) (r r' : Result (Tokenizer × ℕ))
    → IsWhenOk IsCode r
    → IsWhenOk IsCode r'
    → IsWhenOk IsCode (if b then r else r')
if-IsCode true r r' p p' = p
if-IsCode false r r' p p' = p'

go_error-IsCode : (t : Tokenizer) → IsWhenOk IsCode (go_error t)
unfolding go_error tokenize_error
go_error-IsCode t = (omega arith, λ e. refl)

module _ (t : Tokenizer) where
  tokenize_int_start-IsCode : IsWhenOk IsCode (tokenize_int_start t)
  unfolding tokenize_int_start
  tokenize_int_start-IsCode = >>=-IsWhenOk IsCode (read t.bytes t.current) _ λ b e.
      if-IsCode (b == b'i') _ _ (omega arith, λ malformed. absurd (omega (arith, malformed)))
        (go_error-IsCode t)

  tokenize_int_parse-IsCode : IsWhenOk IsCode (tokenize_int_parse t)
  unfolding tokenize_int_parse
  tokenize_int_parse-IsCode = >>=-IsWhenOk IsCode (read t.bytes t.current) _ λ b e.
      let p = if is_digit b || b == b'-' then t.current + 1 else t.current in
      >>=-IsWhenOk IsCode (skip_digits (drop p t.bytes) p) _ λ q e'.
        >>=-IsWhenOk IsCode (read_range t.bytes t.current (q - t.current)) _
          λ bytes e''. (omega arith, λ malformed. absurd (omega (arith, malformed)))

  tokenize_int_end-IsCode : IsWhenOk IsCode (tokenize_int_end t)
  unfolding tokenize_int_end
  tokenize_int_end-IsCode = >>=-IsWhenOk IsCode (read t.bytes t.current) _ λ b e.
      if-IsCode (b == b'e') _ _ (omega arith, λ malformed. absurd (omega (arith, malformed)))
        (go_error-IsCode t)

  tokenize_str_start-IsCode : IsWhenOk IsCode (tokenize_str_start t)
  unfolding tokenize_str_start
  tokenize_str_start-IsCode =
      >>=-IsWhenOk IsCode (strtol (drop t.current t.bytes) t.current) _ λ (value, after) e.
        >>=-IsWhenOk IsCode (read t.bytes after) _ λ b e'.
          if-IsCode (b == b':') _ _ (omega arith, λ malformed. absurd (omega (arith, malformed)))
            (go_error-IsCode (record t { strlen = value; current = after }))

  tokenize_str_parse-IsCode : IsWhenOk IsCode (tokenize_str_parse t)
  unfolding tokenize_str_parse
  tokenize_str_parse-IsCode =
      >>=-IsWhenOk IsCode (read_range t.bytes t.current t.strlen) _
        λ bytes e. (omega arith, λ malformed. absurd (omega (arith, malformed)))

  tokenize_list_dict_start-IsCode : IsWhenOk IsCode (tokenize_list_dict_start t)
  unfolding tokenize_list_dict_start
  tokenize_list_dict_start-IsCode = >>=-IsWhenOk IsCode (read t.bytes t.current) _ λ b e.
      if-IsCode (b == b'l' || b == b'd') _ _
        (omega arith, λ malformed. absurd (omega (arith, malformed))) (go_error-IsCode t)

  tokenize_list_dict_end-IsCode : IsWhenOk IsCode (tokenize_list_dict_end t)
  unfolding tokenize_list_dict_end
  tokenize_list_dict_end-IsCode =
      let t' = if is_negative t.list_dict_stack then record t { status_fn = error } else t in
      >>=-IsWhenOk IsCode (read t'.bytes t'.current) _ λ b e.
        if-IsCode (b == b'e') _ _ (omega arith, λ malformed. absurd (omega (arith, malformed)))
          (go_error-IsCode t')

tokenize_start_loop-IsCode :
    (left : ℕ) (t : Tokenizer) → IsWhenOk IsCode (tokenize_start_loop left t)
unfolding tokenize_start_loop tokenize_end
tokenize_start_loop-IsCode zero t =
    if-IsCode (t.current == t.data_size) _ _
      (if-IsCode (is_positive t.list_dict_stack) _ _ (go_error-IsCode t)
        (omega arith, λ malformed. absurd (omega (arith, malformed))))
      tt
tokenize_start_loop-IsCode (suc left) t = >>=-IsWhenOk IsCode (read t.bytes t.current) _ λ b e.
    if-IsCode (b == b'i') _ _ (tokenize_int_start-IsCode (record t { status_fn = int_start })) (
      if-IsCode (is_digit b) _ _ (tokenize_str_start-IsCode (record t { status_fn = str_start })) (
        if-IsCode (b == b'l' || b == b'd') _ _
          (tokenize_list_dict_start-IsCode (record t { status_fn = list_dict_start }))
          (if-IsCode (b == b'e') _ _
            (tokenize_list_dict_end-IsCode (record t { status_fn = list_dict_end }))
            (if-IsCode (is_space b) _ _
              (tokenize_start_loop-IsCode left (record t { current = t.current + 1 }))
              (go_error-IsCode t)))))

next_in-IsCode : (s : Status) (t : Tokenizer) → t.status_fn ≡ s → IsWhenOk IsCode (next_in s t)
unfolding next_in tokenize_start tokenize_end tokenize_error
next_in-IsCode start t e = tokenize_start_loop-IsCode (t.data_size - t.current) t
next_in-IsCode end t e = (omega arith, λ malformed. absurd (omega (arith, malformed)))
next_in-IsCode error t e = (omega arith, λ malformed. e)
next_in-IsCode int_start t e = tokenize_int_start-IsCode t
next_in-IsCode int_parse t e = tokenize_int_parse-IsCode t
next_in-IsCode int_end t e = tokenize_int_end-IsCode t
next_in-IsCode str_start t e = tokenize_str_start-IsCode t
next_in-IsCode str_parse t e = tokenize_str_parse-IsCode t
next_in-IsCode list_dict_start t e = tokenize_list_dict_start-IsCode t
next_in-IsCode list_dict_end t e = tokenize_list_dict_end-IsCode t

next-IsCode : (t u : Tokenizer) (code : ℕ) → next t ≡ ok (u, code) → IsCode (u, code)
unfolding next
next-IsCode t u code e =
    IsWhenOk-ok IsCode (next_in t.status_fn t) (next_in-IsCode t.status_fn t refl) e

-- After a malformed string the tokenizer is in its error state.
pub next-error :
    (t u : Tokenizer) → next t ≡ ok (u, tokenizer_malformed_string) → u.status_fn ≡ error
next-error t u e = (next-IsCode t u tokenizer_malformed_string e).1 refl

next_in-error :
    (s : Status) (t u : Tokenizer) (code : ℕ)
    → s ≡ error
    → next_in s t ≡ ok (u, code)
    → (code ≡ tokenizer_malformed_string) × (u.status_fn ≡ t.status_fn)
unfolding next_in tokenize_error
next_in-error error t u code e r = ground arith
next_in-error start t u code e r = cc
next_in-error end t u code e r = cc
next_in-error int_start t u code e r = cc
next_in-error int_parse t u code e r = cc
next_in-error int_end t u code e r = cc
next_in-error str_start t u code e r = cc
next_in-error str_parse t u code e r = cc
next_in-error list_dict_start t u code e r = cc
next_in-error list_dict_end t u code e r = cc

-- The error state is not left.
pub next-stuck :
    (t u : Tokenizer) (code : ℕ)
    → t.status_fn ≡ error
    → next t ≡ ok (u, code)
    → (code ≡ tokenizer_malformed_string) × (u.status_fn ≡ error)
unfolding next
next-stuck t u code e r = let (c, same) = next_in-error t.status_fn t u code e r in (c, same ∙ e)

-- A call that returns gives TOKENIZER_OK, TOKENIZER_END or TOKENIZER_MALFORMED_STRING.
pub next-le : (t u : Tokenizer) (code : ℕ) → next t ≡ ok (u, code) → code ≤ 2
next-le t u code e = (next-IsCode t u code e).0
