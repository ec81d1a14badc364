-- ===== src/Tokenizer/Invariant.antt =====
-- Every call of `next` stays inside the data, and every token uses some of it up.
use btb.Base.{
  ℕ, zero, suc, ◌+◌, ◌-◌, ◌*◌, ◌≤◌, ◌<◌, ◌≡◌, refl, Bool, true, false, List, [], ◌∷◌, none, some,
  ok, arith, length, get_elem?, drop, take, ◌==◌, ◌⊎◌, inl, inr, length-drop, length-take,
  if◌then◌else◌, Result-cases, Option-cases, ◌||◌,
}
use btb.Tokenizer.Scan.{is_digit, is_space, skip_digits, decimal_prefix, strtol}
use btb.Tokenizer.{
  Tokenizer, Status, start, end, error, int_start, int_parse, int_end, str_start, str_parse,
  list_dict_start, list_dict_end, next, next_in, tokenize_start, tokenize_start_loop, tokenize_end,
  tokenize_error, tokenize_int_start, tokenize_int_parse, tokenize_int_end, tokenize_str_start,
  tokenize_str_parse, tokenize_list_dict_start, tokenize_list_dict_end, tokenizer_ok, go_error,
}

-- The pointer is inside the data or just behind it, and the token has its stated size.
pub record IsTokenizer (t : Tokenizer) : Type 0 where
  pub sized : length t.bytes ≡ t.data_size
  pub inside : t.current ≤ t.data_size
  pub token_sized : length t.token ≡ t.token_size

-- A token may be empty, so the states that allow one count extra.
abbrev rank : Status → ℕ
rank int_parse = 1
rank str_parse = 1
rank _ = 0

-- How many tokens the tokenizer may still give.
abbrev pub measure : Tokenizer → ℕ
measure t = 2 * (t.data_size - t.current) + rank t.status_fn

-- What holds of the tokenizer `u` that a call from `t` leaves.
pub record After (t u : Tokenizer) (code : ℕ) : Type 0 where
  pub valid : IsTokenizer u
  pub same_bytes : u.bytes ≡ t.bytes
  pub same_size : u.data_size ≡ t.data_size
  pub onward : t.current ≤ u.current
  pub falls : code ≡ tokenizer_ok → measure u < measure t

get_elem?_bound : (xs : List ℕ) (i : ℕ) → (get_elem? xs i ≡ none) ⊎ (i < length xs)
get_elem?_bound [] i = inl refl
get_elem?_bound (x ∷ xs) zero = inr (omega arith)
get_elem?_bound (x ∷ xs) (suc i) = ground (arith, get_elem?_bound xs i)

-- A scan of digits ends inside the block.
skip_digits_bound :
    (rest : List ℕ) (p q : ℕ) → skip_digits rest p ≡ ok q → (p ≤ q) × (q < p + length rest)
unfolding skip_digits
skip_digits_bound [] p q e = cc
skip_digits_bound (b ∷ rest) p q e = ground (arith, skip_digits_bound rest (p + 1) q)

decimal_prefix_bound :
    (rest : List ℕ) (v p v' q : ℕ)
    → decimal_prefix rest v p ≡ ok (v', q)
    → (p ≤ q) × (q < p + length rest)
unfolding decimal_prefix
decimal_prefix_bound [] v p v' q e = cc
decimal_prefix_bound (b ∷ rest) v p v' q e =
    ground (arith, decimal_prefix_bound rest (10 * v + (b - b'0')) (p + 1) v' q)

strtol_bound :
    (rest : List ℕ) (p v q : ℕ) → strtol rest p ≡ ok (v, q) → (p ≤ q) × (q < p + length rest)
unfolding strtol
strtol_bound rest p v q e = elim (Result-cases (decimal_prefix rest 0 p)) [
  | inl (inl ((v', q'), d)) ↦ ground (arith, d, decimal_prefix_bound rest 0 p v' q')
  | inl (inr d) ↦ ground (arith, d)
  | inr d ↦ ground (arith, d)
]

length_range :
    (xs : List ℕ) (from n : ℕ) → from + n ≤ length xs → length (take n (drop from xs)) ≡ n
length_range xs from n h = omega (arith, length-take n (drop from xs), length-drop from xs)

module _ (t u : Tokenizer) (code : ℕ) (v : IsTokenizer t) where
  tokenize_end-After : tokenize_end t ≡ ok (u, code) → After t u code
  unfolding tokenize_end
  tokenize_end-After e = ground arith

  tokenize_error-After : tokenize_error t ≡ ok (u, code) → After t u code
  unfolding tokenize_error
  tokenize_error-After e = ground arith

  go_error-After : go_error t ≡ ok (u, code) → After t u code
  unfolding go_error
  go_error-After e = ground arith

  tokenize_int_start-After : tokenize_int_start t ≡ ok (u, code) → After t u code
  unfolding tokenize_int_start
  tokenize_int_start-After e = ground (arith, get_elem?_bound t.bytes t.current)

  tokenize_int_end-After : tokenize_int_end t ≡ ok (u, code) → After t u code
  unfolding tokenize_int_end
  tokenize_int_end-After e = ground (arith, get_elem?_bound t.bytes t.current)

  tokenize_list_dict_start-After : tokenize_list_dict_start t ≡ ok (u, code) → After t u code
  unfolding tokenize_list_dict_start
  tokenize_list_dict_start-After e = ground (arith, get_elem?_bound t.bytes t.current)

  tokenize_list_dict_end-After : tokenize_list_dict_end t ≡ ok (u, code) → After t u code
  unfolding tokenize_list_dict_end
  tokenize_list_dict_end-After e = ground (arith, get_elem?_bound t.bytes t.current)

  tokenize_str_parse-After :
      t.status_fn ≡ str_parse → tokenize_str_parse t ≡ ok (u, code) → After t u code
  unfolding tokenize_str_parse
  tokenize_str_parse-After s e = ground (arith, length_range t.bytes t.current t.strlen)

  tokenize_int_parse_from :
      (b p : ℕ)
      → t.status_fn ≡ int_parse
      → get_elem? t.bytes t.current ≡ some b
      → (if is_digit b || b == b'-' then t.current + 1 else t.current) ≡ p
      → tokenize_int_parse t ≡ ok (u, code)
      → After t u code
  unfolding tokenize_int_parse
  tokenize_int_parse_from b p s at start_at e =
      elim (Result-cases (skip_digits (drop p t.bytes) p)) [
        | inl (inl (q, d)) ↦ ground (
          arith,
          skip_digits_bound (drop p t.bytes) p q d,
          length-drop p t.bytes,
          length_range t.bytes t.current (q - t.current),
        )
        | inl (inr d) ↦ ground arith
        | inr d ↦ ground arith
      ]

  tokenize_int_parse-After :
      t.status_fn ≡ int_parse → tokenize_int_parse t ≡ ok (u, code) → After t u code
  tokenize_int_parse-After s e = elim (Option-cases (get_elem? t.bytes t.current)) [
    | inl gone ↦ unfold tokenize_int_parse in ground arith
    | inr (b, at) ↦ tokenize_int_parse_from b _ s at refl e
  ]

  tokenize_str_start-After : tokenize_str_start t ≡ ok (u, code) → After t u code
  unfolding tokenize_str_start
  tokenize_str_start-After e = elim (Result-cases (strtol (drop t.current t.bytes) t.current)) [
    | inl (inl ((value, q), d)) ↦ ground (
      arith,
      strtol_bound (drop t.current t.bytes) t.current value q d,
      length-drop t.current t.bytes,
      get_elem?_bound t.bytes q,
    )
    | inl (inr d) ↦ ground arith
    | inr d ↦ ground arith
  ]

with_status :
    {t : Tokenizer} (s : Status) → IsTokenizer t → IsTokenizer (record t { status_fn = s })
with_status s v = record { sized = v.sized; inside = v.inside; token_sized = v.token_sized }

skipped :
    {t : Tokenizer}
    → IsTokenizer t
    → t.current < t.data_size
    → IsTokenizer (record t { current = t.current + 1 })
skipped v h = record { sized = v.sized; inside = omega arith; token_sized = v.token_sized }

-- The states that `tokenize_start` goes through have no extra count.
After-start :
    (t u : Tokenizer) (code : ℕ) (s : Status)
    → rank s ≡ 0
    → After (record t { status_fn = s }) u code
    → After t u code
After-start t u code s r a = record {
  valid = a.valid;
  same_bytes = a.same_bytes;
  same_size = a.same_size;
  onward = a.onward;
  falls = λ h. omega (arith, a.falls h, r);
}

After-skip :
    (t u : Tokenizer) (code : ℕ)
    → t.current < t.data_size
    → After (record t { current = t.current + 1 }) u code
    → After t u code
After-skip t u code h a = record {
  valid = a.valid;
  same_bytes = a.same_bytes;
  same_size = a.same_size;
  onward = omega (arith, a.onward);
  falls = λ c. omega (arith, a.falls c);
}

if_cases {ℓ κ} :
    {A : Type ℓ} {X : Type κ} (c : Bool) {x y r : A}
    → (if c then x else y) ≡ r
    → (x ≡ r → X)
    → (y ≡ r → X)
    → X
if_cases true h f g = f h
if_cases false h f g = g h

-- The whitespace that is skipped is progress too.
tokenize_start_loop-After :
    (left : ℕ) (t u : Tokenizer) (code : ℕ)
    → IsTokenizer t
    → tokenize_start_loop left t ≡ ok (u, code)
    → After t u code
unfolding tokenize_start_loop
tokenize_start_loop-After zero t u code v e = ground (
  arith,
  go_error-After t u code v,
  After-start t u code end refl,
  tokenize_end-After (record t { status_fn = end }) u code (with_status end v),
)
tokenize_start_loop-After (suc left) t u code v e =
    elim (Option-cases (get_elem? t.bytes t.current)) [
      | inl gone ↦ ground arith
      | inr (b, at) ↦
          let room : t.current < t.data_size =
            ground (arith, get_elem?_bound t.bytes t.current, v.sized) in
          if_cases (b == b'i') (rw at at e)
            (λ d. After-start t u code int_start refl (
              tokenize_int_start-After (record t { status_fn = int_start }) u code
                (with_status int_start v) d))
            λ e.
              if_cases (is_digit b) e
                (λ d. After-start t u code str_start refl (
                  tokenize_str_start-After (record t { status_fn = str_start }) u code
                    (with_status str_start v) d))
                λ e.
                  if_cases (b == b'l' || b == b'd') e
                    (λ d. After-start t u code list_dict_start refl (
                      tokenize_list_dict_start-After (record t { status_fn = list_dict_start }) u
                        code (with_status list_dict_start v) d))
                    λ e.
                      if_cases (b == b'e') e
                        (λ d. After-start t u code list_dict_end refl (
                          tokenize_list_dict_end-After (record t { status_fn = list_dict_end }) u
                            code (with_status list_dict_end v) d))
                        λ e.
                          if_cases (is_space b) e
                            (λ d. After-skip t u code room (
                              tokenize_start_loop-After left (record t { current = t.current + 1 })
                                u code (skipped v room) d))
                            (go_error-After t u code v)
    ]

-- From a valid tokenizer, every call of `next` that returns leaves a valid tokenizer over the same
-- data, its pointer inside the data and no further back, and a call that hands out a token lowers
-- the bound on the tokens to come.
pub next-After :
    (t u : Tokenizer) (code : ℕ) → IsTokenizer t → next t ≡ ok (u, code) → After t u code
next-After t u code v e = by_status t.status_fn refl (unfold next in e)
  where
    by_status : (s : Status) → t.status_fn ≡ s → next_in s t ≡ ok (u, code) → After t u code
    by_status start h e =
        tokenize_start_loop-After (t.data_size - t.current) t u code v
          (unfold next_in tokenize_start in e)
    by_status end h e = tokenize_end-After t u code v (unfold next_in in e)
    by_status error h e = tokenize_error-After t u code v (unfold next_in in e)
    by_status int_start h e = tokenize_int_start-After t u code v (unfold next_in in e)
    by_status int_parse h e = tokenize_int_parse-After t u code v h (unfold next_in in e)
    by_status int_end h e = tokenize_int_end-After t u code v (unfold next_in in e)
    by_status str_start h e = tokenize_str_start-After t u code v (unfold next_in in e)
    by_status str_parse h e = tokenize_str_parse-After t u code v h (unfold next_in in e)
    by_status list_dict_start h e = tokenize_list_dict_start-After t u code v (unfold next_in in e)
    by_status list_dict_end h e = tokenize_list_dict_end-After t u code v (unfold next_in in e)
