-- ===== src/Tokenizer.antt =====
-- src/tokenizer.c: a tokenizer of Bencode, as a state machine that `next` drives.
pub mod Scan
pub mod Invariant
pub mod Codes
pub mod Progress
pub mod Malformed
pub mod Bencode
pub mod Decimal
pub mod RoundTrip
use Scan.{is_digit, is_space, skip_digits, strtol}
use btb.Base.{
  ℕ, zero, suc, ◌+◌, ◌-◌, Bool, true, false, ◌||◌, List, [], ◌∷◌, Result, ok, fault, ◌>>=◌, ◌>>◌,
  leb, ◌==◌, if◌then◌else◌, take, drop, read, read_range, ℤ, pos, incr, decr, is_positive,
  is_negative,
}

abbrev pub tokenizer_ok : ℕ
tokenizer_ok = 0

abbrev pub tokenizer_end : ℕ
tokenizer_end = 1

abbrev pub tokenizer_malformed_string : ℕ
tokenizer_malformed_string = 2

-- The functions that `_status_fn` can point to.
pub data Status : Type 0 where
  start end error int_start int_parse int_end str_start str_parse list_dict_start list_dict_end :
      Status

-- `bytes` is the field `data`, and `current` the offset of the pointer into it. `token` is the
-- block at the pointer of that name, with no byte for NULL. `strlen`, a `long`, is never negative.
pub record Tokenizer : Type 0 where
  pub data_size : ℕ
  pub bytes : List ℕ
  pub current : ℕ
  pub token_size : ℕ
  pub token : List ℕ
  pub status_fn : Status
  pub strlen : ℕ
  pub list_dict_stack : ℤ

abbrev Outcome : Type 0
Outcome = Result (Tokenizer × ℕ)

tokenize_end : Tokenizer → Outcome
tokenize_end t = ok (record t { token = []; token_size = 0 }, tokenizer_end)

tokenize_error : Tokenizer → Outcome
tokenize_error t = ok (record t { token = []; token_size = 0 }, tokenizer_malformed_string)

-- `t->_status_fn = &tokenize_error; return t->_status_fn(t);`
go_error : Tokenizer → Outcome
unfolding tokenize_error
go_error t = tokenize_error (record t { status_fn = error })

tokenize_int_start : Tokenizer → Outcome
unfolding go_error
tokenize_int_start t = do
  b ← read t.bytes t.current
  if b == b'i'
      then ok (
        record t { token = b ∷ []; token_size = 1; current = t.current + 1; status_fn = int_parse },
        tokenizer_ok,
      )
      else go_error t

tokenize_int_parse : Tokenizer → Outcome
tokenize_int_parse t = do
  b ← read t.bytes t.current
  let p = if is_digit b || b == b'-' then t.current + 1 else t.current
  q ← skip_digits (drop p t.bytes) p
  bytes ← read_range t.bytes t.current (q - t.current)
  ok (
    record t { token = bytes; token_size = q - t.current; current = q; status_fn = int_end },
    tokenizer_ok,
  )

tokenize_int_end : Tokenizer → Outcome
unfolding go_error
tokenize_int_end t = do
  b ← read t.bytes t.current
  if b == b'e'
      then ok (
        record t { token = b ∷ []; token_size = 1; current = t.current + 1; status_fn = start },
        tokenizer_ok,
      )
      else go_error t

tokenize_str_start : Tokenizer → Outcome
unfolding go_error
tokenize_str_start t = do
  (value, after) ← strtol (drop t.current t.bytes) t.current
  let t' = record t { strlen = value; current = after }
  b ← read t'.bytes t'.current
  if b == b':'
      then ok (
        record t' {
          current = t'.current + 1;
          token = b's' ∷ [];
          token_size = 1;
          status_fn = str_parse;
        },
        tokenizer_ok,
      )
      else go_error t'

tokenize_str_parse : Tokenizer → Outcome
tokenize_str_parse t = do
  bytes ← read_range t.bytes t.current t.strlen
  ok (
    record t {
      token = bytes;
      token_size = t.strlen;
      current = t.current + t.strlen;
      status_fn = start;
    },
    tokenizer_ok,
  )

tokenize_list_dict_start : Tokenizer → Outcome
unfolding go_error
tokenize_list_dict_start t = do
  b ← read t.bytes t.current
  if b == b'l' || b == b'd'
      then ok (
        record t {
          token = b ∷ [];
          token_size = 1;
          current = t.current + 1;
          list_dict_stack = incr t.list_dict_stack;
          status_fn = start;
        },
        tokenizer_ok,
      )
      else go_error t

-- The first test only sets `_status_fn`, which either branch of the second one sets again.
tokenize_list_dict_end : Tokenizer → Outcome
unfolding go_error
tokenize_list_dict_end t = do
  let t' = if is_negative t.list_dict_stack then record t { status_fn = error } else t
  b ← read t'.bytes t'.current
  if b == b'e'
      then ok (
        record t' {
          token = b ∷ [];
          token_size = 1;
          current = t'.current + 1;
          list_dict_stack = decr t'.list_dict_stack;
          status_fn = start;
        },
        tokenizer_ok,
      )
      else go_error t'

-- `tokenize_start` with `left` bytes unread: it calls itself on each whitespace byte.
tokenize_start_loop : ℕ → Tokenizer → Outcome
tokenize_start_loop zero t =
    if t.current == t.data_size
    then (if is_positive t.list_dict_stack
        then go_error t
        else tokenize_end (record t { status_fn = end }))
    else fault
tokenize_start_loop (suc left) t = do
  b ← read t.bytes t.current
  let skip = tokenize_start_loop left (record t { current = t.current + 1 })
  if b == b'i'
      then tokenize_int_start (record t { status_fn = int_start })
      else (if is_digit b
          then tokenize_str_start (record t { status_fn = str_start })
          else (if b == b'l' || b == b'd'
              then tokenize_list_dict_start (record t { status_fn = list_dict_start })
              else (if b == b'e'
                  then tokenize_list_dict_end (record t { status_fn = list_dict_end })
                  else (if is_space b then skip else go_error t))))

tokenize_start : Tokenizer → Outcome
tokenize_start t = tokenize_start_loop (t.data_size - t.current) t

unfoldable pub init_tokenizer : List ℕ → ℕ → Result Tokenizer
init_tokenizer bytes data_size = do
  copy ← read_range bytes 0 data_size
  ok (record {
    data_size = data_size;
    bytes = copy;
    current = 0;
    token_size = 0;
    token = [];
    status_fn = start;
    strlen = 0;
    list_dict_stack = pos 0;
  })

next_in : Status → Tokenizer → Outcome
unfolding tokenize_start tokenize_start_loop go_error tokenize_end tokenize_error tokenize_int_start
    tokenize_int_parse tokenize_int_end tokenize_str_start tokenize_str_parse
    tokenize_list_dict_start tokenize_list_dict_end
next_in start t = tokenize_start t
next_in end t = tokenize_end t
next_in error t = tokenize_error t
next_in int_start t = tokenize_int_start t
next_in int_parse t = tokenize_int_parse t
next_in int_end t = tokenize_int_end t
next_in str_start t = tokenize_str_start t
next_in str_parse t = tokenize_str_parse t
next_in list_dict_start t = tokenize_list_dict_start t
next_in list_dict_end t = tokenize_list_dict_end t

-- The tokenizer after the call, and the code that it returns.
unfoldable pub next : Tokenizer → Result (Tokenizer × ℕ)
unfolding next_in
next t = next_in t.status_fn t
