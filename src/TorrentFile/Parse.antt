-- ===== src/TorrentFile/Parse.antt =====
-- `parse_torrent_file` of src/torrent_file.c: the record is filled from the tokens of the file.
pub mod Entries
pub mod Filled
pub mod Fuel
pub mod Hashes
pub mod Numbers
pub mod Rounds
pub mod Stores
pub mod Tokens
pub mod Whole
use btb.Hash.{bt_hash_length, perform_hash}
use btb.HandshakeMsg.{codes}
use btb.Tokenizer.{
  Tokenizer, init_tokenizer, next, tokenizer_ok, tokenizer_end, tokenizer_malformed_string,
}
use btb.Tokenizer.Scan.{is_digit, is_space}
use btb.TorrentFile.{TorrentFile, init_torrent_file}
use btb.Base.{
  ℕ, zero, suc, ◌+◌, ◌-◌, ◌*◌, ◌/◌, ◌%◌, ◌^◌, Bool, true, false, ◌&&◌, List, [], ◌∷◌, ◌++◌, Option,
  none, some, Result, ok, fault, ◌>>=◌, ◌==◌, leb, if◌then◌else◌, length, drop, min, read_range,
  same_bytes, u64_mod, ℤ, pos, same_int,
}

-- The locals of the loop: the record, where the value of `info` starts, the depth there, its end.
pub record Parse : Type 0 where
  pub tr : TorrentFile
  pub info_start : Option ℕ
  pub info_start_stack_value : ℤ
  pub info_end : Option ℕ

-- What follows a round: the loop goes on, or `ok` is false and the loop is left.
pub data Round : Type 0 where
  on : Tokenizer → Parse → Round
  broken : TorrentFile → Round

-- `tk->token_size == strlen(text) && memcmp(tk->token, text, strlen(text)) == 0`
abbrev pub is_text : List ℕ → Tokenizer → Bool
is_text text tk = tk.token_size == length text && same_bytes tk.token text

-- `memcmp(tk->token, marker, tk->token_size) == 0` against a literal of one byte and its NUL.
pub is_marker : ℕ → Tokenizer → Result Bool
is_marker marker tk = do
  literal ← read_range (marker ∷ 0 ∷ []) 0 tk.token_size
  ok (same_bytes tk.token literal)

-- The next token, or `none` where the code breaks.
unfoldable pub next_token : Tokenizer → Result (Option Tokenizer)
next_token tk = do (tk', err) ← next tk; ok (if err == tokenizer_ok then some tk' else none)

-- The next token must be the marker.
pub next_marker : ℕ → Tokenizer → Result (Option Tokenizer)
unfolding next_token is_marker
next_marker marker tk = do
  after ← next_token tk
  elim after [
    | none ↦ ok none
    | some tk' ↦ do same ← is_marker marker tk'; ok (if same then some tk' else none)
  ]

-- A value of a key: the marker, then the token that holds it.
pub next_value : ℕ → Tokenizer → Result (Option Tokenizer)
unfolding next_marker next_token
next_value marker tk = do
  after ← next_marker marker tk
  elim after [ none ↦ ok none | some tk' ↦ next_token tk' ]

-- The digits of a number at the front; the text ends with a NUL, so no byte behind it is read.
unfoldable pub leading_value : List ℕ → ℕ → ℕ
leading_value [] value = value
leading_value (b ∷ rest) value =
    let on = leading_value rest (10 * value + (b - b'0')) in if is_digit b then on else value

-- The C string that begins the text, for strtoll: digits behind a sign, cut off at the limits of
-- `long long`, and converted to `size_t`.
signed_value : List ℕ → ℕ
unfolding leading_value
signed_value [] = 0
signed_value (b ∷ rest) =
    if b == b'-'
    then (u64_mod - min (leading_value rest 0) (2 ^ 63)) % u64_mod
    else (if b == b'+'
        then min (leading_value rest 0) (2 ^ 63 - 1)
        else min (leading_value (b ∷ rest) 0) (2 ^ 63 - 1))

-- `strtoll(num, NULL, 10)`: spaces in front are skipped.
unfoldable pub strtoll : List ℕ → ℕ
unfolding signed_value
strtoll [] = 0
strtoll (b ∷ rest) =
    let skipped = strtoll rest in if is_space b then skipped else signed_value (b ∷ rest)

-- The hashes that the token holds, one behind the other.
pub copy_hashes : ℕ → ℕ → List ℕ → Result (List (List ℕ))
copy_hashes zero i bytes = ok []
copy_hashes (suc left) i bytes = do
  hash ← read_range bytes (bt_hash_length * i) bt_hash_length
  rest ← copy_hashes left (i + 1) bytes
  ok (hash ∷ rest)

-- How the value of a key is stored.
pub data Field : Type 0 where
  announce_key comment_key name_key length_key piece_length_key pieces_key : Field

abbrev pub marker_of : Field → ℕ
marker_of announce_key = b's'
marker_of comment_key = b's'
marker_of name_key = b's'
marker_of length_key = b'i'
marker_of piece_length_key = b'i'
marker_of pieces_key = b's'

-- The copy of a token ends with a NUL; a `char *` of it is read up to its first one.
pub store_field : Field → Tokenizer → TorrentFile → Result TorrentFile
unfolding strtoll copy_hashes
store_field announce_key tk tr = ok (record tr { announce = some tk.token })
store_field comment_key tk tr = ok (record tr { comment = some tk.token })
store_field name_key tk tr = ok (record tr { name = some tk.token })
store_field length_key tk tr = ok (record tr { length = strtoll tk.token })
store_field piece_length_key tk tr = ok (record tr { piece_length = strtoll tk.token })
store_field pieces_key tk tr = do
  let num_pieces = tk.token_size / bt_hash_length
  hashes ← copy_hashes num_pieces 0 tk.token
  ok (record tr { num_pieces = num_pieces; piece_hashes = hashes })

pub parse_field : Field → Tokenizer → Parse → Result Round
unfolding next_value store_field
parse_field field tk st = do
  after ← next_value (marker_of field) tk
  elim after [
    | none ↦ ok (broken st.tr)
    | some tk' ↦ do tr ← store_field field tk' st.tr; ok (on tk' (record st { tr = tr }))
  ]

pub parse_info : Tokenizer → Parse → Result Round
unfolding next_marker
parse_info tk st = do
  let st' = record st { info_start = some tk.current; info_start_stack_value = tk.list_dict_stack }
  after ← next_marker b'd' tk
  elim after [ none ↦ ok (broken st.tr) | some tk' ↦ ok (on tk' st') ]

-- The test of the branch that ends the value of `info`: where that value starts, if it holds.
pub ends_info : Tokenizer → Parse → Option ℕ
ends_info tk st = elim st.info_start [
  | none ↦ none
  | some from ↦ elim st.info_end [
    | some last ↦ none
    | none ↦
        if same_int st.info_start_stack_value tk.list_dict_stack && is_text (b'e' ∷ []) tk
        then some from
        else none
  ]
]

pub parse_info_end : (List ℕ → List ℕ) → ℕ → Tokenizer → Parse → Result Round
unfolding next_token
parse_info_end sha1 from tk st = do
  let last = tk.current - 1
  after ← next_token tk
  elim after [
    | none ↦ ok (broken st.tr)
    | some tk' ↦ do
      bytes ← read_range tk'.bytes from (last - from + 1)
      ok (
          on tk' (record st {
            tr = record st.tr { info_hash = some (perform_hash sha1 bytes) };
            info_end = some last;
          }))
  ]

-- The chain of tests on a token.
pub parse_token : (List ℕ → List ℕ) → Tokenizer → Parse → Result Round
unfolding parse_field parse_info parse_info_end ends_info
parse_token sha1 tk st =
    if is_text (codes "announce") tk
    then parse_field announce_key tk st
    else (if is_text (codes "comment") tk
        then parse_field comment_key tk st
        else (if is_text (codes "info") tk then parse_info tk st else elim (ends_info tk st) [
          | some from ↦ parse_info_end sha1 from tk st
          | none ↦
              if is_text (codes "name") tk
              then parse_field name_key tk st
              else (if is_text (codes "length") tk
                  then parse_field length_key tk st
                  else (if is_text (codes "piece length") tk
                      then parse_field piece_length_key tk st
                      else (if is_text (codes "pieces") tk
                          then parse_field pieces_key tk st
                          else ok (on tk st))))
        ]))

-- The loop. Each round that goes on has used up a token (`Fuel`). `unended` is what stands for a loop
-- that has not ended when the fuel is used up.
pub parse_loop :
    Result (TorrentFile × Bool)
    → (List ℕ → List ℕ)
    → ℕ
    → Tokenizer
    → Parse
    → Result (TorrentFile × Bool)
unfolding parse_token
parse_loop unended sha1 zero tk st = unended
parse_loop unended sha1 (suc fuel) tk st = do
  (tk', err) ← next tk
  let round = do
    r ← parse_token sha1 tk' st
    elim r [ on tk'' st' ↦ parse_loop unended sha1 fuel tk'' st' | broken tr ↦ ok (tr, false) ]
  if err == tokenizer_end
      then ok (st.tr, true)
      else (if err == tokenizer_malformed_string then ok (st.tr, false) else round)

abbrev pub begin : TorrentFile → Parse
begin tr = record { tr = tr; info_start = none; info_start_stack_value = pos 0; info_end = none }

-- The record after the call and the result. `contents` is what `read_file` gives; its NULL is read.
unfoldable pub parse_torrent_file :
    (List ℕ → List ℕ) → TorrentFile → Option (List ℕ) → Result (TorrentFile × Bool)
unfolding parse_loop
parse_torrent_file sha1 tr none = fault
parse_torrent_file sha1 tr (some contents) = do
  tk ← init_tokenizer contents (length contents)
  parse_loop fault sha1 (2 * length contents + 1) tk (begin tr)
