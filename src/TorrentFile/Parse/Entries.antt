-- ===== src/TorrentFile/Parse/Entries.antt =====
-- The entries of a torrent file, as the loop of `parse_torrent_file` goes over them.
use btb.Tokenizer.{Tokenizer, start, next, tokenizer_ok}
use btb.Tokenizer.Bencode.{encode_string, decimal, Token, IsString}
use btb.Tokenizer.Decimal.{decimal-IsDigit, length-decimal_pos}
use btb.Tokenizer.RoundTrip.Place.{IsAt, Reads}
use btb.Tokenizer.RoundTrip.Scalars.{read_string, read_integer}
use btb.TorrentFile.{TorrentFile}
use btb.TorrentFile.Parse.{
  Parse, Field, announce_key, comment_key, name_key, length_key, piece_length_key, pieces_key,
  marker_of, store_field, ends_info,
}
use btb.TorrentFile.Parse.Tokens.{Reads-First, Reads-nil, next_token-First}
use btb.TorrentFile.Parse.Rounds.{
  Goes, Goes-then, Goes-round, ends_info_other, ends_info_outside, text_of, parse_token_byte,
  parse_token_field, parse_field_steps,
}
use btb.Base.{
  ℕ, ◌≡◌, refl, sym, subst, ◌∙◌, false, List, [], ◌∷◌, ◌++◌, none, ok, length, arith, append_assoc,
  ◌⊎◌, inl, inr, ℤ, same_int,
}

-- A token that is one byte, and not the closing one.
pub other_byte :
    (b : ℕ) (u : Tokenizer) (st : Parse)
    → (b ≡ b's') ⊎ (b ≡ b'd')
    → u.token ≡ b ∷ []
    → u.token_size ≡ 1
    → ends_info u st ≡ none
other_byte b u st (inl e) named size = ends_info_other u st (rw (size, named, e) refl)
other_byte b u st (inr e) named size = ends_info_other u st (rw (size, named, e) refl)

pub IsString-key : (field : Field) → IsString (text_of field)
IsString-key announce_key = omega arith
IsString-key comment_key = omega arith
IsString-key name_key = omega arith
IsString-key length_key = omega arith
IsString-key piece_length_key = omega arith
IsString-key pieces_key = omega arith

key_stays :
    (field : Field) (u : Tokenizer) (st : Parse)
    → u.token_size ≡ length (text_of field)
    → ends_info u st ≡ none
key_stays announce_key u st size = ends_info_other u st (rw size refl)
key_stays comment_key u st size = ends_info_other u st (rw size refl)
key_stays name_key u st size = ends_info_other u st (rw size refl)
key_stays length_key u st size = ends_info_other u st (rw size refl)
key_stays piece_length_key u st size = ends_info_other u st (rw size refl)
key_stays pieces_key u st size = ends_info_other u st (rw size refl)

-- The marker and the text of a key: the marker is passed over, and the next call gives the text.
pub record Key (sha1 : List ℕ → List ℕ) (t : Tokenizer) (st : Parse) (key : List ℕ)
    (written rest : List ℕ) (stack : ℤ) : Type 0 where
  pub before : Tokenizer
  pub after : Tokenizer
  pub goes : Goes sha1 t st before st
  pub call : next before ≡ ok (after, tokenizer_ok)
  pub token : after.token ≡ key
  pub size : after.token_size ≡ length key
  pub at : IsAt after start (written ++ encode_string key) rest stack

module _ (sha1 : List ℕ → List ℕ) (t : Tokenizer) (st : Parse) (written rest : List ℕ)
    (stack : ℤ) where
  pub read-Key :
      (key : List ℕ)
      → IsString key
      → IsAt t start written (encode_string key ++ rest) stack
      → Key sha1 t st key written rest stack
  read-Key key short a =
      let (k, reads, at) = read_string t written key rest stack short a in
      let marker = Reads-First reads in
      let text = Reads-First marker.rest in
      record {
        before = marker.after;
        after = text.after;
        goes = Goes-round sha1 t marker.after marker.after st st marker.call (
            parse_token_byte sha1 marker.after st marker.size
              (other_byte b's' marker.after st (inl refl) marker.token marker.size));
        call = text.call;
        token = text.token;
        size = text.size;
        at =
            subst (λ (x : Tokenizer). IsAt x start (written ++ encode_string key) rest stack)
              (sym (Reads-nil text.rest)) at;
      }

  -- A key, the marker of its value and the value: the value is stored.
  stored :
      (field : Field) (tr : TorrentFile) (value : Token) (toks : List Token) (v : Tokenizer)
      (k : Key sha1 t st (text_of field) written rest stack)
      (reads : Reads k.after ((marker_of field ∷ []) ∷ value ∷ toks) v)
      → ((w : Tokenizer)
          → w.token ≡ value
          → w.token_size ≡ length value
          → store_field field w st.tr ≡ ok tr)
      → (w : Tokenizer) × Goes sha1 t st w (record st { tr = tr }) × Reads w toks v
  stored field tr value toks v k reads store =
      let marker = Reads-First reads in
      let text = Reads-First marker.rest in
      let done = record st { tr = tr } in
      (
        text.after,
        Goes-then sha1 t k.before text.after st st done k.goes (
            Goes-round sha1 k.before k.after text.after st done k.call (
              parse_token_field sha1 k.after st field k.token k.size
                (key_stays field k.after st k.size)
              ∙ parse_field_steps k.after marker.after text.after st field tr
                  (next_token-First marker) marker.token marker.size (next_token-First text)
                  (store text.after text.token text.size))),
        text.rest,
      )

-- The encoding of a number.
abbrev pub number_text : ℕ → List ℕ
number_text n = b'i' ∷ decimal n ++ b'e' ∷ []

-- After an entry: its value is in the record, and the tokenizer stands behind it.
abbrev pub Entered :
    (List ℕ → List ℕ) → Tokenizer → Parse → TorrentFile → List ℕ → List ℕ → ℤ → Type 0
Entered sha1 t st tr written rest stack =
    (w : Tokenizer) × Goes sha1 t st w (record st { tr = tr }) × IsAt w start written rest stack

module _ (sha1 : List ℕ → List ℕ) (t : Tokenizer) (st : Parse) (tr : TorrentFile) (field : Field)
    (written rest : List ℕ) (stack : ℤ) where
  pub string_entry :
      (s : List ℕ)
      → marker_of field ≡ b's'
      → IsString s
      → IsAt t start written (encode_string (text_of field) ++ (encode_string s ++ rest)) stack
      → ((w : Tokenizer)
          → w.token ≡ s
          → w.token_size ≡ length s
          → store_field field w st.tr ≡ ok tr)
      → Entered sha1 t st tr
          (written ++ (encode_string (text_of field) ++ encode_string s))
          rest
          stack
  string_entry s marked short a store =
      let k =
        read-Key sha1 t st written (encode_string s ++ rest) stack (text_of field)
          (IsString-key field) a in
      let (v, reads, at) =
        read_string k.after (written ++ encode_string (text_of field)) s rest stack short k.at in
      let (w, goes, over) =
        stored sha1 t st written (encode_string s ++ rest) stack field tr s [] v k (rw marked reads)
          store in
      (
        w,
        goes,
        subst
            (λ (x : Tokenizer).
              IsAt x start (written ++ (encode_string (text_of field) ++ encode_string s)) rest
                stack)
            (sym (Reads-nil over))
            (rw (append_assoc written (encode_string (text_of field)) (encode_string s)) at at),
      )

  -- The closing byte of a number does not end the value of `info`.
  pub number_entry :
      (n : ℕ)
      → marker_of field ≡ b'i'
      → (st.info_start ≡ none) ⊎ (same_int st.info_start_stack_value stack ≡ false)
      → IsAt t start written (encode_string (text_of field) ++ (number_text n ++ rest)) stack
      → ((w : Tokenizer)
          → w.token ≡ decimal n
          → w.token_size ≡ length (decimal n)
          → store_field field w st.tr ≡ ok tr)
      → Entered sha1 t st tr
          (written ++ (encode_string (text_of field) ++ number_text n))
          rest
          stack
  number_entry n marked outside a store =
      let done = record st { tr = tr } in
      let k =
        read-Key sha1 t st written (number_text n ++ rest) stack (text_of field)
          (IsString-key field) a in
      let (v, reads, at) =
        read_integer k.after (written ++ encode_string (text_of field)) rest stack false (decimal n)
          (length-decimal_pos n, decimal-IsDigit n) k.at in
      let (w, goes, over) =
        stored sha1 t st written (number_text n ++ rest) stack field tr (decimal n)
          ((b'e' ∷ []) ∷ []) v k (rw marked reads) store in
      let close = Reads-First over in
      let behind : IsAt close.after start
          ((written ++ encode_string (text_of field)) ++ number_text n) rest stack =
        subst
          (λ (x : Tokenizer).
            IsAt x start ((written ++ encode_string (text_of field)) ++ number_text n) rest stack)
          (sym (Reads-nil close.rest)) at in
      (
        close.after,
        Goes-then sha1 t w close.after st done done goes (
            Goes-round sha1 w close.after close.after done done close.call (
              parse_token_byte sha1 close.after done close.size
                (ends_info_outside close.after done (rw (← behind.stack_is) at outside)))),
        rw (append_assoc written (encode_string (text_of field)) (number_text n)) at behind,
      )
