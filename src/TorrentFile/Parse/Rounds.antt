-- ===== src/TorrentFile/Parse/Rounds.antt =====
-- One round of the loop of `parse_torrent_file`, by the token that it finds.
use btb.HandshakeMsg.{codes}
use btb.Tokenizer.{Tokenizer, next, tokenizer_ok, tokenizer_end}
use btb.TorrentFile.{TorrentFile}
use btb.TorrentFile.Parse.{
  Parse, on, Field, announce_key, comment_key, name_key, length_key, piece_length_key, pieces_key,
  marker_of, store_field, parse_field, parse_info, parse_info_end, ends_info, parse_token,
  parse_loop, next_token, is_marker, is_text,
}
use btb.Base.{
  ℕ, suc, ◌+◌, ◌-◌, ◌≡◌, refl, ◌∙◌, Bool, true, false, ◌&&◌, List, [], ◌∷◌, none, some, ok, fault,
  length, arith, Option-cases, ◌⊎◌, inl, inr, same_int, read_range,
}

-- The loop goes from one token and its locals to others, whatever fuel is left.
abbrev pub Goes : (List ℕ → List ℕ) → Tokenizer → Parse → Tokenizer → Parse → Type 0
Goes sha1 t st u st' =
    (k : ℕ) × ((g : ℕ) → parse_loop fault sha1 (k + g) t st ≡ parse_loop fault sha1 g u st')

module _ (sha1 : List ℕ → List ℕ) where
  pub Goes-then :
      (t u v : Tokenizer) (st st' st'' : Parse)
      → Goes sha1 t st u st'
      → Goes sha1 u st' v st''
      → Goes sha1 t st v st''
  Goes-then t u v st st' st'' (k, first) (m, then_on) = (
    k + m,
    λ g. let e : k + m + g ≡ k + (m + g) = omega arith in rw e (first (m + g) ∙ then_on g),
  )

  pub Goes-round :
      (t u v : Tokenizer) (st st' : Parse)
      → next t ≡ ok (u, tokenizer_ok)
      → parse_token sha1 u st ≡ ok (on v st')
      → Goes sha1 t st v st'
  unfolding parse_loop
  Goes-round t u v st st' e f =
      (1, λ g. let one : 1 + g ≡ suc g = omega arith in rw (one, e, f) refl)

  pub loop_end :
      (t u : Tokenizer) (st : Parse) (g : ℕ)
      → next t ≡ ok (u, tokenizer_end)
      → parse_loop fault sha1 (suc g) t st ≡ ok (st.tr, true)
  unfolding parse_loop
  loop_end t u st g e = rw e refl

-- The value of `info` has not begun, or lies on another depth.
abbrev pub IsOutside : Parse → Tokenizer → Type 0
IsOutside st u =
    (st.info_start ≡ none) ⊎ (same_int st.info_start_stack_value u.list_dict_stack ≡ false)

ends_info_no :
    (u : Tokenizer) (st : Parse)
    → (same_int st.info_start_stack_value u.list_dict_stack && is_text (b'e' ∷ []) u) ≡ false
    → ends_info u st ≡ none
unfolding ends_info
ends_info_no u st h = elim (Option-cases st.info_start) [
  | inl never ↦ rw never refl
  | inr (from, begun) ↦ elim (Option-cases st.info_end) [
    | inl lasts ↦ rw (begun, lasts, h) refl
    | inr (last, over) ↦ rw (begun, over) refl
  ]
]

and_false : (b : Bool) → (b && false) ≡ false
and_false true = refl
and_false false = refl

pub ends_info_other :
    (u : Tokenizer) (st : Parse) → is_text (b'e' ∷ []) u ≡ false → ends_info u st ≡ none
ends_info_other u st h =
    ends_info_no u st (rw h (and_false (same_int st.info_start_stack_value u.list_dict_stack)))

pub ends_info_outside : (u : Tokenizer) (st : Parse) → IsOutside st u → ends_info u st ≡ none
unfolding ends_info
ends_info_outside u st (inl never) = rw never refl
ends_info_outside u st (inr other) = ends_info_no u st (rw other refl)

pub ends_info_closing :
    (u : Tokenizer) (st : Parse) (from : ℕ)
    → st.info_start ≡ some from
    → st.info_end ≡ none
    → same_int st.info_start_stack_value u.list_dict_stack ≡ true
    → u.token ≡ b'e' ∷ []
    → u.token_size ≡ 1
    → ends_info u st ≡ some from
unfolding ends_info
ends_info_closing u st from begun lasts depth named size =
    rw (begun, lasts, depth, size, named) refl

abbrev pub text_of : Field → List ℕ
text_of announce_key = codes "announce"
text_of comment_key = codes "comment"
text_of name_key = codes "name"
text_of length_key = codes "length"
text_of piece_length_key = codes "piece length"
text_of pieces_key = codes "pieces"

-- What `parse_token` does with each token.
module _ (sha1 : List ℕ → List ℕ) (u : Tokenizer) (st : Parse) where
  -- A token of one byte is passed over, unless it ends the value of `info`.
  pub parse_token_byte :
      u.token_size ≡ 1 → ends_info u st ≡ none → parse_token sha1 u st ≡ ok (on u st)
  unfolding parse_token
  parse_token_byte size stays = rw (stays, size) refl

  pub parse_token_ends :
      (from : ℕ)
      → u.token_size ≡ 1
      → ends_info u st ≡ some from
      → parse_token sha1 u st ≡ parse_info_end sha1 from u st
  unfolding parse_token
  parse_token_ends from size ends = rw (ends, size) refl

  pub parse_token_info :
      u.token ≡ codes "info" → u.token_size ≡ 4 → parse_token sha1 u st ≡ parse_info u st
  unfolding parse_token
  parse_token_info named size = rw (size, named) refl

  pub parse_token_field :
      (field : Field)
      → u.token ≡ text_of field
      → u.token_size ≡ length (text_of field)
      → ends_info u st ≡ none
      → parse_token sha1 u st ≡ parse_field field u st
  unfolding parse_token
  parse_token_field announce_key named size stays = rw (stays, size, named) refl
  parse_token_field comment_key named size stays = rw (stays, size, named) refl
  parse_token_field name_key named size stays = rw (stays, size, named) refl
  parse_token_field length_key named size stays = rw (stays, size, named) refl
  parse_token_field piece_length_key named size stays = rw (stays, size, named) refl
  parse_token_field pieces_key named size stays = rw (stays, size, named) refl

is_marker_byte :
    (marker : ℕ) (a : Tokenizer)
    → a.token ≡ marker ∷ []
    → a.token_size ≡ 1
    → is_marker marker a ≡ ok true
unfolding is_marker
is_marker_byte marker a named size = rw (size, named) (ground arith)

module _ (u a w : Tokenizer) (st : Parse) where
  pub parse_field_steps :
      (field : Field) (tr : TorrentFile)
      → next_token u ≡ ok (some a)
      → a.token ≡ marker_of field ∷ []
      → a.token_size ≡ 1
      → next_token a ≡ ok (some w)
      → store_field field w st.tr ≡ ok tr
      → parse_field field u st ≡ ok (on w (record st { tr = tr }))
  unfolding parse_field
  parse_field_steps field tr e named size f stored =
      rw (e, is_marker_byte (marker_of field) a named size, f, stored) refl

  pub parse_info_steps :
      next_token u ≡ ok (some a)
      → a.token ≡ b'd' ∷ []
      → a.token_size ≡ 1
      → parse_info u st
        ≡ ok (
            on a (record st {
              info_start = some u.current;
              info_start_stack_value = u.list_dict_stack;
            }))
  unfolding parse_info
  parse_info_steps e named size = rw (e, is_marker_byte b'd' a named size) refl

  pub parse_info_end_steps :
      (sha1 : List ℕ → List ℕ) (from : ℕ) (info : List ℕ)
      → next_token u ≡ ok (some a)
      → read_range a.bytes from (u.current - 1 - from + 1) ≡ ok info
      → parse_info_end sha1 from u st
        ≡ ok (
            on a (record st {
              tr = record st.tr { info_hash = some (sha1 info) };
              info_end = some (u.current - 1);
            }))
  unfolding parse_info_end
  parse_info_end_steps sha1 from info e f = rw (e, f) refl
