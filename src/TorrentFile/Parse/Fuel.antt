-- ===== src/TorrentFile/Parse/Fuel.antt =====
-- The loop of `parse_torrent_file` ends: every round that goes on has used up a token.
use btb.Tokenizer.{
  Tokenizer, init_tokenizer, next, tokenizer_ok, tokenizer_end, tokenizer_malformed_string,
}
use btb.Tokenizer.Invariant.{IsTokenizer, measure, next-After}
use btb.Tokenizer.Codes.{next-le}
use btb.Tokenizer.Progress.{init_tokenizer-IsTokenizer}
use btb.TorrentFile.{TorrentFile}
use btb.HandshakeMsg.{codes}
use btb.TorrentFile.Parse.{
  Parse, Round, on, broken, Field, announce_key, comment_key, name_key, length_key,
  piece_length_key, pieces_key, parse_loop, parse_torrent_file, begin, parse_token, parse_field,
  parse_info, parse_info_end, ends_info, next_token, next_marker, next_value, is_marker, is_text,
  store_field, marker_of,
}
use btb.Base.{
  ℕ, zero, suc, ◌+◌, ◌-◌, ◌*◌, ◌≤◌, ◌<◌, ◌≡◌, refl, Bool, true, false, List, Option, none, some,
  Result, ok, failed, fault, ◌>>=◌, length, ◌==◌, if◌then◌else◌, arith, IsWhenOk, >>=-IsWhenOk,
  IsWhenOk-ok, Bool-cases, Option-cases, Result-cases, inl, inr, read_range, ==_iff,
}

-- A valid tokenizer that may still give at most `n` tokens.
abbrev IsLeft : ℕ → Tokenizer → Type 0
IsLeft n tk = IsTokenizer tk × (measure tk ≤ n)

abbrev IsNext : ℕ → Option Tokenizer → Type 0
IsNext n none = Unit
IsNext n (some tk) = IsLeft n tk

abbrev IsRound : ℕ → Round → Type 0
IsRound n (on tk st) = IsLeft n tk
IsRound n (broken tr) = Unit

if-IsNext :
    (n : ℕ) (b : Bool) (tk : Tokenizer)
    → (b ≡ true → IsLeft n tk)
    → IsNext n (if b then some tk else none)
if-IsNext n true tk h = h refl
if-IsNext n false tk h = tt

next_token-IsNext : (n : ℕ) (tk : Tokenizer) → IsLeft n tk → IsWhenOk (IsNext n) (next_token tk)
unfolding next_token
next_token-IsNext n tk (v, small) = >>=-IsWhenOk (IsNext n) (next tk) _ λ (tk', err) e.
    let after = next-After tk tk' err v e in
    if-IsNext n (err == tokenizer_ok) tk'
      λ same. (after.valid, omega (arith, after.falls ((==_iff err tokenizer_ok).0 same)))

-- What follows a token, where the code goes on with it or breaks.
module _ {B : Type 0} (P : B → Type 0) (n : ℕ) (stop : Result B) (rest : Tokenizer → Result B) where
  next-IsWhenOk :
      (call : Result (Option Tokenizer))
      → IsWhenOk (IsNext n) call
      → IsWhenOk P stop
      → ((tk : Tokenizer) → IsLeft n tk → IsWhenOk P (rest tk))
      → IsWhenOk P (call >>= λ after. elim after [ none ↦ stop | some tk ↦ rest tk ])
  next-IsWhenOk failed c s h = tt
  next-IsWhenOk fault c s h = tt
  next-IsWhenOk (ok none) c s h = s
  next-IsWhenOk (ok (some tk)) c s h = h tk c

next_marker-IsNext :
    (n marker : ℕ) (tk : Tokenizer) → IsLeft n tk → IsWhenOk (IsNext n) (next_marker marker tk)
unfolding next_marker
next_marker-IsNext n marker tk h =
    next-IsWhenOk (IsNext n) n _ _ (next_token tk) (next_token-IsNext n tk h) tt λ tk' left.
      >>=-IsWhenOk (IsNext n) (is_marker marker tk') _ λ same e'. if-IsNext n same tk' λ holds. left

next_value-IsNext :
    (n marker : ℕ) (tk : Tokenizer) → IsLeft n tk → IsWhenOk (IsNext n) (next_value marker tk)
unfolding next_value
next_value-IsNext n marker tk h =
    next-IsWhenOk (IsNext n) n _ _ (next_marker marker tk) (next_marker-IsNext n marker tk h) tt
      λ tk' left. next_token-IsNext n tk' left

module _ (n : ℕ) (tk : Tokenizer) (st : Parse) (h : IsLeft n tk) where
  parse_field-IsRound : (field : Field) → IsWhenOk (IsRound n) (parse_field field tk st)
  unfolding parse_field
  parse_field-IsRound field =
      next-IsWhenOk (IsRound n) n _ _ (next_value (marker_of field) tk)
        (next_value-IsNext n (marker_of field) tk h) tt
        λ tk' left. >>=-IsWhenOk (IsRound n) (store_field field tk' st.tr) _ λ tr e. left

  parse_info-IsRound : IsWhenOk (IsRound n) (parse_info tk st)
  unfolding parse_info
  parse_info-IsRound =
      next-IsWhenOk (IsRound n) n _ _ (next_marker b'd' tk) (next_marker-IsNext n b'd' tk h) tt
        λ tk' left. left

  parse_info_end-IsRound :
      (sha1 : List ℕ → List ℕ) (from : ℕ) → IsWhenOk (IsRound n) (parse_info_end sha1 from tk st)
  unfolding parse_info_end
  parse_info_end-IsRound sha1 from =
      next-IsWhenOk (IsRound n) n _ _ (next_token tk) (next_token-IsNext n tk h) tt λ tk' left.
        >>=-IsWhenOk (IsRound n) (read_range tk'.bytes from (tk.current - 1 - from + 1)) _
          λ bytes e. left

  if-IsRound :
      (b : Bool) (r r' : Result Round)
      → IsWhenOk (IsRound n) r
      → IsWhenOk (IsRound n) r'
      → IsWhenOk (IsRound n) (if b then r else r')
  if-IsRound true r r' p p' = p
  if-IsRound false r r' p p' = p'

  parse_token-IsRound : (sha1 : List ℕ → List ℕ) → IsWhenOk (IsRound n) (parse_token sha1 tk st)
  unfolding parse_token
  parse_token-IsRound sha1 =
      let field = parse_field-IsRound in
      if-IsRound (is_text (codes "announce") tk) _ _ (field announce_key) (
        if-IsRound (is_text (codes "comment") tk) _ _ (field comment_key) (
          if-IsRound (is_text (codes "info") tk) _ _ parse_info-IsRound
            (elim (Option-cases (ends_info tk st)) [
              | inl stays ↦ rw stays (
                  if-IsRound (is_text (codes "name") tk) _ _ (field name_key) (
                    if-IsRound (is_text (codes "length") tk) _ _ (field length_key) (
                      if-IsRound (is_text (codes "piece length") tk) _ _ (field piece_length_key)
                        (if-IsRound (is_text (codes "pieces") tk) _ _ (field pieces_key) h))))
              | inr (from, ends) ↦ rw ends (parse_info_end-IsRound sha1 from)
            ])))

-- With fuel above the number of tokens that may come the loop ends: neither more fuel nor what stands
-- for a loop that has not ended makes a difference, whatever the file holds.
pub parse_loop-fuel :
    (out out' : Result (TorrentFile × Bool)) (sha1 : List ℕ → List ℕ) (f g : ℕ) (tk : Tokenizer)
    (st : Parse)
    → IsTokenizer tk
    → measure tk < f
    → measure tk < g
    → parse_loop out sha1 f tk st ≡ parse_loop out' sha1 g tk st
unfolding parse_loop
parse_loop-fuel out out' sha1 zero g tk st v hf hg = absurd (omega arith)
parse_loop-fuel out out' sha1 (suc f) zero tk st v hf hg = absurd (omega arith)
parse_loop-fuel out out' sha1 (suc f) (suc g) tk st v hf hg = elim (Result-cases (next tk)) [
  | inl (inl ((tk', err), e)) ↦
      let after = next-After tk tk' err v e in
      let known = next-le tk tk' err e in
      elim (Bool-cases (err == tokenizer_end)) [
        | inl ends ↦ rw (e, ends)
        | inr not_end ↦ elim (Bool-cases (err == tokenizer_malformed_string)) [
          | inl bad ↦ rw (e, not_end, bad)
          | inr not_bad ↦
              let is_ok : err ≡ tokenizer_ok = ground (arith, not_end, not_bad, known) in
              let falls = after.falls is_ok in
              elim (Result-cases (parse_token sha1 tk' st)) [
                | inl (inl (on tk'' st', r)) ↦
                    let (valid, small) =
                      IsWhenOk-ok (IsRound (measure tk')) (parse_token sha1 tk' st)
                        (parse_token-IsRound (measure tk') tk' st (after.valid, omega arith) sha1)
                        r in
                    rw (e, not_end, not_bad, r)
                      (parse_loop-fuel out out' sha1 f g tk'' st' valid (omega (arith, falls))
                        (omega (arith, falls)))
                | inl (inl (broken tr, r)) ↦ rw (e, not_end, not_bad, r)
                | inl (inr r) ↦ rw (e, not_end, not_bad, r)
                | inr r ↦ rw (e, not_end, not_bad, r)
              ]
        ]
      ]
  | inl (inr e) ↦ rw e
  | inr e ↦ rw e
]

-- For every contents of the file, the loop of `parse_torrent_file` ends before the fuel that it is
-- given, twice the number of bytes and one, is used up: with any more fuel, and whatever result
-- stands for a loop that has not ended when the fuel is used up, the result is the same.
pub parse_torrent_file-fuel :
    (sha1 : List ℕ → List ℕ) (tr : TorrentFile) (contents : List ℕ)
    (unended : Result (TorrentFile × Bool)) (g : ℕ)
    → 2 * length contents < g
    → parse_torrent_file sha1 tr (some contents) ≡ (
        init_tokenizer contents (length contents) >>= λ tk. parse_loop unended sha1 g tk (begin tr))
unfolding parse_torrent_file
parse_torrent_file-fuel sha1 tr contents unended g enough =
    elim (Result-cases (init_tokenizer contents (length contents))) [
      | inl (inl (tk, e)) ↦
          let (v, m) = init_tokenizer-IsTokenizer contents (length contents) tk e in
          rw e (
            parse_loop-fuel fault unended sha1 (2 * length contents + 1) g tk (begin tr) v
              (omega arith) (omega arith))
      | inl (inr e) ↦ rw e
      | inr e ↦ rw e
    ]
