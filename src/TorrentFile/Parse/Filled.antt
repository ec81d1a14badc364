-- ===== src/TorrentFile/Parse/Filled.antt =====
-- From the bytes of a torrent file to the record.
use btb.HandshakeMsg.{codes}
use btb.Tokenizer.{Tokenizer, start, init_tokenizer}
use btb.Tokenizer.Bencode.{encode, encode_string}
use btb.Tokenizer.RoundTrip.Place.{IsAt}
use btb.Tokenizer.RoundTrip.Steps.{read_open, read_close}
use btb.Tokenizer.RoundTrip.{fresh, fresh-IsAt, next_at_end}
use btb.TorrentFile.{TorrentFile}
use btb.TorrentFile.Parse.{Parse, begin, announce_key, parse_torrent_file}
use btb.TorrentFile.Parse.Fuel.{parse_torrent_file-fuel}
use btb.TorrentFile.Parse.Tokens.{next_token_ok}
use btb.TorrentFile.Parse.Rounds.{
  Goes, Goes-then, Goes-round, loop_end, ends_info_closing, parse_token_byte, parse_token_ends,
  parse_token_info, parse_info_steps, parse_info_end_steps,
}
use btb.TorrentFile.Parse.Entries.{Key, read-Key, other_byte, string_entry}
use btb.TorrentFile.Parse.Stores.{store_announce}
use btb.TorrentFile.Parse.Whole.{
  Torrent, IsTorrent, info_value, torrent_value, info_entries, with_info, info-Entered, info_text,
  info_whole, torrent_text,
}
use btb.Base.{
  ℕ, suc, ◌+◌, ◌-◌, ◌*◌, ◌<◌, ◌≡◌, refl, subst, ◌∙◌, ap, true, List, [], ◌∷◌, ◌++◌, none, some, ok,
  fault, length, arith, append_assoc, append-nil, inr, pos, same_int, read_range, read_range-append,
  read_range_all, length-append,
}

-- The two closing bytes: the first ends the section, and its bytes are hashed.
info_closed :
    (sha1 : List ℕ → List ℕ) (t : Tokenizer) (st : Parse) (before info written : List ℕ)
    → IsAt t start written (b'e' ∷ b'e' ∷ []) (pos 2)
    → written ++ b'e' ∷ [] ≡ before ++ info
    → 0 < length info
    → st.info_start ≡ some (length before)
    → st.info_end ≡ none
    → st.info_start_stack_value ≡ pos 1
    → (z : Tokenizer) × (st' : Parse) × Goes sha1 t st z st'
      × (st'.tr ≡ record st.tr { info_hash = some (sha1 info) })
      × IsAt z start ((before ++ info) ++ b'e' ∷ []) [] (pos 0)
info_closed sha1 t st before info written a whole pos_info begun lasts depth =
    let (u, call, token, size, at) = read_close (b'e' ∷ []) a in
    let (z, call', token', size', at') = read_close [] at in
    let behind : IsAt z start ((before ++ info) ++ b'e' ∷ []) [] (pos 0) = rw whole at at' in
    let same : same_int st.info_start_stack_value u.list_dict_stack ≡ true =
      rw (depth, at.stack_is) refl in
    let ends = ends_info_closing u st (length before) begun lasts same token size in
    let span : u.current - 1 - length before + 1 ≡ length info =
      omega (arith, at.here, ap length whole, length-append before info) in
    let content : z.bytes ≡ before ++ (info ++ b'e' ∷ []) =
      behind.content ∙ append-nil _ ∙ append_assoc before info (b'e' ∷ []) in
    let bytes : read_range z.bytes (length before) (u.current - 1 - length before + 1) ≡ ok info =
      rw (content, span) (read_range-append before info (b'e' ∷ [])) in
    (
      z,
      record st {
        tr = record st.tr { info_hash = some (sha1 info) };
        info_end = some (u.current - 1);
      },
      Goes-round sha1 t u z st _ call (
          parse_token_ends sha1 u st (length before) size ends
          ∙ parse_info_end_steps u z z st sha1 (length before) info (next_token_ok u z call')
              bytes),
      refl,
      behind,
    )

-- Up to the section: the URL is in the record, and the section begins behind `before`.
record Opened (sha1 : List ℕ → List ℕ) (m : Torrent) (tr : TorrentFile) (t : Tokenizer)
    (before : List ℕ) : Type 0 where
  pub at_section : Tokenizer
  pub locals : Parse
  pub goes : Goes sha1 t (begin tr) at_section locals
  pub at : IsAt at_section start (before ++ b'd' ∷ []) (info_entries m (b'e' ∷ b'e' ∷ [])) (pos 2)
  pub record_is : locals.tr ≡ record tr { announce = some m.url }
  pub begun : locals.info_start ≡ some (length before)
  pub lasts : locals.info_end ≡ none
  pub depth : locals.info_start_stack_value ≡ pos 1

-- What stands in front of the section.
abbrev head_text : Torrent → List ℕ
head_text m =
    (b'd' ∷ (encode_string (codes "announce") ++ encode_string m.url))
    ++ encode_string (codes "info")

section-Opened :
    (sha1 : List ℕ → List ℕ) (m : Torrent) (tr : TorrentFile) (t : Tokenizer) (before : List ℕ)
    (st : Parse)
    → st ≡ record (begin tr) { tr = record tr { announce = some m.url } }
    → (k : Key sha1 t st (codes "info") before (encode (info_value m) ++ b'e' ∷ []) (pos 1))
    → (t₀ : Tokenizer) → Goes sha1 t₀ (begin tr) t st
    → Opened sha1 m tr t₀ (before ++ encode_string (codes "info"))
section-Opened sha1 m tr t before st e k t₀ goes =
    let (t₁, call, token, size, a) =
      read_open (info_entries m (b'e' ∷ b'e' ∷ [])) b'd' (inr refl)
        (rw (info_text m (b'e' ∷ [])) at k.at) in
    let st' = record st {
      info_start = some k.after.current;
      info_start_stack_value = k.after.list_dict_stack;
    } in
    record {
      at_section = t₁;
      locals = st';
      goes = Goes-then sha1 t₀ t t₁ (begin tr) st st' goes (
          Goes-then sha1 t k.before t₁ st st st' k.goes (
            Goes-round sha1 k.before k.after t₁ st st' k.call (
              parse_token_info sha1 k.after st k.token k.size
              ∙ parse_info_steps k.after t₁ t₁ st (next_token_ok k.after t₁ call) token size)));
      at = a;
      record_is = ap (λ (x : Parse). x.tr) e;
      begun = ap some k.at.here;
      lasts = ap (λ (x : Parse). x.info_end) e;
      depth = k.at.stack_is;
    }

torrent-Opened :
    (sha1 : List ℕ → List ℕ) (m : Torrent) (tr : TorrentFile)
    → IsTorrent m
    → Opened sha1 m tr (fresh (encode (torrent_value m))) (head_text m)
torrent-Opened sha1 m tr v =
    let c = encode (torrent_value m) in
    let t₀ = fresh c in
    let st₀ = begin tr in
    let section = encode (info_value m) ++ b'e' ∷ [] in
    let tail = encode_string (codes "info") ++ section in
    let a₀ =
      subst (λ (x : List ℕ). IsAt t₀ start [] x (pos 0)) (append-nil c ∙ torrent_text m)
        (fresh-IsAt c) in
    let (t₁, call, token, size, a₁) =
      read_open (encode_string (codes "announce") ++ (encode_string m.url ++ tail)) b'd' (inr refl)
        a₀ in
    let st₁ = record st₀ { tr = record tr { announce = some m.url } } in
    let (t₂, goes, a₂) =
      string_entry sha1 t₁ st₀ (record tr { announce = some m.url }) announce_key (b'd' ∷ []) tail
        (pos 1) m.url refl v.url_short a₁ (λ w named size. store_announce w tr m.url named) in
    let k = read-Key sha1 t₂ st₁ _ section (pos 1) (codes "info") (omega arith) a₂ in
    section-Opened sha1 m tr t₂ _ st₁ refl k t₀ (
      Goes-then sha1 t₀ t₁ t₂ st₀ st₀ st₁
        (Goes-round sha1 t₀ t₁ t₁ st₀ st₀ call
          (parse_token_byte sha1 t₁ st₀ size (other_byte b'd' t₁ st₀ (inr refl) token size)))
        goes)

-- The record that a torrent file gives, its hash being that of the section's own bytes.
abbrev pub filled : (List ℕ → List ℕ) → Torrent → TorrentFile → TorrentFile
filled sha1 m tr = record tr {
  announce = some m.url;
  info_hash = some (sha1 (encode (info_value m)));
  length = m.total;
  name = some m.file_name;
  piece_length = m.piece_size;
  num_pieces = length m.hashes;
  piece_hashes = m.hashes;
}

init_fresh : (bytes : List ℕ) → init_tokenizer bytes (length bytes) ≡ ok (fresh bytes)
unfolding init_tokenizer
init_fresh bytes = rw (read_range_all bytes (length bytes) refl) refl

length-info_pos : (m : Torrent) → 0 < length (encode (info_value m))
unfolding encode
length-info_pos m = omega arith

-- For every torrent with texts below 2 ^ 63 bytes, numbers below 2 ^ 63 and fewer than 2 ^ 58
-- hashes of 20 bytes, `parse_torrent_file` on the Bencode of its URL and its info section returns
-- true, with the URL, the length, the name, the piece length and the hashes in the record, and as
-- `info_hash` the digest of exactly the bytes of the info section.
pub parse_torrent_file-torrent :
    (sha1 : List ℕ → List ℕ) (m : Torrent) (tr : TorrentFile)
    → IsTorrent m
    → parse_torrent_file sha1 tr (some (encode (torrent_value m))) ≡ ok (filled sha1 m tr, true)
parse_torrent_file-torrent sha1 m tr v =
    let c = encode (torrent_value m) in
    let head = head_text m in
    let info = encode (info_value m) in
    let o = torrent-Opened sha1 m tr v in
    let st₁ = o.locals in
    let (t₂, goes₂, a₂) =
      info-Entered sha1 m o.at_section st₁ (head ++ b'd' ∷ []) (b'e' ∷ b'e' ∷ []) (pos 2) v
        (inr (rw o.depth refl)) o.at in
    let st₂ = record st₁ { tr = with_info m st₁.tr } in
    let (t₃, st₃, goes₃, record_is, a₃) =
      info_closed sha1 t₂ st₂ head info _ a₂ (info_whole m head) (length-info_pos m) o.begun o.lasts
        o.depth in
    let (t₄, over) = next_at_end t₃ _ (pos 0) a₃ refl in
    let (k, goes) =
      Goes-then sha1 (fresh c) o.at_section t₃ (begin tr) st₁ st₃ o.goes
        (Goes-then sha1 o.at_section t₂ t₃ st₁ st₂ st₃ goes₂ goes₃) in
    let n = 2 * length c in
    parse_torrent_file-fuel sha1 tr c fault (k + suc n) (omega arith)
    ∙ rw (init_fresh c) (goes (suc n) ∙ loop_end sha1 t₃ t₄ st₃ n over)
    ∙ ap (λ (x : TorrentFile). ok (x, true)) (record_is ∙ rw o.record_is refl)
