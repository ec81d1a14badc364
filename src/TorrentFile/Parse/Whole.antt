-- ===== src/TorrentFile/Parse/Whole.antt =====
-- A whole torrent file fills the record.
use btb.HandshakeMsg.{codes}
use btb.Tokenizer.{Tokenizer, start}
use btb.Tokenizer.Bencode.{
  Value, integer, string, dict, done, entry, encode, encode_string, decimal, IsString,
}
use btb.Tokenizer.RoundTrip.Place.{IsAt}
use btb.TorrentFile.{TorrentFile}
use btb.TorrentFile.Parse.{Parse, name_key, length_key, piece_length_key, pieces_key}
use btb.TorrentFile.Parse.Hashes.{IsHash, blob, length-blob}
use btb.TorrentFile.Parse.Rounds.{Goes-then}
use btb.TorrentFile.Parse.Entries.{number_text, Entered, string_entry, number_entry}
use btb.TorrentFile.Parse.Stores.{store_name, store_length, store_piece_length, store_pieces}
use btb.Base.{
  ℕ, ◌^◌, ◌<◌, ◌≡◌, refl, false, List, [], ◌∷◌, ◌++◌, none, some, length, All, arith, append_assoc,
  append-nil, subst, ◌⊎◌, ℤ, same_int,
}

-- What a torrent file says: the fields of the record that come from it.
pub record Torrent : Type 0 where
  pub url : List ℕ
  pub total : ℕ
  pub file_name : List ℕ
  pub piece_size : ℕ
  pub hashes : List (List ℕ)

-- Numbers and texts that the C types hold, and hashes of 20 bytes.
pub record IsTorrent (m : Torrent) : Type 0 where
  pub url_short : IsString m.url
  pub total_small : m.total < 2 ^ 63
  pub name_short : IsString m.file_name
  pub piece_small : m.piece_size < 2 ^ 63
  pub hashes_whole : All IsHash m.hashes
  pub hashes_short : length m.hashes < 2 ^ 58

abbrev pub info_value : Torrent → Value
info_value m = dict (
    entry (codes "length") (integer false (decimal m.total)) (
      entry (codes "name") (string m.file_name) (
        entry (codes "piece length") (integer false (decimal m.piece_size))
          (entry (codes "pieces") (string (blob m.hashes)) done))))

-- The file: the tracker's URL, and the section whose hash names the torrent.
abbrev pub torrent_value : Torrent → Value
torrent_value m =
    dict (entry (codes "announce") (string m.url) (entry (codes "info") (info_value m) done))

-- The entries of the section, in front of `rest`.
abbrev pub info_entries : Torrent → List ℕ → List ℕ
info_entries m rest =
    encode_string (codes "length")
    ++ (number_text m.total
        ++ (encode_string (codes "name")
            ++ (encode_string m.file_name
                ++ (encode_string (codes "piece length")
                    ++ (number_text m.piece_size
                        ++ (encode_string (codes "pieces")
                            ++ (encode_string (blob m.hashes) ++ rest)))))))

abbrev pub with_info : Torrent → TorrentFile → TorrentFile
with_info m tr = record tr {
  length = m.total;
  name = some m.file_name;
  piece_length = m.piece_size;
  num_pieces = length m.hashes;
  piece_hashes = m.hashes;
}

regroup :
    (w a b c d e f g h : List ℕ)
    → (((w ++ (a ++ b)) ++ (c ++ d)) ++ (e ++ f)) ++ (g ++ h)
      ≡ w ++ (a ++ (b ++ (c ++ (d ++ (e ++ (f ++ (g ++ (h ++ []))))))))
regroup w a b c d e f g h = simp (append_assoc, append-nil)

-- The loop goes over the entries of the section.
pub info-Entered :
    (sha1 : List ℕ → List ℕ) (m : Torrent) (t : Tokenizer) (st : Parse) (written rest : List ℕ)
    (stack : ℤ)
    → IsTorrent m
    → (st.info_start ≡ none) ⊎ (same_int st.info_start_stack_value stack ≡ false)
    → IsAt t start written (info_entries m rest) stack
    → Entered sha1 t st (with_info m st.tr) (written ++ info_entries m []) rest stack
info-Entered sha1 m t st written rest stack v outside a =
    let tr₁ = record st.tr { length = m.total } in
    let tr₂ = record tr₁ { name = some m.file_name } in
    let tr₃ = record tr₂ { piece_length = m.piece_size } in
    let tr₄ = with_info m st.tr in
    let (t₁, g₁, a₁) =
      number_entry sha1 t st tr₁ length_key written _ stack m.total refl outside a
        (λ w named size. store_length w st.tr m.total v.total_small named) in
    let st₁ = record st { tr = tr₁ } in
    let (t₂, g₂, a₂) =
      string_entry sha1 t₁ st₁ tr₂ name_key _ _ stack m.file_name refl v.name_short a₁
        (λ w named size. store_name w tr₁ m.file_name named) in
    let st₂ = record st { tr = tr₂ } in
    let (t₃, g₃, a₃) =
      number_entry sha1 t₂ st₂ tr₃ piece_length_key _ _ stack m.piece_size refl outside a₂
        (λ w named size. store_piece_length w tr₂ m.piece_size v.piece_small named) in
    let st₃ = record st { tr = tr₃ } in
    let (t₄, g₄, a₄) =
      string_entry sha1 t₃ st₃ tr₄ pieces_key _ rest stack (blob m.hashes) refl
        (omega (arith, v.hashes_short, length-blob m.hashes v.hashes_whole)) a₃
        (λ w named size. store_pieces w tr₃ m.hashes v.hashes_whole named size) in
    let st₄ = record st { tr = tr₄ } in
    (
      t₄,
      Goes-then sha1 t t₁ t₄ st st₁ st₄ g₁
          (Goes-then sha1 t₁ t₂ t₄ st₁ st₂ st₄ g₂ (Goes-then sha1 t₂ t₃ t₄ st₂ st₃ st₄ g₃ g₄)),
      subst (λ (x : List ℕ). IsAt t₄ start x rest stack)
          (regroup written (encode_string (codes "length")) (number_text m.total)
            (encode_string (codes "name")) (encode_string m.file_name)
            (encode_string (codes "piece length")) (number_text m.piece_size)
            (encode_string (codes "pieces")) (encode_string (blob m.hashes)))
          a₄,
    )

-- The encodings, piece by piece.
pub info_text :
    (m : Torrent) (rest : List ℕ)
    → encode (info_value m) ++ rest ≡ b'd' ∷ info_entries m (b'e' ∷ rest)
unfolding encode
info_text m rest = simp (append_assoc, append-nil)

pub torrent_text :
    (m : Torrent)
    → encode (torrent_value m)
      ≡ b'd'
        ∷ (encode_string (codes "announce")
            ++ (encode_string m.url
                ++ (encode_string (codes "info") ++ (encode (info_value m) ++ (b'e' ∷ [])))))
unfolding encode
torrent_text m = simp (append_assoc, append-nil)

-- The section ends with its closing byte.
pub info_whole :
    (m : Torrent) (before : List ℕ)
    → ((before ++ b'd' ∷ []) ++ info_entries m []) ++ b'e' ∷ [] ≡ before ++ encode (info_value m)
unfolding encode
info_whole m before = simp (append_assoc, append-nil)
