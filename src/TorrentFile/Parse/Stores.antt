-- ===== src/TorrentFile/Parse/Stores.antt =====
-- What each key of a torrent file puts into the record.
use btb.Tokenizer.{Tokenizer}
use btb.Tokenizer.Bencode.{decimal}
use btb.TorrentFile.{TorrentFile}
use btb.TorrentFile.Parse.{
  announce_key, name_key, length_key, piece_length_key, pieces_key, store_field,
}
use btb.TorrentFile.Parse.Numbers.{strtoll-decimal}
use btb.TorrentFile.Parse.Hashes.{IsHash, blob, length-blob, copy_hashes-blob}
use btb.Base.{ℕ, ◌/◌, ◌^◌, ◌<◌, ◌≡◌, refl, List, some, ok, length, All, arith}

module _ (w : Tokenizer) (tr : TorrentFile) where
  pub store_announce :
      (s : List ℕ)
      → w.token ≡ s
      → store_field announce_key w tr ≡ ok (record tr { announce = some s })
  unfolding store_field
  store_announce s named = rw named refl

  pub store_name :
      (s : List ℕ) → w.token ≡ s → store_field name_key w tr ≡ ok (record tr { name = some s })
  unfolding store_field
  store_name s named = rw named refl

  pub store_length :
      (n : ℕ)
      → n < 2 ^ 63
      → w.token ≡ decimal n
      → store_field length_key w tr ≡ ok (record tr { length = n })
  unfolding store_field
  store_length n small named = rw (named, strtoll-decimal n small) refl

  pub store_piece_length :
      (n : ℕ)
      → n < 2 ^ 63
      → w.token ≡ decimal n
      → store_field piece_length_key w tr ≡ ok (record tr { piece_length = n })
  unfolding store_field
  store_piece_length n small named = rw (named, strtoll-decimal n small) refl

  pub store_pieces :
      (hashes : List (List ℕ))
      → All IsHash hashes
      → w.token ≡ blob hashes
      → w.token_size ≡ length (blob hashes)
      → store_field pieces_key w tr
        ≡ ok (record tr { num_pieces = length hashes; piece_hashes = hashes })
  unfolding store_field
  store_pieces hashes all named size =
      let count : w.token_size / 20 ≡ length hashes = omega (arith, size, length-blob hashes all) in
      rw (count, named, copy_hashes-blob hashes all) refl
