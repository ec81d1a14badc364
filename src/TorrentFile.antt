-- ===== src/TorrentFile.antt =====
-- src/torrent_file.c: the metadata of a torrent.
pub mod Parse
use btb.Base.{ℕ, List, [], Option, none}

-- Text is held without its terminating NUL; `none` is a NULL pointer.
pub record TorrentFile : Type 0 where
  pub announce : Option (List ℕ)
  pub comment : Option (List ℕ)
  pub info_hash : Option (List ℕ)
  pub piece_length : ℕ
  pub num_pieces : ℕ
  pub piece_hashes : List (List ℕ)
  pub length : ℕ
  pub name : Option (List ℕ)

abbrev pub init_torrent_file : TorrentFile
init_torrent_file = record {
  announce = none;
  comment = none;
  info_hash = none;
  piece_length = 0;
  num_pieces = 0;
  piece_hashes = [];
  length = 0;
  name = none;
}
