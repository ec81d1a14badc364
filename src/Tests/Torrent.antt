-- ===== src/Tests/Torrent.antt =====
-- A small torrent file, parsed.
use btb.HandshakeMsg.{codes}
use btb.Tokenizer.{init_tokenizer, next}
use btb.Tokenizer.Scan.{strtol, skip_digits}
use btb.TorrentFile.{init_torrent_file}
use btb.TorrentFile.Parse.{parse_loop, parse_torrent_file, begin}
use btb.TorrentFile.Parse.Fuel.{parse_torrent_file-fuel}
use btb.Base.{
  ℕ, ◌≡◌, refl, true, List, [], ◌∷◌, ◌++◌, some, none, ok, ◌>>=◌, length, take, replicate, arith,
}

abbrev contents : List ℕ
contents =
    codes "d8:announce3:url4:infod6:lengthi3e4:name3:out12:piece lengthi2e6:pieces40:"
    ++ (replicate 20 1 ++ (replicate 20 2 ++ codes "ee"))

-- The first bytes stand for the digest.
abbrev first_bytes : List ℕ → List ℕ
first_bytes bytes = take 20 bytes

parsed :
    parse_torrent_file first_bytes init_torrent_file (some contents)
    ≡ ok (
      record {
        announce = some (codes "url");
        comment = none;
        info_hash = some (codes "d6:lengthi3e4:name3:");
        piece_length = 2;
        num_pieces = 2;
        piece_hashes = replicate 20 1 ∷ replicate 20 2 ∷ [];
        length = 3;
        name = some (codes "out");
      },
      true,
    )
unfolding parse_torrent_file init_tokenizer next strtol skip_digits
parsed = refl

parse_torrent_file-fuel_example :
    parse_torrent_file first_bytes init_torrent_file (some contents) ≡ (
      init_tokenizer contents (length contents) >>= λ tk.
      parse_loop (ok (init_torrent_file, true)) first_bytes 500 tk (begin init_torrent_file))
parse_torrent_file-fuel_example =
    parse_torrent_file-fuel first_bytes init_torrent_file contents (ok (init_torrent_file, true))
      500 (omega arith)
