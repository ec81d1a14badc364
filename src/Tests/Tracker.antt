-- ===== src/Tests/Tracker.antt =====
-- A small answer of a tracker, read.
use btb.HandshakeMsg.{codes}
use btb.Tokenizer.{init_tokenizer, next}
use btb.Tokenizer.Scan.{strtol, skip_digits}
use btb.Tokenizer.Bencode.{decimal}
use btb.BigEndian.{big_endian_to_lu}
use btb.TorrentFile.{TorrentFile, init_torrent_file}
use btb.TorrentFile.Parse.{next_token, strtoll}
use btb.Peer.{Peer, init_peer}
use btb.TrackerResponse.{Curl, init_tracker_response, contact_tracker, response_data}
use btb.TrackerResponse.Peers.{compact_all}
use btb.TrackerResponse.Parts.{response_data-append}
use btb.Base.{ℕ, ◌≡◌, refl, true, List, [], ◌∷◌, ◌++◌, some, none, ok, replicate}

abbrev two_peers : List Peer
two_peers =
    record { port = 6881; address = 10 ∷ 0 ∷ 0 ∷ 1 ∷ [] }
    ∷ record { port = 443; address = 10 ∷ 0 ∷ 0 ∷ 2 ∷ [] }
    ∷ []

abbrev answer : List ℕ
answer = codes "d8:intervali900e5:peers12:" ++ (compact_all two_peers ++ codes "e")

abbrev curl : Curl
curl = record { initialises = true; escape = λ bytes. bytes; perform = λ url. some (answer ∷ []) }

abbrev torrent : TorrentFile
torrent = record init_torrent_file {
  announce = some (codes "http://t/a");
  info_hash = some (replicate 20 7);
  length = 3;
}

contacted :
    contact_tracker curl init_tracker_response torrent
    ≡ ok (record { interval = 900; peers = two_peers }, true)
unfolding contact_tracker next_token strtoll init_tokenizer next strtol skip_digits decimal
    init_peer big_endian_to_lu
contacted = refl

response_data-append_example :
    response_data (codes "d8:inter" ∷ codes "vali900e" ∷ []) none ≡ some (codes "vali900e")
response_data-append_example = response_data-append (codes "d8:inter" ∷ []) (codes "vali900e") none
