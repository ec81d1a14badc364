-- ===== src/Tests/Download.antt =====
-- A download of a file of one piece of one block from one peer: src/client.c from the torrent file
-- to the output file.
use btb.HandshakeMsg.{HandshakeMsg, codes, my_peer_id}
use btb.HandshakeMsg.Codec.{wire}
use btb.Bitfield.{has_piece}
use btb.PiecesPool.{PiecesPool, init_pieces_pool, is_done}
use btb.Tokenizer.Bencode.{encode, decimal}
use btb.TorrentFile.{TorrentFile, init_torrent_file}
use btb.TorrentFile.Parse.{parse_torrent_file}
use btb.TorrentFile.Parse.Whole.{Torrent, IsTorrent, torrent_value}
use btb.TorrentFile.Parse.Filled.{filled, parse_torrent_file-torrent}
use btb.TrackerResponse.{Curl, get_request, init_tracker_response, contact_tracker}
use btb.TrackerResponse.Peers.{IsPeer}
use btb.TrackerResponse.Answer.{answer, contact_tracker-answer}
use btb.FileBuf.Laws.{holding}
use btb.DownloadedFile.{init_downloaded_file}
use btb.Peer.{Peer}
use btb.Conn.{RecvCall, SendCall}
use btb.Message.Codec.{frame}
use btb.Message.Framing.{arriving}
use btb.Client.DownloadPiece.Exchange.{accepting, answering, piece}
use btb.Client.DownloadPiece.Laws.{Answer}
use btb.Client.Session.{Local, open_session}
use btb.Client.Session.Messages.{
  greeting, greeting-IsHandshake, bitfield_msg, unchoke, interested, connected, opened_conn,
}
use btb.Client.Session.Greets.{open_session-greets, open_session-other_torrent}
use btb.Client.Swarm.{connecting, finished}
use btb.Client.Swarm.Served.Whole.{run_alone-served}
use btb.Client.Swarm.Served.{AreServed, slots, serving, taking, scripted}
use btb.Client.Thread.{run_alone}
use btb.Client.Download.{Machine, Download}
use btb.Client.Download.Correct.{IsSaved, Download-IsSaved}
use btb.Client.Download.Honest.{whole_file, Download-honest}
use btb.Base.{
  none, ℕ, zero, suc, ◌+◌, ◌*◌, ◌<◌, ◌≡◌, refl, true, List, [], ◌∷◌, ◌++◌, some, ok, replicate,
  length, length-replicate, arith, append-nil,
}

-- Blocks of zeros, as `calloc` gives them.
zeros : ℕ → List ℕ
zeros n = replicate n 0

length-zeros : (n : ℕ) → length (zeros n) ≡ n
unfolding zeros
length-zeros n = length-replicate n 0

abbrev sample : Torrent
sample = record {
  url = codes "http://t/a";
  total = 16384;
  file_name = codes "out";
  piece_size = 16384;
  hashes = replicate 20 1 ∷ [];
}

sample-IsTorrent : IsTorrent sample
sample-IsTorrent = record {
  url_short = omega arith;
  total_small = omega arith;
  name_short = omega arith;
  piece_small = omega arith;
  hashes_whole = (refl, tt);
  hashes_short = omega arith;
}

abbrev hash : List ℕ
hash = replicate 20 7

abbrev digest : List ℕ → List ℕ
digest bytes = hash

abbrev localhost : Peer
localhost = record { port = 6881; address = 127 ∷ 0 ∷ 0 ∷ 1 ∷ [] }

localhost-IsPeer : IsPeer localhost
localhost-IsPeer = record { four = refl; short = omega arith }

abbrev curl : Curl
curl = record {
  initialises = true;
  escape = λ bytes. bytes;
  perform = λ url. some (encode (answer 900 (localhost ∷ [])) ∷ []);
}

abbrev torrent : TorrentFile
torrent = filled digest sample init_torrent_file

abbrev request : List ℕ
request =
    codes
      "http://t/a?&peer_id=BTB-0123456789abcdef&port=6881&uploaded=0&downloaded=0&compact=1&left=16384&info_hash="
    ++ hash

requested : get_request curl torrent ≡ ok request
unfolding get_request decimal
requested = refl

abbrev machine : Machine
machine = record {
  torrent_fname = some (holding (encode (torrent_value sample)));
  sha1 = digest;
  curl = curl;
  malloc = zeros;
  disk = record { after_remove = []; opens = true; fwrite = λ i n. n };
}

-- The piece, in one block whose answer arrives in one part.
abbrev block : Answer
block = record { block = zeros 16384; cut = (piece 0 0 (zeros 16384)).payload ∷ [] }

abbrev pieces : List (List Answer)
pieces = (block ∷ []) ∷ []

served : AreServed torrent 0 pieces
served = (
  refl,
  (length-zeros 16384, (omega arith, tt), append-nil ((piece 0 0 (zeros 16384)).payload), tt),
  tt,
)

abbrev hello : HandshakeMsg
hello = greeting hash my_peer_id

has_the_piece : (j : ℕ) → j < 1 → has_piece (record { length = 1; bytes = 128 ∷ [] }) j ≡ ok true
unfolding has_piece
has_the_piece zero h = refl
has_the_piece (suc j) h = absurd (omega arith)

downloaded : Download machine (some ([] ++ whole_file pieces), true)
downloaded =
    Download-honest machine length-zeros sample sample-IsTorrent (omega arith) (omega arith)
      (omega arith) request 900 localhost 3 hello (128 ∷ []) ((128 ∷ []) ∷ []) pieces refl refl
      requested refl (omega arith) localhost-IsPeer refl
      (greeting-IsHandshake hash my_peer_id refl refl) refl refl (omega arith) (omega arith, tt)
      refl has_the_piece refl served refl (λ k. refl)

Download-IsSaved_example : IsSaved machine ([] ++ whole_file pieces)
Download-IsSaved_example = Download-IsSaved machine ([] ++ whole_file pieces) downloaded

abbrev incoming : List RecvCall
incoming =
    arriving (wire (greeting hash my_peer_id))
      ∷ answering (bitfield_msg (128 ∷ [])) ((128 ∷ []) ∷ [])
    ++ (answering unchoke [] ++ serving 0 pieces)

abbrev outgoing : List SendCall
outgoing = accepting 68 ∷ accepting 5 ∷ taking pieces

abbrev local : Local
local = record {
  failed_attempts = 0;
  c = some (
      opened_conn localhost 3 (serving 0 pieces) (taking pieces)
        (wire (greeting hash my_peer_id) ++ frame interested));
  peer_bf = record { length = 1; bytes = 128 ∷ [] };
}

open_session-other_torrent_example :
    open_session zeros torrent localhost
      (connected 3)
      (arriving (wire (greeting (replicate 20 8) my_peer_id)) ∷ [])
      (accepting 68 ∷ [])
    ≡ ok none
open_session-other_torrent_example =
    open_session-other_torrent zeros length-zeros torrent hash localhost 3
      (greeting (replicate 20 8) my_peer_id) [] [] refl refl
      (greeting-IsHandshake (replicate 20 8) my_peer_id refl refl) refl (λ e. cc)

run_alone-served_example :
    (started pool : PiecesPool) × (init_pieces_pool 1 ≡ ok started)
    × (run_alone zeros
          (scripted (connected 3) incoming outgoing (λ n. zeros 16384) (λ n. zeros 16384))
          (3 * 1 + 2)
          (record { pool = started; df = init_downloaded_file torrent })
          (connecting localhost)
        ≡ ok (
          record { pool = pool; df = record { pieces_buf = slots pieces; tf = torrent } },
          finished true,
        ))
    × (is_done pool ≡ ok true)
run_alone-served_example =
    run_alone-served zeros length-zeros torrent (omega arith) (omega arith) localhost (connected 3)
      incoming outgoing (λ n. zeros 16384) (λ n. zeros 16384) (λ n. length-zeros 16384)
      (λ n. length-zeros 16384) pieces local (opened_conn localhost 3 [] [] [])
      (wire (greeting hash my_peer_id) ++ frame interested) (omega arith) refl served
      (open_session-greets zeros length-zeros torrent hash localhost 3 (greeting hash my_peer_id)
        (128 ∷ []) ((128 ∷ []) ∷ []) (serving 0 pieces) (taking pieces) refl refl
        (greeting-IsHandshake hash my_peer_id refl refl) refl refl (omega arith) (omega arith, tt)
        refl)
      (omega arith) has_the_piece refl

parse_torrent_file-torrent_example :
    parse_torrent_file digest init_torrent_file (some (encode (torrent_value sample)))
    ≡ ok (torrent, true)
parse_torrent_file-torrent_example =
    parse_torrent_file-torrent digest sample init_torrent_file sample-IsTorrent

contact_tracker-answer_example :
    contact_tracker curl init_tracker_response torrent
    ≡ ok (record { interval = 900; peers = localhost ∷ [] }, true)
contact_tracker-answer_example =
    contact_tracker-answer curl init_tracker_response torrent request 900 (localhost ∷ [])
      (omega arith) (omega arith) (localhost-IsPeer, tt) refl requested refl
