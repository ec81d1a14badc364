-- ===== src/Client/Download/Honest.antt =====
-- A whole download in src/client.c: a torrent file, a tracker that names one peer, and a peer that
-- follows the protocol and has every piece.
use btb.FileBuf.{InFile}
use btb.FileBuf.Laws.{holding, read_file-whole}
use btb.HandshakeMsg.{HandshakeMsg}
use btb.HandshakeMsg.Codec.{IsHandshake}
use btb.Bitfield.{has_piece}
use btb.PiecesPool.{PiecesPool, is_done}
use btb.PiecesPool.Laws.{init_pieces_pool-IsPool}
use btb.Tokenizer.Bencode.{encode}
use btb.TorrentFile.{TorrentFile, init_torrent_file}
use btb.TorrentFile.Parse.{parse_torrent_file}
use btb.TorrentFile.Parse.Whole.{Torrent, IsTorrent, info_value, torrent_value}
use btb.TorrentFile.Parse.Filled.{filled, parse_torrent_file-torrent}
use btb.TrackerResponse.{get_request, contact_tracker, init_tracker_response}
use btb.TrackerResponse.Peers.{IsPeer}
use btb.TrackerResponse.Answer.{answer, contact_tracker-answer}
use btb.DownloadedFile.{DownloadedFile, Disk, init_downloaded_file}
use btb.DownloadedFile.Laws.{joined, write_to_file_lem}
use btb.Peer.{Peer}
use btb.Message.Framing
use btb.Message.Framing.{ArePieces}
use btb.Client.DownloadPiece.Laws.{Answer, blocks}
use btb.Client.Session.Messages.{connected, opened_conn}
use btb.Client.Session.Greets.{open_session-greets}
use btb.Client.Swarm.{System, Pc, connecting, finished, Reach}
use btb.Client.Swarm.Bound.{Run-Reach}
use btb.Client.Swarm.Served.Whole.{serve-Run}
use btb.Client.Swarm.Served.{AreServed, slots, serving, taking, length-blocks}
use btb.Client.Download.{Machine, Job, Download, ran, prepare, finish, start_threads}
use btb.Client.Download.Correct.{saved}
use btb.Base.{
  ℕ, zero, suc, ◌+◌, ◌^◌, ◌≤◌, ◌<◌, ◌≡◌, refl, sym, ◌∙◌, ap, Bool, true, List, [], ◌∷◌, ◌++◌,
  Option, some, ok, arith, length, get_elem?, get_elem?-head, append_assoc, length-append,
}

-- The bytes of the pieces, in their order.
abbrev pub whole_file : List (List Answer) → List ℕ
whole_file [] = []
whole_file (answers ∷ pieces) = blocks answers ++ whole_file pieces

length-slots : (pieces : List (List Answer)) → length (slots pieces) ≡ length pieces
length-slots [] = refl
length-slots (answers ∷ pieces) = ap suc (length-slots pieces)

slots-served :
    (tf : TorrentFile) (i j : ℕ) (pieces : List (List Answer))
    → AreServed tf i pieces
    → j < length pieces
    → (bytes : List ℕ) × (get_elem? (slots pieces) j ≡ some (some bytes))
      × (length bytes ≡ tf.piece_length)
slots-served tf i j [] served h = absurd (omega arith)
slots-served tf i zero (answers ∷ pieces) (size, answered, served) h =
    (blocks answers, refl, length-blocks i 0 answers answered ∙ sym size)
slots-served tf i (suc j) (answers ∷ pieces) (size, answered, served) h =
    slots-served tf (i + 1) j pieces served (omega arith)

joined-slots :
    (done : List (Option (List ℕ))) (pieces : List (List Answer))
    → joined (length pieces) (length done) (done ++ slots pieces) ≡ whole_file pieces
joined-slots done [] = refl
joined-slots done (answers ∷ pieces) =
    let here = get_elem?-head done (some (blocks answers)) (slots pieces) in
    let next : length (done ++ some (blocks answers) ∷ []) ≡ length done + 1 =
      length-append done (some (blocks answers) ∷ []) in
    let rest = joined-slots (done ++ some (blocks answers) ∷ []) pieces in
    let regrouped = append_assoc done (some (blocks answers) ∷ []) (slots pieces) in
    rw here (ap (◌++◌ (blocks answers)) (rw (next, regrouped) at rest))

-- The tests that lead to the threads all pass.
prepare-steps :
    (m : Machine) (content : List ℕ) (tf : TorrentFile) (interval : ℕ) (peers : List Peer)
    (job : Job)
    → m.torrent_fname ≡ some (holding content)
    → parse_torrent_file m.sha1 init_torrent_file (some content) ≡ ok (tf, true)
    → contact_tracker m.curl init_tracker_response tf
      ≡ ok (record { interval = interval; peers = peers }, true)
    → start_threads tf peers ≡ ok (some job)
    → prepare m ≡ ok (some job)
unfolding prepare
prepare-steps m content tf interval peers job file parsed answered started =
    ap (λ (f : Option InFile). prepare (record m { torrent_fname = f })) file
    ∙ rw (read_file-whole content, parsed, answered) started

start_one :
    (tf : TorrentFile) (peer : Peer)
    → 0 < tf.num_pieces
    → tf.num_pieces ≤ 2 ^ 31
    → (job : Job) × (start_threads tf (peer ∷ []) ≡ ok (some job))
      × (job.tf ≡ tf)
      × (job.peers ≡ peer ∷ [])
unfolding start_threads
start_one tf peer some_pieces few =
    let (pool, made, valid, num, none_taken) =
      init_pieces_pool-IsPool tf.num_pieces some_pieces few in
    let job : Job = record {
      tf = tf;
      peers = peer ∷ [];
      system = record {
        shared = record { pool = pool; df = init_downloaded_file tf };
        threads = connecting peer ∷ [];
      };
    } in
    (job, rw made refl, refl, refl)

finish-slots :
    (tf : TorrentFile) (pool : PiecesPool) (pieces : List (List Answer)) (threads : List Pc)
    (disk : Disk) (file_name : List ℕ)
    → is_done pool ≡ ok true
    → length pieces ≡ tf.num_pieces
    → AreServed tf 0 pieces
    → tf.name ≡ some file_name
    → tf.piece_length < 2 ^ 31
    → disk.opens ≡ true
    → ((k : ℕ) → disk.fwrite k tf.piece_length ≡ tf.piece_length)
    → finish
        (record {
          shared = record { pool = pool; df = record { pieces_buf = slots pieces; tf = tf } };
          threads = threads;
        })
        disk
      ≡ ok (some (disk.after_remove ++ whole_file pieces), true)
unfolding finish
finish-slots tf pool pieces threads disk file_name done all served named short opens full =
    let df : DownloadedFile = record { pieces_buf = slots pieces; tf = tf } in
    let written =
      write_to_file_lem df disk file_name (record { slots = length-slots pieces ∙ all })
        (λ i h. slots-served tf 0 i pieces served (omega arith)) named short opens full in
    let bytes : joined tf.num_pieces 0 (slots pieces) ≡ whole_file pieces =
      ap (λ (n : ℕ). joined n 0 (slots pieces)) (sym all) ∙ joined-slots [] pieces in
    rw done (written ∙ ap (λ (b : List ℕ). saved (disk.after_remove ++ b)) bytes)

-- A download can come out so.
reached :
    (m : Machine) (job : Job) (s : System) (r : Bool) (contents : List ℕ)
    → prepare m ≡ ok (some job)
    → Reach m.malloc job.tf job.peers s
    → s.threads ≡ finished r ∷ []
    → finish s m.disk ≡ saved contents
    → Download m (some contents, true)
reached m job s r contents prepared runs ended e =
    ran job s prepared runs (rw ended ((r, refl), tt)) e

module _ (m : Machine) (malloc_length : (n : ℕ) → length (m.malloc n) ≡ n) (t : Torrent)
    (v : IsTorrent t) (some_pieces : 0 < length t.hashes) (few_pieces : length t.hashes ≤ 2 ^ 31)
    (short : t.piece_size < 2 ^ 31) where
  abbrev torrent : TorrentFile
  torrent = filled m.sha1 t init_torrent_file

  pub Download-honest :
      (request : List ℕ) (interval : ℕ) (peer : Peer) (sockfd : ℕ) (reply : HandshakeMsg)
      (bits : List ℕ) (cut : List (List ℕ)) (pieces : List (List Answer))
      → m.torrent_fname ≡ some (holding (encode (torrent_value t)))
      → m.curl.initialises ≡ true
      → get_request m.curl torrent ≡ ok request
      → m.curl.perform request ≡ some (encode (answer interval (peer ∷ [])) ∷ [])
      → interval < 2 ^ 63
      → IsPeer peer
      → length (m.sha1 (encode (info_value t))) ≡ 20
      → IsHandshake reply
      → reply.pstrlen ≡ 19
      → reply.info_hash ≡ m.sha1 (encode (info_value t))
      → length bits < 2 ^ 30
      → ArePieces cut
      → Framing.joined cut ≡ bits
      → ((j : ℕ)
          → j < length t.hashes
          → has_piece (record { length = length bits; bytes = bits }) j ≡ ok true)
      → length pieces ≡ length t.hashes
      → AreServed torrent 0 pieces
      → m.disk.opens ≡ true
      → ((k : ℕ) → m.disk.fwrite k t.piece_size ≡ t.piece_size)
      → Download m (some (m.disk.after_remove ++ whole_file pieces), true)
  Download-honest request interval peer sockfd reply bits cut pieces file live asked answered small
        is_peer hash_sized is_handshake is_default same_hash few_bits are_pieces whole has all
        served opens full =
      let parsed = parse_torrent_file-torrent m.sha1 t init_torrent_file v in
      let contacted =
        contact_tracker-answer m.curl init_tracker_response torrent request interval (peer ∷ [])
          small (omega arith) (is_peer, tt) live asked answered in
      let (job, started, same_tf, same_peers) = start_one torrent peer some_pieces few_pieces in
      let prepared =
        prepare-steps m (encode (torrent_value t)) torrent interval (peer ∷ []) job file parsed
          contacted started in
      let hash = m.sha1 (encode (info_value t)) in
      let session =
        open_session-greets m.malloc malloc_length torrent hash peer sockfd reply bits cut
          (serving 0 pieces) (taking pieces) refl hash_sized is_handshake is_default same_hash
          few_bits are_pieces whole in
      let (n, pool, runs, done) =
        serve-Run m.malloc malloc_length torrent few_pieces short peer (connected sockfd) _ _
          (λ n. m.malloc t.piece_size) (λ n. m.malloc t.piece_size)
          (λ n. malloc_length t.piece_size) (λ n. malloc_length t.piece_size) pieces _
          (opened_conn peer sockfd [] [] []) _ some_pieces all served session (omega arith) has
          refl in
      let runs' = Run-Reach m.malloc torrent (peer ∷ []) n _ runs in
      reached m job _ true _ prepared (rw (same_tf, same_peers) runs') refl (
        finish-slots torrent pool pieces (finished true ∷ []) m.disk t.file_name done all served
          refl short opens full)
