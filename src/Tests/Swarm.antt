-- ===== src/Tests/Swarm.antt =====
-- One thread that downloads a torrent of one piece of one byte, step by step: src/client.c at a
-- concrete input, from the handshake to the file.
use btb.HandshakeMsg.{
  HandshakeMsg, codes, my_peer_id, init_handshake_msg, encode_handshake_msg, decode_handshake_msg,
}
use btb.HandshakeMsg.Codec.{wire}
use btb.BigEndian.{lu_to_big_endian, big_endian_to_lu}
use btb.Bitfield.{init_bitfield, has_piece, set_piece}
use btb.PiecesPool.{PiecesPool, init_pieces_pool, get_piece_index, is_done}
use btb.PieceProgress.{init_piece_progress}
use btb.TorrentFile.{TorrentFile}
use btb.DownloadedFile.{DownloadedFile, init_downloaded_file, add_piece, has_all_pieces}
use btb.Peer.{Peer}
use btb.Conn.{Conn, Connecting, RecvCall, SendCall, init_conn, send_data, receive_data}
use btb.Message.{
  Message, init_message, encode_message, send_message_to_conn, read_message_from_conn,
}
use btb.Message.Codec.{frame}
use btb.Message.Framing.{arriving}
use btb.Client.DownloadPiece.{download_piece, num_blocks}
use btb.Client.DownloadPiece.Received.{Blocks, download_piece-Blocks}
use btb.Client.DownloadPiece.Exchange.{accepting, answering, request, piece}
use btb.Client.Session.{Local, open_session}
use btb.Client.Swarm.{
  Pc, connecting, looping, picking, holding, finished, System, opened, all_done, go_on, pick,
  downloaded, Step, run, Reach, start, later,
}
use btb.Client.Swarm.Invariant.{IsSystem, Reach-IsSystem}
use btb.Client.Swarm.Contents.{IsFetched, Reach-IsFetched}
use btb.Client.Swarm.Refinement.{IsTrace, Reach-IsTrace}
use btb.Client.Swarm.Bound.{Run, at_start, step, Run-bound}
use btb.Client.Swarm.Safety.{held_once, finished_complete}
use btb.Base.{
  ℕ, ◌≤◌, ◌+◌, ◌*◌, ◌≡◌, refl, Bool, true, List, [], ◌∷◌, ◌++◌, Option, none, some, ok, replicate,
  arith,
}

abbrev malloc : ℕ → List ℕ
malloc n = replicate n 0

abbrev one_piece : TorrentFile
one_piece = record {
  announce = none;
  comment = none;
  info_hash = some (replicate 20 7);
  piece_length = 1;
  num_pieces = 1;
  piece_hashes = [];
  length = 1;
  name = none;
}

abbrev localhost : Peer
localhost = record { port = 6881; address = 127 ∷ 0 ∷ 0 ∷ 1 ∷ [] }

abbrev connected : Connecting
connected = record { resolves = true; clock_ok = true; in_time = true; connects = true; sockfd = 3 }

abbrev greeting : HandshakeMsg
greeting = record {
  pstrlen = 19;
  pstr = codes "BitTorrent protocol";
  reserved = replicate 8 0;
  info_hash = replicate 20 7;
  peer_id = my_peer_id;
}

abbrev has_the_piece : Message
has_the_piece = record { id = 5; payload_len = 1; payload = 128 ∷ [] }

abbrev unchoke : Message
unchoke = record { id = 1; payload_len = 0; payload = [] }

abbrev interested : Message
interested = record { id = 2; payload_len = 0; payload = [] }

abbrev the_byte : List RecvCall
the_byte = answering (piece 0 0 (42 ∷ [])) ((piece 0 0 (42 ∷ [])).payload ∷ [])

abbrev incoming : List RecvCall
incoming =
    arriving (wire greeting)
    ∷ (answering has_the_piece ((128 ∷ []) ∷ []) ++ (answering unchoke [] ++ the_byte))

abbrev outgoing : List SendCall
outgoing = accepting 68 ∷ accepting 5 ∷ accepting 17 ∷ []

abbrev link : List RecvCall → List SendCall → List ℕ → Conn
link to_come to_take sent = record {
  addr = codes "127.0.0.1";
  port = 6881;
  sockfd = 3;
  incoming = to_come;
  outgoing = to_take;
  sent = sent;
}

abbrev ready : Local
ready = record {
  failed_attempts = 0;
  c = some (link the_byte (accepting 17 ∷ []) (wire greeting ++ frame interested));
  peer_bf = record { length = 1; bytes = 128 ∷ [] };
}

session : open_session malloc one_piece localhost connected incoming outgoing ≡ ok (some ready)
unfolding open_session init_conn init_handshake_msg encode_handshake_msg decode_handshake_msg
    send_data receive_data send_message_to_conn read_message_from_conn encode_message init_message
    init_bitfield lu_to_big_endian big_endian_to_lu
session = refl

abbrev pool_with : ℕ → PiecesPool
pool_with byte = record {
  current_bitfield = record { length = 1; bytes = byte ∷ [] };
  num_pieces = 1;
}

abbrev file_with : Option (List ℕ) → DownloadedFile
file_with slot = record { pieces_buf = slot ∷ []; tf = one_piece }

abbrev system : ℕ → Option (List ℕ) → Pc → System
system byte slot pc = record {
  shared = record { pool = pool_with byte; df = file_with slot };
  threads = pc ∷ [];
}

abbrev started : System
started = system 0 none (connecting localhost)

abbrev holding_it : System
holding_it = system 128 none (holding ready 0)

abbrev after_it : Local
after_it = record {
  failed_attempts = 0;
  c = some (link [] [] (wire greeting ++ (frame interested ++ frame (request 0 0))));
  peer_bf = record { length = 1; bytes = 128 ∷ [] };
}

abbrev ended : System
ended = system 128 (some (42 ∷ [])) (finished true)

Step-open : Step malloc started (system 0 none (looping ready))
Step-open =
    run 0 (connecting localhost) (looping ready) refl
      (opened localhost connected incoming outgoing session refl) refl

Step-go_on : Step malloc (system 0 none (looping ready)) (system 0 none (picking ready))
unfolding is_done has_piece
Step-go_on = run 0 (looping ready) (picking ready) refl (go_on refl (omega arith) refl) refl

Step-pick : Step malloc (system 0 none (picking ready)) holding_it
unfolding get_piece_index has_piece set_piece
Step-pick = run 0 (picking ready) (holding ready 0) refl (pick (pool_with 128) refl refl) refl

Reach-holding : Reach malloc one_piece (localhost ∷ []) holding_it
unfolding init_pieces_pool init_bitfield init_downloaded_file
Reach-holding = later (later (later (start (refl, refl, refl)) Step-open) Step-go_on) Step-pick

piece_downloaded :
    download_piece malloc (init_piece_progress 0 1 (0 ∷ [])) ready.c
    ≡ ok (record { index = 0; size = 1; buf = 42 ∷ []; downloaded = 1 }, after_it.c, true)
unfolding download_piece send_data receive_data send_message_to_conn read_message_from_conn
    encode_message init_message lu_to_big_endian big_endian_to_lu
piece_downloaded = refl

download_piece-Blocks_example :
    Blocks malloc
      (record { index = 0; size = 1; buf = 42 ∷ []; downloaded = 1 })
      after_it.c
      (num_blocks 1)
      (init_piece_progress 0 1 (0 ∷ []))
      ready.c
download_piece-Blocks_example =
    download_piece-Blocks malloc (init_piece_progress 0 1 (0 ∷ []))
      (record { index = 0; size = 1; buf = 42 ∷ []; downloaded = 1 }) ready.c after_it.c refl
      piece_downloaded

Step-store : Step malloc holding_it (system 128 (some (42 ∷ [])) (looping after_it))
unfolding has_piece add_piece
Step-store =
    run 0 (holding ready 0) (looping after_it) refl
      (downloaded (file_with (some (42 ∷ []))) (0 ∷ []) (0 ∷ []) _ refl refl refl piece_downloaded
        refl refl)
      refl

Step-end : Step malloc (system 128 (some (42 ∷ [])) (looping after_it)) ended
unfolding is_done has_piece
Step-end = run 0 (looping after_it) (finished true) refl (all_done refl refl) refl

Reach-ended : Reach malloc one_piece (localhost ∷ []) ended
Reach-ended = later (later Reach-holding Step-store) Step-end

held_once_example : ◌≡◌ {A = ℕ} 0 0
held_once_example =
    held_once malloc one_piece (localhost ∷ []) holding_it (omega arith) (omega arith) Reach-holding
      0 0 0 ready ready (omega arith) refl refl

finished_complete_example :
    (r : Bool) × (is_done ended.shared.pool ≡ ok r) × (has_all_pieces ended.shared.df ≡ ok r)
finished_complete_example =
    finished_complete malloc one_piece (localhost ∷ []) ended (omega arith) (omega arith)
      Reach-ended ((true, refl), tt)

Reach-IsSystem_example : IsSystem one_piece ended
Reach-IsSystem_example =
    Reach-IsSystem malloc one_piece (localhost ∷ []) ended (omega arith) (omega arith) Reach-ended

Reach-IsFetched_example : IsFetched Reach-ended
Reach-IsFetched_example = Reach-IsFetched malloc one_piece (localhost ∷ []) ended Reach-ended

Reach-IsTrace_example : IsTrace Reach-ended
Reach-IsTrace_example =
    Reach-IsTrace malloc one_piece (localhost ∷ []) ended (omega arith) (omega arith) Reach-ended

Run-ended : Run malloc one_piece (localhost ∷ []) 5 ended
unfolding init_pieces_pool init_bitfield init_downloaded_file
Run-ended =
    step
      (step (step (step (step (at_start (refl, refl, refl)) Step-open) Step-go_on) Step-pick)
        Step-store)
      Step-end

Run-bound_example : 5 ≤ 26 * 1 + 3 * 1
Run-bound_example =
    Run-bound malloc one_piece (localhost ∷ []) 5 ended (omega arith) (omega arith) Run-ended
