-- ===== src/Tests/Heap.antt =====
-- The memory of the program at concrete inputs.
use btb.Tokenizer.{Tokenizer, start}
use btb.Heap.{Heap}
use btb.Heap.Laws.{IsHeap, Returns}
use btb.Heap.Message.{Sending, Reading}
use btb.Heap.Thread.{Exchange, Round, Peering, run_thread}
use btb.Heap.Thread.Outcome.{remaining, run_thread-memory}
use btb.Heap.Tables.{TorrentBlocks, use_downloaded_file, use_tracker_response, free_torrent_file}
use btb.Heap.Tables.File.{use_downloaded_file-memory}
use btb.Heap.Tables.Response.{use_tracker_response-memory}
use btb.Heap.Tables.Torrent.{free_torrent_file-memory}
use btb.Heap.Tokenizer.{use_tokenizer}
use btb.Heap.Tokenizer.Once.{next_calls, use_tokenizer-once}
use btb.Base.{
  ℕ, ◌≤◌, ◌≡◌, refl, Bool, true, false, List, [], ◌∷◌, ◌++◌, length, none, some, pos, arith,
}

-- Two blocks are in use.
abbrev two_blocks : Heap
two_blocks = record { fresh = 3; live = 2 ∷ 0 ∷ [] }

two_blocks-IsHeap : IsHeap two_blocks
two_blocks-IsHeap = omega arith

abbrev sent : Sending
sent = record { fits = true; sends = true }

abbrev received : ℕ → Reading
received n = record { header = true; payload_len = n; payload = true }

abbrev exchange : Bool → Exchange
exchange good = record {
  fits = true;
  request = sent;
  answer = received 16;
  is_piece = true;
  asked_for = good;
}

-- The first piece is stored, the second is answered wrongly, and the peer does not have the third.
abbrev three_rounds : List Round
three_rounds =
    record { has_it = true; exchanges = exchange true ∷ exchange true ∷ [] }
    ∷ record { has_it = true; exchanges = exchange true ∷ exchange false ∷ [] }
    ∷ record { has_it = false; exchanges = [] }
    ∷ []

abbrev peering : Peering
peering = record {
  connecting = record {
    resolves = true;
    clock_ok = true;
    in_time = true;
    connects = true;
    sockfd = 4;
  };
  handshake_sent = true;
  reply_received = true;
  decoding = record {
    nonempty = true;
    pstr_fits = true;
    reserved_fits = true;
    info_hash_fits = true;
    peer_id_fits = true;
  };
  same_hash = true;
  bitfield_reading = received 1;
  is_bitfield = true;
  interested = sent;
  state_reading = received 0;
  is_unchoke = true;
  rounds = three_rounds;
}

run_thread-memory_example :
    Returns
      (λ left h'.
        (IsHeap h' × (h'.live ≡ left ++ two_blocks.live)) × (length left ≡ remaining peering))
      (run_thread peering two_blocks)
run_thread-memory_example = run_thread-memory peering two_blocks two_blocks-IsHeap

one_piece : remaining peering ≡ 1
one_piece = refl

use_downloaded_file-memory_example :
    Returns
      (λ u h'. IsHeap h' × (h'.live ≡ two_blocks.live))
      (use_downloaded_file 3 (2 ∷ 0 ∷ []) two_blocks)
use_downloaded_file-memory_example =
    use_downloaded_file-memory 3 (2 ∷ 0 ∷ []) two_blocks (omega arith) ((omega arith, tt), (tt, tt))
      two_blocks-IsHeap

use_tracker_response-memory_example :
    Returns (λ u h'. IsHeap h' × (h'.live ≡ two_blocks.live)) (use_tracker_response 2 two_blocks)
use_tracker_response-memory_example = use_tracker_response-memory 2 two_blocks two_blocks-IsHeap

-- A torrent of two hashes without a comment, on one more block.
abbrev torrent_blocks : TorrentBlocks
torrent_blocks = record {
  self = 1;
  name = some 3;
  piece_hashes = some 4;
  hashes = some 5 ∷ some 6 ∷ [];
  info_hash = some 7;
  comment = none;
  announce = some 2;
}

abbrev torrent_heap : Heap
torrent_heap = record { fresh = 8; live = 7 ∷ 6 ∷ 5 ∷ 4 ∷ 3 ∷ 2 ∷ 1 ∷ 0 ∷ [] }

free_torrent_file-memory_example :
    Returns (λ u h'. IsHeap h' × (h'.live ≡ 0 ∷ [])) (free_torrent_file torrent_blocks torrent_heap)
free_torrent_file-memory_example =
    free_torrent_file-memory torrent_blocks (7 ∷ 6 ∷ 5 ∷ 4 ∷ 3 ∷ 2 ∷ []) (0 ∷ []) torrent_heap
      (omega arith) refl
      (
        7 ∷ 6 ∷ 5 ∷ 4 ∷ [],
        2 ∷ [],
        refl,
        (
          7 ∷ 6 ∷ [],
          4 ∷ 2 ∷ [],
          refl,
          (
            7 ∷ [],
            4 ∷ 2 ∷ [],
            refl,
            (7 ∷ [], 2 ∷ [], refl, ([], 2 ∷ [], refl, ([], [], refl, refl))),
          ),
        ),
      )

-- `i7x`: the number is followed by something else than its `e`.
abbrev unclosed : Tokenizer
unclosed = record {
  data_size = 3;
  bytes = b'i' ∷ b'7' ∷ b'x' ∷ [];
  current = 0;
  token_size = 0;
  token = [];
  status_fn = start;
  strlen = 0;
  list_dict_stack = pos 0;
}

use_tokenizer-once_example :
    Returns
      (λ u h'.
        (lost : List ℕ) × (IsHeap h') × (h'.live ≡ lost ++ two_blocks.live) × (length lost ≤ 1))
      (use_tokenizer (next_calls 3 unclosed) two_blocks)
use_tokenizer-once_example = use_tokenizer-once 3 unclosed two_blocks two_blocks-IsHeap
