-- ===== src/Heap/Thread.antt =====
-- The memory of `download_piece` and `download_torrent_thread_fun` in src/client.c, over every path:
-- the outcomes of the calls on the connection and of the tests are arguments. A result of type
-- `List ℕ` is the blocks that outlive the function.
pub mod Laws
pub mod Outcome
pub mod Pieces
pub mod Stored
use btb.Heap.{Mem, pure, and_then, ◌>>=◌, ◌>>◌, malloc, free, access, access_all}
use btb.Heap.Laws.{part_blocks}
use btb.Heap.Defer.{defer}
use btb.Heap.Message.{Sending, Reading, send_message, read_message}
use btb.Heap.Objects.{
  Owner, ConnBlocks, Opened, refused, opened, new_conn, free_conn, Decoding, new_handshake_msg,
  free_handshake_msg, new_handshake_msg_encoded, free_handshake_msg_encoded, new_decoded,
  new_message, free_message, new_bitfield, free_bitfield, new_piece_progress, free_piece_progress,
}
use btb.Conn.{Connecting}
use btb.Base.{ℕ, Bool, true, false, List, [], ◌∷◌, ◌++◌, Option, none, some, if◌then◌else◌}

-- A round of `download_piece`: whether the numbers fit the request, the request, the answer, whether
-- its ID is MSG_ID_PIECE, and whether its piece and its offset are those asked for.
pub record Exchange : Type 0 where
  pub fits : Bool
  pub request : Sending
  pub answer : Reading
  pub is_piece : Bool
  pub asked_for : Bool

-- A round of the download loop: whether the peer has the piece, and the rounds of `download_piece`.
pub record Round : Type 0 where
  pub has_it : Bool
  pub exchanges : List Exchange

pub record Peering : Type 0 where
  pub connecting : Connecting
  pub handshake_sent : Bool
  pub reply_received : Bool
  pub decoding : Decoding
  pub same_hash : Bool
  pub bitfield_reading : Reading
  pub is_bitfield : Bool
  pub interested : Sending
  pub state_reading : Reading
  pub is_unchoke : Bool
  pub rounds : List Round

-- `add_piece`: the copy stays, in the table of the file.
pub store_piece : Owner → Mem (List ℕ)
store_piece p = do block ← malloc; access p.self; access_all p.part; pure (block ∷ [])

-- The test of the answer and the `memcpy` into the piece.
pub store_answer : Owner → Exchange → Owner → Mem Bool
store_answer p x msg = do
  access msg.self
  let copy = do access p.self; access_all p.part; pure true
  let compare_numbers = do access_all msg.part; if x.asked_for then copy else pure false
  if x.is_piece then compare_numbers else pure false

pub take_answer : Owner → Exchange → Option Owner → Mem Bool
unfolding store_answer
take_answer p x none = pure false
take_answer p x (some msg) = defer (free_message (some msg)) (store_answer p x msg)

module _ (c : ℕ) where
  pub ask : Owner → Exchange → Owner → Mem Bool
  unfolding take_answer
  ask p x request = do
    sent ← send_message c request x.request
    let answer = do msg ← read_message c x.answer; take_answer p x msg
    if sent then answer else pure false

  -- One round of `download_piece`.
  pub exchange_block : Owner → Exchange → Mem Bool
  unfolding ask
  exchange_block p x = do
    access p.self
    let go = do request ← new_message 12 none; defer (free_message (some request)) (ask p x request)
    if x.fits then go else pure false

  -- `download_piece`
  pub exchange_blocks : Owner → List Exchange → Mem Bool
  unfolding exchange_block
  exchange_blocks p [] = pure true
  exchange_blocks p (x ∷ xs) = do
    stored ← exchange_block p x
    if stored then exchange_blocks p xs else pure false

  pub fetch_piece : Owner → List Exchange → Mem (List ℕ)
  unfolding exchange_blocks store_piece
  fetch_piece p xs = do done ← exchange_blocks p xs; if done then store_piece p else pure []

  -- One round of the download loop; a `continue` leaves the scope of the deferred release too.
  pub run_round : Owner → Round → Mem (List ℕ)
  unfolding fetch_piece
  run_round bf r = do
    access bf.self
    access_all bf.part
    let fetch = do
      p ← new_piece_progress
      defer (free_piece_progress (some p)) (fetch_piece p r.exchanges)
    if r.has_it then fetch else pure []

  pub run_rounds : Owner → List Round → Mem (List ℕ)
  unfolding run_round
  run_rounds bf [] = pure []
  run_rounds bf (r ∷ rs) = do
    stored ← run_round bf r
    later ← run_rounds bf rs
    pure (later ++ stored)

module _ (c : ℕ) (s : Peering) where
  -- The state message.
  pub run_state : Owner → Option Owner → Mem (List ℕ)
  run_state bf none = pure []
  run_state bf (some msg) =
      defer (free_message (some msg))
        (do access msg.self; if s.is_unchoke then run_rounds c bf s.rounds else pure [])

  pub run_interested : Owner → Owner → Mem (List ℕ)
  run_interested bf msg = do
    sent ← send_message c msg s.interested
    let wait = do state ← read_message c s.state_reading; run_state bf state
    if sent then wait else pure []

  pub ask_for_pieces : Owner → Mem (List ℕ)
  ask_for_pieces bf = do
    interested_msg ← new_message 0 none
    defer (free_message (some interested_msg)) (run_interested bf interested_msg)

  -- The bitfield message.
  pub copy_bitfield : Owner → Mem (List ℕ)
  copy_bitfield msg = do
    access msg.self
    let copy = do bf ← new_bitfield msg.part; defer (free_bitfield (some bf)) (ask_for_pieces bf)
    if s.is_bitfield then copy else pure []

  pub run_bitfield : Option Owner → Mem (List ℕ)
  run_bitfield none = pure []
  run_bitfield (some msg) = defer (free_message (some msg)) (copy_bitfield msg)

  -- The buffer `bitfield_buf` is not used.
  pub await_bitfield_msg : Mem (List ℕ)
  await_bitfield_msg = do
    bitfield_buf ← malloc
    defer (free (some bitfield_buf)) (do msg ← read_message c s.bitfield_reading; run_bitfield msg)

  pub compare_hashes : Owner → Option Owner → Mem (List ℕ)
  compare_hashes hm none = pure []
  compare_hashes hm (some reply) = do
    access reply.self
    access hm.self
    if s.same_hash then await_bitfield_msg else pure []

  -- The release of the reply is deferred before the test for NULL.
  pub take_reply : Owner → Option Owner → Mem (List ℕ)
  take_reply hm reply = defer (free_handshake_msg reply) (compare_hashes hm reply)

  pub read_reply : Owner → Owner → ℕ → Mem (List ℕ)
  read_reply hm encoded hm_buf = do
    access encoded.self
    access c
    access hm_buf
    let decode = do reply ← new_decoded hm_buf s.decoding; take_reply hm reply
    if s.reply_received then decode else pure []

  pub send_handshake : Owner → Owner → Mem (List ℕ)
  send_handshake hm encoded = do
    access encoded.self
    access c
    access_all encoded.part
    let receive = do hm_buf ← malloc; defer (free (some hm_buf)) (read_reply hm encoded hm_buf)
    if s.handshake_sent then receive else pure []

  pub with_encoded : Owner → Mem (List ℕ)
  with_encoded hm = do
    encoded ← new_handshake_msg_encoded hm
    defer (free_handshake_msg_encoded (some encoded)) (send_handshake hm encoded)

  pub run_session : Mem (List ℕ)
  run_session = do hm ← new_handshake_msg; defer (free_handshake_msg (some hm)) (with_encoded hm)

-- A NULL of `init_conn` is deferred for release too. The socket that it leaves open is the one block
-- that remains.
pub run_opened : Peering → Opened → Mem (List ℕ)
run_opened s (refused socket) = defer (free_conn none) (pure (part_blocks socket))
run_opened s (opened c) = defer (free_conn (some c)) (run_session c.self s)

-- `download_torrent_thread_fun`
pub run_thread : Peering → Mem (List ℕ)
run_thread s = do c ← new_conn s.connecting; run_opened s c
