-- ===== src/Client/DownloadPiece/Exchange.antt =====
-- One request and its answer.
use btb.Base.{
  ℕ, ◌+◌, ◌-◌, ◌*◌, ◌%◌, ◌^◌, ◌≤◌, ◌<◌, ◌≡◌, refl, true, false, List, [], ◌∷◌, ◌++◌, map, Option,
  some, ok, arith, length, take, drop, take_all, append-nil, u64_mod, read_range-append, lt→ltb,
  drop_all, write_range-end, length-drop,
}
use btb.BigEndian.{big_endian_to_lu}
use btb.BigEndian.Laws.{
  be_bytes, be_value, be_bytes-IsByte, be_value-be_bytes, lu_to_big_endian_lem,
  big_endian_to_lu_four,
}
use btb.PieceProgress.{PieceProgress, block_size}
use btb.Conn.{Conn, RecvCall, SendCall, send_data}
use btb.Message.{Message, init_message, send_message_to_conn, msg_id_request, msg_id_piece}
use btb.Message.Codec.{IsMessage, frame, encode_message-frame}
use btb.Message.Framing.{arriving, joined, ArePieces, read_message_from_conn-frame}
use btb.Client.DownloadPiece.{request_payload, store_block, download_block, receive_block}

-- A call of `send` that takes all of `n` bytes in time.
abbrev pub accepting : ℕ → SendCall
accepting n = record { clock_ok = true; in_time = true; fails = false; accepted = n }

-- The connection with these scripts and this record of what was sent.
abbrev pub linked : Conn → List RecvCall → List SendCall → List ℕ → Conn
linked c incoming outgoing sent = record c { incoming = incoming; outgoing = outgoing; sent = sent }

-- The request for a block, and its answer.
abbrev pub request : ℕ → ℕ → Message
request index offset = record {
  id = msg_id_request;
  payload_len = 12;
  payload = be_bytes 4 index ++ (be_bytes 4 offset ++ be_bytes 4 block_size);
}

abbrev pub piece : ℕ → ℕ → List ℕ → Message
piece index offset block = record {
  id = msg_id_piece;
  payload_len = 8 + length block;
  payload = be_bytes 4 index ++ (be_bytes 4 offset ++ block);
}

request-IsMessage : (index offset : ℕ) → IsMessage (request index offset)
request-IsMessage index offset = record { id_byte = omega arith; sized = refl; short = omega arith }

pub piece-IsMessage :
    (index offset : ℕ) (block : List ℕ)
    → length block < 2 ^ 30
    → IsMessage (piece index offset block)
piece-IsMessage index offset block h = record {
  id_byte = omega arith;
  sized = omega arith;
  short = omega arith;
}

-- The bytes of a wire number, read back.
pub read_number :
    (n : ℕ) (rest : List ℕ) → n < 2 ^ 31 → big_endian_to_lu (be_bytes 4 n ++ rest) 4 ≡ ok n
read_number n rest h =
    let bs = be_bytes-IsByte 4 n in
    let v : be_value (be_bytes 4 n) ≡ n = omega (arith, be_value-be_bytes 4 n) in
    rw (big_endian_to_lu_four _ _ _ _ rest bs.0 bs.1.0 bs.1.1.0 bs.1.1.1.0, v, lt→ltb n (2 ^ 31) h)

module _ (malloc : ℕ → List ℕ) (malloc_length : (n : ℕ) → length (malloc n) ≡ n) where
  -- A message goes out whole.
  pub send_message_to_conn-accepting :
      (msg : Message) (c : Conn) (incoming : List RecvCall) (outgoing : List SendCall)
      (sent : List ℕ)
      → IsMessage msg
      → 5 + msg.payload_len < 2 ^ 31
      → send_message_to_conn malloc msg
          (some (linked c incoming (accepting (5 + msg.payload_len) ∷ outgoing) sent))
        ≡ ok (some (linked c incoming outgoing (sent ++ frame msg)), true)
  unfolding send_message_to_conn send_data
  send_message_to_conn-accepting msg c incoming outgoing sent v small =
      let n = 5 + msg.payload_len in
      let sized : length (frame msg) ≡ n = omega (arith, v.sized) in
      ground (
        arith,
        encode_message-frame malloc malloc_length msg v,
        take_all n (frame msg) sized,
        sized,
        small,
      )

  request_payload_lem :
      (p : PieceProgress) (offset : ℕ)
      → request_payload malloc p offset ≡ ok ((request p.index offset).payload)
  unfolding request_payload
  request_payload_lem p offset =
      let a = be_bytes 4 p.index in
      let b = be_bytes 4 offset in
      let block = malloc 12 in
      let sized = malloc_length 12 in
      let e₁ = lu_to_big_endian_lem p.index block 0 4 (omega arith) (omega arith) in
      let l₁ = length-drop 4 block in
      let e₂ = lu_to_big_endian_lem offset (a ++ drop 4 block) 4 4 (omega arith) (omega arith) in
      let e₃ =
        lu_to_big_endian_lem block_size (a ++ (b ++ drop 4 (drop 4 block))) 8 4 (omega arith)
          (omega (arith, l₁, length-drop 4 (drop 4 block))) in
      let last : drop 4 (drop 4 (drop 4 block)) ≡ [] =
        drop_all 4 (drop 4 (drop 4 block)) (omega (arith, l₁, length-drop 4 (drop 4 block))) in
      rw (e₁, e₂, e₃, last)

-- The calls of `recv` that bring an answer, its payload cut into these pieces.
abbrev pub answering : Message → List (List ℕ) → List RecvCall
answering msg cut = arriving (take 5 (frame msg)) ∷ map arriving cut

-- The block of an answer is copied behind the part of the piece that is there.
store_block-piece :
    (p : PieceProgress) (filled old block : List ℕ) (c : Option Conn)
    → p.index < 2 ^ 31
    → length filled < 2 ^ 31
    → length block < 2 ^ 30
    → length block ≤ length old
    → p.buf ≡ filled ++ old
    → store_block p (length filled) c (piece p.index (length filled) block)
      ≡ ok (
        record p {
          buf = filled ++ (block ++ drop (length block) old);
          downloaded = p.downloaded + 1;
        },
        c,
        true,
      )
unfolding store_block
store_block-piece p filled old block c index offset small room e =
    let number = read_number p.index (be_bytes 4 (length filled) ++ block) index in
    let at = read_number (length filled) block offset in
    let size : (8 + length block + u64_mod - 4 - 4) % u64_mod ≡ length block = omega arith in
    let bytes = read_range-append (be_bytes 4 p.index ++ be_bytes 4 (length filled)) block [] in
    let copied = write_range-end filled old block room in
    ground (arith, number, at, size, bytes, append-nil block, copied, e)

module _ (malloc : ℕ → List ℕ) (malloc_length : (n : ℕ) → length (malloc n) ≡ n) where
  -- A block that is answered is requested, received and stored.
  pub download_block-answering :
      (p : PieceProgress) (filled old block : List ℕ) (cut : List (List ℕ)) (c : Conn)
      (incoming : List RecvCall) (outgoing : List SendCall) (sent : List ℕ)
      → p.index < 2 ^ 31
      → length filled < 2 ^ 31
      → length block < 2 ^ 30
      → length block ≤ length old
      → p.buf ≡ filled ++ old
      → p.downloaded * block_size ≡ length filled
      → ArePieces cut
      → joined cut ≡ (piece p.index (length filled) block).payload
      → download_block malloc p (
          some (
            linked c
              (answering (piece p.index (length filled) block) cut ++ incoming)
              (accepting 17 ∷ outgoing)
              sent))
        ≡ ok (
          record p {
            buf = filled ++ (block ++ drop (length block) old);
            downloaded = p.downloaded + 1;
          },
          some (linked c incoming outgoing (sent ++ frame (request p.index (length filled)))),
          true,
        )
  unfolding download_block init_message
  download_block-answering p filled old block cut c incoming outgoing sent index offset small room e
        at pieces cuts =
      let n = length filled in
      let offset_lem : p.downloaded * block_size % u64_mod ≡ n = omega arith in
      rw
        (
          offset_lem,
          request_payload_lem malloc malloc_length p n,
          send_message_to_conn-accepting malloc malloc_length (request p.index n) c
              (answering (piece p.index n block) cut ++ incoming) outgoing sent
              (request-IsMessage p.index n) (omega arith),
          read_message_from_conn-frame (piece p.index n block) cut
              (linked c [] outgoing (sent ++ frame (request p.index n))) incoming
              (piece-IsMessage p.index n block small) pieces cuts,
          offset_lem,
          receive_block,
        )
        (store_block-piece p filled old block _ index offset small room e)
