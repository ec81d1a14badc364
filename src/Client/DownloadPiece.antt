-- ===== src/Client/DownloadPiece.antt =====
-- `download_piece` of src/client.c: a piece is requested and received block by block.
pub mod Exchange
pub mod Kept
pub mod Laws
pub mod Received
use btb.BigEndian.{lu_to_big_endian, big_endian_to_lu}
use btb.PieceProgress.{
  PieceProgress, block_size, piece_index_bytes, block_offset_bytes, block_length_bytes,
}
use btb.Conn.{Conn}
use btb.Message.{
  Message, init_message, send_message_to_conn, read_message_from_conn, msg_id_request, msg_id_piece,
}
use btb.Base.{
  ℕ, zero, suc, ◌+◌, ◌-◌, ◌*◌, ◌/◌, ◌%◌, Bool, true, false, List, Option, none, some, Result, ok,
  ◌>>=◌, ◌>>◌, ◌==◌, if◌then◌else◌, drop, read_range, write_range, u64_mod,
}

-- `p_prog->size / BLOCK_SIZE + (p_prog->size % BLOCK_SIZE)`
abbrev pub num_blocks : ℕ → ℕ
num_blocks size = size / block_size + size % block_size

-- The piece and the connection after a call, and the result.
abbrev pub Progress : Type 0
Progress = PieceProgress × Option Conn × Bool

-- The payload of a request: piece, offset, length. The array is not initialised before.
pub request_payload : (ℕ → List ℕ) → PieceProgress → ℕ → Result (List ℕ)
request_payload malloc p block_offset = do
  b₁ ← lu_to_big_endian p.index (malloc 12) 0 piece_index_bytes
  b₂ ← lu_to_big_endian block_offset b₁ piece_index_bytes block_offset_bytes
  lu_to_big_endian block_size b₂ (piece_index_bytes + block_offset_bytes) block_length_bytes

-- The `memcpy` of the answer's block into the piece, with no test of its size.
copy_block : PieceProgress → ℕ → Option Conn → Message → Result Progress
copy_block p got_block_offset c msg = do
  let got_block_size =
      (msg.payload_len + u64_mod - piece_index_bytes - block_offset_bytes) % u64_mod
  bytes ← read_range msg.payload (piece_index_bytes + block_offset_bytes) got_block_size
  buf ← write_range p.buf got_block_offset bytes
  ok (record p { buf = buf; downloaded = p.downloaded + 1 }, c, true)

check_block : PieceProgress → ℕ → Option Conn → Message → Result Progress
unfolding copy_block
check_block p block_offset c msg = do
  got_piece_index ← big_endian_to_lu msg.payload piece_index_bytes
  got_block_offset ← big_endian_to_lu (drop piece_index_bytes msg.payload) block_offset_bytes
  if p.index == got_piece_index
      then (if block_offset == got_block_offset
          then copy_block p got_block_offset c msg
          else ok (p, c, false))
      else ok (p, c, false)

-- What is done with the answer to a request; `true` if the block was stored.
pub store_block : PieceProgress → ℕ → Option Conn → Message → Result Progress
unfolding check_block
store_block p block_offset c msg =
    if msg.id == msg_id_piece then check_block p block_offset c msg else ok (p, c, false)

receive_block : PieceProgress → ℕ → Option Conn × Option Message → Result Progress
receive_block p block_offset (c, none) = ok (p, c, false)
receive_block p block_offset (c, some msg) = store_block p block_offset c msg

-- One round of the loop.
pub download_block : (ℕ → List ℕ) → PieceProgress → Option Conn → Result Progress
unfolding receive_block store_block request_payload
download_block malloc p c = do
  let block_offset = p.downloaded * block_size % u64_mod
  payload ← request_payload malloc p block_offset
  request ← init_message msg_id_request 12 payload
  (c₁, sent) ← send_message_to_conn malloc request c
  elim sent [
    | false ↦ ok (p, c₁, false)
    | true ↦ do received ← read_message_from_conn c₁; receive_block p block_offset received
  ]

-- Each round that goes on adds one to `downloaded`, so `left` counts the rounds to `num_blocks`.
download_loop : (ℕ → List ℕ) → ℕ → PieceProgress → Option Conn → Result Progress
download_loop malloc zero p c = ok (p, c, true)
download_loop malloc (suc left) p c = do
  (p', c', stored) ← download_block malloc p c
  elim stored [ false ↦ ok (p', c', false) | true ↦ download_loop malloc left p' c' ]

unfoldable pub download_piece : (ℕ → List ℕ) → PieceProgress → Option Conn → Result Progress
unfolding download_loop download_block
download_piece malloc p c = download_loop malloc (num_blocks p.size - p.downloaded) p c
