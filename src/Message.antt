-- ===== src/Message.antt =====
-- src/message.c: the messages of the peer protocol, and their frames on a connection.
pub mod Codec
pub mod Framing
use btb.BigEndian.{lu_to_big_endian, big_endian_to_lu}
use btb.Base.{
  ℕ, zero, suc, ◌+◌, ◌-◌, ◌%◌, Bool, true, false, List, [], ◌++◌, Option, none, some, Result, ok,
  failed, fault, ◌>>=◌, ◌>>◌, require, defined, ltb, leb, ◌==◌, if◌then◌else◌, length, drop, read,
  write, read_range, write_range, u64_mod, ptrdiff_max, ℤ, pos, negsuc, pos_part, is_positive,
}
use btb.Conn.{Conn, send_data, receive_data}

abbrev pub msg_len_bytes : ℕ
msg_len_bytes = 4

abbrev pub msg_id_bytes : ℕ
msg_id_bytes = 1

abbrev pub msg_id_choke : ℕ
msg_id_choke = 0

abbrev pub msg_id_unchoke : ℕ
msg_id_unchoke = 1

abbrev pub msg_id_interested : ℕ
msg_id_interested = 2

abbrev pub msg_id_bitfield : ℕ
msg_id_bitfield = 5

abbrev pub msg_id_request : ℕ
msg_id_request = 6

abbrev pub msg_id_piece : ℕ
msg_id_piece = 7

abbrev pub msg_id_cancel : ℕ
msg_id_cancel = 8

-- An empty payload is a NULL pointer in C.
pub record Message : Type 0 where
  pub id : ℕ
  pub payload_len : ℕ
  pub payload : List ℕ

pub record MessageEncoded : Type 0 where
  pub size : ℕ
  pub buf : List ℕ

unfoldable pub init_message : ℕ → ℕ → List ℕ → Result Message
init_message msg_id payload_len payload = do
  copy ← if ltb 0 payload_len then read_range payload 0 payload_len else ok []
  ok (record { id = msg_id; payload_len = payload_len; payload = copy })

-- `malloc n` are the bytes that a new block of `n` bytes happens to hold.
unfoldable pub encode_message : (ℕ → List ℕ) → Message → Result MessageEncoded
encode_message malloc msg = do
  let size = (msg_len_bytes + msg_id_bytes + msg.payload_len) % u64_mod
  framed ← lu_to_big_endian (size - msg_len_bytes) (malloc size) 0 msg_len_bytes
  named ← write framed msg_len_bytes (msg.id % 256)
  bytes ← read_range msg.payload 0 msg.payload_len
  buf ← write_range named (msg_len_bytes + msg_id_bytes) bytes
  ok (record { size = size; buf = buf })

unfoldable pub decode_message : List ℕ → ℕ → Result Message
unfolding init_message
decode_message buf buf_length = do
  message_length ← big_endian_to_lu buf msg_len_bytes
  require ((message_length + msg_len_bytes) % u64_mod == buf_length)
  id ← read buf msg_len_bytes
  init_message id ((message_length + u64_mod - msg_id_bytes) % u64_mod)
      (drop (msg_len_bytes + msg_id_bytes) buf)

unfoldable pub send_message_to_conn :
    (ℕ → List ℕ) → Message → Option Conn → Result (Option Conn × Bool)
send_message_to_conn malloc msg c = do
  encoded ← encode_message malloc msg
  ok (send_data c encoded.buf)

-- The loop that fills the payload: `filled` holds the bytes that have arrived. A round that goes on
-- has received at least one byte, so `payload_len` rounds are enough fuel (`Framing`).
pub read_payload_loop : ℕ → ℕ → Option Conn → List ℕ → Result (Option Conn × Option (List ℕ))
read_payload_loop zero payload_len c filled =
    if ltb (length filled) payload_len then fault else ok (c, some filled)
read_payload_loop (suc fuel) payload_len c filled = elim (ltb (length filled) payload_len) [
  | false ↦ ok (c, some filled)
  | true ↦ do
    (c', received, got) ← receive_data c (payload_len - length filled)
    elim (is_positive received) [
      | false ↦ ok (c', none)
      | true ↦ read_payload_loop fuel payload_len c' (filled ++ got)
    ]
]

-- A block that `malloc` cannot give is NULL, and `recv` into it fails.
read_payload : ℕ → Option Conn → Result (Option Conn × Option (List ℕ))
unfolding read_payload_loop
read_payload payload_len c = elim (leb payload_len ptrdiff_max) [
  | true ↦ read_payload_loop payload_len payload_len c []
  | false ↦ do (c', received, got) ← receive_data c 0; ok (c', none)
]

finish_message : ℕ → ℕ → Option Conn × Option (List ℕ) → Result (Option Conn × Option Message)
unfolding init_message
finish_message msg_id payload_len (c, none) = ok (c, none)
finish_message msg_id payload_len (c, some bytes) = do
  msg ← init_message msg_id payload_len bytes
  ok (c, some msg)

-- What follows the arrival of a whole header.
read_body : List ℕ → Option Conn → Result (Option Conn × Option Message)
unfolding read_payload finish_message
read_body header c = do
  payload_len_plus_msg_id_len ← big_endian_to_lu header msg_len_bytes
  elim (payload_len_plus_msg_id_len == 0) [
    | true ↦ ok (c, none)
    | false ↦ do
      let payload_len = payload_len_plus_msg_id_len - msg_id_bytes
      msg_id ← read header msg_len_bytes
      filled ← read_payload payload_len c
      finish_message msg_id payload_len filled
  ]

-- `none` is the NULL that the function returns on failure.
unfoldable pub read_message_from_conn : Option Conn → Result (Option Conn × Option Message)
unfolding read_body
read_message_from_conn c = do
  (c', received, header) ← receive_data c (msg_len_bytes + msg_id_bytes)
  elim (is_positive received) [
    | false ↦ ok (c', none)
    | true ↦ elim (pos_part received == msg_len_bytes + msg_id_bytes) [
      | false ↦ ok (c', none)
      | true ↦ read_body header c'
    ]
  ]
