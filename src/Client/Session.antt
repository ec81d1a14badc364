-- ===== src/Client/Session.antt =====
-- The first part of `download_torrent_thread_fun` in src/client.c: from the connection with a peer
-- to the message that allows requests.
pub mod Greets
pub mod Messages
use btb.HandshakeMsg.{
  HandshakeMsg, init_handshake_msg, encode_handshake_msg, decode_handshake_msg, my_peer_id,
}
use btb.Peer.{Peer}
use btb.Bitfield.{Bitfield, init_bitfield}
use btb.TorrentFile.{TorrentFile}
use btb.Conn.{Conn, Connecting, RecvCall, SendCall, init_conn, send_data, receive_data}
use btb.Message.{
  init_message, send_message_to_conn, read_message_from_conn, msg_id_bitfield, msg_id_interested,
  msg_id_unchoke,
}
use btb.Base.{
  ℕ, ◌+◌, ◌/◌, ◌%◌, List, [], ◌∷◌, ◌++◌, Option, none, some, Result, ok, failed, fault, ◌>>=◌,
  same_bytes, ◌==◌, ltb, if◌then◌else◌, length, drop, or_fault, is_positive,
}

-- What the download loop works with.
pub record Local : Type 0 where
  pub failed_attempts : ℕ
  pub c : Option Conn
  pub peer_bf : Bitfield

-- `sprintf` with `%d` on a byte.
pub print_byte : ℕ → List ℕ
print_byte b =
    let last = (b'0' + b % 10) ∷ [] in
    if ltb b 10
    then last
    else (if ltb b 100
        then (b'0' + b / 10) ∷ last
        else (b'0' + b / 100) ∷ (b'0' + b / 10 % 10) ∷ last)

pub print_address : List ℕ → List ℕ
unfolding print_byte
print_address [] = []
print_address (a ∷ []) = print_byte a
print_address (a ∷ b ∷ rest) = print_byte a ++ b'.' ∷ print_address (b ∷ rest)

-- A NULL that the caller tests for.
abbrev or_null {ℓ} : {A : Type ℓ} → Result A → Result (Option A)
or_null (ok a) = ok (some a)
or_null failed = ok none
or_null fault = fault

-- What `receive_data` has put at the start of the block for the reply.
abbrev overlay : List ℕ → List ℕ → List ℕ
overlay got block = got ++ drop (length got) block

module _ (malloc : ℕ → List ℕ) where
  -- The state message: only an unchoke leads to the download loop.
  await_unchoke : Bitfield → Option Conn → Result (Option Local)
  await_unchoke bf c = do
    interested ← init_message msg_id_interested 0 []
    (c₁, sent) ← send_message_to_conn malloc interested c
    let receive = do
      (c₂, reply) ← read_message_from_conn c₁
      elim reply [
        | none ↦ ok none
        | some msg ↦
            if msg.id == msg_id_unchoke
            then ok (some (record { failed_attempts = 0; c = c₂; peer_bf = bf }))
            else ok none
      ]
    if sent then receive else ok none

  pub await_bitfield : Option Conn → Result (Option Local)
  unfolding await_unchoke
  await_bitfield c = do
    (c₁, reply) ← read_message_from_conn c
    elim reply [
      | none ↦ ok none
      | some msg ↦
          if msg.id == msg_id_bitfield
          then (do bf ← init_bitfield msg.payload msg.payload_len; await_unchoke bf c₁)
          else ok none
    ]

  -- The reply must carry the hash that was sent.
  pub check_reply : HandshakeMsg → Option Conn → Option HandshakeMsg → Result (Option Local)
  unfolding await_bitfield
  check_reply hm c none = ok none
  check_reply hm c (some reply) =
      if same_bytes reply.info_hash hm.info_hash then await_bitfield c else ok none

  pub handshake : HandshakeMsg → Option Conn → Result (Option Local)
  unfolding check_reply
  handshake hm c = do
    encoded ← encode_handshake_msg malloc hm
    let (c₁, sent) = send_data c encoded.buf
    let receive = do
      (c₂, received, got) ← receive_data c₁ encoded.size
      let decode = do
        reply ← or_null (decode_handshake_msg (overlay got (malloc encoded.size)) encoded.size)
        check_reply hm c₂ reply
      if is_positive received then decode else ok none
    if sent then receive else ok none

  -- `none` where the thread returns without entering the loop.
  unfoldable pub open_session :
      TorrentFile → Peer → Connecting → List RecvCall → List SendCall → Result (Option Local)
  unfolding handshake print_address
  open_session tf p e incoming outgoing =
      elim (init_conn (print_address p.address) p.port e incoming outgoing) [
        | none ↦ ok none
        | some c ↦ do
          info_hash ← or_fault tf.info_hash
          hm ← init_handshake_msg info_hash my_peer_id
          handshake hm (some c)
      ]
