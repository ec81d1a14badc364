-- ===== src/Client/Session/Messages.antt =====
-- The messages of a session in src/client.c with a peer that follows the protocol, one by one.
use btb.HandshakeMsg.{HandshakeMsg, codes, my_peer_id}
use btb.HandshakeMsg.Codec.{IsHandshake, wire, encode_handshake_msg-wire, decode_handshake_msg-wire}
use btb.Peer.{Peer}
use btb.Bitfield.{Bitfield, init_bitfield}
use btb.Conn.{Conn, Connecting, RecvCall, SendCall, send_data, receive_data}
use btb.Message.{Message, init_message, msg_id_bitfield, msg_id_interested, msg_id_unchoke}
use btb.Message.Codec.{frame}
use btb.Message.Framing.{arriving, joined, ArePieces, read_message_from_conn-frame}
use btb.Client.DownloadPiece.Exchange.{accepting, linked, answering, send_message_to_conn-accepting}
use btb.Client.Session.{handshake, check_reply, await_bitfield, await_unchoke, print_address}
use btb.Base.{
  ℕ, ◌+◌, ◌^◌, ◌<◌, ◌≡◌, refl, true, List, [], ◌∷◌, ◌++◌, some, ok, arith, length, drop, drop_all,
  take_all, length-append, replicate, le→leb, read_range_all,
}

-- The handshake that the client sends, and one from a peer.
abbrev pub greeting : List ℕ → List ℕ → HandshakeMsg
greeting info_hash peer_id = record {
  pstrlen = 19;
  pstr = codes "BitTorrent protocol";
  reserved = replicate 8 0;
  info_hash = info_hash;
  peer_id = peer_id;
}

abbrev pub bitfield_msg : List ℕ → Message
bitfield_msg bits = record { id = msg_id_bitfield; payload_len = length bits; payload = bits }

abbrev pub unchoke : Message
unchoke = record { id = msg_id_unchoke; payload_len = 0; payload = [] }

abbrev pub interested : Message
interested = record { id = msg_id_interested; payload_len = 0; payload = [] }

-- Every call that makes the connection succeeds.
abbrev pub connected : ℕ → Connecting
connected sockfd = record {
  resolves = true;
  clock_ok = true;
  in_time = true;
  connects = true;
  sockfd = sockfd;
}

abbrev pub opened_conn : Peer → ℕ → List RecvCall → List SendCall → List ℕ → Conn
opened_conn peer sockfd incoming outgoing sent = record {
  addr = print_address peer.address;
  port = peer.port;
  sockfd = sockfd;
  incoming = incoming;
  outgoing = outgoing;
  sent = sent;
}

pub greeting-IsHandshake :
    (info_hash peer_id : List ℕ)
    → length info_hash ≡ 20
    → length peer_id ≡ 20
    → IsHandshake (greeting info_hash peer_id)
greeting-IsHandshake info_hash peer_id h id = record {
  short = omega arith;
  named = refl;
  no_nul = ground arith;
  reserved_sized = refl;
  hash_sized = h;
  id_sized = id;
}

length-wire : (hm : HandshakeMsg) → IsHandshake hm → hm.pstrlen ≡ 19 → length (wire hm) ≡ 68
length-wire hm v n = omega (
  arith,
  v.named,
  v.reserved_sized,
  v.hash_sized,
  v.id_sized,
  length-append hm.pstr (hm.reserved ++ (hm.info_hash ++ hm.peer_id)),
  length-append hm.reserved (hm.info_hash ++ hm.peer_id),
  length-append hm.info_hash hm.peer_id,
)

module _ (malloc : ℕ → List ℕ) (malloc_length : (n : ℕ) → length (malloc n) ≡ n) where
  -- The interested message goes out, and the unchoke comes in.
  await_unchoke-unchoked :
      (bf : Bitfield) (c : Conn) (more_in : List RecvCall) (more_out : List SendCall)
      (sent : List ℕ)
      → await_unchoke malloc bf
          (some (linked c (answering unchoke [] ++ more_in) (accepting 5 ∷ more_out) sent))
        ≡ ok (
            some (record {
              failed_attempts = 0;
              c = some (linked c more_in more_out (sent ++ frame interested));
              peer_bf = bf;
            }))
  unfolding await_unchoke init_message
  await_unchoke-unchoked bf c more_in more_out sent = rw (
    send_message_to_conn-accepting malloc malloc_length interested c
        (answering unchoke [] ++ more_in) more_out sent
        (record { id_byte = omega arith; sized = refl; short = omega arith }) (omega arith),
    read_message_from_conn-frame unchoke [] (linked c [] more_out (sent ++ frame interested))
        more_in (record { id_byte = omega arith; sized = refl; short = omega arith }) tt refl,
  )

  pub await_bitfield-sent :
      (bits : List ℕ) (cut : List (List ℕ)) (c : Conn) (more_in : List RecvCall)
      (more_out : List SendCall) (sent : List ℕ)
      → length bits < 2 ^ 30
      → ArePieces cut
      → joined cut ≡ bits
      → await_bitfield malloc (
          some (
            linked c
              (answering (bitfield_msg bits) cut ++ (answering unchoke [] ++ more_in))
              (accepting 5 ∷ more_out)
              sent))
        ≡ ok (
            some (record {
              failed_attempts = 0;
              c = some (linked c more_in more_out (sent ++ frame interested));
              peer_bf = record { length = length bits; bytes = bits };
            }))
  unfolding await_bitfield init_bitfield
  await_bitfield-sent bits cut c more_in more_out sent small pieces whole =
      let bf : Bitfield = record { length = length bits; bytes = bits } in
      rw
        (
          read_message_from_conn-frame (bitfield_msg bits) cut
              (linked c [] (accepting 5 ∷ more_out) sent) (answering unchoke [] ++ more_in)
              (record { id_byte = omega arith; sized = refl; short = omega arith }) pieces whole,
          read_range_all bits (length bits) refl,
        )
        (await_unchoke-unchoked bf c more_in more_out sent)

  -- The handshake goes out and the reply comes in.
  pub handshake_exchange :
      (info_hash : List ℕ) (reply : HandshakeMsg) (c : Conn) (more_in : List RecvCall)
      (more_out : List SendCall)
      → length info_hash ≡ 20
      → IsHandshake reply
      → reply.pstrlen ≡ 19
      → handshake malloc
          (greeting info_hash my_peer_id)
          (some (linked c (arriving (wire reply) ∷ more_in) (accepting 68 ∷ more_out) []))
        ≡ check_reply malloc
            (greeting info_hash my_peer_id)
            (some (linked c more_in more_out (wire (greeting info_hash my_peer_id))))
            (some reply)
  unfolding handshake send_data receive_data
  handshake_exchange info_hash reply c more_in more_out sized v n =
      let mine = greeting-IsHandshake info_hash my_peer_id sized refl in
      let mine_sized = length-wire (greeting info_hash my_peer_id) mine refl in
      let reply_sized = length-wire reply v n in
      let nothing_over : drop (length (wire reply)) (malloc 68) ≡ [] =
        drop_all (length (wire reply)) (malloc 68) (omega (arith, malloc_length 68)) in
      let size : 49 + reply.pstrlen ≡ 68 = omega arith in
      let decoded = rw size at (decode_handshake_msg-wire reply [] v) in
      rw (
        encode_handshake_msg-wire malloc malloc_length (greeting info_hash my_peer_id) mine,
        take_all 68 (wire (greeting info_hash my_peer_id)) mine_sized,
        mine_sized,
        le→leb (length (wire reply)) 68 (omega arith),
        reply_sized,
        nothing_over,
        decoded,
      )
