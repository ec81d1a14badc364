-- ===== src/Tests/Wire.antt =====
-- The wire formats at concrete inputs.
use btb.BigEndian.{lu_to_big_endian, big_endian_to_lu}
use btb.BigEndian.Laws.{big_endian_to_lu-lu_to_big_endian}
use btb.Bitfield.{Bitfield}
use btb.Bitfield.Laws.{IsBitfield}
use btb.Conn.{Conn}
use btb.Message.{Message, encode_message, decode_message, read_message_from_conn}
use btb.Message.Codec.{IsMessage, frame, decode_message-encode_message}
use btb.Message.Framing.{arriving, awaiting, read_message_from_conn-frame}
use btb.HandshakeMsg.{HandshakeMsg, codes, my_peer_id, decode_handshake_msg}
use btb.HandshakeMsg.Codec.{IsHandshake, wire, decode_handshake_msg-wire}
use btb.HandshakeMsg.Refused.{decode_handshake_msg_overflow}
use btb.Base.{
  ℕ, ◌+◌, ◌-◌, ◌^◌, ◌<◌, ◌≡◌, refl, Bool, true, List, [], ◌∷◌, ◌++◌, map, some, ok, fault, ◌>>=◌,
  replicate, length, length-replicate, take, drop, ltb, if◌then◌else◌, u64_mod, arith, ◌&&◌, All,
}

abbrev malloc : ℕ → List ℕ
malloc n = replicate n 255

malloc_length : (n : ℕ) → length (malloc n) ≡ n
malloc_length n = length-replicate n 255

abbrev six : List ℕ
six = replicate 6 9

big_endian_to_lu-lu_to_big_endian_example :
    (lu_to_big_endian (2 ^ 31 + 5) six 1 4 >>= λ out. big_endian_to_lu (drop 1 out) 4)
    ≡ ok (if ltb (2 ^ 31 + 5) (2 ^ 31) then 2 ^ 31 + 5 else 2 ^ 31 + 5 + (u64_mod - 2 ^ 32))
big_endian_to_lu-lu_to_big_endian_example =
    big_endian_to_lu-lu_to_big_endian (2 ^ 31 + 5) six 1 (omega arith) (omega arith)

abbrev two_bytes : Bitfield
two_bytes = record { length = 2; bytes = 160 ∷ 1 ∷ [] }

two_bytes-IsBitfield : IsBitfield two_bytes
two_bytes-IsBitfield = record {
  sized = refl;
  small = omega arith;
  in_byte = (omega arith, (omega arith, tt));
}

abbrev have : Message
have = record { id = 4; payload_len = 4; payload = 0 ∷ 0 ∷ 1 ∷ 44 ∷ [] }

have-IsMessage : IsMessage have
have-IsMessage = record { id_byte = omega arith; sized = refl; short = omega arith }

decode_message-encode_message_example :
    (encode_message malloc have >>= λ e. decode_message e.buf e.size) ≡ ok have
decode_message-encode_message_example =
    decode_message-encode_message malloc malloc_length have have-IsMessage

abbrev quiet : Conn
quiet = record {
  addr = codes "127.0.0.1";
  port = 6881;
  sockfd = 3;
  incoming = [];
  outgoing = [];
  sent = [];
}

abbrev in_two : List (List ℕ)
in_two = (0 ∷ []) ∷ (0 ∷ 1 ∷ 44 ∷ []) ∷ []

read_message_from_conn-frame_example :
    read_message_from_conn (
      some (
        awaiting quiet
          (arriving (take 5 (frame have)) ∷ map arriving in_two ++ (arriving (9 ∷ []) ∷ []))))
    ≡ ok (some (awaiting quiet (arriving (9 ∷ []) ∷ [])), some have)
read_message_from_conn-frame_example =
    read_message_from_conn-frame have in_two quiet (arriving (9 ∷ []) ∷ []) have-IsMessage
      (omega arith, (omega arith, tt)) refl

abbrev positive : List ℕ → Bool
positive [] = true
positive (b ∷ bytes) = ltb 0 b && positive bytes

All-positive : (bytes : List ℕ) → positive bytes ≡ true → All (λ b. 0 < b) bytes
All-positive [] h = tt
All-positive (b ∷ bytes) h = (ground arith, All-positive bytes (ground arith))

abbrev greeting : HandshakeMsg
greeting = record {
  pstrlen = 19;
  pstr = codes "BitTorrent protocol";
  reserved = replicate 8 0;
  info_hash = replicate 20 7;
  peer_id = my_peer_id;
}

greeting-IsHandshake : IsHandshake greeting
greeting-IsHandshake = record {
  short = omega arith;
  named = refl;
  no_nul = All-positive (codes "BitTorrent protocol") refl;
  reserved_sized = refl;
  hash_sized = refl;
  id_sized = refl;
}

decode_handshake_msg-wire_example :
    decode_handshake_msg (wire greeting ++ (1 ∷ 2 ∷ [])) (49 + 19) ≡ ok greeting
decode_handshake_msg-wire_example =
    decode_handshake_msg-wire greeting (1 ∷ 2 ∷ []) greeting-IsHandshake

decode_handshake_msg_overflow_example : decode_handshake_msg (255 ∷ replicate 67 66) 68 ≡ fault
decode_handshake_msg_overflow_example =
    decode_handshake_msg_overflow (replicate 67 66) 68 (omega arith)
