-- ===== src/Client/Session/Greets.antt =====
-- A session with a peer that follows the protocol, and one with a peer of another torrent.
use btb.HandshakeMsg.{HandshakeMsg, my_peer_id, init_handshake_msg}
use btb.HandshakeMsg.Codec.{IsHandshake, wire}
use btb.Peer.{Peer}
use btb.TorrentFile.{TorrentFile}
use btb.Conn.{RecvCall, SendCall, init_conn}
use btb.Message.Codec.{frame}
use btb.Message.Framing.{arriving, joined, ArePieces}
use btb.Client.DownloadPiece.Exchange.{accepting, answering}
use btb.Client.Session.{open_session, check_reply}
use btb.Base.{
  ℕ, ◌^◌, ◌<◌, ◌≡◌, List, [], ◌∷◌, ◌++◌, none, some, ok, length, same_bytes_refl, same_bytes-ne,
  ◌≢◌, read_range_all,
}
use btb.Client.Session.Messages.{
  greeting, bitfield_msg, unchoke, interested, connected, opened_conn, await_bitfield-sent,
  handshake_exchange,
}

module _ (malloc : ℕ → List ℕ) (malloc_length : (n : ℕ) → length (malloc n) ≡ n) where
  pub open_session-greets :
      (tf : TorrentFile) (info_hash : List ℕ) (peer : Peer) (sockfd : ℕ) (reply : HandshakeMsg)
      (bits : List ℕ) (cut : List (List ℕ)) (more_in : List RecvCall) (more_out : List SendCall)
      → tf.info_hash ≡ some info_hash
      → length info_hash ≡ 20
      → IsHandshake reply
      → reply.pstrlen ≡ 19
      → reply.info_hash ≡ info_hash
      → length bits < 2 ^ 30
      → ArePieces cut
      → joined cut ≡ bits
      → open_session malloc tf peer
          (connected sockfd)
          (arriving (wire reply) ∷ answering (bitfield_msg bits) cut
            ++ (answering unchoke [] ++ more_in))
          (accepting 68 ∷ accepting 5 ∷ more_out)
        ≡ ok (
            some (record {
              failed_attempts = 0;
              c = some (
                  opened_conn peer sockfd more_in more_out
                    (wire (greeting info_hash my_peer_id) ++ frame interested));
              peer_bf = record { length = length bits; bytes = bits };
            }))
  unfolding open_session check_reply init_conn init_handshake_msg
  open_session-greets tf info_hash peer sockfd reply bits cut more_in more_out hashed sized v n same
        small pieces whole =
      let c = opened_conn peer sockfd [] [] [] in
      rw
        (
          hashed,
          read_range_all info_hash 20 sized,
          handshake_exchange malloc malloc_length info_hash reply c
              (answering (bitfield_msg bits) cut ++ (answering unchoke [] ++ more_in))
              (accepting 5 ∷ more_out) sized v n,
          check_reply,
          same,
          same_bytes_refl info_hash,
        )
        (await_bitfield-sent malloc malloc_length bits cut c more_in more_out
          (wire (greeting info_hash my_peer_id)) small pieces whole)

  -- With a peer that accepts the connection, takes the handshake whole and replies with a
  -- handshake of 68 bytes for another torrent, no session is opened, whatever follows.
  pub open_session-other_torrent :
      (tf : TorrentFile) (info_hash : List ℕ) (peer : Peer) (sockfd : ℕ) (reply : HandshakeMsg)
      (more_in : List RecvCall) (more_out : List SendCall)
      → tf.info_hash ≡ some info_hash
      → length info_hash ≡ 20
      → IsHandshake reply
      → reply.pstrlen ≡ 19
      → reply.info_hash ≢ info_hash
      → open_session malloc tf peer
          (connected sockfd)
          (arriving (wire reply) ∷ more_in)
          (accepting 68 ∷ more_out)
        ≡ ok none
  unfolding open_session check_reply init_conn init_handshake_msg
  open_session-other_torrent tf info_hash peer sockfd reply more_in more_out hashed sized v n
        other =
      let c = opened_conn peer sockfd [] [] [] in
      rw (
        hashed,
        read_range_all info_hash 20 sized,
        handshake_exchange malloc malloc_length info_hash reply c more_in more_out sized v n,
        check_reply,
        same_bytes-ne reply.info_hash info_hash other,
      )
