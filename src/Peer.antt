-- ===== src/Peer.antt =====
-- src/peer.c: a peer in the compact form of a tracker response.
use btb.Base.{
  ℕ, ◌+◌, ◌*◌, ◌%◌, ◌^◌, ◌≡◌, List, [], ◌∷◌, Result, ok, ◌>>=◌, drop, read_range, IsByte, arith,
}
use btb.BigEndian.{big_endian_to_lu}
use btb.BigEndian.Laws.{big_endian_to_lu_two}

abbrev pub peer_addr_size : ℕ
peer_addr_size = 4

abbrev pub peer_port_size : ℕ
peer_port_size = 2

abbrev pub peer_blob_size : ℕ
peer_blob_size = peer_addr_size + peer_port_size

pub record Peer : Type 0 where
  pub port : ℕ
  pub address : List ℕ

-- The port is cut to a `uint16_t`.
unfoldable pub init_peer : List ℕ → Result Peer
init_peer peer_repr = do
  address ← read_range peer_repr 0 peer_addr_size
  port ← big_endian_to_lu (drop peer_addr_size peer_repr) peer_port_size
  ok (record { port = port % 2 ^ 16; address = address })

-- From a block that begins with four bytes and two more, `init_peer` takes the four as the address
-- and the two, the high one first, as the port, whatever follows them.
pub init_peer_lem :
    (a b c d high low : ℕ) (rest : List ℕ)
    → IsByte high
    → IsByte low
    → init_peer (a ∷ b ∷ c ∷ d ∷ high ∷ low ∷ rest)
      ≡ ok (record { port = high * 256 + low; address = a ∷ b ∷ c ∷ d ∷ [] })
unfolding init_peer
init_peer_lem a b c d high low rest h l = ground (arith, big_endian_to_lu_two high low rest h l)
