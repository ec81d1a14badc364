-- ===== src/TrackerResponse/Peers.antt =====
-- The peers of a tracker's answer: the compact form, read back.
use btb.Peer.{Peer, init_peer, init_peer_lem}
use btb.TrackerResponse.{copy_peers}
use btb.Base.{
  ℕ, ◌+◌, ◌*◌, ◌/◌, ◌%◌, ◌^◌, ◌<◌, ◌≡◌, refl, List, [], ◌∷◌, ◌++◌, ok, length, All, arith,
  append_assoc, length-append, read_range, read_range-append, uncons, nil_of_length, ap, ◌∙◌,
}

-- A peer as the record holds it.
pub record IsPeer (p : Peer) : Type 0 where
  pub four : length p.address ≡ 4
  pub short : p.port < 2 ^ 16

-- The compact form: the address, then the port with its high byte first.
abbrev pub compact : Peer → List ℕ
compact p = p.address ++ (p.port / 256 ∷ p.port % 256 ∷ [])

abbrev pub compact_all : List Peer → List ℕ
compact_all [] = []
compact_all (p ∷ peers) = compact p ++ compact_all peers

init_peer-compact : (p : Peer) → IsPeer p → init_peer (compact p) ≡ ok p
init_peer-compact p v =
    let (a, r₁, e₁, l₁) = uncons 3 p.address (omega (arith, v.four)) in
    let (b, r₂, e₂, l₂) = uncons 2 r₁ l₁ in
    let (c, r₃, e₃, l₃) = uncons 1 r₂ l₂ in
    let (d, r₄, e₄, l₄) = uncons 0 r₃ l₃ in
    let address : p.address ≡ a ∷ b ∷ c ∷ d ∷ [] =
      e₁ ∙ ap (◌∷◌ a) (e₂ ∙ ap (◌∷◌ b) (e₃ ∙ ap (◌∷◌ c) (e₄ ∙ ap (◌∷◌ d) (nil_of_length r₄ l₄)))) in
    let port : p.port / 256 * 256 + p.port % 256 ≡ p.port = omega arith in
    let whole =
      init_peer_lem a b c d (p.port / 256) (p.port % 256) [] (omega (arith, v.short))
        (omega arith) in
    ground (arith, whole, address, port)

-- The peers of a blob from one place on, whatever stands before and behind them.
copy_peers_lem :
    (peers : List Peer) (i : ℕ) (before rest : List ℕ)
    → All IsPeer peers
    → length before ≡ 6 * i
    → copy_peers (length peers) i (before ++ (compact_all peers ++ rest)) ≡ ok peers
unfolding copy_peers
copy_peers_lem [] i before rest all at = refl
copy_peers_lem (p ∷ peers) i before rest (v, all) at =
    let sized : length (compact p) ≡ 6 =
      omega (arith, length-append p.address (p.port / 256 ∷ p.port % 256 ∷ []), v.four) in
    let this : read_range (before ++ (compact p ++ (compact_all peers ++ rest))) (6 * i) 6
        ≡ ok (compact p) =
      rw (← at, ← sized) (read_range-append before (compact p) (compact_all peers ++ rest)) in
    let next =
      copy_peers_lem peers (i + 1) (before ++ compact p) rest all
        (omega (arith, length-append before (compact p))) in
    rw (
      append_assoc (compact p) (compact_all peers) rest,
      this,
      init_peer-compact p v,
      ← append_assoc before (compact p) (compact_all peers ++ rest),
      next,
    )

-- For peers with a four-byte address and a port below 2 ^ 16, the peers that are read from their
-- compact forms one behind the other are the same peers in the same order, whatever bytes follow.
pub copy_peers-compact_all :
    (peers : List Peer) (rest : List ℕ)
    → All IsPeer peers
    → copy_peers (length peers) 0 (compact_all peers ++ rest) ≡ ok peers
copy_peers-compact_all peers rest all = copy_peers_lem peers 0 [] rest all refl
