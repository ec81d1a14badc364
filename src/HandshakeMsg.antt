-- ===== src/HandshakeMsg.antt =====
-- src/handshake_msg.c: the message that opens a connection between peers.
pub mod Codec
pub mod Refused
use Prim.Native.Char.{code}
use Prim.Native.String.{String}
use btb.Hash.{bt_hash_length}
use btb.Base.{
  true, false, ℕ, zero, suc, ◌+◌, ◌%◌, ◌-◌, ◌^◌, Bool, not, List, [], ◌∷◌, ◌++◌, Result, ok, failed,
  fault, ◌>>=◌, ◌>>◌, require, defined, ltb, leb, ◌==◌, if◌then◌else◌, replicate, drop, read, write,
  read_range, write_range, u64_mod,
}

abbrev pub handshake_reserved_len : ℕ
handshake_reserved_len = 8

abbrev pub peer_id_length : ℕ
peer_id_length = 20

-- The bytes of an ASCII literal.
abbrev pub codes : String → List ℕ
codes String.[] = []
codes (String.◌∷◌ c s) = code c ∷ codes s

abbrev pub my_peer_id : List ℕ
my_peer_id = codes "BTB-0123456789abcdef"

-- `pstr` without the NUL that ends its block.
pub record HandshakeMsg : Type 0 where
  pub pstrlen : ℕ
  pub pstr : List ℕ
  pub reserved : List ℕ
  pub info_hash : List ℕ
  pub peer_id : List ℕ

pub record HandshakeMsgEncoded : Type 0 where
  pub size : ℕ
  pub buf : List ℕ

unfoldable pub init_handshake_msg : List ℕ → List ℕ → Result HandshakeMsg
init_handshake_msg info_hash peer_id = do
  hash ← read_range info_hash 0 bt_hash_length
  id ← read_range peer_id 0 peer_id_length
  ok (record {
    pstrlen = 19;
    pstr = codes "BitTorrent protocol";
    reserved = replicate handshake_reserved_len 0;
    info_hash = hash;
    peer_id = id;
  })

-- The fields are copied one behind the other into a new block.
unfoldable pub encode_handshake_msg : (ℕ → List ℕ) → HandshakeMsg → Result HandshakeMsgEncoded
encode_handshake_msg malloc hm = do
  let size = (1 + hm.pstrlen + handshake_reserved_len + bt_hash_length + peer_id_length) % u64_mod
  b₀ ← write (malloc size) 0 (hm.pstrlen % 256)
  pstr ← read_range hm.pstr 0 hm.pstrlen
  b₁ ← write_range b₀ 1 pstr
  reserved ← read_range hm.reserved 0 handshake_reserved_len
  b₂ ← write_range b₁ (1 + hm.pstrlen) reserved
  info_hash ← read_range hm.info_hash 0 bt_hash_length
  b₃ ← write_range b₂ (1 + hm.pstrlen + handshake_reserved_len) info_hash
  peer_id ← read_range hm.peer_id 0 peer_id_length
  b₄ ← write_range b₃ (1 + hm.pstrlen + handshake_reserved_len + bt_hash_length) peer_id
  ok (record { size = size; buf = b₄ })

-- A `char`, signed on the platforms of the Makefile's gcc, converted to `size_t`.
abbrev pub char_to_size : ℕ → ℕ
char_to_size b = if ltb b 128 then b else b + (u64_mod - 256)

-- `strncpy`: `n` bytes, up to a NUL from the source and then NULs.
strncpy : List ℕ → ℕ → Result (List ℕ)
strncpy source zero = ok []
strncpy [] (suc n) = fault
strncpy (b ∷ source) (suc n) = elim (b == 0) [
  | true ↦ ok (replicate (suc n) 0)
  | false ↦ do rest ← strncpy source n; ok (b ∷ rest)
]

unfoldable pub decode_handshake_msg : List ℕ → ℕ → Result HandshakeMsg
unfolding strncpy
decode_handshake_msg buf buf_length = do
  require (not (buf_length == 0))
  first ← read buf 0
  let pstrlen = char_to_size first
  require (not (ltb buf_length ((1 + pstrlen) % u64_mod)))
  defined (leb pstrlen ((pstrlen + 1) % u64_mod))
  pstr ← strncpy (drop 1 buf) pstrlen
  let last₁ = 1 + pstrlen
  require (not (ltb buf_length (last₁ + handshake_reserved_len)))
  reserved ← read_range buf last₁ handshake_reserved_len
  let last₂ = last₁ + handshake_reserved_len
  require (not (ltb buf_length (last₂ + bt_hash_length)))
  info_hash ← read_range buf last₂ bt_hash_length
  let last₃ = last₂ + bt_hash_length
  require (not (ltb buf_length (last₃ + peer_id_length)))
  peer_id ← read_range buf last₃ peer_id_length
  ok (record {
    pstrlen = pstrlen;
    pstr = pstr;
    reserved = reserved;
    info_hash = info_hash;
    peer_id = peer_id;
  })
