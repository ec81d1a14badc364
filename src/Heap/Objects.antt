-- ===== src/Heap/Objects.antt =====
-- The structs of src/ with a block of their own, as `init_…` allocates them and `free_…` releases
-- them: bitfield.c, handshake_msg.c, message.c, piece_progress.c, file_buf.c, peer.c, conn.c, and
-- `thread_data` of client.c. A socket and an open file count as blocks here.
pub mod Answers
pub mod Laws
pub mod Resources
use btb.Heap.{Mem, pure, and_then, ◌>>=◌, ◌>>◌, malloc, free, access, access_all}
use btb.Heap.Laws.{part_blocks}
use btb.Heap.Defer.{defer}
use btb.Conn.{Connecting}
use btb.Base.{
  ℕ, Bool, true, false, List, [], ◌∷◌, ◌++◌, Option, none, some, ltb, if◌then◌else◌, ◌&&◌,
}

-- A struct at `self` with one pointer to a block that belongs to it.
pub record Owner : Type 0 where
  pub self : ℕ
  pub part : Option ℕ

-- The blocks of a struct, the one that was allocated last first.
abbrev pub owner_blocks : Owner → List ℕ
owner_blocks o = part_blocks o.part ++ o.self ∷ []

-- A pointer to a struct may be NULL.
abbrev pub blocks_or_null : {A : Type 0} → (A → List ℕ) → Option A → List ℕ
blocks_or_null blocks none = []
blocks_or_null blocks (some a) = blocks a

abbrev with_part : ℕ → ℕ → Owner
with_part self part = record { self = self; part = some part }

-- The struct, and then the block behind its pointer.
pub new_owner : Mem Owner
new_owner = do self ← malloc; part ← malloc; pure (with_part self part)

-- `if (x == NULL) return; free(x->part); free(x);`
pub free_owner : Option Owner → Mem (Unit {0})
free_owner none = pure tt
free_owner (some o) = do access o.self; free o.part; free (some o.self)

-- `init_bitfield`, which copies the bits from another block.
pub new_bitfield : Option ℕ → Mem Owner
new_bitfield from = do self ← malloc; part ← malloc; access_all from; pure (with_part self part)

pub free_bitfield : Option Owner → Mem (Unit {0})
unfolding free_owner
free_bitfield = free_owner

-- `init_handshake_msg`, with `pstr`.
pub new_handshake_msg : Mem Owner
unfolding new_owner
new_handshake_msg = new_owner

pub free_handshake_msg : Option Owner → Mem (Unit {0})
unfolding free_owner
free_handshake_msg = free_owner

-- `encode_handshake_msg`, with `buf`.
pub new_handshake_msg_encoded : Owner → Mem Owner
unfolding new_owner
new_handshake_msg_encoded hm = do
  encoded ← new_owner
  access hm.self
  access_all hm.part
  pure encoded

pub free_handshake_msg_encoded : Option Owner → Mem (Unit {0})
unfolding free_owner
free_handshake_msg_encoded = free_owner

-- The tests of `decode_handshake_msg`: what is still within the buffer.
pub record Decoding : Type 0 where
  pub nonempty : Bool
  pub pstr_fits : Bool
  pub reserved_fits : Bool
  pub info_hash_fits : Bool
  pub peer_id_fits : Bool

-- After the first test of `decode_handshake_msg` on the struct's fields: `pstr` and the rest.
pub decode_fields : ℕ → Decoding → ℕ → Mem (Option Owner)
decode_fields buf d self = do
  pstr ← malloc
  access buf
  let refuse = do free (some pstr); free (some self); pure none
  if d.reserved_fits && (d.info_hash_fits && d.peer_id_fits)
      then pure (some (with_part self pstr))
      else refuse

pub decode_struct : ℕ → Decoding → Mem (Option Owner)
unfolding decode_fields
decode_struct buf d = do
  self ← malloc
  access buf
  let refuse = do free (some self); pure none
  if d.pstr_fits then decode_fields buf d self else refuse

-- `decode_handshake_msg`
pub new_decoded : ℕ → Decoding → Mem (Option Owner)
unfolding decode_struct
new_decoded buf d = if d.nonempty then decode_struct buf d else pure none

-- `init_message`: an empty payload is NULL.
pub new_message : ℕ → Option ℕ → Mem Owner
new_message payload_len payload = do
  self ← malloc
  let copy = do part ← malloc; access_all payload; pure (with_part self part)
  if ltb 0 payload_len then copy else pure (record { self = self; part = none })

pub free_message : Option Owner → Mem (Unit {0})
unfolding free_owner
free_message = free_owner

pub free_message_encoded : Option Owner → Mem (Unit {0})
unfolding free_owner
free_message_encoded = free_owner

-- `encode_message`; `fits` is the result of `lu_to_big_endian`.
pub new_message_encoded : Owner → Bool → Mem (Option Owner)
unfolding new_owner free_message_encoded
new_message_encoded msg fits = do
  encoded ← new_owner
  access msg.self
  let refuse = do free_message_encoded (some encoded); pure none
  let copy = do access_all msg.part; pure (some encoded)
  if fits then copy else refuse

-- `init_piece_progress`, with `buf`.
pub new_piece_progress : Mem Owner
unfolding new_owner
new_piece_progress = new_owner

pub free_piece_progress : Option Owner → Mem (Unit {0})
unfolding free_owner
free_piece_progress = free_owner

-- A struct with no block of its own: `init_peer`, `free_peer`.
pub new_peer : ℕ → Mem ℕ
new_peer peer_repr = do self ← malloc; access peer_repr; pure self

pub free_peer : Option ℕ → Mem (Unit {0})
free_peer none = pure tt
free_peer (some p) = free (some p)

-- `init_thread_data`, `free_thread_data`.
pub new_thread_data : Mem ℕ
new_thread_data = malloc

pub free_thread_data : Option ℕ → Mem (Unit {0})
free_thread_data none = pure tt
free_thread_data (some d) = free (some d)

-- `init_file_buf`, which copies a block.
pub new_file_buf : Option ℕ → Mem Owner
new_file_buf from = do self ← malloc; part ← malloc; access_all from; pure (with_part self part)

-- `if (f->data != NULL) free(f->data);`
free_unless_null : Option ℕ → Mem (Unit {0})
free_unless_null none = pure tt
free_unless_null (some p) = free (some p)

pub free_file_buf : Option Owner → Mem (Unit {0})
unfolding free_unless_null
free_file_buf none = pure tt
free_file_buf (some f) = do access f.self; free_unless_null f.part; free (some f.self)

-- `read_file` of a file that can be opened; `whole` says whether `fread` gives all of it.
pub read_opened : Bool → Mem (Option Owner)
unfolding new_owner free_file_buf
read_opened whole = do
  buf ← new_owner
  let refuse = do free_file_buf (some buf); pure none
  if whole then pure (some buf) else refuse

pub read_file_blocks : Bool → Bool → Mem (Option Owner)
unfolding read_opened
read_file_blocks opens whole = do
  let read = do f ← malloc; defer (free (some f)) (read_opened whole)
  if opens then read else pure none

-- The three resources of a connection.
pub record ConnBlocks : Type 0 where
  pub self : ℕ
  pub addr : ℕ
  pub sockfd : ℕ

abbrev pub conn_blocks : ConnBlocks → List ℕ
conn_blocks c = c.addr ∷ c.self ∷ c.sockfd ∷ []

-- What `init_conn` returns; a NULL comes with the socket that it has opened, if any, which the
-- caller cannot close.
pub data Opened : Type 0 where
  refused : Option ℕ → Opened
  opened : ConnBlocks → Opened

abbrev pub opened_blocks : Opened → List ℕ
opened_blocks (refused socket) = part_blocks socket
opened_blocks (opened c) = conn_blocks c

-- After `getaddrinfo`. `socket` is taken to give a descriptor.
pub connect_blocks : Connecting → Mem Opened
connect_blocks e = do
  sockfd ← malloc
  let finish = do
    self ← malloc
    addr ← malloc
    pure (opened (record { self = self; addr = addr; sockfd = sockfd }))
  if e.clock_ok && (e.in_time && e.connects) then finish else pure (refused (some sockfd))

-- `init_conn`; the list of addresses that `getaddrinfo` gives is released on every path.
pub new_conn : Connecting → Mem Opened
unfolding connect_blocks
new_conn e = do
  let connect = do res ← malloc; defer (free (some res)) (connect_blocks e)
  if e.resolves then connect else pure (refused none)

pub free_conn : Option ConnBlocks → Mem (Unit {0})
free_conn none = pure tt
free_conn (some c) = do
  access c.self
  free (some c.addr)
  access c.self
  free (some c.sockfd)
  free (some c.self)
