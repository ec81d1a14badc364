-- ===== src/Heap/Tables.antt =====
-- The structs with a table of pointers: `downloaded_file` of src/downloaded_file.c,
-- `tracker_response` of src/tracker_response.c, `torrent_file` of src/torrent_file.c, and the pool
-- of src/pieces_pool.c.
pub mod File
pub mod Response
pub mod Torrent
pub mod Laws
use btb.Heap.{Mem, pure, and_then, ◌>>=◌, ◌>>◌, malloc, free, access}
use btb.Heap.Objects.{Owner, new_bitfield, free_bitfield, new_peer, free_peer}
use btb.Base.{ℕ, zero, suc, replicate, List, [], ◌∷◌, Option, none, some, set}

-- `for (…) release(table[i]);`
pub free_each : (Option ℕ → Mem (Unit {0})) → ℕ → List (Option ℕ) → Mem (Unit {0})
free_each release table [] = pure tt
free_each release table (p ∷ ps) = do access table; release p; free_each release table ps

-- A struct, its table, and what the table points to.
pub record Table : Type 0 where
  pub self : ℕ
  pub entries_at : ℕ
  pub entries : List (Option ℕ)

-- `init_downloaded_file`, with every piece NULL.
pub new_downloaded_file : ℕ → Mem Table
new_downloaded_file num_pieces = do
  self ← malloc
  entries_at ← malloc
  pure (record { self = self; entries_at = entries_at; entries = replicate num_pieces none })

-- `add_piece`: the pointer that was there before is overwritten.
pub add_piece_block : Table → ℕ → Mem Table
add_piece_block df index = do
  access df.self
  block ← malloc
  access df.entries_at
  pure (record df { entries = set df.entries index (some block) })

pub add_piece_blocks : Table → List ℕ → Mem Table
unfolding add_piece_block
add_piece_blocks df [] = pure df
add_piece_blocks df (i ∷ is) = do df' ← add_piece_block df i; add_piece_blocks df' is

-- The blocks of a table's struct, in the order of `free_downloaded_file`. Its mutex is a part of the
-- struct.
pub free_downloaded_file : Table → Mem (Unit {0})
unfolding free_each
free_downloaded_file df = do
  access df.self
  free_each free df.entries_at df.entries
  free (some df.entries_at)
  access df.self
  free (some df.self)

-- A file from its allocation to its release, with the pieces stored in between.
pub use_downloaded_file : ℕ → List ℕ → Mem (Unit {0})
unfolding new_downloaded_file add_piece_blocks free_downloaded_file
use_downloaded_file num_pieces is = do
  df ← new_downloaded_file num_pieces
  df' ← add_piece_blocks df is
  free_downloaded_file df'

-- The peers of `contact_tracker`: each is made from a copy of its six bytes.
pub new_peers : ℕ → ℕ → Mem (List (Option ℕ))
new_peers peers zero = pure []
new_peers peers (suc n) = do
  peer_repr ← malloc
  p ← new_peer peer_repr
  access peers
  free (some peer_repr)
  ps ← new_peers peers n
  pure (some p ∷ ps)

-- The table of a response, which is NULL until the peers are known.
pub free_tracker_response : ℕ → Option ℕ → List (Option ℕ) → Mem (Unit {0})
unfolding free_each
free_tracker_response self none ps = do access self; free none; free (some self)
free_tracker_response self (some peers) ps = do
  access self
  free_each free_peer peers ps
  access self
  free (some peers)
  free (some self)

-- `init_tracker_response`, a call of `contact_tracker` that finds `num_peers` peers, and the release.
pub use_tracker_response : ℕ → Mem (Unit {0})
unfolding new_peers free_tracker_response
use_tracker_response num_peers = do
  self ← malloc
  peers ← malloc
  ps ← new_peers peers num_peers
  free_tracker_response self (some peers) ps

-- `init_pieces_pool`: the zeros that the bitfield copies are released.
pub record PoolBlocks : Type 0 where
  pub self : ℕ
  pub bits : Owner

pub new_pieces_pool : Mem PoolBlocks
new_pieces_pool = do
  self ← malloc
  bitfield_data ← malloc
  bits ← new_bitfield (some bitfield_data)
  free (some bitfield_data)
  pure (record { self = self; bits = bits })

pub free_pieces_pool : PoolBlocks → Mem (Unit {0})
free_pieces_pool pool = do access pool.self; free_bitfield (some pool.bits); free (some pool.self)

pub use_pieces_pool : Mem (Unit {0})
unfolding new_pieces_pool free_pieces_pool
use_pieces_pool = do pool ← new_pieces_pool; free_pieces_pool pool

-- The pointers of a torrent file, of which the table of hashes may be NULL.
pub record TorrentBlocks : Type 0 where
  pub self : ℕ
  pub name : Option ℕ
  pub piece_hashes : Option ℕ
  pub hashes : List (Option ℕ)
  pub info_hash : Option ℕ
  pub comment : Option ℕ
  pub announce : Option ℕ

-- `if (t->piece_hashes != NULL) for (…) free(…);`
free_hashes : Option ℕ → List (Option ℕ) → Mem (Unit {0})
unfolding free_each
free_hashes none hashes = pure tt
free_hashes (some table) hashes = free_each free table hashes

pub free_torrent_file : TorrentBlocks → Mem (Unit {0})
unfolding free_hashes
free_torrent_file t = do
  access t.self
  free t.name
  free_hashes t.piece_hashes t.hashes
  free t.piece_hashes
  free t.info_hash
  free t.comment
  free t.announce
  free (some t.self)
