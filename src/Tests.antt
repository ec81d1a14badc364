-- ===== src/Tests.antt =====
-- The theorems at concrete inputs.
mod Bencoding
mod Download
mod Files
mod Heap
mod Pieces
mod Swarm
mod Torrent
mod Tracker
mod Wire
