-- ===== src/Client.antt =====
-- src/client.c: downloading a torrent from several peers at once.
pub mod Download
pub mod DownloadPiece
pub mod Session
pub mod Swarm
pub mod Thread
