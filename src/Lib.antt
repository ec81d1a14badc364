-- ===== src/Lib.antt =====
-- btb is a BitTorrent client in C: it parses a torrent file, asks the tracker for peers, and
-- downloads the pieces of one file with one thread for each peer. This library models the parts
-- that decide what it does, each in a module named for the C file.
--
-- BigEndian (src/big_endian.c) has the conversions of numbers on the wire, Bitfield
-- (src/bitfield.c) one bit for each piece. PiecesPool (src/pieces_pool.c) hands out piece
-- indices from a bitfield; DownloadedFile (src/downloaded_file.c) collects the finished pieces
-- and writes the output. Conn (src/conn.c) has the operations of a connection with a deadline,
-- Message (src/message.c) the frames on it, HandshakeMsg (src/handshake_msg.c) the first
-- message, and Peer (src/peer.c) a peer in the tracker's form. Tokenizer (src/tokenizer.c)
-- splits Bencode into tokens; Tokenizer.Bencode is its specification, a type of values with
-- their encoding and tokens. TorrentFile (src/torrent_file.c) is the record of a torrent, and
-- TorrentFile.Parse the loop that fills it from the tokens of a file. PieceProgress
-- (src/piece_progress.c) and Hash (src/hash.c) have what the others share; SHA-1 itself and the
-- contents of the file are arguments. TrackerResponse (src/tracker_response.c) is the request to
-- the tracker and its answer, with libcurl as an argument; FileBuf (src/file_buf.c) holds a
-- whole file in memory. Client (src/client.c) puts them together: DownloadPiece is
-- `download_piece`; Session is the part of `download_torrent_thread_fun` before its loop; Thread
-- is the whole of that function as a program that runs up to its next access to what the threads
-- share; Swarm is the same as a step relation, run by one thread for each peer over one pool and
-- one file; Download is `download_torrent`, with the torrent file, the tracker, the threads and
-- the output file. Main (main.c) is the command line. Heap has the release
-- of memory. Base holds what the modules share, Tests
-- the theorems at concrete inputs.
--
-- In Swarm, Counting and Invariant say where each piece is, Safety and Refinement what follows
-- for the threads together (the specification, in which a piece is unclaimed, claimed or stored,
-- is Specification), Stored and Contents what the file holds, Potential and Bound how many steps there are, and
-- Served what a peer that has every piece brings about. Download.Correct and Download.Honest are
-- about the whole program.
--
-- The functions have the names of the C functions, and their tests the order of the code. A
-- pointer to a block is the list of the block's bytes, and a pointer into it an offset. An
-- outcome is `ok`, `failed` (the NULL or false of the code) or `fault` (undefined behaviour: an
-- access outside an object, a shift by too much). A function that changes an object returns it.
-- Arithmetic of `size_t` is written out modulo 2 ^ 64, and a passage through `int` where the
-- code makes one. The contents of a new block are a parameter, `malloc`, with the hypothesis
-- that it has the length asked for; that `malloc` of a small block fails is not modelled. What
-- the system calls answer is a script in the connection, and what the C library does with the
-- output file is the record Disk, and with a file that is read the record InFile.
--
-- Three loops stop by a bound. The payload of a message is read with its length as fuel, since
-- each call brings a byte (Message.Framing). The loop over the tokens of a torrent file has
-- twice its size and one as fuel, since n bytes have at most 2 n tokens
-- (TorrentFile.Parse.Fuel). The whitespace in front of a token is skipped with the number of
-- unread bytes as fuel, one for each step. The threads need no bound (Swarm.Bound). All other
-- loops count down what the C loop counts up.
--
-- A mutex is held over the whole of each operation on the pool and on the file, so in Swarm an
-- operation is one step, and the steps of the threads are interleaved in any order.
-- PiecesPool.Locked has the operations on the pool statement by statement, with the mutex. A step in
-- which the code would leave an object is no step of the model.
--
-- Heap is a second view of the same functions: which blocks of memory, sockets and open files
-- they allocate, use and release, and in what order. There a struct is the addresses of its
-- blocks, the outcomes of the tests are arguments, so that a theorem is about every path, and
-- `none` is a use of what is not in use. Heap.Defer is DEFER of src/defer.h, a cleanup after the
-- rest of its scope. Heap.Objects has the structs with their `init_` and `free_` functions,
-- Heap.Message and Heap.Thread the exchange of messages and the whole of
-- `download_torrent_thread_fun`, Heap.Tables the structs with tables of pointers (the file, the
-- tracker's response, the torrent file, the pool), and Heap.Tokenizer the token. The threads are
-- taken one by one there: a thread releases only what it has allocated. Whether an access stays
-- inside its block, and an access through NULL, are the matter of the other modules.
--
-- Not modelled: the output to stdout and stderr, the destruction of a mutex, the blocks that
-- `parse_torrent_file` and `contact_tracker` use on the way (the bytes of the file and of the
-- answer), the tests under test/, and a failure of `socket` or of `pthread_create`. A relation between the hash
-- of a piece and `piece_hashes` is not stated, since the code does not compare them. How a peer
-- is scheduled in time is not modelled: a deadline that passes is an answer of the script.
pub mod Base
pub mod BigEndian
pub mod Bitfield
pub mod PiecesPool
pub mod PieceProgress
pub mod TorrentFile
pub mod DownloadedFile
pub mod FileBuf
pub mod Conn
pub mod Message
pub mod Tokenizer
pub mod Hash
pub mod Heap
pub mod Peer
pub mod HandshakeMsg
pub mod Main
pub mod TrackerResponse
pub mod Client
pub mod Tests
