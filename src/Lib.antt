-- ===== src/Lib.antt =====
-- Torr, a BitTorrent client: a model of its logic and the theorems that make it correct.
--
-- The program reads a torrent file (source/torrent_file.cpp) with an incremental bencode parser
-- (source/generic/bencode_map.hpp), hashes the info dictionary, announces itself to the trackers
-- of the file over udp or http (source/network/tracker.cpp, whose urls source/uri/url.cpp parses),
-- and talks to the peers that a tracker names (source/network/peer/peer.cpp): handshakes,
-- bitfields (source/generic/dynamic_bitset.hpp), requests and blocks. A process for each peer
-- (source/multiproc) downloads pieces in a sandbox and sends them to the parent over a fifo
-- (source/ipc).
--
-- The files:
--   Prelude      tests, lists, results, words and text that all of them share; `Result` with its
--                bind is std::expected with the TRY of source/generic/try.hpp
--   Bencode      source/generic/bencode_map.hpp. Target: the struct target; Parser: push_to_target,
--                end_target, switch_state, consume_state, consume_byte and from_buffer, under their
--                names; Access: operator[], type, as_str, as_int and as_raw; Number: std::stol. The
--                pointers of m_target_queue and m_bracket_root are paths into m_root. Stack is the
--                abstract view of root and queue, with Held, Walk, Pointers, Steady and Growth
--                what it says of any input; Grammar is an encoder that is independent of the program,
--                Scan, Reading and RoundTrip relate the two, Quirks shows a defect
--   Bitset       source/generic/dynamic_bitset.hpp. A bitset owns its bytes or shares a buffer of a
--                memory; Bits, Laws and Find are about single bytes, single bits and the search
--   TorrentFile  source/torrent.hpp and source/torrent_file.cpp; the digest SHA1 is a parameter
--   Network      Endian: source/network/socket/endian.hpp; Socket: send and receive of
--                source/network/socket/tcp.cpp, with Connect connect_with_timeout of cassync.h there,
--                Descriptors the rest of tcp.cpp and udp.cpp, and Timeouts a proof; Http:
--                source/network/socket/http.cpp, with Fetch the request of a tracker and Requests
--                proofs; Peer: source/network/peer/peer.cpp, with State the class peer and the fields
--                of torrent_peer, Connection, Send and Receive its operations; Tracker:
--                source/network/tracker.cpp, with Transactions the udp protocol and Announce the
--                rest. Buffers, Blocks, Messages, Unread, Unchoked, Safety, Keeping, Invariant,
--                Framing, Asking, Speaking, Handshakes, Requests, Peers, Udp and Announcing are the
--                proofs
--   Ipc          source/ipc/ipc.cpp: the channel with the memory of its buffer, and the shared memory;
--                Laws are the proofs
--   Multiproc    source/multiproc/multiproc.cpp: the message and its handling, with Startup the
--                constructors, Children the work of a task and the starting of children, and System
--                the parent and its tasks as a step relation. Encoding, Messages, Swallowed, Exchange,
--                Exclusion, Holders, Deadlock, Front, Doom, Delivery, Working, Repeated, Download, Session,
--                Conduct and Spawning are the proofs. Sandbox: source/multiproc/sandbox.c, with Filter
--                its proofs
--   Download     examples/download/download.cpp, which puts the parts together, up to the loop of
--                the parent; Start is the proof
--   Uri          Url: source/uri/url.cpp; Magnet: source/uri/magnet.cpp, with Hashes its proofs
--
-- Undefined behaviour, exceptions and failed asserts are values of the fault types. What the
-- operating system does at each call of a socket is a script in the state: segments, failures, the
-- end of the connection. Four loops are not bounded by their data and run on fuel: those of
-- receive_message_block, of http::get_request, of handle_downloaded_piece and of
-- connect_with_timeout. One unit for each segment that arrives, or each round that the operating
-- system makes, and one more is enough, and running out is a fault of its own. The endless loop of
-- work runs for a list of rounds, each with what it is given. In the step
-- relation of the processes (Multiproc/System) a step is what a process does up to the next point
-- at which another may run or it may have to wait; the fifo has a limited room, and the steps of
-- the parent are the functions of Multiproc. A supported value (Bencode/Grammar) has integers of
-- 64 bits and strings that are not empty, which is what the parser can read. std::regex_search,
-- sscanf, gethostbyname, SHA1, rand, time, inet_ntoa, fork, waitpid, the growth of a vector, the
-- calls of openssl and libseccomp are parameters.
--
-- Not modelled: the thread in which the spawner runs beside the parent's loop, a handshake of spawn
-- that ends in a fault, a shared memory that cannot be attached, in which way the http request of a
-- tracker fails (each is a missing result), what the kernel makes of the landlock rules, what is
-- printed but by the handler of SIGSYS, and the other example and the tests, which only call the
-- library.
mod Prelude
pub mod Bitset
pub mod Bencode
pub mod TorrentFile
pub mod Network
pub mod Uri
pub mod Ipc
pub mod Multiproc
pub mod Download
