-- ===== src/Network/Peer.antt =====
-- source/network/peer/peer.hpp and peer.cpp. This file is the class `peer`, our own side; the
-- children are the class `torrent_peer`.
pub mod State
pub mod Send
pub mod Receive
pub mod Connection
pub mod Buffers
pub mod Blocks
pub mod Handshakes
pub mod Requests
pub mod Keeping
pub mod Framing
pub mod Asking
pub mod Speaking
pub mod Safety
pub mod Invariant
pub mod Messages
pub mod Unread
pub mod Unchoked
