-- ===== src/Network.antt =====
-- source/network: byte orders, sockets, the peer protocol and the trackers.
pub mod Endian
pub mod Socket
pub mod Http
pub mod Peer
pub mod Tracker
mod Samples
mod Runs
mod TrackerRuns
