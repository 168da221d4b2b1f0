-- ===== src/Bencode.antt =====
-- source/generic/bencode_map.hpp, the bencode parser and the access to what it has parsed.
pub mod Number
pub mod Target
pub mod Parser
pub mod Access
pub mod Stack
pub mod Grammar
pub mod Scan
pub mod Reading
pub mod RoundTrip
pub mod Quirks
mod Runs
