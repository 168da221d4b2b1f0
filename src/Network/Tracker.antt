-- ===== src/Network/Tracker.antt =====
-- source/network/tracker.hpp, tracker.cpp and endpoint.hpp: announcing to a tracker. This file has
-- the state and the packets of the udp protocol; the children are the transactions and announces.
pub mod Transactions
pub mod Announce
pub mod Peers
pub mod Udp
pub mod Announcing
use torr.Prelude.{
  ℕ, zero, suc, ◌+◌, ◌*◌, ◌-◌, ◌^◌, Bool, true, false, List, [], ◌∷◌, ◌++◌, Option, none, some,
  if◌then◌else◌, length, take, drop, replicate, ◌==◌, ◌&&◌,
}
use torr.Network.Endian.{
  as_small_endian, big_endian_uint16, big_endian_uint32, big_endian_uint64, ntohl,
}
use torr.Uri.Url.{Url, ProtocolType, https, UrlError}

-- `endpoint`
pub record Endpoint : Type 0 where
  pub protocol : ProtocolType
  pub ip_address : ℕ
  pub port : ℕ

-- `peer_ip_touple`
pub record PeerAddress : Type 0 where
  pub address : ℕ
  pub port : ℕ

-- `tracker_response`
pub record TrackerResponse : Type 0 where
  pub peer_addresses : List PeerAddress
  pub interval : ℕ
  pub leechers : ℕ
  pub seeders : ℕ

-- `set_interval`
abbrev pub set_interval : ℕ → TrackerResponse → TrackerResponse
set_interval n r = record r { interval = n }

-- `set_leechers_seeders`, which nothing calls.
abbrev pub set_leechers_seeders : ℕ → ℕ → TrackerResponse → TrackerResponse
set_leechers_seeders l s r = record r { leechers = l; seeders = s }

-- `clear_peers`
abbrev pub clear_peers : TrackerResponse → TrackerResponse
clear_peers r = record r { peer_addresses = [] }

-- `push_back` of peers, one after the other.
abbrev pub push_peers : List PeerAddress → TrackerResponse → TrackerResponse
push_peers ps r = record r { peer_addresses = r.peer_addresses ++ ps }

pub record Tracker : Type 0 where
  pub tracker_as_url : Url
  pub tracker_response : TrackerResponse
  pub endpoint : Endpoint
  pub has_endpoint : Bool
  pub tracker_as_string : List ℕ
  pub announce_transaction_identifier : ℕ
  pub announce_connection_identifier : ℕ

-- `set_string`
abbrev pub set_string : List ℕ → Tracker → Tracker
set_string s t = record t { tracker_as_string = s }

-- `strncpy` of so many bytes: up to the first zero, and zeros behind it. Behind the end of the
-- source, which has at least as many bytes where the program calls it, zeros are taken.
unfoldable pub strncpy : ℕ → List ℕ → List ℕ
strncpy zero xs = []
strncpy (suc n) [] = 0 ∷ strncpy n []
strncpy (suc n) (x ∷ xs) =
    let rest = strncpy n xs in if x == 0 then replicate (suc n) 0 else x ∷ rest

-- `udp_announce_connection_input`
unfoldable pub connection_input : ℕ → ℕ → ℕ → List ℕ
connection_input connection action transaction =
    big_endian_uint64 connection ++ big_endian_uint32 action ++ big_endian_uint32 transaction

-- The fields of `udp_announce_input` that keep their initial values.
unfoldable pub announce_defaults : List ℕ
announce_defaults =
    big_endian_uint64 0
    ++ big_endian_uint64 0
    ++ big_endian_uint64 0
    ++ big_endian_uint32 0
    ++ big_endian_uint32 0
    ++ big_endian_uint32 0
    ++ big_endian_uint32 (2 ^ 32 - 1)
    ++ big_endian_uint16 8000

-- `udp_announce_input`, from the file hash and the peer identifier.
unfoldable pub announce_input : ℕ → ℕ → List ℕ → List ℕ → List ℕ
announce_input connection transaction hash id =
    connection_input connection 1 transaction
    ++ (strncpy 20 hash ++ (strncpy 20 id ++ announce_defaults))

-- `udp_announce_scrape_input`
unfoldable pub scrape_input : ℕ → ℕ → List ℕ → List ℕ
scrape_input connection transaction hash =
    connection_input connection 2 transaction ++ strncpy 20 hash

-- A field of a packet that was received.
abbrev pub field : ℕ → ℕ → List ℕ → ℕ
field offset size xs = as_small_endian (take size (drop offset xs))

-- The loop over the peers of a response, at most so many of them: six bytes each, up to the first
-- that is all zero.
unfoldable pub read_peers : ℕ → List ℕ → List PeerAddress
read_peers (suc n) (a ∷ b ∷ c ∷ d ∷ p ∷ q ∷ rest) =
    let ip = as_small_endian (a ∷ b ∷ c ∷ d ∷ []) in
    let port = as_small_endian (p ∷ q ∷ []) in
    let others = read_peers n rest in
    if ip == 0 && port == 0 then [] else record { address = ntohl ip; port = port } ∷ others
read_peers _ _ = []
