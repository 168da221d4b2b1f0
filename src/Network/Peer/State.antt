-- ===== src/Network/Peer/State.antt =====
-- source/network/peer/peer.cpp, the class `peer`, and the state of `torrent_peer`. A source of a
-- torrent is its two virtual functions `file_hash` and `piece_length`.
use torr.Prelude.{
  ℕ, ◌+◌, ◌%◌, Bool, true, false, List, [], ◌∷◌, ◌++◌, map, Option, none, some, Result, ok, err,
  ◌>>=◌, if◌then◌else◌, length, take, replicate, bytes, ◌==◌, ◌||◌, not,
}
use torr.Bitset
use torr.Bitset.{Bitset, Memory}
use torr.Network.Socket.{Socket}

pub record Source : Type 0 where
  pub file_hash : Option (List ℕ)
  pub piece_length : Option ℕ

-- The class `peer`, its unused endpoint left out.
pub record Peer : Type 0 where
  pub download_target : Option Source
  pub identifier : List ℕ
  pub handshake : List ℕ
  pub bitfield_pieces : Bitset

-- `value` of an empty optional throws; a null target, an access out of bounds and a loop that has
-- not ended are the other ends of an operation that does not return.
pub data PeerFault : Type 0 where
  bad_optional null_target out_of_bounds length_error out_of_fuel : PeerFault

abbrev pub value {ℓ} : {A : Type ℓ} → Option A → Result PeerFault A
value none = err bad_optional
value (some a) = ok a

abbrev pub target_of : Peer → Result PeerFault Source
target_of p = elim p.download_target [ none ↦ err null_target | some s ↦ ok s ]

-- `HANDSHAKE_PREFIX`, the terminator of the literal included.
abbrev pub handshake_prefix : List ℕ
handshake_prefix = 19 ∷ bytes "BitTorrent protocol" ++ replicate 8 0

-- `randomize_identifier`, given what `rand` returns.
unfoldable pub randomize_identifier : List ℕ → Peer → ℕ × Peer
randomize_identifier draws p =
    (20, record p { identifier = map (λ (r : ℕ). r % 255) (take 20 draws) })

-- `construct_handshake_string` behind its test of the target.
unfoldable pub handshake_of : List ℕ → Peer → ℕ × Peer
handshake_of hash p =
    if length hash == 0 || length p.identifier == 0
    then (0, p)
    else if not (length hash + length p.identifier + 28 == 68)
    then (0, p)
    else (let joined = p.handshake ++ handshake_prefix ++ hash ++ p.identifier in
        (length joined, record p { handshake = joined }))

-- `construct_handshake_string`
unfoldable pub construct_handshake_string : Peer → Result PeerFault (ℕ × Peer)
construct_handshake_string p = elim p.download_target [
  | none ↦ ok (0, p)
  | some source ↦ value source.file_hash >>= λ hash. ok (handshake_of hash p)
]

-- `set_shared_bitfield`
unfoldable pub set_shared_bitfield : Peer → ℕ → ℕ → Peer
set_shared_bitfield p address size = record p {
  bitfield_pieces = Bitset.from_existing_buffer p.bitfield_pieces address size;
}

-- `set_download_target`, given what the new bytes of the bitfield hold.
unfoldable pub set_download_target : List ℕ → Source → Peer → Peer
set_download_target garbage source p = record p {
  download_target = some source;
  bitfield_pieces = Bitset.resize garbage p.bitfield_pieces 1024;
}

-- `piece_download_complete`
unfoldable pub piece_download_complete : Memory → Peer → ℕ → Result PeerFault (Memory × Peer)
piece_download_complete m p index = elim (Bitset.bit_set m p.bitfield_pieces index) [
  | none ↦ err out_of_bounds
  | some (found, m', b) ↦ ok (m', record p { bitfield_pieces = b })
]

-- `download_torrent_piece`
pub record Piece : Type 0 where
  pub piece_index : ℕ
  pub piece_size : ℕ
  pub downloaded : ℕ
  pub exists : Bool
  pub piece_data : List ℕ

abbrev pub no_piece : Piece
no_piece = record {
  piece_index = 0;
  piece_size = 0;
  downloaded = 0;
  exists = false;
  piece_data = [];
}

-- The class `torrent_peer`, with the memory that the bitsets of its process point to. The flags
-- that no operation reads or writes are left out.
pub record TorrentPeer : Type 0 where
  pub tcp : Socket
  pub bitfield : Bitset
  pub memory : Memory
  pub download_piece : Piece
  pub socket_healthy : Bool
  pub ip_address : ℕ
  pub ip_address_string : List ℕ
  pub port : ℕ
  pub outstanding_requests : ℕ
  pub time_of_last_keep_alive_message : ℕ
  pub handshake_complete : Bool
  pub am_choking : Bool
  pub peer_interested : Bool

-- `empty_download_piece`
unfoldable pub empty_download_piece : TorrentPeer → TorrentPeer
empty_download_piece t = record t {
  download_piece = record t.download_piece { piece_data = []; exists = false };
}

-- `set_ip_and_port`, given what `inet_ntoa` returns.
unfoldable pub set_ip_and_port : Option (List ℕ) → ℕ → ℕ → TorrentPeer → Bool × TorrentPeer
set_ip_and_port none ip p t = (false, record t { ip_address = ip; port = p })
set_ip_and_port (some text) ip p t =
    (true, record t { ip_address = ip; port = p; ip_address_string = text })
