-- ===== src/Network/Peer/Send.antt =====
-- source/network/peer/peer.cpp: the messages that `torrent_peer` sends, and the choice of a piece
-- to download.
use torr.Prelude.{
  ℕ, zero, suc, ◌+◌, ◌*◌, ◌/◌, Bool, true, false, List, [], ◌∷◌, ◌++◌, Option, none, some, Result,
  ok, err, ◌>>=◌, if◌then◌else◌, get_or, u32, u64, leb, ◌==◌, ◌&&◌, not,
}
use torr.Bitset
use torr.Bitset.{Bitset, find_positive_bit_compliment}
use torr.Network.Endian.{big_endian_uint32}
use torr.Network.Socket.{send, has_value}
use torr.Network.Peer.State.{Peer, PeerFault, out_of_bounds, value, target_of, Piece, TorrentPeer}

-- The enumeration `message_type`.
pub data MessageType : Type 0 where
  choke unchoke interested not_interested have bitfield request block cancel : MessageType
  unexpected : ℕ → MessageType

abbrev message_types : List MessageType
message_types =
    choke ∷ unchoke ∷ interested ∷ not_interested ∷ have ∷ bitfield ∷ request ∷ block ∷ cancel ∷ []

unfoldable pub message_type : ℕ → MessageType
message_type n = get_or message_types n (unexpected n)

abbrev pub type_code : MessageType → ℕ
type_code choke = 0
type_code unchoke = 1
type_code interested = 2
type_code not_interested = 3
type_code have = 4
type_code bitfield = 5
type_code request = 6
type_code block = 7
type_code cancel = 8
type_code (unexpected n) = n

-- The five bytes of a `message`.
unfoldable pub message : ℕ → MessageType → List ℕ
message length ty = big_endian_uint32 length ++ type_code ty ∷ []

-- One `m_tcp.send`, and whether it has a value.
abbrev pub transmit : TorrentPeer → List ℕ → Bool × TorrentPeer
transmit t xs = let (sent, s) = send t.tcp xs in (has_value sent, record t { tcp = s })

-- `send_message_interested`
unfoldable pub send_message_interested : TorrentPeer → Bool × TorrentPeer
send_message_interested t = transmit t (message 1 interested)

-- `send_message_have`
unfoldable pub send_message_have : TorrentPeer → Piece → Bool × TorrentPeer
send_message_have t piece = transmit t (message 5 have ++ big_endian_uint32 piece.piece_index)

-- `send_message_bitfield`: the contents are sent if the message was.
unfoldable pub send_message_bitfield : Peer → TorrentPeer → Bool × TorrentPeer
send_message_bitfield ourself t =
    let (sent, next) =
      transmit t (message (u64 (1 + ourself.bitfield_pieces.bytes_size)) bitfield) in
    if sent then transmit next (Bitset.contents t.memory ourself.bitfield_pieces) else (false, next)

-- The payload of `send_message_request`.
unfoldable pub request_payload : Piece → ℕ → List ℕ
request_payload piece offset =
    message 13 request
    ++ big_endian_uint32 piece.piece_index
    ++ big_endian_uint32 (u64 (piece.downloaded + offset))
    ++ big_endian_uint32 16384

-- `send_message_request`
unfoldable pub send_message_request : TorrentPeer → ℕ → Bool × TorrentPeer
send_message_request t offset = transmit t (request_payload t.download_piece offset)

-- The loop of `fill_outstanding_requests`, `n` rounds from round `i`.
unfoldable pub request_blocks : ℕ → ℕ → TorrentPeer → TorrentPeer
request_blocks zero i t = t
request_blocks (suc n) i t =
    let (sent, next) = send_message_request t (u32 (16384 * i)) in request_blocks n (suc i) next

-- `fill_outstanding_requests`
unfoldable pub fill_outstanding_requests :
    Peer → TorrentPeer → Result PeerFault (Bool × TorrentPeer)
fill_outstanding_requests ourself t = do
  source ← target_of ourself
  size ← value source.piece_length
  ok (true, request_blocks (u32 (size / 16384)) 0 t)

-- `determine_outstanding_requests`
unfoldable pub determine_outstanding_requests : TorrentPeer → TorrentPeer
determine_outstanding_requests t = record t { outstanding_requests = 90 }

-- `determine_download_piece` behind its search.
unfoldable pub choose_piece : Peer → TorrentPeer → Option ℕ → Result PeerFault (Bool × TorrentPeer)
choose_piece ourself t none = ok (false, t)
choose_piece ourself t (some index) = do
  source ← target_of ourself
  size ← value source.piece_length
  ok (
    true,
    record t {
      download_piece = record {
        piece_index = index;
        piece_size = size;
        downloaded = 0;
        exists = true;
        piece_data = [];
      };
    },
  )

-- `determine_download_piece`, given the random number of skips.
unfoldable pub determine_download_piece :
    ℕ → Peer → TorrentPeer → Result PeerFault (Bool × TorrentPeer)
determine_download_piece skips ourself t =
    elim (find_positive_bit_compliment t.memory ourself.bitfield_pieces t.bitfield skips) [
      | none ↦ err out_of_bounds
      | some found ↦ choose_piece ourself t found
    ]

-- `download_next_piece` behind its choice of a piece.
unfoldable pub request_piece : Peer → TorrentPeer → Result PeerFault (Bool × TorrentPeer)
request_piece ourself t =
    if not (t.download_piece.downloaded == 0)
      && leb t.download_piece.piece_size t.download_piece.downloaded
    then ok (false, t)
    else (do
      (filled, next) ← fill_outstanding_requests ourself (determine_outstanding_requests t)
      ok (true, next))

-- `download_next_piece`
unfoldable pub download_next_piece : ℕ → Peer → TorrentPeer → Result PeerFault (Bool × TorrentPeer)
download_next_piece skips ourself t =
    if t.am_choking
    then ok (false, t)
    else if t.download_piece.exists
    then request_piece ourself t
    else (do
      (found, next) ← determine_download_piece skips ourself t
      if found then request_piece ourself next else ok (false, next))
