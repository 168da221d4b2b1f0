-- ===== src/Network/Samples.antt =====
-- The data of the tests of source/network.
use torr.Prelude.{ℕ, true, false, List, [], some, replicate}
use torr.Bitset
use torr.Network.Socket.{Socket}
use torr.Network.Peer.State.{Source, Peer, no_piece, TorrentPeer}

abbrev pub hash : List ℕ
hash = replicate 20 7

abbrev pub source : Source
source = record { file_hash = some hash; piece_length = some 40000 }

abbrev pub ours : Peer
ours = record {
  download_target = some source;
  identifier = replicate 20 1;
  handshake = [];
  bitfield_pieces = Bitset.empty;
}

abbrev pub socket : Socket
socket = record { incoming = []; accepts = []; sent = [] }

abbrev pub fresh : TorrentPeer
fresh = record {
  tcp = socket;
  bitfield = Bitset.empty;
  memory = λ (a : ℕ). [];
  download_piece = no_piece;
  socket_healthy = false;
  ip_address = 0;
  ip_address_string = [];
  port = 6881;
  outstanding_requests = 0;
  time_of_last_keep_alive_message = 0;
  handshake_complete = false;
  am_choking = true;
  peer_interested = false;
}

abbrev pub begun : TorrentPeer
begun = record fresh {
  download_piece = record no_piece {
    piece_size = 16;
    downloaded = 8;
    exists = true;
    piece_data = replicate 8 5;
  };
}
