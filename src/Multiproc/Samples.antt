-- ===== src/Multiproc/Samples.antt =====
-- The data of the tests of source/multiproc.
use torr.Prelude.{ℕ, ◌+◌, true, false, [], ◌∷◌, none, ok, ◌≡◌, refl, arith, replicate}
use torr.Bitset
use torr.Bitset.{Memory, bit_set, contents, with_contents, with_bit, resize}
use torr.Ipc.{Channel, new_channel}
use torr.Ipc.Laws.{IsGrowth}
use torr.Network.Peer.State.{Peer, Piece, no_piece, TorrentPeer, piece_download_complete}

abbrev pub twice : ℕ → ℕ → ℕ
twice old n = old + n

pub twice-IsGrowth : IsGrowth twice
twice-IsGrowth old n = (omega arith, omega arith)

abbrev pub piece : Piece
piece = record {
  piece_index = 3;
  piece_size = 4;
  downloaded = 4;
  exists = true;
  piece_data = 1 ∷ 2 ∷ 3 ∷ 4 ∷ [];
}

abbrev pub ours : Peer
ours = record {
  download_target = none;
  identifier = replicate 20 1;
  handshake = [];
  bitfield_pieces = Bitset.resize (0 ∷ []) Bitset.empty 1;
}

abbrev pub no_memory : Memory
no_memory = λ (a : ℕ). []

abbrev pub channel : Channel
channel = new_channel 7

-- The piece is marked in the bitfield.
abbrev pub marked : Peer
marked = record ours { bitfield_pieces = record ours.bitfield_pieces { own = 8 ∷ [] } }

pub marked_now : piece_download_complete no_memory ours 3 ≡ ok (no_memory, marked)
unfolding piece_download_complete bit_set resize contents with_contents with_bit
marked_now = refl

abbrev pub fresh : TorrentPeer
fresh = record {
  tcp = record { incoming = []; accepts = []; sent = [] };
  bitfield = Bitset.empty;
  memory = no_memory;
  download_piece = no_piece;
  socket_healthy = false;
  ip_address = 0;
  ip_address_string = [];
  port = 6881;
  outstanding_requests = 0;
  time_of_last_keep_alive_message = 0;
  handshake_complete = false;
  am_choking = true;
  peer_interested = false;
}
