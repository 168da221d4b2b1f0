-- ===== src/Multiproc/Sessions.antt =====
-- The theorems about whole runs of a task, at concrete inputs.
use torr.Prelude.{
  Result, err, ℕ, true, not, some, List, [], ◌∷◌, ◌++◌, ok, ◌≡◌, ◌≤◌, refl, arith, ◌>>=◌, replicate,
  length-replicate,
}
use torr.Bitset
use torr.Bitset.{
  find_positive_bit_compliment, find_mismatch, find_bit, bitset_u8_bit_get, bit_of, boundary,
  bit_get, contents, resize,
}
use torr.Network.Socket.{segment, closed}
use torr.Network.Endian.{big_endian, big_endian_from}
use torr.Network.Socket.{send, receive}
use torr.Network.Peer.Receive.{
  receive_message, dispatch_message, receive_message_keep_alive, receive_message_unchoke,
}
use torr.Network.Peer.State.{PeerFault, Source, Peer, TorrentPeer, empty_download_piece}
use torr.Network.Peer.Send.{
  unchoke, message, download_next_piece, determine_download_piece, choose_piece, request_piece,
  determine_outstanding_requests, fill_outstanding_requests, request_blocks, send_message_request,
  request_payload, message_type,
}
use torr.Network.Peer.Blocks.{arriving}
use torr.Network.Peer.Messages.{Block, data_of, grown, announced}
use torr.Network.Peer.Unchoked.{open_to, search}
use torr.Ipc.{Channel, capacity, new_channel}
use torr.Multiproc.{piece_file}
use torr.Multiproc.Samples.{
  twice, twice-IsGrowth, ours, no_memory, channel, marked, marked_now, fresh,
}
use torr.Multiproc.System.{Notice, waiting, Reach}
use torr.Multiproc.Deadlock.{begun}
use torr.Multiproc.Children.{Turn, Work, work, work_round}
use torr.Multiproc.Working.{Heard, turns_of, data_from}
use torr.Multiproc.Conduct.{WorkSpeaks, work-WorkSpeaks}
use torr.Multiproc.Session.{asked_of, following, session-saved}

-- Pieces of one block of 16384 bytes; the other side has the piece 3.
abbrev source : Source
source = record { file_hash = some (replicate 20 7); piece_length = some 16384 }

abbrev seeking : Peer
seeking = record ours { download_target = some source }

abbrev choked : TorrentPeer
choked = record fresh {
  socket_healthy = true;
  handshake_complete = true;
  bitfield = record (Bitset.resize (0 ∷ []) Bitset.empty 1) { own = 8 ∷ [] };
}

abbrev turn : Turn
turn = record {
  world = record { now = 1000; skips = 0; garbage = []; fuel = 3 };
  padding = (9, 9, 9, 9);
  behind = [];
}

found : search 0 16384 source seeking choked refl refl ≡ some (some 3)
unfolding find_positive_bit_compliment find_mismatch find_bit bitset_u8_bit_get bit_of boundary
    bit_get contents resize
found = refl

-- The block comes in two halves.
abbrev half : List ℕ
half = replicate 8192 1

-- The parent has made room for a piece.
abbrev wide : Channel
wide = record channel { read_memory = replicate 20000 0 }

room_left : 20000 ≤ capacity wide
room_left = omega (arith, length-replicate {A = ℕ} 20000 0)

abbrev first_half : Block
first_half = record { offset = 0; front = half; later = [] }

abbrev last_half : Block
last_half = record { offset = 8192; front = half; later = [] }

abbrev heard : Heard
heard = (turn, first_half) ∷ []

session-saved_example :
    (n : Notice) × (work seeking (turn ∷ (turns_of heard ++ turn ∷ [])) (
        open_to 16384 []
          (segment (message 1 unchoke) ∷ following 3 heard last_half (closed ∷ []))
          choked)
      ≡ (download_next_piece 0 seeking (
            empty_download_piece (
              announced (
                grown
                  (arriving (asked_of 3 16384 [] choked) (closed ∷ []))
                  (data_from heard ++ data_of last_half))))
          >>= λ (found, next).
              ok (record { notices = n ∷ []; has_quit = not next.socket_healthy; them = next })))
    × (last : Channel) × (20000 ≤ capacity last)
    × Reach 20000 twice
        (record (begun wide [] no_memory ours) { tasks = waiting n ∷ [] })
        (begun last
          ([]
            ++ (record {
              file_name = piece_file 3;
              contents = (data_from heard ++ data_of last_half) ++ [];
            })
              ∷ [])
          no_memory
          marked)
unfolding new_channel
session-saved_example =
    session-saved 20000 twice twice-IsGrowth wide [] no_memory no_memory seeking ours marked turn
      turn heard last_half 3 16384 source choked [] (closed ∷ []) refl refl refl refl refl found
      (omega arith) (omega arith) (omega arith) (omega arith) (omega arith) (omega arith)
      (omega arith) room_left (omega arith) marked_now

-- A keep alive and an unchoke arrive, and no third message.
abbrev woken : TorrentPeer
woken =
    open_to 16384 (some 17 ∷ []) (segment (replicate 5 0) ∷ segment (message 1 unchoke) ∷ []) choked

abbrev sent_by : Result PeerFault Work → List (List ℕ)
sent_by (ok run) = run.them.tcp.sent
sent_by (err e) = []

-- The task answers with five bytes, and asks for the one block.
answered :
    sent_by (work seeking (turn ∷ turn ∷ turn ∷ []) woken)
    ≡ replicate 5 0
      ∷ (0 ∷ 0 ∷ 0 ∷ 13 ∷ 6 ∷ 0 ∷ 0 ∷ 0 ∷ 3 ∷ 0 ∷ 0 ∷ 0 ∷ 0 ∷ 0 ∷ 0 ∷ 64 ∷ 0 ∷ [])
      ∷ []
unfolding work work_round receive_message dispatch_message receive_message_keep_alive
    receive_message_unchoke download_next_piece determine_download_piece choose_piece request_piece
    determine_outstanding_requests fill_outstanding_requests request_blocks send_message_request
    request_payload message_type message big_endian big_endian_from receive send
    find_positive_bit_compliment find_mismatch find_bit bitset_u8_bit_get bit_of boundary bit_get
    contents resize
answered = refl

work-WorkSpeaks_example : WorkSpeaks [] (work seeking (turn ∷ turn ∷ turn ∷ []) woken)
work-WorkSpeaks_example = work-WorkSpeaks seeking (turn ∷ turn ∷ turn ∷ []) woken (omega arith)
