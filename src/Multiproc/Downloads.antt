-- ===== src/Multiproc/Downloads.antt =====
-- The theorems about a task that downloads, at concrete inputs.
use torr.Prelude.{true, false, not, [], ◌∷◌, ◌++◌, ok, ◌≡◌, refl, arith, ◌>>=◌, ◌≤◌}
use torr.Network.Socket.{closed}
use torr.Network.Peer.State.{TorrentPeer, empty_download_piece}
use torr.Network.Peer.Send.{download_next_piece}
use torr.Network.Peer.Blocks.{arriving}
use torr.Network.Peer.Messages.{Block, data_of, events_of, grown, announced}
use torr.Ipc.{Channel, capacity, new_channel}
use torr.Multiproc.{piece_file}
use torr.Multiproc.Samples.{
  twice, twice-IsGrowth, piece, ours, no_memory, channel, marked, marked_now, fresh,
}
use torr.Multiproc.System.{Notice, waiting, Reach}
use torr.Multiproc.Deadlock.{begun}
use torr.Multiproc.Children.{Turn, work}
use torr.Multiproc.Working.{Heard, turns_of, events_from, data_from}
use torr.Multiproc.Repeated.{repeated, chokes, emptied_by, work-repeated}
use torr.Multiproc.Download.{contents_of, blocks-saved}

-- A piece of four bytes, of which nothing is there yet.
abbrev ready : TorrentPeer
ready = record fresh {
  download_piece = record piece { downloaded = 0; piece_data = [] };
  socket_healthy = true;
  handshake_complete = true;
}

abbrev turn : Turn
turn = record {
  world = record { now = 1000; skips = 0; garbage = []; fuel = 3 };
  padding = (9, 9, 9, 9);
  behind = 7 ∷ [];
}

-- Two blocks, the second in two segments.
abbrev first_block : Block
first_block = record { offset = 0; front = 1 ∷ 2 ∷ []; later = [] }

abbrev last_block : Block
last_block = record { offset = 2; front = 3 ∷ []; later = (4 ∷ []) ∷ [] }

abbrev heard : Heard
heard = (turn, first_block) ∷ []

blocks-saved_example :
    (n : Notice) × (work ours
        (turns_of heard ++ turn ∷ [])
        (arriving ready (events_from 3 heard ++ (events_of 3 last_block ++ closed ∷ [])))
      ≡ (download_next_piece 0 ours (
            empty_download_piece (
              announced
                (grown (arriving ready (closed ∷ [])) (data_from heard ++ data_of last_block))))
          >>= λ (found, next).
              ok (record { notices = n ∷ []; has_quit = not next.socket_healthy; them = next })))
    × (last : Channel) × (24 ≤ capacity last)
    × Reach 24 twice
        (record (begun channel [] no_memory ours) { tasks = waiting n ∷ [] })
        (begun last
          ([]
            ++ (record {
              file_name = piece_file 3;
              contents = contents_of ready heard last_block turn;
            })
              ∷ [])
          no_memory
          marked)
unfolding new_channel
blocks-saved_example =
    blocks-saved 24 twice twice-IsGrowth channel [] no_memory no_memory ours ours marked heard turn
      last_block ready (closed ∷ []) (omega arith) (omega arith) (refl, omega arith, refl) refl
      (omega arith) (omega arith) (omega arith) (omega arith) (omega arith) (omega arith) marked_now

-- The piece is complete: the second notice has its index and none of its data.
abbrev complete : TorrentPeer
complete = record ready { download_piece = piece }

work-repeated_example :
    work ours (turn ∷ turn ∷ []) (arriving complete (chokes (turn ∷ turn ∷ []) ++ closed ∷ []))
    ≡ ok (record {
      notices = repeated (turn ∷ turn ∷ []) complete;
      has_quit = false;
      them = arriving (emptied_by (turn ∷ turn ∷ []) complete) (closed ∷ []);
    })
work-repeated_example = work-repeated ours (turn ∷ turn ∷ []) complete (closed ∷ []) refl refl refl
