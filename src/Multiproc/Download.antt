-- ===== src/Multiproc/Download.antt =====
-- source/multiproc/multiproc.cpp and source/network/peer/peer.cpp: from the blocks that a peer sends
-- to the file of the piece.
use torr.Prelude.{
  ℕ, ◌+◌, ◌^◌, ◌<◌, ◌≤◌, true, not, List, [], ◌∷◌, ◌++◌, ok, ◌>>=◌, ◌≡◌, length, arith,
  length-append,
}
use torr.Bitset.{Memory}
use torr.Network.Socket.{Event}
use torr.Network.Peer.State.{Peer, TorrentPeer, empty_download_piece, piece_download_complete}
use torr.Network.Peer.Send.{download_next_piece}
use torr.Network.Peer.Blocks.{arriving}
use torr.Network.Peer.Messages.{Block, data_of, events_of, grown, announced, Arrives, IsReady}
use torr.Ipc.{Channel, capacity}
use torr.Ipc.Laws.{IsGrowth}
use torr.Multiproc.{SavedPiece, piece_file, output_data}
use torr.Multiproc.System.{Notice, notice_of, waiting, Reach}
use torr.Multiproc.Deadlock.{begun}
use torr.Multiproc.Delivery.{notice-saved}
use torr.Multiproc.Children.{Turn, work}
use torr.Multiproc.Working.{Heard, turns_of, events_from, data_from, AllArrive, work-blocks}

-- The contents of the file: what the task had of the piece, the data of the blocks, and what the
-- vector has allocated behind them.
abbrev pub contents_of : TorrentPeer → Heard → Block → Turn → List ℕ
contents_of t hs b turn = t.download_piece.piece_data ++ (data_from hs ++ data_of b) ++ turn.behind

module _ (room : ℕ) (grow : ℕ → ℕ → ℕ) (growth : IsGrowth grow) (c : Channel)
    (saved : List SavedPiece) (memory memory' : Memory) (ourself parent parent' : Peer) where
  -- The blocks of a piece that is no larger than the fifo and the buffer of the parent reach its
  -- file, each sent with its header and a first byte of its data in one segment: the task writes
  -- exactly one notice, with which there is a run, of the task alone and the parent, that ends
  -- where both have nothing to do, and saves under the index of the piece the data of the blocks,
  -- in the order of their arrival, with what the vector has allocated behind them; the piece is
  -- marked. The contents are the data and what the vector has allocated, and the sizes are below
  -- 2 ^ 31.
  pub blocks-saved :
      (hs : Heard) (turn : Turn) (b : Block) (t : TorrentPeer) (rest : List Event)
      → AllArrive hs
      → Arrives turn.world b
      → IsReady t
      → t.socket_healthy ≡ true
      → t.download_piece.downloaded + length (data_from hs) < t.download_piece.piece_size
      → t.download_piece.piece_size
        ≤ t.download_piece.downloaded + length (data_from hs) + length (data_of b)
      → 24 ≤ room
      → length (contents_of t hs b turn) ≤ room
      → room ≤ capacity c
      → length (contents_of t hs b turn) < 2 ^ 31
      → piece_download_complete memory parent t.download_piece.piece_index ≡ ok (memory', parent')
      → (n : Notice) × (work ourself (turns_of hs ++ turn ∷ []) (
            arriving t (
              events_from t.download_piece.piece_index hs
              ++ (events_of t.download_piece.piece_index b ++ rest)))
          ≡ (download_next_piece turn.world.skips ourself (
                empty_download_piece
                  (announced (grown (arriving t rest) (data_from hs ++ data_of b))))
              >>= λ (found, next).
                  ok
                    (record { notices = n ∷ []; has_quit = not next.socket_healthy; them = next })))
        × (last : Channel) × (room ≤ capacity last)
        × Reach room grow
            (record (begun c saved memory parent) { tasks = waiting n ∷ [] })
            (begun last
              (saved
                ++ (record {
                  file_name = piece_file t.download_piece.piece_index;
                  contents = contents_of t hs b turn;
                })
                  ∷ [])
              memory'
              parent')
  unfolding output_data
  blocks-saved hs turn b t rest a arrives r s h k low fits large small done =
      let xs = data_from hs ++ data_of b in
      let d = t.download_piece.downloaded in
      let piece = (grown t xs).download_piece in
      let sizes : length (contents_of t hs b turn)
          ≡ d + length (data_from hs) + length (data_of b) + length turn.behind =
        omega (
          arith,
          length-append (t.download_piece.piece_data ++ xs) turn.behind,
          length-append t.download_piece.piece_data xs,
          length-append (data_from hs) (data_of b),
          r.2,
        ) in
      let some_left : 0 < length (output_data turn.behind piece) = omega (arith, sizes, h, k) in
      let (last, kept, run) =
        notice-saved room grow growth turn.padding turn.behind piece c saved memory memory' parent
          parent' low some_left fits large small (omega (arith, r.1)) done in
      (
        notice_of turn.padding turn.behind piece,
        work-blocks ourself hs turn b t rest a arrives r s h k (omega (arith, sizes, small)),
        last,
        kept,
        run,
      )
