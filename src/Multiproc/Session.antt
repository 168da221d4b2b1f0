-- ===== src/Multiproc/Session.antt =====
-- source/multiproc/multiproc.cpp and source/network/peer/peer.cpp: from the unchoke of a peer to the
-- file of the piece that is asked for.
use torr.Prelude.{
  ℕ, ◌+◌, ◌^◌, ◌<◌, ◌≤◌, true, false, not, Option, none, some, List, [], ◌∷◌, ◌++◌, ok, ◌>>=◌, ◌≡◌,
  refl, ◌∙◌, length, arith, length-append,
}
use torr.Bitset.{Memory}
use torr.Network.Socket.{Event, segment}
use torr.Network.Peer.State.{
  Source, Peer, TorrentPeer, empty_download_piece, piece_download_complete,
}
use torr.Network.Peer.Send.{unchoke, message, download_next_piece}
use torr.Network.Peer.Receive.{receive_message}
use torr.Network.Peer.Blocks.{arriving}
use torr.Network.Peer.Messages.{Block, data_of, events_of, grown, announced, Arrives}
use torr.Network.Peer.Requests.{sending}
use torr.Network.Peer.Unchoked.{asking, requests, open_to, search, receive_message-asking}
use torr.Ipc.{Channel, capacity}
use torr.Ipc.Laws.{IsGrowth}
use torr.Multiproc.{SavedPiece, piece_file}
use torr.Multiproc.System.{Notice, waiting, Reach}
use torr.Multiproc.Deadlock.{begun}
use torr.Multiproc.Children.{is_complete, work_round, Turn, work}
use torr.Multiproc.Working.{Heard, turns_of, events_from, data_from, AllArrive, work-quiet}
use torr.Multiproc.Download.{blocks-saved}

work_round-quiet :
    (ourself : Peer) (turn : Turn) (t u : TorrentPeer)
    → receive_message turn.world ourself t ≡ ok (false, u)
    → is_complete u ≡ false
    → u.socket_healthy ≡ true
    → work_round turn.world turn.padding turn.behind ourself t
      ≡ ok (record { notice = none; quits = false; them = u })
unfolding work_round
work_round-quiet ourself turn t u h c s = rw h (rw c (rw s refl))

-- The task's peer once it has asked for the blocks of a piece of this index and size.
abbrev pub asked_of : ℕ → ℕ → List (Option ℕ) → TorrentPeer → TorrentPeer
asked_of index size more t = sending (asking index size t) more (requests index size)

-- What follows the unchoke: the blocks of the piece, and what comes after them.
abbrev pub following : ℕ → Heard → Block → List Event → List Event
following index hs b rest = events_from index hs ++ (events_of index b ++ rest)

module _ (room : ℕ) (grow : ℕ → ℕ → ℕ) (growth : IsGrowth grow) (c : Channel)
    (saved : List SavedPiece) (memory memory' : Memory) (ourself parent parent' : Peer) where
  -- The whole way of a piece: a peer from which nothing is being downloaded ends its choke, and the
  -- search finds this index; the task then sends exactly the requests for the whole blocks of that
  -- piece, and once the peer has sent its blocks, in messages of any sizes, each with its header
  -- and a first byte of its data in one segment and the rest in segments of any lengths, the task
  -- has written exactly one notice for the parent. With that notice there is a run, of the task
  -- alone and the parent, that ends where both have nothing to do, and saves under the index that
  -- was found the data of the blocks, in the order of their arrival, with what the vector has
  -- allocated behind them; the piece is marked. The connection accepts the requests whole, the
  -- contents are no larger than the fifo and the buffer of the parent, and all sizes are below
  -- 2 ^ 31.
  pub session-saved :
      (first turn : Turn) (hs : Heard) (b : Block) (index size : ℕ) (source : Source)
      (t : TorrentPeer) (more : List (Option ℕ)) (rest : List Event)
      (targeted : ourself.download_target ≡ some source) (sized : source.piece_length ≡ some size)
      → t.handshake_complete ≡ true
      → t.socket_healthy ≡ true
      → t.download_piece.exists ≡ false
      → search first.world.skips size source ourself t targeted sized ≡ some (some index)
      → AllArrive hs
      → Arrives turn.world b
      → index < 2 ^ 32
      → length (data_from hs) < size
      → size ≤ length (data_from hs) + length (data_of b)
      → 24 ≤ room
      → length ((data_from hs ++ data_of b) ++ turn.behind) ≤ room
      → room ≤ capacity c
      → length ((data_from hs ++ data_of b) ++ turn.behind) < 2 ^ 31
      → piece_download_complete memory parent index ≡ ok (memory', parent')
      → (n : Notice) × (work ourself
            (first ∷ (turns_of hs ++ turn ∷ []))
            (open_to size more (segment (message 1 unchoke) ∷ following index hs b rest) t)
          ≡ (download_next_piece turn.world.skips ourself (
                empty_download_piece (
                  announced (
                    grown
                      (arriving (asked_of index size more t) rest)
                      (data_from hs ++ data_of b))))
              >>= λ (found, next).
                  ok
                    (record { notices = n ∷ []; has_quit = not next.socket_healthy; them = next })))
        × (last : Channel) × (room ≤ capacity last)
        × Reach room grow
            (record (begun c saved memory parent) { tasks = waiting n ∷ [] })
            (begun last
              (saved
                ++ (record {
                  file_name = piece_file index;
                  contents = (data_from hs ++ data_of b) ++ turn.behind;
                })
                  ∷ [])
              memory'
              parent')
  session-saved first turn hs b index size source t more rest targeted sized shaken healthy h e a
        arrives low part whole enough fits large small done =
      let u = asked_of index size more t in
      let sizes : length ((data_from hs ++ data_of b) ++ turn.behind)
          ≡ length (data_from hs) + length (data_of b) + length turn.behind =
        omega (
          arith,
          length-append (data_from hs ++ data_of b) turn.behind,
          length-append (data_from hs) (data_of b),
        ) in
      let (n, served, last, kept, run) =
        blocks-saved room grow growth c saved memory memory' ourself parent parent' hs turn b u rest
          a arrives (shaken, low, refl) healthy (omega (arith, part)) (omega (arith, whole)) enough
          fits large small done in
      (
        n,
        work-quiet ourself first (turns_of hs ++ turn ∷ []) _ _ (
              work_round-quiet ourself first _ _
                (receive_message-asking first.world size source ourself t more
                  (following index hs b rest) targeted sized (omega (arith, sizes, whole, small))
                  index shaken h e)
                refl healthy)
            ∙ served,
        last,
        kept,
        run,
      )
