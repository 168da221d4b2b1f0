-- ===== src/Multiproc/Runs.antt =====
-- Tests of source/multiproc, and its theorems at concrete inputs.
use torr.Prelude.{
  ℕ, ◌≤◌, Bool, false, List, [], ◌∷◌, ◌++◌, map, some, ok, ◌≡◌, refl, arith, replicate, length,
  ◌==◌,
}
use torr.Ipc.{Channel, new_channel, readable}
use torr.Network.Peer.State.{TorrentPeer}
use torr.Network.Tracker.{PeerAddress}
use torr.Multiproc.{
  MultiprocMessage, message_bytes, message_for, output_data, receive_message, downloaded,
  handle_downloaded_piece, piece_file,
}
use torr.Multiproc.Samples.{
  twice, twice-IsGrowth, piece, ours, no_memory, channel, marked, marked_now, fresh,
}
use torr.Multiproc.Exchange.{delivered, piece-delivered}
use torr.Multiproc.System.{
  reading, System, Notice, notice_of, Reach, here, next, finish, take, working, waiting, heading,
  sending, holders, move,
}
use torr.Multiproc.Exclusion.{Reach-exclusive, main_channel_mutex-stale}
use torr.Multiproc.Swallowed.{handle_downloaded_piece-swallows}
use torr.Multiproc.Deadlock.{IsDeadlocked, begun, large_piece-IsDeadlocked}
use torr.Multiproc.Children.{sem_open, main_channel_mutex, Parent, forked, spawner}
use torr.Multiproc.Spawning.{spawner-tasks}

piece-delivered_example :
    (first last : Channel) × (receive_message twice readable
        (message_bytes (9, 9, 9, 9) (message_for (7 ∷ []) piece) ++ output_data (7 ∷ []) piece)
        channel
      ≡ ok (downloaded (message_for (7 ∷ []) piece), first, output_data (7 ∷ []) piece))
    × (handle_downloaded_piece twice 2
          (message_for (7 ∷ []) piece)
          (output_data (7 ∷ []) piece)
          first
          no_memory
          ours
        ≡ ok (delivered 3 ((1 ∷ 2 ∷ 3 ∷ 4 ∷ []) ++ 7 ∷ []) last no_memory marked))
unfolding output_data
piece-delivered_example =
    piece-delivered twice twice-IsGrowth 0 (9, 9, 9, 9) (7 ∷ []) piece channel no_memory no_memory
      ours marked (omega arith) (omega arith) marked_now

abbrev start : System
start = begun channel [] no_memory ours

abbrev notice : Notice
notice = notice_of (9, 9, 9, 9) [] piece

-- The task has completed its piece.
abbrev finished : System
finished = move start 0 (waiting notice)

abbrev taken : System
taken = record (move finished 0 (heading notice)) { semaphore = 0 }

taken_reached : Reach 24 twice start taken
taken_reached =
    next (next here (finish start 0 (9, 9, 9, 9) [] piece refl))
      (take finished 0 0 notice refl refl)

Reach-exclusive_example : holders taken ≤ 1
unfolding main_channel_mutex sem_open
Reach-exclusive_example = Reach-exclusive 24 twice start taken refl refl taken_reached

main_channel_mutex-stale_example :
    (t : System) × Reach 24 twice
      (record start { semaphore = main_channel_mutex (some 1); tasks = working ∷ working ∷ [] })
      t
    × (2 ≤ holders t)
main_channel_mutex-stale_example =
    main_channel_mutex-stale 24 twice 1 start (9, 9, 9, 9) [] piece piece (omega arith)

length-output_data : length (output_data (replicate 30 0) piece) ≡ 34
unfolding output_data
length-output_data = refl

large_piece-IsDeadlocked_example : (t : System) × Reach 24 twice start t × IsDeadlocked 24 0 t
large_piece-IsDeadlocked_example =
    large_piece-IsDeadlocked 24 twice twice-IsGrowth (9, 9, 9, 9) (replicate 30 0) piece channel []
      no_memory ours (omega arith) (omega (arith, length-output_data))
      (omega (arith, length-output_data)) (omega arith)

-- The peers that listen on port 80 shake hands.
abbrev listens : PeerAddress → Bool
listens a = a.port == 80

abbrev address : ℕ → ℕ → PeerAddress
address ip port = record { address = ip; port = port }

abbrev parent : Parent
parent = record {
  addresses = address 1 80 ∷ address 2 81 ∷ address 3 80 ∷ address 4 82 ∷ [];
  tasks = [];
  spawn_children_count = 3;
  is_spawning = false;
}

spawner-tasks_example :
    (rest : List PeerAddress) × (spawner
        (λ (a : PeerAddress) (t : TorrentPeer). (listens a, t))
        fresh
        (map forked (11 ∷ 12 ∷ 13 ∷ []))
        parent
      ≡ some (record parent { addresses = rest; tasks = [] ++ 11 ∷ 12 ∷ [] }))
spawner-tasks_example =
    spawner-tasks (λ (a : PeerAddress) (t : TorrentPeer). (listens a, t)) listens
      (λ (a : PeerAddress) (t : TorrentPeer). refl) fresh (11 ∷ 12 ∷ 13 ∷ []) parent refl

length-output_data_small : length (output_data (7 ∷ []) piece) ≡ 5
unfolding output_data
length-output_data_small = refl

-- The payload of the piece and a byte of another message.
handle_downloaded_piece-swallows_example :
    (next : Channel) × (handle_downloaded_piece twice 2
        (message_for [] piece)
        (1 ∷ 2 ∷ 3 ∷ 4 ∷ 9 ∷ [])
        channel
        no_memory
        ours
      ≡ ok (record {
        saved = record { file_name = piece_file 3; contents = 1 ∷ 2 ∷ 3 ∷ 4 ∷ 9 ∷ [] };
        channel = next;
        fifo = [];
        memory = no_memory;
        ourself = marked;
      }))
unfolding new_channel message_for output_data
handle_downloaded_piece-swallows_example =
    handle_downloaded_piece-swallows twice twice-IsGrowth 0 (message_for [] piece)
      (1 ∷ 2 ∷ 3 ∷ 4 ∷ 9 ∷ []) channel no_memory no_memory ours marked (omega arith) (omega arith)
      (omega arith) (omega arith) marked_now

-- A task has written the message and two of the 32 bytes of its payload into a fifo of 26.
abbrev announced : MultiprocMessage
announced = record { message_type = 1; payload_size = 32; field0 = 3 }

abbrev doomed : System
doomed = record start {
  fifo = message_bytes (9, 9, 9, 9) announced ++ 1 ∷ 2 ∷ [];
  semaphore = 0;
  tasks = sending (replicate 30 0) ∷ [];
  parent = reading channel;
}
