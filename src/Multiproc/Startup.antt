-- ===== src/Multiproc/Startup.antt =====
-- source/multiproc/multiproc.cpp: the constructors of the parent and of a task, and the start of the
-- parent. What the operating system returns is given.
use torr.Prelude.{
  ℕ, Bool, false, List, [], Option, none, some, Result, ok, err, ◌>>=◌, bytes, if◌then◌else◌,
}
use torr.Network.Peer.State.{
  Peer, PeerFault, TorrentPeer, set_shared_bitfield, construct_handshake_string,
}
use torr.Network.Tracker.{Tracker}
use torr.Network.Tracker.Announce.{AnnounceError}
use torr.Ipc.{
  IpcError, Channel, new_channel, set_pid, create_channel, connect_channel, resize_capacity,
  SharedMemory, new_shared_memory, pointer_of, close_channel, detach,
}
use torr.Multiproc.Children.{Parent, main_channel_mutex, sem_open, Turn, Work, work}
use torr.Multiproc.Sandbox.{sandbox}

-- What the parent is made of, and the bytes that it writes at the address of the shared memory.
pub record MultiprocParent : Type 0 where
  pub main_channel : Channel
  pub bitfield_pieces : SharedMemory
  pub shared_bytes : List ℕ
  pub main_channel_mutex : ℕ
  pub ourself : Peer
  pub parent : Parent

pub data StartFault : Type 0 where
  announce_failed : AnnounceError → StartFault
  pointer_failed : IpcError → StartFault

-- What the operating system gives the parent: its number, whether the fifo is made and what opening
-- it returns, the value of a semaphore that exists, and the address of the shared memory.
pub record Surroundings : Type 0 where
  pub pid : ℕ
  pub made : Bool
  pub opened : Option ℕ
  pub existing : Option ℕ
  pub address : ℕ

-- The constructor of `multiproc` behind the announcing to the tracker, whose peers it takes; the
-- result of `create_channel` is not looked at, and `MUST` aborts where announcing fails.
unfoldable pub new_multiproc :
    Surroundings → Option AnnounceError × Tracker → Peer → Result StartFault MultiprocParent
new_multiproc os (failed, tracker) ourself =
    let (created, channel) = create_channel os.made os.opened (new_channel os.pid) in
    let (memory, zeros) = new_shared_memory (bytes "bitfield_pieces") 2048 os.address in
    elim (pointer_of memory) [
      | err e ↦ err (pointer_failed e)
      | ok address ↦ elim failed [
        | some e ↦ err (announce_failed e)
        | none ↦ ok (record {
          main_channel = channel;
          bitfield_pieces = memory;
          shared_bytes = zeros;
          main_channel_mutex = main_channel_mutex os.existing;
          ourself = set_shared_bitfield ourself address memory.capacity;
          parent = record {
            addresses = tracker.tracker_response.peer_addresses;
            tasks = [];
            spawn_children_count = 5;
            is_spawning = false;
          };
        })
      ]
    ]

-- The start of `start`, before its loop.
unfoldable pub begin_start : (ℕ → ℕ → ℕ) → MultiprocParent → Result PeerFault MultiprocParent
begin_start grow m = construct_handshake_string m.ourself >>= λ (made, ourself).
    ok (record m { ourself = ourself; main_channel = resize_capacity grow 65536 m.main_channel })

-- `multiproc_task`, as far as it is made by its constructor: the semaphore is the one that exists.
pub record MultiprocTask : Type 0 where
  pub main_channel : Channel
  pub bitfield_pieces : SharedMemory
  pub shared_bytes : List ℕ
  pub main_channel_mutex : ℕ
  pub them : TorrentPeer

-- The constructor of `multiproc_task`, in the process of this number under a parent of this number,
-- given what each `open` of the fifo returns; where there is none it goes on without a channel. The
-- constructor of the shared memory writes its zeros once more.
unfoldable pub new_multiproc_task :
    ℕ → ℕ → List (Option ℕ) → Option ℕ → ℕ → TorrentPeer → MultiprocTask
new_multiproc_task pid parent_pid opens existing address them =
    let (connected, channel) = connect_channel opens (set_pid parent_pid (new_channel pid)) in
    let (memory, zeros) = new_shared_memory (bytes "bitfield_pieces") 2048 address in
    record {
      main_channel = channel;
      bitfield_pieces = memory;
      shared_bytes = zeros;
      main_channel_mutex = sem_open existing;
      them = them;
    }

-- The destructor of `multiproc`: the semaphore that it destroys, and what the destructors of its
-- fields give back.
unfoldable pub destroy : MultiprocParent → ℕ × (Option (List ℕ) × Option ℕ) × Option ℕ
destroy m = (m.main_channel_mutex, close_channel m.main_channel, detach m.bitfield_pieces)

pub data ChildFault : Type 0 where
  sandbox_failed : ChildFault
  work_failed : PeerFault → ChildFault

-- The child of `spawn` behind the constructor of its task, for the rounds that are given: where one
-- of the two parts of the sandbox fails, `SANDBOX_FAILED` ends it before its first round.
unfoldable pub child_branch :
    {C : Type 0} → Bool → Option C → MultiprocTask → Peer → List Turn → Result ChildFault Work
child_branch landlocked filtered task ourself turns =
    if sandbox landlocked filtered
    then elim (work ourself turns task.them) [ err e ↦ err (work_failed e) | ok w ↦ ok w ]
    else err sandbox_failed
