-- ===== src/Multiproc/Children.antt =====
-- source/multiproc/multiproc.cpp: the work of a task, and the processes of the parent. What comes
-- from outside is given: how a handshake ends, what `fork` and `waitpid` return.
use torr.Prelude.{
  ℕ, zero, suc, Bool, true, false, not, List, [], ◌∷◌, ◌++◌, Option, none, some, Result, ok, ◌>>=◌,
  if◌then◌else◌, leb, ◌==◌, ◌&&◌, u8,
}
use torr.Network.Peer.State.{Peer, PeerFault, TorrentPeer, empty_download_piece}
use torr.Network.Peer.Send.{download_next_piece}
use torr.Network.Peer.Receive.{World, receive_message}
use torr.Network.Tracker.{PeerAddress}
use torr.Multiproc.System.{Notice, notice_of}

-- A round of `work`: what is written for the parent, if anything, and whether the task quits. What
-- is indeterminate in the message and behind the data of the piece is given.
pub record Round : Type 0 where
  pub notice : Option Notice
  pub quits : Bool
  pub them : TorrentPeer

-- The test of `work` whether there is a complete piece.
abbrev pub is_complete : TorrentPeer → Bool
is_complete t =
    not (t.download_piece.downloaded == 0)
    && leb t.download_piece.piece_size t.download_piece.downloaded

-- `notify_downloaded_piece`, with what it writes.
unfoldable pub notify_downloaded_piece : ℕ × ℕ × ℕ × ℕ → List ℕ → TorrentPeer → Notice × TorrentPeer
notify_downloaded_piece padding behind t =
    (notice_of padding behind t.download_piece, empty_download_piece t)

-- The body of the loop of `work`.
unfoldable pub work_round :
    World → ℕ × ℕ × ℕ × ℕ → List ℕ → Peer → TorrentPeer → Result PeerFault Round
work_round w padding behind ourself t = receive_message w ourself t >>= λ (result, heard).
    if is_complete heard
    then (let (notice, emptied) = notify_downloaded_piece padding behind heard in
        download_next_piece w.skips ourself emptied >>= λ (found, next).
        ok (record { notice = some notice; quits = not next.socket_healthy; them = next }))
    else ok (record { notice = none; quits = not heard.socket_healthy; them = heard })

-- What a round is given.
pub record Turn : Type 0 where
  pub world : World
  pub padding : ℕ × ℕ × ℕ × ℕ
  pub behind : List ℕ

-- What rounds of `work` have written for the parent, and whether the task has quit.
pub record Work : Type 0 where
  pub notices : List Notice
  pub has_quit : Bool
  pub them : TorrentPeer

abbrev pub noticed : Option Notice → Work → Work
noticed none rest = rest
noticed (some n) rest = record rest { notices = n ∷ rest.notices }

-- The loop of `work`, for the rounds that are given: `quit` ends the process.
unfoldable pub work : Peer → List Turn → TorrentPeer → Result PeerFault Work
work ourself [] t = ok (record { notices = []; has_quit = false; them = t })
work ourself (turn ∷ turns) t =
    work_round turn.world turn.padding turn.behind ourself t >>= λ round. elim round.quits [
      | true ↦
          ok (noticed round.notice (record { notices = []; has_quit = true; them = round.them }))
      | false ↦ work ourself turns round.them >>= λ rest. ok (noticed round.notice rest)
    ]

-- `multiproc`, as far as its processes go.
pub record Parent : Type 0 where
  pub addresses : List PeerAddress
  pub tasks : List ℕ
  pub spawn_children_count : ℕ
  pub is_spawning : Bool

-- `set_children_count`
abbrev pub set_children_count : ℕ → Parent → Parent
set_children_count count p = record p { spawn_children_count = u8 count }

-- What `fork` returns in the parent, or that it fails.
pub data Fork : Type 0 where
  forked : ℕ → Fork
  unforked : Fork

-- `sem_open` with `O_CREAT` and the value 0, where a semaphore of this name may exist, and the
-- constructor of `multiproc`, which posts to it.
unfoldable pub sem_open : Option ℕ → ℕ
sem_open none = 0
sem_open (some value) = value

unfoldable pub main_channel_mutex : Option ℕ → ℕ
main_channel_mutex existing = suc (sem_open existing)

-- The first task that `waitpid` says is gone, taken out of the tasks.
unfoldable pub erase_dead : (ℕ → Bool) → List ℕ → Option (List ℕ)
erase_dead gone [] = none
erase_dead gone (pid ∷ tasks) =
    let rest = erase_dead gone tasks in
    if gone pid then some tasks else elim rest [ none ↦ none | some others ↦ some (pid ∷ others) ]

-- A try of an address sets it in the one peer of `spawn` and shakes hands.
module _ (try : PeerAddress → TorrentPeer → Bool × TorrentPeer) where
  -- The loop of `spawn` over the addresses, each of which is erased: the peer found, if any, and
  -- the addresses left.
  unfoldable pub find_peer : List PeerAddress → TorrentPeer → Option TorrentPeer × List PeerAddress
  find_peer [] t = (none, [])
  find_peer (a ∷ rest) t =
      let (shaken, next) = try a t in
      let others = find_peer rest next in if shaken then (some next, rest) else others

  -- `spawn`, in the parent; the assert where `fork` fails is the result `none`. It returns the
  -- number of the child, or 0.
  unfoldable pub spawn : TorrentPeer → Fork → Parent → Option (ℕ × Parent)
  spawn fresh f p =
      let (found, rest) = find_peer p.addresses fresh in
      let left = record p { addresses = rest } in
      elim found [
        | none ↦ some (0, left)
        | some them ↦ elim f [
          | unforked ↦ none
          | forked pid ↦ some (pid, record left { tasks = left.tasks ++ pid ∷ [] })
        ]
      ]

  -- The loop of `spawner`, so many times, with what each `fork` returns.
  unfoldable pub spawn_all : ℕ → TorrentPeer → List Fork → Parent → Option Parent
  spawn_all zero fresh forks p = some p
  spawn_all (suc n) fresh [] p = none
  spawn_all (suc n) fresh (f ∷ forks) p = elim (spawn fresh f p) [
    | none ↦ none
    | some (pid, next) ↦ spawn_all n fresh forks next
  ]

  -- `spawner`
  unfoldable pub spawner : TorrentPeer → List Fork → Parent → Option Parent
  spawner fresh forks p =
      elim (spawn_all p.spawn_children_count fresh forks (record p { is_spawning = true })) [
        | none ↦ none
        | some next ↦ some (record next { is_spawning = false })
      ]

  -- `respawner`
  unfoldable pub respawner : (ℕ → Bool) → TorrentPeer → Fork → Parent → Option Parent
  respawner gone fresh f p = elim (erase_dead gone p.tasks) [
    | none ↦ some p
    | some tasks ↦ elim (spawn fresh f (record p { tasks = tasks })) [
      | none ↦ none
      | some (pid, next) ↦ some next
    ]
  ]
