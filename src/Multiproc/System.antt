-- ===== src/Multiproc/System.antt =====
-- source/multiproc/multiproc.cpp: the parent and its tasks, which share a fifo of limited room and a
-- semaphore, as a step relation. A step of a process is what it does up to the next point at which
-- another may run or it may have to wait; the parent's steps are its functions. A `write` of a
-- message is so short that it is made as a whole, one of a payload may be made in parts.
use torr.Prelude.{
  ℕ, suc, ◌+◌, ◌≤◌, ◌<◌, true, false, List, [], ◌∷◌, ◌++◌, some, ok, ◌≡◌, length, get_elem?, set,
  replicate,
}
use torr.Bitset.{Memory, with_contents}
use torr.Network.Peer.State.{Peer, Piece, piece_download_complete}
use torr.Ipc.{Channel, Poll}
use torr.Multiproc.{
  MultiprocMessage, message_bytes, message_for, output_data, Receiving, begin_receiving,
  receive_some, is_positive, piece_file, SavedPiece, nothing, unknown, downloaded, receive_message,
}

-- What a task writes for a piece.
pub record Notice : Type 0 where
  pub message : List ℕ
  pub payload : List ℕ

abbrev pub notice_of : ℕ × ℕ × ℕ × ℕ → List ℕ → Piece → Notice
notice_of padding behind p = record {
  message = message_bytes padding (message_for behind p);
  payload = output_data behind p;
}

-- A task behind `fork`, `work`, and `notify_downloaded_piece`: before `sem_wait`, before the first `write`, in the second
-- with what is left of it, and behind `quit`.
pub data TaskPhase : Type 0 where
  starting working stopped : TaskPhase
  waiting heading : Notice → TaskPhase
  sending : List ℕ → TaskPhase

-- The loop of `start`: before `read`, before `sem_wait`, and in `handle_downloaded_piece`.
pub data ParentPhase : Type 0 where
  reading : Channel → ParentPhase
  hearing : MultiprocMessage → Channel → ParentPhase
  receiving : MultiprocMessage → Receiving → ParentPhase

pub record System : Type 0 where
  pub fifo : List ℕ
  pub semaphore : ℕ
  pub tasks : List TaskPhase
  pub parent : ParentPhase
  pub saved : List SavedPiece
  pub memory : Memory
  pub ourself : Peer

abbrev pub move : System → ℕ → TaskPhase → System
move s i phase = record s { tasks = set s.tasks i phase }

-- The memory behind the `memset` of the shared memory, which is that of the bitfield of our side.
abbrev pub zeroed : Memory → Peer → Memory
zeroed m ourself = (with_contents m ourself.bitfield_pieces (replicate 2048 0)).0

-- The room of the fifo, and the growth of a vector.
pub data Step (room : ℕ) (grow : ℕ → ℕ → ℕ) : System → System → Type 0 where
  -- `spawn`, and in the child the constructor of the task, which zeroes the shared memory.
  spawn : (s : System) → Step room grow s (record s { tasks = s.tasks ++ starting ∷ [] })
  construct :
      (s : System) (i : ℕ)
      → get_elem? s.tasks i ≡ some starting
      → Step room grow s (record (move s i working) { memory = zeroed s.memory s.ourself })
  -- `work`: a piece is complete, or the socket is not healthy.
  finish :
      (s : System) (i : ℕ) (padding : ℕ × ℕ × ℕ × ℕ) (behind : List ℕ) (p : Piece)
      → get_elem? s.tasks i ≡ some working
      → Step room grow s (move s i (waiting (notice_of padding behind p)))
  quit :
      (s : System) (i : ℕ)
      → get_elem? s.tasks i ≡ some working
      → Step room grow s (move s i stopped)
  -- `notify_downloaded_piece`: `sem_wait`, the two `write`s, the second in parts, and `sem_post`.
  take :
      (s : System) (i k : ℕ) (n : Notice)
      → get_elem? s.tasks i ≡ some (waiting n)
      → s.semaphore ≡ suc k
      → Step room grow s (record (move s i (heading n)) { semaphore = k })
  head :
      (s : System) (i : ℕ) (n : Notice)
      → get_elem? s.tasks i ≡ some (heading n)
      → length s.fifo + length n.message ≤ room
      → Step room grow s (record (move s i (sending n.payload)) { fifo = s.fifo ++ n.message })
  send :
      (s : System) (i : ℕ) (xs ys : List ℕ)
      → get_elem? s.tasks i ≡ some (sending (xs ++ ys))
      → 0 < length xs
      → length s.fifo + length xs ≤ room
      → Step room grow s (record (move s i (sending ys)) { fifo = s.fifo ++ xs })
  post :
      (s : System) (i : ℕ)
      → get_elem? s.tasks i ≡ some (sending [])
      → Step room grow s (record (move s i working) { semaphore = suc s.semaphore })
  -- `start`: a `read` that is no message of a piece, and one that is.
  pass :
      (s : System) (c next : Channel) (poll : Poll) (left : List ℕ)
      → s.parent ≡ reading c
      → receive_message grow poll s.fifo c ≡ ok (nothing, next, left)
      → Step room grow s (record s { parent = reading next; fifo = left })
  skip :
      (s : System) (c next : Channel) (poll : Poll) (left : List ℕ)
      → s.parent ≡ reading c
      → receive_message grow poll s.fifo c ≡ ok (unknown, next, left)
      → Step room grow s (record s { parent = reading next; fifo = left })
  hear :
      (s : System) (c next : Channel) (poll : Poll) (left : List ℕ) (m : MultiprocMessage)
      → s.parent ≡ reading c
      → receive_message grow poll s.fifo c ≡ ok (downloaded m, next, left)
      → Step room grow s (record s { parent = hearing m next; fifo = left })
  -- `sem_wait` and `handle_downloaded_piece`: a round of its loop, and its end with `sem_post`.
  enter :
      (s : System) (c : Channel) (m : MultiprocMessage) (k : ℕ)
      → s.parent ≡ hearing m c
      → s.semaphore ≡ suc k
      → Step room grow s
          (record s { parent = receiving m (begin_receiving grow m c); semaphore = k })
  receive :
      (s : System) (m : MultiprocMessage) (r next : Receiving) (left : List ℕ)
      → s.parent ≡ receiving m r
      → is_positive r.receive_left ≡ true
      → 0 < length s.fifo
      → receive_some grow s.fifo r ≡ ok (next, left)
      → Step room grow s (record s { parent = receiving m next; fifo = left })
  leave :
      (s : System) (m : MultiprocMessage) (r : Receiving) (memory : Memory) (ourself : Peer)
      → s.parent ≡ receiving m r
      → is_positive r.receive_left ≡ false
      → piece_download_complete s.memory s.ourself m.field0 ≡ ok (memory, ourself)
      → Step room grow s (record s {
        parent = reading r.channel;
        semaphore = suc s.semaphore;
        saved = s.saved ++ (record { file_name = piece_file m.field0; contents = r.out_file }) ∷ [];
        memory = memory;
        ourself = ourself;
      })

pub data Reach (room : ℕ) (grow : ℕ → ℕ → ℕ) (s : System) : System → Type 0 where
  here : Reach room grow s s
  next : {t u : System} → Reach room grow s t → Step room grow t u → Reach room grow s u

-- How many processes are between their `sem_wait` and their `sem_post`.
abbrev pub holds : TaskPhase → ℕ
holds starting = 0
holds working = 0
holds stopped = 0
holds (waiting n) = 0
holds (heading n) = 1
holds (sending xs) = 1

abbrev pub parent_holds : ParentPhase → ℕ
parent_holds (reading c) = 0
parent_holds (hearing m c) = 0
parent_holds (receiving m r) = 1

abbrev pub tasks_hold : List TaskPhase → ℕ
tasks_hold [] = 0
tasks_hold (c ∷ cs) = holds c + tasks_hold cs

abbrev pub holders : System → ℕ
holders s = tasks_hold s.tasks + parent_holds s.parent
