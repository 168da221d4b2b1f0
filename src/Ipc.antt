-- ===== src/Ipc.antt =====
-- source/ipc/ipc.hpp and ipc.cpp: the channel of a process, which is a fifo and a buffer for what is
-- read, and the shared memory. The calls of the operating system are parameters or scripts; the
-- fifo itself is the bytes that it holds. `grow` is the capacity that a vector takes when it has to
-- be larger, from its capacity and the size that it needs.
pub mod Laws
mod Runs
use torr.Prelude.{
  ℕ, zero, suc, ◌+◌, ◌-◌, ◌^◌, Bool, true, false, List, [], ◌∷◌, ◌++◌, Option, none, some, Result,
  ok, err, if◌then◌else◌, length, take, drop, replicate, resized, bytes, leb, ltb, ◌==◌,
}
use torr.Bencode.Number.{decimal}

pub data IpcError : Type 0 where
  not_created not_opened out_of_bounds no_memory : IpcError

-- `ipc_channel`; `read_memory` is what the vector `m_read_data` has allocated, as long as its capacity,
-- and `read_size` its size.
pub record Channel : Type 0 where
  pub associated_pid : ℕ
  pub fifo_name : List ℕ
  pub is_creator : Bool
  pub fifo_file_descriptor : Option ℕ
  pub read_memory : List ℕ
  pub read_size : ℕ

-- The constructor, in the process of this number.
unfoldable pub new_channel : ℕ → Channel
new_channel pid = record {
  associated_pid = pid;
  fifo_name = [];
  is_creator = false;
  fifo_file_descriptor = none;
  read_memory = replicate 1024 0;
  read_size = 1024;
}

-- The destructor: the fifo that it unlinks, if any, and the descriptor that it closes.
unfoldable pub close_channel : Channel → Option (List ℕ) × Option ℕ
close_channel c = (if c.is_creator then some c.fifo_name else none, c.fifo_file_descriptor)

-- `set_pid`
abbrev pub set_pid : ℕ → Channel → Channel
set_pid pid c = record c { associated_pid = pid }

-- `capacity` of the vector of what is read.
abbrev pub capacity : Channel → ℕ
capacity c = length c.read_memory

-- `resize` where the vector is as large already: the bytes behind its end become zeros.
abbrev resize_within : ℕ → Channel → Channel
resize_within n c = record c {
  read_memory = resized (take c.read_size c.read_memory) n ++ drop n c.read_memory;
  read_size = n;
}

module _ (grow : ℕ → ℕ → ℕ) where
  -- `resize_capacity`
  unfoldable pub resize_capacity : ℕ → Channel → Channel
  resize_capacity n c = if leb n (capacity c) then resize_within n c else record c {
    read_memory = resized (take c.read_size c.read_memory) (grow (capacity c) n);
    read_size = n;
  }

  -- How much `read` asks for.
  abbrev pub read_amount : ℕ → Channel → ℕ
  read_amount max_size c = if max_size == 0 then capacity c else max_size

  -- `read` behind `poll`: `::read` into the memory of the vector, whose size is zero by then.
  unfoldable pub read_into : ℕ → List ℕ → Channel → ℕ × Channel × List ℕ
  read_into size fifo c =
      let room = if ltb (capacity c) size then resize_capacity size c else c in
      let xs = take size fifo in
      (
        length xs,
        record room { read_memory = xs ++ drop (length xs) room.read_memory; read_size = 0 },
        drop size fifo,
      )

-- What the operating system does at a `read`: nothing comes until the timeout, the call fails, or
-- what the fifo holds is read.
pub data Poll : Type 0 where
  timed_out failed readable : Poll

-- `read`, with what it returns as a `size_t`, and the fifo that is left.
unfoldable pub read : (ℕ → ℕ → ℕ) → Poll → ℕ → List ℕ → Channel → ℕ × Channel × List ℕ
read grow timed_out max_size fifo c = (0, c, fifo)
read grow readable max_size fifo c = read_into grow (read_amount grow max_size c) fifo c
read grow failed max_size fifo c =
    let (nothing, cleared, none_left) = read_into grow (read_amount grow max_size c) [] c in
    (2 ^ 64 - 1, cleared, fifo)

-- `write`, given how much of the data `::write` takes: what it returns and the fifo behind it.
unfoldable pub write : Option ℕ → List ℕ → List ℕ → Option ℕ × List ℕ
write accepted xs fifo = elim accepted [
  | none ↦ (none, fifo)
  | some n ↦ (some (length (take n xs)), fifo ++ take n xs)
]

-- So many bytes from `read_data().data()`, whatever the size of the vector: past its capacity they
-- are outside of it.
unfoldable pub data_of : Channel → ℕ → Result IpcError (List ℕ)
data_of c n = if leb n (capacity c) then ok (take n c.read_memory) else err out_of_bounds

abbrev pub fifo_of : ℕ → List ℕ
fifo_of pid = bytes "/tmp/torr_ipc_channel." ++ decimal pid

-- `create_channel`, where it is given whether `mkfifo` succeeds and what `open` returns.
unfoldable pub create_channel : Bool → Option ℕ → Channel → Result IpcError ℕ × Channel
create_channel made opened c =
    let named = record c { fifo_name = fifo_of c.associated_pid } in
    if made
    then (let created = record named { is_creator = true; fifo_file_descriptor = opened } in
        elim opened [ none ↦ (err not_opened, created) | some fd ↦ (ok fd, created) ])
    else (err not_created, named)

-- The loop of `connect_channel`, with as many tries left: each call of `open` has its result.
unfoldable pub try_open : ℕ → List (Option ℕ) → Option ℕ → Option ℕ
try_open tries opens (some fd) = some fd
try_open zero opens none = none
try_open (suc tries) [] none = none
try_open (suc tries) (opened ∷ opens) none = try_open tries opens opened

-- `connect_channel`
unfoldable pub connect_channel : List (Option ℕ) → Channel → Result IpcError ℕ × Channel
connect_channel opens c =
    let fd = try_open 100 opens c.fifo_file_descriptor in
    let connected = record c { fifo_name = fifo_of c.associated_pid; fifo_file_descriptor = fd } in
    elim fd [ none ↦ (err not_opened, connected) | some n ↦ (ok n, connected) ]

-- `ipc_shared_memory`, whose pointer is an address.
pub record SharedMemory : Type 0 where
  pub identifier : List ℕ
  pub capacity : ℕ
  pub memory_pointer : Option ℕ

-- The constructor, with the address at which `shmat` puts the memory, and the zeros that it writes
-- there.
unfoldable pub new_shared_memory : List ℕ → ℕ → ℕ → SharedMemory × List ℕ
new_shared_memory name max_size address = (
  record {
    identifier = bytes "torr__shared__" ++ name;
    capacity = max_size;
    memory_pointer = some address;
  },
  replicate max_size 0,
)

-- `memory_pointer` and `mutable_memory_pointer`, with their assert.
unfoldable pub pointer_of : SharedMemory → Result IpcError ℕ
pointer_of m = elim m.memory_pointer [ none ↦ err no_memory | some address ↦ ok address ]

-- The destructor: the address that it detaches, if any.
unfoldable pub detach : SharedMemory → Option ℕ
detach m = m.memory_pointer
