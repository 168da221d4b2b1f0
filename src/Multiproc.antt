-- ===== src/Multiproc.antt =====
-- source/multiproc/multiproc.hpp and multiproc.cpp: the message that a task sends to the parent
-- process, the handling of it, and the children. System has the processes as a step relation.
pub mod Encoding
pub mod Messages
pub mod System
pub mod Exclusion
pub mod Holders
pub mod Deadlock
pub mod Children
pub mod Working
pub mod Repeated
pub mod Spawning
pub mod Startup
pub mod Swallowed
pub mod Exchange
pub mod Delivery
pub mod Download
pub mod Session
pub mod Conduct
pub mod Front
pub mod Doom
pub mod Sandbox
pub mod Filter
mod Samples
mod Runs
mod Downloads
mod Sessions
use torr.Prelude.{
  ℕ, zero, suc, ◌+◌, ◌*◌, ◌-◌, ◌/◌, ◌%◌, ◌^◌, Bool, true, false, List, [], ◌∷◌, ◌++◌, Option, none,
  some, Result, ok, err, ◌>>=◌, if◌then◌else◌, length, take, drop, replicate, bytes, leb, ltb, ◌==◌,
  ◌&&◌, u32,
}
use torr.Bencode.Number.{decimal}
use torr.Bitset.{Memory}
use torr.Network.Peer.State.{Peer, Piece, PeerFault, piece_download_complete}
use torr.Ipc.{IpcError, Channel, Poll, readable, read, resize_capacity, data_of}

-- The bytes in memory of a value of so many bytes, the lowest first, and back.
unfoldable pub native_bytes : ℕ → ℕ → List ℕ
native_bytes zero v = []
native_bytes (suc n) v = v % 256 ∷ native_bytes n (v / 256)

unfoldable pub native_value : List ℕ → ℕ
native_value [] = 0
native_value (x ∷ xs) = x + 256 * native_value xs

-- `multiproc_message`: the value of its enum as an `int`, and two of `size_t`.
pub record MultiprocMessage : Type 0 where
  pub message_type : ℕ
  pub payload_size : ℕ
  pub field0 : ℕ

-- `download_piece_done`
abbrev pub download_piece_done : ℕ
download_piece_done = 1

-- `sizeof(message)`
abbrev pub message_size : ℕ
message_size = 24

-- The bytes of the struct, with the four of its padding, which nothing writes.
unfoldable pub message_bytes : ℕ × ℕ × ℕ × ℕ → MultiprocMessage → List ℕ
message_bytes (a, b, c, d) m =
    native_bytes 4 m.message_type
    ++ (a ∷ b ∷ c ∷ d ∷ [])
    ++ native_bytes 8 m.payload_size
    ++ native_bytes 8 m.field0

-- The `memcpy` from the bytes that are read into the struct.
unfoldable pub message_of : List ℕ → MultiprocMessage
message_of xs = record {
  message_type = native_value (take 4 xs);
  payload_size = native_value (take 8 (drop 8 xs));
  field0 = native_value (take 8 (drop 16 xs));
}

-- What `notify_downloaded_piece` writes: all the capacity of the vector of the piece, whose bytes
-- behind its size are given.
unfoldable pub output_data : List ℕ → Piece → List ℕ
output_data behind p = p.piece_data ++ behind

unfoldable pub message_for : List ℕ → Piece → MultiprocMessage
message_for behind p = record {
  message_type = download_piece_done;
  payload_size = length (output_data behind p);
  field0 = p.piece_index;
}

-- An `int` is its 32 bits: whether it is positive, and the `-=` of a `size_t`.
abbrev pub is_positive : ℕ → Bool
is_positive left = ltb 0 left && ltb left (2 ^ 31)

abbrev pub subtract : ℕ → ℕ → ℕ
subtract left n = u32 (left + 2 ^ 32 - u32 n)

pub data MultiprocFault : Type 0 where
  ipc_error : IpcError → MultiprocFault
  peer_fault : PeerFault → MultiprocFault
  out_of_fuel : MultiprocFault

abbrev pub lift_ipc {ℓ} : {A : Type ℓ} → Result IpcError A → Result MultiprocFault A
lift_ipc (ok a) = ok a
lift_ipc (err e) = err (ipc_error e)

-- The state of the loop of `handle_downloaded_piece`.
pub record Receiving : Type 0 where
  pub channel : Channel
  pub receive_left : ℕ
  pub out_file : List ℕ

module _ (grow : ℕ → ℕ → ℕ) where
  -- One round of the loop: `poll` waits until the fifo holds something.
  unfoldable pub receive_some : List ℕ → Receiving → Result MultiprocFault (Receiving × List ℕ)
  receive_some fifo r =
      let (read_size, next, left) = read grow readable 0 fifo r.channel in
      lift_ipc (data_of next read_size) >>= λ xs. ok (
        record r {
          channel = next;
          receive_left = subtract r.receive_left read_size;
          out_file = r.out_file ++ xs;
        },
        left,
      )

  -- The start of `handle_downloaded_piece`
  unfoldable pub begin_receiving : MultiprocMessage → Channel → Receiving
  begin_receiving m c = record {
    channel = resize_capacity grow m.payload_size c;
    receive_left = u32 m.payload_size;
    out_file = [];
  }

  -- The loop, on fuel. Nothing is written meanwhile, since the caller holds the semaphore; where the
  -- fifo is empty, `poll` waits for ever.
  unfoldable pub receive_loop : ℕ → List ℕ → Receiving → Result MultiprocFault (Receiving × List ℕ)
  receive_loop zero fifo r = err out_of_fuel
  receive_loop (suc fuel) fifo r =
      if is_positive r.receive_left
      then (receive_some fifo r >>= λ (next, left). receive_loop fuel left next)
      else ok (r, fifo)

-- The file of a piece, and what is written to it.
pub record SavedPiece : Type 0 where
  pub file_name : List ℕ
  pub contents : List ℕ

abbrev pub piece_file : ℕ → List ℕ
piece_file index = bytes "./.pieces/piece_" ++ decimal index ++ bytes ".txt"

-- What a call of `handle_downloaded_piece` leaves.
pub record Handled : Type 0 where
  pub saved : SavedPiece
  pub channel : Channel
  pub fifo : List ℕ
  pub memory : Memory
  pub ourself : Peer

-- `handle_downloaded_piece`, with the fuel of its loop.
unfoldable pub handle_downloaded_piece :
    (ℕ → ℕ → ℕ)
    → ℕ
    → MultiprocMessage
    → List ℕ
    → Channel
    → Memory
    → Peer
    → Result MultiprocFault Handled
handle_downloaded_piece grow fuel m fifo c memory ourself =
    receive_loop grow fuel fifo (begin_receiving grow m c) >>= λ (r, left).
    elim (piece_download_complete memory ourself m.field0) [
      | err e ↦ err (peer_fault e)
      | ok (memory', ourself') ↦ ok (record {
        saved = record { file_name = piece_file m.field0; contents = r.out_file };
        channel = r.channel;
        fifo = left;
        memory = memory';
        ourself = ourself';
      })
    ]

-- `int length = …` of a `size_t`, compared as a `size_t` again.
abbrev pub int_of : ℕ → ℕ
int_of n = if ltb (u32 n) (2 ^ 31) then u32 n else 2 ^ 64 - 2 ^ 32 + u32 n

-- What the loop of `start` does with what it has read: nothing came, or less than a message; a
-- message that it handles; one that it does not know.
pub data Received : Type 0 where
  nothing unknown : Received
  downloaded : MultiprocMessage → Received

abbrev pub dispatch : MultiprocMessage → Received
dispatch m = if m.message_type == download_piece_done then downloaded m else unknown

-- The reading of a message by a round of `start`.
unfoldable pub receive_message :
    (ℕ → ℕ → ℕ) → Poll → List ℕ → Channel → Result MultiprocFault (Received × Channel × List ℕ)
receive_message grow poll fifo c =
    let (length, next, left) = read grow poll message_size fifo c in
    if ltb (int_of length) message_size
    then ok (nothing, next, left)
    else (lift_ipc (data_of next message_size) >>= λ xs. ok (dispatch (message_of xs), next, left))
