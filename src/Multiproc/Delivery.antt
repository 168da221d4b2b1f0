-- ===== src/Multiproc/Delivery.antt =====
-- source/multiproc/multiproc.cpp: the run in which a piece that fits in the fifo reaches its file.
use torr.Prelude.{
  ℕ, ◌^◌, ◌≤◌, ◌<◌, true, false, List, [], ◌∷◌, ◌++◌, append-nil, some, ok, ◌≡◌, refl, sym, ap,
  arith, length, u32,
}
use torr.Bitset.{Memory}
use torr.Network.Peer.State.{Peer, Piece, piece_download_complete}
use torr.Ipc.{Channel, capacity, readable}
use torr.Ipc.Laws.{IsGrowth, resize_capacity-capacity}
use torr.Multiproc.{
  MultiprocMessage, SavedPiece, message_for, output_data, piece_file, Receiving, begin_receiving,
  is_positive, subtract,
}
use torr.Multiproc.Messages.{receive_message-sent, receive_some-all}
use torr.Multiproc.Encoding.{length-message_bytes}
use torr.Multiproc.System.{
  notice_of, move, working, waiting, heading, sending, hearing, receiving, System, Reach, here,
  next, finish, take, head, send, post, hear, enter, receive, leave,
}
use torr.Multiproc.Deadlock.{begun}

module _ (room : ℕ) (grow : ℕ → ℕ → ℕ) (growth : IsGrowth grow) (c : Channel)
    (saved : List SavedPiece) (memory : Memory) (ourself : Peer) where
  abbrev start : System
  start = begun c saved memory ourself

  -- The task writes its message, and the parent reads it.
  heard_piece :
      (padding : ℕ × ℕ × ℕ × ℕ) (behind : List ℕ) (p : Piece)
      → 24 ≤ room
      → length (output_data behind p) < 2 ^ 31
      → p.piece_index < 2 ^ 64
      → (c' : Channel) × (capacity c ≤ capacity c')
        × Reach room grow
            (record start { tasks = waiting (notice_of padding behind p) ∷ [] })
            (record start {
              semaphore = 0;
              tasks = sending (output_data behind p) ∷ [];
              parent = hearing (message_for behind p) c';
            })
  unfolding message_for
  heard_piece padding behind p h small index =
      let n = notice_of padding behind p in
      let m = message_for behind p in
      let (c', heard, kept) =
        receive_message-sent grow growth padding m c refl (omega (arith, small)) index in
      let s1 : System = move start 0 (waiting n) in
      let s2 : System = record (move s1 0 (heading n)) { semaphore = 0 } in
      let s3 : System = record (move s2 0 (sending n.payload)) { fifo = [] ++ n.message } in
      (
        c',
        kept,
        next
            (next (next here (take s1 0 0 n refl refl))
              (head s2 0 n refl (omega (arith, h, length-message_bytes padding m))))
            (hear s3 c c' readable [] m refl heard),
      )

  -- The task writes the payload at once and the parent saves it.
  saved_piece :
      (payload : List ℕ) (m : MultiprocMessage) (c' : Channel) (memory' : Memory) (ourself' : Peer)
      → m.payload_size ≡ length payload
      → 0 < length payload
      → length payload ≤ room
      → length payload ≤ capacity c'
      → length payload < 2 ^ 31
      → piece_download_complete memory ourself m.field0 ≡ ok (memory', ourself')
      → (last : Channel) × (capacity c' ≤ capacity last)
        × Reach room grow
            (record start { semaphore = 0; tasks = sending payload ∷ []; parent = hearing m c' })
            (begun last
              (saved ++ (record { file_name = piece_file m.field0; contents = payload }) ∷ [])
              memory'
              ourself')
  unfolding begin_receiving
  saved_piece payload m c' memory' ourself' size some_left fits large small done =
      let s4 : System = record start {
        semaphore = 0;
        tasks = sending payload ∷ [];
        parent = hearing m c';
      } in
      let s5 : System = record (move s4 0 (sending [])) { fifo = [] ++ payload } in
      let s6 : System = record (move s5 0 working) { semaphore = 1 } in
      let r : Receiving = begin_receiving grow m c' in
      let s7 : System = record s6 { parent = receiving m r; semaphore = 0 } in
      let whole : u32 m.payload_size ≡ length payload = omega (arith, size, small) in
      let wide = resize_capacity-capacity grow growth m.payload_size c' in
      let (last, got, kept) = receive_some-all grow growth payload r (omega (arith, large, wide)) in
      let ended : Receiving = record {
        channel = last;
        receive_left = subtract r.receive_left (length payload);
        out_file = [] ++ payload;
      } in
      let s8 : System = record s7 { parent = receiving m ended; fifo = [] } in
      let begins : is_positive r.receive_left ≡ true =
        rw whole (ground (arith, some_left, small)) in
      let ends : is_positive ended.receive_left ≡ false =
        rw whole (ground (arith, some_left, small)) in
      (
        last,
        omega (arith, wide, kept),
        next
            (next
              (next
                (next
                  (next here (
                    send s4 0 payload []
                      (ap (λ (v : List ℕ). some (sending v)) (sym (append-nil payload))) some_left
                      (omega (arith, fits))))
                  (post s5 0 refl))
                (enter s6 c' m 0 refl refl))
              (receive s7 m r ended [] refl begins some_left got))
            (leave s8 m ended memory' ourself' refl ends done),
      )

Reach-append :
    {room : ℕ} {grow : ℕ → ℕ → ℕ} {s t u : System}
    → Reach room grow s t
    → Reach room grow t u
    → Reach room grow s u
Reach-append r here = r
Reach-append r (next q step) = next (Reach-append r q) step

-- The same from where a task waits to write the notice of the piece.
pub notice-saved :
    (room : ℕ) (grow : ℕ → ℕ → ℕ) (growth : IsGrowth grow) (padding : ℕ × ℕ × ℕ × ℕ)
    (behind : List ℕ) (p : Piece) (c : Channel) (saved : List SavedPiece) (memory memory' : Memory)
    (ourself ourself' : Peer)
    → 24 ≤ room
    → 0 < length (output_data behind p)
    → length (output_data behind p) ≤ room
    → room ≤ capacity c
    → length (output_data behind p) < 2 ^ 31
    → p.piece_index < 2 ^ 64
    → piece_download_complete memory ourself p.piece_index ≡ ok (memory', ourself')
    → (last : Channel) × (room ≤ capacity last)
      × Reach room grow
          (record (begun c saved memory ourself) {
            tasks = waiting (notice_of padding behind p) ∷ [];
          })
          (begun last
            (saved
              ++ (record { file_name = piece_file p.piece_index; contents = output_data behind p })
                ∷ [])
            memory'
            ourself')
unfolding message_for
notice-saved room grow growth padding behind p c saved memory memory' ourself ourself' h some_left
      fits large small index done =
    let (c', kept, first) =
      heard_piece room grow growth c saved memory ourself padding behind p h small index in
    let (last, kept', second) =
      saved_piece room grow growth c saved memory ourself (output_data behind p)
        (message_for behind p) c' memory' ourself' refl some_left fits
        (omega (arith, fits, large, kept)) small done in
    (last, omega (arith, large, kept, kept'), Reach-append first second)

-- A task alone that completes a piece whose payload fits in the fifo, and in the buffer of the
-- parent, can get it to the parent: there is a run from where both have nothing to do back to there,
-- with an empty fifo and a semaphore of one, in which the parent saves the payload under the index
-- of the piece and marks the piece, and does not lose capacity.
pub piece-saved :
    (room : ℕ) (grow : ℕ → ℕ → ℕ) (growth : IsGrowth grow) (padding : ℕ × ℕ × ℕ × ℕ)
    (behind : List ℕ) (p : Piece) (c : Channel) (saved : List SavedPiece) (memory memory' : Memory)
    (ourself ourself' : Peer)
    → 24 ≤ room
    → 0 < length (output_data behind p)
    → length (output_data behind p) ≤ room
    → room ≤ capacity c
    → length (output_data behind p) < 2 ^ 31
    → p.piece_index < 2 ^ 64
    → piece_download_complete memory ourself p.piece_index ≡ ok (memory', ourself')
    → (last : Channel) × (room ≤ capacity last)
      × Reach room grow (begun c saved memory ourself) (
          begun last
            (saved
              ++ (record { file_name = piece_file p.piece_index; contents = output_data behind p })
                ∷ [])
            memory'
            ourself')
piece-saved room grow growth padding behind p c saved memory memory' ourself ourself' h some_left
      fits large small index done =
    let (last, kept, run) =
      notice-saved room grow growth padding behind p c saved memory memory' ourself ourself' h
        some_left fits large small index done in
    (
      last,
      kept,
      Reach-append (next here (finish (begun c saved memory ourself) 0 padding behind p refl)) run,
    )
