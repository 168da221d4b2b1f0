-- ===== src/Multiproc/Exchange.antt =====
-- source/multiproc/multiproc.cpp: what the parent makes of the two writes of a task.
use torr.Prelude.{ℕ, suc, ◌^◌, ◌<◌, false, List, [], ◌∷◌, ◌++◌, ok, ◌≡◌, refl, arith, length}
use torr.Bitset.{Memory}
use torr.Network.Peer.State.{Peer, Piece, piece_download_complete}
use torr.Ipc.{Channel, readable}
use torr.Ipc.Laws.{IsGrowth, resize_capacity-capacity}
use torr.Multiproc.{
  MultiprocMessage, Handled, Receiving, is_positive, message_bytes, message_for, output_data,
  begin_receiving, receive_loop, handle_downloaded_piece, piece_file, downloaded, receive_message,
}
use torr.Multiproc.Messages.{receive_message-front}
use torr.Multiproc.Swallowed.{handle_downloaded_piece-once}

-- What is left where a payload has been saved.
abbrev pub delivered : ℕ → List ℕ → Channel → Memory → Peer → Handled
delivered index payload next memory ourself = record {
  saved = record { file_name = piece_file index; contents = payload };
  channel = next;
  fifo = [];
  memory = memory;
  ourself = ourself;
}

module _ (grow : ℕ → ℕ → ℕ) (growth : IsGrowth grow) where
  receive_loop-nothing :
      (fuel : ℕ) (r : Receiving)
      → is_positive r.receive_left ≡ false
      → receive_loop grow (suc (suc fuel)) [] r ≡ ok (r, [])
  unfolding receive_loop
  receive_loop-nothing fuel r e = rw (e, receive_loop) refl

  handle_downloaded_piece-delivered :
      (fuel : ℕ) (m : MultiprocMessage) (payload : List ℕ) (c : Channel) (memory memory' : Memory)
      (ourself ourself' : Peer)
      → m.payload_size ≡ length payload
      → length payload < 2 ^ 31
      → piece_download_complete memory ourself m.field0 ≡ ok (memory', ourself')
      → (next : Channel) × (handle_downloaded_piece grow (suc (suc fuel)) m payload c memory ourself
          ≡ ok (delivered m.field0 payload next memory' ourself'))
  unfolding handle_downloaded_piece begin_receiving
  handle_downloaded_piece-delivered fuel m [] c memory memory' ourself ourself' size small done = (
    (begin_receiving grow m c).channel,
    rw
        (
          receive_loop-nothing fuel (begin_receiving grow m c) (rw size refl),
          handle_downloaded_piece,
        )
        (rw done refl),
  )
  handle_downloaded_piece-delivered fuel m (x ∷ xs) c memory memory' ourself ourself' size small
        done =
      handle_downloaded_piece-once grow growth fuel m (x ∷ xs) c memory memory' ourself ourself'
        (omega (arith, size)) (omega (arith, size))
        (omega (arith, size, resize_capacity-capacity grow growth m.payload_size c)) small done

  -- Where the fifo holds the message of a piece and behind it the payload, which is what a task has
  -- written when it gives the semaphore back, the parent reads exactly the message, and leaves the
  -- payload; with two rounds of its loop it saves under the index of the piece exactly the payload,
  -- which is the data of the piece and what its vector has allocated behind them, marks the piece as
  -- downloaded and leaves the fifo empty. The payload is below 2 ^ 31 bytes.
  pub piece-delivered :
      (fuel : ℕ) (padding : ℕ × ℕ × ℕ × ℕ) (behind : List ℕ) (p : Piece) (c : Channel)
      (memory memory' : Memory) (ourself ourself' : Peer)
      → length (output_data behind p) < 2 ^ 31
      → p.piece_index < 2 ^ 64
      → piece_download_complete memory ourself p.piece_index ≡ ok (memory', ourself')
      → (first last : Channel) × (receive_message grow readable
            (message_bytes padding (message_for behind p) ++ output_data behind p)
            c
          ≡ ok (downloaded (message_for behind p), first, output_data behind p))
        × (handle_downloaded_piece grow
              (suc (suc fuel))
              (message_for behind p)
              (output_data behind p)
              first
              memory
              ourself
            ≡ ok (delivered p.piece_index (p.piece_data ++ behind) last memory' ourself'))
  unfolding message_for output_data
  piece-delivered fuel padding behind p c memory memory' ourself ourself' small index done =
      let m : MultiprocMessage = message_for behind p in
      let payload = output_data behind p in
      let (first, got, kept) =
        receive_message-front grow growth padding m payload c refl (omega (arith, small)) index in
      let (last, saved) =
        handle_downloaded_piece-delivered fuel m payload first memory memory' ourself ourself' refl
          small done in
      (first, last, got, saved)
