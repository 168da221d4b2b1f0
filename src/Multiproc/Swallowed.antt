-- ===== src/Multiproc/Swallowed.antt =====
-- source/multiproc/multiproc.cpp: what `handle_downloaded_piece` reads behind the payload of a piece.
use torr.Prelude.{ℕ, suc, ◌^◌, ◌≤◌, ◌<◌, true, false, List, [], ok, ◌≡◌, refl, arith, length, u32}
use torr.Bitset.{Memory}
use torr.Network.Peer.State.{Peer, piece_download_complete}
use torr.Ipc.{Channel, capacity}
use torr.Ipc.Laws.{IsGrowth, resize_capacity-capacity}
use torr.Multiproc.{
  MultiprocMessage, Receiving, begin_receiving, receive_some, receive_loop, is_positive, subtract,
  handle_downloaded_piece, piece_file,
}
use torr.Multiproc.Messages.{receive_some-all}

module _ (grow : ℕ → ℕ → ℕ) (growth : IsGrowth grow) where
  receive_loop-once :
      (fuel : ℕ) (fifo : List ℕ) (r next : Receiving)
      → is_positive r.receive_left ≡ true
      → receive_some grow fifo r ≡ ok (next, [])
      → is_positive next.receive_left ≡ false
      → receive_loop grow (suc (suc fuel)) fifo r ≡ ok (next, [])
  unfolding receive_loop
  receive_loop-once fuel fifo r next p e q = rw (p, receive_loop) (rw e (rw q refl))

  -- The fifo is read in one round, whatever it holds.
  pub handle_downloaded_piece-once :
      (fuel : ℕ) (m : MultiprocMessage) (fifo : List ℕ) (c : Channel) (memory memory' : Memory)
      (ourself ourself' : Peer)
      → 0 < m.payload_size
      → m.payload_size ≤ length fifo
      → length fifo ≤ capacity (begin_receiving grow m c).channel
      → length fifo < 2 ^ 31
      → piece_download_complete memory ourself m.field0 ≡ ok (memory', ourself')
      → (next : Channel) × (handle_downloaded_piece grow (suc (suc fuel)) m fifo c memory ourself
          ≡ ok (record {
            saved = record { file_name = piece_file m.field0; contents = fifo };
            channel = next;
            fifo = [];
            memory = memory';
            ourself = ourself';
          }))
  unfolding handle_downloaded_piece begin_receiving
  handle_downloaded_piece-once fuel m fifo c memory memory' ourself ourself' some_left more fits
        small done =
      let r : Receiving = begin_receiving grow m c in
      let whole : u32 m.payload_size ≡ m.payload_size = omega arith in
      let (next, got, kept) = receive_some-all grow growth fifo r fits in
      let left = subtract r.receive_left (length fifo) in
      let start : is_positive r.receive_left ≡ true =
        rw whole (ground (arith, some_left, more, small)) in
      let stop : is_positive left ≡ false = ground (arith, some_left, more, small) in
      let ends = receive_loop-once fuel fifo r _ start got stop in
      (next, rw (ends, handle_downloaded_piece) (rw done refl))

  -- Where the fifo already holds at least the payload, and no more than the buffer of the parent,
  -- `handle_downloaded_piece` reads and saves all that the fifo holds in one round, also what follows
  -- the payload, so that the message of another piece behind it is lost.
  pub handle_downloaded_piece-swallows :
      (fuel : ℕ) (m : MultiprocMessage) (fifo : List ℕ) (c : Channel) (memory memory' : Memory)
      (ourself ourself' : Peer)
      → 0 < m.payload_size
      → m.payload_size ≤ length fifo
      → length fifo ≤ capacity c
      → length fifo < 2 ^ 31
      → piece_download_complete memory ourself m.field0 ≡ ok (memory', ourself')
      → (next : Channel) × (handle_downloaded_piece grow (suc (suc fuel)) m fifo c memory ourself
          ≡ ok (record {
            saved = record { file_name = piece_file m.field0; contents = fifo };
            channel = next;
            fifo = [];
            memory = memory';
            ourself = ourself';
          }))
  unfolding begin_receiving
  handle_downloaded_piece-swallows fuel m fifo c memory memory' ourself ourself' some_left more fits
        small done =
      handle_downloaded_piece-once fuel m fifo c memory memory' ourself ourself' some_left more
        (omega (arith, fits, resize_capacity-capacity grow growth m.payload_size c)) small done
