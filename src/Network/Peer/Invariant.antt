-- ===== src/Network/Peer/Invariant.antt =====
-- source/network/peer/peer.cpp: every message that a peer sends keeps the piece that is being
-- downloaded sound.
use torr.Prelude.{
  ℕ, zero, suc, ◌+◌, ◌*◌, ◌/◌, ◌-◌, ◌^◌, ◌<◌, ◌≤◌, Bool, false, not, List, Option, none, some, ok,
  err, ◌≡◌, refl, arith, ◌==◌, u32,
}
use torr.Bitset.{Bitset, Memory, bit_set}
use torr.Network.Endian.{as_small_endian}
use torr.Network.Socket.{receive}
use torr.Network.Peer.State.{out_of_bounds, Peer, TorrentPeer, Source, target_of, value}
use torr.Network.Peer.Send.{
  MessageType, choke, unchoke, interested, not_interested, have, bitfield, request, block, cancel,
  unexpected, message_type, send_message_interested, send_message_request, request_blocks,
  fill_outstanding_requests, determine_outstanding_requests, choose_piece, determine_download_piece,
  request_piece, download_next_piece,
}
use torr.Network.Peer.Receive.{
  Message, Outcome, World, receive_message_choke, receive_message_keep_alive,
  receive_message_unchoke, note_piece, receive_message_have, receive_message_bitfield,
  receive_message_block, dispatch_message, receive_message_request, receive_message_cancel,
}
use torr.Network.Peer.Keeping.{Keeps, Keeps-bind, Keeps-then, Keeps-if, Keeps-option, if-kept}
use torr.Network.Peer.Safety.{IsSound, IsSafe, receive_message_block-IsSafe}

-- Where the operation returns, the piece is sound.
abbrev pub IsKept : Outcome → Type 0
IsKept = Keeps IsSound

IsSafe-IsKept : (o : Outcome) → IsSafe o → IsKept o
IsSafe-IsKept (ok (r, t)) h = h
IsSafe-IsKept (err e) h = tt

request_blocks-IsSound : (n i : ℕ) (t : TorrentPeer) → IsSound t → IsSound (request_blocks n i t)
unfolding request_blocks send_message_request
request_blocks-IsSound zero i t h = h
request_blocks-IsSound (suc n) i t h =
    request_blocks-IsSound n (suc i) (send_message_request t (u32 (16384 * i))).1 h

fill_outstanding_requests-IsKept :
    (ourself : Peer) (t : TorrentPeer) → IsSound t → IsKept (fill_outstanding_requests ourself t)
unfolding fill_outstanding_requests
fill_outstanding_requests-IsKept ourself t h =
    Keeps-bind IsSound (target_of ourself) _ (λ (source : Source).
      Keeps-bind IsSound (value source.piece_length) _
        (λ (size : ℕ). request_blocks-IsSound (u32 (size / 16384)) 0 t h))

request_piece-IsKept :
    (ourself : Peer) (t : TorrentPeer) → IsSound t → IsKept (request_piece ourself t)
unfolding request_piece determine_outstanding_requests
request_piece-IsKept ourself t h = Keeps-if IsSound _ (ok (false, t)) _ h (
    Keeps-then IsSound (fill_outstanding_requests ourself (determine_outstanding_requests t)) _
      (fill_outstanding_requests-IsKept ourself (determine_outstanding_requests t) h)
      (λ (b : Bool) (u : TorrentPeer) k. k))

choose_piece-IsKept :
    (ourself : Peer) (t : TorrentPeer) (found : Option ℕ)
    → IsSound t
    → IsKept (choose_piece ourself t found)
unfolding choose_piece
choose_piece-IsKept ourself t none h = h
choose_piece-IsKept ourself t (some index) h =
    Keeps-bind IsSound (target_of ourself) _ (λ (source : Source).
      Keeps-bind IsSound (value source.piece_length) _ (λ (size : ℕ). omega arith))

determine_download_piece-IsKept :
    (skips : ℕ) (ourself : Peer) (t : TorrentPeer)
    → IsSound t
    → IsKept (determine_download_piece skips ourself t)
unfolding determine_download_piece
determine_download_piece-IsKept skips ourself t h =
    Keeps-option IsSound _ (err out_of_bounds) (λ (found : Option ℕ). choose_piece ourself t found)
      tt (λ (found : Option ℕ). choose_piece-IsKept ourself t found h)

download_next_piece-IsKept :
    (skips : ℕ) (ourself : Peer) (t : TorrentPeer)
    → IsSound t
    → IsKept (download_next_piece skips ourself t)
unfolding download_next_piece
download_next_piece-IsKept skips ourself t h = Keeps-if IsSound t.am_choking (ok (false, t)) _ h (
    Keeps-if IsSound t.download_piece.exists _ _ (request_piece-IsKept ourself t h) (
      Keeps-then IsSound (determine_download_piece skips ourself t) _
        (determine_download_piece-IsKept skips ourself t h)
        (λ (found : Bool) (u : TorrentPeer) k.
          Keeps-if IsSound found _ (ok (false, u)) (request_piece-IsKept ourself u k) k)))

receive_message_keep_alive-IsSound :
    (now : ℕ) (m : Message) (t : TorrentPeer)
    → IsSound t
    → IsSound (receive_message_keep_alive now m t).1
unfolding receive_message_keep_alive
receive_message_keep_alive-IsSound now m t h =
    if-kept IsSound (not (as_small_endian m.size == 0)) _ _ h
      (if-kept IsSound (now == t.time_of_last_keep_alive_message) _ _ h h)

note_piece-IsKept : (t : TorrentPeer) (index : ℕ) → IsSound t → IsKept (note_piece t index)
unfolding note_piece
note_piece-IsKept t index h =
    Keeps-option IsSound (bit_set t.memory t.bitfield index) (err out_of_bounds)
      (λ (q : Bool × Memory × Bitset). ok (false, record t { memory = q.1; bitfield = q.2 })) tt
      (λ (q : Bool × Memory × Bitset). h)

receive_message_have-IsKept :
    (garbage : List ℕ) (m : Message) (t : TorrentPeer)
    → IsSound t
    → IsKept (receive_message_have garbage m t)
unfolding receive_message_have
receive_message_have-IsKept garbage m t h =
    let s = (receive t.tcp 4).1 in
    Keeps-if IsSound (not (as_small_endian m.size == 5)) (ok (false, t)) _ h (
      Keeps-option IsSound (receive t.tcp 4).0 (ok (false, record t { tcp = s })) _ h
        (λ (xs : List ℕ). note_piece-IsKept (record t { tcp = s }) _ h))

receive_message_bitfield-IsKept :
    (garbage : List ℕ) (m : Message) (t : TorrentPeer)
    → IsSound t
    → IsKept (receive_message_bitfield garbage m t)
unfolding receive_message_bitfield send_message_interested
receive_message_bitfield-IsKept garbage m t h =
    Keeps-option IsSound (receive t.tcp (u32 (as_small_endian m.size + 2 ^ 32 - 1))).0 _ _ h
      (λ (xs : List ℕ). h)

module _ (w : World) (ourself : Peer) (m : Message) (t : TorrentPeer) (h : IsSound t)
    (low : message_type m.code ≡ block → 9 ≤ as_small_endian m.size)
    (high : as_small_endian m.size < 2 ^ 32)
    (room : t.download_piece.downloaded + as_small_endian m.size < 2 ^ 63) where
  dispatch-IsKept :
      (ty : MessageType) → message_type m.code ≡ ty → IsKept (dispatch_message w ourself m t)
  unfolding dispatch_message receive_message_choke receive_message_unchoke receive_message_request
      receive_message_cancel
  dispatch-IsKept choke e =
      rw (e, dispatch_message)
        (Keeps-if IsSound (as_small_endian m.size == 1) _ _ h
          (receive_message_keep_alive-IsSound w.now m t h))
  dispatch-IsKept unchoke e =
      rw (e, dispatch_message)
        (download_next_piece-IsKept w.skips ourself (record t { am_choking = false }) h)
  dispatch-IsKept interested e = rw (e, dispatch_message) h
  dispatch-IsKept not_interested e = rw (e, dispatch_message) h
  dispatch-IsKept have e = rw (e, dispatch_message) (receive_message_have-IsKept w.garbage m t h)
  dispatch-IsKept bitfield e =
      rw (e, dispatch_message) (receive_message_bitfield-IsKept w.garbage m t h)
  dispatch-IsKept request e =
      rw (e, dispatch_message)
        (if-kept IsSound (not (u32 (as_small_endian m.size + 2 ^ 32 - 1) == 12)) (false, t)
          (false, t) h h)
  dispatch-IsKept block e =
      rw (e, dispatch_message)
        (IsSafe-IsKept (receive_message_block w.fuel m t)
          (receive_message_block-IsSafe w.fuel m t (low e) high room h))
  dispatch-IsKept cancel e = rw (e, dispatch_message) h
  dispatch-IsKept (unexpected n) e = rw (e, dispatch_message) h

  -- Whatever message a peer sends, and whatever arrives or fails behind it, the piece that is being
  -- downloaded stays sound where the handling returns, if a message of a block is long enough for
  -- its payload; its size and what has been downloaded are together below 2 ^ 63.
  pub dispatch_message-IsKept : IsKept (dispatch_message w ourself m t)
  dispatch_message-IsKept = dispatch-IsKept (message_type m.code) refl
