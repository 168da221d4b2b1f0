-- ===== src/Network/Peer/Speaking.antt =====
-- source/network/peer/peer.cpp: every operation of `torrent_peer` that answers a message sends whole
-- messages only.
use torr.Prelude.{
  ℕ, zero, suc, ◌+◌, ◌-◌, ◌^◌, Bool, true, false, not, List, length, ok, err, ◌≡◌, refl, arith,
  ◌==◌, u32, u64, inr, inl, ltb, leb, Bool-cases, [], ◌∷◌, ◌++◌, take, drop, length-append,
  length-take, length-drop, replicate, take-append, ap, ◌∙◌, subst,
}
use torr.Bitset.{Bitset, Memory, bit_set}
use torr.Network.Endian.{as_small_endian}
use torr.Network.Socket.{receive}
use torr.Network.Peer.State.{out_of_bounds, Peer, TorrentPeer}
use torr.Network.Peer.Send.{
  MessageType, choke, unchoke, interested, not_interested, have, bitfield, request, block, cancel,
  unexpected, message_type,
}
use torr.Network.Peer.Receive.{
  Message, World, write_data, with_data, receive_message_choke, receive_message_keep_alive,
  receive_message_unchoke, note_piece, receive_message_have, receive_message_bitfield, receive_data,
  finish_block, store_block, resize_data, block_length, receive_message_block, dispatch_message,
  message_of, receive_message, receive_message_request, receive_message_cancel, overlay,
}
use torr.Network.Peer.Keeping.{Keeps, Keeps-bind, Keeps-then, Keeps-if, Keeps-option, if-kept}
use torr.Network.Peer.Asking.{download_next_piece-SpeaksWhole}
use torr.Network.Peer.Framing.{
  IsKeepAlive, SpeaksWhole, receive-SendsWhole, send_message_interested-SpeaksWhole,
  send_message_have-SpeaksWhole, transmit-SpeaksWhole,
}

-- The answer to a keep alive is the five bytes of its message.
reply-IsKeepAlive :
    (m : Message)
    → length m.size ≡ 4
    → not (as_small_endian m.size == 0) ≡ false
    → IsKeepAlive (m.size ++ m.code ∷ [])
reply-IsKeepAlive m long e = (
  omega (arith, length-append m.size (m.code ∷ []), long),
  ap as_small_endian (take-front m.size (m.code ∷ []) 4 long) ∙ is_zero (as_small_endian m.size) e,
)
  where
    is_zero : (n : ℕ) → not (n == 0) ≡ false → n ≡ 0
    is_zero n e = ground arith

    take-front : (xs ys : List ℕ) (n : ℕ) → length xs ≡ n → take n (xs ++ ys) ≡ xs
    take-front xs ys n l = subst (λ (k : ℕ). take k (xs ++ ys) ≡ xs) l (take-append xs ys)

length-size : (xs : List ℕ) → length (message_of (overlay xs (replicate 5 0))).size ≡ 4
length-size xs = omega (
  arith,
  length-take 4 (overlay xs (replicate 5 0)),
  length-append xs (drop (length xs) (replicate 5 0)),
  length-drop {A = ℕ} (length xs) (replicate 5 0),
)

module _ (before : List (List ℕ)) where
  receive_message_keep_alive-SpeaksWhole :
      (now : ℕ) (m : Message) (t : TorrentPeer)
      → length m.size ≡ 4
      → SpeaksWhole before t
      → SpeaksWhole before (receive_message_keep_alive now m t).1
  unfolding receive_message_keep_alive
  receive_message_keep_alive-SpeaksWhole now m t long h =
      elim (Bool-cases (not (as_small_endian m.size == 0))) [
        | inl e ↦ rw e h
        | inr e ↦ rw e (
            if-kept (SpeaksWhole before) (now == t.time_of_last_keep_alive_message) _ _ h (
              transmit-SpeaksWhole before (record t { time_of_last_keep_alive_message = now })
                (m.size ++ m.code ∷ []) (inr (reply-IsKeepAlive m long e))
                (omega (arith, length-append m.size (m.code ∷ []), long)) h))
      ]

  note_piece-SpeaksWhole :
      (t : TorrentPeer) (index : ℕ)
      → SpeaksWhole before t
      → Keeps (SpeaksWhole before) (note_piece t index)
  unfolding note_piece
  note_piece-SpeaksWhole t index h =
      Keeps-option (SpeaksWhole before) (bit_set t.memory t.bitfield index) (err out_of_bounds)
        (λ (q : Bool × Memory × Bitset). ok (false, record t { memory = q.1; bitfield = q.2 })) tt
        (λ (q : Bool × Memory × Bitset). h)

  receive_message_have-SpeaksWhole :
      (garbage : List ℕ) (m : Message) (t : TorrentPeer)
      → SpeaksWhole before t
      → Keeps (SpeaksWhole before) (receive_message_have garbage m t)
  unfolding receive_message_have
  receive_message_have-SpeaksWhole garbage m t h =
      let s = (receive t.tcp 4).1 in
      let k = receive-SendsWhole before t.tcp 4 h in
      Keeps-if (SpeaksWhole before) (not (as_small_endian m.size == 5)) (ok (false, t)) _ h (
        Keeps-option (SpeaksWhole before) (receive t.tcp 4).0 (ok (false, record t { tcp = s })) _ k
          (λ (xs : List ℕ). note_piece-SpeaksWhole (record t { tcp = s }) _ k))

  receive_message_bitfield-SpeaksWhole :
      (garbage : List ℕ) (m : Message) (t : TorrentPeer)
      → SpeaksWhole before t
      → Keeps (SpeaksWhole before) (receive_message_bitfield garbage m t)
  unfolding receive_message_bitfield
  receive_message_bitfield-SpeaksWhole garbage m t h =
      let size = u32 (as_small_endian m.size + 2 ^ 32 - 1) in
      Keeps-option (SpeaksWhole before) (receive t.tcp size).0 _ _
        (receive-SendsWhole before t.tcp size h)
        (λ (xs : List ℕ).
          send_message_interested-SpeaksWhole before _ (receive-SendsWhole before t.tcp size h))

  receive_data-SpeaksWhole :
      (fuel n offset : ℕ) (t : TorrentPeer)
      → SpeaksWhole before t
      → Keeps (SpeaksWhole before) (receive_data fuel n offset t)
  unfolding receive_data
  receive_data-SpeaksWhole zero n offset t h =
      Keeps-if (SpeaksWhole before) (ltb offset n) (err _) (ok (true, t)) tt h
  receive_data-SpeaksWhole (suc fuel) n offset t h = elim (Bool-cases (ltb offset n)) [
    | inr e ↦ rw (e, receive_data) h
    | inl e ↦
        rw (e, receive_data)
          (let k = receive-SendsWhole before t.tcp (n - offset) h in
            Keeps-option (SpeaksWhole before) (receive t.tcp (n - offset)).0
              (ok (false, record t { tcp = (receive t.tcp (n - offset)).1 })) _ k
              (λ (xs : List ℕ).
                Keeps-bind (SpeaksWhole before)
                  (write_data t.download_piece.piece_data (t.download_piece.downloaded + offset) xs)
                  _
                  (λ (written : List ℕ).
                    receive_data-SpeaksWhole fuel n (offset + length xs)
                      (with_data (record t { tcp = (receive t.tcp (n - offset)).1 }) written) k)))
  ]

  finish_block-SpeaksWhole :
      (n : ℕ) (t : TorrentPeer) → SpeaksWhole before t → SpeaksWhole before (finish_block n t).1
  unfolding finish_block
  finish_block-SpeaksWhole n t h =
      if-kept (SpeaksWhole before)
        (leb t.download_piece.piece_size (u64 (t.download_piece.downloaded + n))) _ _
        (send_message_interested-SpeaksWhole before _ (send_message_have-SpeaksWhole before _ _ h))
        h

  store_block-SpeaksWhole :
      (fuel n : ℕ) (t : TorrentPeer)
      → SpeaksWhole before t
      → Keeps (SpeaksWhole before) (store_block fuel n t)
  unfolding store_block
  store_block-SpeaksWhole fuel n t h =
      Keeps-bind (SpeaksWhole before)
        (resize_data t.download_piece.piece_data (u64 (t.download_piece.downloaded + n))) _
        (λ (piece_data : List ℕ).
          Keeps-then (SpeaksWhole before) (receive_data fuel n 0 (with_data t piece_data)) _
            (receive_data-SpeaksWhole fuel n 0 (with_data t piece_data) h)
            (λ (complete : Bool) (u : TorrentPeer) k.
              Keeps-if (SpeaksWhole before) complete (ok (finish_block n u)) (ok (false, u))
                (finish_block-SpeaksWhole n u k) k))

  receive_message_block-SpeaksWhole :
      (fuel : ℕ) (m : Message) (t : TorrentPeer)
      → SpeaksWhole before t
      → Keeps (SpeaksWhole before) (receive_message_block fuel m t)
  unfolding receive_message_block
  receive_message_block-SpeaksWhole fuel m t h =
      let k = receive-SendsWhole before t.tcp 8 h in
      let next = record t { tcp = (receive t.tcp 8).1 } in
      Keeps-option (SpeaksWhole before) (receive t.tcp 8).0 (ok (false, next)) _ k (λ (xs : List ℕ).
        Keeps-if (SpeaksWhole before) _ (store_block fuel (block_length m) next) (ok (false, next))
          (store_block-SpeaksWhole fuel (block_length m) next k) k)

  module _ (w : World) (ourself : Peer) (m : Message) (t : TorrentPeer) (long : length m.size ≡ 4)
      (h : SpeaksWhole before t) where
    dispatch_message-speaks :
        (ty : MessageType)
        → message_type m.code ≡ ty
        → Keeps (SpeaksWhole before) (dispatch_message w ourself m t)
    unfolding dispatch_message receive_message_choke receive_message_unchoke receive_message_request
        receive_message_cancel
    dispatch_message-speaks choke e =
        rw (e, dispatch_message)
          (Keeps-if (SpeaksWhole before) (as_small_endian m.size == 1) _ _ h
            (receive_message_keep_alive-SpeaksWhole w.now m t long h))
    dispatch_message-speaks unchoke e =
        rw (e, dispatch_message)
          (download_next_piece-SpeaksWhole before w.skips ourself (record t { am_choking = false })
            h)
    dispatch_message-speaks interested e = rw (e, dispatch_message) h
    dispatch_message-speaks not_interested e = rw (e, dispatch_message) h
    dispatch_message-speaks have e =
        rw (e, dispatch_message) (receive_message_have-SpeaksWhole w.garbage m t h)
    dispatch_message-speaks bitfield e =
        rw (e, dispatch_message) (receive_message_bitfield-SpeaksWhole w.garbage m t h)
    dispatch_message-speaks request e =
        rw (e, dispatch_message)
          (if-kept (SpeaksWhole before) (not (u32 (as_small_endian m.size + 2 ^ 32 - 1) == 12))
            (false, t) (false, t) h h)
    dispatch_message-speaks block e =
        rw (e, dispatch_message) (receive_message_block-SpeaksWhole w.fuel m t h)
    dispatch_message-speaks cancel e = rw (e, dispatch_message) h
    dispatch_message-speaks (unexpected n) e = rw (e, dispatch_message) h

  pub receive_message-SpeaksWhole :
      (w : World) (ourself : Peer) (t : TorrentPeer)
      → SpeaksWhole before t
      → Keeps (SpeaksWhole before) (receive_message w ourself t)
  unfolding receive_message
  receive_message-SpeaksWhole w ourself t h =
      let k = receive-SendsWhole before t.tcp 5 h in
      let next = record t { tcp = (receive t.tcp 5).1 } in
      Keeps-if (SpeaksWhole before) (not t.handshake_complete) (ok (false, t)) _ h (
        Keeps-option (SpeaksWhole before) (receive t.tcp 5).0 (ok (false, next)) _ k
          (λ (xs : List ℕ).
            let m = message_of (overlay xs (replicate 5 0)) in
            Keeps-then (SpeaksWhole before) (dispatch_message w ourself m next) _
              (dispatch_message-speaks w ourself m next (length-size xs) k (message_type m.code)
                refl)
              (λ (b : Bool) (u : TorrentPeer) q. q)))
