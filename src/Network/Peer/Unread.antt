-- ===== src/Network/Peer/Unread.antt =====
-- source/network/peer/peer.cpp: the payload of a message that is not implemented.
use torr.Prelude.{
  ℕ, false, true, List, [], ◌∷◌, ◌++◌, ok, ◌>>=◌, ◌≡◌, refl, arith, length, drop, replicate, ◌<◌,
  get_or,
}
use torr.Network.Endian.{big_endian, big_endian_from, big_endian_uint32}
use torr.Network.Socket.{Event, segment}
use torr.Network.Peer.State.{Peer, TorrentPeer}
use torr.Network.Peer.Send.{request, cancel, MessageType, message, message_type}
use torr.Network.Peer.Receive.{
  Message, World, dispatch_message, message_of, receive_message, overlay, receive_message_request,
  receive_message_cancel,
}
use torr.Network.Peer.Blocks.{arriving}
use torr.Network.Peer.Messages.{receive-front, receive_message-read}

-- The payload of a request, or of its cancellation.
abbrev pub asked : ℕ → ℕ → ℕ → List ℕ
asked index offset size =
    big_endian_uint32 index ++ big_endian_uint32 offset ++ big_endian_uint32 size

-- The message that its first five bytes make, and what is behind them.
abbrev pub misread : ℕ → ℕ → Message
misread index offset = record {
  size = big_endian_uint32 index;
  code = get_or (big_endian_uint32 offset) 0 0;
}

abbrev pub remains : ℕ → ℕ → List ℕ
remains offset size = drop 1 (big_endian_uint32 offset) ++ big_endian_uint32 size

abbrev pub IsIgnored : MessageType → Type 0
IsIgnored request = Unit {0}
IsIgnored cancel = Unit {0}
IsIgnored _ = ⊥

dispatch_message-ignored :
    (w : World) (ourself : Peer) (t : TorrentPeer) (ty : MessageType)
    → IsIgnored ty
    → dispatch_message w ourself (message_of (overlay (message 13 ty) (replicate 5 0))) t
      ≡ ok (false, t)
unfolding dispatch_message message message_type big_endian big_endian_from receive_message_request
    receive_message_cancel
dispatch_message-ignored w ourself t request i = refl
dispatch_message-ignored w ourself t cancel i = refl
dispatch_message-ignored w ourself t _ i = absurd i

length-message : (n : ℕ) (ty : MessageType) → length (message n ty) ≡ 5
unfolding message big_endian
length-message n ty = refl

module _ (w : World) (ourself : Peer) (t : TorrentPeer) (shaken : t.handshake_complete ≡ true) where
  receive_message-ignored :
      (ty : MessageType) (xs : List ℕ) (rest : List Event)
      → IsIgnored ty
      → 0 < length xs
      → receive_message w ourself (arriving t (segment (message 13 ty ++ xs) ∷ rest))
        ≡ ok (false, arriving t (segment xs ∷ rest))
  receive_message-ignored ty xs rest i k =
      receive_message-read w ourself (arriving t (segment (message 13 ty ++ xs) ∷ rest))
        (message 13 ty) (record t.tcp { incoming = segment xs ∷ rest })
        (ok (false, arriving t (segment xs ∷ rest))) shaken
        (receive-front t.tcp (message 13 ty) xs rest 5 (length-message 13 ty) k)
        (dispatch_message-ignored w ourself (arriving t (segment xs ∷ rest)) ty i)

  receive_message-misread :
      (index offset size : ℕ) (rest : List Event)
      → receive_message w ourself (arriving t (segment (asked index offset size) ∷ rest)) ≡ (
          dispatch_message w ourself
            (misread index offset)
            (arriving t (segment (remains offset size) ∷ rest))
          >>= λ (result, last). ok (false, last))
  unfolding big_endian
  receive_message-misread index offset size rest =
      let front = big_endian_uint32 index ++ get_or (big_endian_uint32 offset) 0 0 ∷ [] in
      receive_message-read w ourself (arriving t (segment (asked index offset size) ∷ rest)) front
        (record t.tcp { incoming = segment (remains offset size) ∷ rest })
        (dispatch_message w ourself (misread index offset)
          (arriving t (segment (remains offset size) ∷ rest)))
        shaken (receive-front t.tcp front (remains offset size) rest 5 refl (omega arith)) refl

-- A peer that asks for a block, or cancels that, makes the connection lose its step: the payload is
-- not received with the message, and the next `receive_message` takes its first five bytes for a
-- message, the index of the piece for its length and the first byte of the offset for its type.
pub receive_message-IsIgnored :
    (w v : World) (ourself : Peer) (t : TorrentPeer) (ty : MessageType) (index offset size : ℕ)
    (rest : List Event)
    → t.handshake_complete ≡ true
    → IsIgnored ty
    → (receive_message w ourself
          (arriving t (segment (message 13 ty ++ asked index offset size) ∷ rest))
        >>= λ (result, next). receive_message v ourself next)
      ≡ (dispatch_message v ourself
            (misread index offset)
            (arriving t (segment (remains offset size) ∷ rest))
          >>= λ (result, last). ok (false, last))
unfolding big_endian
receive_message-IsIgnored w v ourself t ty index offset size rest shaken i =
    rw
      (receive_message-ignored w ourself t shaken ty (asked index offset size) rest i (omega arith))
      (receive_message-misread v ourself t shaken index offset size rest)
