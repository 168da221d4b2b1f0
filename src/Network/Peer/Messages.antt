-- ===== src/Network/Peer/Messages.antt =====
-- source/network/peer/peer.cpp: `receive_message` on the block messages of a peer, from their bytes
-- on the connection to the piece.
use torr.Prelude.{
  leb-gt, leb-le, u64, ℕ, ◌+◌, ◌^◌, ◌<◌, ◌≤◌, true, false, List, ◌∷◌, ◌++◌, map, Option, some, ok,
  ◌≡◌, refl, sym, ap, ◌∙◌, arith, length, length-append, take, take-append, drop-append, All,
  replicate, ◌==◌, ◌>>=◌,
}
use torr.Network.Endian.{
  big_endian, big_endian_uint32, as_small_endian, as_small_endian-big_endian_uint32,
}
use torr.Network.Socket.{Event, segment, Socket, receive}
use torr.Network.Peer.State.{Peer, TorrentPeer}
use torr.Network.Peer.Send.{
  block, message, message_type, send_message_have, send_message_interested,
}
use torr.Network.Peer.Receive.{
  Message, Outcome, World, with_data, block_length, store_block, finish_block,
  receive_message_block, dispatch_message, message_of, receive_message, overlay,
}
use torr.Network.Peer.Blocks.{concat, arriving, NonEmpty, store_block-segments}

-- A block as it arrives: the offset that its payload names, what of its data is in the segment of
-- the message itself, and the data in later segments.
pub record Block : Type 0 where
  pub offset : ℕ
  pub front : List ℕ
  pub later : List (List ℕ)

abbrev pub data_of : Block → List ℕ
data_of b = b.front ++ concat b.later

-- The payload in front of the data, and the segments of the message.
abbrev pub payload_of : ℕ → Block → List ℕ
payload_of index b = big_endian_uint32 index ++ big_endian_uint32 b.offset

abbrev pub events_of : ℕ → Block → List Event
events_of index b =
    segment (message (9 + length (data_of b)) block ++ (payload_of index b ++ b.front))
    ∷ map segment b.later

eq_self : (n : ℕ) → (n == n) ≡ true
eq_self n = ground arith

-- A read that takes the front of a segment.
pub receive-front :
    (s : Socket) (xs ys : List ℕ) (rest : List Event) (n : ℕ)
    → length xs ≡ n
    → 0 < length ys
    → receive (record s { incoming = segment (xs ++ ys) ∷ rest }) n
      ≡ (some xs, record s { incoming = segment ys ∷ rest })
unfolding receive
receive-front s xs ys rest n e h = rw (sym e) (
    rw (leb-gt (length (xs ++ ys)) (length xs) (omega (arith, length-append xs ys)))
      (rw (take-append xs ys, drop-append xs ys) refl))

-- The message that the five bytes of a block are read as.
abbrev pub block_of : ℕ → Message
block_of n = record { size = big_endian_uint32 n; code = 7 }

message_of-message : (n : ℕ) → message_of (overlay (message n block) (replicate 5 0)) ≡ block_of n
unfolding message big_endian
message_of-message n = refl

length-message : (n : ℕ) → length (message n block) ≡ 5
unfolding message big_endian
length-message n = refl

block_length-block_of : (n : ℕ) → 9 + n < 2 ^ 32 → block_length (block_of (9 + n)) ≡ n
unfolding block_length
block_length-block_of n h = omega (arith, as_small_endian-big_endian_uint32 (9 + n))

length-payload_of : (index : ℕ) (b : Block) → length (payload_of index b) ≡ 8
unfolding big_endian
length-payload_of index b = refl

index-payload_of :
    (index : ℕ) (b : Block)
    → index < 2 ^ 32
    → as_small_endian (take 4 (overlay (payload_of index b) (replicate 8 0))) ≡ index
index-payload_of index b h =
    (let front : take 4 (overlay (payload_of index b) (replicate 8 0)) ≡ big_endian_uint32 index =
        unfold big_endian in refl in
      ap as_small_endian front ∙ as_small_endian-big_endian_uint32 index)
    ∙ omega arith

receive_message_block-step :
    (fuel : ℕ) (m : Message) (t : TorrentPeer) (xs : List ℕ) (s : Socket)
    → receive t.tcp 8 ≡ (some xs, s)
    → as_small_endian (take 4 (overlay xs (replicate 8 0))) ≡ t.download_piece.piece_index
    → receive_message_block fuel m t ≡ store_block fuel (block_length m) (record t { tcp = s })
unfolding receive_message_block
receive_message_block-step fuel m t xs s r index =
    rw (ap (λ (p : Option (List ℕ) × Socket). p.0) r, receive_message_block)
      (rw (ap (λ (p : Option (List ℕ) × Socket). p.1) r)
        (rw index (rw (eq_self t.download_piece.piece_index) refl)))

module _ (w : World) (ourself : Peer) (t : TorrentPeer) (b : Block) (rest : List Event)
    (front : 0 < length b.front) (index : t.download_piece.piece_index < 2 ^ 32)
    (size : 9 + length (data_of b) < 2 ^ 32) where
  abbrev stored : Outcome
  stored =
      store_block w.fuel (length (data_of b)) (arriving t (map segment (b.front ∷ b.later) ++ rest))

  receive_message_block-stored :
      receive_message_block w.fuel (block_of (9 + length (data_of b))) (
        arriving t (
          segment (payload_of t.download_piece.piece_index b ++ b.front) ∷ map segment b.later
          ++ rest))
      ≡ stored
  receive_message_block-stored =
      let i = t.download_piece.piece_index in
      let n = length (data_of b) in
      let ahead = segment (payload_of i b ++ b.front) ∷ map segment b.later ++ rest in
      receive_message_block-step w.fuel (block_of (9 + n)) (arriving t ahead) (payload_of i b)
        (record t.tcp { incoming = segment b.front ∷ map segment b.later ++ rest })
        (receive-front t.tcp (payload_of i b) b.front (map segment b.later ++ rest) 8
          (length-payload_of i b) front)
        (index-payload_of i b index)
      ∙ rw (block_length-block_of n size) refl

-- A message whose five bytes are read, and what its handling gives.
pub receive_message-read :
    (w : World) (ourself : Peer) (t : TorrentPeer) (xs : List ℕ) (s : Socket) (o : Outcome)
    → t.handshake_complete ≡ true
    → receive t.tcp 5 ≡ (some xs, s)
    → dispatch_message w ourself (message_of (overlay xs (replicate 5 0))) (record t { tcp = s })
      ≡ o
    → receive_message w ourself t ≡ (o >>= λ (result, last). ok (false, last))
unfolding receive_message
receive_message-read w ourself t xs s o h e d =
    rw (h, receive_message)
      (rw (ap (λ (p : Option (List ℕ) × Socket). p.0) e)
        (rw (ap (λ (p : Option (List ℕ) × Socket). p.1) e) (rw d refl)))

-- The peer when it has downloaded so much more of the piece.
abbrev pub grown : TorrentPeer → List ℕ → TorrentPeer
grown t xs = record t {
  download_piece = record t.download_piece {
    piece_data = t.download_piece.piece_data ++ xs;
    downloaded = t.download_piece.downloaded + length xs;
  };
}

-- The two messages by which a complete piece is announced.
abbrev pub announced : TorrentPeer → TorrentPeer
announced t = (send_message_interested (send_message_have t t.download_piece).1).1

pub finish_block-part :
    (t : TorrentPeer) (xs : List ℕ)
    → t.download_piece.downloaded + length xs < t.download_piece.piece_size
    → t.download_piece.downloaded + length xs < 2 ^ 63
    → finish_block (length xs) (with_data t (t.download_piece.piece_data ++ xs))
      ≡ (true, grown t xs)
unfolding finish_block
finish_block-part t xs h l =
    let d = t.download_piece.downloaded + length xs in
    let e : u64 d ≡ d = omega arith in rw e (rw (leb-gt t.download_piece.piece_size d h) refl)

pub finish_block-whole :
    (t : TorrentPeer) (xs : List ℕ)
    → t.download_piece.piece_size ≤ t.download_piece.downloaded + length xs
    → t.download_piece.downloaded + length xs < 2 ^ 63
    → finish_block (length xs) (with_data t (t.download_piece.piece_data ++ xs))
      ≡ (true, announced (grown t xs))
unfolding finish_block
finish_block-whole t xs h l =
    let d = t.download_piece.downloaded + length xs in
    let e : u64 d ≡ d = omega arith in rw e (rw (leb-le h) refl)

-- What a block that arrives has to meet.
abbrev pub Arrives : World → Block → Type 0
Arrives w b =
    (0 < length b.front)
    × All NonEmpty b.later
    × (length b.later < w.fuel)
    × (9 + length (data_of b) < 2 ^ 32)

-- The peer is ready for the blocks of its piece.
abbrev pub IsReady : TorrentPeer → Type 0
IsReady t =
    (t.handshake_complete ≡ true)
    × (t.download_piece.piece_index < 2 ^ 32)
    × (length t.download_piece.piece_data ≡ t.download_piece.downloaded)

pub receive_message-finish :
    (w : World) (ourself : Peer) (t : TorrentPeer) (b : Block) (rest : List Event)
    → Arrives w b
    → IsReady t
    → t.download_piece.downloaded + length (data_of b) < 2 ^ 63
    → receive_message w ourself (arriving t (events_of t.download_piece.piece_index b ++ rest))
      ≡ ok (
        false,
        (finish_block
            (length (data_of b))
            (with_data (arriving t rest) (t.download_piece.piece_data ++ data_of b))).1,
      )
unfolding dispatch_message message_type
receive_message-finish w ourself t b rest (front, later, fuel, size) (shaken, index, sound) room =
    let i = t.download_piece.piece_index in
    let n = length (data_of b) in
    let tail = payload_of i b ++ b.front in
    let long : 0 < length tail = omega (arith, length-append (payload_of i b) b.front) in
    let ended =
      finish_block n (with_data (arriving t rest) (t.download_piece.piece_data ++ data_of b)) in
    receive_message-read w ourself (arriving t (events_of i b ++ rest)) (message (9 + n) block)
      (record t.tcp { incoming = segment tail ∷ map segment b.later ++ rest }) (ok ended) shaken
      (receive-front t.tcp (message (9 + n) block) tail (map segment b.later ++ rest) 5
        (length-message (9 + n)) long)
      (rw (message_of-message (9 + n)) (
        receive_message_block-stored w ourself t b rest front index size
        ∙ store_block-segments w.fuel n t (b.front ∷ b.later) rest (front, later) refl sound room
            fuel))
