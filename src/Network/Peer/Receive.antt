-- ===== src/Network/Peer/Receive.antt =====
-- source/network/peer/peer.cpp: what `torrent_peer` does with each message that it receives.
use torr.Prelude.{
  ℕ, zero, suc, ◌+◌, ◌-◌, ◌^◌, Bool, true, false, List, [], ◌∷◌, ◌++◌, none, some, Result, ok, err,
  ◌>>=◌, if◌then◌else◌, length, get_or, take, drop, replicate, u32, u64, sub64, leb, ltb, ◌==◌, not,
}
use torr.Bitset
use torr.Bitset.{Bitset}
use torr.Network.Endian.{as_small_endian, little_endian_uint32}
use torr.Network.Socket.{receive}
use torr.Network.Peer.State.{Peer, PeerFault, out_of_bounds, length_error, out_of_fuel, TorrentPeer}
use torr.Network.Peer.Send.{
  choke, unchoke, interested, not_interested, have, bitfield, request, block, cancel, unexpected,
  message_type, transmit, send_message_interested, send_message_have, download_next_piece,
}

-- A message as it is received.
pub record Message : Type 0 where
  pub size : List ℕ
  pub code : ℕ

abbrev pub Outcome : Type 0
Outcome = Result PeerFault (Bool × TorrentPeer)

-- The bytes of a buffer after fewer or as many of them were received.
abbrev pub overlay : List ℕ → List ℕ → List ℕ
overlay xs buffer = xs ++ drop (length xs) buffer

-- `receive_message_choke`
unfoldable pub receive_message_choke : TorrentPeer → TorrentPeer
receive_message_choke t = record t { am_choking = true }

-- `receive_message_keep_alive`, at the time `now`.
unfoldable pub receive_message_keep_alive : ℕ → Message → TorrentPeer → Bool × TorrentPeer
receive_message_keep_alive now m t =
    if not (as_small_endian m.size == 0)
    then (true, t)
    else if now == t.time_of_last_keep_alive_message
    then (false, t)
    else transmit (record t { time_of_last_keep_alive_message = now }) (m.size ++ m.code ∷ [])

-- `receive_message_unchoke`
unfoldable pub receive_message_unchoke : ℕ → Peer → TorrentPeer → Outcome
receive_message_unchoke skips ourself t =
    download_next_piece skips ourself (record t { am_choking = false })

-- The end of `receive_message_have`: it returns false whatever is set.
unfoldable pub note_piece : TorrentPeer → ℕ → Outcome
note_piece t index = elim (Bitset.bit_set t.memory t.bitfield index) [
  | none ↦ err out_of_bounds
  | some (found, m, b) ↦ ok (false, record t { memory = m; bitfield = b })
]

-- `receive_message_have`, given what the uninitialised index holds.
unfoldable pub receive_message_have : List ℕ → Message → TorrentPeer → Outcome
receive_message_have garbage m t =
    if not (as_small_endian m.size == 5)
    then ok (false, t)
    else (let (received, s) = receive t.tcp 4 in
        let next = record t { tcp = s } in
        elim received [
          | none ↦ ok (false, next)
          | some xs ↦ note_piece next (little_endian_uint32 (overlay xs (take 4 garbage)))
        ])

-- `receive_message_bitfield`, given what `new` leaves in the bytes of the bitfield. The size is
-- computed in 32 bits.
unfoldable pub receive_message_bitfield : List ℕ → Message → TorrentPeer → Outcome
receive_message_bitfield garbage m t =
    let size = u32 (as_small_endian m.size + 2 ^ 32 - 1) in
    let fresh = take size garbage ++ replicate (size - length garbage) 0 in
    let b = Bitset.resize fresh t.bitfield size in
    let (received, s) = receive t.tcp size in
    elim received [
      | none ↦ ok (false, record t { tcp = s; bitfield = b })
      | some xs ↦
          let (m', b') =
            Bitset.with_contents t.memory b (overlay xs (Bitset.contents t.memory b)) in
          ok (send_message_interested (record t { tcp = s; memory = m'; bitfield = b' }))
    ]

-- `vector::resize`, which throws above `max_size`.
unfoldable pub resize_data : List ℕ → ℕ → Result PeerFault (List ℕ)
resize_data piece_data n =
    if leb (2 ^ 63) n
    then err length_error
    else ok (take n piece_data ++ replicate (n - length piece_data) 0)

-- A write into a vector by pointer.
unfoldable pub write_data : List ℕ → ℕ → List ℕ → Result PeerFault (List ℕ)
write_data piece_data i [] = ok piece_data
write_data piece_data i (x ∷ xs) =
    if leb (i + length (x ∷ xs)) (length piece_data)
    then ok (take i piece_data ++ (x ∷ xs) ++ drop (i + length (x ∷ xs)) piece_data)
    else err out_of_bounds

abbrev pub with_data : TorrentPeer → List ℕ → TorrentPeer
with_data t piece_data = record t {
  download_piece = record t.download_piece { piece_data = piece_data };
}

-- The loop of `receive_message_block`, on fuel: `offset` bytes of `n` have been received.
unfoldable pub receive_data : ℕ → ℕ → ℕ → TorrentPeer → Outcome
receive_data zero n offset t = if ltb offset n then err out_of_fuel else ok (true, t)
receive_data (suc fuel) n offset t = elim (ltb offset n) [
  | false ↦ ok (true, t)
  | true ↦
      let (received, s) = receive t.tcp (n - offset) in
      let next = record t { tcp = s } in
      elim received [
        | none ↦ ok (false, next)
        | some xs ↦ do
          written ← write_data t.download_piece.piece_data (t.download_piece.downloaded + offset) xs
          receive_data fuel n (offset + length xs) (with_data next written)
      ]
]

-- The end of `receive_message_block`: a complete piece is announced.
unfoldable pub finish_block : ℕ → TorrentPeer → Bool × TorrentPeer
finish_block n t =
    let downloaded = u64 (t.download_piece.downloaded + n) in
    let next = record t { download_piece = record t.download_piece { downloaded = downloaded } } in
    if leb t.download_piece.piece_size downloaded
    then (let (announced, a) = send_message_have next next.download_piece in
        let (asked, b) = send_message_interested a in (true, b))
    else (true, next)

-- `block_length`: the packet size is computed in 32 bits, the block length in 64.
unfoldable pub block_length : Message → ℕ
block_length m = sub64 (u32 (as_small_endian m.size + 2 ^ 32 - 1)) 8

-- `receive_message_block` behind its payload.
unfoldable pub store_block : ℕ → ℕ → TorrentPeer → Outcome
store_block fuel n t = do
  piece_data ← resize_data t.download_piece.piece_data (u64 (t.download_piece.downloaded + n))
  (complete, next) ← receive_data fuel n 0 (with_data t piece_data)
  if complete then ok (finish_block n next) else ok (false, next)

-- `receive_message_block`. The payload is zero where it is not received.
unfoldable pub receive_message_block : ℕ → Message → TorrentPeer → Outcome
receive_message_block fuel m t =
    let (received, s) = receive t.tcp 8 in
    let next = record t { tcp = s } in
    elim received [
      | none ↦ ok (false, next)
      | some xs ↦
          if as_small_endian (take 4 (overlay xs (replicate 8 0))) == t.download_piece.piece_index
          then store_block fuel (block_length m) next
          else ok (false, next)
    ]

-- `receive_message_request`, which does not receive the payload.
unfoldable pub receive_message_request : Message → TorrentPeer → Bool × TorrentPeer
receive_message_request m t =
    if not (u32 (as_small_endian m.size + 2 ^ 32 - 1) == 12) then (false, t) else (false, t)

-- `receive_message_cancel`
unfoldable pub receive_message_cancel : Message → TorrentPeer → Bool × TorrentPeer
receive_message_cancel m t = (false, t)

-- What an operation is given from outside: the time, a random number, what new or uninitialised
-- memory holds, and the fuel of the loop of `receive_message_block`.
pub record World : Type 0 where
  pub now : ℕ
  pub skips : ℕ
  pub garbage : List ℕ
  pub fuel : ℕ

-- The `switch` of `receive_message`: the results of the handlers are dropped, but for that of
-- `receive_message_keep_alive`.
unfoldable pub dispatch_message : World → Peer → Message → TorrentPeer → Outcome
dispatch_message w ourself m t = elim (message_type m.code) [
  | choke ↦
      if as_small_endian m.size == 1
      then ok (false, receive_message_choke t)
      else (let (healthy, next) = receive_message_keep_alive w.now m t in
          ok (false, record next { socket_healthy = healthy }))
  | unchoke ↦ receive_message_unchoke w.skips ourself t
  | interested ↦ ok (false, record t { peer_interested = true })
  | not_interested ↦ ok (false, record t { peer_interested = false })
  | have ↦ receive_message_have w.garbage m t
  | bitfield ↦ receive_message_bitfield w.garbage m t
  | block ↦ receive_message_block w.fuel m t
  | request ↦ ok (false, (receive_message_request m t).1)
  | cancel ↦ ok (false, (receive_message_cancel m t).1)
  | unexpected n ↦ ok (false, t)
]

-- A message from its five bytes, those not received being zero.
abbrev pub message_of : List ℕ → Message
message_of xs = record { size = take 4 xs; code = get_or (drop 4 xs) 0 0 }

-- `receive_message`, which returns false in every case.
unfoldable pub receive_message : World → Peer → TorrentPeer → Outcome
receive_message w ourself t =
    if not t.handshake_complete
    then ok (false, t)
    else (let (received, s) = receive t.tcp 5 in
        let next = record t { tcp = s } in
        elim received [
          | none ↦ ok (false, next)
          | some xs ↦ do
            (result, last) ←
                dispatch_message w ourself (message_of (overlay xs (replicate 5 0))) next
            ok (false, last)
        ])
