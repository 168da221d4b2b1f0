-- ===== src/Network/Peer/Requests.antt =====
-- source/network/peer/peer.cpp: the requests of `fill_outstanding_requests`.
use torr.Prelude.{
  ℕ, zero, suc, ◌+◌, ◌*◌, ◌/◌, ◌^◌, ◌<◌, ◌≤◌, true, List, [], ◌∷◌, ◌++◌, append_assoc, append-nil,
  map, Option, some, ok, ◌≡◌, refl, ap, ◌∙◌, arith, take, replicate, u32,
}
use torr.Network.Endian.{big_endian}
use torr.Network.Socket.{send}
use torr.Network.Peer.State.{Source, Peer, Piece, TorrentPeer}
use torr.Network.Peer.Send.{
  message, request_payload, send_message_request, request_blocks, fill_outstanding_requests,
}

-- The offsets of so many blocks of 16384 bytes, from the block `i`.
unfoldable pub block_offsets : ℕ → ℕ → List ℕ
block_offsets zero i = []
block_offsets (suc n) i = 16384 * i ∷ block_offsets n (suc i)

-- The peer after these messages were sent, with what its connection accepts next.
abbrev pub sending : TorrentPeer → List (Option ℕ) → List (List ℕ) → TorrentPeer
sending t accepts messages = record t {
  tcp = record t.tcp { accepts = accepts; sent = t.tcp.sent ++ messages };
}

take-request_payload :
    (piece : Piece) (offset : ℕ)
    → take 17 (request_payload piece offset) ≡ request_payload piece offset
unfolding request_payload message big_endian
take-request_payload piece offset = refl

request_blocks-sent :
    (n i : ℕ) (t : TorrentPeer) (messages : List (List ℕ)) (rest : List (Option ℕ))
    → 16384 * (i + n) ≤ 2 ^ 32
    → request_blocks n i (sending t (replicate n (some 17) ++ rest) messages)
      ≡ sending t rest (messages ++ map (request_payload t.download_piece) (block_offsets n i))
unfolding request_blocks block_offsets send_message_request send
request_blocks-sent zero i t messages rest h = rw (append-nil messages) refl
request_blocks-sent (suc n) i t messages rest h =
    let offset : u32 (16384 * i) ≡ 16384 * i = omega arith in
    let payload = request_payload t.download_piece (16384 * i) in
    rw offset (
      rw (take-request_payload t.download_piece (16384 * i)) (
        rw (append_assoc t.tcp.sent messages (payload ∷ [])) (
          request_blocks-sent n (suc i) t (messages ++ payload ∷ []) rest (omega arith)
          ∙ ap (sending t rest) (
              append_assoc messages (payload ∷ [])
                (map (request_payload t.download_piece) (block_offsets n (suc i)))))))

-- On a connection that accepts them whole, exactly the requests for the whole blocks of the piece
-- length, which is below 2 ^ 32, are sent, in order, each once: the offsets are the multiples of
-- 16384, none wraps.
pub fill_outstanding_requests-sent :
    (size : ℕ) (source : Source) (ours : Peer) (t : TorrentPeer) (rest : List (Option ℕ))
    → ours.download_target ≡ some source
    → source.piece_length ≡ some size
    → size < 2 ^ 32
    → fill_outstanding_requests ours (sending t (replicate (size / 16384) (some 17) ++ rest) [])
      ≡ ok (
        true,
        sending t rest (map (request_payload t.download_piece) (block_offsets (size / 16384) 0)),
      )
unfolding fill_outstanding_requests
fill_outstanding_requests-sent size source ours t rest d p h =
    let count : u32 (size / 16384) ≡ size / 16384 = omega arith in
    rw d (rw p (rw count (rw (request_blocks-sent (size / 16384) 0 t [] rest (omega arith)) refl)))
