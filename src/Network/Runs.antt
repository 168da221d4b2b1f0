-- ===== src/Network/Runs.antt =====
-- Tests of source/network, and its theorems at concrete inputs.
use torr.Prelude.{
  ◌/◌, true, false, [], ◌∷◌, ◌++◌, map, some, ok, err, ◌>>=◌, ◌^◌, ◌≡◌, refl, replicate, arith,
}
use torr.Network.Samples.{hash, source, ours, fresh, begun}
use torr.Network.Endian.{as_small_endian, big_endian_from}
use torr.Network.Socket.{segment, closed}
use torr.Network.Peer.State.{
  Source, Peer, out_of_bounds, out_of_fuel, TorrentPeer, handshake_prefix,
  construct_handshake_string,
}
use torr.Network.Peer.Send.{request, unchoke, message, request_payload, fill_outstanding_requests}
use torr.Network.Peer.Receive.{Message, receive_data, block_length, store_block}
use torr.Network.Peer.Connection.{check_handshake, receive_handshake}
use torr.Network.Peer.Blocks.{arriving, store_block_overflows, receive_data_closed}
use torr.Network.Peer.Unread.{asked, misread, remains, receive_message-IsIgnored}
use torr.Bitset.Samples.{memory, theirs, ours-IsValid, theirs-IsValid}
use torr.Bitset.Samples.{ours as our_bits}
use torr.Network.Peer.Unchoked.{open_to, Chooses, receive_message-Chooses}
use torr.Network.Peer.Handshakes.{receive_handshake-construct, check_handshake_zero}
use torr.Network.Peer.Requests.{sending, block_offsets, fill_outstanding_requests-sent}
use torr.Network.Peer.Receive.{receive_message_block, receive_message}
use torr.Network.Peer.Receive.{World, dispatch_message}
use torr.Network.Peer.Invariant.{IsKept, dispatch_message-IsKept}
use torr.Network.Peer.Safety.{IsSafe, receive_message_block-IsSafe}

abbrev short : Message
short = record { size = 0 ∷ 0 ∷ 0 ∷ 2 ∷ []; code = 7 }

short_size : as_small_endian short.size ≡ 2
unfolding big_endian_from
short_size = refl

store_block_overflows_example :
    store_block 1 (block_length short) (arriving begun (segment (9 ∷ []) ∷ [])) ≡ err out_of_bounds
store_block_overflows_example =
    store_block_overflows 0 9 short begun [] [] (omega (arith, short_size))
      (omega (arith, short_size)) (omega arith) (omega arith) (omega arith) (omega arith)

receive_data_closed_example : receive_data 100 3 1 (arriving begun (closed ∷ [])) ≡ err out_of_fuel
receive_data_closed_example = receive_data_closed 100 3 1 begun [] (omega arith)

receive_handshake-construct_example :
    (sent : Peer) × (construct_handshake_string ours ≡ ok (68, sent))
    × (receive_handshake ours (arriving fresh (segment sent.handshake ∷ []))
        ≡ ok
            (true, record (arriving fresh []) { handshake_complete = true; socket_healthy = true }))
receive_handshake-construct_example =
    receive_handshake-construct hash source ours ours fresh [] refl refl refl refl refl refl

abbrev zero_source : Source
zero_source = record source { file_hash = some (0 ∷ replicate 19 7) }

check_handshake_zero_example :
    check_handshake
      (record ours { download_target = some zero_source })
      (handshake_prefix ++ (0 ∷ replicate 19 8) ++ replicate 20 1)
      fresh
    ≡ ok (true, record fresh { handshake_complete = true; socket_healthy = true })
check_handshake_zero_example =
    check_handshake_zero (replicate 19 7) (replicate 19 8) (replicate 20 1) zero_source
      (record ours { download_target = some zero_source }) fresh refl refl

-- A piece of 40000 bytes is asked for in two blocks: the last 7232 bytes are not.
two_offsets : block_offsets (40000 / 16384) 0 ≡ 0 ∷ 16384 ∷ []
unfolding block_offsets
two_offsets = refl

fill_outstanding_requests-sent_example :
    fill_outstanding_requests ours (sending begun (replicate (40000 / 16384) (some 17) ++ []) [])
    ≡ ok (
      true,
      sending begun []
          (map (request_payload begun.download_piece) (block_offsets (40000 / 16384) 0)),
    )
fill_outstanding_requests-sent_example =
    fill_outstanding_requests-sent 40000 source ours begun [] refl refl (omega arith)

abbrev long_enough : Message
long_enough = record { size = 0 ∷ 0 ∷ 0 ∷ 12 ∷ []; code = 7 }

twelve_bytes : as_small_endian long_enough.size ≡ 12
unfolding big_endian_from
twelve_bytes = refl

receive_message_block-IsSafe_example : IsSafe (
    receive_message_block 5 long_enough
      (arriving begun (segment (replicate 8 0) ∷ segment (1 ∷ 2 ∷ []) ∷ closed ∷ [])))
receive_message_block-IsSafe_example =
    receive_message_block-IsSafe 5 long_enough
      (arriving begun (segment (replicate 8 0) ∷ segment (1 ∷ 2 ∷ []) ∷ closed ∷ []))
      (omega (arith, twelve_bytes)) (omega (arith, twelve_bytes)) (omega (arith, twelve_bytes))
      (omega arith)

abbrev world : World
world = record { now = 1000; skips = 0; garbage = []; fuel = 5 }

-- A block whose last byte comes late.
abbrev receiving_block : TorrentPeer
receiving_block =
    arriving begun (segment (replicate 8 0) ∷ segment (1 ∷ 2 ∷ []) ∷ segment (3 ∷ []) ∷ closed ∷ [])

dispatch_message-IsKept_example : IsKept (dispatch_message world ours long_enough receiving_block)
dispatch_message-IsKept_example =
    dispatch_message-IsKept world ours long_enough receiving_block (omega arith)
      (λ e. omega (arith, twelve_bytes)) (omega (arith, twelve_bytes)) (omega (arith, twelve_bytes))

-- A peer asks for a block of piece 0: the offset 2 ^ 24 makes it an unchoke.
receive_message-IsIgnored_example :
    (receive_message world ours (
        arriving
          (record fresh { handshake_complete = true })
          (segment (message 13 request ++ asked 0 (2 ^ 24) 16384) ∷ []))
      >>= λ (result, next). receive_message world ours next)
    ≡ (dispatch_message world ours (misread 0 (2 ^ 24)) (
          arriving
            (record fresh { handshake_complete = true })
            (segment (remains (2 ^ 24) 16384) ∷ []))
        >>= λ (result, last). ok (false, last))
receive_message-IsIgnored_example =
    receive_message-IsIgnored world world ours (record fresh { handshake_complete = true }) request
      0 (2 ^ 24) 16384 [] refl tt

-- The other side has the piece 8, of 40000 bytes, and our side lacks it; with one skip it is found.
abbrev choked : TorrentPeer
choked = record fresh { handshake_complete = true; bitfield = theirs; memory = memory }

abbrev skipping : World
skipping = record world { skips = 1 }

abbrev lacking : Peer
lacking = record ours { bitfield_pieces = our_bits }

receive_message-Chooses_example :
    Chooses skipping 40000 source lacking choked [] (closed ∷ []) refl refl (omega arith) (
      receive_message skipping lacking
        (open_to 40000 [] (segment (message 1 unchoke) ∷ closed ∷ []) choked))
receive_message-Chooses_example =
    receive_message-Chooses skipping 40000 source lacking choked [] (closed ∷ []) refl refl
      (omega arith) refl refl ours-IsValid theirs-IsValid
