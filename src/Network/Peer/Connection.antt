-- ===== src/Network/Peer/Connection.antt =====
-- source/network/peer/peer.cpp: the handshake of `torrent_peer`.
use torr.Prelude.{
  ℕ, zero, suc, Bool, true, false, List, [], ◌∷◌, none, some, Result, ok, err, ◌>>=◌, if◌then◌else◌,
  length, drop, replicate, ◌==◌, not,
}
use torr.Network.Socket.{Socket, receive}
use torr.Network.Peer.State.{
  Peer, PeerFault, out_of_bounds, value, target_of, TorrentPeer, handshake_prefix,
}
use torr.Network.Peer.Send.{transmit}
use torr.Network.Peer.Receive.{Outcome, overlay}

-- `strncmp` of so many bytes: equal up to the first zero. The end of a buffer is out of bounds.
unfoldable pub same_text : ℕ → List ℕ → List ℕ → Result PeerFault Bool
same_text zero xs ys = ok true
same_text (suc n) [] ys = err out_of_bounds
same_text (suc n) (x ∷ xs) [] = err out_of_bounds
same_text (suc n) (x ∷ xs) (y ∷ ys) =
    let rest = same_text n xs ys in
    if not (x == y) then ok false else if x == 0 then ok true else rest

-- The tests of `handshake` on what was received.
unfoldable pub check_handshake : Peer → List ℕ → TorrentPeer → Outcome
check_handshake ourself received t = do
  same_prefix ← same_text 28 received handshake_prefix
  if same_prefix
      then (do
        source ← target_of ourself
        hash ← value source.file_hash
        same_hash ← same_text 20 (drop 28 received) hash
        if same_hash
            then ok (true, record t { handshake_complete = true; socket_healthy = true })
            else ok (false, t))
      else ok (false, t)

-- `handshake` behind its `send`.
unfoldable pub receive_handshake : Peer → TorrentPeer → Outcome
receive_handshake ourself t =
    let (received, s) = receive t.tcp 68 in
    let next = record t { tcp = s } in
    elim received [
      | none ↦ ok (false, next)
      | some xs ↦ check_handshake ourself (overlay xs (replicate 68 0)) next
    ]

-- `handshake`, given the connection that `connect` makes.
unfoldable pub handshake : Socket → Peer → TorrentPeer → Outcome
handshake connection ourself t =
    let connected = record t { tcp = connection } in
    if length ourself.handshake == 0
    then ok (false, connected)
    else (let (sent, next) = transmit connected ourself.handshake in
        if sent then receive_handshake ourself next else ok (false, next))
