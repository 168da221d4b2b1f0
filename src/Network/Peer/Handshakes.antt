-- ===== src/Network/Peer/Handshakes.antt =====
-- source/network/peer/peer.cpp: the handshake that `construct_handshake_string` makes, against the
-- tests of `torrent_peer::handshake`.
use torr.Prelude.{
  ℕ, zero, suc, Bool, true, false, List, [], ◌∷◌, ◌++◌, append-nil, some, Result, ok, ◌≡◌, refl,
  ◌∙◌, arith, length, length-append, ==-refl, ◌==◌, if◌then◌else◌,
}
use torr.Network.Socket.{Event, segment}
use torr.Network.Peer.State.{
  Source, Peer, PeerFault, TorrentPeer, handshake_prefix, handshake_of, construct_handshake_string,
}
use torr.Network.Peer.Connection.{same_text, check_handshake, receive_handshake}
use torr.Network.Peer.Blocks.{arriving, receive-segment}

-- A text is the same as itself, with whatever behind it.
same_text-append : (n : ℕ) (xs ys : List ℕ) → length xs ≡ n → same_text n (xs ++ ys) xs ≡ ok true
unfolding same_text
same_text-append zero xs ys h = refl
same_text-append (suc n) [] ys h = absurd (omega (arith, h))
same_text-append (suc n) (x ∷ xs) ys h =
    rw (==-refl x) (if-same (x == 0) (same_text-append n xs ys (omega (arith, h))))
  where
    if-same :
        (b : Bool) {r : Result PeerFault Bool} → r ≡ ok true → (if b then ok true else r) ≡ ok true
    if-same true e = refl
    if-same false e = e

same_prefix : (ys : List ℕ) → same_text 28 (handshake_prefix ++ ys) handshake_prefix ≡ ok true
unfolding same_text
same_prefix ys = refl

check_handshake-same :
    (hash id : List ℕ) (source : Source) (ours : Peer) (t : TorrentPeer)
    → length hash ≡ 20
    → source.file_hash ≡ some hash
    → ours.download_target ≡ some source
    → check_handshake ours (handshake_prefix ++ hash ++ id) t
      ≡ ok (true, record t { handshake_complete = true; socket_healthy = true })
unfolding check_handshake
check_handshake-same hash id source ours t h f e =
    rw (same_prefix (hash ++ id)) (rw e (rw f (rw (same_text-append 20 hash id h) refl)))

receive_handshake-all :
    (ours : Peer) (t : TorrentPeer) (xs : List ℕ) (rest : List Event)
    → length xs ≡ 68
    → receive_handshake ours (arriving t (segment xs ∷ rest))
      ≡ check_handshake ours xs (arriving t rest)
unfolding receive_handshake
receive_handshake-all ours t xs rest h =
    let r = receive-segment t.tcp xs rest 68 (omega (arith, h)) in
    rw (r, receive_handshake) (rw r (rw h (rw (append-nil xs) refl)))

pub length-handshake :
    (hash id : List ℕ)
    → length hash ≡ 20
    → length id ≡ 20
    → length (handshake_prefix ++ hash ++ id) ≡ 68
length-handshake hash id h i = omega (arith, h, i, length-append hash id)

-- The handshake that a peer constructs for its target.
pub construct_handshake_string-target :
    (hash : List ℕ) (source : Source) (theirs : Peer)
    → length hash ≡ 20
    → length theirs.identifier ≡ 20
    → source.file_hash ≡ some hash
    → theirs.download_target ≡ some source
    → theirs.handshake ≡ []
    → construct_handshake_string theirs
      ≡ ok (68, record theirs { handshake = handshake_prefix ++ hash ++ theirs.identifier })
unfolding construct_handshake_string handshake_of
construct_handshake_string-target hash source theirs h i f d b =
    let size = length-handshake hash theirs.identifier h i in
    rw d (rw f (rw h (rw i (rw b (rw size refl)))))

-- Two peers of the same torrent: the handshake that the one constructs has 68 bytes, and the other
-- completes its handshake on it.
pub receive_handshake-construct :
    (hash : List ℕ) (source : Source) (theirs ours : Peer) (t : TorrentPeer) (rest : List Event)
    → length hash ≡ 20
    → length theirs.identifier ≡ 20
    → source.file_hash ≡ some hash
    → theirs.download_target ≡ some source
    → ours.download_target ≡ some source
    → theirs.handshake ≡ []
    → (sent : Peer) × (construct_handshake_string theirs ≡ ok (68, sent))
      × (receive_handshake ours (arriving t (segment sent.handshake ∷ rest))
          ≡ ok
              (true, record (arriving t rest) { handshake_complete = true; socket_healthy = true }))
receive_handshake-construct hash source theirs ours t rest h i f d e b =
    let joined = handshake_prefix ++ hash ++ theirs.identifier in
    (
      record theirs { handshake = joined },
      construct_handshake_string-target hash source theirs h i f d b,
      receive_handshake-all ours t joined rest (length-handshake hash theirs.identifier h i)
          ∙ check_handshake-same hash theirs.identifier source ours (arriving t rest) h f e,
    )

-- The comparison stops at a zero byte: two torrents whose hashes both begin with zero are taken for
-- one.
pub check_handshake_zero :
    (hash other id : List ℕ) (source : Source) (ours : Peer) (t : TorrentPeer)
    → source.file_hash ≡ some (0 ∷ hash)
    → ours.download_target ≡ some source
    → check_handshake ours (handshake_prefix ++ (0 ∷ other) ++ id) t
      ≡ ok (true, record t { handshake_complete = true; socket_healthy = true })
unfolding check_handshake same_text
check_handshake_zero hash other id source ours t f d = rw d (rw f refl)
