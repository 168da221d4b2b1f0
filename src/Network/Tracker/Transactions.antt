-- ===== src/Network/Tracker/Transactions.antt =====
-- source/network/tracker.cpp: the three transactions of the udp protocol. A socket is, as for tcp,
-- a script of what each `send` and `receive` does; a datagram is read in one call.
use torr.Prelude.{
  ℕ, ◌+◌, ◌-◌, ◌*◌, List, [], ◌∷◌, ◌++◌, Option, none, some, Result, ok, err, if◌then◌else◌, length,
  take, drop, replicate, u32, ltb, ◌==◌, not,
}
use torr.Network.Peer.State.{Peer}
use torr.Network.Tracker.{
  push_peers, clear_peers, set_interval, Tracker, connection_input, announce_input, scrape_input,
  field, read_peers,
}

-- What each datagram that is waited for is, `none` where the wait fails, and what `send` returns.
pub record UdpSocket : Type 0 where
  pub incoming : List (Option (List ℕ))
  pub accepts : List (Option ℕ)
  pub sent : List (List ℕ)

-- The messages of the errors.
pub data TrackerError : Type 0 where
  udp_error send_failed receive_failed identifier_mismatch action_mismatch : TrackerError
  missing_target null_target : TrackerError

abbrev pub Transaction : Type 0
Transaction = Result TrackerError ℕ × Tracker × UdpSocket

-- `send`, of which the error is handed on, and a short one is refused.
unfoldable pub send_packet : UdpSocket → List ℕ → Option TrackerError × UdpSocket
send_packet s xs = elim s.accepts [
  | [] ↦ (some udp_error, s)
  | none ∷ rest ↦ (some udp_error, record s { accepts = rest })
  | some n ∷ rest ↦ (
    if ltb n (length xs) then some send_failed else none,
    record s { accepts = rest; sent = s.sent ++ take n xs ∷ [] },
  )
]

-- `receive` of a datagram of at most so many bytes, with `value_or(0)`: nothing where it fails.
unfoldable pub receive_packet : UdpSocket → ℕ → List ℕ × UdpSocket
receive_packet s n = elim s.incoming [
  | [] ↦ ([], s)
  | none ∷ rest ↦ ([], record s { incoming = rest })
  | some xs ∷ rest ↦ (take n xs, record s { incoming = rest })
]

-- The test of a response: its size, its transaction identifier and its action.
unfoldable pub check_response : ℕ → ℕ → ℕ → List ℕ → Option TrackerError
check_response minimum transaction action xs =
    let buffer = xs ++ replicate (8 - length xs) 0 in
    if ltb (length xs) minimum
    then some receive_failed
    else if not (field 4 4 buffer == transaction)
    then some identifier_mismatch
    else if not (field 0 4 buffer == action)
    then some action_mismatch
    else none

abbrev finish : Tracker → UdpSocket → Transaction
finish t s = (ok t.announce_connection_identifier, t, s)

-- `udp_connetion_transaction` at a time.
unfoldable pub udp_connetion_transaction : ℕ → Tracker → UdpSocket → Transaction
udp_connetion_transaction now t s =
    let begun = record t { announce_transaction_identifier = u32 now } in
    let (failed, s1) = send_packet s (connection_input 0x41727101980 0 (u32 now)) in
    elim failed [
      | some e ↦ (err e, begun, s1)
      | none ↦
          let (xs, s2) = receive_packet s1 16 in
          elim (check_response 16 (u32 now) 0 xs) [
            | some e ↦ (err e, begun, s2)
            | none ↦ finish (record begun { announce_connection_identifier = field 8 8 xs }) s2
          ]
    ]

-- What `udp_announce_transaction` keeps of a response: it replaces the peers.
unfoldable pub keep_response : List ℕ → Tracker → Tracker
keep_response xs t = record t {
  tracker_response =
      push_peers (read_peers 1024 (drop 20 xs))
        (clear_peers (set_interval (field 8 4 xs) t.tracker_response));
}

-- `udp_announce_transaction`, given the file hash.
unfoldable pub announce_hash : ℕ → List ℕ → List ℕ → Tracker → UdpSocket → Transaction
announce_hash now hash id t s =
    let (failed, s1) =
      send_packet s (announce_input t.announce_connection_identifier (u32 now) hash id) in
    elim failed [
      | some e ↦ (err e, t, s1)
      | none ↦
          let (xs, s2) = receive_packet s1 (20 + 6 * 1024) in
          elim (check_response 20 (u32 now) 1 xs) [
            | some e ↦ (err e, t, s2)
            | none ↦ finish (keep_response (xs ++ replicate (20 + 6 * 1024 - length xs) 0) t) s2
          ]
    ]

-- The file hash of the download target of our side.
abbrev pub hash_of : Peer → Result TrackerError (List ℕ)
hash_of p = elim p.download_target [
  | none ↦ err null_target
  | some source ↦ elim source.file_hash [ none ↦ err missing_target | some hash ↦ ok hash ]
]

-- `udp_announce_transaction`
unfoldable pub udp_announce_transaction : ℕ → Peer → Tracker → UdpSocket → Transaction
udp_announce_transaction now ourself t s =
    let begun = record t { announce_transaction_identifier = u32 now } in
    elim (hash_of ourself) [
      | err e ↦ (err e, begun, s)
      | ok hash ↦ announce_hash now hash ourself.identifier begun s
    ]

-- `udp_scrape_transaction`, given the file hash.
unfoldable pub scrape_hash : ℕ → List ℕ → Tracker → UdpSocket → Transaction
scrape_hash now hash t s =
    let (failed, s1) =
      send_packet s (scrape_input t.announce_connection_identifier (u32 now) hash) in
    elim failed [
      | some e ↦ (err e, t, s1)
      | none ↦
          let (xs, s2) = receive_packet s1 (8 + 12 * 1024) in
          elim (check_response 8 (u32 now) 2 xs) [ some e ↦ (err e, t, s2) | none ↦ finish t s2 ]
    ]

-- `udp_scrape_transaction`
unfoldable pub udp_scrape_transaction : ℕ → Peer → Tracker → UdpSocket → Transaction
udp_scrape_transaction now ourself t s =
    let begun = record t { announce_transaction_identifier = u32 now } in
    elim (hash_of ourself) [ err e ↦ (err e, begun, s) | ok hash ↦ scrape_hash now hash begun s ]

-- `udp_announce`, on the socket that `connect` makes, at the times of the two transactions.
unfoldable pub udp_announce :
    ℕ → ℕ → Peer → Tracker → Option UdpSocket → Option TrackerError × Tracker
udp_announce first second ourself t none = (some udp_error, t)
udp_announce first second ourself t (some s) =
    let (connected, t1, s1) = udp_connetion_transaction first t s in
    elim connected [
      | err e ↦ (some e, t1)
      | ok n ↦
          let (announced, t2, s2) = udp_announce_transaction second ourself t1 s1 in
          elim announced [ err e ↦ (some e, t2) | ok m ↦ (none, t2) ]
    ]
