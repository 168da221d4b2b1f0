-- ===== src/Network/Tracker/Announcing.antt =====
-- source/network/tracker.cpp: the announce over udp, from the connection to the peers.
use torr.Prelude.{
  ℕ, ◌^◌, ◌<◌, ◌≤◌, true, List, [], ◌∷◌, ◌++◌, map, Option, none, some, ok, ◌≡◌, refl, ap, ◌∙◌,
  arith, length, All, Bool, false, if◌then◌else◌, u32, u64,
}
use torr.Network.Endian.{big_endian, big_endian_uint64, as_small_endian-big_endian}
use torr.Network.Peer.State.{Source, Peer}
use torr.Network.Tracker.{Tracker, field, connection_input}
use torr.Network.Tracker.Transactions.{
  UdpSocket, Transaction, udp_connetion_transaction, announce_hash, hash_of,
  udp_announce_transaction, udp_announce, TrackerError,
}
use torr.Network.Tracker.Announce.{announce_by_protocol, announce}
use torr.Network.Tracker.Peers.{IsPeer, address_of}
use torr.Network.Tracker.Udp.{
  answer, check_response-answer, length-answer, announce_answer, send_packet-whole,
  receive_packet-whole, announce_hash-answer,
}
use torr.Uri.Url.{udp}

-- The bytes of an answer to a connection.
abbrev pub connection_answer : ℕ → ℕ → List ℕ
connection_answer transaction connection = answer 0 transaction (big_endian_uint64 connection)

length-connection_input : (c a n : ℕ) → length (connection_input c a n) ≡ 16
unfolding connection_input big_endian
length-connection_input c a n = refl

length-connection_answer : (n c : ℕ) → length (connection_answer n c) ≡ 16
unfolding answer big_endian
length-connection_answer n c = refl

field-connection : (n c : ℕ) → c < 2 ^ 64 → field 8 8 (connection_answer n c) ≡ c
unfolding answer
field-connection n c h =
    unfold big_endian in refl ∙ as_small_endian-big_endian 8 (u64 c) (omega arith) ∙ omega arith

module _ (now connection : ℕ) (t : Tracker) (incoming : List (Option (List ℕ)))
    (accepts : List (Option ℕ)) (sent : List (List ℕ)) where
  abbrev packet : List ℕ
  packet = connection_input 0x41727101980 0 (u32 now)

  udp_connetion_transaction-answer :
      connection < 2 ^ 64
      → udp_connetion_transaction now t (record {
        incoming = some (connection_answer (u32 now) connection) ∷ incoming;
        accepts = some 16 ∷ accepts;
        sent = sent;
      })
        ≡ (
          ok connection,
          record t {
            announce_transaction_identifier = u32 now;
            announce_connection_identifier = connection;
          },
          record { incoming = incoming; accepts = accepts; sent = sent ++ packet ∷ [] },
        )
  unfolding udp_connetion_transaction
  udp_connetion_transaction-answer h =
      let xs = connection_answer (u32 now) connection in
      let size = length-connection_answer (u32 now) connection in
      let sends =
        send_packet-whole (some xs ∷ incoming) accepts sent packet 16
          (length-connection_input 0x41727101980 0 (u32 now)) in
      let receives =
        receive_packet-whole incoming accepts (sent ++ packet ∷ []) xs 16 (omega (arith, size)) in
      let checks =
        check_response-answer 16 now 0 (big_endian_uint64 connection)
          (omega (arith, size, length-answer 0 (u32 now) (big_endian_uint64 connection)))
          (omega arith) in
      rw (sends, udp_connetion_transaction)
        (rw sends (
          rw receives (
            rw checks
              (rw sends (rw receives (rw (field-connection (u32 now) connection h) refl))))))

udp_announce-step :
    (first second n k : ℕ) (ourself : Peer) (t t1 t2 : Tracker) (s s1 s2 : UdpSocket)
    → udp_connetion_transaction first t s ≡ (ok n, t1, s1)
    → udp_announce_transaction second ourself t1 s1 ≡ (ok k, t2, s2)
    → udp_announce first second ourself t (some s) ≡ (none, t2)
unfolding udp_announce
udp_announce-step first second n k ourself t t1 t2 s s1 s2 c a =
    rw (ap (λ (o : Transaction). o.0) c, udp_announce)
      (rw (ap (λ (o : Transaction). o.1) c) (
        rw (ap (λ (o : Transaction). o.2) c) (
          rw (ap (λ (o : Transaction). o.0) a) (
            rw (ap (λ (o : Transaction). o.1) c)
              (rw (ap (λ (o : Transaction). o.2) c) (rw (ap (λ (o : Transaction). o.1) a) refl))))))

udp_announce_transaction-hash :
    (now : ℕ) (hash : List ℕ) (ourself : Peer) (t : Tracker) (s : UdpSocket) (o : Transaction)
    → hash_of ourself ≡ ok hash
    → announce_hash now hash ourself.identifier
        (record t { announce_transaction_identifier = u32 now })
        s
      ≡ o
    → udp_announce_transaction now ourself t s ≡ o
unfolding udp_announce_transaction
udp_announce_transaction-hash now hash ourself t s o h a = rw (h, udp_announce_transaction) a

if_true : {A : Type 0} (b : Bool) (x y : A) → b ≡ true → (if b then x else y) ≡ x
if_true true x y h = refl
if_true false x y h = cc

module _ (scan : List ℕ → Option ℕ) (indeterminate : ℕ) (search : List ℕ → Option (List (List ℕ)))
    (resolve : List ℕ → Option ℕ) (fetch : List ℕ → Option (List ℕ)) (first second : ℕ)
    (socket : Option UdpSocket) (ourself : Peer) (t next : Tracker)
    (done : udp_announce first second ourself t socket ≡ (none, next)) where
  announce_by_protocol-udp :
      t.endpoint.protocol ≡ udp
      → announce_by_protocol scan indeterminate search resolve fetch first second socket ourself t
        ≡ (none, next)
  unfolding announce_by_protocol
  announce_by_protocol-udp h =
      rw (h, announce_by_protocol)
        (rw (ap (λ (o : Option TrackerError × Tracker). o.0) done)
          (rw (ap (λ (o : Option TrackerError × Tracker). o.1) done) refl))

  announce-udp :
      t.has_endpoint ≡ true
      → t.endpoint.protocol ≡ udp
      → announce scan indeterminate search resolve fetch first second socket ourself t
        ≡ (none, next)
  unfolding announce
  announce-udp known h = if_true t.has_endpoint _ _ known ∙ announce_by_protocol-udp h

-- What a tracker knows when its connection and its announce have been answered.
abbrev pub served : ℕ → ℕ → ℕ → List (ℕ × ℕ) → Tracker → Tracker
served second connection interval ps t = record t {
  announce_transaction_identifier = u32 second;
  announce_connection_identifier = connection;
  tracker_response = record t.tracker_response {
    interval = interval;
    peer_addresses = map address_of ps;
  };
}

-- A socket on which the tracker answers both.
abbrev pub answering : ℕ → ℕ → ℕ → ℕ → ℕ → ℕ → List (ℕ × ℕ) → UdpSocket
answering first second connection interval leechers seeders ps = record {
  incoming =
      some (connection_answer (u32 first) connection)
      ∷ some (announce_answer (u32 second) interval leechers seeders ps)
      ∷ [];
  accepts = some 16 ∷ some 98 ∷ [];
  sent = [];
}

module _ (first second connection interval leechers seeders : ℕ) (ps : List (ℕ × ℕ)) (hash : List ℕ)
    (source : Source) (ourself : Peer) (t : Tracker)
    (target : ourself.download_target ≡ some source) (hashed : source.file_hash ≡ some hash)
    (small : connection < 2 ^ 64) (seconds : interval < 2 ^ 32) (few : length ps ≤ 1024)
    (peers : All IsPeer ps) where
  hash_of-target : hash_of ourself ≡ ok hash
  hash_of-target = rw (target, hash_of) (rw hashed refl)

  udp_announce-served :
      udp_announce first second ourself t
        (some (answering first second connection interval leechers seeders ps))
      ≡ (none, served second connection interval ps t)
  udp_announce-served =
      let t1 : Tracker = record t {
        announce_transaction_identifier = u32 first;
        announce_connection_identifier = connection;
      } in
      udp_announce-step first second connection connection ourself t t1
        (served second connection interval ps t) _ _ _
        (udp_connetion_transaction-answer first connection t
          (some (announce_answer (u32 second) interval leechers seeders ps) ∷ []) (some 98 ∷ []) []
          small)
        (udp_announce_transaction-hash second hash ourself t1 _ _ hash_of-target (
          announce_hash-answer second interval leechers seeders hash ourself.identifier ps
            (record t1 { announce_transaction_identifier = u32 second }) [] []
            (connection_input 0x41727101980 0 (u32 first) ∷ []) seconds few peers))

  -- An announce over udp with a tracker that answers: the packets of the connection and of the
  -- announce are accepted, the answers are those waited for by their sizes, actions and transaction
  -- identifiers, and in the end the tracker has the connection identifier and the interval that it
  -- was given and exactly the peers of the answer, in place of those that were known, at most 1024
  -- and none of them zero.
  pub announce-served :
      (scan : List ℕ → Option ℕ) (indeterminate : ℕ) (search : List ℕ → Option (List (List ℕ)))
      (resolve : List ℕ → Option ℕ) (fetch : List ℕ → Option (List ℕ))
      → t.has_endpoint ≡ true
      → t.endpoint.protocol ≡ udp
      → announce scan indeterminate search resolve fetch first second
          (some (answering first second connection interval leechers seeders ps))
          ourself
          t
        ≡ (none, served second connection interval ps t)
  announce-served scan indeterminate search resolve fetch =
      announce-udp scan indeterminate search resolve fetch first second
        (some (answering first second connection interval leechers seeders ps)) ourself t
        (served second connection interval ps t) udp_announce-served
