-- ===== src/Network/Tracker/Udp.antt =====
-- source/network/tracker.cpp: the udp transactions with a tracker that answers.
use torr.Prelude.{
  take-all, ℕ, zero, suc, ◌+◌, ◌*◌, ◌-◌, ◌^◌, ◌<◌, ◌≤◌, false, List, [], ◌∷◌, ◌++◌, map, Option,
  none, some, ok, ◌≡◌, refl, ap, ◌∙◌, arith, length, length-append, drop, replicate, All, ◌==◌,
  ==-refl, ltb, length-replicate, inl, inr, Bool-cases, u32,
}
use torr.Network.Endian.{big_endian, big_endian_uint32, as_small_endian-big_endian_uint32}
use torr.Network.Tracker.{
  Tracker, field, connection_input, announce_defaults, announce_input, strncpy,
}
use torr.Network.Tracker.Transactions.{
  send_packet, receive_packet, check_response, keep_response, announce_hash,
}
use torr.Network.Tracker.Peers.{compact, IsPeer, address_of, read_peers-compact, length-compact}

-- A packet of a tracker: its action, the transaction identifier, and what is behind them.
unfoldable pub answer : ℕ → ℕ → List ℕ → List ℕ
answer action transaction rest = big_endian_uint32 action ++ big_endian_uint32 transaction ++ rest

field-transaction :
    (action transaction : ℕ) (rest zs : List ℕ)
    → field 4 4 (answer action transaction rest ++ zs) ≡ u32 transaction
unfolding answer
field-transaction action transaction rest zs =
    unfold big_endian in refl ∙ as_small_endian-big_endian_uint32 transaction

field-action :
    (action transaction : ℕ) (rest zs : List ℕ)
    → field 0 4 (answer action transaction rest ++ zs) ≡ u32 action
unfolding answer
field-action action transaction rest zs =
    unfold big_endian in refl ∙ as_small_endian-big_endian_uint32 action

pub length-answer :
    (action transaction : ℕ) (rest : List ℕ)
    → length (answer action transaction rest) ≡ 8 + length rest
unfolding answer big_endian
length-answer action transaction rest = omega arith

enough : (a b : ℕ) → b ≤ a → ltb a b ≡ false
enough a b h = ground arith

-- An answer of the size, the action and the transaction identifier that are waited for is accepted.
pub check_response-answer :
    (minimum now action : ℕ) (rest : List ℕ)
    → minimum ≤ 8 + length rest
    → action < 2 ^ 32
    → check_response minimum (u32 now) action (answer action (u32 now) rest) ≡ none
unfolding check_response
check_response-answer minimum now action rest h a =
    let xs = answer action (u32 now) rest in
    let zs : List ℕ = replicate (8 - length xs) 0 in
    let long : ltb (length xs) minimum ≡ false =
      enough (length xs) minimum (omega (arith, h, length-answer action (u32 now) rest)) in
    let twice : u32 (u32 now) ≡ u32 now = omega arith in
    let whole : u32 action ≡ action = omega arith in
    rw long (
      rw (field-transaction action (u32 now) rest zs ∙ twice) (
        rw (==-refl (u32 now))
          (rw (field-action action (u32 now) rest zs ∙ whole) (rw (==-refl action) refl))))

length-strncpy : (n : ℕ) (xs : List ℕ) → length (strncpy n xs) ≡ n
unfolding strncpy
length-strncpy zero xs = refl
length-strncpy (suc n) [] = ap suc (length-strncpy n [])
length-strncpy (suc n) (x ∷ xs) = elim (Bool-cases (x == 0)) [
  | inl e ↦ rw e (ap suc (length-replicate {A = ℕ} n 0))
  | inr e ↦ rw e (ap suc (length-strncpy n xs))
]

length-announce_input :
    (connection transaction : ℕ) (hash id : List ℕ)
    → length (announce_input connection transaction hash id) ≡ 98
unfolding announce_input connection_input announce_defaults big_endian
length-announce_input connection transaction hash id = omega (
  arith,
  length-append (strncpy 20 hash) (strncpy 20 id ++ announce_defaults),
  length-append (strncpy 20 id) announce_defaults,
  length-strncpy 20 hash,
  length-strncpy 20 id,
)

-- The bytes of an answer to an announce.
abbrev pub announce_answer : ℕ → ℕ → ℕ → ℕ → List (ℕ × ℕ) → List ℕ
announce_answer transaction interval leechers seeders ps = answer 1 transaction (
    big_endian_uint32 interval
    ++ big_endian_uint32 leechers
    ++ big_endian_uint32 seeders
    ++ compact ps)

length-announce_answer :
    (transaction interval leechers seeders : ℕ) (ps : List (ℕ × ℕ))
    → length (announce_answer transaction interval leechers seeders ps) ≡ 20 + 6 * length ps
unfolding answer big_endian
length-announce_answer transaction interval leechers seeders ps = omega (arith, length-compact ps)

module _ (transaction interval leechers seeders : ℕ) (ps : List (ℕ × ℕ)) (zs : List ℕ) where
  field-interval :
      interval < 2 ^ 32
      → field 8 4 (announce_answer transaction interval leechers seeders ps ++ zs) ≡ interval
  unfolding answer
  field-interval i =
      unfold big_endian in refl ∙ as_small_endian-big_endian_uint32 interval ∙ omega arith

  drop-answer :
      drop 20 (announce_answer transaction interval leechers seeders ps ++ zs) ≡ compact ps ++ zs
  unfolding answer big_endian
  drop-answer = refl

-- What the tracker keeps of the answer, with zeros behind it.
keep_response-answer :
    (transaction interval leechers seeders k : ℕ) (ps : List (ℕ × ℕ)) (t : Tracker)
    → interval < 2 ^ 32
    → length ps ≤ 1024
    → All IsPeer ps
    → keep_response (announce_answer transaction interval leechers seeders ps ++ replicate k 0) t
      ≡ record t {
        tracker_response = record t.tracker_response {
          interval = interval;
          peer_addresses = map address_of ps;
        };
      }
unfolding keep_response
keep_response-answer transaction interval leechers seeders k ps t i l a =
    let zs : List ℕ = replicate k 0 in
    rw (field-interval transaction interval leechers seeders ps zs i) (
      rw (drop-answer transaction interval leechers seeders ps zs)
        (rw (read_peers-compact 1024 k ps l a) refl))

pub send_packet-whole :
    (incoming : List (Option (List ℕ))) (accepts : List (Option ℕ)) (sent : List (List ℕ))
    (xs : List ℕ) (n : ℕ)
    → length xs ≡ n
    → send_packet (record { incoming = incoming; accepts = some n ∷ accepts; sent = sent }) xs
      ≡ (none, record { incoming = incoming; accepts = accepts; sent = sent ++ xs ∷ [] })
unfolding send_packet
send_packet-whole incoming accepts sent xs n h =
    rw (enough n (length xs) (omega (arith, h))) (rw (take-all xs n (omega (arith, h))) refl)

pub receive_packet-whole :
    (incoming : List (Option (List ℕ))) (accepts : List (Option ℕ)) (sent : List (List ℕ))
    (xs : List ℕ) (n : ℕ)
    → length xs ≤ n
    → receive_packet (record { incoming = some xs ∷ incoming; accepts = accepts; sent = sent }) n
      ≡ (xs, record { incoming = incoming; accepts = accepts; sent = sent })
unfolding receive_packet
receive_packet-whole incoming accepts sent xs n h = rw (take-all xs n h) refl

-- A tracker answers an announce: the announce packet has been sent whole, the interval is that of
-- the answer, and the peers are exactly those of the answer, in place of those that were known. The
-- answer has the transaction identifier that was sent and at most 1024 peers, none of them zero.
pub announce_hash-answer :
    (now interval leechers seeders : ℕ) (hash id : List ℕ) (ps : List (ℕ × ℕ)) (t : Tracker)
    (incoming : List (Option (List ℕ))) (accepts : List (Option ℕ)) (sent : List (List ℕ))
    → interval < 2 ^ 32
    → length ps ≤ 1024
    → All IsPeer ps
    → announce_hash now hash id t (record {
      incoming = some (announce_answer (u32 now) interval leechers seeders ps) ∷ incoming;
      accepts = some 98 ∷ accepts;
      sent = sent;
    })
      ≡ (
        ok t.announce_connection_identifier,
        record t {
          tracker_response = record t.tracker_response {
            interval = interval;
            peer_addresses = map address_of ps;
          };
        },
        record {
          incoming = incoming;
          accepts = accepts;
          sent = sent ++ announce_input t.announce_connection_identifier (u32 now) hash id ∷ [];
        },
      )
unfolding announce_hash
announce_hash-answer now interval leechers seeders hash id ps t incoming accepts sent i l a =
    let xs = announce_answer (u32 now) interval leechers seeders ps in
    let packet = announce_input t.announce_connection_identifier (u32 now) hash id in
    let size = length-announce_answer (u32 now) interval leechers seeders ps in
    let sends =
      send_packet-whole (some xs ∷ incoming) accepts sent packet 98
        (length-announce_input t.announce_connection_identifier (u32 now) hash id) in
    let receives =
      receive_packet-whole incoming accepts (sent ++ packet ∷ []) xs (20 + 6 * 1024)
        (omega (arith, size, l)) in
    let rest =
      big_endian_uint32 interval
      ++ big_endian_uint32 leechers
      ++ big_endian_uint32 seeders
      ++ compact ps in
    let checks =
      check_response-answer 20 now 1 rest (omega (arith, size, length-answer 1 (u32 now) rest))
        (omega arith) in
    rw (sends, announce_hash)
      (rw sends (
        rw receives (
          rw checks (
            rw sends (
              rw receives (
                rw
                  (keep_response-answer (u32 now) interval leechers seeders
                    (20 + 6 * 1024 - length xs) ps t i l a)
                  refl))))))
