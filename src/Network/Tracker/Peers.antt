-- ===== src/Network/Tracker/Peers.antt =====
-- source/network/tracker.cpp: the compact list of peers, and `http_announce` on a response that has
-- one.
use torr.Prelude.{
  take-all, ℕ, zero, suc, ◌+◌, ◌*◌, ◌-◌, ◌^◌, ◌%◌, ◌<◌, ◌≤◌, false, List, [], ◌∷◌, ◌++◌, map, none,
  some, ok, ◌≡◌, refl, ap, ◌∙◌, arith, length, replicate, bytes, All, ◌==◌, ◌&&◌, u32,
  if◌then◌else◌,
}
use torr.Bencode.Target.{end, at_key, lookup, deref, string_target}
use torr.Bencode.Parser.{Bencode}
use torr.Bencode.Grammar.{
  string, dictionary, Fields, encode, IsSupported, tree, entries, dictionary_target,
}
use torr.Bencode.RoundTrip.{parsed, from_buffer-encode_zeros}
use torr.Bencode.Access.{index_key, last_field, lookup-entries, tree_of}
use torr.Bencode.Access.Pointers.{focus, deref-key, index_key-focus, type_of-focus, as_str-focus}
use torr.Network.Endian.{
  as_small_endian, big_endian, big_endian_uint16, big_endian_from, big_endian_uint32, ntohl,
  as_small_endian-big_endian, as_small_endian-big_endian_uint32,
}
use torr.Network.Tracker.{PeerAddress, Tracker, read_peers}
use torr.Network.Tracker.Announce.{peers_string, compact_peers, with_peers, read_response}

-- The compact form of peers, given by their addresses and ports: six bytes each.
unfoldable pub compact : List (ℕ × ℕ) → List ℕ
compact [] = []
compact ((ip, port) ∷ ps) = big_endian_uint32 ip ++ big_endian_uint16 port ++ compact ps

-- A peer that the end of the list is not taken for.
abbrev pub IsPeer : ℕ × ℕ → Type 0
IsPeer (ip, port) = (ip < 2 ^ 32) × (port < 2 ^ 16) × (0 < ip + port)

abbrev pub address_of : ℕ × ℕ → PeerAddress
address_of (ip, port) = record { address = ntohl ip; port = port }

read_peers_zeros : (n k : ℕ) → read_peers n (replicate k 0) ≡ []
unfolding read_peers big_endian_from
read_peers_zeros zero k = refl
read_peers_zeros (suc n) zero = refl
read_peers_zeros (suc n) (suc zero) = refl
read_peers_zeros (suc n) (suc (suc zero)) = refl
read_peers_zeros (suc n) (suc (suc (suc zero))) = refl
read_peers_zeros (suc n) (suc (suc (suc (suc zero)))) = refl
read_peers_zeros (suc n) (suc (suc (suc (suc (suc zero))))) = refl
read_peers_zeros (suc n) (suc (suc (suc (suc (suc (suc k)))))) = refl

-- One peer of the list, by the values of its two fields.
abbrev peer_or_end : ℕ → ℕ → List PeerAddress → List PeerAddress
peer_or_end ip port others =
    if ip == 0 && port == 0 then [] else record { address = ntohl ip; port = port } ∷ others

read_peers-step :
    (n ip port : ℕ) (xs zs : List ℕ)
    → read_peers (suc n) (big_endian_uint32 ip ++ big_endian_uint16 port ++ xs ++ zs)
      ≡ peer_or_end
          (as_small_endian (big_endian_uint32 ip))
          (as_small_endian (big_endian_uint16 port))
          (read_peers n (xs ++ zs))
unfolding read_peers big_endian
read_peers-step n ip port xs zs = refl

peer_or_end-peer :
    (ip port : ℕ) (others : List PeerAddress)
    → 0 < ip + port
    → peer_or_end ip port others ≡ address_of (ip, port) ∷ others
peer_or_end-peer ip port others h = rw (not_end ip port h) refl
  where
    not_end : (a b : ℕ) → 0 < a + b → ((a == 0) && (b == 0)) ≡ false
    not_end a b h = ground arith

-- The loop over the peers reads the compact form of as many peers as it has rounds, or fewer with
-- zeros behind them, back to these peers.
pub read_peers-compact :
    (n k : ℕ) (ps : List (ℕ × ℕ))
    → length ps ≤ n
    → All IsPeer ps
    → read_peers n (compact ps ++ replicate k 0) ≡ map address_of ps
unfolding compact
read_peers-compact n k [] h a = read_peers_zeros n k
read_peers-compact zero k (p ∷ ps) h a = elim h [ ]
read_peers-compact (suc n) k ((ip, port) ∷ ps) h ((low, small, real), a) =
    let whole : u32 ip ≡ ip = omega arith in
    let whole_port : port % 2 ^ 16 ≡ port = omega arith in
    read_peers-step n ip port (compact ps) (replicate k 0)
    ∙ rw (as_small_endian-big_endian_uint32 ip) (
        rw (as_small_endian-big_endian 2 (port % 2 ^ 16) (omega arith)) (
          rw whole (
            rw whole_port (
              peer_or_end-peer ip port (read_peers n (compact ps ++ replicate k 0)) real
              ∙ ap (◌∷◌ (address_of (ip, port))) (read_peers-compact n k ps (omega arith) a)))))

pub length-compact : (ps : List (ℕ × ℕ)) → length (compact ps) ≡ 6 * length ps
unfolding compact big_endian
length-compact [] = omega arith
length-compact ((ip, port) ∷ ps) = omega (arith, length-compact ps)

compact_peers-compact :
    (ps : List (ℕ × ℕ))
    → length ps ≤ 1024
    → All IsPeer ps
    → compact_peers (compact ps) ≡ map address_of ps
unfolding compact_peers
compact_peers-compact ps l a =
    rw (take-all (compact ps) (6 * 1024) (omega (arith, length-compact ps)))
      (read_peers-compact 1024 (6 * 1024 - length (compact ps)) ps l a)

module _ (fs : Fields) (s : List ℕ) (e : last_field (bytes "peers") fs ≡ some (string s)) where
  abbrev b : Bencode
  b = parsed false (dictionary fs)

  peers_lookup : lookup (entries false fs end) (bytes "peers") ≡ some (string_target s)
  peers_lookup =
      lookup-entries false fs (bytes "peers") ∙ ap (tree_of false) e ∙ unfold tree in refl

  root_deref : deref [] b.root ≡ some (dictionary_target (entries false fs end) [] [])
  unfolding deref tree
  root_deref = refl

  to_peers : index_key (focus b []) (bytes "peers") ≡ ok (focus b (at_key (bytes "peers") ∷ []))
  to_peers =
      index_key-focus b [] (entries false fs end) [] [] (bytes "peers") (string_target s) root_deref
        peers_lookup

  peers_deref : deref (at_key (bytes "peers") ∷ []) b.root ≡ some (string_target s)
  peers_deref =
      deref-key b [] (entries false fs end) [] [] (bytes "peers") (string_target s) root_deref
        peers_lookup

  peers_string-parsed : peers_string (focus b []) ≡ ok (some s)
  unfolding peers_string
  peers_string-parsed = rw to_peers (
      rw (type_of-focus b (at_key (bytes "peers") ∷ []) (string_target s) peers_deref)
        (rw to_peers (rw (as_str-focus b (at_key (bytes "peers") ∷ []) s peers_deref) refl)))

-- `http_announce` on a response that is a dictionary whose peers are the compact form of at most
-- 1024 peers, with the zeros that `get_request` leaves behind it: these peers are put behind those
-- that the tracker had, and nothing else of it changes.
pub read_response-compact :
    (fs : Fields) (ps : List (ℕ × ℕ)) (zeros : ℕ) (t : Tracker)
    → IsSupported (dictionary fs)
    → last_field (bytes "peers") fs ≡ some (string (compact ps))
    → length ps ≤ 1024
    → All IsPeer ps
    → read_response (encode (dictionary fs) ++ replicate zeros 0) t
      ≡ (none, with_peers (map address_of ps) t)
unfolding read_response
read_response-compact fs ps zeros t h e l a =
    rw (from_buffer-encode_zeros false (dictionary fs) zeros h, read_response)
      (rw (peers_string-parsed fs (compact ps) e) (rw (compact_peers-compact ps l a) refl))
