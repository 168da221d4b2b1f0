-- ===== src/Network/TrackerRuns.antt =====
-- The theorems about source/network/tracker.cpp at concrete inputs.
use torr.Network.Samples.{hash, source, ours}
use torr.Network.Tracker.Announcing.{answering, served, announce-served}
use torr.Network.Tracker.Announce.{announce}
use torr.Prelude.{
  ℕ, true, List, [], ◌∷◌, ◌++◌, map, none, some, bytes, ◌≡◌, refl, replicate, arith, length,
  bytes_eq,
}
use torr.Bencode.Access.{last_field}
use torr.Bencode.Grammar.{Fields, field, no_fields, string, dictionary, encode}
use torr.Network.Endian.{big_endian}
use torr.Network.Tracker.{Tracker}
use torr.Network.Tracker.Announce.{with_peers, read_response}
use torr.Network.Tracker.Peers.{compact, address_of, read_response-compact}
use torr.Uri.Url.{http, udp}

abbrev two_peers : List (ℕ × ℕ)
two_peers = (2130706433, 6881) ∷ (16843009, 80) ∷ []

twelve : length (compact two_peers) ≡ 12
unfolding compact big_endian
twelve = refl

abbrev tracker : Tracker
tracker = record {
  tracker_as_url = record { protocol = http; host = []; path = []; query = []; port = 80 };
  tracker_response = record { peer_addresses = []; interval = 0; leechers = 0; seeders = 0 };
  endpoint = record { protocol = http; ip_address = 0; port = 80 };
  has_endpoint = true;
  tracker_as_string = bytes "http://a/announce";
  announce_transaction_identifier = 0;
  announce_connection_identifier = 0;
}

abbrev response : Fields
response = field (bytes "peers") (string (compact two_peers)) no_fields

read_response-compact_example :
    read_response (encode (dictionary response) ++ replicate 3 0) tracker
    ≡ (none, with_peers (map address_of two_peers) tracker)
unfolding last_field bytes_eq
read_response-compact_example =
    read_response-compact response two_peers 3 tracker (omega (arith, twelve)) refl (omega arith)
      (omega arith)

-- The tracker, where its endpoint is known.
abbrev known : Tracker
known = record tracker {
  endpoint = record { protocol = udp; ip_address = 1; port = 80 };
  has_endpoint = true;
}

announce-served_example :
    announce
      (λ (s : List ℕ). none)
      0
      (λ (s : List ℕ). none)
      (λ (s : List ℕ). none)
      (λ (s : List ℕ). none)
      1000
      1001
      (some (answering 1000 1001 77 1800 3 4 two_peers))
      ours
      known
    ≡ (none, served 1001 77 1800 two_peers known)
announce-served_example =
    announce-served 1000 1001 77 1800 3 4 two_peers hash source ours known refl refl (omega arith)
      (omega arith) (omega arith) (omega arith) (λ (s : List ℕ). none) 0 (λ (s : List ℕ). none)
      (λ (s : List ℕ). none) (λ (s : List ℕ). none) refl refl
