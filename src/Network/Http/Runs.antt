-- ===== src/Network/Http/Runs.antt =====
-- Tests of source/network/socket/http.cpp, and its theorems at concrete inputs.
use torr.Prelude.{
  ℕ, true, false, List, [], ◌∷◌, ◌++◌, map, Option, none, some, bytes, bytes_eq, ◌≡◌, refl,
  replicate, arith, length,
}
use torr.Network.Endian.{big_endian}
use torr.Bitset
use torr.Bencode.Access.{last_field}
use torr.Bencode.Grammar.{Fields, field, no_fields, string, dictionary, encode, encode_string}
use torr.Uri.Url.{Url, http, UrlError, from_string, determine_protocol, determine_port, set_parts}
use torr.Bencode.Number.{is_digit, digits_value, decimal}
use torr.Network.Socket.{segment, closed}
use torr.Network.Peer.State.{Source, Peer}
use torr.Network.Tracker.{Tracker}
use torr.Network.Tracker.Announce.{with_peers, http_announce}
use torr.Network.Tracker.Peers.{compact, address_of}
use torr.Network.Http.{Http, Internet, header}
use torr.Network.Http.Fetch.{fetch, http_announce-response}

abbrev no_url : Url
no_url = record { protocol = http; host = []; path = []; query = []; port = 0 }

abbrev tracker_url : Url
tracker_url = record {
  protocol = http;
  host = bytes "a.b";
  path = bytes "/announce";
  query = bytes "?compact=1";
  port = 80;
}

abbrev request : Http
request = record {
  url = tracker_url;
  tcp = record { incoming = []; accepts = []; sent = [] };
  received = [];
  port = 80;
  is_connected = true;
}

abbrev status : ℕ × List ℕ
status = (b'H', bytes "TTP/1.1 200 OK")

abbrev lines : List (ℕ × List ℕ)
lines = (b'A', bytes ": b") ∷ []

-- The end of the header and the body are cut in the middle.
abbrev chunks : List (List ℕ)
chunks = (header (status ∷ lines) ++ 13 ∷ []) ∷ (10 ∷ 100 ∷ []) ∷ (10 ∷ 101 ∷ []) ∷ []

abbrev two_peers : List (ℕ × ℕ)
two_peers = (2130706433, 6881) ∷ (16843009, 80) ∷ []

abbrev response : Fields
response = field (bytes "peers") (string (compact two_peers)) no_fields

abbrev response_bytes : List ℕ
response_bytes = header (status ∷ lines) ++ 13 ∷ 10 ∷ encode (dictionary response)

-- The network on which the tracker answers with these bytes.
abbrev tracker_internet : Internet
tracker_internet = record {
  resolve = λ (host : List ℕ). some 1;
  open_socket = λ (address port : ℕ). some (record {
    incoming = map segment (response_bytes ∷ []) ++ closed ∷ [];
    accepts = some 100 ∷ [];
    sent = [];
  });
  ssl_connect = λ (address : ℕ). false;
}

-- The groups of the regular expression for the url of the announce.
abbrev groups : List (List ℕ)
groups =
    []
    ∷ []
    ∷ bytes "http"
    ∷ bytes "a.b"
    ∷ []
    ∷ bytes "80"
    ∷ []
    ∷ []
    ∷ bytes "/announce"
    ∷ bytes "?compact=1"
    ∷ []

abbrev parse : Url → List ℕ → Option UrlError × Url
parse = from_string (λ (s : List ℕ). none) 0 (λ (s : List ℕ). some groups)

abbrev source : Source
source = record { file_hash = some (replicate 20 7); piece_length = some 40000 }

abbrev ours : Peer
ours = record {
  download_target = some source;
  identifier = replicate 20 1;
  handshake = [];
  bitfield_pieces = Bitset.empty;
}

abbrev tracker : Tracker
tracker = record {
  tracker_as_url = tracker_url;
  tracker_response = record { peer_addresses = []; interval = 0; leechers = 0; seeders = 0 };
  endpoint = record { protocol = http; ip_address = 0; port = 80 };
  has_endpoint = true;
  tracker_as_string = bytes "http://a.b:80/announce";
  announce_transaction_identifier = 0;
  announce_connection_identifier = 0;
}

parsed : (s : List ℕ) → parse no_url s ≡ (none, tracker_url)
unfolding from_string determine_protocol determine_port bytes_eq set_parts is_digit digits_value
parsed s = refl

length-response_bytes : length response_bytes ≡ 49
unfolding compact big_endian encode_string encode decimal
length-response_bytes = refl

http_announce-response_example :
    http_announce (fetch parse tracker_internet 2 no_url) ours tracker
    ≡ (none, with_peers (map address_of two_peers) tracker)
unfolding last_field bytes_eq encode encode_string decimal compact big_endian
http_announce-response_example =
    http_announce-response parse tracker_internet 2 99 1 no_url tracker_url [] []
      (response_bytes ∷ []) status lines response two_peers (replicate 20 7) ours tracker refl
      (parsed _) (omega arith) refl refl (λ e. absurd (omega (arith, e)))
      (omega (arith, length-response_bytes)) (omega arith) (omega arith) (omega arith) refl
      (omega arith) refl (omega arith) (omega arith)
