-- ===== src/Network/Tracker/Announce.antt =====
-- source/network/tracker.cpp: `string_to_endpoint`, `http_announce` and `announce`. What is outside
-- is a parameter: `sscanf`, the regular expression search, `gethostbyname`, and the request that
-- `http` makes of a url.
use torr.Prelude.{
  ℕ, ◌-◌, ◌*◌, Bool, true, false, List, [], ◌∷◌, ◌++◌, Option, none, some, Result, ok, err, ◌>>=◌,
  if◌then◌else◌, length, take, replicate, bytes,
}
use torr.Bencode.Number.{Fault}
use torr.Bencode.Target.{TargetType, strings}
use torr.Bencode.Parser.{Bencode, new_bencode, from_buffer}
use torr.Bencode.Access.{AccessFault, index_key, type_of, as_str}
use torr.Uri.Url.{UrlError, https, http, udp, tcp, wss, from_string, bytes_as_url_escaped_string}
use torr.Network.Peer.State.{Peer}
use torr.Network.Tracker.{push_peers, Tracker, PeerAddress, read_peers}
use torr.Network.Tracker.Transactions.{TrackerError, UdpSocket, hash_of, udp_announce}

pub data AnnounceError : Type 0 where
  empty_string unresolved_host not_implemented no_compact_peers http_error : AnnounceError
  url_error : UrlError → AnnounceError
  transaction_error : TrackerError → AnnounceError
  parse_fault : Fault → AnnounceError
  access_fault : AccessFault → AnnounceError

abbrev pub Announced : Type 0
Announced = Option AnnounceError × Tracker

-- The url that `http_announce` requests.
unfoldable pub announce_url : List ℕ → List ℕ → List ℕ → List ℕ
announce_url tracker hash id =
    tracker
    ++ bytes "?info_hash="
    ++ bytes_as_url_escaped_string hash
    ++ bytes "&peer_id="
    ++ bytes_as_url_escaped_string id
    ++ bytes "&uploaded=0&downloaded=0&left=0&compact=1&port=6881"

abbrev is_string_type : TargetType → Bool
is_string_type strings = true
is_string_type _ = false

-- The string of peers of a bencode response, or none where it is of another type.
unfoldable pub peers_string : Bencode → Result AccessFault (Option (List ℕ))
peers_string b = do
  peers ← index_key b (bytes "peers")
  (peers_type, b1) ← type_of peers
  if is_string_type peers_type
      then (do peers' ← index_key b1 (bytes "peers"); (s, b2) ← as_str peers'; ok (some s))
      else ok none

-- The peers of a compact string: at most 1024, behind the string zeros.
unfoldable pub compact_peers : List ℕ → List PeerAddress
compact_peers s =
    let copied = take (6 * 1024) s in
    read_peers 1024 (copied ++ replicate (6 * 1024 - length copied) 0)

abbrev pub with_peers : List PeerAddress → Tracker → Tracker
with_peers ps t = record t { tracker_response = push_peers ps t.tracker_response }

-- `http_announce` behind its request: unlike `udp_announce`, it keeps the peers it had.
unfoldable pub read_response : List ℕ → Tracker → Announced
read_response response t = elim (from_buffer (new_bencode false) response) [
  | err e ↦ (some (parse_fault e), t)
  | ok b ↦ elim (peers_string b) [
    | err e ↦ (some (access_fault e), t)
    | ok none ↦ (some no_compact_peers, t)
    | ok (some s) ↦ (none, with_peers (compact_peers s) t)
  ]
]

module _ (fetch : List ℕ → Option (List ℕ)) where
  -- `http_announce`
  unfoldable pub http_announce : Peer → Tracker → Announced
  http_announce ourself t = elim (hash_of ourself) [
    | err e ↦ (some (transaction_error e), t)
    | ok hash ↦ elim (fetch (announce_url t.tracker_as_string hash ourself.identifier)) [
      | none ↦ (some http_error, t)
      | some response ↦ read_response response t
    ]
  ]

module _ (scan : List ℕ → Option ℕ) (indeterminate : ℕ) (search : List ℕ → Option (List (List ℕ)))
    (resolve : List ℕ → Option ℕ) where
  -- `string_to_endpoint` behind the parsing of the url.
  unfoldable pub set_endpoint : List ℕ → Tracker → Announced
  set_endpoint s t =
      let ported = record t {
        endpoint = record t.endpoint {
          port = t.tracker_as_url.port;
          protocol = t.tracker_as_url.protocol;
        };
      } in
      elim (resolve t.tracker_as_url.host) [
        | none ↦ (some unresolved_host, ported)
        | some address ↦ (
          none,
          record ported {
            endpoint = record ported.endpoint { ip_address = address };
            has_endpoint = true;
            tracker_as_string = s;
          },
        )
      ]

  -- `string_to_endpoint`
  unfoldable pub string_to_endpoint : List ℕ → Tracker → Announced
  string_to_endpoint [] t = (some empty_string, t)
  string_to_endpoint (c ∷ cs) t =
      let (failed, u) = from_string scan indeterminate search t.tracker_as_url (c ∷ cs) in
      let parsed = record t { tracker_as_url = u } in
      elim failed [ some e ↦ (some (url_error e), parsed) | none ↦ set_endpoint (c ∷ cs) parsed ]

  module _ (fetch : List ℕ → Option (List ℕ)) (first second : ℕ) (socket : Option UdpSocket) where
    -- The `switch` of `announce`.
    unfoldable pub announce_by_protocol : Peer → Tracker → Announced
    announce_by_protocol ourself t = elim t.endpoint.protocol [
      | https ↦ http_announce fetch ourself t
      | http ↦ http_announce fetch ourself t
      | udp ↦
          let (failed, next) = udp_announce first second ourself t socket in
          elim failed [ none ↦ (none, next) | some e ↦ (some (transaction_error e), next) ]
      | tcp ↦ (some not_implemented, t)
      | wss ↦ (some not_implemented, t)
    ]

    -- `announce`
    unfoldable pub announce : Peer → Tracker → Announced
    announce ourself t =
        if t.has_endpoint
        then announce_by_protocol ourself t
        else (let (failed, next) = string_to_endpoint t.tracker_as_string t in
            elim failed [ some e ↦ (some e, next) | none ↦ announce_by_protocol ourself next ])
