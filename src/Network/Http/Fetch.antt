-- ===== src/Network/Http/Fetch.antt =====
-- source/network/socket/http.cpp: `from_url` and `from_string`, and source/network/tracker.cpp: the
-- request of `http_announce`, with what it announces when a tracker answers.
use torr.Prelude.{
  ℕ, suc, ◌<◌, ◌≤◌, inl, inr, Bool-cases, ==_iff, true, false, List, [], ◌∷◌, ◌++◌, map, Option,
  none, some, ok, err, ◌≡◌, refl, ap, ◌∙◌, arith, length, bytes, All, ◌==◌,
}
use torr.Bencode.Grammar.{string, dictionary, Fields, encode, IsSupported}
use torr.Bencode.Access.{last_field}
use torr.Uri.Url.{Url, UrlError}
use torr.Network.Socket.{Event, segment, closed, Socket}
use torr.Network.Peer.State.{Peer}
use torr.Network.Peer.Blocks.{concat}
use torr.Network.Tracker.{Tracker}
use torr.Network.Tracker.Announce.{announce_url, with_peers, http_announce}
use torr.Network.Tracker.Transactions.{hash_of}
use torr.Network.Tracker.Peers.{compact, IsPeer, address_of, read_response-compact}
use torr.Network.Http.{Http, HttpError, Internet, connect, connect_to, get_request, header, IsLine}
use torr.Network.Http.Requests.{zeros, IsChunk, answered, get_request-response}

-- `from_url`
unfoldable pub from_url : Internet → Url → Http → Option HttpError × Http
from_url internet u h = connect internet (record h { url = u })

-- A new `http`; what its url holds before it is parsed is given.
abbrev pub new_http : Url → Http
new_http u = record {
  url = u;
  tcp = record { incoming = []; accepts = []; sent = [] };
  received = [];
  port = 0;
  is_connected = false;
}

-- The parser of urls is `from_string` of the url at hand.
module _ (parse : Url → List ℕ → Option UrlError × Url) (internet : Internet) where
  -- `from_string`, which does not look at the error of the url.
  unfoldable pub from_string : List ℕ → Http → Option HttpError × Http
  from_string s h = let (failed, u) = parse h.url s in connect internet (record h { url = u })

  -- The request of `http_announce`: what `get_request` returns, if nothing fails.
  unfoldable pub fetch : ℕ → Url → List ℕ → Option (List ℕ)
  fetch fuel blank s =
      let (failed, h) = from_string s (new_http blank) in
      elim failed [
        | some e ↦ none
        | none ↦ elim (get_request fuel h) [ err e ↦ none | ok (body, next) ↦ some body ]
      ]

-- The `http` behind a connection to the socket.
abbrev reached : Url → Socket → Http
reached u s = record { url = u; tcp = s; received = []; port = u.port; is_connected = true }

connect_to-opened :
    (internet : Internet) (address : ℕ) (blank u : Url) (s : Socket)
    → internet.open_socket address u.port ≡ some s
    → (u.port ≡ 443 → internet.ssl_connect address ≡ true)
    → connect_to internet address (record (new_http blank) { url = u; port = u.port })
      ≡ (none, reached u s)
unfolding connect_to
connect_to-opened internet address blank u s o k = elim (Bool-cases (u.port == 443)) [
  | inl e ↦ let shaken = k ((==_iff u.port 443).0 e) in rw (o, connect_to) (rw e (rw shaken refl))
  | inr e ↦ rw (o, connect_to) (rw e refl)
]

connect-reached :
    (internet : Internet) (address : ℕ) (blank u : Url) (s : Socket)
    → 0 < length u.host
    → internet.resolve u.host ≡ some address
    → internet.open_socket address u.port ≡ some s
    → (u.port ≡ 443 → internet.ssl_connect address ≡ true)
    → connect internet (record (new_http blank) { url = u }) ≡ (none, reached u s)
unfolding connect
connect-reached internet address blank u s p r o k =
    let named : (length u.host == 0) ≡ false = ground arith in
    rw (named, connect) (rw r (connect_to-opened internet address blank u s o k))

module _ (parse : Url → List ℕ → Option UrlError × Url) (internet : Internet) where
  from_string-parsed :
      (blank u : Url) (request : List ℕ)
      → parse blank request ≡ (none, u)
      → from_string parse internet request (new_http blank)
        ≡ connect internet (record (new_http blank) { url = u })
  unfolding from_string
  from_string-parsed blank u request p =
      ap (λ (q : Option UrlError × Url). connect internet (record (new_http blank) { url = q.1 })) p

  fetch-step :
      (fuel : ℕ) (blank : Url) (request body : List ℕ) (h next : Http)
      → from_string parse internet request (new_http blank) ≡ (none, h)
      → get_request fuel h ≡ ok (body, next)
      → fetch parse internet fuel blank request ≡ some body
  unfolding fetch
  fetch-step fuel blank request body h next c g = rw (c, fetch) (rw c (rw g refl))

  -- `http_announce` from the url to the peers. Where the url of the announce is parsed, its host is
  -- not empty and is resolved, the connection (and, on port 443, the handshake) succeeds, some of
  -- the request is sent, and a response whose body is a bencoded dictionary with the compact form
  -- of at most 1024 peers arrives in segments of at most 1024 bytes before the connection closes,
  -- these peers are put behind those the tracker had, and nothing else of it changes.
  pub http_announce-response :
      (fuel n address : ℕ) (blank u : Url) (accepts : List (Option ℕ)) (events : List Event)
      (chunks : List (List ℕ)) (line : ℕ × List ℕ) (lines : List (ℕ × List ℕ)) (fs : Fields)
      (ps : List (ℕ × ℕ)) (hash : List ℕ) (ourself : Peer) (t : Tracker)
      → hash_of ourself ≡ ok hash
      → parse blank (announce_url t.tracker_as_string hash ourself.identifier) ≡ (none, u)
      → 0 < length u.host
      → internet.resolve u.host ≡ some address
      → internet.open_socket address u.port
        ≡ some (record {
          incoming = map segment chunks ++ closed ∷ events;
          accepts = some (suc n) ∷ accepts;
          sent = [];
        })
      → (u.port ≡ 443 → internet.ssl_connect address ≡ true)
      → All IsChunk chunks
      → length chunks < fuel
      → IsLine line
      → All IsLine lines
      → concat chunks ≡ header (line ∷ lines) ++ 13 ∷ 10 ∷ encode (dictionary fs)
      → IsSupported (dictionary fs)
      → last_field (bytes "peers") fs ≡ some (string (compact ps))
      → length ps ≤ 1024
      → All IsPeer ps
      → http_announce (fetch parse internet fuel blank) ourself t
        ≡ (none, with_peers (map address_of ps) t)
  unfolding http_announce
  http_announce-response fuel n address blank u accepts events chunks line lines fs ps hash ourself
        t target p host r o k a f l ls e supported last many real =
      let events' : List Event = map segment chunks ++ closed ∷ events in
      let s : Socket = record { incoming = events'; accepts = some (suc n) ∷ accepts; sent = [] } in
      let got =
        fetch-step fuel blank (announce_url t.tracker_as_string hash ourself.identifier)
          (encode (dictionary fs) ++ zeros) (reached u s)
          (answered (reached u s) (suc n) accepts (closed ∷ events)
            (encode (dictionary fs) ++ zeros))
          (from_string-parsed blank u (announce_url t.tracker_as_string hash ourself.identifier) p
            ∙ connect-reached internet address blank u s host r o k)
          (get_request-response fuel n (reached u s) accepts events chunks line lines
            (encode (dictionary fs)) a f l ls e) in
      rw (target, http_announce)
        (rw got (read_response-compact fs ps 1024 t supported last many real))
