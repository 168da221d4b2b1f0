-- ===== src/Network/Http.antt =====
-- source/network/socket/http.cpp. The transport is a socket's script, as for tcp, also where it runs
-- over openssl: the two differ in what a failed call gives. The resolving of a host, the connection
-- and the handshake of openssl are parameters.
pub mod Requests
pub mod Fetch
mod Runs
use torr.Prelude.{
  ℕ, zero, suc, ◌-◌, ◌+◌, Bool, true, false, List, [], ◌∷◌, ◌++◌, append_assoc, Option, none, some,
  Result, ok, err, ◌>>=◌, ◌≡◌, ◌≢◌, refl, ap, ◌∙◌, arith, if◌then◌else◌, ◌==◌, not, All, bytes,
  length, take, drop, leb, resized,
}
use torr.Network.Socket.{Socket, send, receive}
use torr.Uri.Url.{Url}

-- The messages of the errors; the exception of `value`; a write outside the buffer; and the fuel of
-- the loop over what is received.
pub data HttpError : Type 0 where
  invalid_url unresolved_host unconnected_socket ssl_failed not_connected send_failed : HttpError
  bad_expected out_of_bounds out_of_fuel : HttpError

pub record Http : Type 0 where
  pub url : Url
  pub tcp : Socket
  pub received : List ℕ
  pub port : ℕ
  pub is_connected : Bool

-- `clear`, which leaves `m_is_connected` as it is.
abbrev pub clear : Http → Http
clear h = record h { tcp = record { incoming = []; accepts = []; sent = [] }; received = [] }

-- What is outside of `connect`: the address of a host, the connection to an address and a port, and
-- whether `SSL_connect` succeeds.
pub record Internet : Type 0 where
  pub resolve : List ℕ → Option ℕ
  pub open_socket : ℕ → ℕ → Option Socket
  pub ssl_connect : ℕ → Bool

-- `connect` behind the resolving of the host.
unfoldable pub connect_to : Internet → ℕ → Http → Option HttpError × Http
connect_to internet address h = elim (internet.open_socket address h.port) [
  | none ↦ (some unconnected_socket, h)
  | some s ↦
      let opened = record h { tcp = s } in
      if h.port == 443
      then (if internet.ssl_connect address
          then (none, record opened { is_connected = true })
          else (some ssl_failed, opened))
      else (none, record opened { is_connected = true })
]

-- `connect`
unfoldable pub connect : Internet → Http → Option HttpError × Http
connect internet h =
    let begun = record (if h.is_connected then clear h else h) { port = h.url.port } in
    if length h.url.host == 0
    then (some invalid_url, begun)
    else (elim (internet.resolve h.url.host) [
      | none ↦ (some unresolved_host, begun)
      | some address ↦ connect_to internet address begun
    ])

-- `tcp_write` of `get_request`: how much was sent.
unfoldable pub http_write : Http → List ℕ → Result HttpError (ℕ × Http)
http_write h xs =
    let (sent, s) = send h.tcp xs in
    let next = record h { tcp = s } in
    elim sent [
      | some n ↦ ok (n, next)
      | none ↦ if h.port == 443 then ok (0, next) else err bad_expected
    ]

-- `tcp_receive` of `get_request`: what has been read.
unfoldable pub http_read : Http → ℕ → Result HttpError (List ℕ × Http)
http_read h n =
    let (read, s) = receive h.tcp n in
    let next = record h { tcp = s } in
    elim read [
      | some xs ↦ ok (xs, next)
      | none ↦ if h.port == 443 then ok ([], next) else err bad_expected
    ]

-- The text of the request.
unfoldable pub request_of : Url → List ℕ
request_of u =
    bytes "GET "
    ++ (u.path
        ++ (u.query
            ++ (bytes " HTTP/1.1"
                ++ 13 ∷ 10 ∷ bytes "Host: "
                ++ (u.host ++ 13 ∷ 10 ∷ bytes "Connection: close" ++ 13 ∷ 10 ∷ 13 ∷ 10 ∷ []))))

-- A write into the vector of what is received.
unfoldable pub write_at : List ℕ → ℕ → List ℕ → Result HttpError (List ℕ)
write_at old i xs =
    if leb (i + length xs) (length old)
    then ok (take i old ++ xs ++ drop (i + length xs) old)
    else err out_of_bounds

-- The loop of `get_request` over what is received, on fuel.
unfoldable pub read_all : ℕ → ℕ → Http → Result HttpError Http
read_all zero offset h = err out_of_fuel
read_all (suc fuel) offset h = http_read h 1024 >>= λ (xs, next). elim xs [
  | [] ↦ ok next
  | x ∷ rest ↦ do
    written ← write_at next.received offset (x ∷ rest)
    read_all fuel (offset + length (x ∷ rest))
        (record next { received = resized written (length written + length (x ∷ rest)) })
]

-- `header_end` after a byte.
abbrev pub count_line_end : ℕ → ℕ → ℕ
count_line_end left c = if c == 10 then left - 1 else if not (c == 13) then 2 else left

-- The loop over the bytes: what is behind the end of the header, if it is found.
unfoldable pub find_body : ℕ → List ℕ → Option (List ℕ)
find_body left [] = none
find_body left (c ∷ cs) =
    let next = count_line_end left c in
    let rest = find_body next cs in if next == 0 then some cs else rest

-- The data that `get_request` returns, from the data that it has received.
unfoldable pub strip_header : List ℕ → List ℕ
strip_header received = elim (find_body 2 received) [ none ↦ received | some body ↦ body ]

-- `get_request`, with what it leaves.
unfoldable pub get_request : ℕ → Http → Result HttpError (List ℕ × Http)
get_request fuel h = if not h.is_connected then err not_connected else (do
  (sent, asked) ← http_write h (request_of h.url)
  if sent == 0 then err send_failed else (do
    full ← read_all fuel 0 (record asked { received = resized asked.received 1024 })
    let body = strip_header full.received
    ok (body, record full { received = body })))

-- A line of a header: a first character and others, none of them a line end.
abbrev IsText : ℕ → Type 0
IsText c = (c ≢ 10) × (c ≢ 13)

abbrev pub IsLine : ℕ × List ℕ → Type 0
IsLine (c, cs) = IsText c × All IsText cs

-- The lines of a header, each with its line end.
abbrev pub header : List (ℕ × List ℕ) → List ℕ
header [] = []
header ((c, cs) ∷ lines) = c ∷ cs ++ 13 ∷ 10 ∷ header lines

find_body-text : (left c : ℕ) (cs : List ℕ) → IsText c → find_body left (c ∷ cs) ≡ find_body 2 cs
unfolding find_body
find_body-text left c cs (h, k) =
    let e : (c == 10) ≡ false = ground arith in
    let e' : (c == 13) ≡ false = ground arith in rw e (rw e' refl)

find_body-line :
    (cs rest : List ℕ) → All IsText cs → find_body 2 (cs ++ 13 ∷ 10 ∷ rest) ≡ find_body 1 rest
find_body-line [] rest a = unfold find_body in refl
find_body-line (c ∷ cs) rest (h, a) =
    find_body-text 2 c (cs ++ 13 ∷ 10 ∷ rest) h ∙ find_body-line cs rest a

find_body-header :
    (lines : List (ℕ × List ℕ)) (body : List ℕ)
    → All IsLine lines
    → find_body 1 (header lines ++ 13 ∷ 10 ∷ body) ≡ some body
find_body-header [] body a = unfold find_body in refl
find_body-header ((c, cs) ∷ lines) body ((h, k), a) =
    find_body-text 1 c (cs ++ 13 ∷ 10 ∷ header lines ++ 13 ∷ 10 ∷ body) h
    ∙ ap (find_body 2) (append_assoc cs (13 ∷ 10 ∷ header lines) (13 ∷ 10 ∷ body))
    ∙ find_body-line cs (header lines ++ 13 ∷ 10 ∷ body) k
    ∙ find_body-header lines body a

-- Of a response with a status line, further lines that are not empty, an empty line and a body,
-- exactly the body is left, whatever it holds.
pub strip_header-header :
    (line : ℕ × List ℕ) (lines : List (ℕ × List ℕ)) (body : List ℕ)
    → IsLine line
    → All IsLine lines
    → strip_header (header (line ∷ lines) ++ 13 ∷ 10 ∷ body) ≡ body
unfolding strip_header
strip_header-header (c, cs) lines body (h, k) a =
    let found : find_body 2 (header ((c, cs) ∷ lines) ++ 13 ∷ 10 ∷ body) ≡ some body =
      find_body-text 2 c (cs ++ 13 ∷ 10 ∷ header lines ++ 13 ∷ 10 ∷ body) h
      ∙ ap (find_body 2) (append_assoc cs (13 ∷ 10 ∷ header lines) (13 ∷ 10 ∷ body))
      ∙ find_body-line cs (header lines ++ 13 ∷ 10 ∷ body) k
      ∙ find_body-header lines body a in
    rw (found, strip_header) refl
