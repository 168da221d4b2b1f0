-- ===== src/Network/Http/Requests.antt =====
-- source/network/socket/http.cpp: what `get_request` returns for a response that arrives in segments.
use torr.Prelude.{
  ℕ, zero, suc, ◌+◌, ◌-◌, ◌<◌, ◌≤◌, true, false, List, [], ◌∷◌, ◌++◌, append_assoc, append-nil, map,
  Option, some, ok, Result, ◌≡◌, refl, sym, ap, ◌∙◌, arith, length, length-append, take,
  take-append, take-all, drop, replicate, length-replicate, All, leb-le, resized, ◌==◌,
}
use torr.Network.Socket.{Event, segment, closed, send, receive}
use torr.Network.Peer.Blocks.{concat, receive-segment}
use torr.Network.Http.{
  Http, HttpError, http_read, http_write, write_at, read_all, get_request, request_of, strip_header,
  header, IsLine, strip_header-header,
}

drop-behind : (xs ys : List ℕ) (n : ℕ) → drop (length xs + n) (xs ++ ys) ≡ drop n ys
drop-behind [] ys n = let e : 0 + n ≡ n = omega arith in rw e refl
drop-behind (x ∷ xs) ys n =
    let e : length (x ∷ xs) + n ≡ suc (length xs + n) = omega arith in
    ap (λ (m : ℕ). drop m (x ∷ xs ++ ys)) e ∙ drop-behind xs ys n

drop-zeros : (n k : ℕ) → drop n (replicate k 0) ≡ replicate {A = ℕ} (k - n) 0
drop-zeros zero k = let e : k - 0 ≡ k = omega arith in rw e refl
drop-zeros (suc n) zero = let e : 0 - suc n ≡ 0 = omega arith in rw e refl
drop-zeros (suc n) (suc k) = let e : suc k - suc n ≡ k - n = omega arith in rw e (drop-zeros n k)

append-zeros : (n k m : ℕ) → n + k ≡ m → replicate n 0 ++ replicate k 0 ≡ replicate {A = ℕ} m 0
append-zeros zero k m e = ap (λ (m : ℕ). replicate {A = ℕ} m 0) (omega (arith, e))
append-zeros (suc n) k zero e = absurd (omega (arith, e))
append-zeros (suc n) k (suc m) e = ap (◌∷◌ 0) (append-zeros n k m (omega (arith, e)))

abbrev pub zeros : List ℕ
zeros = replicate 1024 0

length-zeros : length zeros ≡ 1024
length-zeros = length-replicate {A = ℕ} 1024 0

-- Not empty, and read by one call.
abbrev pub IsChunk : List ℕ → Type 0
IsChunk xs = (0 < length xs) × (length xs ≤ 1024)

-- The request with these events ahead of it and these bytes received.
abbrev pub holding : Http → List Event → List ℕ → Http
holding h events bytes = record h { tcp = record h.tcp { incoming = events }; received = bytes }

-- The vector behind what the loop has received: the bytes so far and 1024 zeros.
window :
    (front xs : List ℕ)
    → length xs ≤ 1024
    → take (length front) (front ++ zeros) ++ xs ++ drop (length front + length xs) (front ++ zeros)
      ≡ front ++ xs ++ replicate (1024 - length xs) 0
window front xs h =
    rw (take-append front zeros)
      (rw (drop-behind front zeros (length xs)) (rw (drop-zeros (length xs) 1024) refl))

length-window :
    (front xs : List ℕ)
    → length xs ≤ 1024
    → length (front ++ xs ++ replicate {A = ℕ} (1024 - length xs) 0) ≡ length front + 1024
length-window front xs h =
    length-append (front ++ xs) (replicate (1024 - length xs) 0)
    ∙ rw (length-replicate {A = ℕ} (1024 - length xs) 0) (rw (length-append front xs) (omega arith))

resized-window :
    (front xs : List ℕ)
    → length xs ≤ 1024
    → (let written = front ++ xs ++ replicate (1024 - length xs) 0 in
        resized written (length written + length xs) ≡ front ++ xs ++ zeros)
resized-window front xs h =
    let written : List ℕ = front ++ xs ++ replicate (1024 - length xs) 0 in
    let back : length written + length xs - length written ≡ length xs = omega arith in
    rw (take-all written (length written + length xs) (omega arith)) (
      rw back (
        append_assoc (front ++ xs) (replicate (1024 - length xs) 0) (replicate (length xs) 0)
        ∙ ap (◌++◌ (front ++ xs)) (append-zeros (1024 - length xs) (length xs) 1024 (omega arith))))

write_at-window :
    (front xs : List ℕ)
    → length xs ≤ 1024
    → write_at (front ++ zeros) (length front) xs
      ≡ ok (front ++ xs ++ replicate (1024 - length xs) 0)
unfolding write_at
write_at-window front xs h =
    let fits : length front + length xs ≤ length (front ++ zeros) =
      omega (arith, length-append front zeros, length-zeros) in
    rw (leb-le fits) (ap ok (window front xs h))

read_all-step :
    (fuel offset x : ℕ) (h next : Http) (xs written : List ℕ) (out : Result HttpError Http)
    → http_read h 1024 ≡ ok (x ∷ xs, next)
    → write_at next.received offset (x ∷ xs) ≡ ok written
    → read_all fuel
        (offset + length (x ∷ xs))
        (record next { received = resized written (length written + length (x ∷ xs)) })
      ≡ out
    → read_all (suc fuel) offset h ≡ out
unfolding read_all
read_all-step fuel offset x h next xs written out r w e = rw (r, read_all) (rw w e)

read_all-end :
    (fuel offset : ℕ) (h next : Http)
    → http_read h 1024 ≡ ok ([], next)
    → read_all (suc fuel) offset h ≡ ok next
unfolding read_all
read_all-end fuel offset h next r = rw (r, read_all) refl

http_read-segment :
    (h : Http) (xs bytes : List ℕ) (events : List Event)
    → length xs ≤ 1024
    → http_read (holding h (segment xs ∷ events) bytes) 1024 ≡ ok (xs, holding h events bytes)
unfolding http_read
http_read-segment h xs bytes events l =
    let e = receive-segment h.tcp xs events 1024 l in rw (e, http_read) (rw e refl)

http_read-closed :
    (h : Http) (bytes : List ℕ) (events : List Event)
    → http_read (holding h (closed ∷ events) bytes) 1024
      ≡ ok ([], holding h (closed ∷ events) bytes)
unfolding http_read receive
http_read-closed h bytes events = refl

-- The loop of `get_request` keeps every byte that arrives, in its order and without a write outside
-- of the vector, however the bytes are divided into segments of at most 1024, and ends when the
-- connection closes after one round more than there are segments, with 1024 zeros behind them.
pub read_all-segments :
    (fuel : ℕ) (h : Http) (front : List ℕ) (chunks : List (List ℕ)) (events : List Event)
    → All IsChunk chunks
    → length chunks < fuel
    → read_all fuel
        (length front)
        (holding h (map segment chunks ++ closed ∷ events) (front ++ zeros))
      ≡ ok (holding h (closed ∷ events) (front ++ concat chunks ++ zeros))
read_all-segments zero h front chunks events a f = absurd (omega (arith, f))
read_all-segments (suc fuel) h front [] events a f =
    read_all-end fuel (length front) (holding h (closed ∷ events) (front ++ zeros))
      (holding h (closed ∷ events) (front ++ zeros)) (http_read-closed h (front ++ zeros) events)
    ∙ ap (λ (v : List ℕ). ok (holding h (closed ∷ events) (v ++ zeros))) (sym (append-nil front))
read_all-segments (suc fuel) h front ([] ∷ chunks) events ((p, l), a) f = elim p [ ]
read_all-segments (suc fuel) h front ((x ∷ xs) ∷ chunks) events ((p, l), a) f =
    let behind : List Event = map segment chunks ++ closed ∷ events in
    read_all-step fuel (length front) x (holding h (segment (x ∷ xs) ∷ behind) (front ++ zeros))
      (holding h behind (front ++ zeros)) xs
      (front ++ (x ∷ xs) ++ replicate (1024 - length (x ∷ xs)) 0) _
      (http_read-segment h (x ∷ xs) (front ++ zeros) behind l) (write_at-window front (x ∷ xs) l)
      (rw (resized-window front (x ∷ xs) l) (
        rw (sym (length-append front (x ∷ xs))) (
          read_all-segments fuel h (front ++ x ∷ xs) chunks events a (omega arith)
          ∙ ap (λ (v : List ℕ). ok (holding h (closed ∷ events) (v ++ zeros)))
              (append_assoc front (x ∷ xs) (concat chunks)))))

get_request-step :
    (fuel n : ℕ) (h asked full : Http)
    → h.is_connected ≡ true
    → http_write h (request_of h.url) ≡ ok (suc n, asked)
    → read_all fuel 0 (record asked { received = resized asked.received 1024 }) ≡ ok full
    → get_request fuel h
      ≡ ok (strip_header full.received, record full { received = strip_header full.received })
unfolding get_request
get_request-step fuel n h asked full c w r =
    let more : (suc n == 0) ≡ false = ground arith in
    rw (w, get_request) (rw r (rw c (rw more refl)))

-- The connected http that has received nothing, whose socket accepts so many bytes.
abbrev pub ready : Http → ℕ → List (Option ℕ) → List Event → Http
ready h n accepts events = record h {
  tcp = record h.tcp { incoming = events; accepts = some n ∷ accepts };
  received = [];
  is_connected = true;
}

-- Behind the request: what the socket has sent and what is left.
abbrev pub answered : Http → ℕ → List (Option ℕ) → List Event → List ℕ → Http
answered h n accepts events bytes = record h {
  tcp = record {
    incoming = events;
    accepts = accepts;
    sent = h.tcp.sent ++ take n (request_of h.url) ∷ [];
  };
  received = bytes;
  is_connected = true;
}

http_write-ready :
    (h : Http) (n : ℕ) (accepts : List (Option ℕ)) (events : List Event)
    → http_write (ready h n accepts events) (request_of h.url)
      ≡ ok (n, answered h n accepts events [])
unfolding http_write send
http_write-ready h n accepts events = refl

-- `get_request` over a connection on which a response arrives in segments of at most 1024 bytes,
-- however its lines and its body are divided among them, and which is then closed: the request is
-- sent, and the body comes back whole and in order, with the 1024 zeros behind it that the loop
-- leaves. No write is outside of the vector, and the loop ends.
pub get_request-response :
    (fuel n : ℕ) (h : Http) (accepts : List (Option ℕ)) (events : List Event)
    (chunks : List (List ℕ)) (line : ℕ × List ℕ) (lines : List (ℕ × List ℕ)) (body : List ℕ)
    → All IsChunk chunks
    → length chunks < fuel
    → IsLine line
    → All IsLine lines
    → concat chunks ≡ header (line ∷ lines) ++ 13 ∷ 10 ∷ body
    → get_request fuel (ready h (suc n) accepts (map segment chunks ++ closed ∷ events))
      ≡ ok (body ++ zeros, answered h (suc n) accepts (closed ∷ events) (body ++ zeros))
get_request-response fuel n h accepts events chunks line lines body a f l ls e =
    let behind : List Event = map segment chunks ++ closed ∷ events in
    let full : Http = answered h (suc n) accepts (closed ∷ events) (concat chunks ++ zeros) in
    let left : strip_header (concat chunks ++ zeros) ≡ body ++ zeros = rw e (
      rw (append_assoc (header (line ∷ lines)) (13 ∷ 10 ∷ body) zeros)
        (strip_header-header line lines (body ++ zeros) l ls)) in
    get_request-step fuel n (ready h (suc n) accepts behind) (answered h (suc n) accepts behind [])
      full refl (http_write-ready h (suc n) accepts behind)
      (read_all-segments fuel (answered h (suc n) accepts behind []) [] chunks events a f)
    ∙ ap (λ (v : List ℕ). ok (v, answered h (suc n) accepts (closed ∷ events) v)) left
