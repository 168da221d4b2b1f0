-- ===== src/Network/Peer/Framing.antt =====
-- source/network/peer/peer.cpp: what `torrent_peer` sends in answer to what it receives.
use torr.Prelude.{
  ℕ, zero, suc, ◌+◌, ◌*◌, ◌≤◌, List, [], ◌∷◌, ◌++◌, Option, none, some, ◌≡◌, refl, ap, ◌∙◌,
  append_assoc, arith, u32, inl, inr, ◌⊎◌, length, take, drop, All, take-all, leb, Bool-cases,
  get_or,
}
use torr.Network.Endian.{as_small_endian, big_endian, big_endian_from}
use torr.Network.Socket.{Socket, Event, segment, failure, closed, send, receive}
use torr.Network.Peer.State.{TorrentPeer, Piece}
use torr.Network.Peer.Send.{
  interested, message, transmit, send_message_interested, send_message_have, send_message_request,
  request_payload, request_blocks,
}

-- A message: the four bytes of the length count the bytes behind them.
abbrev pub IsFrame : List ℕ → Type 0
IsFrame xs = length xs ≡ 4 + as_small_endian (take 4 xs)

-- The code behind the length: interested, have or request.
abbrev pub IsOurs : ℕ → Type 0
IsOurs n = (n ≡ 2) ⊎ (n ≡ 4) ⊎ (n ≡ 6)

-- The answer to a keep alive: five bytes with the length 0.
abbrev pub IsKeepAlive : List ℕ → Type 0
IsKeepAlive xs = (length xs ≡ 5) × (as_small_endian (take 4 xs) ≡ 0)

abbrev pub IsWhole : List ℕ → Type 0
IsWhole xs = (IsFrame xs × IsOurs (get_or (drop 4 xs) 0 0)) ⊎ IsKeepAlive xs

-- A `send` that fails, or accepts seventeen bytes, the longest message, at least.
abbrev pub Accepts : Option ℕ → Type 0
Accepts none = Unit {0}
Accepts (some n) = 17 ≤ n

All-snoc :
    (xss : List (List ℕ)) (xs : List ℕ)
    → All IsWhole xss
    → IsWhole xs
    → All IsWhole (xss ++ xs ∷ [])
All-snoc [] xs h k = (k, tt)
All-snoc (ys ∷ xss) xs (h, hs) k = (h, All-snoc xss xs hs k)

module _ (before : List (List ℕ)) where
  -- What has been sent since is whole, and so is what will be.
  abbrev pub SendsWhole : Socket → Type 0
  SendsWhole s =
      ((since : List (List ℕ)) × (s.sent ≡ before ++ since) × All IsWhole since)
      × All Accepts s.accepts

  send-SendsWhole :
      (s : Socket) (xs : List ℕ)
      → IsWhole xs
      → length xs ≤ 17
      → SendsWhole s
      → SendsWhole (send s xs).1
  unfolding send
  send-SendsWhole s xs w l ((since, e, all), accepts) = given s.accepts accepts
    where
      given :
          (script : List (Option ℕ))
          → All Accepts script
          → SendsWhole (send (record s { accepts = script }) xs).1
      given [] a = ((since, e, all), a)
      given (none ∷ rest) (a, others) = ((since, e, all), others)
      given (some n ∷ rest) (a, others) = (
        (
          since ++ take n xs ∷ [],
          ap (λ (sent : List (List ℕ)). sent ++ take n xs ∷ []) e
              ∙ append_assoc before since (take n xs ∷ []),
          All-snoc since (take n xs) all (rw (take-all xs n (omega arith)) w),
        ),
        others,
      )

  pub receive-SendsWhole : (s : Socket) (n : ℕ) → SendsWhole s → SendsWhole (receive s n).1
  unfolding receive
  receive-SendsWhole s n h = given s.incoming
    where
      given : (events : List Event) → SendsWhole (receive (record s { incoming = events }) n).1
      given [] = h
      given (failure ∷ rest) = h
      given (closed ∷ rest) = h
      given (segment xs ∷ rest) = elim (Bool-cases (leb (length xs) n)) [
        | inl e ↦ rw e h
        | inr e ↦ rw e h
      ]

  -- The peer whose connection carries whole messages.
  abbrev pub SpeaksWhole : TorrentPeer → Type 0
  SpeaksWhole t = SendsWhole t.tcp

  pub send_message_interested-SpeaksWhole :
      (t : TorrentPeer) → SpeaksWhole t → SpeaksWhole (send_message_interested t).1
  unfolding send_message_interested message big_endian big_endian_from
  send_message_interested-SpeaksWhole t =
      send-SendsWhole t.tcp (message 1 interested) (inl (refl, inl refl)) (omega arith)

  pub send_message_have-SpeaksWhole :
      (t : TorrentPeer) (piece : Piece) → SpeaksWhole t → SpeaksWhole (send_message_have t piece).1
  unfolding send_message_have message big_endian big_endian_from
  send_message_have-SpeaksWhole t piece =
      send-SendsWhole t.tcp _ (inl (refl, inr (inl refl))) (omega arith)

  pub send_message_request-SpeaksWhole :
      (t : TorrentPeer) (offset : ℕ) → SpeaksWhole t → SpeaksWhole (send_message_request t offset).1
  unfolding send_message_request request_payload message big_endian big_endian_from
  send_message_request-SpeaksWhole t offset =
      send-SendsWhole t.tcp (request_payload t.download_piece offset) (inl (refl, inr (inr refl)))
        (omega arith)

  pub transmit-SpeaksWhole :
      (t : TorrentPeer) (xs : List ℕ)
      → IsWhole xs
      → length xs ≤ 17
      → SpeaksWhole t
      → SpeaksWhole (transmit t xs).1
  transmit-SpeaksWhole t xs w l h = send-SendsWhole t.tcp xs w l h

  pub request_blocks-SpeaksWhole :
      (n i : ℕ) (t : TorrentPeer) → SpeaksWhole t → SpeaksWhole (request_blocks n i t)
  unfolding request_blocks
  request_blocks-SpeaksWhole zero i t h = h
  request_blocks-SpeaksWhole (suc n) i t h =
      request_blocks-SpeaksWhole n (suc i) (send_message_request t (u32 (16384 * i))).1
        (send_message_request-SpeaksWhole t (u32 (16384 * i)) h)
