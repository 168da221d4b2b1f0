-- ===== src/Network/Peer/Safety.antt =====
-- source/network/peer/peer.cpp: the invariant of the piece that is being downloaded, which keeps
-- `receive_message_block` within the vector.
use torr.Prelude.{
  length-overwrite, length-resized, resized, ℕ, zero, suc, ◌+◌, ◌-◌, ◌^◌, ◌<◌, ◌≤◌, Bool, true,
  false, List, [], ◌∷◌, ◌++◌, Option, none, some, ok, err, ◌≡◌, refl, sym, ap, subst, inl, inr,
  arith, length, length-take, take, drop, ltb, leb, ltb→lt, Bool-cases, Option-cases, u64,
  replicate, ◌==◌, ◌>>=◌, if◌then◌else◌,
}
use torr.Network.Endian.{as_small_endian}
use torr.Network.Socket.{Event, segment, failure, closed, Socket, receive}
use torr.Network.Peer.State.{out_of_fuel, TorrentPeer}
use torr.Network.Peer.Send.{send_message_have, send_message_interested}
use torr.Network.Peer.Receive.{
  Message, Outcome, write_data, with_data, receive_data, finish_block, block_length, store_block,
  receive_message_block, overlay,
}
use torr.Network.Peer.Blocks.{receive_data-step}
use torr.Network.Peer.Buffers.{resize_data-in}

-- The vector of the piece holds what has been downloaded.
abbrev pub IsSound : TorrentPeer → Type 0
IsSound t = t.download_piece.downloaded ≤ length t.download_piece.piece_data

-- The operation stays within the vector and leaves the piece sound; it may still be waiting when the
-- fuel ends.
abbrev pub IsSafe : Outcome → Type 0
IsSafe (ok (r, t)) = IsSound t
IsSafe (err e) = e ≡ out_of_fuel

-- What holds of the loop: the vector keeps room for the block behind what has been downloaded.
abbrev HasRoom : ℕ → ℕ → Outcome → Type 0
HasRoom d n (ok (r, t)) =
    (t.download_piece.downloaded ≡ d) × (d + n ≤ length t.download_piece.piece_data)
HasRoom d n (err e) = e ≡ out_of_fuel

-- `receive` gives no more than it is asked for.
abbrev AtMost : ℕ → Option (List ℕ) → Type 0
AtMost n none = Unit {0}
AtMost n (some xs) = length xs ≤ n

receive_all-AtMost :
    (s : Socket) (events : List Event) (n : ℕ)
    → AtMost n (receive (record s { incoming = events }) n).0
unfolding receive
receive_all-AtMost s [] n = tt
receive_all-AtMost s (failure ∷ rest) n = tt
receive_all-AtMost s (closed ∷ rest) n = omega arith
receive_all-AtMost s (segment xs ∷ rest) n = elim (Bool-cases (leb (length xs) n)) [
  | inl e ↦ rw e (short (length xs) n e)
  | inr e ↦ rw e (omega (arith, length-take n xs))
]
  where
    short : (a b : ℕ) → leb a b ≡ true → a ≤ b
    short a b e = ground arith

receive-AtMost : (s : Socket) (n : ℕ) → AtMost n (receive s n).0
receive-AtMost s n = receive_all-AtMost s s.incoming n

write_data-length :
    (old : List ℕ) (i : ℕ) (xs : List ℕ)
    → i + length xs ≤ length old
    → (new : List ℕ) × (write_data old i xs ≡ ok new) × (length new ≡ length old)
unfolding write_data
write_data-length old i [] h = (old, refl, refl)
write_data-length old i (x ∷ xs) h = (
  take i old ++ (x ∷ xs) ++ drop (i + length (x ∷ xs)) old,
  rw (fits h) refl,
  length-overwrite i old (x ∷ xs) h,
)
  where
    fits : {a b : ℕ} → a ≤ b → leb a b ≡ true
    fits p = ground arith

receive_data-HasRoom :
    (fuel n offset : ℕ) (t : TorrentPeer)
    → offset ≤ n
    → t.download_piece.downloaded + n ≤ length t.download_piece.piece_data
    → HasRoom t.download_piece.downloaded n (receive_data fuel n offset t)
unfolding receive_data
receive_data-HasRoom zero n offset t h r = elim (Bool-cases (ltb offset n)) [
  | inl e ↦ rw e refl
  | inr e ↦ rw e (refl, r)
]
receive_data-HasRoom (suc fuel) n offset t h r = elim (Bool-cases (ltb offset n)) [
  | inr e ↦ rw (e, receive_data) (refl, r)
  | inl e ↦ elim (Option-cases (receive t.tcp (n - offset)).0) [
    | inl none_read ↦ rw (e, receive_data) (rw none_read (refl, r))
    | inr (xs, read) ↦
        let old = t.download_piece.piece_data in
        let start = t.download_piece.downloaded + offset in
        let few : length xs ≤ n - offset =
          subst (AtMost (n - offset)) read (receive-AtMost t.tcp (n - offset)) in
        let below : offset < n = ltb→lt offset n e in
        let (new, written, size) = write_data-length old start xs (omega arith) in
        let s = (receive t.tcp (n - offset)).1 in
        subst (HasRoom t.download_piece.downloaded n)
          (sym (
            receive_data-step fuel n offset t xs new s _ below
              (ap (λ (o : Option (List ℕ)). (o, s)) read) written refl))
          (receive_data-HasRoom fuel n (offset + length xs) (with_data (record t { tcp = s }) new)
            (omega arith) (omega (arith, size)))
  ]
]

-- The end of the block keeps the piece sound.
finish_block-IsSound :
    (n : ℕ) (t : TorrentPeer)
    → t.download_piece.downloaded + n ≤ length t.download_piece.piece_data
    → t.download_piece.downloaded + n < 2 ^ 63
    → IsSafe (ok (finish_block n t))
unfolding finish_block send_message_have send_message_interested
finish_block-IsSound n t h l =
    let total = u64 (t.download_piece.downloaded + n) in
    elim (Bool-cases (leb t.download_piece.piece_size total)) [
      | inl e ↦ rw e (omega arith)
      | inr e ↦ rw e (omega arith)
    ]

abbrev ended : ℕ → Bool × TorrentPeer → Outcome
ended n (complete, t) = if complete then ok (finish_block n t) else ok (false, t)

ended-IsSafe : (d n : ℕ) (o : Outcome) → HasRoom d n o → d + n < 2 ^ 63 → IsSafe (o >>= ended n)
ended-IsSafe d n (err e) h l = h
ended-IsSafe d n (ok (true, t)) (e, h) l =
    finish_block-IsSound n t (omega (arith, e, h)) (omega (arith, e))
ended-IsSafe d n (ok (false, t)) (e, h) l = omega (arith, e, h)

store_block-IsSafe :
    (fuel n : ℕ) (t : TorrentPeer)
    → t.download_piece.downloaded + n < 2 ^ 63
    → IsSafe (store_block fuel n t)
unfolding store_block
store_block-IsSafe fuel n t l =
    let old = t.download_piece.piece_data in
    let d = t.download_piece.downloaded in
    let room : d + n ≤ length (resized old (d + n)) = omega (arith, length-resized old (d + n)) in
    rw (resize_data-in old (d + n) l) (
      ended-IsSafe d n (receive_data fuel n 0 (with_data t (resized old (d + n))))
        (receive_data-HasRoom fuel n 0 (with_data t (resized old (d + n))) (omega arith) room) l)

-- On a sound piece, a block message that is long enough for its payload never writes outside the
-- vector and leaves the piece sound, whatever arrives on the connection, fails or is missing. The
-- sizes together are below 2 ^ 63.
pub receive_message_block-IsSafe :
    (fuel : ℕ) (m : Message) (t : TorrentPeer)
    → 9 ≤ as_small_endian m.size
    → as_small_endian m.size < 2 ^ 32
    → t.download_piece.downloaded + as_small_endian m.size < 2 ^ 63
    → IsSound t
    → IsSafe (receive_message_block fuel m t)
unfolding receive_message_block block_length
receive_message_block-IsSafe fuel m t low high l h =
    let s = (receive t.tcp 8).1 in
    elim (Option-cases (receive t.tcp 8).0) [
      | inl e ↦ rw (e, receive_message_block) h
      | inr (xs, e) ↦
          let index = as_small_endian (take 4 (overlay xs (replicate 8 0))) in
          elim (Bool-cases (index == t.download_piece.piece_index)) [
            | inl same ↦
                rw (e, receive_message_block)
                  (rw same
                    (store_block-IsSafe fuel (block_length m) (record t { tcp = s }) (omega arith)))
            | inr other ↦ rw (e, receive_message_block) (rw other h)
          ]
    ]
