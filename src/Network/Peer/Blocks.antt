-- ===== src/Network/Peer/Blocks.antt =====
-- source/network/peer/peer.cpp: what `receive_message_block` stores, and where it goes wrong.
use torr.Prelude.{
  take-all, take-overwrite, length-overwrite, leb-le, ltb-ge, length-resized, take-resized, ℕ, zero,
  suc, ◌+◌, ◌-◌, ◌^◌, ◌<◌, ◌≤◌, true, List, [], ◌∷◌, ◌++◌, append_assoc, append-nil, map, Option,
  some, ok, err, ◌≡◌, refl, sym, ap, subst, ◌∙◌, arith, length, length-append, take, drop,
  replicate, All, lt→ltb, u64,
}
use torr.Network.Endian.{as_small_endian}
use torr.Network.Socket.{Event, segment, closed, Socket, receive}
use torr.Network.Peer.State.{PeerFault, out_of_bounds, out_of_fuel, TorrentPeer}
use torr.Network.Peer.Receive.{
  Message, Outcome, write_data, resize_data, with_data, receive_data, block_length, store_block,
  finish_block,
}
use torr.Network.Peer.Buffers.{write_data-in, write_data-beyond, resize_data-in}

abbrev pub concat : List (List ℕ) → List ℕ
concat [] = []
concat (xs ∷ rest) = xs ++ concat rest

-- The peer with these events ahead on its connection.
abbrev pub arriving : TorrentPeer → List Event → TorrentPeer
arriving t events = record t { tcp = record t.tcp { incoming = events } }

abbrev pub NonEmpty : List ℕ → Type 0
NonEmpty xs = 0 < length xs

all_taken :
    (n offset : ℕ) (t : TorrentPeer)
    → offset ≡ n
    → t.download_piece.downloaded + n ≡ length t.download_piece.piece_data
    → take (t.download_piece.downloaded + offset) t.download_piece.piece_data ++ []
      ≡ t.download_piece.piece_data
all_taken n offset t e d =
    append-nil (take (t.download_piece.downloaded + offset) t.download_piece.piece_data)
    ∙ take-all t.download_piece.piece_data (t.download_piece.downloaded + offset) (omega arith)

pub receive-segment :
    (s : Socket) (xs : List ℕ) (rest : List Event) (n : ℕ)
    → length xs ≤ n
    → receive (record s { incoming = segment xs ∷ rest }) n
      ≡ (some xs, record s { incoming = rest })
unfolding receive
receive-segment s xs rest n h = rw (leb-le h) refl

pub receive_data-step :
    (fuel n offset : ℕ) (t : TorrentPeer) (xs written : List ℕ) (s : Socket) (out : Outcome)
    → offset < n
    → receive t.tcp (n - offset) ≡ (some xs, s)
    → write_data t.download_piece.piece_data (t.download_piece.downloaded + offset) xs ≡ ok written
    → receive_data fuel n (offset + length xs) (with_data (record t { tcp = s }) written) ≡ out
    → receive_data (suc fuel) n offset t ≡ out
unfolding receive_data
receive_data-step fuel n offset t xs written s out h r w next =
    rw (lt→ltb offset n h, receive_data)
      (rw r (
        rw w (
          subst
            (λ (s' : Socket).
              receive_data fuel n (offset + length xs) (with_data (record t { tcp = s' }) written)
              ≡ out)
            (sym (ap (λ (p : Option (List ℕ) × Socket). p.1) r)) next)))

receive_data-fails :
    (fuel n offset : ℕ) (t : TorrentPeer) (xs : List ℕ) (s : Socket) (e : PeerFault)
    → offset < n
    → receive t.tcp (n - offset) ≡ (some xs, s)
    → write_data t.download_piece.piece_data (t.download_piece.downloaded + offset) xs ≡ err e
    → receive_data (suc fuel) n offset t ≡ err e
unfolding receive_data
receive_data-fails fuel n offset t xs s e h r w =
    rw (lt→ltb offset n h, receive_data) (rw r (rw w refl))

-- The loop of `receive_message_block` puts the bytes that arrive in their place, however they are
-- divided into segments, and returns after at most one round for each segment.
receive_data-segments :
    (fuel n offset : ℕ) (t : TorrentPeer) (chunks : List (List ℕ)) (rest : List Event)
    → All NonEmpty chunks
    → offset + length (concat chunks) ≡ n
    → t.download_piece.downloaded + n ≡ length t.download_piece.piece_data
    → length chunks ≤ fuel
    → receive_data fuel n offset (arriving t (map segment chunks ++ rest))
      ≡ ok (
        true,
        with_data (arriving t rest) (
            take (t.download_piece.downloaded + offset) t.download_piece.piece_data
            ++ concat chunks),
      )
unfolding receive_data
receive_data-segments zero n offset t [] rest a e d f =
    rw (ltb-ge offset n (omega arith)) (rw (all_taken n offset t (omega arith) d) refl)
receive_data-segments (suc fuel) n offset t [] rest a e d f =
    rw (ltb-ge offset n (omega arith), receive_data)
      (rw (all_taken n offset t (omega arith) d) refl)
receive_data-segments zero n offset t (xs ∷ cs) rest a e d f = elim f [ ]
receive_data-segments (suc fuel) n offset t (xs ∷ cs) rest (p, a) e d f =
    let below : offset < n = omega (arith, e, length-append xs (concat cs)) in
    let start = t.download_piece.downloaded + offset in
    let old = t.download_piece.piece_data in
    let fits : start + length xs ≤ length old = omega (arith, e, d, length-append xs (concat cs)) in
    receive_data-step fuel n offset (arriving t (map segment (xs ∷ cs) ++ rest)) xs
      (take start old ++ xs ++ drop (start + length xs) old)
      (record t.tcp { incoming = map segment cs ++ rest }) _ below
      (receive-segment t.tcp xs (map segment cs ++ rest) (n - offset)
        (omega (arith, e, length-append xs (concat cs))))
      (write_data-in old start xs p fits)
      (receive_data-segments fuel n (offset + length xs)
          (with_data t (take start old ++ xs ++ drop (start + length xs) old)) cs rest a
          (omega (arith, e, length-append xs (concat cs)))
          (d ∙ sym (length-overwrite start old xs fits)) (omega arith)
        ∙ ap (λ (v : List ℕ). ok (true, with_data (arriving t rest) v))
            (ap (λ (v : List ℕ). v ++ concat cs)
                (ap (λ (m : ℕ). take m (take start old ++ xs ++ drop (start + length xs) old))
                    (omega arith)
                  ∙ take-overwrite start old xs (drop (start + length xs) old) (omega arith))
              ∙ append_assoc (take start old) xs (concat cs)))

-- On a piece whose data is what has been downloaded, the block that arrives behind its payload in
-- segments that are not empty is appended, no byte of it lost, doubled or misplaced, and the
-- connection is left at what follows the block; the loop ends after a round for each segment. The
-- sizes together are below 2 ^ 63.
pub store_block-segments :
    (fuel n : ℕ) (t : TorrentPeer) (chunks : List (List ℕ)) (rest : List Event)
    → All NonEmpty chunks
    → length (concat chunks) ≡ n
    → length t.download_piece.piece_data ≡ t.download_piece.downloaded
    → t.download_piece.downloaded + n < 2 ^ 63
    → length chunks ≤ fuel
    → store_block fuel n (arriving t (map segment chunks ++ rest))
      ≡ ok (
          finish_block n
            (with_data (arriving t rest) (t.download_piece.piece_data ++ concat chunks)))
unfolding store_block
store_block-segments fuel n t chunks rest a e d h f =
    let old = t.download_piece.piece_data in
    let total = t.download_piece.downloaded + n in
    let grown = take total old ++ replicate (total - length old) 0 in
    let size : length grown ≡ total = length-resized old total in
    rw (resize_data-in old total h) (
      rw
        (receive_data-segments fuel n 0 (with_data t grown) chunks rest a (omega (arith, e))
          (sym size) f)
        (ap (λ (v : List ℕ). ok (finish_block n (with_data (arriving t rest) (v ++ concat chunks))))
          (ap (λ (k : ℕ). take k grown) (omega (arith, d))
            ∙ take-resized old total (omega (arith, d)))))

-- On a piece of which at least eight bytes have been downloaded, all of which the vector holds, a
-- block message of a length from 1 to 8, too short for its payload, gives a block length that wraps:
-- the vector shrinks, and the first bytes that arrive are written behind its end.
pub store_block_overflows :
    (fuel x : ℕ) (m : Message) (t : TorrentPeer) (xs : List ℕ) (rest : List Event)
    → 0 < as_small_endian m.size
    → as_small_endian m.size < 9
    → 8 ≤ t.download_piece.downloaded
    → t.download_piece.downloaded < 2 ^ 63
    → length t.download_piece.piece_data ≡ t.download_piece.downloaded
    → length (x ∷ xs) < 2 ^ 63
    → store_block (suc fuel) (block_length m) (arriving t (segment (x ∷ xs) ∷ rest))
      ≡ err out_of_bounds
unfolding store_block block_length
store_block_overflows fuel x m t xs rest p q low high e l =
    let old = t.download_piece.piece_data in
    let n = block_length m in
    let left = t.download_piece.downloaded + as_small_endian m.size - 9 in
    let wraps : n + 9 ≡ 2 ^ 64 + as_small_endian m.size = omega arith in
    let small : u64 (t.download_piece.downloaded + n) ≡ u64 left = omega arith in
    let shrunk = take left old ++ replicate (left - length old) 0 in
    let size : length shrunk ≡ left = length-resized old left in
    rw (ap (resize_data old) small ∙ resize_data-in old left (omega arith)) (
      rw
        (receive_data-fails fuel n 0 (with_data (arriving t (segment (x ∷ xs) ∷ rest)) shrunk)
          (x ∷ xs) (record t.tcp { incoming = rest }) out_of_bounds (omega arith)
          (receive-segment t.tcp (x ∷ xs) rest (n - 0) (omega arith))
          (write_data-beyond shrunk (t.download_piece.downloaded + 0) x xs (omega arith)))
        refl)

-- On a connection that the other side has closed, the loop of `receive_message_block` never ends:
-- it takes the zero of `recv` for progress.
pub receive_data_closed :
    (fuel n offset : ℕ) (t : TorrentPeer) (rest : List Event)
    → offset < n
    → receive_data fuel n offset (arriving t (closed ∷ rest)) ≡ err out_of_fuel
unfolding receive write_data
receive_data_closed zero n offset t rest h = unfold receive_data in rw (lt→ltb offset n h) refl
receive_data_closed (suc fuel) n offset t rest h =
    receive_data-step fuel n offset (arriving t (closed ∷ rest)) [] t.download_piece.piece_data
      (record t.tcp { incoming = closed ∷ rest }) (err out_of_fuel) h refl refl
      (receive_data_closed fuel n (offset + 0) t rest (omega arith))
