-- ===== src/Network/Peer/Buffers.antt =====
-- The vector of the piece that is being downloaded: `resize_data` and `write_data`.
use torr.Prelude.{
  leb-le, leb-gt, ℕ, ◌+◌, ◌-◌, ◌^◌, ◌<◌, ◌≤◌, List, [], ◌∷◌, ◌++◌, ok, err, ◌≡◌, refl, arith,
  length, take, drop, replicate, u64,
}
use torr.Network.Peer.State.{out_of_bounds}
use torr.Network.Peer.Receive.{write_data, resize_data}

pub write_data-in :
    (old : List ℕ) (i : ℕ) (xs : List ℕ)
    → 0 < length xs
    → i + length xs ≤ length old
    → write_data old i xs ≡ ok (take i old ++ xs ++ drop (i + length xs) old)
unfolding write_data
write_data-in old i [] h k = elim h [ ]
write_data-in old i (x ∷ xs) h k = rw (leb-le k) refl

pub write_data-beyond :
    (old : List ℕ) (i x : ℕ) (xs : List ℕ)
    → length old < i + length (x ∷ xs)
    → write_data old i (x ∷ xs) ≡ err out_of_bounds
unfolding write_data
write_data-beyond old i x xs h = rw (leb-gt (i + length (x ∷ xs)) (length old) h) refl

pub resize_data-in :
    (old : List ℕ) (n : ℕ)
    → n < 2 ^ 63
    → resize_data old (u64 n) ≡ ok (take n old ++ replicate (n - length old) 0)
unfolding resize_data
resize_data-in old n h = let e : u64 n ≡ n = omega arith in rw e (rw (leb-gt (2 ^ 63) n h) refl)
