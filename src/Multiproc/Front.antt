-- ===== src/Multiproc/Front.antt =====
-- source/multiproc/multiproc.cpp: a `read` by the loop of `start` of a fifo with a message at its front.
use torr.Prelude.{
  ℕ, ◌^◌, ◌<◌, ◌⊎◌, inl, inr, List, [], ◌++◌, Result, ok, err, ◌>>=◌, ◌≡◌, refl, sym, ap, ◌∙◌,
  arith, length, length-append, take, take-append, drop, drop-append,
}
use torr.Ipc.{Channel, IpcError, Poll, timed_out, failed, readable, read, data_of}
use torr.Ipc.Laws.{IsGrowth, read-IsRead}
use torr.Multiproc.{
  MultiprocMessage, MultiprocFault, message_bytes, message_of, message_size, download_piece_done,
  Received, unknown, downloaded, receive_message, lift_ipc, dispatch,
}
use torr.Multiproc.Encoding.{message_of-message_bytes, length-message_bytes}

-- What is read, if it is.
abbrev Reading : Type 0
Reading = Result MultiprocFault (Received × Channel × List ℕ)

abbrev left_of : List ℕ → Reading → List ℕ
left_of fifo (ok r) = r.2
left_of fifo (err e) = fifo

abbrev received_of : Reading → Received
received_of (ok r) = r.0
received_of (err e) = unknown

left_of-checked :
    (fifo : List ℕ) (c : Channel) (x : Result IpcError (List ℕ))
    → left_of fifo (lift_ipc x >>= λ (xs : List ℕ). ok (dispatch (message_of xs), c, fifo)) ≡ fifo
left_of-checked fifo c (ok xs) = refl
left_of-checked fifo c (err e) = refl

module _ (grow : ℕ → ℕ → ℕ) (growth : IsGrowth grow) (padding : ℕ × ℕ × ℕ × ℕ)
    (m : MultiprocMessage) (kind : m.message_type ≡ download_piece_done)
    (size : m.payload_size < 2 ^ 64) (index : m.field0 < 2 ^ 64) where
  -- The message at the front of the fifo is read, and what is behind it is left.
  receive_message-front :
      (part : List ℕ) (c : Channel)
      → (c_next : Channel) × (receive_message grow readable (message_bytes padding m ++ part) c
          ≡ ok (downloaded m, c_next, part))
  unfolding receive_message
  receive_message-front part c =
      let bytes : List ℕ = message_bytes padding m in
      let (n, c_next, left) = read grow readable message_size (bytes ++ part) c in
      let (many, found, behind, large, kept) =
        read-IsRead grow growth message_size (bytes ++ part) c in
      let long : 24 ≡ length bytes = sym (length-message_bytes padding m) in
      let all : n ≡ 24 = omega (arith, many, long, length-append bytes part) in
      let whole =
        ap (λ (k : ℕ). data_of c_next k) (sym all)
        ∙ found
        ∙ ap (λ (k : ℕ). ok (take k (bytes ++ part))) long
        ∙ ap ok (take-append bytes part) in
      let rest = behind ∙ ap (λ (k : ℕ). drop k (bytes ++ part)) long ∙ drop-append bytes part in
      let same = message_of-message_bytes padding m (omega (arith, kind)) size index in
      (c_next, rw all (rw whole (rw same (rw rest (rw kind refl)))))

  -- A read leaves the fifo as it is, or takes the message.
  pub receive_message-leaves :
      (poll : Poll) (part : List ℕ) (c c_next : Channel) (r : Received) (left : List ℕ)
      → receive_message grow poll (message_bytes padding m ++ part) c ≡ ok (r, c_next, left)
      → (left ≡ message_bytes padding m ++ part) ⊎ ((left ≡ part) × (r ≡ downloaded m))
  unfolding receive_message read
  receive_message-leaves timed_out part c c_next r left h = inl (sym (ap (left_of []) h))
  receive_message-leaves failed part c c_next r left h =
      let fifo : List ℕ = message_bytes padding m ++ part in
      inl (sym (ap (left_of fifo) h) ∙ left_of-checked fifo _ _)
  receive_message-leaves readable part c c_next r left h =
      let (other, front) = receive_message-front part c in
      let same = sym h ∙ front in inr (ap (left_of []) same, ap received_of same)
