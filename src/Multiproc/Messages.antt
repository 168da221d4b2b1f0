-- ===== src/Multiproc/Messages.antt =====
-- source/multiproc/multiproc.cpp: the message and the payload between a task and the parent.
use torr.Prelude.{
  ℕ, ◌^◌, ◌≤◌, ◌<◌, List, [], ◌++◌, append-nil, ok, ◌≡◌, refl, sym, ap, ◌∙◌, arith, length,
  length-append, take-all, drop-all, take-append, drop-append, take, drop, subst,
}
use torr.Ipc.{Channel, capacity, readable, read, data_of}
use torr.Ipc.Laws.{IsGrowth, read-IsRead}
use torr.Multiproc.{
  MultiprocMessage, message_bytes, Receiving, receive_some, message_size, download_piece_done,
  downloaded, receive_message, subtract,
}
use torr.Multiproc.Encoding.{message_of-message_bytes, length-message_bytes}

module _ (grow : ℕ → ℕ → ℕ) (growth : IsGrowth grow) where
  -- A round of the loop that takes all that the fifo holds.
  pub receive_some-all :
      (fifo : List ℕ) (r : Receiving)
      → length fifo ≤ capacity r.channel
      → (next : Channel) × (receive_some grow fifo r
          ≡ ok (
            record {
              channel = next;
              receive_left = subtract r.receive_left (length fifo);
              out_file = r.out_file ++ fifo;
            },
            [],
          ))
        × (capacity r.channel ≤ capacity next)
  unfolding receive_some
  receive_some-all fifo r h =
      let (n, next, left) = read grow readable 0 fifo r.channel in
      let (many, found, behind, large, kept) = read-IsRead grow growth 0 fifo r.channel in
      let all : n ≡ length fifo = omega (arith, many) in
      let whole = found ∙ ap ok (take-all fifo (capacity r.channel) h) in
      let empty = behind ∙ drop-all fifo (capacity r.channel) h in
      (next, rw whole (rw all (rw empty refl)), kept)

module _ (grow : ℕ → ℕ → ℕ) (growth : IsGrowth grow) where
  -- The message of a piece at the front of the fifo is read alone.
  pub receive_message-front :
      (padding : ℕ × ℕ × ℕ × ℕ) (m : MultiprocMessage) (rest : List ℕ) (c : Channel)
      → m.message_type ≡ download_piece_done
      → m.payload_size < 2 ^ 64
      → m.field0 < 2 ^ 64
      → (next : Channel) × (receive_message grow readable (message_bytes padding m ++ rest) c
          ≡ ok (downloaded m, next, rest))
        × (capacity c ≤ capacity next)
  unfolding receive_message
  receive_message-front padding m rest c k hp hf =
      let bytes : List ℕ = message_bytes padding m in
      let (n, next, left) = read grow readable message_size (bytes ++ rest) c in
      let (many, found, behind, large, kept) =
        read-IsRead grow growth message_size (bytes ++ rest) c in
      let long = length-message_bytes padding m in
      let all : n ≡ 24 = omega (arith, many, long, length-append bytes rest) in
      let front : take 24 (bytes ++ rest) ≡ bytes =
        subst (λ (v : ℕ). take v (bytes ++ rest) ≡ bytes) long (take-append bytes rest) in
      let ahead : drop 24 (bytes ++ rest) ≡ rest =
        subst (λ (v : ℕ). drop v (bytes ++ rest) ≡ rest) long (drop-append bytes rest) in
      let whole = ap (λ (k : ℕ). data_of next k) (sym all) ∙ found ∙ ap ok front in
      let others = behind ∙ ahead in
      let same = message_of-message_bytes padding m (omega (arith, k)) hp hf in
      (next, rw all (rw whole (rw same (rw others (rw k refl)))), kept)

  pub receive_message-sent :
      (padding : ℕ × ℕ × ℕ × ℕ) (m : MultiprocMessage) (c : Channel)
      → m.message_type ≡ download_piece_done
      → m.payload_size < 2 ^ 64
      → m.field0 < 2 ^ 64
      → (next : Channel) × (receive_message grow readable (message_bytes padding m) c
          ≡ ok (downloaded m, next, []))
        × (capacity c ≤ capacity next)
  receive_message-sent padding m c k hp hf =
      let (next, got, kept) = receive_message-front padding m [] c k hp hf in
      (
        next,
        ap (λ (v : List ℕ). receive_message grow readable v c)
              (sym (append-nil (message_bytes padding m)))
            ∙ got,
        kept,
      )
