-- ===== src/Ipc/Laws.antt =====
-- source/ipc/ipc.cpp: what `read` leaves in the buffer, and how long `connect_channel` tries.
use torr.Prelude.{
  ℕ, zero, suc, ◌+◌, ◌-◌, ◌≤◌, ◌<◌, min, List, ◌∷◌, ◌++◌, Option, none, some, ok, err, ◌≡◌, refl,
  ap, ◌∙◌, arith, if◌then◌else◌, inl, inr, Bool-cases, length, length-append, length-take,
  length-drop, length-resized, take, drop, take-append, replicate, leb, leb-le, ltb, ltb→lt,
  resized,
}
use torr.Ipc.{
  Channel, capacity, resize_capacity, read_amount, read_into, readable, read, data_of, fifo_of,
  try_open, connect_channel, not_opened,
}

-- A vector that grows is as large as it has to be.
abbrev pub IsGrowth : (ℕ → ℕ → ℕ) → Type 0
IsGrowth grow = (old n : ℕ) → (n ≤ grow old n) × (old ≤ grow old n)

module _ (grow : ℕ → ℕ → ℕ) (growth : IsGrowth grow) where
  pub resize_capacity-capacity :
      (n : ℕ) (c : Channel)
      → (n ≤ capacity (resize_capacity grow n c))
        × (capacity c ≤ capacity (resize_capacity grow n c))
  unfolding resize_capacity
  resize_capacity-capacity n c =
      let kept : List ℕ = take c.read_size c.read_memory in
      elim (Bool-cases (leb n (capacity c))) [
        | inl e ↦
            let whole : length (resized kept n ++ drop n c.read_memory) ≡ n + (capacity c - n) =
              length-append (resized kept n) (drop n c.read_memory)
              ∙ rw (length-resized kept n) (rw (length-drop n c.read_memory) refl) in
            rw e (omega (arith, whole))
        | inr e ↦
            let whole = length-resized kept (grow (capacity c) n) in
            rw e (omega (arith, whole, growth (capacity c) n))
      ]

  read_room :
      (size : ℕ) (c : Channel)
      → (size ≤ capacity (if ltb (capacity c) size then resize_capacity grow size c else c))
        × (capacity c ≤ capacity (if ltb (capacity c) size then resize_capacity grow size c else c))
  read_room size c = elim (Bool-cases (ltb (capacity c) size)) [
    | inl e ↦ rw e (resize_capacity-capacity size c)
    | inr e ↦ rw e (ground arith)
  ]

  -- What a read leaves: what it says it has read lies at the start of the buffer, is the front of
  -- what the fifo held, and is at most what was asked for; the fifo keeps the rest, in its order.
  abbrev pub IsRead : ℕ → List ℕ → Channel → ℕ × Channel × List ℕ → Type 0
  IsRead size fifo c r =
      (r.0 ≡ min size (length fifo))
      × (data_of r.1 r.0 ≡ ok (take size fifo))
      × (r.2 ≡ drop size fifo)
      × (size ≤ capacity r.1)
      × (capacity c ≤ capacity r.1)

  read_into-IsRead :
      (size : ℕ) (fifo : List ℕ) (c : Channel) → IsRead size fifo c (read_into grow size fifo c)
  unfolding read_into data_of
  read_into-IsRead size fifo c =
      let room = if ltb (capacity c) size then resize_capacity grow size c else c in
      let xs : List ℕ = take size fifo in
      let many : length xs ≡ min size (length fifo) = length-take size fifo in
      let whole : length (xs ++ drop (length xs) room.read_memory) ≡ capacity room =
        length-append xs (drop (length xs) room.read_memory)
        ∙ rw (length-drop (length xs) room.read_memory) (omega (arith, many, read_room size c)) in
      let fits : length xs ≤ length (xs ++ drop (length xs) room.read_memory) =
        omega (arith, many, whole, read_room size c) in
      (
        many,
        rw (leb-le fits) (ap ok (take-append xs (drop (length xs) room.read_memory))),
        refl,
        omega (arith, whole, read_room size c),
        omega (arith, whole, read_room size c),
      )

  -- `read` of a fifo that is readable: it returns how many bytes it has read, which lie at the
  -- start of the buffer and are the front of what the fifo held, at most what was asked for; the
  -- fifo keeps the rest in its order; nothing is written outside of the buffer, which never loses
  -- capacity. Without a size to ask for, it reads up to the whole capacity.
  pub read-IsRead :
      (max_size : ℕ) (fifo : List ℕ) (c : Channel)
      → IsRead (read_amount grow max_size c) fifo c (read grow readable max_size fifo c)
  unfolding read
  read-IsRead max_size fifo c = read_into-IsRead (read_amount grow max_size c) fifo c

try_open-found :
    (tries k fd : ℕ) (rest : List (Option ℕ))
    → k < tries
    → try_open tries (replicate k none ++ some fd ∷ rest) none ≡ some fd
unfolding try_open
try_open-found zero k fd rest h = elim h [ ]
try_open-found (suc tries) zero fd rest h = refl
try_open-found (suc tries) (suc k) fd rest h = try_open-found tries k fd rest (omega arith)

try_open-given_up :
    (tries k : ℕ) (rest : List (Option ℕ))
    → tries ≤ k
    → try_open tries (replicate k none ++ rest) none ≡ none
unfolding try_open
try_open-given_up zero k rest h = refl
try_open-given_up (suc tries) zero rest h = elim h [ ]
try_open-given_up (suc tries) (suc k) rest h = try_open-given_up tries k rest (omega arith)

-- `connect_channel` of a channel that is not open waits for the creator of the fifo: where the
-- first tries to open it fail and the next succeeds, it has the descriptor if there are fewer than
-- 100 failures, and else gives up with an error, the channel not open.
pub connect_channel-tries :
    (k fd : ℕ) (rest : List (Option ℕ)) (c : Channel)
    → c.fifo_file_descriptor ≡ none
    → connect_channel (replicate k none ++ some fd ∷ rest) c ≡ (
      if ltb k 100 then ok fd else err not_opened,
      record c {
        fifo_name = fifo_of c.associated_pid;
        fifo_file_descriptor = if ltb k 100 then some fd else none;
      },
    )
unfolding connect_channel
connect_channel-tries k fd rest c e = elim (Bool-cases (ltb k 100)) [
  | inl h ↦
      let found = try_open-found 100 k fd rest (ltb→lt k 100 h) in
      rw h (rw e (rw (found, connect_channel) (rw found refl)))
  | inr h ↦
      let given_up = try_open-given_up 100 k (some fd ∷ rest) (ground arith) in
      rw h (rw e (rw (given_up, connect_channel) (rw given_up refl)))
]
