-- ===== src/Multiproc/Deadlock.antt =====
-- source/multiproc/multiproc.cpp: the parent takes the semaphore before it reads the payload, which a
-- task writes while it holds the semaphore.
use torr.Prelude.{
  ℕ, ◌+◌, ◌≤◌, ◌<◌, ◌^◌, some, List, [], ◌∷◌, ◌++◌, ◌≡◌, refl, sym, ap, ◌∙◌, arith, length,
  length-append, get_elem?, set, get_elem?-set_self, get_elem?-append,
}
use torr.Multiproc.{MultiprocMessage, SavedPiece, Receiving, message_for, output_data}
use torr.Multiproc.Messages.{receive_message-sent}
use torr.Multiproc.Encoding.{length-message_bytes}
use torr.Bitset.{Memory}
use torr.Network.Peer.State.{Peer, Piece}
use torr.Ipc.Laws.{IsGrowth}
use torr.Ipc.{Channel, readable}
use torr.Multiproc.System.{
  notice_of, move, TaskPhase, starting, working, stopped, waiting, heading, sending, reading,
  hearing, receiving, System, Step, Reach, here, next, spawn, construct, finish, quit, take, head,
  send, post, pass, skip, hear, enter, receive, leave, holds, tasks_hold,
}
use torr.Multiproc.Exclusion.{tasks_hold-set, tasks_hold-append}
use torr.Multiproc.Holders.{other_move, same_task, same_phase, left_at, heading_sending}

-- A task is in the middle of a payload of which more is left than the fifo has room for, and the
-- parent waits for the semaphore, which this task alone holds.
abbrev pub IsDeadlocked : ℕ → ℕ → System → Type 0
IsDeadlocked room i s =
    (s.semaphore ≡ 0)
    × (tasks_hold s.tasks ≡ 1)
    × (m : MultiprocMessage) × (c : Channel) × (s.parent ≡ hearing m c)
    × (ys : List ℕ) × (get_elem? s.tasks i ≡ some (sending ys))
    × (length s.fifo ≤ room)
    × (room < length s.fifo + length ys)

pub reading_hearing : {c c' : Channel} {m : MultiprocMessage} → ¬ (reading c ≡ hearing m c')
reading_hearing e = cc

receiving_hearing :
    {c : Channel} {m m' : MultiprocMessage} {r : Receiving} → ¬ (receiving m r ≡ hearing m' c)
receiving_hearing e = cc

module _ (room : ℕ) (grow : ℕ → ℕ → ℕ) (i : ℕ) where
  -- The steps of a task that does not hold the semaphore, which leave the rest as it is.
  idle_move :
      (s : System) (j : ℕ) (c d : TaskPhase)
      → get_elem? s.tasks j ≡ some c
      → holds c ≡ 0
      → holds d ≡ 0
      → IsDeadlocked room i s
      → IsDeadlocked room i (record s { tasks = set s.tasks j d })
  idle_move s j c d at_j h k (zero_left, one, m, channel, hears, ys, at_i, full, more) =
      let (one', at_i') = other_move s.tasks i j c ys one at_i at_j d h k in
      (zero_left, one', m, channel, hears, ys, at_i', full, more)

  sent_move :
      (s : System) (j : ℕ) (xs zs : List ℕ)
      → get_elem? s.tasks j ≡ some (sending (xs ++ zs))
      → length s.fifo + length xs ≤ room
      → IsDeadlocked room i s
      → IsDeadlocked room i (record s { tasks = set s.tasks j (sending zs); fifo = s.fifo ++ xs })
  sent_move s j xs zs at_j fits (zero_left, one, m, channel, hears, ys, at_i, full, more) =
      let at = same_task s.tasks i j (sending (xs ++ zs)) ys one at_i at_j refl in
      let left : xs ++ zs ≡ ys =
        ap left_at (same_phase s.tasks i j (sending (xs ++ zs)) ys one at_i at_j at) in
      let many = length-append xs zs in
      let many' : length (xs ++ zs) ≡ length ys = ap length left in
      let longer = length-append s.fifo xs in
      (
        zero_left,
        omega (arith, one, tasks_hold-set s.tasks j (sending (xs ++ zs)) (sending zs) at_j),
        m,
        channel,
        hears,
        zs,
        ap (λ (k : ℕ). get_elem? (set s.tasks j (sending zs)) k) (sym at)
            ∙ get_elem?-set_self s.tasks j (sending (xs ++ zs)) (sending zs) at_j,
        omega (arith, fits, longer),
        omega (arith, more, many, many', longer),
      )

  pub Step-IsDeadlocked :
      {s t : System}
      → Step room grow s t
      → IsDeadlocked room i s
      → IsDeadlocked room i t × (t.saved ≡ s.saved)
  Step-IsDeadlocked (spawn s) (zero_left, one, m, channel, hears, ys, at_i, full, more) = (
    (
      zero_left,
      omega (arith, one, tasks_hold-append s.tasks (starting ∷ [])),
      m,
      channel,
      hears,
      ys,
      get_elem?-append s.tasks (starting ∷ []) i (sending ys) at_i,
      full,
      more,
    ),
    refl,
  )
  Step-IsDeadlocked (construct s j e) d = (idle_move s j starting working e refl refl d, refl)
  Step-IsDeadlocked (finish s j padding behind p e) d =
      (idle_move s j working _ e refl refl d, refl)
  Step-IsDeadlocked (quit s j e) d = (idle_move s j working stopped e refl refl d, refl)
  Step-IsDeadlocked (take s j k n e h) d = absurd (omega (arith, h, d.0))
  Step-IsDeadlocked (head s j n e h) (zero_left, one, m, channel, hears, ys, at_i, full, more) =
      let at = same_task s.tasks i j (heading n) ys one at_i e refl in
      absurd (heading_sending (same_phase s.tasks i j (heading n) ys one at_i e at))
  Step-IsDeadlocked (send s j xs zs e p h) d = (sent_move s j xs zs e h d, refl)
  Step-IsDeadlocked (post s j e) (zero_left, one, m, channel, hears, ys, at_i, full, more) =
      let at = same_task s.tasks i j (sending []) ys one at_i e refl in
      let none_left : [] ≡ ys = ap left_at (same_phase s.tasks i j (sending []) ys one at_i e at) in
      let nothing : 0 ≡ length ys = ap length none_left in
      absurd (omega (arith, full, more, nothing))
  Step-IsDeadlocked (pass s c c' poll left e h)
        (zero_left, one, m, channel, hears, ys, at_i, full, more) =
      absurd (reading_hearing (sym e ∙ hears))
  Step-IsDeadlocked (skip s c c' poll left e h)
        (zero_left, one, m, channel, hears, ys, at_i, full, more) =
      absurd (reading_hearing (sym e ∙ hears))
  Step-IsDeadlocked (hear s c c' poll left m' e h)
        (zero_left, one, m, channel, hears, ys, at_i, full, more) =
      absurd (reading_hearing (sym e ∙ hears))
  Step-IsDeadlocked (enter s c m k e h) d = absurd (omega (arith, h, d.0))
  Step-IsDeadlocked (receive s m' r r' left e p h g)
        (zero_left, one, m, channel, hears, ys, at_i, full, more) =
      absurd (receiving_hearing (sym e ∙ hears))
  Step-IsDeadlocked (leave s m' r memory ourself e p h)
        (zero_left, one, m, channel, hears, ys, at_i, full, more) =
      absurd (receiving_hearing (sym e ∙ hears))

  -- From a state in which a task has more of a payload left than the fifo has room for while the
  -- parent waits for the semaphore that the task holds, every run, whatever the other tasks do,
  -- stays in such a state, and nothing more is ever saved.
  pub Reach-IsDeadlocked :
      {s t : System}
      → IsDeadlocked room i s
      → Reach room grow s t
      → IsDeadlocked room i t × (t.saved ≡ s.saved)
  Reach-IsDeadlocked d here = (d, refl)
  Reach-IsDeadlocked d (next r step) =
      let (d', kept) = Reach-IsDeadlocked d r in
      let (d'', kept') = Step-IsDeadlocked step d' in (d'', kept' ∙ kept)

-- The parent and one task, before anything is sent.
abbrev pub begun : Channel → List SavedPiece → Memory → Peer → System
begun c saved memory ourself = record {
  fifo = [];
  semaphore = 1;
  tasks = working ∷ [];
  parent = reading c;
  saved = saved;
  memory = memory;
  ourself = ourself;
}

-- A task alone that completes a piece for whose payload the fifo has not room can be brought to such
-- a state by the parent, which reads the message before it waits for the semaphore.
pub large_piece-IsDeadlocked :
    (room : ℕ) (grow : ℕ → ℕ → ℕ) (growth : IsGrowth grow) (padding : ℕ × ℕ × ℕ × ℕ)
    (behind : List ℕ) (p : Piece) (c : Channel) (saved : List SavedPiece) (memory : Memory)
    (ourself : Peer)
    → 24 ≤ room
    → room < length (output_data behind p)
    → length (output_data behind p) < 2 ^ 64
    → p.piece_index < 2 ^ 64
    → (t : System) × Reach room grow (begun c saved memory ourself) t × IsDeadlocked room 0 t
unfolding message_for
large_piece-IsDeadlocked room grow growth padding behind p c saved memory ourself h more small
      index =
    let n = notice_of padding behind p in
    let m = message_for behind p in
    let (c', heard, kept) = receive_message-sent grow growth padding m c refl small index in
    let start = begun c saved memory ourself in
    let s1 : System = move start 0 (waiting n) in
    let s2 : System = record (move s1 0 (heading n)) { semaphore = 0 } in
    let s3 : System = record (move s2 0 (sending n.payload)) { fifo = [] ++ n.message } in
    let t : System = record s3 { parent = hearing m c'; fifo = [] } in
    (
      t,
      next
          (next (next (next here (finish start 0 padding behind p refl)) (take s1 0 0 n refl refl))
            (head s2 0 n refl (omega (arith, h, length-message_bytes padding m))))
          (hear s3 c c' readable [] m refl heard),
      (refl, omega arith, m, c', refl, n.payload, refl, omega arith, omega (arith, more)),
    )
