-- ===== src/Multiproc/Exclusion.antt =====
-- source/multiproc/multiproc.cpp: the semaphore keeps the writes of a task, and what the parent reads
-- of it, apart from those of the others.
use torr.Prelude.{
  ℕ, zero, suc, ◌+◌, ◌≤◌, Option, none, some, List, [], ◌∷◌, ◌++◌, ◌≡◌, refl, ap, ◌∙◌, arith,
  get_elem?, set,
}
use torr.Network.Peer.State.{Piece}
use torr.Multiproc.Children.{sem_open, main_channel_mutex}
use torr.Multiproc.System.{
  notice_of, move, TaskPhase, starting, working, stopped, waiting, heading, sending, System, Step,
  Reach, here, next, spawn, construct, finish, quit, take, head, send, post, pass, skip, hear,
  enter, receive, leave, holds, parent_holds, tasks_hold, holders,
}

pub tasks_hold-set :
    (cs : List TaskPhase) (i : ℕ) (c d : TaskPhase)
    → get_elem? cs i ≡ some c
    → tasks_hold (set cs i d) + holds c ≡ tasks_hold cs + holds d
tasks_hold-set [] i c d e = cc
tasks_hold-set (x ∷ cs) zero c d e =
    let same : holds x ≡ holds c =
      ap (λ (o : Option TaskPhase). elim o [ none ↦ 0 | some t ↦ holds t ]) e in
    omega (arith, same)
tasks_hold-set (x ∷ cs) (suc i) c d e = omega (arith, tasks_hold-set cs i c d e)

pub tasks_hold-append :
    (cs ds : List TaskPhase) → tasks_hold (cs ++ ds) ≡ tasks_hold cs + tasks_hold ds
tasks_hold-append [] ds = omega arith
tasks_hold-append (c ∷ cs) ds = omega (arith, tasks_hold-append cs ds)

-- The semaphore and those that hold it, together.
abbrev units : System → ℕ
units s = s.semaphore + holders s

module _ (room : ℕ) (grow : ℕ → ℕ → ℕ) where
  Step-units : {s t : System} → Step room grow s t → units t ≡ units s
  Step-units (spawn s) = omega (arith, tasks_hold-append s.tasks (starting ∷ []))
  Step-units (construct s i e) = omega (arith, tasks_hold-set s.tasks i starting working e)
  Step-units (finish s i padding behind p e) = omega (arith, tasks_hold-set s.tasks i working _ e)
  Step-units (quit s i e) = omega (arith, tasks_hold-set s.tasks i working stopped e)
  Step-units (take s i k n e h) =
      omega (arith, h, tasks_hold-set s.tasks i (waiting n) (heading n) e)
  Step-units (head s i n e h) =
      omega (arith, tasks_hold-set s.tasks i (heading n) (sending n.payload) e)
  Step-units (send s i xs ys e p h) =
      omega (arith, tasks_hold-set s.tasks i (sending (xs ++ ys)) (sending ys) e)
  Step-units (post s i e) = omega (arith, tasks_hold-set s.tasks i (sending []) working e)
  Step-units (pass s c c' poll left e h) = omega (arith, ap parent_holds e)
  Step-units (skip s c c' poll left e h) = omega (arith, ap parent_holds e)
  Step-units (hear s c c' poll left m e h) = omega (arith, ap parent_holds e)
  Step-units (enter s c m k e h) = omega (arith, h, ap parent_holds e)
  Step-units (receive s m r r' left e p h g) = omega (arith, ap parent_holds e)
  Step-units (leave s m r memory ourself e p h) = omega (arith, ap parent_holds e)

  Reach-units : {s t : System} → Reach room grow s t → units t ≡ units s
  Reach-units here = refl
  Reach-units (next r step) = Step-units step ∙ Reach-units r

  -- However the steps of the parent and of any number of tasks interleave, from a start at which
  -- the semaphore is that of a parent that has created it and no process is between its `sem_wait`
  -- and its `sem_post`, there is never more than one process there.
  pub Reach-exclusive :
      (s t : System)
      → s.semaphore ≡ main_channel_mutex none
      → holders s ≡ 0
      → Reach room grow s t
      → holders t ≤ 1
  unfolding main_channel_mutex sem_open
  Reach-exclusive s t one none_holds r = omega (arith, one, none_holds, Reach-units r)

  -- Where the semaphore is left from a run before, whose value was at least one, two tasks that
  -- complete their pieces can both be between their `sem_wait` and their `sem_post`.
  pub main_channel_mutex-stale :
      (value : ℕ) (s : System) (padding : ℕ × ℕ × ℕ × ℕ) (behind : List ℕ) (p q : Piece)
      → 1 ≤ value
      → (t : System) × Reach room grow
          (record s { semaphore = main_channel_mutex (some value); tasks = working ∷ working ∷ [] })
          t
        × (2 ≤ holders t)
  unfolding main_channel_mutex sem_open
  main_channel_mutex-stale zero s padding behind p q h = elim h [ ]
  main_channel_mutex-stale (suc value) s padding behind p q h =
      let n = notice_of padding behind p in
      let m = notice_of padding behind q in
      let s0 : System = record s { semaphore = suc (suc value); tasks = working ∷ working ∷ [] } in
      let s1 : System = move s0 0 (waiting n) in
      let s2 : System = move s1 1 (waiting m) in
      let s3 : System = record (move s2 0 (heading n)) { semaphore = suc value } in
      let s4 : System = record (move s3 1 (heading m)) { semaphore = value } in
      (
        s4,
        next
            (next
              (next (next here (finish s0 0 padding behind p refl))
                (finish s1 1 padding behind q refl))
              (take s2 0 (suc value) n refl refl))
            (take s3 1 value m refl refl),
        omega arith,
      )
