-- ===== src/Network/Socket/Timeouts.antt =====
-- source/network/socket/cassync.h: the loop over the calls of `poll` against a description of it.
use torr.Prelude.{
  ℕ, zero, suc, ◌≤◌, Bool, true, false, not, List, [], ◌∷◌, Option, none, some, Result, ok, err,
  ◌>>=◌, ◌≡◌, refl, sym, ap, ◌∙◌, arith, if◌then◌else◌, length, inl, inr, Bool-cases, ◌&&◌,
}
use torr.Network.Socket.Connect.{
  Errno, no_error, would_block, in_progress, interrupted, timed_out, other, is_error, is_pending,
  is_interrupted, Code, minus_one, count, Timespec, Polled, poll_error, polled, Attempt, Status,
  ConnectFault, deadline_of, ms_until_deadline, is_negative, after_poll, attempt, is_again,
  wait_connected, timed, try_connect, connect_with_timeout,
}

-- The error with which a round ends, if it does.
abbrev pub error_of : Attempt → Option Errno
error_of a = elim a.poll [
  | poll_error e ↦ some e
  | polled zero ↦ none
  | polled (suc n) ↦ elim a.socket_error [
    | none ↦ none
    | some e ↦ if is_error e then some e else none
  ]
]

-- Ended by a signal.
abbrev pub is_signalled : Attempt → Bool
is_signalled a = elim (error_of a) [ none ↦ false | some e ↦ is_interrupted e ]

-- In time, and ended by a signal.
abbrev pub is_interruption : Timespec → Attempt → Bool
is_interruption deadline a = elim a.now [
  | none ↦ false
  | some now ↦ if is_negative (ms_until_deadline deadline now) then false else is_signalled a
]

-- How many descriptors are ready, where there are some and the socket has no error.
abbrev pub ready_of : Attempt → Code
ready_of a = elim (error_of a) [
  | some e ↦ minus_one
  | none ↦ elim a.poll [
    | poll_error e ↦ minus_one
    | polled zero ↦ minus_one
    | polled (suc n) ↦ count (suc n)
  ]
]

-- What a round says, which is an error where it is not in time.
abbrev pub verdict : Timespec → Attempt → Code
verdict deadline a = elim a.now [
  | none ↦ minus_one
  | some now ↦ if is_negative (ms_until_deadline deadline now) then minus_one else ready_of a
]

-- The first round that no signal ends decides.
abbrev pub decision : Timespec → List Attempt → Option Code
decision deadline [] = none
decision deadline (a ∷ rest) =
    let later = decision deadline rest in
    if is_interruption deadline a then later else some (verdict deadline a)

-- What the inner loop means, behind the test of the timeout.
abbrev pub code_of : Result ConnectFault Status → Option Code
code_of (ok s) = some (timed s).0
code_of (err e) = none

-- Whether a round is repeated, and its code if it is not.
abbrev repeats : Bool × Status → Bool
repeats (broken, status) = not broken && is_again status

module _ (deadline : Timespec) (before : Errno) where
  abbrev at : Option Timespec → Polled → Option Errno → Attempt
  at now poll socket_error = record { now = now; poll = poll; socket_error = socket_error }

  -- A round in time, by the result of `poll` and the error of the socket.
  after_poll-means :
      (now : Timespec) (poll : Polled) (socket_error : Option Errno)
      → (is_again (after_poll poll socket_error before)
          ≡ is_signalled (at (some now) poll socket_error))
        × ((timed (after_poll poll socket_error before)).0
            ≡ ready_of (at (some now) poll socket_error))
  unfolding after_poll
  after_poll-means now (poll_error e) s = (refl, refl)
  after_poll-means now (polled zero) s = (refl, refl)
  after_poll-means now (polled (suc n)) none = (refl, refl)
  after_poll-means now (polled (suc n)) (some no_error) = (refl, refl)
  after_poll-means now (polled (suc n)) (some would_block) = (refl, refl)
  after_poll-means now (polled (suc n)) (some in_progress) = (refl, refl)
  after_poll-means now (polled (suc n)) (some interrupted) = (refl, refl)
  after_poll-means now (polled (suc n)) (some timed_out) = (refl, refl)
  after_poll-means now (polled (suc n)) (some (other e)) = (refl, refl)

  attempt-at :
      (now : Option Timespec) (poll : Polled) (socket_error : Option Errno)
      → (repeats (attempt deadline before (at now poll socket_error))
          ≡ is_interruption deadline (at now poll socket_error))
        × ((timed (attempt deadline before (at now poll socket_error)).1).0
            ≡ verdict deadline (at now poll socket_error))
  unfolding attempt
  attempt-at none poll socket_error = (refl, refl)
  attempt-at (some now) poll socket_error =
      elim (Bool-cases (is_negative (ms_until_deadline deadline now))) [
        | inl h ↦ (rw h refl, rw h refl)
        | inr h ↦ (
          rw h (after_poll-means now poll socket_error).0,
          rw h (after_poll-means now poll socket_error).1,
        )
      ]

  attempt-means :
      (a : Attempt)
      → (repeats (attempt deadline before a) ≡ is_interruption deadline a)
        × ((timed (attempt deadline before a).1).0 ≡ verdict deadline a)
  attempt-means a = attempt-at a.now a.poll a.socket_error

wait_connected-decision :
    (fuel : ℕ) (deadline : Timespec) (attempts : List Attempt) (before : Errno)
    → length attempts ≤ fuel
    → code_of (wait_connected fuel deadline attempts before) ≡ decision deadline attempts
unfolding wait_connected
wait_connected-decision zero deadline [] before h = refl
wait_connected-decision zero deadline (a ∷ rest) before h = elim h [ ]
wait_connected-decision (suc fuel) deadline [] before h = refl
wait_connected-decision (suc fuel) deadline (a ∷ rest) before h =
    let (again, code) = attempt-means deadline before a in
    elim (Bool-cases (is_interruption deadline a)) [
      | inl i ↦ rw i (
          rw (again ∙ i, wait_connected)
            (wait_connected-decision fuel deadline rest (attempt deadline before a).1.1
              (omega (arith, h))))
      | inr i ↦ rw i (rw (again ∙ i, wait_connected) (ap some code))
    ]

-- What `connect_with_timeout` returns and the flags it leaves, if it ends.
abbrev pub returned : Result ConnectFault (Code × Option ℕ) → Option (Code × Option ℕ)
returned (ok r) = some r
returned (err e) = none

abbrev pub with_flags : Option Code → Option (Code × Option ℕ)
with_flags none = none
with_flags (some c) = some (c, some 0)

returned_flags :
    (w : Result ConnectFault Status)
    → returned (w >>= (λ s. ok (timed s)) >>= λ (rc, e). ok (rc, some 0)) ≡ with_flags (code_of w)
returned_flags (ok s) = refl
returned_flags (err e) = refl

-- `connect_with_timeout` where the connection is pending and no change of the flags fails: it returns
-- what the first round says that is not ended by a signal in time, which is an error where the
-- deadline has passed, the clock or `poll` fails, nothing is ready or the socket has an error, and
-- else how many descriptors are ready. It needs no more rounds than the system makes, and leaves
-- the flags of the socket zero, whatever they were.
pub connect_with_timeout-decision :
    (fuel timeout_ms flags : ℕ) (e : Errno) (now : Timespec) (attempts : List Attempt)
    → is_pending e ≡ true
    → length attempts ≤ fuel
    → returned (
        connect_with_timeout fuel timeout_ms (record {
          get_flags = some flags;
          set_nonblocking = true;
          connect_error = some e;
          begin = some now;
          attempts = attempts;
          set_back = true;
        }))
      ≡ with_flags (decision (deadline_of now timeout_ms) attempts)
unfolding connect_with_timeout try_connect
connect_with_timeout-decision fuel timeout_ms flags e now attempts p h =
    let meant = wait_connected-decision fuel (deadline_of now timeout_ms) attempts e h in
    rw (sym meant)
      (rw p (returned_flags (wait_connected fuel (deadline_of now timeout_ms) attempts e)))
