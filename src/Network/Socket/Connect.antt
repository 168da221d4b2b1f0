-- ===== src/Network/Socket/Connect.antt =====
-- source/network/socket/cassync.h: `connect_with_timeout`. What each call of the operating system
-- does is given, in the order in which the code makes them.
use torr.Prelude.{
  ℕ, zero, suc, ◌+◌, ◌*◌, ◌-◌, ◌/◌, ◌^◌, Bool, true, false, List, [], ◌∷◌, Option, none, some,
  Result, ok, err, ◌>>=◌, if◌then◌else◌, leb, ◌==◌, ◌&&◌, not, u32,
}

-- `errno`, as far as the code tells its values apart; zero is no error.
pub data Errno : Type 0 where
  no_error would_block in_progress interrupted timed_out : Errno
  other : ℕ → Errno

abbrev pub is_pending : Errno → Bool
is_pending would_block = true
is_pending in_progress = true
is_pending _ = false

abbrev pub is_interrupted : Errno → Bool
is_interrupted interrupted = true
is_interrupted _ = false

abbrev pub is_error : Errno → Bool
is_error no_error = false
is_error _ = true

-- The `int` that is returned: 0, what `poll` counts, or -1.
pub data Code : Type 0 where
  minus_one : Code
  count : ℕ → Code

-- `struct timespec`
pub record Timespec : Type 0 where
  pub seconds : ℕ
  pub nanoseconds : ℕ

-- `poll`: an error, or how many descriptors are ready.
pub data Polled : Type 0 where
  poll_error : Errno → Polled
  polled : ℕ → Polled

-- A round of the inner loop: the clock, if it can be read, the result of `poll`, and of
-- `getsockopt` with the error that it stores, if it succeeds.
pub record Attempt : Type 0 where
  pub now : Option Timespec
  pub poll : Polled
  pub socket_error : Option Errno

-- The value of `rc` and of `errno`.
abbrev pub Status : Type 0
Status = Code × Errno

pub data ConnectFault : Type 0 where
  out_of_fuel : ConnectFault

-- `deadline`
abbrev pub deadline_of : Timespec → ℕ → Timespec
deadline_of now timeout_ms = record now { nanoseconds = now.nanoseconds + timeout_ms * 1000000 }

-- `ms_until_deadline`, as its 32 bits: the difference of the nanoseconds is divided towards zero.
abbrev pub ms_until_deadline : Timespec → Timespec → ℕ
ms_until_deadline deadline now = u32 (
    deadline.seconds * 1000
    + (deadline.nanoseconds - now.nanoseconds) / 1000000
    + 2 ^ 64
    - now.seconds * 1000
    - (now.nanoseconds - deadline.nanoseconds) / 1000000)

abbrev pub is_negative : ℕ → Bool
is_negative ms = leb (2 ^ 31) ms

-- What follows `poll`.
unfoldable pub after_poll : Polled → Option Errno → Errno → Status
after_poll (poll_error e) socket_error before = (minus_one, e)
after_poll (polled zero) socket_error before = (count 0, before)
after_poll (polled (suc n)) none before = (count (suc n), before)
after_poll (polled (suc n)) (some e) before = (if is_error e then minus_one else count (suc n), e)

-- The body of the inner loop: whether it is left by a `break`, and what it leaves.
unfoldable pub attempt : Timespec → Errno → Attempt → Bool × Status
attempt deadline before a = elim a.now [
  | none ↦ (true, (minus_one, before))
  | some now ↦
      if is_negative (ms_until_deadline deadline now)
      then (true, (count 0, before))
      else (false, after_poll a.poll a.socket_error before)
]

-- The condition of the inner loop.
abbrev pub is_again : Status → Bool
is_again (minus_one, e) = is_interrupted e
is_again (count n, e) = false

-- The inner loop, on fuel.
unfoldable pub wait_connected : ℕ → Timespec → List Attempt → Errno → Result ConnectFault Status
wait_connected zero deadline attempts before = err out_of_fuel
wait_connected (suc fuel) deadline [] before = err out_of_fuel
wait_connected (suc fuel) deadline (a ∷ rest) before =
    let (broken, status) = attempt deadline before a in
    let again = wait_connected fuel deadline rest status.1 in
    if not broken && is_again status then again else ok status

-- Behind the inner loop, the timeout.
abbrev pub timed : Status → Status
timed (count zero, e) = (minus_one, timed_out)
timed (count (suc n), e) = (count (suc n), e)
timed (minus_one, e) = (minus_one, e)

-- What the operating system does in a call of `connect_with_timeout`: the flags of the socket, if
-- they can be read; whether each change of them succeeds; the error of `connect`, if it fails; the
-- clock; and the rounds.
pub record Calls : Type 0 where
  pub get_flags : Option ℕ
  pub set_nonblocking : Bool
  pub connect_error : Option Errno
  pub begin : Option Timespec
  pub attempts : List Attempt
  pub set_back : Bool

-- The value that `sockfd_flags_before` gets: that of the comparison.
abbrev pub sockfd_flags_before : Option ℕ → ℕ
sockfd_flags_before none = 1
sockfd_flags_before (some flags) = 0

-- The outer loop, which runs once.
unfoldable pub try_connect : ℕ → ℕ → Calls → Result ConnectFault Status
try_connect fuel timeout_ms os = elim os.connect_error [
  | none ↦ ok (count 0, no_error)
  | some e ↦ if not (is_pending e) then ok (minus_one, e) else elim os.begin [
    | none ↦ ok (minus_one, e)
    | some now ↦
        wait_connected fuel (deadline_of now timeout_ms) os.attempts e >>= λ s. ok (timed s)
  ]
]

-- `connect_with_timeout`, with the flags that it leaves, where it sets them.
unfoldable pub connect_with_timeout : ℕ → ℕ → Calls → Result ConnectFault (Code × Option ℕ)
connect_with_timeout fuel timeout_ms os =
    let before = sockfd_flags_before os.get_flags in
    if not (before == 0)
    then ok (minus_one, none)
    else if not os.set_nonblocking
    then ok (minus_one, none)
    else try_connect fuel timeout_ms os >>= λ (rc, e).
        ok (if os.set_back then (rc, some before) else (minus_one, none))
