-- ===== src/Network/Socket/Runs.antt =====
-- The theorem about source/network/socket/cassync.h at a concrete input.
use torr.Prelude.{ℕ, true, List, [], ◌∷◌, none, some, ◌≡◌, refl, arith}
use torr.Network.Socket.Connect.{
  no_error, in_progress, interrupted, count, Timespec, poll_error, polled, Attempt,
  connect_with_timeout,
}
use torr.Network.Socket.Timeouts.{returned, connect_with_timeout-decision}

abbrev second : ℕ → Timespec
second n = record { seconds = n; nanoseconds = 0 }

-- A signal after a second, and the connection after another.
abbrev attempts : List Attempt
attempts =
    record { now = some (second 1); poll = poll_error interrupted; socket_error = none }
    ∷ record { now = some (second 2); poll = polled 1; socket_error = some no_error }
    ∷ []

connect_with_timeout-decision_example :
    returned (
      connect_with_timeout 2 2000 (record {
        get_flags = some 2;
        set_nonblocking = true;
        connect_error = some in_progress;
        begin = some (second 0);
        attempts = attempts;
        set_back = true;
      }))
    ≡ some (count 1, some 0)
connect_with_timeout-decision_example =
    connect_with_timeout-decision 2 2000 2 in_progress (second 0) attempts refl (omega arith)
