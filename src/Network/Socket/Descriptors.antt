-- ===== src/Network/Socket/Descriptors.antt =====
-- source/network/socket/tcp.cpp and udp.cpp: the descriptor and the address of a socket, and its
-- calls of the operating system, each of whose results is given.
use torr.Prelude.{
  ℕ, ◌==◌, Bool, true, false, not, List, [], ◌∷◌, ◌++◌, Option, none, some, Result, ok, err, ◌>>=◌,
  if◌then◌else◌,
}
use torr.Network.Endian.{big_endian_uint16}
use torr.Network.Socket.Connect.{Calls, ConnectFault, connect_with_timeout}

-- The messages of the errors.
pub data SocketError : Type 0 where
  invalid_address no_socket send_failed receive_failed setsockopt_failed : SocketError

-- `sockaddr_in`: the address, and the bytes of the port in memory.
pub record SocketAddress : Type 0 where
  pub address : ℕ
  pub port : List ℕ

-- `tcp` or `udp`, with the descriptors that it has closed.
pub record Descriptor : Type 0 where
  pub socket_fd : Option ℕ
  pub connect_to : SocketAddress
  pub closed : List ℕ

-- The constructors, and the destructors.
abbrev pub new_descriptor : Descriptor
new_descriptor = record {
  socket_fd = none;
  connect_to = record { address = 0; port = 0 ∷ 0 ∷ [] };
  closed = [];
}

unfoldable pub close_descriptor : Descriptor → Descriptor
close_descriptor d = elim d.socket_fd [
  | none ↦ d
  | some fd ↦ record d { closed = d.closed ++ fd ∷ [] }
]

-- `htons` of the port as a number of 16 bits.
abbrev pub address_of : ℕ → ℕ → SocketAddress
address_of address port = record { address = address; port = big_endian_uint16 port }

-- `tcp::connect` of an address, given what `socket` returns; the result of `connect_with_timeout` is
-- not looked at, but the call has to end.
unfoldable pub tcp_connect :
    Option ℕ
    → ℕ
    → Calls
    → ℕ
    → ℕ
    → Descriptor
    → Result ConnectFault (Result SocketError ℕ × Descriptor)
tcp_connect made fuel os address port d =
    let opened = record (close_descriptor d) { socket_fd = made } in
    elim made [
      | none ↦ ok (err no_socket, opened)
      | some fd ↦ connect_with_timeout fuel 2000 os >>= λ (rc, flags).
          ok (ok fd, record opened { connect_to = address_of address port })
    ]

-- `tcp::connect` of a text, given what `inet_aton` returns: it connects to nothing, and returns the
-- descriptor that there is, which may be none.
unfoldable pub tcp_connect_text : Option ℕ → Descriptor → Result SocketError (Option ℕ)
tcp_connect_text none d = err invalid_address
tcp_connect_text (some address) d = ok d.socket_fd

-- `set_send_timeout`, given whether `setsockopt` succeeds.
abbrev pub set_send_timeout : Bool → Bool
set_send_timeout succeeds = if succeeds then true else false

-- `udp::connect` of an address, which does not close the descriptor that there was.
unfoldable pub udp_connect :
    Option ℕ → ℕ → ℕ → Descriptor → Result SocketError Descriptor × Descriptor
udp_connect none address port d = (err no_socket, record d { socket_fd = none })
udp_connect (some fd) address port d =
    let connected = record d { socket_fd = some fd; connect_to = address_of address port } in
    (ok connected, connected)

-- `udp::connect` of a text, given what `inet_aton` and `socket` return.
unfoldable pub udp_connect_text :
    Option ℕ → Option ℕ → ℕ → Descriptor → Result SocketError Descriptor × Descriptor
udp_connect_text none made port d = (err invalid_address, d)
udp_connect_text (some address) made port d = udp_connect made address port d

-- `udp::send`, given what `sendto` returns.
unfoldable pub udp_send : Option ℕ → Result SocketError ℕ
udp_send none = err send_failed
udp_send (some n) = ok n

-- `udp::receive`, given whether the two calls of `setsockopt` succeed and what `recvfrom` returns.
unfoldable pub udp_receive : ℕ → Bool × Bool → Option (List ℕ) → Result SocketError (List ℕ)
udp_receive timeout_seconds (set, reset) received =
    let timed = not (timeout_seconds == 0) in
    if timed
    then (if not set
        then err setsockopt_failed
        else if not reset
        then err setsockopt_failed
        else received_or_error received)
    else received_or_error received
  where
    received_or_error : Option (List ℕ) → Result SocketError (List ℕ)
    received_or_error none = err receive_failed
    received_or_error (some xs) = ok xs
