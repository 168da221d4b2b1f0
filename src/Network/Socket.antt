-- ===== src/Network/Socket.antt =====
-- source/network/socket/tcp.cpp: `send` and `receive`. What the operating system does at each call
-- is a script that the socket is given: the model of a connection is what arrives on it, how much
-- of each `send` is accepted, and what has been sent.
pub mod Connect
pub mod Timeouts
pub mod Descriptors
mod Runs
use torr.Prelude.{
  ℕ, Bool, true, false, List, [], ◌∷◌, ◌++◌, Option, none, some, length, take, drop, leb,
  if◌then◌else◌,
}

-- A segment may be read in parts; a failure is one failed call; a closed connection stays closed.
pub data Event : Type 0 where
  segment : List ℕ → Event
  failure closed : Event

pub record Socket : Type 0 where
  pub incoming : List Event
  pub accepts : List (Option ℕ)
  pub sent : List (List ℕ)

-- `tcp::send`: `recv` and `send` report -1 where the result is `none`.
unfoldable pub send : Socket → List ℕ → Option ℕ × Socket
send s xs = elim s.accepts [
  | [] ↦ (none, s)
  | none ∷ rest ↦ (none, record s { accepts = rest })
  | some n ∷ rest ↦ (some n, record s { accepts = rest; sent = s.sent ++ take n xs ∷ [] })
]

-- `tcp::receive` of at most so many bytes.
unfoldable pub receive : Socket → ℕ → Option (List ℕ) × Socket
receive s n = elim s.incoming [
  | [] ↦ (none, s)
  | failure ∷ rest ↦ (none, record s { incoming = rest })
  | closed ∷ rest ↦ (some [], s)
  | segment xs ∷ rest ↦
      if leb (length xs) n
      then (some xs, record s { incoming = rest })
      else (some (take n xs), record s { incoming = segment (drop n xs) ∷ rest })
]

abbrev pub has_value {ℓ} : {A : Type ℓ} → Option A → Bool
has_value none = false
has_value (some a) = true
