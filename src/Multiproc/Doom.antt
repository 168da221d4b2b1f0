-- ===== src/Multiproc/Doom.antt =====
-- source/multiproc/multiproc.cpp: where a task has written the message of a piece whose payload the
-- fifo has not room for, every run ends in the deadlock.
use torr.Prelude.{ℕ, ◌+◌, ◌^◌, ◌≤◌, ◌<◌, ◌⊎◌, List, ◌++◌, some, ◌≡◌, length, get_elem?}
use torr.Ipc.{Channel}
use torr.Ipc.Laws.{IsGrowth}
use torr.Multiproc.{MultiprocMessage, message_bytes, download_piece_done}
use torr.Multiproc.System.{sending, reading, System, take as take_unit, tasks_hold}
use torr.Multiproc.Deadlock.{IsDeadlocked}

module _ (grow : ℕ → ℕ → ℕ) (growth : IsGrowth grow) (padding : ℕ × ℕ × ℕ × ℕ)
    (m : MultiprocMessage) (kind : m.message_type ≡ download_piece_done)
    (size : m.payload_size < 2 ^ 64) (index : m.field0 < 2 ^ 64) where
  -- A task has written this message and a part of the payload, of which the fifo has not room for
  -- the whole, and the parent has not read the message.
  abbrev pub IsDoomed : ℕ → ℕ → System → Type 0
  IsDoomed room i s =
      (s.semaphore ≡ 0)
      × (tasks_hold s.tasks ≡ 1)
      × (c : Channel) × (s.parent ≡ reading c)
      × (part ys : List ℕ) × (s.fifo ≡ message_bytes padding m ++ part)
      × (get_elem? s.tasks i ≡ some (sending ys))
      × (length s.fifo ≤ room)
      × (room < length part + length ys)

  module _ (room i : ℕ) where
    abbrev pub IsLost : System → Type 0
    IsLost t = IsDoomed room i t ⊎ IsDeadlocked room i t
