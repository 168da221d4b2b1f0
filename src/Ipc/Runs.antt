-- ===== src/Ipc/Runs.antt =====
-- Tests of source/ipc, and its theorems at concrete inputs.
use torr.Prelude.{ℕ, ◌+◌, [], ◌∷◌, arith}
use torr.Ipc.{new_channel, read_amount, readable, read}
use torr.Ipc.Laws.{IsRead, read-IsRead}

read-IsRead_example :
    IsRead
      (λ (old n : ℕ). old + n)
      (λ (old n : ℕ). (omega arith, omega arith))
      (read_amount (λ (old n : ℕ). old + n) 3 (new_channel 7))
      (1 ∷ 2 ∷ 3 ∷ 4 ∷ [])
      (new_channel 7)
      (read (λ (old n : ℕ). old + n) readable 3 (1 ∷ 2 ∷ 3 ∷ 4 ∷ []) (new_channel 7))
read-IsRead_example =
    read-IsRead (λ (old n : ℕ). old + n) (λ (old n : ℕ). (omega arith, omega arith)) 3
      (1 ∷ 2 ∷ 3 ∷ 4 ∷ []) (new_channel 7)
