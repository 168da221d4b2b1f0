-- ===== src/Bitset/Samples.antt =====
-- Two bitsets for the tests.
use torr.Prelude.{refl, [], ◌∷◌, none, some, arith}
use torr.Bitset.{Memory, Bitset, contents}
use torr.Bitset.Laws.{IsValid, IsBytes}

-- One shared buffer, at address 7.
abbrev pub memory : Memory
memory a = 0x02 ∷ 0x00 ∷ []

abbrev pub ours : Bitset
ours = record { own = []; alternate = some 7; bytes_size = 2; bits_size = 16 }

abbrev pub theirs : Bitset
theirs = record { own = 0x00 ∷ 0x01 ∷ []; alternate = none; bytes_size = 2; bits_size = 16 }

ours-IsBytes : IsBytes (0x02 ∷ 0x00 ∷ [])
ours-IsBytes i = grind arith

theirs-IsBytes : IsBytes (0x00 ∷ 0x01 ∷ [])
theirs-IsBytes i = grind arith

pub ours-IsValid : IsValid memory ours
unfolding contents
ours-IsValid = record { enough = omega arith; bits = refl; are_bytes = ours-IsBytes }

pub theirs-IsValid : IsValid memory theirs
unfolding contents
theirs-IsValid = record { enough = omega arith; bits = refl; are_bytes = theirs-IsBytes }
