-- ===== src/Bitset.antt =====
-- source/generic/dynamic_bitset.hpp. The bytes of a bitset are its own, or those of a buffer that
-- it was given, which others may share: shared buffers stand in a memory, by their address.
pub mod Bits
pub mod Laws
pub mod Find
pub mod Samples
mod Runs
use torr.Prelude.{
  ℕ, zero, suc, ◌+◌, ◌-◌, ◌*◌, ◌/◌, ◌%◌, ◌^◌, Bool, true, false, not, ◌&&◌, List, [], ◌∷◌, Option,
  none, some, get_elem?, set, ltb, leb, ◌==◌, if◌then◌else◌, min, u8,
}
use Prim.Native.Nat.{bit_and, bit_or}

-- `none` is an access out of bounds, which the language leaves undefined.
infixl 5 ◌>>=◌
abbrev pub ◌>>=◌ : {A B : Type 0} → Option A → (A → Option B) → Option B
none >>= f = none
some a >>= f = f a

-- One bit of a byte: `b & (1 << pos)`, `b |= 1 << pos` and `b &= ~(1 << pos)`, cut to a byte.
unfoldable pub bit_of : ℕ → ℕ → Bool
bit_of b k = not (bit_and b (2 ^ k) == 0)

unfoldable pub with_bit : ℕ → ℕ → ℕ
with_bit b k = u8 (bit_or b (2 ^ k))

unfoldable pub without_bit : ℕ → ℕ → ℕ
without_bit b k = bit_and b (255 - 2 ^ k)

-- `bitset_u8_bit_get` and `bitset_u8_bit_toggle`
unfoldable pub bitset_u8_bit_get : ℕ → ℕ → Bool
unfolding bit_of
bitset_u8_bit_get b pos = bit_of b pos

unfoldable pub bitset_u8_bit_toggle : List ℕ → ℕ → Bool → Option (List ℕ)
bitset_u8_bit_toggle b pos toggle = do
  x ← get_elem? b (pos / 8)
  some (set b (pos / 8) (if toggle then with_bit x (pos % 8) else without_bit x (pos % 8)))

abbrev pub Memory : Type 0
Memory = ℕ → List ℕ

-- `m_bytes`, `m_alternate_bytes`, `m_bytes_size` and `m_bits_size`
pub record Bitset : Type 0 where
  pub own : List ℕ
  pub alternate : Option ℕ
  pub bytes_size : ℕ
  pub bits_size : ℕ

abbrev pub empty : Bitset
empty = record { own = []; alternate = none; bytes_size = 0; bits_size = 0 }

-- `copy`: the copy constructor and the assignment. `indeterminate` is what `new` leaves in the
-- bytes that the copy owns; those of the source are not copied.
unfoldable pub copy : List ℕ → Bitset → Bitset
copy indeterminate source = record {
  own = indeterminate;
  alternate = source.alternate;
  bytes_size = source.bytes_size;
  bits_size = source.bits_size;
}

-- `resize`, which leaves a shared buffer in use.
unfoldable pub resize : List ℕ → Bitset → ℕ → Bitset
resize indeterminate b bytes = record b {
  bytes_size = bytes;
  bits_size = bytes * 8;
  own = indeterminate;
}

-- `from_existing_buffer`
unfoldable pub from_existing_buffer : Bitset → ℕ → ℕ → Bitset
from_existing_buffer b address size = record b {
  alternate = some address;
  bytes_size = size;
  bits_size = size * 8;
}

-- `data` and `const_data`: the bytes in use, and a change of them.
unfoldable pub contents : Memory → Bitset → List ℕ
contents m b = elim b.alternate [ none ↦ b.own | some a ↦ m a ]

abbrev update : Memory → ℕ → List ℕ → Memory
update m a bytes x = if a == x then bytes else m x

unfoldable pub with_contents : Memory → Bitset → List ℕ → Memory × Bitset
with_contents m b bytes = elim b.alternate [
  | none ↦ (m, record b { own = bytes })
  | some a ↦ (update m a bytes, b)
]

-- `boundary`
unfoldable pub boundary : Bitset → ℕ → Bool
boundary b bit = if leb b.bits_size bit then false else true

abbrev changed : Memory → Bitset → ℕ → ℕ → Bool × Memory × Bitset
changed m b i x = let (m', b') = with_contents m b (set (contents m b) i x) in (true, m', b')

-- `bit_set`
unfoldable pub bit_set : Memory → Bitset → ℕ → Option (Bool × Memory × Bitset)
unfolding boundary
bit_set m b bit =
    if boundary b bit
    then (do
      x ← get_elem? (contents m b) (bit / 8)
      some (changed m b (bit / 8) (with_bit x (bit % 8))))
    else some (false, m, b)

-- `bit_clear`
unfoldable pub bit_clear : Memory → Bitset → ℕ → Option (Bool × Memory × Bitset)
unfolding boundary
bit_clear m b bit =
    if boundary b bit
    then (do
      x ← get_elem? (contents m b) (bit / 8)
      some (changed m b (bit / 8) (without_bit x (bit % 8))))
    else some (false, m, b)

-- `bit_get`
unfoldable pub bit_get : Memory → Bitset → ℕ → Option Bool
unfolding boundary
bit_get m b bit =
    if boundary b bit
    then (do x ← get_elem? (contents m b) (bit / 8); some (bit_of x (bit % 8)))
    else some false

-- The first loop of `find_positive_bit_compliment`, over the bytes from `i`: the position of the
-- mismatched byte on which it stops, or of the last one.
unfoldable pub find_mismatch : ℕ → ℕ → ℕ → List ℕ → List ℕ → Option ℕ → Option (Option ℕ)
find_mismatch zero i skips friend this last = some last
find_mismatch (suc n) i skips friend this last = do
  x ← get_elem? friend i
  y ← get_elem? this i
  elim (x == y) [
    | true ↦ find_mismatch n (i + 1) skips friend this last
    | false ↦ elim (skips == 0) [
      | true ↦ some (some i)
      | false ↦ find_mismatch n (i + 1) (skips - 1) friend this (some i)
    ]
  ]

-- The second loop, over the bits of a byte from `i`.
unfoldable pub find_bit : ℕ → ℕ → Memory → Bitset → Bitset → ℕ → Option (Option ℕ)
find_bit zero i m friend this start = some none
find_bit (suc n) i m friend this start = do
  theirs ← bit_get m friend (start + i)
  ours ← bit_get m this (start + i)
  elim (theirs && not ours) [
    | true ↦ some (some (start + i))
    | false ↦ find_bit n (i + 1) m friend this start
  ]

abbrev pub bit_in : Memory → Bitset → Bitset → Option ℕ → Option (Option ℕ)
bit_in m friend this none = some none
bit_in m friend this (some i) = find_bit 8 0 m friend this (i * 8)

-- `find_positive_bit_compliment`; `skips` is the number drawn at random, or 0.
unfoldable pub find_positive_bit_compliment : Memory → Bitset → Bitset → ℕ → Option (Option ℕ)
find_positive_bit_compliment m this friend skips = do
  mismatch ←
      find_mismatch (min this.bytes_size friend.bytes_size) 0 skips (contents m friend)
        (contents m this) none
  bit_in m friend this mismatch

-- `find_first_positive_bit_compliment`
unfoldable pub find_first_positive_bit_compliment : Memory → Bitset → Bitset → Option (Option ℕ)
unfolding find_positive_bit_compliment
find_first_positive_bit_compliment m this friend = find_positive_bit_compliment m this friend 0
