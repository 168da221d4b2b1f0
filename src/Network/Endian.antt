-- ===== src/Network/Endian.antt =====
-- source/network/socket/endian.hpp: the bytes in memory of `big_endian_uint16_t`, `_uint32_t` and
-- `_uint64_t`, whose only field is the value in network byte order.
use torr.Prelude.{
  ℕ, zero, suc, ◌+◌, ◌*◌, ◌/◌, ◌%◌, ◌^◌, ◌<◌, List, [], ◌∷◌, ◌++◌, ◌≡◌, refl, ◌∙◌, arith, length,
  length-append, u32, u64,
}

-- The bytes of a value of so many bytes, the highest first.
unfoldable pub big_endian : ℕ → ℕ → List ℕ
big_endian zero v = []
big_endian (suc n) v = big_endian n (v / 256) ++ v % 256 ∷ []

unfoldable pub big_endian_from : ℕ → List ℕ → ℕ
big_endian_from acc [] = acc
big_endian_from acc (x ∷ xs) = big_endian_from (acc * 256 + x) xs

-- `as_small_endian`
abbrev pub as_small_endian : List ℕ → ℕ
as_small_endian xs = big_endian_from 0 xs

-- The three constructors, with the conversion to the width of the argument.
abbrev pub big_endian_uint16 : ℕ → List ℕ
big_endian_uint16 v = big_endian 2 (v % 2 ^ 16)

abbrev pub big_endian_uint32 : ℕ → List ℕ
big_endian_uint32 v = big_endian 4 (u32 v)

abbrev pub big_endian_uint64 : ℕ → List ℕ
big_endian_uint64 v = big_endian 8 (u64 v)

pub length-big_endian : (n v : ℕ) → length (big_endian n v) ≡ n
unfolding big_endian
length-big_endian zero v = refl
length-big_endian (suc n) v =
    length-append (big_endian n (v / 256)) (v % 256 ∷ [])
    ∙ omega (arith, length-big_endian n (v / 256))

big_endian_from-append :
    (acc : ℕ) (xs : List ℕ) (x : ℕ)
    → big_endian_from acc (xs ++ x ∷ []) ≡ big_endian_from acc xs * 256 + x
unfolding big_endian_from
big_endian_from-append acc [] x = refl
big_endian_from-append acc (y ∷ ys) x = big_endian_from-append (acc * 256 + y) ys x

-- The largest value of so many bytes, plus one.
abbrev pub capacity : ℕ → ℕ
capacity zero = 1
capacity (suc n) = capacity n * 256

-- A value that fits in its bytes is read back from them.
pub as_small_endian-big_endian : (n v : ℕ) → v < capacity n → as_small_endian (big_endian n v) ≡ v
unfolding big_endian big_endian_from
as_small_endian-big_endian zero v h = omega arith
as_small_endian-big_endian (suc n) v h =
    big_endian_from-append 0 (big_endian n (v / 256)) (v % 256)
    ∙ rw (as_small_endian-big_endian n (v / 256) (omega arith)) (omega arith)

-- A 32-bit value is read back from its bytes, and a larger one is taken modulo 2 ^ 32.
pub as_small_endian-big_endian_uint32 : (v : ℕ) → as_small_endian (big_endian_uint32 v) ≡ u32 v
as_small_endian-big_endian_uint32 v = as_small_endian-big_endian 4 (u32 v) (omega arith)

-- The value of a 32-bit word of the machine whose four bytes in memory, the lowest first, are given.
abbrev pub little_endian_uint32 : List ℕ → ℕ
little_endian_uint32 (a ∷ b ∷ c ∷ d ∷ _) = as_small_endian (d ∷ c ∷ b ∷ a ∷ [])
little_endian_uint32 _ = 0

-- `ntohl` on a little-endian machine.
unfoldable pub ntohl : ℕ → ℕ
ntohl v = little_endian_uint32 (big_endian_uint32 v)
