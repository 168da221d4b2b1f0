-- ===== src/Bitset/Bits.antt =====
-- The bits of a byte after one of them is set or cleared, for every byte by evaluation.
use torr.Prelude.{
  passes, passes_row, ℕ, ◌+◌, ◌*◌, ◌/◌, ◌%◌, ◌<◌, ◌≡◌, refl, Bool, true, false, ◌&&◌, arith, ◌==◌,
  ltb, if◌then◌else◌, ltb→lt,
}
use torr.Bitset.{bit_of, with_bit, without_bit}

abbrev same : Bool → Bool → Bool
same true b = b
same false true = false
same false false = true

same_sound : (a b : Bool) → same a b ≡ true → a ≡ b
same_sound true b h = ground arith
same_sound false true h = ground arith
same_sound false false h = refl

-- A number below 16384 is a byte and two positions in it.
set_test : ℕ → Bool
set_test n =
    let b = n / 64 in
    let k = n / 8 % 8 in
    let j = n % 8 in
    same (bit_of (with_bit b k) j) (if k == j then true else bit_of b j) && ltb (with_bit b k) 256

clear_test : ℕ → Bool
clear_test n =
    let b = n / 64 in
    let k = n / 8 % 8 in
    let j = n % 8 in
    same (bit_of (without_bit b k) j) (if k == j then false else bit_of b j)
    && ltb (without_bit b k) 256

set_table : passes set_test 16384 ≡ true
unfolding passes set_test bit_of with_bit
set_table = refl

clear_table : passes clear_test 16384 ≡ true
unfolding passes clear_test bit_of without_bit
clear_table = refl

-- The number in the tables for a byte and two positions.
abbrev code : ℕ → ℕ → ℕ → ℕ
code b k j = b * 64 + k * 8 + j

decode :
    (b k j : ℕ)
    → b < 256
    → k < 8
    → j < 8
    → (code b k j / 64 ≡ b) × (code b k j / 8 % 8 ≡ k) × (code b k j % 8 ≡ j) × (code b k j < 16384)
decode b k j hb hk hj = (omega arith, omega arith, omega arith, omega arith)

and_true : (a b : Bool) → (a && b) ≡ true → (a ≡ true) × (b ≡ true)
and_true true b h = (refl, h)
and_true false b h = (cc, cc)

-- What an update of a byte does to its bits: it gives bit `k` the value `v`.
pub record Updates (f : ℕ → ℕ → ℕ) (v : Bool) : Type 0 where
  pub bits :
      (b k j : ℕ) → b < 256 → k < 8 → j < 8 → bit_of (f b k) j ≡ (if k == j then v else bit_of b j)
  pub is_byte : (b k : ℕ) → b < 256 → k < 8 → f b k < 256

module _ (b k j : ℕ) (hb : b < 256) (hk : k < 8) (hj : j < 8) where
  set_row :
      (same (bit_of (with_bit b k) j) (if k == j then true else bit_of b j)
        && ltb (with_bit b k) 256)
      ≡ true
  unfolding set_test
  set_row =
      let (e, e', e'', l) = decode b k j hb hk hj in
      rw (e, e', e'') at (passes_row set_test 16384 (code b k j) l set_table)

  clear_row :
      (same (bit_of (without_bit b k) j) (if k == j then false else bit_of b j)
        && ltb (without_bit b k) 256)
      ≡ true
  unfolding clear_test
  clear_row =
      let (e, e', e'', l) = decode b k j hb hk hj in
      rw (e, e', e'') at (passes_row clear_test 16384 (code b k j) l clear_table)

pub with_bit-Updates : Updates with_bit true
with_bit-Updates = record {
  bits = λ b k j hb hk hj. same_sound _ _ (and_true _ _ (set_row b k j hb hk hj)).0;
  is_byte = λ b k hb hk. ltb→lt _ _ (and_true _ _ (set_row b k 0 hb hk (omega arith))).1;
}

pub without_bit-Updates : Updates without_bit false
without_bit-Updates = record {
  bits = λ b k j hb hk hj. same_sound _ _ (and_true _ _ (clear_row b k j hb hk hj)).0;
  is_byte = λ b k hb hk. ltb→lt _ _ (and_true _ _ (clear_row b k 0 hb hk (omega arith))).1;
}
