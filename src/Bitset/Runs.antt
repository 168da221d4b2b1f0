-- ===== src/Bitset/Runs.antt =====
-- The theorems about bitsets at concrete ones.
use torr.Prelude.{ℕ, zero, suc, ◌+◌, ◌≡◌, refl, ◌<◌, ◌*◌, true, false, none, some, arith}
use torr.Bitset.{
  bit_set, bit_get, contents, bit_of, find_positive_bit_compliment,
  find_first_positive_bit_compliment, find_mismatch, find_bit,
}
use torr.Bitset.Samples.{memory, ours, theirs, ours-IsValid, theirs-IsValid}
use torr.Bitset.Laws.{Changes, bit_set-Changes}
use torr.Bitset.Find.{IsWanted, find_first_misses}

bit_set-Changes_example : Changes true memory ours 9 (bit_set memory ours 9)
bit_set-Changes_example = bit_set-Changes 9 ours-IsValid

-- With one skip the search goes on to the second byte.
found_with_a_skip : find_positive_bit_compliment memory ours theirs 1 ≡ some (some 8)
unfolding find_positive_bit_compliment find_mismatch find_bit bit_get contents bit_of
found_with_a_skip = refl

-- Their bit 8 is wanted, and is not found: the bytes differ in our bit 1 first.
bit_8-IsWanted : IsWanted memory ours theirs 8
unfolding bit_get contents bit_of
bit_8-IsWanted = (refl, refl)

low_bits_clear : (j : ℕ) → j < 8 → bit_get memory theirs j ≡ some false
unfolding bit_get contents bit_of
low_bits_clear zero h = refl
low_bits_clear (suc zero) h = refl
low_bits_clear (suc (suc zero)) h = refl
low_bits_clear (suc (suc (suc zero))) h = refl
low_bits_clear (suc (suc (suc (suc zero)))) h = refl
low_bits_clear (suc (suc (suc (suc (suc zero))))) h = refl
low_bits_clear (suc (suc (suc (suc (suc (suc zero)))))) h = refl
low_bits_clear (suc (suc (suc (suc (suc (suc (suc zero))))))) h = refl
low_bits_clear (suc (suc (suc (suc (suc (suc (suc (suc j)))))))) h = absurd (omega arith)

nothing_in_byte_0 : (j : ℕ) → j < 8 → ¬ IsWanted memory ours theirs (0 * 8 + j)
nothing_in_byte_0 j h w =
    let e : 0 * 8 + j ≡ j = omega arith in cc (rw e at (w.0), low_bits_clear j h)

find_first_misses_example : find_first_positive_bit_compliment memory ours theirs ≡ some none
unfolding contents
find_first_misses_example =
    find_first_misses memory ours theirs ours-IsValid theirs-IsValid 0 (omega arith)
      (λ j h. absurd (omega arith)) (omega arith) nothing_in_byte_0
