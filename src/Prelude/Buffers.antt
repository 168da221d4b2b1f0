-- ===== src/Prelude/Buffers.antt =====
-- Vectors of bytes: a write in the middle, and a resize.
use Prim.Native.Nat.{ℕ, zero, suc, ◌+◌, ◌-◌, ◌≤◌}
use mathlib.Core.Path.{◌≡◌, refl, sym, ap, ◌∙◌}
use mathlib.Core.List.{List, [], ◌∷◌, ◌++◌}
use native.Mathlib.Omega.{arith}
use torr.Prelude.Lists.{
  length, take, drop, replicate, take-append, length-append, length-take, length-drop,
  length-replicate,
}

module _ {A : Type 0} where
  pub take-all : (xs : List A) (n : ℕ) → length xs ≤ n → take n xs ≡ xs
  take-all [] zero h = refl
  take-all [] (suc n) h = refl
  take-all (x ∷ xs) zero h = elim h [ ]
  take-all (x ∷ xs) (suc n) h = ap (◌∷◌ x) (take-all xs n (omega arith))

  pub drop-all : (xs : List A) (n : ℕ) → length xs ≤ n → drop n xs ≡ []
  drop-all [] zero h = refl
  drop-all [] (suc n) h = refl
  drop-all (x ∷ xs) zero h = elim h [ ]
  drop-all (x ∷ xs) (suc n) h = drop-all xs n (omega arith)

  pub length-prefix :
      (i : ℕ) (old xs : List A) → i ≤ length old → length (take i old ++ xs) ≡ i + length xs
  length-prefix i old xs h = length-append (take i old) xs ∙ rw (length-take i old) (omega arith)

  -- What is written is behind what stays.
  pub take-overwrite :
      (i : ℕ) (old xs rest : List A)
      → i ≤ length old
      → take (i + length xs) (take i old ++ xs ++ rest) ≡ take i old ++ xs
  take-overwrite i old xs rest h =
      ap (λ n. take n (take i old ++ xs ++ rest)) (sym (length-prefix i old xs h))
      ∙ take-append (take i old ++ xs) rest

  pub length-overwrite :
      (i : ℕ) (old xs : List A)
      → i + length xs ≤ length old
      → length (take i old ++ xs ++ drop (i + length xs) old) ≡ length old
  length-overwrite i old xs h =
      length-append (take i old ++ xs) (drop (i + length xs) old)
      ∙ rw (length-prefix i old xs (omega arith))
          (rw (length-drop (i + length xs) old) (omega arith))

-- `resize` of a vector of bytes, which appends zeros.
abbrev pub resized : List ℕ → ℕ → List ℕ
resized old n = take n old ++ replicate (n - length old) 0

pub length-resized : (old : List ℕ) (n : ℕ) → length (resized old n) ≡ n
length-resized old n =
    let zeros : List ℕ = replicate (n - length old) 0 in
    let many : length zeros ≡ n - length old = length-replicate {A = ℕ} (n - length old) 0 in
    length-append (take n old) zeros ∙ rw (length-take n old) (omega (arith, many))

pub take-resized : (old : List ℕ) (n : ℕ) → length old ≤ n → take (length old) (resized old n) ≡ old
take-resized old n h =
    ap (λ (v : List ℕ). take (length old) (v ++ replicate (n - length old) 0)) (take-all old n h)
    ∙ take-append old (replicate (n - length old) 0)
