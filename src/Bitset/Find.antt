-- ===== src/Bitset/Find.antt =====
-- `find_positive_bit_compliment` of dynamic_bitset.hpp.
use torr.Prelude.{
  ℕ, zero, suc, ◌+◌, ◌-◌, ◌*◌, ◌≤◌, ◌<◌, ◌≡◌, ◌≢◌, refl, ap, ◌∙◌, Bool, true, false, ◌&&◌, not,
  List, Option, none, some, length, get_or, arith, ◌==◌, min, inl, inr, ◌⊎◌,
}
use torr.Bitset.{
  Memory, Bitset, ◌>>=◌, contents, bit_get, find_mismatch, find_bit, bit_in,
  find_positive_bit_compliment, find_first_positive_bit_compliment,
}
use torr.Bitset.Laws.{IsValid, bit_get_total, get_elem?-in}

-- A bit that the friend has and this bitset has not.
abbrev pub IsWanted : Memory → Bitset → Bitset → ℕ → Type 0
IsWanted m this friend i = (bit_get m friend i ≡ some true) × (bit_get m this i ≡ some false)

branch_total :
    (b : Bool) (p q : Option (Option ℕ))
    → ((r : Option ℕ) × (p ≡ some r))
    → ((r : Option ℕ) × (q ≡ some r))
    → (r : Option ℕ) × (◌≡◌ {A = Option (Option ℕ)} (elim b [ true ↦ p | false ↦ q ]) (some r))
branch_total true p q h k = h
branch_total false p q h k = k

branch_eq :
    (b : Bool) (p q r : Option (Option ℕ))
    → (b ≡ true → p ≡ r)
    → (b ≡ false → q ≡ r)
    → ◌≡◌ {A = Option (Option ℕ)} (elim b [ true ↦ p | false ↦ q ]) r
branch_eq true p q r h k = h refl
branch_eq false p q r h k = k refl

not_wanted :
    (x y : Bool) (p q : Option (Option ℕ))
    → (x ≡ true → y ≡ false → ⊥)
    → q ≡ some none
    → ◌≡◌ {A = Option (Option ℕ)} (elim (x && not y) [ true ↦ p | false ↦ q ]) (some none)
not_wanted true false p q h k = absurd (h refl refl)
not_wanted true true p q h k = k
not_wanted false y p q h k = k

module _ (m : Memory) (this friend : Bitset) where
  find_bit_sound :
      (n i start r : ℕ)
      → find_bit n i m friend this start ≡ some (some r)
      → IsWanted m this friend r × (start + i ≤ r) × (r < start + i + n)
  unfolding find_bit
  find_bit_sound zero i start r e = cc
  find_bit_sound (suc n) i start r e = ground (arith, find_bit_sound n (i + 1) start r)

  find_bit_total :
      (n i start : ℕ)
      → IsValid m this
      → IsValid m friend
      → (r : Option ℕ) × (find_bit n i m friend this start ≡ some r)
  unfolding find_bit
  find_bit_total zero i start v w = (none, refl)
  find_bit_total (suc n) i start v w =
      let (x, e) = bit_get_total (start + i) w in
      let (y, h) = bit_get_total (start + i) v in
      rw e (rw h (branch_total (x && not y) _ _ (_, refl) (find_bit_total n (i + 1) start v w)))

  -- No bit from `start + i` to `start + i + n` is wanted.
  find_bit-none :
      (n i start : ℕ)
      → IsValid m this
      → IsValid m friend
      → ((j : ℕ) → j < i + n → ¬ IsWanted m this friend (start + j))
      → find_bit n i m friend this start ≡ some none
  unfolding find_bit
  find_bit-none zero i start v w h = refl
  find_bit-none (suc n) i start v w h =
      let (x, e) = bit_get_total (start + i) w in
      let (y, g) = bit_get_total (start + i) v in
      let rest = find_bit-none n (i + 1) start v w (λ j l. h j (omega arith)) in
      rw e
        (rw g (not_wanted x y _ _ (λ p q. h i (omega arith) (e ∙ ap some p, g ∙ ap some q)) rest))

module _ (friend this : List ℕ) where
  find_mismatch_bounds :
      (n i skips : ℕ) (last : Option ℕ) (r : ℕ)
      → find_mismatch n i skips friend this last ≡ some (some r)
      → (r < i + n) ⊎ (last ≡ some r)
  unfolding find_mismatch
  find_mismatch_bounds zero i skips last r e = inr (cc)
  find_mismatch_bounds (suc n) i skips last r e = ground (
    arith,
    find_mismatch_bounds n (i + 1) skips last r,
    find_mismatch_bounds n (i + 1) (skips - 1) (some i) r,
  )

  find_mismatch_total :
      (n i skips : ℕ) (last : Option ℕ)
      → i + n ≤ length friend
      → i + n ≤ length this
      → (r : Option ℕ) × (find_mismatch n i skips friend this last ≡ some r)
  unfolding find_mismatch
  find_mismatch_total zero i skips last h k = (last, refl)
  find_mismatch_total (suc n) i skips last h k = rw (get_elem?-in friend i (omega arith)) (
      rw (get_elem?-in this i (omega arith)) (
        branch_total (get_or friend i 0 == get_or this i 0) _ _
          (find_mismatch_total n (i + 1) skips last (omega arith) (omega arith))
          (branch_total (skips == 0) _ _ (_, refl)
            (find_mismatch_total n (i + 1) (skips - 1) (some i) (omega arith) (omega arith)))))

  before :
      (i p : ℕ)
      → i ≤ p
      → (get_or friend i 0 == get_or this i 0) ≡ true
      → get_or friend p 0 ≢ get_or this p 0
      → i + 1 ≤ p
  before i p h e ne = ground arith

  here :
      (i p : ℕ)
      → i ≤ p
      → (get_or friend i 0 == get_or this i 0) ≡ false
      → ((j : ℕ) → j < p → get_or friend j 0 ≡ get_or this j 0)
      → i ≡ p
  here i p h e eq = ground (arith, eq i)

  -- With no skips the first byte that differs ends the loop.
  find_mismatch_first :
      (n i p : ℕ) (last : Option ℕ)
      → i ≤ p
      → p < i + n
      → i + n ≤ length friend
      → i + n ≤ length this
      → ((j : ℕ) → j < p → get_or friend j 0 ≡ get_or this j 0)
      → get_or friend p 0 ≢ get_or this p 0
      → find_mismatch n i 0 friend this last ≡ some (some p)
  unfolding find_mismatch
  find_mismatch_first zero i p last a b h k eq ne = absurd (omega arith)
  find_mismatch_first (suc n) i p last a b h k eq ne = rw (get_elem?-in friend i (omega arith)) (
      rw (get_elem?-in this i (omega arith)) (
        branch_eq (get_or friend i 0 == get_or this i 0) _ _ _
          (λ same.
            find_mismatch_first n (i + 1) p last (before i p a same ne) (omega arith) (omega arith)
              (omega arith) eq ne)
          (λ differ. ap (λ (x : ℕ). some (some x)) (here i p a differ eq))))

module _ (m : Memory) (this friend : Bitset) where
  abbrev common : ℕ
  common = min this.bytes_size friend.bytes_size

  bit_in_mismatch :
      (o : Option (Option ℕ)) (i : ℕ)
      → ((p : ℕ) → o ≡ some (some p) → p < common)
      → (o >>= bit_in m friend this) ≡ some (some i)
      → IsWanted m this friend i × (i < common * 8)
  bit_in_mismatch none i h e = cc
  bit_in_mismatch (some none) i h e = cc
  bit_in_mismatch (some (some p)) i h e =
      let (wanted, low, high) = find_bit_sound m this friend 8 0 (p * 8) i e in
      let below : p < common = h p refl in (wanted, omega arith)

  -- What is found is a bit that the friend has and this bitset has not, below the common size.
  pub find-IsWanted :
      (skips i : ℕ)
      → find_positive_bit_compliment m this friend skips ≡ some (some i)
      → IsWanted m this friend i × (i < common * 8)
  unfolding find_positive_bit_compliment
  find-IsWanted skips i e =
      bit_in_mismatch (find_mismatch common 0 skips (contents m friend) (contents m this) none) i
        (λ p h.
          bounded p
            (find_mismatch_bounds (contents m friend) (contents m this) common 0 skips none p h))
        e
    where
      bounded : (p : ℕ) → (p < 0 + common) ⊎ (◌≡◌ {A = Option ℕ} none (some p)) → p < common
      bounded p (inl h) = omega arith
      bounded p (inr h) = cc

  module _ (v : IsValid m this) (w : IsValid m friend) where
    bit_in_total : (o : Option ℕ) → (r : Option ℕ) × (bit_in m friend this o ≡ some r)
    bit_in_total none = (none, refl)
    bit_in_total (some p) = find_bit_total m this friend 8 0 (p * 8) v w

    -- On valid bitsets nothing is accessed out of bounds.
    pub find_total :
        (skips : ℕ) → (r : Option ℕ) × (find_positive_bit_compliment m this friend skips ≡ some r)
    unfolding find_positive_bit_compliment
    find_total skips =
        let (o, e) =
          find_mismatch_total (contents m friend) (contents m this) common 0 skips none
            (omega (arith, v.enough, w.enough)) (omega (arith, v.enough, w.enough)) in
        rw e (bit_in_total o)

    -- The defect of the search: where the first byte that differs holds no wanted bit, nothing is
    -- found, whatever the bytes behind it hold.
    pub find_first_misses :
        (p : ℕ)
        → p < common
        → ((j : ℕ) → j < p → get_or (contents m friend) j 0 ≡ get_or (contents m this) j 0)
        → get_or (contents m friend) p 0 ≢ get_or (contents m this) p 0
        → ((j : ℕ) → j < 8 → ¬ IsWanted m this friend (p * 8 + j))
        → find_first_positive_bit_compliment m this friend ≡ some none
    unfolding find_first_positive_bit_compliment
    find_first_misses p h eq ne none_wanted =
        rw
          (find_mismatch_first (contents m friend) (contents m this) common 0 p none (omega arith)
            (omega arith) (omega (arith, v.enough, w.enough)) (omega (arith, v.enough, w.enough)) eq
            ne)
          (find_bit-none m this friend 8 0 (p * 8) v w none_wanted)
