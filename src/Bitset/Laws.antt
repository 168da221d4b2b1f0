-- ===== src/Bitset/Laws.antt =====
-- `bit_set`, `bit_clear` and `bit_get` of dynamic_bitset.hpp as operations on a set of bits.
use torr.Prelude.{
  ℕ, zero, suc, ◌*◌, ◌/◌, ◌%◌, ◌≤◌, ◌<◌, ◌≡◌, refl, ◌∙◌, sym, Bool, true, false, ◌&&◌, List, [],
  ◌∷◌, Option, some, length, get_elem?, get_or, set, length-set, arith, ◌==◌, if◌then◌else◌, ==_iff,
  Bool-cases, inl, inr,
}
use torr.Bitset.{
  Memory, Bitset, contents, with_contents, boundary, bit_of, bit_set, bit_clear, bit_get,
}
use torr.Bitset.Bits.{Updates, with_bit-Updates, without_bit-Updates}

abbrev pub IsBytes : List ℕ → Type 0
IsBytes l = (i : ℕ) → get_or l i 0 < 256

-- The sizes agree, and the bytes in use are bytes and at least as many as the size says.
pub record IsValid (m : Memory) (b : Bitset) : Type 0 where
  pub enough : b.bytes_size ≤ length (contents m b)
  pub bits : b.bits_size ≡ b.bytes_size * 8
  pub are_bytes : IsBytes (contents m b)

pub get_elem?-in : (l : List ℕ) (i : ℕ) → i < length l → get_elem? l i ≡ some (get_or l i 0)
get_elem?-in [] i h = elim h [ ]
get_elem?-in (x ∷ xs) zero h = refl
get_elem?-in (x ∷ xs) (suc i) h = get_elem?-in xs i (omega arith)

get_or-set :
    (l : List ℕ) (i j v : ℕ)
    → i < length l
    → get_or (set l i v) j 0 ≡ (if i == j then v else get_or l j 0)
get_or-set [] i j v h = elim h [ ]
get_or-set (x ∷ xs) zero zero v h = refl
get_or-set (x ∷ xs) zero (suc j) v h = ground arith
get_or-set (x ∷ xs) (suc i) zero v h = ground arith
get_or-set (x ∷ xs) (suc i) (suc j) v h = get_or-set xs i j v (omega arith) ∙ ground arith

contents-with_contents :
    (m : Memory) (b : Bitset) (l : List ℕ)
    → contents (with_contents m b l).0 (with_contents m b l).1 ≡ l
unfolding contents with_contents
contents-with_contents m b l = ground arith

sizes-with_contents :
    (m : Memory) (b : Bitset) (l : List ℕ)
    → ((with_contents m b l).1.bytes_size ≡ b.bytes_size)
      × ((with_contents m b l).1.bits_size ≡ b.bits_size)
unfolding with_contents
sizes-with_contents m b l = ground arith

pub in_range :
    {m : Memory} {b : Bitset} (j : ℕ)
    → IsValid m b
    → boundary b j ≡ true
    → j / 8 < length (contents m b)
unfolding boundary
in_range j w h = ground (arith, w.enough, w.bits)

-- A bit is read from its byte.
bit_get_lem :
    {m : Memory} {b : Bitset} (j : ℕ)
    → IsValid m b
    → bit_get m b j ≡ some (boundary b j && bit_of (get_or (contents m b) (j / 8) 0) (j % 8))
unfolding bit_get
bit_get_lem {m} {b} j w = elim (Bool-cases (boundary b j)) [
  | inl e ↦ rw (e, bit_get) (rw (get_elem?-in (contents m b) (j / 8) (in_range j w e)) refl)
  | inr e ↦ rw (e, bit_get) refl
]

-- The state after the byte of a bit is updated by `f`.
abbrev pub after : (ℕ → ℕ → ℕ) → Memory → Bitset → ℕ → Memory × Bitset
after f m b bit =
    with_contents m b
      (set (contents m b) (bit / 8) (f (get_or (contents m b) (bit / 8) 0) (bit % 8)))

-- An operation returns whether the bit is in range; in range it gives the bit the value `v`, and
-- otherwise it changes nothing. No other bit changes, the sizes stay, and nothing is accessed out
-- of bounds.
pub record Changes (v : Bool) (m : Memory) (b : Bitset) (bit : ℕ)
    (result : Option (Bool × Memory × Bitset)) : Type 0 where
  pub memory : Memory
  pub bitset : Bitset
  pub returns : result ≡ some (boundary b bit, memory, bitset)
  pub valid : IsValid memory bitset
  pub size : bitset.bytes_size ≡ b.bytes_size
  pub reads :
      (j : ℕ)
      → bit_get memory bitset j ≡ (if boundary b bit && (bit == j) then some v else bit_get m b j)

same_byte :
    (bit j : ℕ) (v : Bool) (g : ℕ → Bool)
    → (bit / 8 == j / 8) ≡ true
    → (if bit % 8 == j % 8 then v else g (bit / 8)) ≡ (if bit == j then v else g (j / 8))
same_byte bit j v g e =
    let same : bit / 8 ≡ j / 8 = (==_iff _ _).0 e in
    rw same (elim (Bool-cases (bit == j)) [
      | inl h ↦ let at : (bit % 8 == j % 8) ≡ true = ground arith in rw (h, at) refl
      | inr h ↦ let at : (bit % 8 == j % 8) ≡ false = ground arith in rw (h, at) refl
    ])

other_byte : (bit j : ℕ) (v c : Bool) → (bit / 8 == j / 8) ≡ false → c ≡ (if bit == j then v else c)
other_byte bit j v c e = let ne : (bit == j) ≡ false = ground arith in rw ne refl

module _ {f : ℕ → ℕ → ℕ} {v : Bool} (u : Updates f v) where
  updated_bit :
      (l : List ℕ) (bit j : ℕ)
      → IsBytes l
      → bit / 8 < length l
      → bit_of (get_or (set l (bit / 8) (f (get_or l (bit / 8) 0) (bit % 8))) (j / 8) 0) (j % 8)
        ≡ (if bit == j then v else bit_of (get_or l (j / 8) 0) (j % 8))
  updated_bit l bit j h r =
      rw (get_or-set l (bit / 8) (j / 8) (f (get_or l (bit / 8) 0) (bit % 8)) r)
        (elim (Bool-cases (bit / 8 == j / 8)) [
          | inl e ↦ rw e (
              u.bits (get_or l (bit / 8) 0) (bit % 8) (j % 8) (h (bit / 8)) (omega arith)
                (omega arith)
              ∙ same_byte bit j v (λ i. bit_of (get_or l i 0) (j % 8)) e)
          | inr e ↦ rw e (other_byte bit j v (bit_of (get_or l (j / 8) 0) (j % 8)) e)
        ])

  module _ {m : Memory} {b : Bitset} (bit : ℕ) (w : IsValid m b) where
    abbrev m' : Memory
    m' = (after f m b bit).0

    abbrev b' : Bitset
    b' = (after f m b bit).1

    contents-after :
        contents m' b'
        ≡ set (contents m b) (bit / 8) (f (get_or (contents m b) (bit / 8) 0) (bit % 8))
    contents-after = contents-with_contents m b _

    boundary-after : (j : ℕ) → boundary b' j ≡ boundary b j
    unfolding boundary
    boundary-after j = rw (sizes-with_contents m b _).1 refl

    IsValid-after : bit / 8 < length (contents m b) → IsValid m' b'
    IsValid-after r = record {
      enough = rw (contents-after, length-set, (sizes-with_contents m b _).0) w.enough;
      bits = rw ((sizes-with_contents m b _).0, (sizes-with_contents m b _).1) w.bits;
      are_bytes = λ i. rw contents-after (
          rw
            (get_or-set (contents m b) (bit / 8) i (f (get_or (contents m b) (bit / 8) 0) (bit % 8))
              r)
            (ground (
              arith,
              w.are_bytes i,
              u.is_byte (get_or (contents m b) (bit / 8) 0) (bit % 8) (w.are_bytes (bit / 8))
                  (omega arith),
            )));
    }

    reads-after :
        (j : ℕ)
        → boundary b bit ≡ true
        → bit_get m' b' j ≡ (if bit == j then some v else bit_get m b j)
    reads-after j e =
        let r = in_range bit w e in
        bit_get_lem j (IsValid-after r)
        ∙ rw (boundary-after j, contents-after, updated_bit (contents m b) bit j w.are_bytes r)
            (elim (Bool-cases (bit == j)) [
              | inl h ↦ rw h (ground (arith, (==_iff bit j).0 h, e))
              | inr h ↦ rw h (sym (bit_get_lem j w))
            ])

module _ {f : ℕ → ℕ → ℕ} {v : Bool} (u : Updates f v) {m : Memory} {b : Bitset} (bit : ℕ)
    (w : IsValid m b) where
  Changes-in_range :
      boundary b bit ≡ true
      → (result : Option (Bool × Memory × Bitset))
      → result ≡ some (true, (after f m b bit).0, (after f m b bit).1)
      → Changes v m b bit result
  Changes-in_range e result h = record {
    memory = (after f m b bit).0;
    bitset = (after f m b bit).1;
    returns = h ∙ rw e refl;
    valid = IsValid-after u bit w (in_range bit w e);
    size = (sizes-with_contents m b _).0;
    reads = λ j. reads-after u bit w j e ∙ rw e (ground arith);
  }

  Changes-outside :
      boundary b bit ≡ false
      → (result : Option (Bool × Memory × Bitset)) → result ≡ some (false, m, b)
      → Changes v m b bit result
  Changes-outside e result h = record {
    memory = m;
    bitset = b;
    returns = h ∙ rw e refl;
    valid = w;
    size = refl;
    reads = λ j. rw e refl;
  }

-- `bit_set` on a valid bitset sets the bit, if it is in range, and changes no other bit.
pub bit_set-Changes :
    {m : Memory} {b : Bitset} (bit : ℕ) → IsValid m b → Changes true m b bit (bit_set m b bit)
bit_set-Changes {m} {b} bit w = elim (Bool-cases (boundary b bit)) [
  | inl e ↦
      Changes-in_range with_bit-Updates bit w e (bit_set m b bit) (
        unfold bit_set in rw e (rw (get_elem?-in (contents m b) (bit / 8) (in_range bit w e)) refl))
  | inr e ↦ Changes-outside with_bit-Updates bit w e (bit_set m b bit) (unfold bit_set in rw e refl)
]

-- `bit_clear` on a valid bitset clears the bit, if it is in range, and changes no other bit.
pub bit_clear-Changes :
    {m : Memory} {b : Bitset} (bit : ℕ) → IsValid m b → Changes false m b bit (bit_clear m b bit)
bit_clear-Changes {m} {b} bit w = elim (Bool-cases (boundary b bit)) [
  | inl e ↦ Changes-in_range without_bit-Updates bit w e (bit_clear m b bit) (
      unfold bit_clear in rw e (rw (get_elem?-in (contents m b) (bit / 8) (in_range bit w e)) refl))
  | inr e ↦
      Changes-outside without_bit-Updates bit w e (bit_clear m b bit)
        (unfold bit_clear in rw e refl)
]

-- A read of a valid bitset is never out of bounds.
pub bit_get_total :
    {m : Memory} {b : Bitset} (j : ℕ) → IsValid m b → (x : Bool) × (bit_get m b j ≡ some x)
bit_get_total j w = (_, bit_get_lem j w)
