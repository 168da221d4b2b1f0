-- ===== src/Bencode/Number.antt =====
-- `isdigit` and `std::stol`, as source/generic/bencode_map.hpp uses them, and decimal numerals.
use torr.Prelude.{
  ℕ, zero, suc, ◌+◌, ◌-◌, ◌*◌, ◌/◌, ◌%◌, ◌^◌, ◌≤◌, ◌<◌, ◌≡◌, refl, ◌∙◌, Bool, true, false, ◌&&◌,
  List, [], ◌∷◌, ◌++◌, arith, leb, ltb, ◌==◌, if◌then◌else◌, ℤ, pos, negsuc, Result, ok, err, All,
  Bool-cases, inl, inr, ltb→lt, lt→ltb, ◌≢◌, subst,
}

-- What ends a parse: an exception of `std::stol`, or `pop_back` on an empty vector, which the
-- language leaves undefined.
pub data Fault : Type 0 where
  invalid_argument out_of_range empty_queue : Fault

unfoldable pub is_digit : ℕ → Bool
is_digit c = leb 48 c && leb c 57

-- The number that the leading digits of a text stand for.
unfoldable pub digits_value : ℕ → List ℕ → ℕ
unfolding is_digit
digits_value acc [] = acc
digits_value acc (c ∷ cs) =
    let rest = digits_value (acc * 10 + (c - 48)) cs in if is_digit c then rest else acc

unfoldable pub has_digits : List ℕ → Bool
unfolding is_digit
has_digits [] = false
has_digits (c ∷ cs) = is_digit c

negated : ℕ → ℤ
negated zero = pos 0
negated (suc n) = negsuc n

-- `std::stol` of a text of digits and minus signs; a `long` has 64 bits.
unfoldable pub stol_unsigned : List ℕ → Result Fault ℤ
stol_unsigned cs =
    if has_digits cs
    then (if ltb (digits_value 0 cs) (2 ^ 63)
        then ok (pos (digits_value 0 cs))
        else err out_of_range)
    else err invalid_argument

unfoldable pub stol_negative : List ℕ → Result Fault ℤ
unfolding negated
stol_negative cs =
    if has_digits cs
    then (if leb (digits_value 0 cs) (2 ^ 63)
        then ok (negated (digits_value 0 cs))
        else err out_of_range)
    else err invalid_argument

unfoldable pub stol : List ℕ → Result Fault ℤ
unfolding stol_unsigned stol_negative
stol [] = err invalid_argument
stol (c ∷ cs) = if c == b'-' then stol_negative cs else stol_unsigned (c ∷ cs)

-- The shortest decimal numeral of a number, least digit last.
decimal_fuel : ℕ → ℕ → List ℕ
decimal_fuel zero n = (48 + n % 10) ∷ []
decimal_fuel (suc f) n =
    let front = decimal_fuel f (n / 10) in
    if ltb n 10 then (48 + n) ∷ [] else front ++ (48 + n % 10) ∷ []

unfoldable pub decimal : ℕ → List ℕ
unfolding decimal_fuel
decimal n = decimal_fuel n n

abbrev pub AllDigits : List ℕ → Type 0
AllDigits = All (λ c. is_digit c ≡ true)

digits_value-append :
    (acc : ℕ) (cs : List ℕ) (c : ℕ)
    → AllDigits cs
    → is_digit c ≡ true
    → digits_value acc (cs ++ c ∷ []) ≡ digits_value acc cs * 10 + (c - 48)
unfolding digits_value
digits_value-append acc [] c h d = ground arith
digits_value-append acc (x ∷ xs) c h d =
    ground (arith, digits_value-append (acc * 10 + (x - 48)) xs c h.1 d)

is_digit-of_lt : (n : ℕ) → n < 10 → is_digit (48 + n) ≡ true
unfolding is_digit
is_digit-of_lt n h = ground arith

AllDigits-append :
    (cs : List ℕ) (c : ℕ) → AllDigits cs → is_digit c ≡ true → AllDigits (cs ++ c ∷ [])
AllDigits-append [] c h d = (d, tt)
AllDigits-append (x ∷ xs) c h d = (h.0, AllDigits-append xs c h.1 d)

decimal_fuel-AllDigits : (f n : ℕ) → AllDigits (decimal_fuel f n)
unfolding decimal_fuel
decimal_fuel-AllDigits zero n = (is_digit-of_lt (n % 10) (omega arith), tt)
decimal_fuel-AllDigits (suc f) n = elim (Bool-cases (ltb n 10)) [
  | inl e ↦ rw e (is_digit-of_lt n (ltb→lt n 10 e), tt)
  | inr e ↦ rw e (
      AllDigits-append (decimal_fuel f (n / 10)) (48 + n % 10) (decimal_fuel-AllDigits f (n / 10))
        (is_digit-of_lt (n % 10) (omega arith)))
]

pub decimal-AllDigits : (n : ℕ) → AllDigits (decimal n)
unfolding decimal
decimal-AllDigits n = decimal_fuel-AllDigits n n

digits_value_digit : (n : ℕ) → n < 10 → digits_value 0 ((48 + n) ∷ []) ≡ n
unfolding digits_value
digits_value_digit n h = ground arith

decimal_fuel-value : (f n : ℕ) → n ≤ f → digits_value 0 (decimal_fuel f n) ≡ n
unfolding decimal_fuel
decimal_fuel-value zero n h = digits_value_digit (n % 10) (omega arith) ∙ omega arith
decimal_fuel-value (suc f) n h = elim (Bool-cases (ltb n 10)) [
  | inl e ↦ rw e (digits_value_digit n (ltb→lt n 10 e))
  | inr e ↦ rw e (
      digits_value-append 0 (decimal_fuel f (n / 10)) (48 + n % 10)
        (decimal_fuel-AllDigits f (n / 10)) (is_digit-of_lt (n % 10) (omega arith))
      ∙ ground (arith, decimal_fuel-value f (n / 10)))
]

-- A decimal numeral stands for its number.
pub digits_value-decimal : (n : ℕ) → digits_value 0 (decimal n) ≡ n
unfolding decimal
digits_value-decimal n = decimal_fuel-value n n (omega arith)

append-ne-nil : (xs : List ℕ) (x : ℕ) → xs ++ x ∷ [] ≢ []
append-ne-nil [] x e = cc
append-ne-nil (y ∷ ys) x e = cc

decimal_fuel-ne-nil : (f n : ℕ) → decimal_fuel f n ≢ []
unfolding decimal_fuel
decimal_fuel-ne-nil zero n = λ e. cc
decimal_fuel-ne-nil (suc f) n =
    ground (arith, append-ne-nil (decimal_fuel f (n / 10)) (48 + n % 10))

decimal-ne-nil : (n : ℕ) → decimal n ≢ []
unfolding decimal
decimal-ne-nil n = decimal_fuel-ne-nil n n

-- A numeral begins with a digit, and digits follow.
pub decimal-head :
    (n : ℕ) → (c : ℕ) × (cs : List ℕ) × (decimal n ≡ c ∷ cs) × (is_digit c ≡ true) × AllDigits cs
decimal-head n = by_cases (decimal n) refl
  where
    by_cases :
        (l : List ℕ)
        → decimal n ≡ l
        → (c : ℕ) × (cs : List ℕ) × (decimal n ≡ c ∷ cs) × (is_digit c ≡ true) × AllDigits cs
    by_cases [] e = absurd (decimal-ne-nil n e)
    by_cases (c ∷ cs) e =
        let h : AllDigits (c ∷ cs) = subst AllDigits e (decimal-AllDigits n) in (c, cs, e, h.0, h.1)

digit-ne-minus : (c : ℕ) → is_digit c ≡ true → (c == b'-') ≡ false
unfolding is_digit
digit-ne-minus c d = ground arith

has_digits-decimal : (n : ℕ) → has_digits (decimal n) ≡ true
unfolding has_digits
has_digits-decimal n = let (c, cs, e, d, _) = decimal-head n in rw e d

stol_unsigned-decimal : (n : ℕ) → n < 2 ^ 63 → stol_unsigned (decimal n) ≡ ok (pos n)
unfolding stol_unsigned
stol_unsigned-decimal n h = rw (has_digits-decimal, digits_value-decimal, lt→ltb n (2 ^ 63) h)

-- A numeral in range is read back.
pub stol-decimal : (n : ℕ) → n < 2 ^ 63 → stol (decimal n) ≡ ok (pos n)
stol-decimal n h =
    let (c, cs, e, d, _) = decimal-head n in
    rw e (unfold stol in rw (digit-ne-minus c d) (rw e at (stol_unsigned-decimal n h)))

-- So is its negative.
pub stol-negative : (n : ℕ) → n < 2 ^ 63 → stol (b'-' ∷ decimal (suc n)) ≡ ok (negsuc n)
unfolding stol
stol-negative n h =
    let fits : leb (suc n) (2 ^ 63) ≡ true = ground arith in
    rw (has_digits-decimal, digits_value-decimal, fits)
