-- ===== src/Bencode/Scan/Integers.antt =====
-- How the parser reads an integer.
use torr.Prelude.{
  ℕ, suc, ◌≡◌, refl, ◌∙◌, Bool, true, false, ◌&&◌, not, List, [], ◌∷◌, ◌++◌, Option, arith, ok, ℤ,
  pos, negsuc, append_assoc, ◌==◌, append-nil,
}
use torr.Bencode.Number.{
  is_digit, stol, AllDigits, decimal, stol-decimal, stol-negative, decimal-AllDigits,
}
use torr.Bencode.Target.{Pointer, integer_target, can_have_children}
use torr.Bencode.Parser.{
  State, idle, parsing_integer, Bencode, switch_state, consume_state, consume_byte,
}
use torr.Bencode.Stack.{Stack, closed, opened, IsOpen, push}
use torr.Bencode.Scan.{
  IsReady, complete, note_byte, note, IsOpen-note_byte, IsOpen-note, note-append, Reads, Reads-nil,
  Reads-cons, Reads-append, machine, at_rest, push-machine, byte-machine, byte-ready,
}
use torr.Bencode.Grammar.{encode_integer, IsSupportedInteger}
use mathlib.Core.Logic.{◌⊎◌, inl, inr}

push-integer : (s : Stack) (z : ℤ) → push s (integer_target z) ≡ complete (integer_target z) s
unfolding can_have_children
push-integer (closed t) z = refl
push-integer (opened t fs) z = refl

stays : (c : ℕ) → (is_digit c ≡ true) ⊎ (c ≡ b'-') → (not (is_digit c) && not (c == b'-')) ≡ false
stays c d = ground arith

stol-encode_integer : (z : ℤ) → IsSupportedInteger z → stol (encode_integer z) ≡ ok z
unfolding encode_integer
stol-encode_integer (pos n) h = stol-decimal n h
stol-encode_integer (negsuc n) h = stol-negative n h

module _ (store : Bool) (bracket : Option Pointer) where
  abbrev m : State → State → ℕ → List ℕ → List ℕ → Stack → Bencode
  m = machine store bracket

  integer_byte :
      (prev : State) (elem : List ℕ) (c : ℕ) (s : Stack)
      → IsOpen s
      → (is_digit c ≡ true) ⊎ (c ≡ b'-')
      → consume_byte (m prev parsing_integer 0 elem [] s) c
        ≡ ok (m prev parsing_integer 0 (elem ++ c ∷ []) [] (note_byte store c s))
  integer_byte prev elem c s h d =
      byte-machine store bracket prev parsing_integer 0 elem [] s c h ∙ rw (stays c d) refl

  read_digits :
      (prev : State) (elem cs : List ℕ) (s : Stack)
      → IsOpen s
      → AllDigits cs
      → Reads
          (m prev parsing_integer 0 elem [] s)
          cs
          (m prev parsing_integer 0 (elem ++ cs) [] (note store cs s))
  unfolding note
  read_digits prev elem [] s h d = rw append-nil (Reads-nil _)
  read_digits prev elem (c ∷ cs) s h d = Reads-cons (integer_byte prev elem c s h (inl d.0)) (
      rw append_assoc at (
        read_digits prev (elem ++ c ∷ []) cs (note_byte store c s) (IsOpen-note_byte store c s h)
          d.1))

  read_numeral :
      (prev : State) (z : ℤ) (s : Stack)
      → IsOpen s
      → Reads
          (m prev parsing_integer 0 [] [] s)
          (encode_integer z)
          (m prev parsing_integer 0 (encode_integer z) [] (note store (encode_integer z) s))
  unfolding encode_integer
  read_numeral prev (pos n) s h = read_digits prev [] (decimal n) s h (decimal-AllDigits n)
  read_numeral prev (negsuc n) s h =
      unfold note in
      Reads-cons (integer_byte prev [] b'-' s h (inr refl)) (
        read_digits prev (b'-' ∷ []) (decimal (suc n)) (note_byte store b'-' s)
          (IsOpen-note_byte store b'-' s h) (decimal-AllDigits (suc n)))

  end_of_integer :
      (prev : State) (elem : List ℕ) (z : ℤ) (s : Stack)
      → IsOpen s
      → stol elem ≡ ok z
      → consume_byte (m prev parsing_integer 0 elem [] s) b'e'
        ≡ ok (
            at_rest store bracket parsing_integer idle
              (complete (integer_target z) (note_byte store b'e' s)))
  unfolding switch_state is_digit
  end_of_integer prev elem z s h e =
      byte-machine store bracket prev parsing_integer 0 elem [] s b'e' h
      ∙ rw e (
          rw
            (push-machine store bracket parsing_integer idle 0 elem [] (note_byte store b'e' s)
              (integer_target z) (IsOpen-note_byte store b'e' s h))
            (rw push-integer refl))

  start_of_integer :
      (prev st : State) (s : Stack)
      → IsReady st
      → IsOpen s
      → consume_byte (at_rest store bracket prev st s) b'i'
        ≡ ok (m prev parsing_integer 0 [] [] (note_byte store b'i' s))
  start_of_integer prev st s r h =
      byte-ready store bracket prev st s r h b'i' ∙ unfold consume_state in refl

  -- An integer is read as a value put into the innermost container, noted byte by byte.
  pub read_integer :
      (prev st : State) (z : ℤ) (s : Stack)
      → IsReady st
      → IsOpen s
      → IsSupportedInteger z
      → Reads (at_rest store bracket prev st s) (b'i' ∷ encode_integer z ++ b'e' ∷ []) (
          at_rest store bracket parsing_integer idle
            (complete (integer_target z) (note store (b'i' ∷ encode_integer z ++ b'e' ∷ []) s)))
  unfolding note
  read_integer prev st z s r h l =
      let begun : IsOpen (note_byte store b'i' s) = IsOpen-note_byte store b'i' s h in
      let noted = IsOpen-note store (encode_integer z) (note_byte store b'i' s) begun in
      rw note-append (
        Reads-cons (start_of_integer prev st s r h) (
          Reads-append (read_numeral prev z (note_byte store b'i' s) begun) (
            Reads-cons
              (end_of_integer prev (encode_integer z) z
                (note store (encode_integer z) (note_byte store b'i' s)) noted
                (stol-encode_integer z l))
              (Reads-nil _))))
