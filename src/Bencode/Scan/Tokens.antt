-- ===== src/Bencode/Scan/Tokens.antt =====
-- How the parser reads a string.
use torr.Prelude.{
  ℕ, suc, ◌^◌, ◌<◌, ◌≡◌, refl, ◌∙◌, Bool, true, false, List, [], ◌∷◌, ◌++◌, Option, arith, ok,
  length, pos, append_assoc, sub64, ◌==◌, append-nil,
}
use torr.Bencode.Number.{is_digit, stol, AllDigits, decimal, decimal-head, stol-decimal}
use torr.Bencode.Target.{Pointer, string_target, can_have_children}
use torr.Bencode.Parser.{
  State, idle, parsing_word, parsing_word_length, Bencode, switch_state, consume_state,
  consume_byte,
}
use torr.Bencode.Stack.{Stack, closed, opened, IsOpen, push}
use torr.Bencode.Scan.{
  IsReady, complete, note_byte, note, IsOpen-note_byte, IsOpen-note, note-append, Reads, Reads-nil,
  Reads-cons, Reads-append, machine, at_rest, push-machine, byte-machine, byte-ready,
}
use torr.Bencode.Grammar.{encode_string, IsSupportedString}

push-string : (s : Stack) (w : List ℕ) → push s (string_target w) ≡ complete (string_target w) s
unfolding can_have_children
push-string (closed t) w = refl
push-string (opened t fs) w = refl

sub64-one : (n : ℕ) → suc n < 2 ^ 63 → sub64 (suc n) 1 ≡ n
sub64-one n h = omega arith

suc-ne-zero : (n : ℕ) → (suc n == 0) ≡ false
suc-ne-zero n = ground arith

consume_state_digit :
    (b : Bencode) (c : ℕ)
    → is_digit c ≡ true
    → consume_state b c
      ≡ ok (record b {
        state = parsing_word_length;
        element_length_string = b.element_length_string ++ c ∷ [];
      })
unfolding consume_state
consume_state_digit b c d = ground arith

module _ (store : Bool) (bracket : Option Pointer) where
  abbrev m : State → State → ℕ → List ℕ → List ℕ → Stack → Bencode
  m = machine store bracket

  length_byte :
      (prev : State) (ds : List ℕ) (c : ℕ) (s : Stack)
      → IsOpen s
      → is_digit c ≡ true
      → consume_byte (m prev parsing_word_length 0 [] ds s) c
        ≡ ok (m prev parsing_word_length 0 [] (ds ++ c ∷ []) (note_byte store c s))
  length_byte prev ds c s h d =
      byte-machine store bracket prev parsing_word_length 0 [] ds s c h ∙ rw d refl

  -- Digits of a length.
  read_length :
      (prev : State) (ds cs : List ℕ) (s : Stack)
      → IsOpen s
      → AllDigits cs
      → Reads
          (m prev parsing_word_length 0 [] ds s)
          cs
          (m prev parsing_word_length 0 [] (ds ++ cs) (note store cs s))
  unfolding note
  read_length prev ds [] s h d = rw append-nil (Reads-nil _)
  read_length prev ds (c ∷ cs) s h d = Reads-cons (length_byte prev ds c s h d.0) (
      rw append_assoc at (
        read_length prev (ds ++ c ∷ []) cs (note_byte store c s) (IsOpen-note_byte store c s h)
          d.1))

  word_byte :
      (prev : State) (n : ℕ) (elem : List ℕ) (c : ℕ) (s : Stack)
      → IsOpen s
      → suc (suc n) < 2 ^ 63
      → consume_byte (m prev parsing_word (suc (suc n)) elem [] s) c
        ≡ ok (m prev parsing_word (suc n) (elem ++ c ∷ []) [] (note_byte store c s))
  word_byte prev n elem c s h l =
      byte-machine store bracket prev parsing_word (suc (suc n)) elem [] s c h
      ∙ rw (sub64-one (suc n) l, suc-ne-zero n) refl

  last_byte :
      (prev : State) (elem : List ℕ) (c : ℕ) (s : Stack)
      → IsOpen s
      → consume_byte (m prev parsing_word 1 elem [] s) c
        ≡ ok (
            at_rest store bracket parsing_word idle
              (complete (string_target (elem ++ c ∷ [])) (note_byte store c s)))
  unfolding switch_state
  last_byte prev elem c s h =
      byte-machine store bracket prev parsing_word 1 elem [] s c h
      ∙ rw
          (push-machine store bracket parsing_word idle 0 (elem ++ c ∷ []) [] (note_byte store c s)
            (string_target (elem ++ c ∷ [])) (IsOpen-note_byte store c s h))
          (rw push-string refl)

  -- Characters of a word, the last one included.
  read_word :
      (prev : State) (elem : List ℕ) (c : ℕ) (cs : List ℕ) (s : Stack)
      → IsOpen s
      → length (c ∷ cs) < 2 ^ 63
      → Reads (m prev parsing_word (length (c ∷ cs)) elem [] s) (c ∷ cs) (
          at_rest store bracket parsing_word idle
            (complete (string_target (elem ++ c ∷ cs)) (note store (c ∷ cs) s)))
  unfolding note
  read_word prev elem c [] s h l = Reads-cons (last_byte prev elem c s h) (Reads-nil _)
  read_word prev elem c (d ∷ cs) s h l = Reads-cons (word_byte prev (length cs) elem c s h l) (
      rw append_assoc at (
        read_word prev (elem ++ c ∷ []) d cs (note_byte store c s) (IsOpen-note_byte store c s h)
          (omega arith)))

  colon :
      (prev : State) (ds : List ℕ) (n : ℕ) (s : Stack)
      → IsOpen s
      → stol ds ≡ ok (pos n)
      → consume_byte (m prev parsing_word_length 0 [] ds s) b':'
        ≡ ok (m parsing_word_length parsing_word n [] [] (note_byte store b':' s))
  unfolding switch_state is_digit
  colon prev ds n s h e =
      byte-machine store bracket prev parsing_word_length 0 [] ds s b':' h ∙ rw e refl

  first_digit :
      (prev st : State) (c : ℕ) (s : Stack)
      → IsReady st
      → IsOpen s
      → is_digit c ≡ true
      → consume_byte (at_rest store bracket prev st s) c
        ≡ ok (m prev parsing_word_length 0 [] (c ∷ []) (note_byte store c s))
  first_digit prev st c s r h d =
      byte-ready store bracket prev st s r h c
      ∙ consume_state_digit (at_rest store bracket prev st (note_byte store c s)) c d

  read_word_of :
      (prev : State) (w : List ℕ) (s : Stack)
      → IsOpen s
      → IsSupportedString w
      → Reads
          (m prev parsing_word (length w) [] [] s)
          w
          (at_rest store bracket parsing_word idle (complete (string_target w) (note store w s)))
  read_word_of prev [] s h l = absurd (omega arith)
  read_word_of prev (c ∷ cs) s h l = read_word prev [] c cs s h l.1

  -- A string is read as a value put into the innermost container, noted byte by byte.
  pub read_string :
      (prev st : State) (w : List ℕ) (s : Stack)
      → IsReady st
      → IsOpen s
      → IsSupportedString w
      → Reads (at_rest store bracket prev st s) (encode_string w) (
          at_rest store bracket parsing_word idle
            (complete (string_target w) (note store (encode_string w) s)))
  unfolding encode_string
  read_string prev st w s r h l =
      let (c, cs, e, d, ds) = decimal-head (length w) in
      let digits_noted : IsOpen (note store (decimal (length w)) s) =
        IsOpen-note store (decimal (length w)) s h in
      let length_read : Reads (at_rest store bracket prev st s) (decimal (length w)) (
          m prev parsing_word_length 0 [] (decimal (length w))
            (note store (decimal (length w)) s)) =
        rw e (
          unfold note in
          Reads-cons (first_digit prev st c s r h d) (
            read_length prev (c ∷ []) cs (note_byte store c s) (IsOpen-note_byte store c s h)
              ds)) in
      let rest_noted =
        IsOpen-note_byte store b':' (note store (decimal (length w)) s) digits_noted in
      rw note-append (
        Reads-append length_read (
          Reads-cons
            (colon prev (decimal (length w)) (length w) (note store (decimal (length w)) s)
              digits_noted (stol-decimal (length w) l.1))
            (unfold note in read_word_of parsing_word_length w _ rest_noted l)))
