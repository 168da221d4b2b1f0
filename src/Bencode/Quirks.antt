-- ===== src/Bencode/Quirks.antt =====
-- What the parser of source/generic/bencode_map.hpp does with an empty string: the length that it
-- counts down from 0 wraps around.
use torr.Prelude.{
  ℕ, suc, ◌+◌, ◌-◌, ◌^◌, ◌<◌, ◌≡◌, refl, ◌∙◌, Bool, false, List, [], ◌∷◌, ◌++◌, Option, ok, arith,
  sub64, ◌==◌, length, append_assoc, append-nil,
}
use torr.Bencode.Target.{Pointer}
use torr.Bencode.Number.{stol, digits_value, has_digits, is_digit}
use torr.Bencode.Parser.{
  State, parsing_word, parsing_word_length, Bencode, feed, consume_byte, consume_state,
  switch_state,
}
use torr.Bencode.Stack.{Stack, IsOpen}
use torr.Bencode.Scan.{
  IsReady, note_byte, note, IsOpen-note_byte, machine, at_rest, byte-machine, byte-ready,
}

counted :
    (k j : ℕ) → 0 < k → k + suc j < 2 ^ 64 → (sub64 (k + suc j) 1 ≡ k + j) × ((k + j == 0) ≡ false)
counted k j h l = (omega arith, ground arith)

module _ (store : Bool) (bracket : Option Pointer) where
  abbrev m : State → State → ℕ → List ℕ → List ℕ → Stack → Bencode
  m = machine store bracket

  word_byte :
      (prev : State) (k j : ℕ) (elem : List ℕ) (c : ℕ) (s : Stack)
      → IsOpen s
      → 0 < k
      → k + suc j < 2 ^ 64
      → consume_byte (m prev parsing_word (k + suc j) elem [] s) c
        ≡ ok (m prev parsing_word (k + j) (elem ++ c ∷ []) [] (note_byte store c s))
  word_byte prev k j elem c s h p l =
      byte-machine store bracket prev parsing_word (k + suc j) elem [] s c h
      ∙ rw ((counted k j p l).0, (counted k j p l).1) refl

  -- A word that is longer than the input takes all of it.
  swallow :
      (prev : State) (k : ℕ) (elem cs : List ℕ) (s : Stack)
      → IsOpen s
      → 0 < k
      → k + length cs < 2 ^ 64
      → feed (m prev parsing_word (k + length cs) elem [] s) cs
        ≡ ok (m prev parsing_word k (elem ++ cs) [] (note store cs s))
  unfolding feed note
  swallow prev k elem [] s h p l = let e : k + 0 ≡ k = omega arith in rw (append-nil elem, e) refl
  swallow prev k elem (c ∷ cs) s h p l = rw (word_byte prev k (length cs) elem c s h p l) (
      swallow prev k (elem ++ c ∷ []) cs (note_byte store c s) (IsOpen-note_byte store c s h) p
        (omega arith)
      ∙ rw append_assoc refl)

  zero_byte :
      (prev st : State) (s : Stack)
      → IsReady st
      → IsOpen s
      → consume_byte (at_rest store bracket prev st s) b'0'
        ≡ ok (m prev parsing_word_length 0 [] (b'0' ∷ []) (note_byte store b'0' s))
  unfolding consume_state is_digit
  zero_byte prev st s r h = byte-ready store bracket prev st s r h b'0'

  colon_byte :
      (prev : State) (s : Stack)
      → IsOpen s
      → consume_byte (m prev parsing_word_length 0 [] (b'0' ∷ []) s) b':'
        ≡ ok (m parsing_word_length parsing_word 0 [] [] (note_byte store b':' s))
  unfolding switch_state is_digit stol digits_value has_digits
  colon_byte prev s h =
      byte-machine store bracket prev parsing_word_length 0 [] (b'0' ∷ []) s b':' h

  first_byte :
      (prev : State) (c : ℕ) (s : Stack)
      → IsOpen s
      → consume_byte (m prev parsing_word 0 [] [] s) c
        ≡ ok (m prev parsing_word (2 ^ 64 - 1) (c ∷ []) [] (note_byte store c s))
  first_byte prev c s h = byte-machine store bracket prev parsing_word 0 [] [] s c h

  -- Where a value, a key or an end is expected, the empty string `0:` makes the parser take
  -- everything that follows, up to 2 ^ 64 - 2 bytes, for characters of one word that does not end:
  -- no further value is stored and no container is closed.
  pub empty_string_swallows :
      (prev st : State) (s : Stack) (c : ℕ) (cs : List ℕ) (left : ℕ)
      → IsReady st
      → IsOpen s
      → 0 < left
      → left + length cs ≡ 2 ^ 64 - 1
      → feed (at_rest store bracket prev st s) (b'0' ∷ b':' ∷ c ∷ cs)
        ≡ ok (
            m parsing_word_length parsing_word left
              (c ∷ cs)
              []
              (note store (b'0' ∷ b':' ∷ c ∷ cs) s))
  unfolding feed note
  empty_string_swallows prev st s c cs left r h p e =
      let s1 = note_byte store b'0' s in
      let h1 = IsOpen-note_byte store b'0' s h in
      let s2 = note_byte store b':' s1 in
      let h2 = IsOpen-note_byte store b':' s1 h1 in
      let s3 = note_byte store c s2 in
      let h3 = IsOpen-note_byte store c s2 h2 in
      rw (zero_byte prev st s r h) (
        rw (colon_byte prev s1 h1) (
          rw (first_byte parsing_word_length c s2 h2)
            (rw (← e) (swallow parsing_word_length left (c ∷ []) cs s3 h3 p (omega arith)))))
