-- ===== src/Bencode/Runs.antt =====
-- Runs of the bencode parser, with the input of tests/bencode_map/bencode.cpp, and the theorems at
-- concrete inputs.
use torr.Prelude.{
  drop_last, ℕ, ◌-◌, ◌^◌, ◌≡◌, refl, true, List, [], ◌∷◌, ◌++◌, none, ok, err, arith, bytes, pos,
  negsuc, Result, ◌>>=◌, bytes_eq, inl, All,
}
use torr.Bencode.Number.{
  empty_queue, stol, digits_value, has_digits, is_digit, decimal, out_of_range, invalid_argument,
}
use torr.Bencode.Target.{
  lists, nil, cons, end, entry, fresh_target, deref, modify, at_index, at_key,
}
use torr.Bencode.Stack.Pointers.{LeadsToContainer}
use torr.Bencode.Stack.Steady.{AsLong}
use torr.Bencode.Stack.Growth.{IsDescent, feed-IsSteady}
use torr.Bencode.Parser.{
  idle, parsing_list, consume_byte, consume_state, switch_state, parsing_word, parsing_word_length,
  Bencode, new_bencode, feed, from_buffer, push_to_target, push_raw_bencode,
}
use torr.Bencode.Access.{AccessFault, index, index_key, as_str}
use torr.Bencode.Stack.{Stack, opened, place, push}
use torr.Bencode.Stack.Operations.{push_to_target-place}
use torr.Bencode.Grammar.{
  Value, integer, string, list, dictionary, no_values, value, Fields, no_fields, field, encode,
  encode_string, encode_integer, tree, list_target, dictionary_target,
}
use torr.Bencode.Scan.{note, machine, at_rest}
use torr.Bencode.RoundTrip.{parsed, from_buffer-encode, from_buffer-stray_end}
use torr.Bencode.Quirks.{empty_string_swallows}

abbrev hits : Value
hits = list (
    value (integer (pos 32)) (
      value (integer (negsuc 21))
        (value (dictionary (field (bytes "C++20") (string (bytes "cool")) no_fields)) no_values)))

abbrev wiki : Fields
wiki =
    field (bytes "wiki") (string (bytes "bencode"))
      (field (bytes "meaning") (integer (pos 42)) (field (bytes "hits") hits no_fields))

-- The text of the program's own test, with one of its integers made negative, and less the last of
-- its four ends: three containers are open there, and one more end pops the empty queue.
wiki_text :
    encode (dictionary wiki)
    ≡ bytes "d4:wiki7:bencode7:meaningi42e4:hitsli32ei-22ed5:C++204:cooleee"
unfolding encode encode_string encode_integer decimal
wiki_text = refl

abbrev Text : Type 0
Text = Result AccessFault (List ℕ × Bencode)

cool : Bencode → Text
unfolding index_key index as_str
cool b = do
  b1 ← index_key b (bytes "hits")
  b2 ← index b1 2
  b3 ← index_key b2 (bytes "C++20")
  as_str b3

cool_found : cool (parsed true (dictionary wiki)) ≡ ok (bytes "cool", parsed true (dictionary wiki))
unfolding cool deref tree bytes_eq
cool_found = refl

from_buffer-encode_example :
    from_buffer (new_bencode true) (encode (dictionary wiki)) ≡ ok (parsed true (dictionary wiki))
from_buffer-encode_example = from_buffer-encode true (dictionary wiki) (omega arith)

from_buffer-stray_end_example :
    from_buffer (new_bencode true) (encode hits ++ bytes "e4:spam") ≡ err empty_queue
from_buffer-stray_end_example = from_buffer-stray_end true hits (bytes "4:spam") (omega arith)

-- A dictionary that waits for the value of a key, inside a list.
abbrev waiting : Stack
waiting = opened (dictionary_target end (bytes "k") []) (list_target nil [] ∷ [])

push_to_target-place_example :
    push_to_target (place waiting (new_bencode true)) (fresh_target lists)
    ≡ place (push waiting (fresh_target lists)) (new_bencode true)
push_to_target-place_example =
    push_to_target-place waiting (fresh_target lists) (new_bencode true) (inl refl, tt)

-- The list of an empty string: its end is taken for a character.
empty_string_swallows_example :
    feed (at_rest true none idle idle waiting) (bytes "0:ee")
    ≡ ok (
        machine true none parsing_word_length parsing_word
          (2 ^ 64 - 2)
          (bytes "ee")
          []
          (note true (bytes "0:ee") waiting))
empty_string_swallows_example =
    empty_string_swallows true none idle idle waiting b'e' (bytes "e") (2 ^ 64 - 2) tt
      (inl refl, tt) (omega arith) (omega arith)

too_large : stol (bytes "9223372036854775808") ≡ err out_of_range
unfolding stol digits_value has_digits
too_large = refl

no_number : stol (bytes "-") ≡ err invalid_argument
unfolding stol digits_value has_digits
no_number = refl

-- A list that holds a dictionary that holds a list, none of them ended.
abbrev unended : Bencode
unended = record (new_bencode true) {
  previous_state = parsing_word;
  state = parsing_list;
  target_queue = [] ∷ (at_index 0 ∷ []) ∷ (at_index 0 ∷ at_key (bytes "a") ∷ []) ∷ [];
  root =
      list_target
        (cons (dictionary_target (entry (bytes "a") (fresh_target lists) end) [] (bytes "1:al"))
          nil)
        (bytes "d1:al");
}

unended_fed : feed (new_bencode true) (bytes "ld1:al") ≡ ok unended
unfolding feed consume_byte consume_state switch_state push_to_target push_raw_bencode stol
    digits_value has_digits is_digit modify deref
unended_fed = refl

-- One more list is begun.
abbrev deeper : Bencode
deeper = record unended {
  target_queue =
      []
      ∷ (at_index 0 ∷ [])
      ∷ (at_index 0 ∷ at_key (bytes "a") ∷ [])
      ∷ (at_index 0 ∷ at_key (bytes "a") ∷ at_index 0 ∷ [])
      ∷ [];
  root =
      list_target
        (cons
          (dictionary_target
            (entry (bytes "a") (list_target (cons (fresh_target lists) nil) (bytes "l")) end) []
            (bytes "1:all"))
          nil)
        (bytes "d1:all");
}

deeper_consumed : consume_byte unended b'l' ≡ ok deeper
unfolding consume_byte consume_state switch_state push_to_target push_raw_bencode modify deref
    bytes_eq
deeper_consumed = refl

feed-IsSteady_example :
    All (LeadsToContainer unended.root) unended.target_queue
    × IsDescent unended.target_queue
    × All (AsLong unended.root deeper.root) (drop_last unended.target_queue)
feed-IsSteady_example = feed-IsSteady true (bytes "ld1:al") b'l' unended_fed deeper_consumed
