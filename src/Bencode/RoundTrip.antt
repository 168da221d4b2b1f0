-- ===== src/Bencode/RoundTrip.antt =====
-- The parser of source/generic/bencode_map.hpp on whole encodings.
use torr.Prelude.{
  ℕ, zero, suc, ◌≡◌, refl, ap, ◌∙◌, sym, Bool, true, false, List, [], ◌∷◌, ◌++◌, none, some, Result,
  ok, err, ◌>>=◌, replicate, append-nil,
}
use torr.Bencode.Number.{Fault, empty_queue}
use torr.Bencode.Target.{Target}
use torr.Bencode.Parser.{
  State, idle, Bencode, new_bencode, feed, from_buffer, consume_state, end_target,
}
use torr.Bencode.Stack.{Stack, closed, stack_root, stack_queue}
use torr.Bencode.Scan.{note, note_byte, at_rest, byte-ready, complete}
use torr.Bencode.Grammar.{Value, encode, IsSupported, tree}
use torr.Bencode.Reading.{after, read_value}

abbrev closed_at : Bool → State → Target → Bencode
closed_at store prev t = at_rest store none prev idle (closed t)

-- What a new parser is after it has read a value.
abbrev pub parsed : Bool → Value → Bencode
parsed store v = record (new_bencode store) {
  previous_state = after v idle;
  bracket_root = some [];
  root = tree store v;
}

note_byte-closed : (store : Bool) (x : ℕ) (t : Target) → note_byte store x (closed t) ≡ closed t
note_byte-closed false x t = refl
note_byte-closed true x t = refl

note-closed : (store : Bool) (xs : List ℕ) (t : Target) → note store xs (closed t) ≡ closed t
unfolding note
note-closed store [] t = refl
note-closed store (x ∷ xs) t = rw note_byte-closed (note-closed store xs t)

abbrev finish : Bencode → Result Fault Bencode
finish b = ok (record b { bracket_root = some [] })

feed-encode :
    (store : Bool) (v : Value) (rest : List ℕ)
    → IsSupported v
    → from_buffer (new_bencode store) (encode v ++ rest)
      ≡ (feed (closed_at store (after v idle) (tree store v)) rest >>= finish)
unfolding from_buffer stack_root stack_queue
feed-encode store v rest h =
    let t0 = (new_bencode store).root in
    ap (λ (r : Result Fault Bencode). r >>= finish)
      ((read_value store none idle idle (closed t0) v tt tt h).at rest
        ∙ ap
            (λ (s : Stack).
              feed (at_rest store none (after v idle) idle (complete (tree store v) s)) rest)
            (note-closed store (encode v) t0))

-- Parsing the encoding of a supported value gives its tree, with and without raw bytes: no
-- container is left open, no fault occurs, and the parser is ready for another value.
pub from_buffer-encode :
    (store : Bool) (v : Value)
    → IsSupported v
    → from_buffer (new_bencode store) (encode v) ≡ ok (parsed store v)
unfolding feed stack_root stack_queue
from_buffer-encode store v h =
    ap (from_buffer (new_bencode store)) (sym (append-nil (encode v))) ∙ feed-encode store v [] h

feed_zeros :
    (n : ℕ) (store : Bool) (prev : State) (t : Target)
    → feed (closed_at store prev t) (replicate n 0) ≡ ok (closed_at store prev t)
unfolding feed consume_state
feed_zeros zero store prev t = refl
feed_zeros (suc n) store prev t =
    rw (byte-ready store none prev idle (closed t) tt tt 0)
      (rw note_byte-closed (feed_zeros n store prev t))

-- Zero bytes behind the encoding change nothing, such as those that `http::get_request` leaves at
-- the end of its buffer.
pub from_buffer-encode_zeros :
    (store : Bool) (v : Value) (n : ℕ)
    → IsSupported v
    → from_buffer (new_bencode store) (encode v ++ replicate n 0) ≡ ok (parsed store v)
unfolding stack_root stack_queue
from_buffer-encode_zeros store v n h =
    feed-encode store v (replicate n 0) h
    ∙ rw (feed_zeros n store (after v idle) (tree store v)) refl

-- An end behind the encoding pops the empty queue: the parser does not check for it.
pub from_buffer-stray_end :
    (store : Bool) (v : Value) (rest : List ℕ)
    → IsSupported v
    → from_buffer (new_bencode store) (encode v ++ b'e' ∷ rest) ≡ err empty_queue
unfolding feed consume_state end_target stack_root stack_queue
from_buffer-stray_end store v rest h =
    feed-encode store v (b'e' ∷ rest) h
    ∙ rw (byte-ready store none (after v idle) idle (closed (tree store v)) tt tt b'e')
        (rw note_byte-closed refl)
