-- ===== src/Bencode/Parser.antt =====
-- The parser of source/generic/bencode_map.hpp: a state machine fed byte by byte, which keeps the
-- tree below `m_root` and the queue of pointers to its open containers.
use torr.Prelude.{
  ℕ, Bool, true, false, not, ◌&&◌, List, [], ◌∷◌, ◌++◌, Option, none, some, ◌==◌, if◌then◌else◌, ℤ,
  pos, negsuc, Result, ok, err, ◌>>=◌, sub64, get_last?, drop_last,
}
use Prim.Native.Nat.{◌-◌, ◌^◌}
use torr.Bencode.Number.{Fault, empty_queue, is_digit, stol}
use torr.Bencode.Target.{
  TargetType, unknown, strings, lists, dictionaries, Target, target, Pointer, at_index, at_key,
  fresh_target, string_target, integer_target, can_have_children, count, push_back, assign,
  target_type, string_value, list_container, latest_key, deref, modify, append_raw,
}

-- `states`; the `unknown` state is spelled `idle` here, since a type of targets is `unknown` too.
pub data State : Type 0 where
  idle parsing_list parsing_dictionary parsing_word parsing_word_length parsing_integer : State

pub record Bencode : Type 0 where
  pub previous_state : State
  pub state : State
  pub element_length : ℕ
  pub store_raw_bencode : Bool
  pub element : List ℕ
  pub element_length_string : List ℕ
  pub target_queue : List Pointer
  pub bracket_root : Option Pointer
  pub root : Target

-- A new `bencode_map`, and one after `store_raw_bencode()`.
abbrev pub new_bencode : Bool → Bencode
new_bencode store = record {
  previous_state = idle;
  state = idle;
  element_length = 0;
  store_raw_bencode = store;
  element = [];
  element_length_string = [];
  target_queue = [];
  bracket_root = none;
  root = fresh_target unknown;
}

-- What `push_to_target` does to the parent at the back of the queue.
abbrev pub push_to_list : Target → Target → Target
push_to_list c (target ty s i l m k r) = target ty s i (push_back l c) m k r

abbrev pub set_latest_key : List ℕ → Target → Target
set_latest_key key (target ty s i l m k r) = target ty s i l m key r

abbrev pub assign_entry : List ℕ → Target → Target → Target
assign_entry key c (target ty s i l m k r) = target ty s i l (assign m key c) [] r

-- `m_target_queue.push_back` of a pointer to the child, if the child can have children.
abbrev pub enqueue : Target → Pointer → List Pointer → List Pointer
enqueue c p queue = if can_have_children (target_type c) then queue ++ p ∷ [] else queue

unfoldable pub push_to_dictionary : Bencode → Pointer → List ℕ → Target → Bencode
push_to_dictionary b p [] c = elim (target_type c) [
  | strings ↦ record b { root = modify p (set_latest_key (string_value c)) b.root }
  | _ ↦ b
]
push_to_dictionary b p (k ∷ key) c = record b {
  root = modify p (assign_entry (k ∷ key) c) b.root;
  target_queue = enqueue c (p ++ at_key (k ∷ key) ∷ []) b.target_queue;
}

unfoldable pub push_to_parent : Bencode → Pointer → Option Target → Target → Bencode
unfolding push_to_dictionary
push_to_parent b p none c = b
push_to_parent b p (some parent) c = elim (target_type parent) [
  | lists ↦ record b {
    root = modify p (push_to_list c) b.root;
    target_queue = enqueue c (p ++ at_index (count (list_container parent)) ∷ []) b.target_queue;
  }
  | dictionaries ↦ push_to_dictionary b p (latest_key parent) c
  | _ ↦ b
]

abbrev push_to_back : Bencode → Option Pointer → Target → Bencode
push_to_back b none c = record b { root = c; target_queue = enqueue c [] [] }
push_to_back b (some p) c = push_to_parent b p (deref p b.root) c

-- `push_to_target`
unfoldable pub push_to_target : Bencode → Target → Bencode
unfolding push_to_parent can_have_children
push_to_target b c = push_to_back b (get_last? b.target_queue) c

-- `end_target`
unfoldable pub end_target : Bencode → Result Fault Bencode
end_target b = elim b.target_queue [
  | [] ↦ err empty_queue
  | p ∷ ps ↦ ok (record b { target_queue = drop_last (p ∷ ps) })
]

-- A `long` read as a `size_t`.
abbrev pub to_size : ℤ → ℕ
to_size (pos n) = n
to_size (negsuc n) = 2 ^ 64 - 1 - n

abbrev pub leave : State → Bencode → Result Fault Bencode
leave parsing_word_length b = do
  n ← stol b.element_length_string
  ok (record b { element_length = to_size n; element_length_string = [] })
leave parsing_word b = ok (record (push_to_target b (string_target b.element)) { element = [] })
leave parsing_integer b = do
  n ← stol b.element
  ok (record (push_to_target b (integer_target n)) { element = [] })
leave _ b = ok b

-- `switch_state`
unfoldable pub switch_state : Bencode → State → Result Fault Bencode
switch_state b s = leave b.state (record b { previous_state = b.state; state = s })

abbrev pub open_container : Bencode → TargetType → State → Result Fault Bencode
open_container b ty s = ok (record (push_to_target b (fresh_target ty)) { state = s })

-- `consume_state`
unfoldable pub consume_state : Bencode → ℕ → Result Fault Bencode
unfolding is_digit
consume_state b c =
    if c == b'i'
    then ok (record b { state = parsing_integer })
    else if c == b'l'
    then open_container (record b { state = idle }) lists parsing_list
    else if c == b'd'
    then open_container (record b { state = idle }) dictionaries parsing_dictionary
    else if c == b'e'
    then end_target (record b { state = idle })
    else if is_digit c
    then ok (record b {
      state = parsing_word_length;
      element_length_string = b.element_length_string ++ c ∷ [];
    })
    else ok (record b { state = idle })

unfoldable pub append_raw_at : ℕ → List Pointer → Target → Target
append_raw_at c [] t = t
append_raw_at c (p ∷ ps) t = append_raw_at c ps (modify p (append_raw c) t)

-- `push_raw_bencode`
unfoldable pub push_raw_bencode : Bencode → ℕ → Bencode
unfolding append_raw_at
push_raw_bencode b c = record b { root = append_raw_at c b.target_queue b.root }

abbrev pub consume_word : Bencode → ℕ → Result Fault Bencode
consume_word b c =
    let next : Bencode = record b {
      element = b.element ++ c ∷ [];
      element_length = sub64 b.element_length 1;
    } in
    if next.element_length == 0 then switch_state next idle else ok next

abbrev pub dispatch : State → Bencode → ℕ → Result Fault Bencode
dispatch parsing_integer b c =
    if not (is_digit c) && not (c == b'-')
    then switch_state b idle
    else ok (record b { element = b.element ++ c ∷ [] })
dispatch parsing_word b c = consume_word b c
dispatch parsing_word_length b c =
    if not (is_digit c)
    then switch_state b parsing_word
    else ok (record b { element_length_string = b.element_length_string ++ c ∷ [] })
dispatch _ b c = consume_state b c

abbrev pub noted : Bool → Bencode → ℕ → Bencode
noted true b c = push_raw_bencode b c
noted false b c = b

-- `consume_byte`
unfoldable pub consume_byte : Bencode → ℕ → Result Fault Bencode
consume_byte b c = dispatch b.state (noted b.store_raw_bencode b c) c

-- The loop of `from_buffer` and `from_string`.
unfoldable pub feed : Bencode → List ℕ → Result Fault Bencode
feed b [] = ok b
feed b (c ∷ cs) = consume_byte b c >>= λ next. feed next cs

-- `from_buffer` and `from_string`
unfoldable pub from_buffer : Bencode → List ℕ → Result Fault Bencode
from_buffer b bytes = do read ← feed b bytes; ok (record read { bracket_root = some [] })
