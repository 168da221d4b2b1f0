-- ===== src/Bencode/Scan.antt =====
-- How the parser reads bytes, as steps on its stack of open containers.
pub mod Tokens
pub mod Integers
pub mod Containers
use torr.Prelude.{
  ℕ, zero, suc, ◌+◌, ◌-◌, ◌^◌, ◌≤◌, ◌<◌, ◌≡◌, refl, ap, ◌∙◌, sym, Bool, true, false, ◌&&◌, not,
  List, [], ◌∷◌, ◌++◌, Option, none, some, map, arith, if◌then◌else◌, Result, ok, err, ◌>>=◌, inl,
  inr, ◌≢◌, ◌⊎◌, length, ℤ, pos, negsuc, append_assoc, append-nil, sub64, ◌==◌,
}
use torr.Bencode.Number.{Fault, is_digit, stol, AllDigits}
use torr.Bencode.Target.{
  TargetType, unknown, integers, strings, lists, dictionaries, Target, target, Pointer,
  fresh_target, string_target, integer_target, can_have_children, append_raw,
}
use torr.Bencode.Parser.{
  State, idle, parsing_list, parsing_dictionary, parsing_word, parsing_word_length, parsing_integer,
  Bencode, push_to_target, end_target, push_raw_bencode, switch_state, consume_state, consume_byte,
  noted, dispatch, feed,
}
use torr.Bencode.Stack.{
  Stack, closed, opened, add, stack_root, stack_queue, place, CanOpen, AllOpen, IsOpen, push, pop,
  append_raws,
}
use torr.Bencode.Stack.Operations.{
  push_to_target-place, end_target-place, push_raw_bencode-place, add-append_raw,
  AllOpen-append_raw, mapped,
}
use torr.Bencode.Grammar.{grow, list_target, dictionary_target}

-- A state in which the parser expects a value, a key or an end.
abbrev pub IsReady : State → Type 0
IsReady idle = Unit {0}
IsReady parsing_list = Unit {0}
IsReady parsing_dictionary = Unit {0}
IsReady _ = ⊥

-- A complete value put into the innermost open container, or at the root; a new container opened.
abbrev pub complete : Target → Stack → Stack
complete c (closed t) = closed c
complete c (opened t fs) = opened (add c t) fs

abbrev pub enter : Target → Stack → Stack
enter c (closed t) = opened c []
enter c (opened t fs) = opened c (t ∷ fs)

-- The stack is sound, and a container may be opened on it.
abbrev pub Accepts : Stack → Type 0
Accepts (closed t) = Unit {0}
Accepts (opened t fs) = CanOpen t × AllOpen fs

-- Bytes noted in every open container.
abbrev pub note_byte : Bool → ℕ → Stack → Stack
note_byte true x s = append_raws x s
note_byte false x s = s

unfoldable pub note : Bool → List ℕ → Stack → Stack
note store [] s = s
note store (x ∷ xs) s = note store xs (note_byte store x s)

pub note-append :
    (store : Bool) (xs ys : List ℕ) (s : Stack)
    → note store (xs ++ ys) s ≡ note store ys (note store xs s)
unfolding note
note-append store [] ys s = refl
note-append store (x ∷ xs) ys s = note-append store xs ys (note_byte store x s)

pub IsOpen-note_byte : (store : Bool) (x : ℕ) (s : Stack) → IsOpen s → IsOpen (note_byte store x s)
IsOpen-note_byte false x s h = h
IsOpen-note_byte true x (closed t) h = tt
IsOpen-note_byte true x (opened t fs) h = AllOpen-append_raw x fs h

pub IsOpen-note : (store : Bool) (xs : List ℕ) (s : Stack) → IsOpen s → IsOpen (note store xs s)
unfolding note
IsOpen-note store [] s h = h
IsOpen-note store (x ∷ xs) s h =
    IsOpen-note store xs (note_byte store x s) (IsOpen-note_byte store x s h)

pub Accepts-note_byte :
    (store : Bool) (x : ℕ) (s : Stack) → Accepts s → Accepts (note_byte store x s)
Accepts-note_byte false x s h = h
Accepts-note_byte true x (closed t) h = tt
Accepts-note_byte true x (opened (target ty s i l m k r) fs) h = (h.0, AllOpen-append_raw x fs h.1)

pub Accepts-IsOpen : (s : Stack) → Accepts s → IsOpen s
Accepts-IsOpen (closed t) h = tt
Accepts-IsOpen (opened t fs) h = h.1

pub IsOpen-enter : (c : Target) (s : Stack) → Accepts s → IsOpen (enter c s)
IsOpen-enter c (closed t) h = tt
IsOpen-enter c (opened t fs) h = h

-- Noting a byte commutes with completing a value and with opening a container.
pub note_byte-complete :
    (store : Bool) (x : ℕ) (c : Target) (s : Stack)
    → note_byte store x (complete c s) ≡ complete c (note_byte store x s)
note_byte-complete false x c s = refl
note_byte-complete true x c (closed t) = refl
note_byte-complete true x c (opened t fs) =
    ap (λ (u : Target). opened u (map (append_raw x) fs)) (add-append_raw t c x)

pub note-complete :
    (store : Bool) (xs : List ℕ) (c : Target) (s : Stack)
    → note store xs (complete c s) ≡ complete c (note store xs s)
unfolding note
note-complete store [] c s = refl
note-complete store (x ∷ xs) c s =
    ap (note store xs) (note_byte-complete store x c s)
    ∙ note-complete store xs c (note_byte store x s)

-- `bytes` take the parser from one state to another, whatever follows them.
pub record Reads (b : Bencode) (bytes : List ℕ) (c : Bencode) : Type 0 where
  pub at : (rest : List ℕ) → feed b (bytes ++ rest) ≡ feed c rest

pub Reads-nil : (b : Bencode) → Reads b [] b
Reads-nil b = record { at = λ rest. refl }

pub Reads-cons :
    {b c d : Bencode} {x : ℕ} {xs : List ℕ}
    → consume_byte b x ≡ ok c
    → Reads c xs d
    → Reads b (x ∷ xs) d
unfolding feed
Reads-cons e h = record { at = λ rest. rw e (h.at rest) }

pub Reads-append :
    {b c d : Bencode} {xs ys : List ℕ} → Reads b xs c → Reads c ys d → Reads b (xs ++ ys) d
Reads-append {b} {xs = xs} {ys = ys} h k = record {
  at = λ rest. ap (feed b) (append_assoc xs ys rest) ∙ h.at (ys ++ rest) ∙ k.at rest;
}

noted-place :
    (store : Bool) (s : Stack) (x : ℕ) (b : Bencode)
    → IsOpen s
    → noted store (place s b) x ≡ place (note_byte store x s) b
noted-place false s x b h = refl
noted-place true s x b h = push_raw_bencode-place s x b h

module _ (store : Bool) (bracket : Option Pointer) where
  -- The parser between two bytes.
  abbrev pub machine : State → State → ℕ → List ℕ → List ℕ → Stack → Bencode
  machine prev st len elem digits s = record {
    previous_state = prev;
    state = st;
    element_length = len;
    store_raw_bencode = store;
    element = elem;
    element_length_string = digits;
    target_queue = stack_queue s;
    bracket_root = bracket;
    root = stack_root s;
  }

  abbrev pub at_rest : State → State → Stack → Bencode
  at_rest prev st s = machine prev st 0 [] [] s

  module _ (prev st : State) (len : ℕ) (elem digits : List ℕ) (s : Stack) where
    pub push-machine :
        (c : Target)
        → IsOpen s
        → push_to_target (machine prev st len elem digits s) c
          ≡ machine prev st len elem digits (push s c)
    push-machine c h =
        unfold place in push_to_target-place s c (machine prev st len elem digits s) h

    pub end-machine :
        end_target (machine prev st len elem digits s)
        ≡ mapped (machine prev st len elem digits) (pop s)
    end-machine = unfold place in end_target-place s (machine prev st len elem digits s)

    pub byte-machine :
        (x : ℕ)
        → IsOpen s
        → consume_byte (machine prev st len elem digits s) x
          ≡ dispatch st (machine prev st len elem digits (note_byte store x s)) x
    byte-machine x h =
        unfold consume_byte place in
        ap (λ (b : Bencode). dispatch st b x)
          (noted-place store s x (machine prev st len elem digits s) h)

pub dispatch-ready :
    (st : State) (b : Bencode) (x : ℕ) → IsReady st → dispatch st b x ≡ consume_state b x
dispatch-ready idle b x r = refl
dispatch-ready parsing_list b x r = refl
dispatch-ready parsing_dictionary b x r = refl
dispatch-ready parsing_word b x r = absurd r
dispatch-ready parsing_word_length b x r = absurd r
dispatch-ready parsing_integer b x r = absurd r

module _ (store : Bool) (bracket : Option Pointer) (prev st : State) (s : Stack) (r : IsReady st)
    (h : IsOpen s) where
  -- A byte read where a value, a key or an end is expected.
  pub byte-ready :
      (x : ℕ)
      → consume_byte (at_rest store bracket prev st s) x
        ≡ consume_state (at_rest store bracket prev st (note_byte store x s)) x
  byte-ready x =
      byte-machine store bracket prev st 0 [] [] s x h
      ∙ dispatch-ready st (at_rest store bracket prev st (note_byte store x s)) x r
