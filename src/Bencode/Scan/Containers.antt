-- ===== src/Bencode/Scan/Containers.antt =====
-- How the parser opens, fills and closes lists and dictionaries.
use torr.Prelude.{
  ℕ, ◌≡◌, refl, ap, ◌∙◌, sym, Bool, true, false, List, [], ◌∷◌, ◌++◌, Option, arith, ok,
  append_assoc, append-nil,
}
use torr.Bencode.Target.{
  lists, dictionaries, Target, target, nil, end, Pointer, can_have_children, target_type,
  append_raw,
}
use torr.Bencode.Parser.{
  State, idle, parsing_list, parsing_dictionary, Bencode, consume_state, consume_byte,
}
use torr.Bencode.Stack.{Stack, closed, opened, add, CanOpen, can_open, push, pop, append_raws}
use torr.Bencode.Scan.{
  IsReady, complete, enter, Accepts, note_byte, note, Reads, Reads-nil, Reads-cons, at_rest,
  push-machine, end-machine, byte-ready, Accepts-note_byte, Accepts-IsOpen, IsOpen-enter,
}
use torr.Bencode.Grammar.{grow, list_target, dictionary_target}

abbrev pub grown : Bool → List ℕ → Target → Target
grown store xs (target ty s i l m k r) = target ty s i l m k (grow store xs r)

pub grow-append :
    (store : Bool) (xs ys r : List ℕ) → grow store (xs ++ ys) r ≡ grow store ys (grow store xs r)
grow-append false xs ys r = refl
grow-append true xs ys r = sym (append_assoc r xs ys)

CanOpen-can_open : (t : Target) → CanOpen t → can_open t ≡ true
CanOpen-can_open (target lists s i l m k r) h = refl
CanOpen-can_open (target dictionaries s i l m [] r) h = ground arith
CanOpen-can_open (target dictionaries s i l m (x ∷ k) r) h = refl
CanOpen-can_open (target _ s i l m k r) h = ground arith

push-enter :
    (s : Stack) (c : Target)
    → can_have_children (target_type c) ≡ true
    → Accepts s
    → push s c ≡ enter c s
push-enter (closed t) c e h = rw e refl
push-enter (opened t fs) c e h = rw (e, CanOpen-can_open t h.0) refl

pop-enter : (s : Stack) (c : Target) → pop (enter c s) ≡ ok (complete c s)
pop-enter (closed t) c = refl
pop-enter (opened t fs) c = refl

pub complete-enter : (s : Stack) (t c : Target) → complete t (enter c s) ≡ enter (add t c) s
complete-enter (closed u) t c = refl
complete-enter (opened u fs) t c = refl

append_raws-enter :
    (x : ℕ) (s : Stack) (c : Target)
    → append_raws x (enter c s) ≡ enter (append_raw x c) (append_raws x s)
append_raws-enter x (closed u) c = refl
append_raws-enter x (opened u fs) c = refl

note_nothing : (store : Bool) (c : Target) → grown store [] c ≡ c
note_nothing false (target ty s i l m k r) = refl
note_nothing true (target ty s i l m k r) = rw append-nil refl

grown-append_raw :
    (x : ℕ) (xs : List ℕ) (c : Target) → grown true xs (append_raw x c) ≡ grown true (x ∷ xs) c
grown-append_raw x xs (target ty s i l m k r) = rw append_assoc refl

pub note-enter :
    (store : Bool) (xs : List ℕ) (s : Stack) (c : Target)
    → note store xs (enter c s) ≡ enter (grown store xs c) (note store xs s)
unfolding note
note-enter store [] s c = rw note_nothing refl
note-enter false (x ∷ xs) s c = note-enter false xs s c
note-enter true (x ∷ xs) s c =
    ap (note true xs) (append_raws-enter x s c)
    ∙ note-enter true xs (append_raws x s) (append_raw x c)
    ∙ ap (λ (u : Target). enter u (note true xs (append_raws x s))) (grown-append_raw x xs c)

pub Accepts-note : (store : Bool) (xs : List ℕ) (s : Stack) → Accepts s → Accepts (note store xs s)
unfolding note
Accepts-note store [] s h = h
Accepts-note store (x ∷ xs) s h =
    Accepts-note store xs (note_byte store x s) (Accepts-note_byte store x s h)

-- A list takes children, and so does a dictionary with a key.
pub Accepts-enter : (s : Stack) (c : Target) → CanOpen c → Accepts s → Accepts (enter c s)
Accepts-enter (closed t) c o h = (o, tt)
Accepts-enter (opened t fs) c o h = (o, h)

module _ (store : Bool) (bracket : Option Pointer) where
  abbrev rest_at : State → State → Stack → Bencode
  rest_at = at_rest store bracket

  pub open_list :
      (prev st : State) (s : Stack)
      → IsReady st
      → Accepts s
      → consume_byte (rest_at prev st s) b'l'
        ≡ ok (rest_at prev parsing_list (enter (list_target nil []) (note_byte store b'l' s)))
  unfolding consume_state can_have_children
  open_list prev st s r h =
      byte-ready store bracket prev st s r (Accepts-IsOpen s h) b'l'
      ∙ rw
          (push-machine store bracket prev idle 0 [] [] (note_byte store b'l' s)
            (list_target nil []) (Accepts-IsOpen _ (Accepts-note_byte store b'l' s h)))
          (rw
            (push-enter (note_byte store b'l' s) (list_target nil []) refl
              (Accepts-note_byte store b'l' s h))
            refl)

  pub open_dictionary :
      (prev st : State) (s : Stack)
      → IsReady st
      → Accepts s
      → consume_byte (rest_at prev st s) b'd'
        ≡ ok (
            rest_at prev parsing_dictionary
              (enter (dictionary_target end [] []) (note_byte store b'd' s)))
  unfolding consume_state can_have_children
  open_dictionary prev st s r h =
      byte-ready store bracket prev st s r (Accepts-IsOpen s h) b'd'
      ∙ rw
          (push-machine store bracket prev idle 0 [] [] (note_byte store b'd' s)
            (dictionary_target end [] []) (Accepts-IsOpen _ (Accepts-note_byte store b'd' s h)))
          (rw
            (push-enter (note_byte store b'd' s) (dictionary_target end [] []) refl
              (Accepts-note_byte store b'd' s h))
            refl)

  -- The end of a container, which is noted in the container too.
  pub close :
      (prev st : State) (s : Stack) (c : Target)
      → IsReady st
      → Accepts s
      → Reads
          (rest_at prev st (enter c s))
          (b'e' ∷ [])
          (rest_at prev idle (complete (grown store (b'e' ∷ []) c) (note store (b'e' ∷ []) s)))
  unfolding consume_state note
  close prev st s c r h =
      Reads-cons
        (byte-ready store bracket prev st (enter c s) r (IsOpen-enter c s h) b'e'
          ∙ rw (note-enter store (b'e' ∷ []) s c) (
              rw
                (end-machine store bracket prev idle 0 [] []
                  (enter (grown store (b'e' ∷ []) c) (note_byte store b'e' s)))
                (rw pop-enter refl)))
        (Reads-nil _)
