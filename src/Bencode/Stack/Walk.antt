-- ===== src/Bencode/Stack/Walk.antt =====
-- source/generic/bencode_map.hpp: what a byte does, by what a push to the target at the end of the
-- queue and the end of a target do.
use torr.Prelude.{
  ℕ, Bool, true, false, not, ◌&&◌, List, [], ◌∷◌, ◌++◌, ◌==◌, if◌then◌else◌, Result, ok, err, ◌>>=◌,
  ℤ, sub64,
}
use torr.Bencode.Number.{Fault, is_digit, stol}
use torr.Bencode.Target.{
  lists, dictionaries, Target, Pointer, fresh_target, string_target, integer_target,
}
use torr.Bencode.Parser.{
  State, idle, parsing_word, parsing_word_length, parsing_integer, Bencode, push_to_target,
  end_target, leave, switch_state, consume_state, dispatch,
}

module _ (Q : Target → List Pointer → Type 0) where
  -- Where the operation returns, its tree and its queue have the property.
  abbrev pub Ends : Result Fault Bencode → Type 0
  Ends (ok b) = Q b.root b.target_queue
  Ends (err e) = Unit {0}

  pub bind-Ends :
      {A : Type 0} (x : Result Fault A) (f : A → Result Fault Bencode)
      → ((a : A) → Ends (f a))
      → Ends (x >>= f)
  bind-Ends (ok a) f h = h a
  bind-Ends (err e) f h = tt

  pub then-Ends :
      (x : Result Fault Bencode) (f : Bencode → Result Fault Bencode)
      → Ends x
      → ((b : Bencode) → Q b.root b.target_queue → Ends (f b))
      → Ends (x >>= f)
  then-Ends (ok b) f h k = k b h
  then-Ends (err e) f h k = tt

  pub if-Ends :
      (b : Bool) (x y : Result Fault Bencode) → Ends x → Ends y → Ends (if b then x else y)
  if-Ends true x y h k = h
  if-Ends false x y h k = k

-- From a state with the one property to one with the other.
module _ (P Q : Target → List Pointer → Type 0)
    (same : (r : Target) (q : List Pointer) → P r q → Q r q)
    (pushed : (b : Bencode)
      → P b.root b.target_queue
      → (c : Target) → Q (push_to_target b c).root (push_to_target b c).target_queue)
    (popped : (b : Bencode) → P b.root b.target_queue → Ends Q (end_target b)) where
  leave-Ends : (st : State) (b : Bencode) → P b.root b.target_queue → Ends Q (leave st b)
  leave-Ends parsing_word_length b h =
      bind-Ends Q (stol b.element_length_string) _ (λ (n : ℤ). same b.root b.target_queue h)
  leave-Ends parsing_word b h = pushed b h (string_target b.element)
  leave-Ends parsing_integer b h =
      bind-Ends Q (stol b.element) _ (λ (n : ℤ). pushed b h (integer_target n))
  leave-Ends _ b h = same b.root b.target_queue h

  switch_state-Ends :
      (b : Bencode) (st : State) → P b.root b.target_queue → Ends Q (switch_state b st)
  unfolding switch_state
  switch_state-Ends b st h =
      leave-Ends b.state (record b { previous_state = b.state; state = st }) h

  consume_state-Ends : (b : Bencode) (c : ℕ) → P b.root b.target_queue → Ends Q (consume_state b c)
  unfolding consume_state
  consume_state-Ends b c h =
      let idling : Bencode = record b { state = idle } in
      if-Ends Q (c == b'i') _ _ (same b.root b.target_queue h) (
        if-Ends Q (c == b'l') _ _ (pushed idling h (fresh_target lists)) (
          if-Ends Q (c == b'd') _ _ (pushed idling h (fresh_target dictionaries)) (
            if-Ends Q (c == b'e') _ _ (popped idling h) (
              if-Ends Q (is_digit c) _ _ (same b.root b.target_queue h)
                (same b.root b.target_queue h)))))

  pub dispatch-Ends :
      (st : State) (b : Bencode) (c : ℕ) → P b.root b.target_queue → Ends Q (dispatch st b c)
  dispatch-Ends parsing_integer b c h =
      if-Ends Q (not (is_digit c) && not (c == b'-')) _ _ (switch_state-Ends b idle h)
        (same b.root b.target_queue h)
  dispatch-Ends parsing_word b c h =
      let next : Bencode = record b {
        element = b.element ++ c ∷ [];
        element_length = sub64 b.element_length 1;
      } in
      if-Ends Q (next.element_length == 0) _ _ (switch_state-Ends next idle h)
        (same b.root b.target_queue h)
  dispatch-Ends parsing_word_length b c h =
      if-Ends Q (not (is_digit c)) _ _ (switch_state-Ends b parsing_word h)
        (same b.root b.target_queue h)
  dispatch-Ends _ b c h = consume_state-Ends b c h
