-- ===== src/Bencode/Stack/Pointers.antt =====
-- source/generic/bencode_map.hpp: the parser on any input: its state is always that of a stack of open
-- containers.
use torr.Prelude.{
  ℕ, ◌≡◌, refl, Bool, true, false, List, [], ◌∷◌, ◌++◌, some, arith, ap, subst, sym, Result, ok,
  All,
}
use torr.Bencode.Number.{Fault}
use torr.Bencode.Target.{
  unknown, Target, Pointer, fresh_target, can_have_children, target_type, deref,
}
use torr.Bencode.Parser.{
  State, Bencode, new_bencode, push_to_target, end_target, push_raw_bencode, dispatch, noted,
  consume_byte, feed,
}
use torr.Bencode.Stack.{
  Stack, closed, opened, add, root_of, pointer_of, queue_of, stack_root, stack_queue, place,
  AllOpen, push, pop, append_raws, deref-root_of,
}
use torr.Bencode.Stack.Operations.{
  mapped, push_to_target-place, end_target-place, push_raw_bencode-place,
}
use torr.Bencode.Stack.Walk.{Ends, then-Ends, dispatch-Ends}
use torr.Bencode.Stack.Held.{
  IsContainer, IsHeld, IsHeld-IsOpen, CanOpen-IsContainer, add-IsContainer, push-IsHeld,
  append_raws-IsHeld,
}

-- The state is that of a stack.
abbrev pub Placed : Target → List Pointer → Type 0
Placed root queue = (s : Stack) × IsHeld s × (root ≡ stack_root s) × (queue ≡ stack_queue s)

abbrev pub IsPlaced : Bencode → Type 0
IsPlaced b = Placed b.root b.target_queue

-- Where the operation returns, the state is that of a stack.
abbrev EndsPlaced : Result Fault Bencode → Type 0
EndsPlaced = Ends Placed

pub eq_place :
    (s : Stack) (b : Bencode)
    → b.root ≡ stack_root s
    → b.target_queue ≡ stack_queue s
    → b ≡ place s b
unfolding place
eq_place s b p q = ground (arith, p, q)

of_place : (s : Stack) (b c : Bencode) → IsHeld s → c ≡ place s b → IsPlaced c
unfolding place
of_place s b c h e = (s, h, ap (λ (x : Bencode). x.root) e, ap (λ (x : Bencode). x.target_queue) e)

module _ (s : Stack) (h : IsHeld s) (b : Bencode) where
  push_to_place-IsPlaced : (c : Target) → IsPlaced (push_to_target (place s b) c)
  push_to_place-IsPlaced c =
      of_place (push s c) b _ (push-IsHeld s c h) (push_to_target-place s c b (IsHeld-IsOpen s h))

  push_raw_to_place-IsPlaced : (x : ℕ) → IsPlaced (push_raw_bencode (place s b) x)
  push_raw_to_place-IsPlaced x =
      of_place (append_raws x s) b _ (append_raws-IsHeld s x h)
        (push_raw_bencode-place s x b (IsHeld-IsOpen s h))

  popped-EndsPlaced :
      (t : Stack) → IsHeld t → EndsPlaced (mapped (λ (u : Stack). place u b) (pop t))
  popped-EndsPlaced (closed t) k = tt
  popped-EndsPlaced (opened t []) k = of_place (closed t) b _ tt refl
  popped-EndsPlaced (opened t (f ∷ fs)) k =
      let top = add-IsContainer t f (CanOpen-IsContainer f k.1.0) in
      of_place (opened (add t f) fs) b _ (top, k.1.1) refl

  end_place-EndsPlaced : EndsPlaced (end_target (place s b))
  end_place-EndsPlaced = rw (end_target-place s b) (popped-EndsPlaced s h)

module _ (b : Bencode) (h : IsPlaced b) where
  push_to_target-IsPlaced : (c : Target) → IsPlaced (push_to_target b c)
  push_to_target-IsPlaced c =
      let (s, k, p, q) = h in
      subst (λ (x : Bencode). IsPlaced (push_to_target x c)) (sym (eq_place s b p q))
        (push_to_place-IsPlaced s k b c)

  push_raw_bencode-IsPlaced : (x : ℕ) → IsPlaced (push_raw_bencode b x)
  push_raw_bencode-IsPlaced x =
      let (s, k, p, q) = h in
      subst (λ (y : Bencode). IsPlaced (push_raw_bencode y x)) (sym (eq_place s b p q))
        (push_raw_to_place-IsPlaced s k b x)

  end_target-EndsPlaced : EndsPlaced (end_target b)
  end_target-EndsPlaced =
      let (s, k, p, q) = h in
      subst (λ (x : Bencode). EndsPlaced (end_target x)) (sym (eq_place s b p q))
        (end_place-EndsPlaced s k b)

dispatch-EndsPlaced : (st : State) (b : Bencode) (c : ℕ) → IsPlaced b → EndsPlaced (dispatch st b c)
dispatch-EndsPlaced =
    dispatch-Ends Placed Placed (λ r q h. h) push_to_target-IsPlaced end_target-EndsPlaced

noted-IsPlaced : (store : Bool) (b : Bencode) (c : ℕ) → IsPlaced b → IsPlaced (noted store b c)
noted-IsPlaced true b c h = push_raw_bencode-IsPlaced b h c
noted-IsPlaced false b c h = h

feed-EndsPlaced : (bytes : List ℕ) (b : Bencode) → IsPlaced b → EndsPlaced (feed b bytes)
unfolding feed consume_byte
feed-EndsPlaced [] b h = h
feed-EndsPlaced (c ∷ cs) b h =
    then-Ends Placed (dispatch b.state (noted b.store_raw_bencode b c) c) _
      (dispatch-EndsPlaced b.state (noted b.store_raw_bencode b c) c
        (noted-IsPlaced b.store_raw_bencode b c h))
      (λ (next : Bencode) k. feed-EndsPlaced cs next k)

-- A pointer that leads to a list or a dictionary of the tree.
abbrev pub LeadsToContainer : Target → Pointer → Type 0
LeadsToContainer root p =
    (t : Target) × (deref p root ≡ some t) × (can_have_children (target_type t) ≡ true)

pub All-append :
    (P : Pointer → Type 0) (ps : List Pointer) (p : Pointer) → All P ps → P p → All P (ps ++ p ∷ [])
All-append P [] p h k = (k, tt)
All-append P (q ∷ qs) p h k = (h.0, All-append P qs p h.1 k)

queue_of-LeadsToContainer :
    (fs : List Target) (t : Target)
    → IsContainer t
    → AllOpen fs
    → All (LeadsToContainer (root_of fs t)) (queue_of fs)
unfolding queue_of root_of
queue_of-LeadsToContainer [] t h k = ((t, unfold deref in refl, h), tt)
queue_of-LeadsToContainer (f ∷ fs) t h k =
    All-append (LeadsToContainer (root_of fs (add t f))) (queue_of fs) (pointer_of (f ∷ fs))
      (queue_of-LeadsToContainer fs (add t f) (add-IsContainer t f (CanOpen-IsContainer f k.0)) k.1)
      (t, deref-root_of (f ∷ fs) t k, h)

stack-LeadsToContainer :
    (s : Stack) → IsHeld s → All (LeadsToContainer (stack_root s)) (stack_queue s)
unfolding stack_root stack_queue
stack-LeadsToContainer (closed t) h = tt
stack-LeadsToContainer (opened t fs) h = queue_of-LeadsToContainer fs t h.0 h.1

pub placed-LeadsToContainer :
    (b : Bencode) → IsPlaced b → All (LeadsToContainer b.root) b.target_queue
placed-LeadsToContainer b (s, h, p, q) = rw (p, q) (stack-LeadsToContainer s h)

new_bencode-IsPlaced : (store : Bool) → IsPlaced (new_bencode store)
new_bencode-IsPlaced store =
    (closed (fresh_target unknown), tt, unfold stack_root in refl, unfold stack_queue in refl)

-- What the bytes before have led to.
pub feed-IsPlaced :
    (store : Bool) (bytes : List ℕ) {b : Bencode}
    → feed (new_bencode store) bytes ≡ ok b
    → IsPlaced b
feed-IsPlaced store bytes {b} e =
    subst EndsPlaced e (feed-EndsPlaced bytes (new_bencode store) (new_bencode-IsPlaced store))
