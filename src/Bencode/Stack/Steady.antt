-- ===== src/Bencode/Stack/Steady.antt =====
-- source/generic/bencode_map.hpp: the vectors through which the queue of pointers leads do not grow
-- while it does.
use torr.Prelude.{
  ℕ, suc, ◌≡◌, refl, ◌&&◌, List, [], ◌∷◌, map, Option, none, some, arith, ap, subst, sym, ◌∙◌,
  Result, All, inl, inr, Bool-cases,
}
use torr.Bencode.Number.{Fault}
use torr.Bencode.Target.{
  lists, dictionaries, Target, target, Targets, nil, cons, Pointer, can_have_children, target_type,
  deref, count, push_back, list_container, append_raw,
}
use torr.Bencode.Parser.{State, Bencode, push_to_target, end_target, dispatch}
use torr.Bencode.Stack.{
  Stack, closed, opened, add, root_of, pointer_of, queue_of, stack_root, stack_queue, place,
  CanOpen, AllOpen, can_open, push, pop, deref-root_of,
}
use torr.Bencode.Stack.Operations.{
  mapped, push_to_target-place, end_target-place, AllOpen-append_raw, pointer_of-append_raw,
}
use torr.Bencode.Stack.Held.{IsHeld, IsHeld-IsOpen}
use torr.Bencode.Stack.Walk.{Ends, dispatch-Ends}
use torr.Bencode.Stack.Pointers.{eq_place, All-append}

-- How many elements the vector of a target has, and that of the target to which a pointer leads.
abbrev pub size : Target → ℕ
size t = count (list_container t)

abbrev size_of : Option Target → Option ℕ
size_of none = none
size_of (some t) = some (size t)

abbrev pub size_at : Target → Pointer → Option ℕ
size_at root p = size_of (deref p root)

-- The vector at a pointer is as long in the one tree as in the other.
abbrev pub AsLong : Target → Target → Pointer → Type 0
AsLong r u p = size_at u p ≡ size_at r p

count-push_back : (l : Targets) (x : Target) → count (push_back l x) ≡ suc (count l)
count-push_back nil x = refl
count-push_back (cons t ts) x = ap suc (count-push_back ts x)

-- An open container is as long whatever child is in it.
pub size-add : (f c d : Target) → CanOpen f → size (add c f) ≡ size (add d f)
unfolding add
size-add (target lists s i l m k r) c d h = count-push_back l c ∙ sym (count-push_back l d)
size-add (target dictionaries s i l m [] r) c d h = ground arith
size-add (target dictionaries s i l m (x ∷ k) r) c d h = refl
size-add (target _ s i l m k r) c d h = ground arith

pub size-add-append_raw :
    (x : ℕ) (f c d : Target) → CanOpen f → size (add c (append_raw x f)) ≡ size (add d f)
unfolding add
size-add-append_raw x (target lists s i l m k r) c d h =
    count-push_back l c ∙ sym (count-push_back l d)
size-add-append_raw x (target dictionaries s i l m [] r) c d h = ground arith
size-add-append_raw x (target dictionaries s i l m (y ∷ k) r) c d h = refl
size-add-append_raw x (target _ s i l m k r) c d h = ground arith

container-steady :
    (fs gs : List Target) (t u : Target)
    → AllOpen fs
    → AllOpen gs
    → pointer_of gs ≡ pointer_of fs
    → size u ≡ size t
    → AsLong (root_of fs t) (root_of gs u) (pointer_of fs)
container-steady fs gs t u h k e n =
    ap size_of (ap (λ (p : Pointer). deref p (root_of gs u)) (sym e) ∙ deref-root_of gs u k)
    ∙ ap some n
    ∙ sym (ap size_of (deref-root_of fs t h))

pub queue-steady :
    (fs : List Target) (t u : Target)
    → AllOpen fs
    → size u ≡ size t
    → All (AsLong (root_of fs t) (root_of fs u)) (queue_of fs)
unfolding root_of queue_of pointer_of
queue-steady [] t u h n = (container-steady [] [] t u tt tt refl n, tt)
queue-steady (f ∷ fs) t u h n =
    All-append (AsLong (root_of fs (add t f)) (root_of fs (add u f))) (queue_of fs)
      (pointer_of (f ∷ fs)) (queue-steady fs (add t f) (add u f) h.1 (size-add f u t h.0))
      (container-steady (f ∷ fs) (f ∷ fs) t u h h refl n)

pub raw_queue-steady :
    (x : ℕ) (fs : List Target) (t u : Target)
    → AllOpen fs
    → size u ≡ size t
    → All (AsLong (root_of fs t) (root_of (map (append_raw x) fs) u)) (queue_of fs)
unfolding root_of queue_of pointer_of
raw_queue-steady x [] t u h n = (container-steady [] [] t u tt tt refl n, tt)
raw_queue-steady x (f ∷ fs) t u h n =
    All-append
      (AsLong (root_of fs (add t f)) (root_of (map (append_raw x) fs) (add u (append_raw x f))))
      (queue_of fs) (pointer_of (f ∷ fs))
      (raw_queue-steady x fs (add t f) (add u (append_raw x f)) h.1
        (size-add-append_raw x f u t h.0))
      (container-steady (f ∷ fs) (map (append_raw x) (f ∷ fs)) t u h
        (AllOpen-append_raw x (f ∷ fs) h) (pointer_of-append_raw x (f ∷ fs)) n)

-- The tree has the outer containers of the stack, whatever the innermost of them holds open.
abbrev pub IsAround : Stack → Target → Type 0
IsAround (opened t (f ∷ fs)) r = (z : Target) × (r ≡ root_of fs (add z f))
IsAround _ r = Unit {0}

root-IsAround : (s : Stack) → IsAround s (stack_root s)
unfolding stack_root root_of
root-IsAround (closed t) = tt
root-IsAround (opened t []) = tt
root-IsAround (opened t (f ∷ fs)) = (t, refl)

push-IsAround : (s : Stack) (c : Target) → IsAround s (stack_root (push s c))
unfolding stack_root root_of
push-IsAround (closed t) c = tt
push-IsAround (opened t []) c = tt
push-IsAround (opened t (f ∷ fs)) c =
    elim (Bool-cases (can_have_children (target_type c) && can_open t)) [
      | inl e ↦ rw e (add c t, refl)
      | inr e ↦ rw e (add c t, refl)
    ]

abbrev pub EndsAround : Stack → Result Fault Bencode → Type 0
EndsAround s = Ends (λ (r : Target) (q : List Pointer). IsAround s r)

pop-EndsAround :
    (s : Stack) (b : Bencode) → EndsAround s (mapped (λ (u : Stack). place u b) (pop s))
unfolding place stack_root root_of
pop-EndsAround (closed t) b = tt
pop-EndsAround (opened t []) b = tt
pop-EndsAround (opened t (f ∷ fs)) b = (t, refl)

-- A byte at a state that is that of a stack leaves its outer containers.
module _ (s : Stack) (h : IsHeld s) where
  abbrev pub At : Target → List Pointer → Type 0
  At r q = (r ≡ stack_root s) × (q ≡ stack_queue s)

  around : (r : Target) (q : List Pointer) → At r q → IsAround s r
  around r q e = rw (e.0) (root-IsAround s)

  push_to_target-IsAround :
      (b : Bencode) → At b.root b.target_queue → (c : Target) → IsAround s (push_to_target b c).root
  unfolding place
  push_to_target-IsAround b e c =
      subst (IsAround s)
        (ap (λ (x : Bencode). x.root) (sym (push_to_target-place s c b (IsHeld-IsOpen s h)))
          ∙ ap (λ (x : Bencode). (push_to_target x c).root) (sym (eq_place s b e.0 e.1)))
        (push-IsAround s c)

  end_target-EndsAround : (b : Bencode) → At b.root b.target_queue → EndsAround s (end_target b)
  end_target-EndsAround b e =
      subst (EndsAround s) (sym (end_target-place s b) ∙ ap end_target (sym (eq_place s b e.0 e.1)))
        (pop-EndsAround s b)

  pub dispatch-EndsAround :
      (st : State) (b : Bencode) (c : ℕ) → At b.root b.target_queue → EndsAround s (dispatch st b c)
  dispatch-EndsAround st b c e =
      dispatch-Ends At (λ (r : Target) (q : List Pointer). IsAround s r) around
        push_to_target-IsAround end_target-EndsAround st b c e
