-- ===== src/Bencode/Stack/Operations.antt =====
-- The operations of the parser on its tree and queue, against those on the stack.
use torr.Prelude.{
  ℕ, ◌≡◌, refl, ap, ◌∙◌, sym, List, [], ◌∷◌, ◌++◌, some, map, arith, Result, ok, err,
  drop_last-append, Bool-cases, inl, inr, ◌≢◌,
}
use torr.Bencode.Number.{Fault}
use torr.Bencode.Target.{
  strings, lists, dictionaries, Target, target, Pointer, can_have_children, target_type, modify,
  append_raw,
}
use torr.Bencode.Parser.{
  Bencode, push_to_target, end_target, push_raw_bencode, append_raw_at, push_to_parent,
  push_to_dictionary, push_to_list, set_latest_key, assign_entry,
}
use torr.Bencode.Stack.{
  Stack, closed, opened, add, child_step, root_of, pointer_of, queue_of, stack_root, stack_queue,
  place, AllOpen, IsOpen, push, pop, append_raws, modify-root_of, deref-root_of, back-queue_of,
}

abbrev placed : List Target → Target → Bencode → Bencode
placed fs t b = record b { root = root_of fs t; target_queue = queue_of fs }

abbrev Pushes : List Target → Target → Target → Bencode → Type 0
Pushes fs t c b =
    push_to_parent (placed fs t b) (pointer_of fs) (some t) c ≡ place (push (opened t fs) c) b

push_to_opened :
    (fs : List Target) (t c : Target) (b : Bencode)
    → AllOpen fs
    → push_to_target (placed fs t b) c ≡ push_to_parent (placed fs t b) (pointer_of fs) (some t) c
unfolding push_to_target
push_to_opened fs t c b h = rw (back-queue_of fs, deref-root_of fs t h)

-- A parent that is a list.
push_to_list-Pushes :
    (fs : List Target) (t c : Target) (b : Bencode)
    → target_type t ≡ lists
    → AllOpen fs
    → Pushes fs t c b
unfolding place stack_root stack_queue push_to_parent
push_to_list-Pushes fs (target lists s i l m k r) c b e h =
    rw (modify-root_of fs (target lists s i l m k r) (push_to_list c) h)
      (elim (Bool-cases (can_have_children (target_type c))) [
        | inl e ↦ rw e (unfold root_of queue_of pointer_of child_step add in refl)
        | inr e ↦ rw e (unfold add in refl)
      ])
push_to_list-Pushes fs (target _ s i l m k r) c b e h = cc

-- A parent that is a dictionary, with a key or without.
push_to_dictionary-Pushes :
    (fs : List Target) (t c : Target) (b : Bencode)
    → target_type t ≡ dictionaries
    → AllOpen fs
    → Pushes fs t c b
unfolding place stack_root stack_queue push_to_parent push_to_dictionary
push_to_dictionary-Pushes fs (target dictionaries s i l m (x ∷ k) r) c b e h =
    rw (modify-root_of fs (target dictionaries s i l m (x ∷ k) r) (assign_entry (x ∷ k) c) h)
      (elim (Bool-cases (can_have_children (target_type c))) [
        | inl e ↦ rw e (unfold root_of queue_of pointer_of child_step add in refl)
        | inr e ↦ rw e (unfold add in refl)
      ])
push_to_dictionary-Pushes fs (target dictionaries s i l m [] r) (target strings s' i' l' m' k' r') b
      e h =
    rw (modify-root_of fs (target dictionaries s i l m [] r) (set_latest_key s') h)
      (unfold can_have_children add in refl)
push_to_dictionary-Pushes fs (target dictionaries s i l m [] r) (target lists s' i' l' m' k' r') b e
      h =
    unfold can_have_children add in refl
push_to_dictionary-Pushes fs (target dictionaries s i l m [] r) (target _ s' i' l' m' k' r') b e h =
    unfold can_have_children add in refl
push_to_dictionary-Pushes fs (target _ s i l m k r) c b e h = cc

push_to_other-Pushes :
    (fs : List Target) (t c : Target) (b : Bencode)
    → target_type t ≢ lists
    → target_type t ≢ dictionaries
    → Pushes fs t c b
unfolding place stack_root stack_queue push_to_parent
push_to_other-Pushes fs (target lists s i l m k r) c b p q = absurd (p refl)
push_to_other-Pushes fs (target dictionaries s i l m k r) c b p q = absurd (q refl)
push_to_other-Pushes fs (target _ s i l m k r) c b p q =
    elim (Bool-cases (can_have_children (target_type c))) [
      | inl e ↦ rw e (unfold add in refl)
      | inr e ↦ rw e (unfold add in refl)
    ]

push-Pushes : (fs : List Target) (t c : Target) (b : Bencode) → AllOpen fs → Pushes fs t c b
push-Pushes fs (target lists s i l m k r) c b h =
    push_to_list-Pushes fs (target lists s i l m k r) c b refl h
push-Pushes fs (target dictionaries s i l m k r) c b h =
    push_to_dictionary-Pushes fs (target dictionaries s i l m k r) c b refl h
push-Pushes fs (target ty s i l m k r) c b h =
    push_to_other-Pushes fs (target ty s i l m k r) c b (λ e. cc) (λ e. cc)

-- `push_to_target` on the tree and the queue is `push` on the stack.
pub push_to_target-place :
    (stack : Stack) (c : Target) (b : Bencode)
    → IsOpen stack
    → push_to_target (place stack b) c ≡ place (push stack c) b
push_to_target-place (closed t) c b h = elim (Bool-cases (can_have_children (target_type c))) [
  | inl e ↦ rw e (unfold push_to_target place stack_root stack_queue root_of queue_of in rw e)
  | inr e ↦ rw e (unfold push_to_target place stack_root stack_queue in rw e)
]
push_to_target-place (opened t fs) c b h =
    unfold place stack_root stack_queue in (push_to_opened fs t c b h ∙ push-Pushes fs t c b h)

end_target-append :
    (b : Bencode) (ps : List Pointer) (p : Pointer)
    → end_target (record b { target_queue = ps ++ p ∷ [] }) ≡ ok (record b { target_queue = ps })
unfolding end_target
end_target-append b [] p = refl
end_target-append b (q ∷ qs) p = rw (drop_last-append (q ∷ qs) p)

abbrev pub mapped {ℓ κ} : {A : Type ℓ} {B : Type κ} → (A → B) → Result Fault A → Result Fault B
mapped f (ok a) = ok (f a)
mapped f (err e) = err e

-- `end_target` is `pop`: it closes the innermost container, and fails where none is open.
pub end_target-place :
    (stack : Stack) (b : Bencode)
    → end_target (place stack b) ≡ mapped (λ (s : Stack). place s b) (pop stack)
unfolding place stack_root stack_queue queue_of root_of
end_target-place (closed t) b = unfold end_target in refl
end_target-place (opened t []) b = unfold end_target in refl
end_target-place (opened t (f ∷ fs)) b =
    end_target-append (record b { root = root_of fs (add t f) }) (queue_of fs) (pointer_of (f ∷ fs))

append_raw_at-append :
    (c : ℕ) (ps : List Pointer) (p : Pointer) (t : Target)
    → append_raw_at c (ps ++ p ∷ []) t ≡ modify p (append_raw c) (append_raw_at c ps t)
unfolding append_raw_at
append_raw_at-append c [] p t = refl
append_raw_at-append c (q ∷ qs) p t = append_raw_at-append c qs p (modify q (append_raw c) t)

-- A byte noted in a container and in its child.
pub add-append_raw : (t c : Target) (x : ℕ) → append_raw x (add c t) ≡ add c (append_raw x t)
unfolding add
add-append_raw (target lists s i l m k r) c x = refl
add-append_raw (target dictionaries s i l m (y ∷ k) r) c x = refl
add-append_raw (target dictionaries s i l m [] r) c x = ground arith
add-append_raw (target _ s i l m k r) c x = refl

pub AllOpen-append_raw : (x : ℕ) (fs : List Target) → AllOpen fs → AllOpen (map (append_raw x) fs)
AllOpen-append_raw x [] h = tt
AllOpen-append_raw x (target ty s i l m k r ∷ fs) h = (h.0, AllOpen-append_raw x fs h.1)

pub child_step-append_raw : (x : ℕ) (f : Target) → child_step (append_raw x f) ≡ child_step f
unfolding child_step
child_step-append_raw x (target lists s i l m k r) = refl
child_step-append_raw x (target _ s i l m k r) = refl

pub pointer_of-append_raw :
    (x : ℕ) (fs : List Target) → pointer_of (map (append_raw x) fs) ≡ pointer_of fs
unfolding pointer_of
pointer_of-append_raw x [] = refl
pointer_of-append_raw x (f ∷ fs) = rw (pointer_of-append_raw x fs, child_step-append_raw x f)

pub queue_of-append_raw :
    (x : ℕ) (fs : List Target) → queue_of (map (append_raw x) fs) ≡ queue_of fs
unfolding queue_of
queue_of-append_raw x [] = refl
queue_of-append_raw x (f ∷ fs) = rw (queue_of-append_raw x fs, pointer_of-append_raw x (f ∷ fs))

append_raw_at-root_of :
    (x : ℕ) (fs : List Target) (t : Target)
    → AllOpen fs
    → append_raw_at x (queue_of fs) (root_of fs t)
      ≡ root_of (map (append_raw x) fs) (append_raw x t)
unfolding queue_of root_of
append_raw_at-root_of x [] t h = unfold append_raw_at modify in refl
append_raw_at-root_of x (f ∷ fs) t h =
    let inner : append_raw_at x (queue_of fs) (root_of fs (add t f))
        ≡ root_of (map (append_raw x) (f ∷ fs)) t =
      append_raw_at-root_of x fs (add t f) h.1
      ∙ ap (root_of (map (append_raw x) fs)) (add-append_raw f t x) in
    append_raw_at-append x (queue_of fs) (pointer_of (f ∷ fs)) (root_of fs (add t f))
    ∙ ap (modify (pointer_of (f ∷ fs)) (append_raw x)) inner
    ∙ ap (λ (p : Pointer). modify p (append_raw x) (root_of (map (append_raw x) (f ∷ fs)) t))
        (sym (pointer_of-append_raw x (f ∷ fs)))
    ∙ modify-root_of (map (append_raw x) (f ∷ fs)) t (append_raw x)
        (AllOpen-append_raw x (f ∷ fs) h)

-- `push_raw_bencode` appends the byte to the raw bytes of every open container.
pub push_raw_bencode-place :
    (stack : Stack) (x : ℕ) (b : Bencode)
    → IsOpen stack
    → push_raw_bencode (place stack b) x ≡ place (append_raws x stack) b
unfolding push_raw_bencode place stack_root stack_queue
push_raw_bencode-place (closed t) x b h = unfold append_raw_at in refl
push_raw_bencode-place (opened t fs) x b h =
    rw (append_raw_at-root_of x fs t h, queue_of-append_raw x fs)
