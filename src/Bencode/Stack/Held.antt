-- ===== src/Bencode/Stack/Held.antt =====
-- source/generic/bencode_map.hpp: the stacks of open containers in which every target that is held
-- open can have children.
use torr.Prelude.{ℕ, ◌≡◌, refl, true, [], ◌∷◌, arith, inl, inr, Bool-cases}
use torr.Bencode.Target.{lists, dictionaries, Target, target, can_have_children, target_type}
use torr.Bencode.Stack.{
  Stack, closed, opened, add, CanOpen, AllOpen, IsOpen, can_open, push, append_raws,
}
use torr.Bencode.Stack.Operations.{AllOpen-append_raw}

-- The innermost container is one too.
abbrev pub IsContainer : Target → Type 0
IsContainer t = can_have_children (target_type t) ≡ true

abbrev pub IsHeld : Stack → Type 0
IsHeld (closed t) = Unit {0}
IsHeld (opened t fs) = IsContainer t × AllOpen fs

pub IsHeld-IsOpen : (s : Stack) → IsHeld s → IsOpen s
IsHeld-IsOpen (closed t) h = tt
IsHeld-IsOpen (opened t fs) h = h.1

can_open-CanOpen : (t : Target) → can_open t ≡ true → CanOpen t
can_open-CanOpen (target lists s i l m k r) e = inl refl
can_open-CanOpen (target dictionaries s i l m [] r) e = cc
can_open-CanOpen (target dictionaries s i l m (x ∷ k) r) e = inr (refl, λ h. cc)
can_open-CanOpen (target _ s i l m k r) e = cc

pub CanOpen-IsContainer : (t : Target) → CanOpen t → IsContainer t
unfolding can_have_children
CanOpen-IsContainer t (inl e) = rw e refl
CanOpen-IsContainer t (inr e) = rw e.0 refl

add-target_type : (c t : Target) → target_type (add c t) ≡ target_type t
unfolding add
add-target_type c (target lists s i l m k r) = refl
add-target_type c (target dictionaries s i l m [] r) = ground arith
add-target_type c (target dictionaries s i l m (x ∷ k) r) = refl
add-target_type c (target _ s i l m k r) = refl

pub add-IsContainer : (c t : Target) → IsContainer t → IsContainer (add c t)
add-IsContainer c t h = rw (add-target_type c t) h

pub push-IsHeld : (s : Stack) (c : Target) → IsHeld s → IsHeld (push s c)
push-IsHeld (closed t) c h = elim (Bool-cases (can_have_children (target_type c))) [
  | inl e ↦ rw e (e, tt)
  | inr e ↦ rw e tt
]
push-IsHeld (opened t fs) c h = elim (Bool-cases (can_have_children (target_type c))) [
  | inl e ↦ elim (Bool-cases (can_open t)) [
    | inl o ↦ rw e (rw o (e, (can_open-CanOpen t o, h.1)))
    | inr o ↦ rw e (rw o (add-IsContainer c t h.0, h.1))
  ]
  | inr e ↦ rw e (add-IsContainer c t h.0, h.1)
]

pub append_raws-IsHeld : (s : Stack) (x : ℕ) → IsHeld s → IsHeld (append_raws x s)
append_raws-IsHeld (closed t) x h = tt
append_raws-IsHeld (opened (target ty s i l m k r) fs) x h = (h.0, AllOpen-append_raw x fs h.1)
