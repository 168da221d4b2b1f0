-- ===== src/Bencode/Stack.antt =====
-- The tree and the queue of pointers of the parser, seen as a stack of open containers. Each
-- container is kept as it is before its open child is put into it, the innermost first.
pub mod Operations
pub mod Held
pub mod Walk
pub mod Pointers
pub mod Steady
pub mod Growth
use torr.Prelude.{
  ℕ, zero, suc, ◌≡◌, refl, ap, ◌∙◌, sym, Bool, true, false, ◌&&◌, List, [], ◌∷◌, ◌++◌, Option, none,
  some, map, append-nil, append_assoc, arith, ◌==◌, if◌then◌else◌, bytes_eq, bytes_eq_refl, ℤ,
  get_last?, drop_last, ok, err, get_last?-append, drop_last-append, Bool-cases, Option-cases, inl,
  inr, ◌⊎◌, ◌≢◌, Result,
}
use mathlib.Core.Path.{fun_ext}
use torr.Bencode.Number.{Fault, empty_queue}
use torr.Bencode.Target.{
  TargetType, unknown, integers, strings, lists, dictionaries, Target, target, Targets, nil, cons,
  Entries, end, entry, Pointer, Step, at_index, at_key, can_have_children, count, push_back, assign,
  lookup, nth, update_nth, update_key, update_child, child, target_type, string_value,
  list_container, map_container, latest_key, deref, modify, append_raw,
}
use torr.Bencode.Parser.{
  Bencode, push_to_target, end_target, push_raw_bencode, push_to_parent, push_to_dictionary,
  push_to_list, set_latest_key, assign_entry,
}

pub data Stack : Type 0 where
  closed : Target → Stack
  opened : Target → List Target → Stack

-- A child put into a container: at the end of a list, under the latest key of a dictionary, or, in
-- a dictionary that waits for a key, as that key if it is a string.
abbrev key_of : TargetType → Target → Target → Target
key_of strings c t = set_latest_key (string_value c) t
key_of _ c t = t

abbrev add_to_dictionary : List ℕ → Target → Target → Target
add_to_dictionary [] c t = key_of (target_type c) c t
add_to_dictionary (k ∷ ks) c t = assign_entry (k ∷ ks) c t

abbrev add_by_type : TargetType → Target → Target → Target
add_by_type lists c t = push_to_list c t
add_by_type dictionaries c t = add_to_dictionary (latest_key t) c t
add_by_type _ c t = t

unfoldable pub add : Target → Target → Target
add c t = add_by_type (target_type t) c t

-- The way from a container to its open child.
abbrev step_by_type : TargetType → Target → Step
step_by_type lists t = at_index (count (list_container t))
step_by_type _ t = at_key (latest_key t)

pub child_step : Target → Step
child_step t = step_by_type (target_type t) t

pub root_of : List Target → Target → Target
root_of [] t = t
root_of (f ∷ fs) t = root_of fs (add t f)

pub pointer_of : List Target → Pointer
pointer_of [] = []
pointer_of (f ∷ fs) = pointer_of fs ++ child_step f ∷ []

pub queue_of : List Target → List Pointer
queue_of [] = [] ∷ []
queue_of (f ∷ fs) = queue_of fs ++ pointer_of (f ∷ fs) ∷ []

unfoldable pub stack_root : Stack → Target
unfolding root_of
stack_root (closed t) = t
stack_root (opened t fs) = root_of fs t

unfoldable pub stack_queue : Stack → List Pointer
unfolding queue_of
stack_queue (closed t) = []
stack_queue (opened t fs) = queue_of fs

-- The parser with the tree and the queue that the stack stands for.
unfoldable pub place : Stack → Bencode → Bencode
place s b = record b { root = stack_root s; target_queue = stack_queue s }

-- A container that can take a child with children of its own.
abbrev pub CanOpen : Target → Type 0
CanOpen t = (target_type t ≡ lists) ⊎ ((target_type t ≡ dictionaries) × (latest_key t ≢ []))

abbrev pub AllOpen : List Target → Type 0
AllOpen [] = Unit {0}
AllOpen (f ∷ fs) = CanOpen f × AllOpen fs

nth-push_back : (l : Targets) (x : Target) → nth (push_back l x) (count l) ≡ some x
nth-push_back nil x = refl
nth-push_back (cons t ts) x = nth-push_back ts x

update_nth-push_back :
    (l : Targets) (x : Target) (f : Target → Target)
    → update_nth (push_back l x) (count l) f ≡ push_back l (f x)
update_nth-push_back nil x f = refl
update_nth-push_back (cons t ts) x f = ap (cons t) (update_nth-push_back ts x f)

pub lookup-assign_self : (m : Entries) (k : List ℕ) (v : Target) → lookup (assign m k v) k ≡ some v
lookup-assign_self end k v = rw (bytes_eq_refl k)
lookup-assign_self (entry j t m) k v = elim (Bool-cases (bytes_eq j k)) [
  | inl e ↦ rw e (rw e)
  | inr e ↦ rw e (rw e (lookup-assign_self m k v))
]

update_key-assign :
    (m : Entries) (k : List ℕ) (v : Target) (f : Target → Target)
    → update_key (assign m k v) k f ≡ assign m k (f v)
update_key-assign end k v f = rw (bytes_eq_refl k)
update_key-assign (entry j t m) k v f = elim (Bool-cases (bytes_eq j k)) [
  | inl e ↦ rw e (rw e)
  | inr e ↦ rw e (rw e (ap (entry j t) (update_key-assign m k v f)))
]

modify-append :
    (p q : Pointer) (f : Target → Target) (t : Target)
    → modify (p ++ q) f t ≡ modify p (modify q f) t
unfolding modify
modify-append [] q f t = refl
modify-append (s ∷ p) q f t =
    ap (λ (g : Target → Target). update_child s g t) (fun_ext (modify-append p q f))

pub update_child-add :
    (f : Target → Target) (t c : Target)
    → CanOpen t
    → update_child (child_step t) f (add c t) ≡ add (f c) t
unfolding child_step add
update_child-add f (target lists s i l m k r) c h =
    ap (λ (x : Targets). target lists s i x m k r) (update_nth-push_back l c f)
update_child-add f (target dictionaries s i l m [] r) c h = ground arith
update_child-add f (target dictionaries s i l m (x ∷ k) r) c h =
    ap (λ (y : Entries). target dictionaries s i l y [] r) (update_key-assign m (x ∷ k) c f)
update_child-add f (target _ s i l m k r) c h = ground arith

pub child-add : (t c : Target) → CanOpen t → child (child_step t) (add c t) ≡ some c
unfolding child_step add
child-add (target lists s i l m k r) c h = nth-push_back l c
child-add (target dictionaries s i l m [] r) c h = ground arith
child-add (target dictionaries s i l m (x ∷ k) r) c h = lookup-assign_self m (x ∷ k) c
child-add (target _ s i l m k r) c h = ground arith

-- A change at the pointer to the innermost container is a change of that container.
pub modify-root_of :
    (fs : List Target) (t : Target) (g : Target → Target)
    → AllOpen fs
    → modify (pointer_of fs) g (root_of fs t) ≡ root_of fs (g t)
unfolding root_of pointer_of
modify-root_of [] t g h = unfold modify in refl
modify-root_of (f ∷ fs) t g h =
    modify-append (pointer_of fs) (child_step f ∷ []) g (root_of fs (add t f))
    ∙ modify-root_of fs (add t f) (modify (child_step f ∷ []) g) h.1
    ∙ ap (root_of fs) (unfold modify in update_child-add g f t h.0)

none-ne-some : {u : Target} → ◌≢◌ {A = Option Target} none (some u)
none-ne-some e = cc

deref_one : (s : Step) (t : Target) → deref (s ∷ []) t ≡ child s t
unfolding deref
deref_one s t = elim (Option-cases (child s t)) [
  | inl h ↦ rw (h, deref)
  | inr (c, h) ↦ rw (h, deref)
]

pub deref-append :
    (p : Pointer) (s : Step) (t u : Target) → deref p t ≡ some u → deref (p ++ s ∷ []) t ≡ child s u
unfolding deref
deref-append [] s t u e = cc (deref_one s t)
deref-append (x ∷ p) s t u e = elim (Option-cases (child x t)) [
  | inl h ↦ absurd (none-ne-some (rw (h, deref) at e))
  | inr (c, h) ↦ rw (h, deref) (deref-append p s c u (rw (h, deref) at e))
]

pub deref-root_of :
    (fs : List Target) (t : Target) → AllOpen fs → deref (pointer_of fs) (root_of fs t) ≡ some t
unfolding root_of pointer_of
deref-root_of [] t h = unfold deref in refl
deref-root_of (f ∷ fs) t h =
    deref-append (pointer_of fs) (child_step f) (root_of fs (add t f)) (add t f)
      (deref-root_of fs (add t f) h.1)
    ∙ child-add f t h.0

pub back-queue_of : (fs : List Target) → get_last? (queue_of fs) ≡ some (pointer_of fs)
unfolding queue_of pointer_of
back-queue_of [] = refl
back-queue_of (f ∷ fs) = get_last?-append (queue_of fs) (pointer_of (f ∷ fs))

abbrev pub can_open : Target → Bool
can_open (target lists s i l m k r) = true
can_open (target dictionaries s i l m [] r) = false
can_open (target dictionaries s i l m (x ∷ k) r) = true
can_open (target _ s i l m k r) = false

-- The operations of the parser on the stack.
abbrev pub push : Stack → Target → Stack
push (closed t) c = if can_have_children (target_type c) then opened c [] else closed c
push (opened t fs) c =
    if can_have_children (target_type c) && can_open t
    then opened c (t ∷ fs)
    else opened (add c t) fs

abbrev pub pop : Stack → Result Fault Stack
pop (closed t) = err empty_queue
pop (opened t []) = ok (closed t)
pop (opened t (f ∷ fs)) = ok (opened (add t f) fs)

abbrev pub append_raws : ℕ → Stack → Stack
append_raws c (closed t) = closed t
append_raws c (opened t fs) = opened (append_raw c t) (map (append_raw c) fs)

abbrev pub IsOpen : Stack → Type 0
IsOpen (closed t) = Unit {0}
IsOpen (opened t fs) = AllOpen fs
