-- ===== src/Bencode/Target.antt =====
-- `bencode_map::target` of source/generic/bencode_map.hpp and the pointers into a tree of targets.
use torr.Prelude.{
  ℕ, zero, suc, Bool, true, false, List, [], ◌∷◌, ◌++◌, Option, none, some, if◌then◌else◌, bytes_eq,
  ℤ, pos,
}

-- `target_type`
pub data TargetType : Type 0 where
  unknown integers strings lists dictionaries : TargetType

-- `target`: a type, the string, the integer, the list container, the map container, the latest
-- key, and the raw bytes. An unordered map is a list of entries with one entry for a key.
mutual
  pub data Target : Type 0 where
    target : TargetType → List ℕ → ℤ → Targets → Entries → List ℕ → List ℕ → Target

  pub data Targets : Type 0 where
    nil : Targets
    cons : Target → Targets → Targets

  pub data Entries : Type 0 where
    end : Entries
    entry : List ℕ → Target → Entries → Entries

abbrev pub target_type : Target → TargetType
target_type (target ty s i l m k r) = ty

abbrev pub string_value : Target → List ℕ
string_value (target ty s i l m k r) = s

abbrev pub integer_value : Target → ℤ
integer_value (target ty s i l m k r) = i

abbrev pub list_container : Target → Targets
list_container (target ty s i l m k r) = l

abbrev pub map_container : Target → Entries
map_container (target ty s i l m k r) = m

abbrev pub latest_key : Target → List ℕ
latest_key (target ty s i l m k r) = k

abbrev pub raw_bencode : Target → List ℕ
raw_bencode (target ty s i l m k r) = r

-- The initialisers that the parser uses, and the one of `m_root`.
abbrev pub fresh_target : TargetType → Target
fresh_target ty = target ty [] (pos 0) nil end [] []

abbrev pub string_target : List ℕ → Target
string_target s = target strings s (pos 0) nil end [] []

abbrev pub integer_target : ℤ → Target
integer_target i = target integers [] i nil end [] []

-- `can_have_children`
unfoldable pub can_have_children : TargetType → Bool
can_have_children lists = true
can_have_children dictionaries = true
can_have_children _ = false

-- `list_container.size()`, `push_back` and the element at an index.
abbrev pub count : Targets → ℕ
count nil = 0
count (cons t ts) = suc (count ts)

abbrev pub push_back : Targets → Target → Targets
push_back nil x = cons x nil
push_back (cons t ts) x = cons t (push_back ts x)

abbrev pub nth : Targets → ℕ → Option Target
nth nil i = none
nth (cons t ts) zero = some t
nth (cons t ts) (suc i) = nth ts i

abbrev pub update_nth : Targets → ℕ → (Target → Target) → Targets
update_nth nil i f = nil
update_nth (cons t ts) zero f = cons (f t) ts
update_nth (cons t ts) (suc i) f = cons t (update_nth ts i f)

-- `map_container.at(key)` and `map_container[key] = value`.
abbrev pub lookup : Entries → List ℕ → Option Target
lookup end k = none
lookup (entry j t m) k = if bytes_eq j k then some t else lookup m k

abbrev pub assign : Entries → List ℕ → Target → Entries
assign end k v = entry k v end
assign (entry j t m) k v = if bytes_eq j k then entry j v m else entry j t (assign m k v)

abbrev pub update_key : Entries → List ℕ → (Target → Target) → Entries
update_key end k f = end
update_key (entry j t m) k f =
    if bytes_eq j k then entry j (f t) m else entry j t (update_key m k f)

-- A `target*` into the tree below `m_root`: the way from the root to the target.
pub data Step : Type 0 where
  at_index : ℕ → Step
  at_key : List ℕ → Step

abbrev pub Pointer : Type 0
Pointer = List Step

abbrev pub child : Step → Target → Option Target
child (at_index i) t = nth (list_container t) i
child (at_key k) t = lookup (map_container t) k

abbrev pub update_child : Step → (Target → Target) → Target → Target
update_child (at_index i) f (target ty s n l m k r) = target ty s n (update_nth l i f) m k r
update_child (at_key j) f (target ty s n l m k r) = target ty s n l (update_key m j f) k r

-- `*pointer`, and a change of `*pointer` in place.
unfoldable pub deref : Pointer → Target → Option Target
deref [] t = some t
deref (s ∷ p) t = elim (child s t) [ none ↦ none | some c ↦ deref p c ]

unfoldable pub modify : Pointer → (Target → Target) → Target → Target
modify [] f t = f t
modify (s ∷ p) f t = update_child s (modify p f) t

-- `raw_bencode.push_back(c)`
abbrev pub append_raw : ℕ → Target → Target
append_raw c (target ty s i l m k r) = target ty s i l m k (r ++ c ∷ [])
