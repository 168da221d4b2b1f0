-- ===== src/Bencode/Access.antt =====
-- The access to a parsed `bencode_map`: `operator[]`, `type`, `as_str`, `as_int` and `as_raw`.
pub mod Pointers
use torr.Prelude.{
  ℕ, ◌≡◌, refl, ap, Bool, true, false, List, [], ◌∷◌, ◌++◌, Option, none, some, Result, ok, err,
  ◌>>=◌, ℤ, if◌then◌else◌, bytes_eq, bytes_eq_refl, bytes_eq_sound, Bool-cases, inl, inr, arith,
  ◌∙◌, subst, sym,
}
use torr.Bencode.Target.{
  TargetType, unknown, integers, strings, lists, dictionaries, Target, target, Pointer, at_index,
  at_key, nth, lookup, list_container, map_container, target_type, string_value, integer_value,
  raw_bencode, deref, Entries, entry, end, assign,
}
use torr.Bencode.Parser.{Bencode}
use torr.Bencode.Grammar.{Value, Fields, no_fields, field, tree, entries}

-- A null or dangling `m_bracket_root`, which the language leaves undefined; the exception of
-- `at`; and a failed `assert`.
pub data AccessFault : Type 0 where
  no_bracket missing_element assertion_failed : AccessFault

-- `*m_bracket_root`
unfoldable pub current : Bencode → Result AccessFault (Pointer × Target)
unfolding deref
current b = elim b.bracket_root [
  | none ↦ err no_bracket
  | some p ↦ elim (deref p b.root) [ none ↦ err no_bracket | some t ↦ ok (p, t) ]
]

abbrev found : Bencode → Pointer → Option Target → Result AccessFault Bencode
found b p none = err missing_element
found b p (some t) = ok (record b { bracket_root = some p })

-- `operator[](const std::size_t&)`: anything but a list is left as it is.
unfoldable pub index : Bencode → ℕ → Result AccessFault Bencode
unfolding current
index b i = do
  (p, t) ← current b
  elim (target_type t) [
    | lists ↦ found b (p ++ at_index i ∷ []) (nth (list_container t) i)
    | _ ↦ ok b
  ]

-- `operator[](const std::string&)`: anything but a dictionary is left as it is.
unfoldable pub index_key : Bencode → List ℕ → Result AccessFault Bencode
unfolding current
index_key b k = do
  (p, t) ← current b
  elim (target_type t) [
    | dictionaries ↦ found b (p ++ at_key k ∷ []) (lookup (map_container t) k)
    | _ ↦ ok b
  ]

-- The four readers set `m_bracket_root` back to the root.
abbrev reset : Bencode → Bencode
reset b = record b { bracket_root = some [] }

unfoldable pub type_of : Bencode → Result AccessFault (TargetType × Bencode)
unfolding current
type_of b = do (p, t) ← current b; ok (target_type t, reset b)

unfoldable pub as_str : Bencode → Result AccessFault (List ℕ × Bencode)
unfolding current
as_str b = do
  (p, t) ← current b
  elim (target_type t) [ strings ↦ ok (string_value t, reset b) | _ ↦ err assertion_failed ]

unfoldable pub as_int : Bencode → Result AccessFault (ℤ × Bencode)
unfolding current
as_int b = do
  (p, t) ← current b
  elim (target_type t) [ integers ↦ ok (integer_value t, reset b) | _ ↦ err assertion_failed ]

unfoldable pub as_raw : Bencode → Result AccessFault (List ℕ × Bencode)
unfolding current
as_raw b = do (p, t) ← current b; ok (raw_bencode t, reset b)

-- The value of a key: of two fields with one key the later one counts.
abbrev later : Option Value → Option Value → Option Value
later none o = o
later (some w) o = some w

unfoldable pub last_field : List ℕ → Fields → Option Value
last_field k no_fields = none
last_field k (field j v fs) = later (last_field k fs) (if bytes_eq j k then some v else none)

same_key :
    (i j k : List ℕ) (u t : Target) (m : Entries)
    → i ≡ j
    → lookup (entry i t m) k ≡ (if bytes_eq j k then some t else lookup (entry i u m) k)
same_key i j k u t m e = rw e (ground arith)

bytes_eq_of_eq : (i j : List ℕ) → i ≡ j → bytes_eq i j ≡ true
bytes_eq_of_eq i j e = rw e (bytes_eq_refl j)

other_key :
    (i j k : List ℕ) (u t : Target) (o : Option Target)
    → bytes_eq i j ≡ false
    → (if bytes_eq i k then some u else (if bytes_eq j k then some t else o))
      ≡ (if bytes_eq j k then some t else (if bytes_eq i k then some u else o))
other_key i j k u t o e = ground (arith, bytes_eq_sound i k, bytes_eq_sound j k, bytes_eq_of_eq i j)

lookup-assign :
    (m : Entries) (j k : List ℕ) (t : Target)
    → lookup (assign m j t) k ≡ (if bytes_eq j k then some t else lookup m k)
lookup-assign end j k t = refl
lookup-assign (entry i u m) j k t = elim (Bool-cases (bytes_eq i j)) [
  | inl e ↦ rw e (same_key i j k u t m (bytes_eq_sound i j e))
  | inr e ↦ rw e (rw (lookup-assign m j k t) (other_key i j k u t (lookup m k) e))
]

abbrev tree_or : Bool → Option Value → Option Target → Option Target
tree_or store none o = o
tree_or store (some v) o = some (tree store v)

later_lem :
    (store b : Bool) (o : Option Value) (v : Value) (x : Option Target)
    → tree_or store o (if b then some (tree store v) else x)
      ≡ tree_or store (later o (if b then some v else none)) x
later_lem store b none v x = ground arith
later_lem store b (some w) v x = refl

lookup-entries_from :
    (store : Bool) (fs : Fields) (m : Entries) (k : List ℕ)
    → lookup (entries store fs m) k ≡ tree_or store (last_field k fs) (lookup m k)
unfolding tree last_field
lookup-entries_from store no_fields m k = refl
lookup-entries_from store (field j v fs) m k =
    lookup-entries_from store fs (assign m j (tree store v)) k
    ∙ rw lookup-assign (later_lem store (bytes_eq j k) (last_field k fs) v (lookup m k))

abbrev pub tree_of : Bool → Option Value → Option Target
tree_of store none = none
tree_of store (some v) = some (tree store v)

tree_or-none : (store : Bool) (o : Option Value) → tree_or store o none ≡ tree_of store o
tree_or-none store none = refl
tree_or-none store (some v) = refl

-- The map container of a dictionary has the tree of a key's last field, and no other key.
pub lookup-entries :
    (store : Bool) (fs : Fields) (k : List ℕ)
    → lookup (entries store fs end) k ≡ tree_of store (last_field k fs)
lookup-entries store fs k =
    lookup-entries_from store fs end k ∙ tree_or-none store (last_field k fs)
