-- ===== src/Bencode/Access/Pointers.antt =====
-- The access functions of `bencode_map` where the pointer leads to a known target.
use torr.Prelude.{ℕ, ◌≡◌, refl, ◌∙◌, List, [], ◌∷◌, ◌++◌, none, some, ok, err, ℤ}
use torr.Bencode.Target.{
  Target, Pointer, at_key, lookup, target_type, string_target, integer_target, raw_bencode, deref,
  Entries,
}
use torr.Bencode.Parser.{Bencode}
use torr.Bencode.Stack.{deref-append}
use torr.Bencode.Grammar.{dictionary_target}
use torr.Bencode.Access.{missing_element, current, index_key, type_of, as_str, as_int, as_raw}

module _ (b : Bencode) where
  abbrev pub focus : Pointer → Bencode
  focus p = record b { bracket_root = some p }

  module _ (p : Pointer) where
    pub deref-key :
        (m : Entries) (lk r k : List ℕ) (t : Target)
        → deref p b.root ≡ some (dictionary_target m lk r)
        → lookup m k ≡ some t
        → deref (p ++ at_key k ∷ []) b.root ≡ some t
    deref-key m lk r k t e h = deref-append p (at_key k) b.root (dictionary_target m lk r) e ∙ h

    pub index_key-focus :
        (m : Entries) (lk r k : List ℕ) (t : Target)
        → deref p b.root ≡ some (dictionary_target m lk r)
        → lookup m k ≡ some t
        → index_key (focus p) k ≡ ok (focus (p ++ at_key k ∷ []))
    unfolding index_key
    index_key-focus m lk r k t e h = rw (e, current) (rw h refl)

    pub index_key_missing :
        (m : Entries) (lk r k : List ℕ)
        → deref p b.root ≡ some (dictionary_target m lk r)
        → lookup m k ≡ none
        → index_key (focus p) k ≡ err missing_element
    unfolding index_key
    index_key_missing m lk r k e h = rw (e, current) (rw h refl)

    pub type_of-focus :
        (t : Target) → deref p b.root ≡ some t → type_of (focus p) ≡ ok (target_type t, focus [])
    unfolding type_of
    type_of-focus t e = rw (e, current) refl

    pub as_str-focus :
        (s : List ℕ) → deref p b.root ≡ some (string_target s) → as_str (focus p) ≡ ok (s, focus [])
    unfolding as_str
    as_str-focus s e = rw (e, current) refl

    pub as_int-focus :
        (z : ℤ) → deref p b.root ≡ some (integer_target z) → as_int (focus p) ≡ ok (z, focus [])
    unfolding as_int
    as_int-focus z e = rw (e, current) refl

    pub as_raw-focus :
        (t : Target) → deref p b.root ≡ some t → as_raw (focus p) ≡ ok (raw_bencode t, focus [])
    unfolding as_raw
    as_raw-focus t e = rw (e, current) refl
