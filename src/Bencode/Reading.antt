-- ===== src/Bencode/Reading.antt =====
-- How the parser of source/generic/bencode_map.hpp reads the encoding of a value.
use torr.Prelude.{
  ℕ, ◌≡◌, refl, ap, ◌∙◌, Bool, List, [], ◌∷◌, ◌++◌, Option, arith, append_assoc, inl, inr, subst,
}
use torr.Bencode.Target.{
  Target, Targets, Entries, nil, cons, end, push_back, assign, Pointer, string_target,
}
use torr.Bencode.Parser.{
  State, idle, parsing_list, parsing_dictionary, parsing_word, parsing_integer, Bencode,
}
use torr.Bencode.Stack.{Stack, add}
use torr.Bencode.Scan.{
  IsReady, complete, enter, Accepts, note_byte, note, note-append, Reads, Reads-cons, Reads-append,
  at_rest, Accepts-IsOpen, Accepts-note_byte, IsOpen-enter,
}
use torr.Bencode.Scan.Tokens.{read_string}
use torr.Bencode.Scan.Integers.{read_integer}
use torr.Bencode.Scan.Containers.{
  grow-append, complete-enter, note-enter, Accepts-note, Accepts-enter, open_list, open_dictionary,
  close, grown,
}
use torr.Bencode.Grammar.{
  Value, integer, string, list, dictionary, Values, no_values, value, Fields, no_fields, field,
  encode, encode_values, encode_fields, encode_string, IsSupported, AreSupported,
  AreSupportedFields, grow, list_target, dictionary_target, tree, trees, entries,
}

-- `m_previous_state` after a value: the parser sets it at the end of a string or an integer only.
unfoldable mutual
  pub after : Value → State → State
  after (integer z) p = parsing_integer
  after (string s) p = parsing_word
  after (list vs) p = after_values vs p
  after (dictionary fs) p = after_fields fs p

  pub after_values : Values → State → State
  after_values no_values p = p
  after_values (value v vs) p = after_values vs (after v p)

  pub after_fields : Fields → State → State
  after_fields no_fields p = p
  after_fields (field k v fs) p = after_fields fs (after v parsing_word)

pub targets_append : Targets → Targets → Targets
targets_append nil ts = ts
targets_append (cons t us) ts = cons t (targets_append us ts)

targets_append-push_back :
    (us : Targets) (t : Target) (ts : Targets)
    → targets_append (push_back us t) ts ≡ targets_append us (cons t ts)
unfolding targets_append
targets_append-push_back nil t ts = refl
targets_append-push_back (cons u us) t ts = ap (cons u) (targets_append-push_back us t ts)

targets_append-nil : (us : Targets) → targets_append us nil ≡ us
unfolding targets_append
targets_append-nil nil = refl
targets_append-nil (cons u us) = ap (cons u) (targets_append-nil us)

module _ (store : Bool) (bracket : Option Pointer) where
  abbrev pub rest_at : State → State → Stack → Bencode
  rest_at = at_rest store bracket

  -- What reading a value, or the rest of a container, comes to.
  abbrev pub ReadsValue : State → State → State → Stack → List ℕ → Target → Type 0
  ReadsValue prev prev' st s xs t =
      Reads (rest_at prev st s) xs (rest_at prev' idle (complete t (note store xs s)))

  -- One child is read, and then the rest of the container.
  child_then_rest :
      {p p' p'' st : State} (s : Stack) (c c' t full : Target) {xs ys : List ℕ}
      → add t (grown store xs c) ≡ c'
      → ReadsValue p p' st (enter c s) xs t
      → Reads
          (rest_at p' idle (enter c' (note store xs s)))
          ys
          (rest_at p'' idle (complete full (note store ys (note store xs s))))
      → Reads
          (rest_at p st (enter c s))
          (xs ++ ys)
          (rest_at p'' idle (complete full (note store (xs ++ ys) s)))
  child_then_rest {p} {p'} {p''} {st} s c c' t full {xs} {ys} e h k =
      let step : complete t (note store xs (enter c s)) ≡ enter c' (note store xs s) =
        ap (complete t) (note-enter store xs s c)
        ∙ complete-enter (note store xs s) t (grown store xs c)
        ∙ ap (λ (u : Target). enter u (note store xs s)) e in
      rw note-append (
        Reads-append
          (subst (λ (u : Stack). Reads (rest_at p st (enter c s)) xs (rest_at p' idle u)) step h) k)

  mutual
    unfolding encode tree after targets_append note add

    pub read_value :
        (prev st : State) (s : Stack) (v : Value)
        → IsReady st
        → Accepts s
        → IsSupported v
        → ReadsValue prev (after v prev) st s (encode v) (tree store v)
    read_value prev st s (integer z) r h l =
        read_integer store bracket prev st z s r (Accepts-IsOpen s h) l
    read_value prev st s (string w) r h l =
        read_string store bracket prev st w s r (Accepts-IsOpen s h) l
    read_value prev st s (list vs) r h l = Reads-cons (open_list store bracket prev st s r h) (
        read_values prev parsing_list (note_byte store b'l' s) vs nil [] tt
          (Accepts-note_byte store b'l' s h) l)
    read_value prev st s (dictionary fs) r h l =
        Reads-cons (open_dictionary store bracket prev st s r h) (
          read_fields prev parsing_dictionary (note_byte store b'd' s) fs end [] tt
            (Accepts-note_byte store b'd' s h) l)

    pub read_values :
        (prev st : State) (s : Stack) (vs : Values) (us : Targets) (r : List ℕ)
        → IsReady st
        → Accepts s
        → AreSupported vs
        → Reads (rest_at prev st (enter (list_target us r) s)) (encode_values vs ++ b'e' ∷ []) (
            rest_at (after_values vs prev) idle (
              complete
                (list_target
                  (targets_append us (trees store vs))
                  (grow store (encode_values vs ++ b'e' ∷ []) r))
                (note store (encode_values vs ++ b'e' ∷ []) s)))
    read_values prev st s no_values us r i h l =
        rw targets_append-nil (close store bracket prev st s (list_target us r) i h)
    read_values prev st s (value v vs) us r i h l =
        let t = tree store v in
        rw
          (
            append_assoc (encode v) (encode_values vs) (b'e' ∷ []),
            ← targets_append-push_back us t (trees store vs),
            grow-append store (encode v) (encode_values vs ++ b'e' ∷ []) r,
          )
          (child_then_rest s (list_target us r)
            (list_target (push_back us t) (grow store (encode v) r)) t _ refl
            (read_value prev st (enter (list_target us r) s) v i
              (Accepts-enter s (list_target us r) (inl refl) h) l.0)
            (read_values (after v prev) idle (note store (encode v) s) vs (push_back us t)
              (grow store (encode v) r) tt (Accepts-note store (encode v) s h) l.1))

    pub read_fields :
        (prev st : State) (s : Stack) (fs : Fields) (m : Entries) (r : List ℕ)
        → IsReady st
        → Accepts s
        → AreSupportedFields fs
        → Reads
            (rest_at prev st (enter (dictionary_target m [] r) s))
            (encode_fields fs ++ b'e' ∷ [])
            (rest_at (after_fields fs prev) idle (
              complete
                (dictionary_target
                  (entries store fs m)
                  []
                  (grow store (encode_fields fs ++ b'e' ∷ []) r))
                (note store (encode_fields fs ++ b'e' ∷ []) s)))
    read_fields prev st s no_fields m r i h l =
        close store bracket prev st s (dictionary_target m [] r) i h
    read_fields prev st s (field [] v fs) m r i h l = absurd (omega arith)
    read_fields prev st s (field (x ∷ xs) v fs) m r i h l =
        let k = encode_string (x ∷ xs) in
        let t = tree store v in
        let s' = note store k s in
        let r' = grow store k r in
        let keyed = dictionary_target m (x ∷ xs) r' in
        rw
          (
            append_assoc k (encode v ++ encode_fields fs) (b'e' ∷ []),
            append_assoc (encode v) (encode_fields fs) (b'e' ∷ []),
            grow-append store k (encode v ++ (encode_fields fs ++ b'e' ∷ [])) r,
            grow-append store (encode v) (encode_fields fs ++ b'e' ∷ []) r',
          )
          (child_then_rest s (dictionary_target m [] r) keyed (string_target (x ∷ xs)) _ refl
            (read_string store bracket prev st (x ∷ xs) (enter (dictionary_target m [] r) s) i
              (IsOpen-enter (dictionary_target m [] r) s h) l.0)
            (child_then_rest s' keyed
              (dictionary_target (assign m (x ∷ xs) t) [] (grow store (encode v) r')) t _ refl
              (read_value parsing_word idle (enter keyed s') v tt
                (Accepts-enter s' keyed (inr (refl, λ e. cc)) (Accepts-note store k s h)) l.1)
              (read_fields (after v parsing_word) idle (note store (encode v) s') fs
                (assign m (x ∷ xs) t) (grow store (encode v) r') tt
                (Accepts-note store (encode v) s' (Accepts-note store k s h)) l.2)))
