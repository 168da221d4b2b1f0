-- ===== src/Bencode/Grammar.antt =====
-- The bencode format itself, with no reference to the parser: values, their encoding, and the tree
-- of targets that a value stands for.
use torr.Prelude.{ℕ, ◌^◌, ◌<◌, Bool, true, false, List, [], ◌∷◌, ◌++◌, suc, ℤ, pos, negsuc, length}
use torr.Bencode.Number.{decimal}
use torr.Bencode.Target.{
  lists, dictionaries, Target, target, Targets, nil, cons, Entries, end, string_target,
  integer_target, assign,
}

mutual
  pub data Value : Type 0 where
    integer : ℤ → Value
    string : List ℕ → Value
    list : Values → Value
    dictionary : Fields → Value

  pub data Values : Type 0 where
    no_values : Values
    value : Value → Values → Values

  pub data Fields : Type 0 where
    no_fields : Fields
    field : List ℕ → Value → Fields → Fields

unfoldable pub encode_integer : ℤ → List ℕ
encode_integer (pos n) = decimal n
encode_integer (negsuc n) = b'-' ∷ decimal (suc n)

unfoldable pub encode_string : List ℕ → List ℕ
encode_string s = decimal (length s) ++ b':' ∷ s

unfoldable mutual
  pub encode : Value → List ℕ
  encode (integer z) = b'i' ∷ encode_integer z ++ b'e' ∷ []
  encode (string s) = encode_string s
  encode (list vs) = b'l' ∷ encode_values vs ++ b'e' ∷ []
  encode (dictionary fs) = b'd' ∷ encode_fields fs ++ b'e' ∷ []

  pub encode_values : Values → List ℕ
  encode_values no_values = []
  encode_values (value v vs) = encode v ++ encode_values vs

  pub encode_fields : Fields → List ℕ
  encode_fields no_fields = []
  encode_fields (field k v fs) = encode_string k ++ (encode v ++ encode_fields fs)

-- What the parser supports: integers of 64 bits, and strings that are not empty.
abbrev pub IsSupportedString : List ℕ → Type 0
IsSupportedString s = (0 < length s) × (length s < 2 ^ 63)

abbrev pub IsSupportedInteger : ℤ → Type 0
IsSupportedInteger (pos n) = n < 2 ^ 63
IsSupportedInteger (negsuc n) = n < 2 ^ 63

abbrev mutual
  pub IsSupported : Value → Type 0
  IsSupported (integer z) = IsSupportedInteger z
  IsSupported (string s) = IsSupportedString s
  IsSupported (list vs) = AreSupported vs
  IsSupported (dictionary fs) = AreSupportedFields fs

  pub AreSupported : Values → Type 0
  AreSupported no_values = Unit {0}
  AreSupported (value v vs) = IsSupported v × AreSupported vs

  pub AreSupportedFields : Fields → Type 0
  AreSupportedFields no_fields = Unit {0}
  AreSupportedFields (field k v fs) = IsSupportedString k × IsSupported v × AreSupportedFields fs

-- Bytes that are noted in a container, if raw bytes are stored.
abbrev pub grow : Bool → List ℕ → List ℕ → List ℕ
grow true bytes r = r ++ bytes
grow false bytes r = r

abbrev pub list_target : Targets → List ℕ → Target
list_target l r = target lists [] (pos 0) l end [] r

abbrev pub dictionary_target : Entries → List ℕ → List ℕ → Target
dictionary_target m k r = target dictionaries [] (pos 0) nil m k r

-- The tree of a value. The raw bytes of a container are those behind its first byte, its last one
-- included. Of two fields with one key the later one counts.
unfoldable mutual
  pub tree : Bool → Value → Target
  tree store (integer z) = integer_target z
  tree store (string s) = string_target s
  tree store (list vs) =
      list_target (trees store vs) (grow store (encode_values vs ++ b'e' ∷ []) [])
  tree store (dictionary fs) =
      dictionary_target (entries store fs end) [] (grow store (encode_fields fs ++ b'e' ∷ []) [])

  pub trees : Bool → Values → Targets
  trees store no_values = nil
  trees store (value v vs) = cons (tree store v) (trees store vs)

  pub entries : Bool → Fields → Entries → Entries
  entries store no_fields m = m
  entries store (field k v fs) m = entries store fs (assign m k (tree store v))
