-- ===== src/Uri/Magnet/Hashes.antt =====
-- source/uri/magnet.cpp: the file hash of an urn, and the magnet uris that have no source of the
-- information.
use torr.Prelude.{
  ℕ, ◌*◌, ◌/◌, ◌%◌, ◌<◌, Bool, true, false, List, [], ◌∷◌, ◌++◌, Option, Result, ok, err, ◌>>=◌,
  ◌≡◌, ◌≢◌, refl, ap, subst, inl, inr, arith, length, take, bytes, bytes_eq, bytes_eq_sound, All,
  Bool-cases, passes, passes_row, ==_iff, ◌==◌,
}
use torr.Bencode.Parser.{Bencode, new_bencode}
use torr.Bencode.Access.{no_bracket, index_key, current}
use torr.TorrentFile.{validate}
use torr.Uri.Url.{hex_digit, IsByte}
use torr.Uri.Magnet.{
  Magnet, MagnetError, access_fault, Urn, no_urn, nibble, hex_byte, hex_to_bytes, read_words,
  check_urn, urn_to_file_hash, check_magnet, read_parameter, read_parameters, from_string,
}

-- The lower-case hexadecimal form of bytes.
unfoldable pub hex : List ℕ → List ℕ
hex [] = []
hex (b ∷ bs) = hex_digit (b / 16) ∷ hex_digit (b % 16) ∷ hex bs

byte_test : ℕ → Bool
byte_test b = hex_byte (nibble (hex_digit (b / 16))) (nibble (hex_digit (b % 16))) == b

byte_table : passes byte_test 256 ≡ true
unfolding passes byte_test hex_byte nibble
byte_table = refl

hex_byte-hex_digit :
    (b : ℕ) → b < 256 → hex_byte (nibble (hex_digit (b / 16))) (nibble (hex_digit (b % 16))) ≡ b
unfolding byte_test
hex_byte-hex_digit b h = (==_iff _ b).0 (passes_row byte_test 256 b h byte_table)

-- The decoding of the hash reads every byte string back from its lower-case form.
pub hex_to_bytes-hex : (bs : List ℕ) → All IsByte bs → hex_to_bytes (hex bs) ≡ bs
unfolding hex_to_bytes hex
hex_to_bytes-hex [] h = refl
hex_to_bytes-hex (b ∷ bs) (h, hs) = rw (hex_to_bytes-hex bs hs) (rw (hex_byte-hex_digit b h) refl)

length-hex : (bs : List ℕ) → length (hex bs) ≡ 2 * length bs
unfolding hex
length-hex [] = omega arith
length-hex (b ∷ bs) = omega (arith, length-hex bs)

bytes_eq-length : (xs ys : List ℕ) → length xs ≢ length ys → bytes_eq xs ys ≡ false
bytes_eq-length xs ys h = elim (Bool-cases (bytes_eq xs ys)) [
  | inl e ↦ absurd (h (ap length (bytes_eq_sound xs ys e)))
  | inr e ↦ e
]

nonzero : (n : ℕ) → 0 < n → (n == 0) ≡ false
nonzero n h = ground arith

-- The urn of a BitTorrent info hash of 20 bytes, in lower case, gives these bytes to a magnet that
-- has no hash yet.
pub urn_to_file_hash-hex :
    (hash : List ℕ) (m : Magnet)
    → length hash ≡ 20
    → All IsByte hash
    → m.file_hash ≡ []
    → urn_to_file_hash (bytes "urn" ∷ bytes "btih" ∷ hex hash ∷ []) m
      ≡ ok (record m { file_hash = hash })
unfolding urn_to_file_hash read_words bytes_eq
urn_to_file_hash-hex hash m h b e =
    let size = length-hex hash in
    let other : (length (hex hash) == 0) ≡ false =
      nonzero (length (hex hash)) (omega (arith, h, size)) in
    rw (bytes_eq-length (hex hash) (bytes "urn") (λ k. omega (arith, h, size, k))) (
      rw (bytes_eq-length (hex hash) (bytes "btih") (λ k. omega (arith, h, size, k)))
        (rw other (rw e (rw (hex_to_bytes-hex hash b) (rw h refl)))))

-- An operation leaves the bencode map as it was, or fails.
abbrev Keeps : Bencode → Result MagnetError Magnet → Type 0
Keeps b (ok m) = m.torrent_bencode ≡ b
Keeps b (err e) = Unit {0}

bind-Keeps :
    (b : Bencode) (r : Result MagnetError Magnet) (f : Magnet → Result MagnetError Magnet)
    → Keeps b r
    → ((m : Magnet) → m.torrent_bencode ≡ b → Keeps b (f m))
    → Keeps b (r >>= f)
bind-Keeps b (ok m) f h k = k m h
bind-Keeps b (err e) f h k = tt

check_urn-Keeps : (u : Urn) (m : Magnet) → Keeps m.torrent_bencode (check_urn u m)
check_urn-Keeps u m = elim (Bool-cases u.is_urn) [
  | inr e ↦ rw e tt
  | inl e ↦ elim (Bool-cases u.is_bit_torrent) [
    | inr e' ↦ rw e (rw e' tt)
    | inl e' ↦ elim (Bool-cases (length m.file_hash == 20)) [
      | inr e'' ↦ rw e (rw e' (rw e'' tt))
      | inl e'' ↦ rw e (rw e' (rw e'' refl))
    ]
  ]
]

urn_to_file_hash-Keeps :
    (ws : List (List ℕ)) (m : Magnet) → Keeps m.torrent_bencode (urn_to_file_hash ws m)
unfolding urn_to_file_hash
urn_to_file_hash-Keeps ws m =
    let u = read_words no_urn ws in
    elim (Bool-cases (length u.hash_as_hex == 0)) [
      | inl e ↦ rw e tt
      | inr e ↦
          rw e
            (check_urn-Keeps u (record m { file_hash = m.file_hash ++ hex_to_bytes u.hash_as_hex }))
    ]

abbrev IsNoSource : List ℕ × List ℕ → Type 0
IsNoSource (p, v) = p ≢ bytes "xs"

module _ (words : List ℕ → List (List ℕ)) (fetch : List ℕ → Option (List ℕ)) where
  read_parameter-Keeps :
      (q : List ℕ × List ℕ) (m : Magnet)
      → IsNoSource q
      → Keeps m.torrent_bencode (read_parameter words fetch q m)
  unfolding read_parameter
  read_parameter-Keeps (p, v) m h = elim (Bool-cases (bytes_eq p (bytes "tr"))) [
    | inl e ↦ rw e refl
    | inr e ↦ elim (Bool-cases (bytes_eq p (bytes "xt"))) [
      | inl e' ↦ rw e (rw e' (urn_to_file_hash-Keeps (words v) m))
      | inr e' ↦ elim (Bool-cases (bytes_eq p (bytes "xs"))) [
        | inl e'' ↦ absurd (h (bytes_eq_sound p (bytes "xs") e''))
        | inr e'' ↦ elim (Bool-cases (bytes_eq p (bytes "dn"))) [
          | inl f ↦ rw e (rw e' (rw e'' (rw f refl)))
          | inr f ↦ rw e (rw e' (rw e'' (rw f refl)))
        ]
      ]
    ]
  ]

  read_parameters-Keeps :
      (ps : List (List ℕ × List ℕ)) (m : Magnet)
      → All IsNoSource ps
      → Keeps m.torrent_bencode (read_parameters words fetch ps m)
  unfolding read_parameters
  read_parameters-Keeps [] m a = refl
  read_parameters-Keeps (p ∷ ps) m (h, a) =
      bind-Keeps m.torrent_bencode (read_parameter words fetch p m) (read_parameters words fetch ps)
        (read_parameter-Keeps p m h)
        (λ m' e.
          subst (λ (b : Bencode). Keeps b (read_parameters words fetch ps m')) e
            (read_parameters-Keeps ps m' a))

validate-empty : validate (new_bencode false) ≡ err no_bracket
unfolding validate index_key current
validate-empty = refl

check_magnet-follows_null :
    (m : Magnet)
    → 0 < length m.trackers
    → 0 < length m.file_hash
    → m.torrent_bencode ≡ new_bencode false
    → check_magnet m ≡ err (access_fault no_bracket)
unfolding check_magnet
check_magnet-follows_null m h k e =
    let some_trackers : (length m.trackers == 0) ≡ false = nonzero (length m.trackers) h in
    let some_hash : (length m.file_hash == 0) ≡ false = nonzero (length m.file_hash) k in
    rw some_trackers (rw some_hash (rw e (rw validate-empty refl)))

-- A magnet uri without an `xs` parameter, whose parameters are read without an error and give a
-- tracker and a file hash, ends in the fault of following a null pointer: the bencode map that is
-- validated is one into which nothing has been parsed.
pub from_string_without_source :
    (words : List ℕ → List (List ℕ)) (fetch : List ℕ → Option (List ℕ))
    (parameters : List ℕ → List (List ℕ × List ℕ)) (uri : List ℕ) (m read : Magnet)
    → bytes_eq (take 7 uri) (bytes "magnet:") ≡ true
    → All IsNoSource (parameters uri)
    → m.torrent_bencode ≡ new_bencode false
    → read_parameters words fetch (parameters uri) m ≡ ok read
    → 0 < length read.trackers
    → 0 < length read.file_hash
    → from_string words fetch parameters uri m ≡ err (access_fault no_bracket)
unfolding from_string
from_string_without_source words fetch parameters uri m read scheme a e r h k =
    let kept : Keeps (new_bencode false) (ok read) = subst (Keeps (new_bencode false)) r (
      subst (λ (b : Bencode). Keeps b (read_parameters words fetch (parameters uri) m)) e
        (read_parameters-Keeps words fetch (parameters uri) m a)) in
    rw (scheme, from_string) (rw r (check_magnet-follows_null read h k kept))
