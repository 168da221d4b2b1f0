-- ===== src/Uri/Magnet.antt =====
-- source/uri/magnet.hpp and magnet.cpp: magnet uris. What the regular expressions find is a
-- parameter, the words of an urn and the parameters of a uri, and so is the request of a url.
pub mod Hashes
use Prim.Native.Nat.{bit_or}
use torr.Prelude.{
  ℕ, zero, suc, ◌+◌, ◌-◌, ◌*◌, ◌/◌, ◌%◌, ◌^◌, ◌<◌, Bool, true, false, List, [], ◌∷◌, ◌++◌, Option,
  none, some, Result, ok, err, ◌>>=◌, if◌then◌else◌, length, take, bytes, bytes_eq, ltb, leb, ◌==◌,
  ◌&&◌, not, u8, ℤ,
}
use torr.Bencode.Number.{Fault}
use torr.Bencode.Parser.{Bencode, new_bencode, from_buffer, to_size}
use torr.Bencode.Access.{AccessFault, index_key, as_int}
use torr.TorrentFile.{SourceType, magnet_uri, validate}

-- The messages of the errors, and the exceptions and faults; `empty_hash` is the wrapped bound of
-- the loop over an empty hash.
pub data MagnetError : Type 0 where
  not_urn unknown_protocol hash_length request_failed not_magnet missing_trackers : MagnetError
  missing_hash missing_information empty_hash : MagnetError
  parse_fault : Fault → MagnetError
  access_fault : AccessFault → MagnetError

pub record Magnet : Type 0 where
  pub trackers : List (List ℕ)
  pub file_hash : List ℕ
  pub file_name : List ℕ
  pub piece_length : ℕ
  pub torrent_bencode : Bencode

-- A new magnet; its piece length is indeterminate.
abbrev pub new_magnet : ℕ → Magnet
new_magnet indeterminate = record {
  trackers = [];
  file_hash = [];
  file_name = [];
  piece_length = indeterminate;
  torrent_bencode = new_bencode false;
}

-- `type`
abbrev pub magnet_type : Magnet → SourceType
magnet_type m = magnet_uri

-- The value of a character, as an `unsigned char`: that of a lower-case digit.
unfoldable pub nibble : ℕ → ℕ
nibble c = if leb b'0' c && leb c b'9' then c - b'0' else u8 (10 + c + 256 - b'a')

unfoldable pub hex_byte : ℕ → ℕ → ℕ
hex_byte hi lo = u8 (bit_or (hi * 16) lo)

-- The loop over every second pair of adjacent characters.
unfoldable pub hex_to_bytes : List ℕ → List ℕ
hex_to_bytes (h ∷ l ∷ rest) = hex_byte (nibble h) (nibble l) ∷ hex_to_bytes rest
hex_to_bytes _ = []

-- What the words of an urn have told so far.
pub record Urn : Type 0 where
  pub is_urn : Bool
  pub is_bit_torrent : Bool
  pub hash_as_hex : List ℕ

abbrev pub read_word : Urn → List ℕ → Urn
read_word u w =
    if bytes_eq w (bytes "urn")
    then record u { is_urn = true }
    else if bytes_eq w (bytes "btih")
    then record u { is_bit_torrent = true }
    else record u { hash_as_hex = w }

unfoldable pub read_words : Urn → List (List ℕ) → Urn
read_words u [] = u
read_words u (w ∷ ws) = read_words (read_word u w) ws

abbrev pub no_urn : Urn
no_urn = record { is_urn = false; is_bit_torrent = false; hash_as_hex = [] }

-- The tests at the end of `urn_to_file_hash`.
abbrev pub check_urn : Urn → Magnet → Result MagnetError Magnet
check_urn u m =
    if not u.is_urn
    then err not_urn
    else if not u.is_bit_torrent
    then err unknown_protocol
    else if not (length m.file_hash == 20)
    then err hash_length
    else ok m

-- `urn_to_file_hash`, given the words of the urn.
unfoldable pub urn_to_file_hash : List (List ℕ) → Magnet → Result MagnetError Magnet
urn_to_file_hash words m =
    let u = read_words no_urn words in
    if length u.hash_as_hex == 0
    then err empty_hash
    else check_urn u (record m { file_hash = m.file_hash ++ hex_to_bytes u.hash_as_hex })

abbrev pub parsing {ℓ} : {A : Type ℓ} → Result Fault A → Result MagnetError A
parsing (ok a) = ok a
parsing (err e) = err (parse_fault e)

abbrev pub accessing {ℓ} : {A : Type ℓ} → Result AccessFault A → Result MagnetError A
accessing (ok a) = ok a
accessing (err e) = err (access_fault e)

-- The end of `from_string`, behind its validation.
unfoldable pub read_length : Bool × Bencode → Magnet → Result MagnetError Magnet
read_length (false, b) m = err missing_information
read_length (true, b) m = do
  info ← accessing (index_key b (bytes "info"))
  length ← accessing (index_key info (bytes "piece length"))
  (z, b1) ← accessing (as_int length)
  ok (record m { torrent_bencode = b1; piece_length = to_size z })

-- The tests behind the loop of `from_string`.
unfoldable pub check_magnet : Magnet → Result MagnetError Magnet
check_magnet m =
    if length m.trackers == 0
    then err missing_trackers
    else if length m.file_hash == 0
    then err missing_hash
    else (do checked ← accessing (validate m.torrent_bencode); read_length checked m)

module _ (words : List ℕ → List (List ℕ)) (fetch : List ℕ → Option (List ℕ)) where
  -- `url_to_piece_hash`
  unfoldable pub url_to_piece_hash : List ℕ → Magnet → Result MagnetError Magnet
  url_to_piece_hash url m = elim (fetch url) [
    | none ↦ err request_failed
    | some response ↦ do
      b ← parsing (from_buffer m.torrent_bencode response)
      ok (record m { torrent_bencode = b })
  ]

  -- One round of the loop of `from_string`: a parameter's two characters and its value.
  unfoldable pub read_parameter : List ℕ × List ℕ → Magnet → Result MagnetError Magnet
  read_parameter (p, v) m =
      if bytes_eq p (bytes "tr")
      then ok (record m { trackers = m.trackers ++ v ∷ [] })
      else if bytes_eq p (bytes "xt")
      then urn_to_file_hash (words v) m
      else if bytes_eq p (bytes "xs")
      then url_to_piece_hash v m
      else if bytes_eq p (bytes "dn")
      then ok (record m { file_name = v })
      else ok m

  unfoldable pub read_parameters : List (List ℕ × List ℕ) → Magnet → Result MagnetError Magnet
  read_parameters [] m = ok m
  read_parameters (p ∷ ps) m = do next ← read_parameter p m; read_parameters ps next

  -- `from_string`, given the parameters that are found in a uri.
  unfoldable pub from_string :
      (List ℕ → List (List ℕ × List ℕ)) → List ℕ → Magnet → Result MagnetError Magnet
  from_string parameters uri m =
      if not (bytes_eq (take 7 uri) (bytes "magnet:"))
      then err not_magnet
      else (do read ← read_parameters (parameters uri) m; check_magnet read)
