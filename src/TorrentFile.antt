-- ===== src/TorrentFile.antt =====
-- source/torrent.hpp (the interface of a torrent source and `validate_torrent_bencode_map`) and
-- source/torrent_file.cpp with its header. The digest `SHA1` of openssl is a parameter.
pub mod Info
pub mod Samples
mod Runs
use torr.Prelude.{
  ℕ, Bool, true, false, List, [], ◌∷◌, Option, none, some, Result, ok, err, ◌>>=◌, if◌then◌else◌,
  bytes, ℤ, pos, negsuc, ◌++◌,
}
use torr.Bencode.Number.{Fault}
use torr.Bencode.Target.{TargetType, integers, strings, lists, dictionaries, unknown}
use torr.Bencode.Parser.{Bencode, new_bencode, from_buffer, to_size}
use torr.Bencode.Access.{AccessFault, index_key, type_of, as_str, as_int, as_raw}

-- `torrent_source::source_type`
pub data SourceType : Type 0 where
  unknown_source magnet_uri torrent_file : SourceType

-- The two messages of `from_path`, and the exceptions and faults of the parser and of the access.
pub data TorrentError : Type 0 where
  unresolved_path missing_information : TorrentError
  parse_fault : Fault → TorrentError
  access_fault : AccessFault → TorrentError

-- A tracker is the string that it was given.
pub record TorrentFile : Type 0 where
  pub bencode : Bencode
  pub trackers : List (List ℕ)
  pub file_hash : List ℕ
  pub file_name : List ℕ
  pub piece_length : ℕ

abbrev pub new_torrent_file : TorrentFile
new_torrent_file = record {
  bencode = new_bencode false;
  trackers = [];
  file_hash = [];
  file_name = [];
  piece_length = 0;
}

-- `type`
abbrev pub source_type : TorrentFile → SourceType
source_type t = torrent_file

abbrev pub parsing {ℓ} : {A : Type ℓ} → Result Fault A → Result TorrentError A
parsing (ok a) = ok a
parsing (err e) = err (parse_fault e)

abbrev pub accessing {ℓ} : {A : Type ℓ} → Result AccessFault A → Result TorrentError A
accessing (ok a) = ok a
accessing (err e) = err (access_fault e)

-- One test of `validate_torrent_bencode_map`: the type of what the pointer leads to.
abbrev is_strings : TargetType → Bool
is_strings strings = true
is_strings _ = false

abbrev is_dictionaries : TargetType → Bool
is_dictionaries dictionaries = true
is_dictionaries _ = false

abbrev is_integers : TargetType → Bool
is_integers integers = true
is_integers _ = false

-- `validate_torrent_bencode_map`, with the bencode map that it leaves.
unfoldable pub validate : Bencode → Result AccessFault (Bool × Bencode)
validate b = do
  announce ← index_key b (bytes "announce")
  (announce_type, b1) ← type_of announce
  if is_strings announce_type
      then (do
        info ← index_key b1 (bytes "info")
        (info_type, b2) ← type_of info
        if is_dictionaries info_type
            then (do
              info' ← index_key b2 (bytes "info")
              length ← index_key info' (bytes "piece length")
              (length_type, b3) ← type_of length
              if is_integers length_type
                  then (do
                    info'' ← index_key b3 (bytes "info")
                    pieces ← index_key info'' (bytes "pieces")
                    (pieces_type, b4) ← type_of pieces
                    ok (is_strings pieces_type, b4))
                  else ok (false, b3))
            else ok (false, b2))
      else ok (false, b1)

module _ (sha1 : List ℕ → List ℕ) where
  -- `from_path` behind its validation.
  unfoldable pub read_information : TorrentFile → Bencode → Result AccessFault TorrentFile
  read_information t b = do
    info ← index_key b (bytes "info")
    length ← index_key info (bytes "piece length")
    (z, b1) ← as_int length
    info' ← index_key b1 (bytes "info")
    (raw, b2) ← as_raw info'
    announce ← index_key b2 (bytes "announce")
    (tracker, b3) ← as_str announce
    ok (record t {
      bencode = b3;
      piece_length = to_size z;
      file_hash = sha1 (b'd' ∷ raw);
      trackers = t.trackers ++ tracker ∷ [];
    })

  abbrev validated : TorrentFile → Bool × Bencode → Result TorrentError TorrentFile
  validated t (true, b) = accessing (read_information t b)
  validated t (false, b) = err missing_information

  -- `from_path`, given the bytes of the file, or `none` where it cannot be opened.
  unfoldable pub from_path : TorrentFile → Option (List ℕ) → Result TorrentError TorrentFile
  from_path t none = err unresolved_path
  from_path t (some file) = do
    b ← parsing (from_buffer (record t.bencode { store_raw_bencode = true }) file)
    checked ← accessing (validate b)
    validated t checked
