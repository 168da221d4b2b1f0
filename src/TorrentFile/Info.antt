-- ===== src/TorrentFile/Info.antt =====
-- `from_path` on a well-formed torrent file: the hash is the digest of the info dictionary exactly
-- as it stands in the file.
use torr.Prelude.{ℕ, ◌≡◌, refl, ap, ◌∙◌, true, List, [], ◌∷◌, ◌++◌, none, some, ok, err, bytes, ℤ}
use torr.Bencode.Target.{
  Target, lookup, Entries, end, Pointer, at_key, deref, string_target, integer_target,
}
use torr.Bencode.Parser.{Bencode, to_size}
use torr.Bencode.Grammar.{
  integer, string, dictionary, Fields, encode, encode_fields, IsSupported, tree, entries,
  dictionary_target,
}
use torr.Bencode.RoundTrip.{parsed, from_buffer-encode}
use torr.Bencode.Access.{index_key, last_field, lookup-entries, tree_of, missing_element}
use torr.Bencode.Access.Pointers.{
  focus, deref-key, index_key-focus, index_key_missing, type_of-focus, as_str-focus, as_int-focus,
  as_raw-focus,
}
use torr.TorrentFile.{
  TorrentFile, new_torrent_file, validate, read_information, from_path, access_fault,
}

-- The fields that a torrent file must have.
pub record IsTorrent (fs info : Fields) (announce pieces : List ℕ) (length : ℤ) : Type 0 where
  pub has_announce : last_field (bytes "announce") fs ≡ some (string announce)
  pub has_info : last_field (bytes "info") fs ≡ some (dictionary info)
  pub has_length : last_field (bytes "piece length") info ≡ some (integer length)
  pub has_pieces : last_field (bytes "pieces") info ≡ some (string pieces)

module _ {fs info : Fields} {announce pieces : List ℕ} {length : ℤ}
    (t : IsTorrent fs info announce pieces length) where
  abbrev b : Bencode
  b = parsed true (dictionary fs)

  abbrev raw_of : Fields → List ℕ
  raw_of gs = encode_fields gs ++ b'e' ∷ []

  abbrev map_of : Fields → Entries
  map_of gs = entries true gs end

  abbrev at_info : Pointer
  at_info = at_key (bytes "info") ∷ []

  root_deref : deref [] b.root ≡ some (dictionary_target (map_of fs) [] (raw_of fs))
  unfolding deref tree
  root_deref = refl

  announce-lookup : lookup (map_of fs) (bytes "announce") ≡ some (string_target announce)
  announce-lookup =
      lookup-entries true fs (bytes "announce")
      ∙ ap (tree_of true) t.has_announce
      ∙ unfold tree in refl

  info-lookup :
      lookup (map_of fs) (bytes "info") ≡ some (dictionary_target (map_of info) [] (raw_of info))
  info-lookup =
      lookup-entries true fs (bytes "info") ∙ ap (tree_of true) t.has_info ∙ unfold tree in refl

  length-lookup : lookup (map_of info) (bytes "piece length") ≡ some (integer_target length)
  length-lookup =
      lookup-entries true info (bytes "piece length")
      ∙ ap (tree_of true) t.has_length
      ∙ unfold tree in refl

  pieces_lookup : lookup (map_of info) (bytes "pieces") ≡ some (string_target pieces)
  pieces_lookup =
      lookup-entries true info (bytes "pieces")
      ∙ ap (tree_of true) t.has_pieces
      ∙ unfold tree in refl

  info-deref : deref at_info b.root ≡ some (dictionary_target (map_of info) [] (raw_of info))
  info-deref =
      deref-key b [] (map_of fs) [] (raw_of fs) (bytes "info")
        (dictionary_target (map_of info) [] (raw_of info)) root_deref info-lookup

  to_announce :
      index_key (focus b []) (bytes "announce") ≡ ok (focus b (at_key (bytes "announce") ∷ []))
  to_announce =
      index_key-focus b [] (map_of fs) [] (raw_of fs) (bytes "announce") (string_target announce)
        root_deref announce-lookup

  to_info : index_key (focus b []) (bytes "info") ≡ ok (focus b at_info)
  to_info =
      index_key-focus b [] (map_of fs) [] (raw_of fs) (bytes "info")
        (dictionary_target (map_of info) [] (raw_of info)) root_deref info-lookup

  module _ (k : List ℕ) (u : Target) (e : lookup (map_of info) k ≡ some u) where
    to_member : index_key (focus b at_info) k ≡ ok (focus b (at_info ++ at_key k ∷ []))
    to_member = index_key-focus b at_info (map_of info) [] (raw_of info) k u info-deref e

    member_deref : deref (at_info ++ at_key k ∷ []) b.root ≡ some u
    member_deref = deref-key b at_info (map_of info) [] (raw_of info) k u info-deref e

  announce-deref : deref (at_key (bytes "announce") ∷ []) b.root ≡ some (string_target announce)
  announce-deref =
      deref-key b [] (map_of fs) [] (raw_of fs) (bytes "announce") (string_target announce)
        root_deref announce-lookup

  validate_torrent : validate (focus b []) ≡ ok (true, focus b [])
  unfolding validate
  validate_torrent = rw to_announce (
      rw (type_of-focus b (at_key (bytes "announce") ∷ []) (string_target announce) announce-deref)
        (rw to_info (
          rw (type_of-focus b at_info (dictionary_target (map_of info) [] (raw_of info)) info-deref)
            (rw to_info (
              rw (to_member (bytes "piece length") (integer_target length) length-lookup) (
                rw
                  (type_of-focus b (at_info ++ at_key (bytes "piece length") ∷ [])
                    (integer_target length)
                    (member_deref (bytes "piece length") (integer_target length) length-lookup))
                  (rw to_info (
                    rw (to_member (bytes "pieces") (string_target pieces) pieces_lookup) (
                      rw
                        (type_of-focus b (at_info ++ at_key (bytes "pieces") ∷ [])
                          (string_target pieces)
                          (member_deref (bytes "pieces") (string_target pieces) pieces_lookup))
                        refl)))))))))

  module _ (sha1 : List ℕ → List ℕ) (u : TorrentFile) where
    abbrev read : TorrentFile
    read = record u {
      bencode = b;
      piece_length = to_size length;
      file_hash = sha1 (encode (dictionary info));
      trackers = u.trackers ++ announce ∷ [];
    }

    read_torrent : read_information sha1 u (focus b []) ≡ ok read
    unfolding read_information
    read_torrent = rw to_info (
        rw (to_member (bytes "piece length") (integer_target length) length-lookup) (
          rw
            (as_int-focus b (at_info ++ at_key (bytes "piece length") ∷ []) length
              (member_deref (bytes "piece length") (integer_target length) length-lookup))
            (rw to_info (
              rw
                (as_raw-focus b at_info (dictionary_target (map_of info) [] (raw_of info))
                  info-deref)
                (rw to_announce (
                  rw (as_str-focus b (at_key (bytes "announce") ∷ []) announce announce-deref)
                    (unfold encode in refl)))))))

-- A torrent file is read from the encoding of a dictionary with an announce string and an info
-- dictionary that has an integer piece length and a string of pieces. What is read: the announce
-- string as the tracker, the piece length as a `size_t`, and, as the file hash, the digest of the
-- bytes by which the info dictionary is encoded, neither more nor less.
pub from_path-encode :
    (sha1 : List ℕ → List ℕ) (fs info : Fields) (announce pieces : List ℕ) (length : ℤ)
    → IsSupported (dictionary fs)
    → IsTorrent fs info announce pieces length
    → from_path sha1 new_torrent_file (some (encode (dictionary fs)))
      ≡ ok (record new_torrent_file {
        bencode = parsed true (dictionary fs);
        trackers = announce ∷ [];
        file_hash = sha1 (encode (dictionary info));
        piece_length = to_size length;
      })
unfolding from_path
from_path-encode sha1 fs info announce pieces length h t =
    rw (from_buffer-encode true (dictionary fs) h)
      (rw (validate_torrent t) (rw (read_torrent t sha1 new_torrent_file) refl))

-- A torrent file with no announce field is not refused by a message: the
-- validation looks the field up by `at`, which throws.
pub from_path_missing_announce :
    (sha1 : List ℕ → List ℕ) (fs : Fields)
    → IsSupported (dictionary fs)
    → last_field (bytes "announce") fs ≡ none
    → from_path sha1 new_torrent_file (some (encode (dictionary fs)))
      ≡ err (access_fault missing_element)
unfolding from_path validate
from_path_missing_announce sha1 fs h e =
    rw (from_buffer-encode true (dictionary fs) h) (rw missing refl)
  where
    b : Bencode
    b = parsed true (dictionary fs)

    missing : index_key b (bytes "announce") ≡ err missing_element
    missing =
        index_key_missing b [] (entries true fs end) [] (encode_fields fs ++ b'e' ∷ [])
          (bytes "announce") (unfold deref tree in refl)
          (lookup-entries true fs (bytes "announce") ∙ ap (tree_of true) e)
