-- ===== src/TorrentFile/Samples.antt =====
-- A small torrent file for the tests.
use torr.Prelude.{ℕ, refl, List, bytes, pos, take, bytes_eq}
use torr.Bencode.Access.{last_field}
use torr.Bencode.Grammar.{integer, string, dictionary, Fields, no_fields, field}
use torr.TorrentFile.Info.{IsTorrent}

abbrev pub info : Fields
info = field (bytes "length") (integer (pos 5)) (
    field (bytes "piece length") (integer (pos 16384))
      (field (bytes "pieces") (string (bytes "01234567890123456789")) no_fields))

abbrev pub torrent : Fields
torrent =
    field (bytes "announce") (string (bytes "udp://t:80"))
      (field (bytes "info") (dictionary info) no_fields)

-- A stand-in for the digest.
abbrev pub digest : List ℕ → List ℕ
digest = take 20

pub torrent-IsTorrent :
    IsTorrent torrent info (bytes "udp://t:80") (bytes "01234567890123456789") (pos 16384)
unfolding last_field bytes_eq
torrent-IsTorrent = record {
  has_announce = refl;
  has_info = refl;
  has_length = refl;
  has_pieces = refl;
}
