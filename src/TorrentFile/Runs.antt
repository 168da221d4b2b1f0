-- ===== src/TorrentFile/Runs.antt =====
-- The theorems about torrent files at a small file.
use torr.Prelude.{◌≡◌, refl, [], ◌∷◌, some, ok, err, bytes, pos, arith, true, bytes_eq}
use torr.Bencode.Access.{last_field, missing_element}
use torr.Bencode.Grammar.{dictionary, encode}
use torr.Bencode.RoundTrip.{parsed}
use torr.TorrentFile.{new_torrent_file, from_path, access_fault}
use torr.TorrentFile.Samples.{info, torrent, digest, torrent-IsTorrent}
use torr.TorrentFile.Info.{from_path-encode, from_path_missing_announce}

from_path-encode_example :
    from_path digest new_torrent_file (some (encode (dictionary torrent)))
    ≡ ok (record new_torrent_file {
      bencode = parsed true (dictionary torrent);
      trackers = bytes "udp://t:80" ∷ [];
      file_hash = digest (encode (dictionary info));
      piece_length = 16384;
    })
from_path-encode_example =
    from_path-encode digest torrent info (bytes "udp://t:80") (bytes "01234567890123456789")
      (pos 16384) (omega arith) torrent-IsTorrent

from_path_missing_announce_example :
    from_path digest new_torrent_file (some (encode (dictionary info)))
    ≡ err (access_fault missing_element)
unfolding last_field bytes_eq
from_path_missing_announce_example = from_path_missing_announce digest info (omega arith) refl
