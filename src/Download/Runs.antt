-- ===== src/Download/Runs.antt =====
-- The theorem about examples/download/download.cpp at a small torrent file.
use torr.Prelude.{
  ℕ, ◌+◌, ◌%◌, true, List, [], ◌∷◌, ◌++◌, map, none, some, ok, ◌≡◌, refl, arith, bytes, length,
  take, pos, replicate,
}
use torr.Bencode.Number.{decimal}
use torr.Bencode.Grammar.{dictionary, encode, encode_string, encode_integer}
use torr.TorrentFile.Samples.{info, torrent, digest, torrent-IsTorrent}
use torr.Network.Peer.State.{Peer, handshake_prefix}
use torr.Network.Tracker.{Tracker}
use torr.Uri.Url.{http}
use torr.Multiproc.Startup.{Surroundings, MultiprocParent}
use torr.Download.{tracker_of, main}
use torr.Download.Start.{main-encode}

abbrev os : Surroundings
os = record { pid = 7; made = true; opened = some 3; existing = none; address = 4096 }

abbrev twice : ℕ → ℕ → ℕ
twice old n = old + n

-- A tracker that knows one peer.
abbrev known : Tracker
known = record (tracker_of http 80 (bytes "udp://t:80")) {
  tracker_response = record {
    peer_addresses = record { address = 1; port = 80 } ∷ [];
    interval = 0;
    leechers = 0;
    seeders = 0;
  };
}

length-digest : length (digest (encode (dictionary info))) ≡ 20
unfolding encode encode_string encode_integer decimal
length-digest = refl

abbrev draws : List ℕ
draws = replicate 20 300

main-encode_example :
    (m : MultiprocParent) × (main digest draws [] os twice
        (λ (p : Peer) (t : Tracker). (none, known))
        http
        80
        (some (some (encode (dictionary torrent))))
      ≡ ok m)
    × (m.ourself.handshake
        ≡ handshake_prefix
          ++ digest (encode (dictionary info))
          ++ map (λ (r : ℕ). r % 255) (take 20 draws))
    × (length m.ourself.handshake ≡ 68)
    × (m.ourself.download_target
        ≡ some (record {
          file_hash = some (digest (encode (dictionary info)));
          piece_length = some 16384;
        }))
    × (m.parent.addresses ≡ record { address = 1; port = 80 } ∷ [])
    × (m.parent.spawn_children_count ≡ 1)
main-encode_example =
    main-encode digest draws [] os twice (λ (p : Peer) (t : Tracker). (none, known)) http 80 torrent
      info (bytes "udp://t:80") (bytes "01234567890123456789") (pos 16384) known (omega arith)
      torrent-IsTorrent length-digest (omega arith) refl
