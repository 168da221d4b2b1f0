-- ===== src/Download.antt =====
-- examples/download/download.cpp, the program that puts the parts of the library together: from the
-- torrent file to the parent process that is ready to read from its tasks. The virtual functions of
-- a torrent source are those of source/torrent_file.cpp and source/uri/magnet.cpp.
pub mod Start
mod Runs
use torr.Prelude.{
  ℕ, Bool, true, false, List, [], ◌∷◌, Option, none, some, Result, ok, err, ◌>>=◌, if◌then◌else◌,
  ◌==◌, not,
}
use torr.Bitset
use torr.TorrentFile.{TorrentFile, TorrentError, new_torrent_file, from_path}
use torr.Uri.Url.{ProtocolType, https}
use torr.Uri.Magnet.{Magnet}
use torr.Network.Peer.State.{
  Source, Peer, PeerFault, randomize_identifier, set_download_target, set_shared_bitfield,
}
use torr.Network.Tracker.{Tracker, set_string}
use torr.Network.Tracker.Announce.{Announced}
use torr.Multiproc.Children.{set_children_count}
use torr.Multiproc.Startup.{Surroundings, StartFault, MultiprocParent, new_multiproc, begin_start}

-- The virtual functions `file_hash`, `file_name` and `piece_length`, which always have a value.
abbrev pub torrent_file_hash : TorrentFile → Option (List ℕ)
torrent_file_hash t = some t.file_hash

abbrev pub torrent_file_name : TorrentFile → Option (List ℕ)
torrent_file_name t = some t.file_name

abbrev pub torrent_file_piece_length : TorrentFile → Option ℕ
torrent_file_piece_length t = some t.piece_length

abbrev pub magnet_file_hash : Magnet → Option (List ℕ)
magnet_file_hash m = some m.file_hash

abbrev pub magnet_file_name : Magnet → Option (List ℕ)
magnet_file_name m = some m.file_name

abbrev pub magnet_piece_length : Magnet → Option ℕ
magnet_piece_length m = some m.piece_length

-- `copy`, as the source that a peer keeps.
abbrev pub torrent_file_source : TorrentFile → Source
torrent_file_source t = record {
  file_hash = torrent_file_hash t;
  piece_length = torrent_file_piece_length t;
}

abbrev pub magnet_source : Magnet → Source
magnet_source m = record { file_hash = magnet_file_hash m; piece_length = magnet_piece_length m }

-- A new `peer`.
abbrev pub new_peer : Peer
new_peer = record {
  download_target = none;
  identifier = [];
  handshake = [];
  bitfield_pieces = Bitset.empty;
}

-- A new `tracker`, with its string; the protocol and the port of a new url are indeterminate.
abbrev pub tracker_of : ProtocolType → ℕ → List ℕ → Tracker
tracker_of protocol port s = set_string s (record {
  tracker_as_url = record { protocol = protocol; host = []; path = []; query = []; port = port };
  tracker_response = record { peer_addresses = []; interval = 0; leechers = 0; seeders = 0 };
  endpoint = record { protocol = https; ip_address = 0; port = 0 };
  has_endpoint = false;
  tracker_as_string = [];
  announce_transaction_identifier = 0;
  announce_connection_identifier = 0;
})

-- The asserts of `main`, and the ends of the constructor of `multiproc` and of `start`.
pub data DownloadFault : Type 0 where
  no_argument no_identifier no_trackers : DownloadFault
  no_source : TorrentError → DownloadFault
  not_made : StartFault → DownloadFault
  not_started : PeerFault → DownloadFault

-- What `main` is given: the digest, what `rand` returns, what new bytes and the fields of a new url
-- hold, what the operating system gives, and `announce` of a tracker.
module _ (sha1 : List ℕ → List ℕ) (draws garbage : List ℕ) where
  -- The peer and its first tracker.
  unfoldable pub choose_target : Peer → TorrentFile → Result DownloadFault (Peer × List ℕ)
  choose_target ourself source = elim source.trackers [
    | [] ↦ err no_trackers
    | first ∷ rest ↦ ok (set_download_target garbage (torrent_file_source source) ourself, first)
  ]

  unfoldable pub read_source : Option (List ℕ) → ℕ × Peer → Result DownloadFault (Peer × List ℕ)
  read_source file (count, ourself) =
      if not (count == 20) then err no_identifier else elim (from_path sha1 new_torrent_file file) [
        | err e ↦ err (no_source e)
        | ok source ↦ choose_target ourself source
      ]

  module _ (os : Surroundings) (grow : ℕ → ℕ → ℕ) (announce : Peer → Tracker → Announced)
      (protocol : ProtocolType) (port : ℕ) where
    -- `multiproc` on the tracker, which is announced to when the bitfield is shared, with one child,
    -- and the start of `start`.
    unfoldable pub start_download : Peer × List ℕ → Result DownloadFault MultiprocParent
    start_download (ourself, tracker) =
        let shared = set_shared_bitfield ourself os.address 2048 in
        elim (new_multiproc os (announce shared (tracker_of protocol port tracker)) ourself) [
          | err e ↦ err (not_made e)
          | ok m ↦ elim (begin_start grow (record m { parent = set_children_count 1 m.parent })) [
            | err e ↦ err (not_started e)
            | ok ready ↦ ok ready
          ]
        ]

    -- `main`, given the bytes of the file that its argument names, if there is one.
    unfoldable pub main : Option (Option (List ℕ)) → Result DownloadFault MultiprocParent
    main none = err no_argument
    main (some file) = read_source file (randomize_identifier draws new_peer) >>= start_download
