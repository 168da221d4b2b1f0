-- ===== src/Download/Start.antt =====
-- examples/download/download.cpp: the start of a download from the bytes of a torrent file.
use torr.Prelude.{
  ℕ, ◌%◌, ◌≤◌, List, [], ◌∷◌, ◌++◌, map, none, some, ok, ◌≡◌, refl, ap, arith, length, take,
  length-take, ℤ, bytes, replicate, false, suc, ◌∙◌,
}
use torr.Bencode.Parser.{to_size}
use torr.Bencode.Grammar.{Fields, dictionary, encode, IsSupported}
use torr.TorrentFile.Info.{IsTorrent, from_path-encode}
use torr.Network.Peer.State.{
  Source, Peer, handshake_prefix, set_download_target, set_shared_bitfield, randomize_identifier,
  construct_handshake_string,
}
use torr.Network.Peer.Handshakes.{construct_handshake_string-target, length-handshake}
use torr.Uri.Url.{ProtocolType}
use torr.Network.Tracker.{Tracker}
use torr.Network.Tracker.Announce.{Announced}
use torr.Ipc.{new_channel, create_channel, new_shared_memory, pointer_of, resize_capacity}
use torr.Multiproc.Children.{main_channel_mutex}
use torr.Multiproc.Startup.{Surroundings, MultiprocParent, new_multiproc, begin_start}
use torr.Download.{new_peer, tracker_of, choose_target, read_source, start_download, main}

length-map : (f : ℕ → ℕ) (xs : List ℕ) → length (map f xs) ≡ length xs
length-map f [] = refl
length-map f (x ∷ xs) = ap suc (length-map f xs)

module _ (sha1 : List ℕ → List ℕ) (draws garbage : List ℕ) (os : Surroundings) (grow : ℕ → ℕ → ℕ)
    (announce : Peer → Tracker → Announced) (protocol : ProtocolType) (port : ℕ) (fs info : Fields)
    (url pieces : List ℕ) (size : ℤ) (known : Tracker) where
  abbrev identifier : List ℕ
  identifier = map (λ (r : ℕ). r % 255) (take 20 draws)

  -- What the torrent file says.
  abbrev pub target : Source
  target = record {
    file_hash = some (sha1 (encode (dictionary info)));
    piece_length = some (to_size size);
  }

  abbrev pub ourself : Peer
  ourself = set_download_target garbage target (record new_peer { identifier = identifier })

  read_source-encode :
      IsSupported (dictionary fs)
      → IsTorrent fs info url pieces size
      → read_source sha1 draws garbage
          (some (encode (dictionary fs)))
          (randomize_identifier draws new_peer)
        ≡ ok (ourself, url)
  unfolding read_source randomize_identifier choose_target
  read_source-encode h t = rw (from_path-encode sha1 fs info url pieces size h t) refl

  -- Our side with the bitfield in the shared memory, and with the handshake.
  abbrev pub shared : Peer
  shared = set_shared_bitfield ourself os.address 2048

  abbrev pub greeting : List ℕ
  greeting = handshake_prefix ++ sha1 (encode (dictionary info)) ++ identifier

  length-identifier : 20 ≤ length draws → length identifier ≡ 20
  length-identifier d =
      length-map (λ (r : ℕ). r % 255) (take 20 draws) ∙ omega (arith, length-take 20 draws, d)

  module _ (digested : length (sha1 (encode (dictionary info))) ≡ 20)
      (drawn : 20 ≤ length draws) where
    greeted : construct_handshake_string shared ≡ ok (68, record shared { handshake = greeting })
    unfolding set_shared_bitfield set_download_target
    greeted =
        construct_handshake_string-target (sha1 (encode (dictionary info))) target shared digested
          (length-identifier drawn) refl refl refl

    begin_start-target :
        (m : MultiprocParent)
        → begin_start grow (record m { ourself = shared })
          ≡ ok (record m {
            ourself = record shared { handshake = greeting };
            main_channel = resize_capacity grow 65536 m.main_channel;
          })
    unfolding begin_start
    begin_start-target m = rw greeted refl

    -- The parent as its constructor makes it, with one child.
    abbrev made : MultiprocParent
    made = record {
      main_channel = (create_channel os.made os.opened (new_channel os.pid)).1;
      bitfield_pieces = (new_shared_memory (bytes "bitfield_pieces") 2048 os.address).0;
      shared_bytes = replicate 2048 0;
      main_channel_mutex = main_channel_mutex os.existing;
      ourself = shared;
      parent = record {
        addresses = known.tracker_response.peer_addresses;
        tasks = [];
        spawn_children_count = 1;
        is_spawning = false;
      };
    }

    start_download-target :
        announce shared (tracker_of protocol port url) ≡ (none, known)
        → (m : MultiprocParent) × (start_download sha1 draws garbage os grow announce protocol port
              (ourself, url)
            ≡ ok m)
          × (m.ourself ≡ record shared { handshake = greeting })
          × (m.parent.addresses ≡ known.tracker_response.peer_addresses)
          × (m.parent.spawn_children_count ≡ 1)
    unfolding start_download new_multiproc new_shared_memory pointer_of
    start_download-target a = (
      record made {
        ourself = record shared { handshake = greeting };
        main_channel = resize_capacity grow 65536 made.main_channel;
      },
      rw a (rw a (rw (begin_start-target made) refl)),
      refl,
      refl,
      refl,
    )

  -- The download of a torrent file starts: from the encoding of a torrent dictionary, with a digest
  -- of 20 bytes and 20 random numbers, and a tracker that is announced to without an error, `main`
  -- gets to the loop of the parent. Our side then has the handshake for the digest of the info
  -- dictionary, of 68 bytes, and the piece length of the file; the tracker announced to is the one
  -- that the file names, and the parent has its peers, of which it is to start one child.
  pub main-encode :
      IsSupported (dictionary fs)
      → IsTorrent fs info url pieces size
      → length (sha1 (encode (dictionary info))) ≡ 20
      → 20 ≤ length draws
      → announce shared (tracker_of protocol port url) ≡ (none, known)
      → (m : MultiprocParent) × (main sha1 draws garbage os grow announce protocol port
            (some (some (encode (dictionary fs))))
          ≡ ok m)
        × (m.ourself.handshake
            ≡ handshake_prefix
              ++ sha1 (encode (dictionary info))
              ++ map (λ (r : ℕ). r % 255) (take 20 draws))
        × (length m.ourself.handshake ≡ 68)
        × (m.ourself.download_target ≡ some target)
        × (m.parent.addresses ≡ known.tracker_response.peer_addresses)
        × (m.parent.spawn_children_count ≡ 1)
  unfolding main set_shared_bitfield set_download_target
  main-encode h t digested drawn a =
      let (m, started, e, addresses, count) = start_download-target digested drawn a in
      let greets = ap (λ (p : Peer). p.handshake) e in
      (
        m,
        rw (read_source-encode h t) started,
        greets,
        rw greets (
            length-handshake (sha1 (encode (dictionary info))) identifier digested
              (length-identifier drawn)),
        ap (λ (p : Peer). p.download_target) e,
        addresses,
        count,
      )
