-- ===== src/Network/Peer/Unchoked.antt =====
-- source/network/peer/peer.cpp: what an unchoke makes `torrent_peer` ask for.
use torr.Prelude.{
  ℕ, ◌*◌, ◌/◌, ◌^◌, ◌<◌, Bool, true, false, List, [], ◌∷◌, ◌++◌, map, Option, none, some, ok, ◌>>=◌,
  ◌≡◌, refl, sym, ◌∙◌, arith, length, replicate, inl, inr, ◌⊎◌, if◌then◌else◌, min, subst,
}
use torr.Bitset.{find_positive_bit_compliment}
use torr.Bitset.Laws.{IsValid}
use torr.Bitset.Find.{IsWanted, find-IsWanted, find_total}
use torr.Network.Endian.{big_endian}
use torr.Network.Socket.{Event, segment}
use torr.Network.Peer.State.{Source, Peer, Piece, TorrentPeer}
use torr.Network.Peer.Send.{
  unchoke, message, message_type, request_payload, determine_outstanding_requests, choose_piece,
  determine_download_piece, request_piece, download_next_piece,
}
use torr.Network.Peer.Receive.{
  Outcome, World, receive_message_unchoke, dispatch_message, message_of, receive_message, overlay,
}
use torr.Network.Peer.Blocks.{arriving, receive-segment}
use torr.Network.Peer.Messages.{receive_message-read}
use torr.Network.Peer.Requests.{sending, block_offsets, fill_outstanding_requests-sent}

-- The peer that no longer chokes, and the same with a piece of this index and size to download.
abbrev pub unchoked : TorrentPeer → TorrentPeer
unchoked t = record t { am_choking = false }

abbrev pub new_piece : ℕ → ℕ → Piece
new_piece index size = record {
  piece_index = index;
  piece_size = size;
  downloaded = 0;
  exists = true;
  piece_data = [];
}

abbrev pub choosing : ℕ → ℕ → TorrentPeer → TorrentPeer
choosing index size t = record t { am_choking = false; download_piece = new_piece index size }

abbrev pub asking : ℕ → ℕ → TorrentPeer → TorrentPeer
asking index size t = record (choosing index size t) { outstanding_requests = 90 }

dispatch_message-unchoke :
    (w : World) (ourself : Peer) (t : TorrentPeer)
    → dispatch_message w ourself (message_of (overlay (message 1 unchoke) (replicate 5 0))) t
      ≡ download_next_piece w.skips ourself (unchoked t)
unfolding dispatch_message message message_type big_endian receive_message_unchoke
dispatch_message-unchoke w ourself t = refl

length-unchoke : length (message 1 unchoke) ≡ 5
unfolding message big_endian
length-unchoke = refl

if_false : {A : Type 0} (b : Bool) (x y : A) → b ≡ false → (if b then x else y) ≡ y
if_false false x y h = refl
if_false true x y h = cc

download_next_piece-new :
    (skips : ℕ) (ourself : Peer) (t : TorrentPeer)
    → t.download_piece.exists ≡ false
    → download_next_piece skips ourself (unchoked t) ≡ (
        determine_download_piece skips ourself (unchoked t) >>= λ (found, next).
        if found then request_piece ourself next else ok (false, next))
unfolding download_next_piece
download_next_piece-new skips ourself t h = if_false t.download_piece.exists _ _ h

module _ (skips size : ℕ) (source : Source) (ourself : Peer) (t : TorrentPeer)
    (targeted : ourself.download_target ≡ some source)
    (sized : source.piece_length ≡ some size) where
  abbrev pub search : Option (Option ℕ)
  search = find_positive_bit_compliment t.memory ourself.bitfield_pieces t.bitfield skips

  determine_download_piece-none :
      search ≡ some none
      → determine_download_piece skips ourself (unchoked t) ≡ ok (false, unchoked t)
  unfolding determine_download_piece choose_piece
  determine_download_piece-none e = rw (e, determine_download_piece) refl

  determine_download_piece-some :
      (index : ℕ)
      → search ≡ some (some index)
      → determine_download_piece skips ourself (unchoked t) ≡ ok (true, choosing index size t)
  unfolding determine_download_piece choose_piece
  determine_download_piece-some index e =
      rw (e, determine_download_piece) (rw targeted (rw sized refl))

-- The peer whose connection accepts these requests whole, with these events ahead.
abbrev pub open_to : ℕ → List (Option ℕ) → List Event → TorrentPeer → TorrentPeer
open_to size more events t =
    arriving (sending t (replicate (size / 16384) (some 17) ++ more) []) events

-- `receive_message` drops the result of its handlers.
abbrev dropped : Outcome → Outcome
dropped o = o >>= λ (result, last). ok (false, last)

-- The requests for the whole blocks of a piece.
abbrev pub requests : ℕ → ℕ → List (List ℕ)
requests index size = map (request_payload (new_piece index size)) (block_offsets (size / 16384) 0)

module _ (w : World) (size : ℕ) (source : Source) (ourself : Peer) (t : TorrentPeer)
    (more : List (Option ℕ)) (rest : List Event) (targeted : ourself.download_target ≡ some source)
    (sized : source.piece_length ≡ some size) (small : size < 2 ^ 32) where
  request_piece-new :
      (index : ℕ)
      → request_piece ourself (choosing index size (open_to size more rest t))
        ≡ ok (true, arriving (sending (asking index size t) more (requests index size)) rest)
  unfolding request_piece determine_outstanding_requests
  request_piece-new index =
      rw
        (fill_outstanding_requests-sent size source ourself (arriving (asking index size t) rest)
          more targeted sized small)
        refl

  -- What an unchoke leads to: nothing, where the search finds nothing, or the requests for the piece
  -- that the search finds.
  abbrev pub Chooses : Outcome → Type 0
  Chooses o =
      ((search w.skips size source ourself t targeted sized ≡ some none)
        × (o ≡ ok (false, unchoked (open_to size more rest t))))
      ⊎ ((index : ℕ) × (search w.skips size source ourself t targeted sized ≡ some (some index))
          × IsWanted t.memory ourself.bitfield_pieces t.bitfield index
          × (index < min ourself.bitfield_pieces.bytes_size t.bitfield.bytes_size * 8)
          × (o
              ≡ ok (
                false,
                arriving (sending (asking index size t) more (requests index size)) rest,
              )))

  heard :
      t.handshake_complete ≡ true
      → receive_message w ourself (open_to size more (segment (message 1 unchoke) ∷ rest) t)
        ≡ dropped (download_next_piece w.skips ourself (unchoked (open_to size more rest t)))
  heard shaken =
      receive_message-read w ourself (open_to size more (segment (message 1 unchoke) ∷ rest) t)
        (message 1 unchoke) (open_to size more rest t).tcp
        (download_next_piece w.skips ourself (unchoked (open_to size more rest t))) shaken
        (receive-segment (open_to size more rest t).tcp (message 1 unchoke) rest 5
          (omega (arith, length-unchoke)))
        (dispatch_message-unchoke w ourself (open_to size more rest t))

  asked :
      (index : ℕ)
      → t.download_piece.exists ≡ false
      → search w.skips size source ourself t targeted sized ≡ some (some index)
      → dropped (download_next_piece w.skips ourself (unchoked (open_to size more rest t)))
        ≡ ok (false, arriving (sending (asking index size t) more (requests index size)) rest)
  asked index h e = rw (download_next_piece-new w.skips ourself (open_to size more rest t) h) (
      rw
        (determine_download_piece-some w.skips size source ourself (open_to size more rest t)
          targeted sized index e)
        (rw (request_piece-new index) refl))

  chosen :
      t.download_piece.exists ≡ false
      → (r : Option ℕ) → search w.skips size source ourself t targeted sized ≡ some r
      → Chooses
          (dropped (download_next_piece w.skips ourself (unchoked (open_to size more rest t))))
  chosen h none e = inl (
    e,
    rw (download_next_piece-new w.skips ourself (open_to size more rest t) h) (
        rw
          (determine_download_piece-none w.skips size source ourself (open_to size more rest t)
            targeted sized e)
          refl),
  )
  chosen h (some index) e =
      let (wanted, low) =
        find-IsWanted t.memory ourself.bitfield_pieces t.bitfield w.skips index e in
      inr (index, e, wanted, low, asked index h e)

  -- An unchoke after which a piece is found.
  pub receive_message-asking :
      (index : ℕ)
      → t.handshake_complete ≡ true
      → t.download_piece.exists ≡ false
      → search w.skips size source ourself t targeted sized ≡ some (some index)
      → receive_message w ourself (open_to size more (segment (message 1 unchoke) ∷ rest) t)
        ≡ ok (false, arriving (sending (asking index size t) more (requests index size)) rest)
  receive_message-asking index shaken h e = heard shaken ∙ asked index h e

  -- An unchoke of a peer from which no piece is being downloaded, with valid bitfields: where the
  -- search of the bitfields finds nothing, nothing is sent; where it finds an index, it is that of a
  -- piece that the peer has and our side lacks, and exactly the requests for its whole blocks are
  -- sent, in order, on a connection that accepts them whole, with nothing of the piece taken for
  -- downloaded. The search always ends with one of the two. The piece length is below 2 ^ 32.
  pub receive_message-Chooses :
      t.handshake_complete ≡ true
      → t.download_piece.exists ≡ false
      → IsValid t.memory ourself.bitfield_pieces
      → IsValid t.memory t.bitfield
      → Chooses
          (receive_message w ourself (open_to size more (segment (message 1 unchoke) ∷ rest) t))
  receive_message-Chooses shaken h ours theirs =
      let (r, e) = find_total t.memory ourself.bitfield_pieces t.bitfield ours theirs w.skips in
      subst Chooses (sym (heard shaken)) (chosen h r e)
