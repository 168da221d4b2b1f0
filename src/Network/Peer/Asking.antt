-- ===== src/Network/Peer/Asking.antt =====
-- source/network/peer/peer.cpp: the choice of a piece and the requests for it send whole messages
-- only.
use torr.Prelude.{ℕ, ◌/◌, Bool, false, List, Option, none, some, ok, err, u32}
use torr.Network.Peer.State.{out_of_bounds, Peer, TorrentPeer, Source, target_of, value}
use torr.Network.Peer.Send.{
  fill_outstanding_requests, determine_outstanding_requests, choose_piece, determine_download_piece,
  request_piece, download_next_piece,
}
use torr.Network.Peer.Keeping.{Keeps, Keeps-bind, Keeps-then, Keeps-if, Keeps-option}
use torr.Network.Peer.Framing.{SpeaksWhole, request_blocks-SpeaksWhole}

module _ (before : List (List ℕ)) where
  fill_outstanding_requests-SpeaksWhole :
      (ourself : Peer) (t : TorrentPeer)
      → SpeaksWhole before t
      → Keeps (SpeaksWhole before) (fill_outstanding_requests ourself t)
  unfolding fill_outstanding_requests
  fill_outstanding_requests-SpeaksWhole ourself t h =
      Keeps-bind (SpeaksWhole before) (target_of ourself) _ (λ (source : Source).
        Keeps-bind (SpeaksWhole before) (value source.piece_length) _
          (λ (size : ℕ). request_blocks-SpeaksWhole before (u32 (size / 16384)) 0 t h))

  request_piece-SpeaksWhole :
      (ourself : Peer) (t : TorrentPeer)
      → SpeaksWhole before t
      → Keeps (SpeaksWhole before) (request_piece ourself t)
  unfolding request_piece determine_outstanding_requests
  request_piece-SpeaksWhole ourself t h = Keeps-if (SpeaksWhole before) _ (ok (false, t)) _ h (
      Keeps-then (SpeaksWhole before)
        (fill_outstanding_requests ourself (determine_outstanding_requests t)) _
        (fill_outstanding_requests-SpeaksWhole ourself (determine_outstanding_requests t) h)
        (λ (b : Bool) (u : TorrentPeer) k. k))

  choose_piece-SpeaksWhole :
      (ourself : Peer) (t : TorrentPeer) (found : Option ℕ)
      → SpeaksWhole before t
      → Keeps (SpeaksWhole before) (choose_piece ourself t found)
  unfolding choose_piece
  choose_piece-SpeaksWhole ourself t none h = h
  choose_piece-SpeaksWhole ourself t (some index) h =
      Keeps-bind (SpeaksWhole before) (target_of ourself) _ (λ (source : Source).
        Keeps-bind (SpeaksWhole before) (value source.piece_length) _ (λ (size : ℕ). h))

  determine_download_piece-SpeaksWhole :
      (skips : ℕ) (ourself : Peer) (t : TorrentPeer)
      → SpeaksWhole before t
      → Keeps (SpeaksWhole before) (determine_download_piece skips ourself t)
  unfolding determine_download_piece
  determine_download_piece-SpeaksWhole skips ourself t h =
      Keeps-option (SpeaksWhole before) _ (err out_of_bounds)
        (λ (found : Option ℕ). choose_piece ourself t found) tt
        (λ (found : Option ℕ). choose_piece-SpeaksWhole ourself t found h)

  pub download_next_piece-SpeaksWhole :
      (skips : ℕ) (ourself : Peer) (t : TorrentPeer)
      → SpeaksWhole before t
      → Keeps (SpeaksWhole before) (download_next_piece skips ourself t)
  unfolding download_next_piece
  download_next_piece-SpeaksWhole skips ourself t h =
      Keeps-if (SpeaksWhole before) t.am_choking (ok (false, t)) _ h (
        Keeps-if (SpeaksWhole before) t.download_piece.exists _ _
          (request_piece-SpeaksWhole ourself t h)
          (Keeps-then (SpeaksWhole before) (determine_download_piece skips ourself t) _
            (determine_download_piece-SpeaksWhole skips ourself t h)
            (λ (found : Bool) (u : TorrentPeer) k.
              Keeps-if (SpeaksWhole before) found _ (ok (false, u))
                (request_piece-SpeaksWhole ourself u k) k)))
