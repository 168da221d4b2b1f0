-- ===== src/Multiproc/Working/Rounds.antt =====
-- source/multiproc/multiproc.cpp: a round of `work` in which a block of a piece comes.
use torr.Prelude.{
  ℕ, ◌+◌, ◌^◌, ◌<◌, ◌≤◌, Bool, true, false, not, ◌&&◌, ◌==◌, List, [], ◌++◌, append_assoc,
  append-nil, none, some, Result, ok, ◌>>=◌, ◌≡◌, refl, ap, ◌∙◌, arith, length, length-append,
  leb-gt,
}
use torr.Network.Socket.{Event}
use torr.Network.Peer.State.{Peer, PeerFault, TorrentPeer, empty_download_piece}
use torr.Network.Peer.Send.{send_message_have, send_message_interested, download_next_piece}
use torr.Network.Peer.Blocks.{arriving, concat}
use torr.Network.Peer.Messages.{
  Block, data_of, events_of, grown, announced, Arrives, IsReady, receive_message-finish,
  finish_block-part, finish_block-whole,
}
use torr.Multiproc.System.{notice_of}
use torr.Multiproc.Children.{Round, is_complete, notify_downloaded_piece, work_round, Turn}

abbrev holding : TorrentPeer → ℕ → List ℕ → TorrentPeer
holding t d v = record t {
  download_piece = record t.download_piece { piece_data = v; downloaded = d };
}

pub grown-append : (t : TorrentPeer) (xs ys : List ℕ) → grown (grown t xs) ys ≡ grown t (xs ++ ys)
grown-append t xs ys =
    let d = t.download_piece.downloaded in
    let v = t.download_piece.piece_data in
    ap (λ (k : ℕ). holding t k (v ++ xs ++ ys)) (omega (arith, length-append xs ys))
    ∙ ap (holding t (d + length (xs ++ ys))) (append_assoc v xs ys)

pub grown-nil : (t : TorrentPeer) → grown t [] ≡ t
grown-nil t =
    let d = t.download_piece.downloaded in
    let v = t.download_piece.piece_data in
    ap (λ (k : ℕ). holding t k (v ++ [])) (omega arith) ∙ ap (holding t d) (append-nil v)

and_false : (b : Bool) → (b && false) ≡ false
and_false true = refl
and_false false = refl

announced-piece : (t : TorrentPeer) → (announced t).download_piece ≡ t.download_piece
unfolding send_message_have send_message_interested
announced-piece t = refl

is_complete-announced :
    (t : TorrentPeer)
    → 0 < t.download_piece.downloaded
    → t.download_piece.piece_size ≤ t.download_piece.downloaded
    → is_complete (announced t) ≡ true
unfolding send_message_have send_message_interested
is_complete-announced t h k = ground arith

-- The rounds of `work` on what a peer that is ready receives.
module _ (ourself : Peer) (turn : Turn) (t : TorrentPeer) (b : Block) (rest : List Event)
    (arrives : Arrives turn.world b) (ready : IsReady t) (healthy : t.socket_healthy ≡ true)
    (room : t.download_piece.downloaded + length (data_of b) < 2 ^ 63) where
  abbrev pub ahead : TorrentPeer
  ahead = arriving t (events_of t.download_piece.piece_index b ++ rest)

  abbrev pub later : TorrentPeer
  later = grown (arriving t rest) (data_of b)

  pub work_round-part :
      t.download_piece.downloaded + length (data_of b) < t.download_piece.piece_size
      → work_round turn.world turn.padding turn.behind ourself ahead
        ≡ ok (record { notice = none; quits = false; them = later })
  unfolding work_round
  work_round-part h =
      let d = t.download_piece.downloaded + length (data_of b) in
      rw (receive_message-finish turn.world ourself t b rest arrives ready room) (
        rw (finish_block-part (arriving t rest) (data_of b) h room) (
          rw (leb-gt t.download_piece.piece_size d h)
            (rw (and_false (not (d == 0))) (rw healthy refl))))

  -- What `work` makes of a complete piece.
  abbrev pub handed : Result PeerFault Round
  handed =
      let done = announced later in
      download_next_piece turn.world.skips ourself (empty_download_piece done) >>= λ (found, next).
      ok (record {
        notice = some (notice_of turn.padding turn.behind later.download_piece);
        quits = not next.socket_healthy;
        them = next;
      })

  pub work_round-whole :
      t.download_piece.piece_size ≤ t.download_piece.downloaded + length (data_of b)
      → work_round turn.world turn.padding turn.behind ourself ahead ≡ handed
  unfolding work_round notify_downloaded_piece
  work_round-whole h =
      let some_data : 0 < t.download_piece.downloaded + length (data_of b) =
        omega (arith, arrives.0, length-append b.front (concat b.later)) in
      rw (receive_message-finish turn.world ourself t b rest arrives ready room) (
        rw (finish_block-whole (arriving t rest) (data_of b) h room)
          (rw (is_complete-announced later some_data h) (rw (announced-piece later) refl)))
