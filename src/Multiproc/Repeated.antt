-- ===== src/Multiproc/Repeated.antt =====
-- source/multiproc/multiproc.cpp: `work` of a task that has completed a piece while its peer chokes.
use torr.Prelude.{
  Bool, true, false, not, List, [], ◌∷◌, ◌++◌, some, ok, ◌≡◌, refl, ap, ◌∙◌, length, replicate,
  arith,
}
use torr.Network.Endian.{big_endian, big_endian_from}
use torr.Network.Socket.{Event, segment}
use torr.Network.Peer.State.{Peer, TorrentPeer, empty_download_piece}
use torr.Network.Peer.Send.{choke, message, message_type, download_next_piece}
use torr.Network.Peer.Receive.{World, receive_message_choke, dispatch_message, message_of, overlay}
use torr.Network.Peer.Blocks.{arriving, receive-segment}
use torr.Network.Peer.Messages.{receive_message-read}
use torr.Multiproc.System.{Notice, notice_of}
use torr.Multiproc.Children.{
  is_complete, notify_downloaded_piece, work_round, Turn, Work, noticed, work,
}

-- The peer behind a round, and behind rounds.
abbrev pub emptied : TorrentPeer → TorrentPeer
emptied t = record t {
  am_choking = true;
  download_piece = record t.download_piece { piece_data = []; exists = false };
}

abbrev pub emptied_by : List Turn → TorrentPeer → TorrentPeer
emptied_by [] t = t
emptied_by (turn ∷ turns) t = emptied_by turns (emptied t)

-- The notices of the rounds, each of the piece that the round before has emptied.
abbrev pub repeated : List Turn → TorrentPeer → List Notice
repeated [] t = []
repeated (turn ∷ turns) t =
    notice_of turn.padding turn.behind t.download_piece ∷ repeated turns (emptied t)

abbrev pub chokes : List Turn → List Event
chokes [] = []
chokes (turn ∷ turns) = segment (message 1 choke) ∷ chokes turns

dispatch_message-choke :
    (w : World) (ourself : Peer) (t : TorrentPeer)
    → dispatch_message w ourself (message_of (overlay (message 1 choke) (replicate 5 0))) t
      ≡ ok (false, record t { am_choking = true })
unfolding dispatch_message message message_type big_endian big_endian_from receive_message_choke
dispatch_message-choke w ourself t = refl

length-choke : length (message 1 choke) ≡ 5
unfolding message big_endian
length-choke = refl

work_round-choke :
    (ourself : Peer) (turn : Turn) (t : TorrentPeer) (rest : List Event)
    → t.handshake_complete ≡ true
    → is_complete t ≡ true
    → work_round turn.world turn.padding turn.behind ourself
        (arriving t (segment (message 1 choke) ∷ rest))
      ≡ ok (record {
        notice = some (notice_of turn.padding turn.behind t.download_piece);
        quits = not t.socket_healthy;
        them = emptied (arriving t rest);
      })
unfolding work_round notify_downloaded_piece empty_download_piece download_next_piece
work_round-choke ourself turn t rest shaken complete =
    rw
      (receive_message-read turn.world ourself (arriving t (segment (message 1 choke) ∷ rest))
        (message 1 choke) (record t.tcp { incoming = rest })
        (ok (false, record (arriving t rest) { am_choking = true })) shaken
        (receive-segment t.tcp (message 1 choke) rest 5 (omega (arith, length-choke)))
        (dispatch_message-choke turn.world ourself (arriving t rest)))
      (rw complete refl)

work-noticed :
    (ourself : Peer) (turn : Turn) (turns : List Turn) (t u : TorrentPeer) (n : Notice) (v : Work)
    → work_round turn.world turn.padding turn.behind ourself t
      ≡ ok (record { notice = some n; quits = false; them = u })
    → work ourself turns u ≡ ok v
    → work ourself (turn ∷ turns) t ≡ ok (noticed (some n) v)
unfolding work
work-noticed ourself turn turns t u n v h k = rw h (rw k refl)

-- Each choke message that arrives in one segment at a task whose piece is complete, with nothing
-- else arriving between them, makes the task notify the piece again: the first notice has the data of the piece, and every later one, under the same
-- index, only what the emptied vector still has allocated, which the parent writes over the file of
-- the piece.
pub work-repeated :
    (ourself : Peer) (turns : List Turn) (t : TorrentPeer) (rest : List Event)
    → t.handshake_complete ≡ true
    → t.socket_healthy ≡ true
    → is_complete t ≡ true
    → work ourself turns (arriving t (chokes turns ++ rest))
      ≡ ok (record {
        notices = repeated turns t;
        has_quit = false;
        them = arriving (emptied_by turns t) rest;
      })
unfolding work
work-repeated ourself [] t rest shaken healthy complete = refl
work-repeated ourself (turn ∷ turns) t rest shaken healthy complete =
    let n = notice_of turn.padding turn.behind t.download_piece in
    let ahead = chokes turns ++ rest in
    work-noticed ourself turn turns (arriving t (segment (message 1 choke) ∷ ahead))
      (emptied (arriving t ahead)) n _
      (work_round-choke ourself turn t ahead shaken complete
        ∙ ap
            (λ (b : Bool).
              ok (record { notice = some n; quits = not b; them = emptied (arriving t ahead) }))
            healthy)
      (work-repeated ourself turns (emptied t) rest shaken healthy complete)
