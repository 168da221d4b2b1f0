-- ===== src/Multiproc/Conduct.antt =====
-- source/multiproc/multiproc.cpp and source/network/peer/peer.cpp: what a task sends to its peer, in
-- all its rounds.
use torr.Prelude.{
  ℕ, Bool, true, List, [], ◌∷◌, Option, none, some, Result, ok, err, ◌>>=◌, sym, append-nil, All,
  Bool-cases, inl, inr,
}
use torr.Network.Peer.State.{Peer, PeerFault, TorrentPeer, empty_download_piece}
use torr.Network.Peer.Send.{download_next_piece}
use torr.Network.Peer.Receive.{Outcome, receive_message}
use torr.Network.Peer.Keeping.{Keeps}
use torr.Network.Peer.Framing.{Accepts, SpeaksWhole}
use torr.Network.Peer.Asking.{download_next_piece-SpeaksWhole}
use torr.Network.Peer.Speaking.{receive_message-SpeaksWhole}
use torr.Multiproc.System.{Notice}
use torr.Multiproc.Children.{
  Round, is_complete, notify_downloaded_piece, work_round, Turn, Work, noticed, work,
}

module _ (before : List (List ℕ)) where
  abbrev RoundSpeaks : Result PeerFault Round → Type 0
  RoundSpeaks (ok round) = SpeaksWhole before round.them
  RoundSpeaks (err e) = Unit {0}

  -- Where the rounds are run without a fault, all that was sent to the peer is whole.
  abbrev pub WorkSpeaks : Result PeerFault Work → Type 0
  WorkSpeaks (ok run) = SpeaksWhole before run.them
  WorkSpeaks (err e) = Unit {0}

  round-speaks :
      (o : Outcome) (f : Bool × TorrentPeer → Result PeerFault Round)
      → Keeps (SpeaksWhole before) o
      → ((b : Bool) (t : TorrentPeer) → SpeaksWhole before t → RoundSpeaks (f (b, t)))
      → RoundSpeaks (o >>= f)
  round-speaks (ok (b, t)) f k h = h b t k
  round-speaks (err e) f k h = tt

  work_round-speaks :
      (ourself : Peer) (turn : Turn) (t : TorrentPeer)
      → SpeaksWhole before t
      → RoundSpeaks (work_round turn.world turn.padding turn.behind ourself t)
  unfolding work_round notify_downloaded_piece empty_download_piece
  work_round-speaks ourself turn t h =
      round-speaks (receive_message turn.world ourself t) _
        (receive_message-SpeaksWhole before turn.world ourself t h)
        (λ (b : Bool) (heard : TorrentPeer) k. elim (Bool-cases (is_complete heard)) [
          | inl e ↦ rw e (
              round-speaks
                (download_next_piece turn.world.skips ourself (empty_download_piece heard)) _
                (download_next_piece-SpeaksWhole before turn.world.skips ourself
                  (empty_download_piece heard) k)
                (λ (found : Bool) (next : TorrentPeer) q. q))
          | inr e ↦ rw e k
        ])

  then-speaks :
      (m : Result PeerFault Round) (f : Round → Result PeerFault Work)
      → RoundSpeaks m
      → ((round : Round) → SpeaksWhole before round.them → WorkSpeaks (f round))
      → WorkSpeaks (m >>= f)
  then-speaks (ok round) f k h = h round k
  then-speaks (err e) f k h = tt

  noticed-speaks :
      (n : Option Notice) (run : Work)
      → SpeaksWhole before run.them
      → SpeaksWhole before (noticed n run).them
  noticed-speaks none run h = h
  noticed-speaks (some n) run h = h

  later-speaks :
      (n : Option Notice) (m : Result PeerFault Work)
      → WorkSpeaks m
      → WorkSpeaks (m >>= λ run. ok (noticed n run))
  later-speaks n (err e) h = tt
  later-speaks n (ok run) h = noticed-speaks n run h

  rounds-speak :
      (ourself : Peer) (turns : List Turn) (t : TorrentPeer)
      → SpeaksWhole before t
      → WorkSpeaks (work ourself turns t)
  unfolding work
  rounds-speak ourself [] t h = h
  rounds-speak ourself (turn ∷ turns) t h =
      then-speaks (work_round turn.world turn.padding turn.behind ourself t) _
        (work_round-speaks ourself turn t h)
        (λ (round : Round) k. elim (Bool-cases round.quits) [
          | inl e ↦ rw e (
              noticed-speaks round.notice
                (record { notices = []; has_quit = true; them = round.them }) k)
          | inr e ↦ rw e (
              later-speaks round.notice (work ourself turns round.them)
                (rounds-speak ourself turns round.them k))
        ])

-- Whatever bytes a peer sends, whatever calls of its connection fail and whatever is random, all that
-- a task sends to it behind what was sent before, in any number of rounds that end without a fault,
-- are whole messages, whose length counts exactly the bytes behind it and whose code is that of
-- interested, have or request, and answers to a keep alive, five bytes with the length 0. Each send
-- of the connection fails or accepts seventeen bytes at least.
pub work-WorkSpeaks :
    (ourself : Peer) (turns : List Turn) (t : TorrentPeer)
    → All Accepts t.tcp.accepts
    → WorkSpeaks t.tcp.sent (work ourself turns t)
work-WorkSpeaks ourself turns t h =
    rounds-speak t.tcp.sent ourself turns t (([], sym (append-nil t.tcp.sent), tt), h)
