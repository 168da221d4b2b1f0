-- ===== src/Multiproc/Working.antt =====
-- source/multiproc/multiproc.cpp: `work` of a task whose peer sends the blocks of a piece.
mod Rounds
use torr.Multiproc.Working.Rounds.{grown-append, grown-nil, work_round-part, work_round-whole}
use torr.Prelude.{
  ℕ, ◌+◌, ◌^◌, ◌<◌, ◌≤◌, Bool, true, false, not, ◌&&◌, ◌==◌, List, [], ◌∷◌, ◌++◌, append_assoc,
  append-nil, none, some, Result, ok, err, ◌>>=◌, ◌≡◌, refl, sym, ap, ◌∙◌, arith, length,
  length-append, Bool-cases, inl, inr, leb-gt,
}
use torr.Network.Socket.{Event}
use torr.Network.Peer.State.{Peer, PeerFault, TorrentPeer, empty_download_piece}
use torr.Network.Peer.Send.{send_message_have, send_message_interested, download_next_piece}
use torr.Network.Peer.Blocks.{arriving, concat}
use torr.Network.Peer.Messages.{
  Block, data_of, events_of, grown, announced, Arrives, IsReady, receive_message-finish,
  finish_block-part, finish_block-whole,
}
use torr.Multiproc.System.{notice_of}
use torr.Multiproc.Children.{
  Round, is_complete, notify_downloaded_piece, work_round, Turn, Work, noticed, work,
}

-- A block for each round.
abbrev pub Heard : Type 0
Heard = List (Turn × Block)

abbrev pub turns_of : Heard → List Turn
turns_of [] = []
turns_of ((turn, b) ∷ rest) = turn ∷ turns_of rest

abbrev pub events_from : ℕ → Heard → List Event
events_from index [] = []
events_from index ((turn, b) ∷ rest) = events_of index b ++ events_from index rest

abbrev pub data_from : Heard → List ℕ
data_from [] = []
data_from ((turn, b) ∷ rest) = data_of b ++ data_from rest

abbrev pub AllArrive : Heard → Type 0
AllArrive [] = Unit {0}
AllArrive ((turn, b) ∷ rest) = Arrives turn.world b × AllArrive rest

bind_ok : {A : Type 0} (m : Result PeerFault A) → (m >>= λ a. ok a) ≡ m
bind_ok (ok a) = refl
bind_ok (err e) = refl

bind_ext :
    {A B : Type 0} (m : Result PeerFault A) (f g : A → Result PeerFault B)
    → ((a : A) → f a ≡ g a)
    → (m >>= f) ≡ (m >>= g)
bind_ext (ok a) f g h = h a
bind_ext (err e) f g h = refl

bind_assoc :
    {A B C : Type 0} (m : Result PeerFault A) (f : A → Result PeerFault B)
    (g : B → Result PeerFault C)
    → ((m >>= f) >>= g) ≡ (m >>= λ a. f a >>= g)
bind_assoc (ok a) f g = refl
bind_assoc (err e) f g = refl

pub work-quiet :
    (ourself : Peer) (turn : Turn) (turns : List Turn) (t u : TorrentPeer)
    → work_round turn.world turn.padding turn.behind ourself t
      ≡ ok (record { notice = none; quits = false; them = u })
    → work ourself (turn ∷ turns) t ≡ work ourself turns u
unfolding work
work-quiet ourself turn turns t u h = rw h (bind_ok (work ourself turns u))

abbrev none_left : Bool → TorrentPeer → Work
none_left b u = record { notices = []; has_quit = b; them = u }

last_round :
    (ourself : Peer) (round : Round)
    → (elim round.quits as (λ (b : Bool). Result PeerFault Work) [
      | true ↦ ok (noticed round.notice (none_left true round.them))
      | false ↦ work ourself [] round.them >>= λ rest. ok (noticed round.notice rest)
    ])
      ≡ ok (noticed round.notice (none_left round.quits round.them))
unfolding work
last_round ourself round = elim (Bool-cases round.quits) [ inl e ↦ rw e refl | inr e ↦ rw e refl ]

work-last :
    (ourself : Peer) (turn : Turn) (t : TorrentPeer)
    → work ourself (turn ∷ []) t ≡ (
        work_round turn.world turn.padding turn.behind ourself t >>= λ round.
        ok (
          noticed round.notice
            (record { notices = []; has_quit = round.quits; them = round.them })))
unfolding work
work-last ourself turn t =
    bind_ext (work_round turn.world turn.padding turn.behind ourself t) _ _
      (λ (round : Round). last_round ourself round)

grown-IsReady : (t : TorrentPeer) (xs : List ℕ) → IsReady t → IsReady (grown t xs)
grown-IsReady t xs (shaken, index, sound) =
    (shaken, index, omega (arith, sound, length-append t.download_piece.piece_data xs))

-- The rounds in which the piece is not yet complete write nothing for the parent.
work-parts :
    (ourself : Peer) (hs : Heard) (t : TorrentPeer) (more : List Turn) (rest : List Event)
    → AllArrive hs
    → IsReady t
    → t.socket_healthy ≡ true
    → t.download_piece.downloaded + length (data_from hs) < t.download_piece.piece_size
    → t.download_piece.downloaded + length (data_from hs) < 2 ^ 63
    → work ourself
        (turns_of hs ++ more)
        (arriving t (events_from t.download_piece.piece_index hs ++ rest))
      ≡ work ourself more (arriving (grown t (data_from hs)) rest)
work-parts ourself [] t more rest a r s h k =
    ap (λ (u : TorrentPeer). work ourself more (arriving u rest)) (sym (grown-nil t))
work-parts ourself ((turn, b) ∷ hs) t more rest (arrives, a) r s h k =
    let i = t.download_piece.piece_index in
    let sizes : length (data_of b ++ data_from hs) ≡ length (data_of b) + length (data_from hs) =
      length-append (data_of b) (data_from hs) in
    let next = grown t (data_of b) in
    ap
      (λ (events : List Event).
        work ourself (turns_of ((turn, b) ∷ hs) ++ more) (arriving t events))
      (append_assoc (events_of i b) (events_from i hs) rest)
    ∙ work-quiet ourself turn (turns_of hs ++ more) _ _ (
        work_round-part ourself turn t b (events_from i hs ++ rest) arrives r s
          (omega (arith, sizes)) (omega (arith, sizes)))
    ∙ work-parts ourself hs next more rest a (grown-IsReady t (data_of b) r) s
        (omega (arith, sizes)) (omega (arith, sizes))
    ∙ ap (λ (u : TorrentPeer). work ourself more (arriving u rest))
        (grown-append t (data_of b) (data_from hs))

-- The end of a round with a piece that is complete: it is announced, the one notice is that of the
-- piece, and the next piece is asked for.
abbrev pub handed_over : Peer → Turn → TorrentPeer → Result PeerFault Work
handed_over ourself turn t =
    download_next_piece turn.world.skips ourself (empty_download_piece (announced t))
    >>= λ (found, next). ok (record {
      notices = notice_of turn.padding turn.behind t.download_piece ∷ [];
      has_quit = not next.socket_healthy;
      them = next;
    })

-- A task whose peer sends the blocks of its piece one after the other, each with its header and a
-- first byte of its data in one segment and the rest in segments of any lengths, writes nothing for
-- the parent before the last of them and then exactly one notice, that of the piece with the data
-- of all blocks in the order of their arrival, whatever offsets their messages name; it announces
-- the piece once and goes on to the next piece. The sizes together are below 2 ^ 63.
pub work-blocks :
    (ourself : Peer) (hs : Heard) (turn : Turn) (b : Block) (t : TorrentPeer) (rest : List Event)
    → AllArrive hs
    → Arrives turn.world b
    → IsReady t
    → t.socket_healthy ≡ true
    → t.download_piece.downloaded + length (data_from hs) < t.download_piece.piece_size
    → t.download_piece.piece_size
      ≤ t.download_piece.downloaded + length (data_from hs) + length (data_of b)
    → t.download_piece.downloaded + length (data_from hs) + length (data_of b) < 2 ^ 63
    → let i = t.download_piece.piece_index in
      work ourself
        (turns_of hs ++ turn ∷ [])
        (arriving t (events_from i hs ++ (events_of i b ++ rest)))
      ≡ handed_over ourself turn (grown (arriving t rest) (data_from hs ++ data_of b))
work-blocks ourself hs turn b t rest a arrives r s h k l =
    let i = t.download_piece.piece_index in
    let u = grown t (data_from hs) in
    let ready = grown-IsReady t (data_from hs) r in
    work-parts ourself hs t (turn ∷ []) (events_of i b ++ rest) a r s h (omega arith)
    ∙ work-last ourself turn (arriving u (events_of i b ++ rest))
    ∙ rw (work_round-whole ourself turn u b rest arrives ready s l k) (
        bind_assoc
          (download_next_piece turn.world.skips ourself
            (empty_download_piece (announced (grown (arriving u rest) (data_of b)))))
          _ _
        ∙ ap (handed_over ourself turn) (grown-append (arriving t rest) (data_from hs) (data_of b)))
