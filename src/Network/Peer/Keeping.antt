-- ===== src/Network/Peer/Keeping.antt =====
-- source/network/peer/peer.cpp: what its operations keep, put together from what their parts keep.
use torr.Prelude.{Bool, true, false, Option, none, some, Result, ok, err, ◌>>=◌, if◌then◌else◌}
use torr.Network.Peer.State.{PeerFault, TorrentPeer}
use torr.Network.Peer.Receive.{Outcome}

module _ (P : TorrentPeer → Type 0) where
  -- Where the operation returns, its peer has the property.
  abbrev pub Keeps : Outcome → Type 0
  Keeps (ok (r, t)) = P t
  Keeps (err e) = Unit {0}

  pub Keeps-bind :
      {A : Type 0} (x : Result PeerFault A) (f : A → Outcome)
      → ((a : A) → Keeps (f a))
      → Keeps (x >>= f)
  Keeps-bind (ok a) f h = h a
  Keeps-bind (err e) f h = tt

  pub Keeps-then :
      (o : Outcome) (f : Bool × TorrentPeer → Outcome)
      → Keeps o
      → ((b : Bool) (t : TorrentPeer) → P t → Keeps (f (b, t)))
      → Keeps (o >>= f)
  Keeps-then (ok (b, t)) f k h = h b t k
  Keeps-then (err e) f k h = tt

  pub Keeps-if : (b : Bool) (o p : Outcome) → Keeps o → Keeps p → Keeps (if b then o else p)
  Keeps-if true o p h k = h
  Keeps-if false o p h k = k

  pub Keeps-option :
      {A : Type 0} (x : Option A) (o : Outcome) (f : A → Outcome)
      → Keeps o
      → ((a : A) → Keeps (f a))
      → Keeps (elim x [ none ↦ o | some a ↦ f a ])
  Keeps-option none o f h k = h
  Keeps-option (some a) o f h k = k a

  pub if-kept : (b : Bool) (p q : Bool × TorrentPeer) → P p.1 → P q.1 → P (if b then p else q).1
  if-kept true p q h k = h
  if-kept false p q h k = k
