-- ===== src/Multiproc/Spawning.antt =====
-- source/multiproc/multiproc.cpp: how many children `spawner` starts.
use torr.Prelude.{
  ℕ, zero, suc, Bool, true, false, List, [], ◌∷◌, ◌++◌, append_assoc, append-nil, map, Option, none,
  some, ◌≡◌, refl, sym, ap, ◌∙◌, arith, if◌then◌else◌, length, take, inl, inr, ◌⊎◌, Bool-cases,
}
use torr.Network.Peer.State.{TorrentPeer}
use torr.Network.Tracker.{PeerAddress}
use torr.Multiproc.Children.{Parent, Fork, forked, find_peer, spawn, spawn_all, spawner}

-- How many of the addresses are of peers that shake hands.
abbrev pub good_count : (PeerAddress → Bool) → List PeerAddress → ℕ
good_count good [] = 0
good_count good (a ∷ rest) = if good a then suc (good_count good rest) else good_count good rest

take-none : (n : ℕ) → take {A = ℕ} n [] ≡ []
take-none zero = refl
take-none (suc n) = refl

zero_or_suc : (n : ℕ) → (n ≡ 0) ⊎ ((k : ℕ) × (n ≡ suc k))
zero_or_suc zero = inl refl
zero_or_suc (suc n) = inr (n, refl)

module _ (try : PeerAddress → TorrentPeer → Bool × TorrentPeer) (good : PeerAddress → Bool)
    (steady : (a : PeerAddress) (t : TorrentPeer) → (try a t).0 ≡ good a) where
  good_count-good :
      (a : PeerAddress) (l : List PeerAddress)
      → good a ≡ true
      → good_count good (a ∷ l) ≡ suc (good_count good l)
  good_count-good a l g = rw g refl

  good_count-bad :
      (a : PeerAddress) (l : List PeerAddress)
      → good a ≡ false
      → good_count good (a ∷ l) ≡ good_count good l
  good_count-bad a l g = rw g refl

  find_peer-none :
      (l : List PeerAddress) (t : TorrentPeer)
      → good_count good l ≡ 0
      → find_peer try l t ≡ (none, [])
  unfolding find_peer
  find_peer-none [] t e = refl
  find_peer-none (a ∷ l) t e = elim (Bool-cases (good a)) [
    | inl g ↦ absurd (omega (arith, e, good_count-good a l g))
    | inr g ↦
        rw (steady a t ∙ g) (find_peer-none l (try a t).1 (omega (arith, e, good_count-bad a l g)))
  ]

  find_peer-some :
      (l : List PeerAddress) (t : TorrentPeer) (k : ℕ)
      → good_count good l ≡ suc k
      → (them : TorrentPeer) × (rest : List PeerAddress) × (find_peer try l t ≡ (some them, rest))
        × (good_count good rest ≡ k)
  unfolding find_peer
  find_peer-some [] t k e = absurd (omega (arith, e))
  find_peer-some (a ∷ l) t k e = elim (Bool-cases (good a)) [
    | inl g ↦ ((try a t).1, l, rw (steady a t ∙ g) refl, omega (arith, e, good_count-good a l g))
    | inr g ↦
        let (them, rest, found, left) =
          find_peer-some l (try a t).1 k (omega (arith, e, good_count-bad a l g)) in
        (them, rest, rw (steady a t ∙ g) found, left)
  ]

  -- The parent behind some rounds: these addresses are left, and these children started.
  abbrev pub after : Parent → List PeerAddress → List ℕ → Parent
  after p rest pids = record p { addresses = rest; tasks = p.tasks ++ pids }

  spawn-none :
      (fresh : TorrentPeer) (f : Fork) (p : Parent)
      → good_count good p.addresses ≡ 0
      → spawn try fresh f p ≡ some (0, after p [] [])
  unfolding spawn
  spawn-none fresh f p e =
      let nobody = find_peer-none p.addresses fresh e in
      rw (nobody, spawn)
        (rw nobody (
          ap (λ (pids : List ℕ). some (0, record p { addresses = []; tasks = pids }))
            (sym (append-nil p.tasks))))

  spawn-some :
      (fresh : TorrentPeer) (pid k : ℕ) (p : Parent)
      → good_count good p.addresses ≡ suc k
      → (rest : List PeerAddress) × (spawn try fresh (forked pid) p
          ≡ some (pid, after p rest (pid ∷ [])))
        × (good_count good rest ≡ k)
  unfolding spawn
  spawn-some fresh pid k p e =
      let (them, rest, found, left) = find_peer-some p.addresses fresh k e in
      (rest, rw (found, spawn) (rw found refl), left)

  spawn_all-step :
      (n pid : ℕ) (fresh : TorrentPeer) (f : Fork) (forks : List Fork) (p next : Parent)
      (out : Option Parent)
      → spawn try fresh f p ≡ some (pid, next)
      → spawn_all try n fresh forks next ≡ out
      → spawn_all try (suc n) fresh (f ∷ forks) p ≡ out
  unfolding spawn_all
  spawn_all-step n pid fresh f forks p next out e h = rw (e, spawn_all) h

  spawn_all-tasks :
      (fresh : TorrentPeer) (pids : List ℕ) (p : Parent)
      → (rest : List PeerAddress) × (spawn_all try (length pids) fresh (map forked pids) p
          ≡ some (after p rest (take (good_count good p.addresses) pids)))
  unfolding spawn_all
  spawn_all-tasks fresh [] p = (
    p.addresses,
    rw (take-none (good_count good p.addresses))
        (ap (λ (pids : List ℕ). some (record p { tasks = pids })) (sym (append-nil p.tasks))),
  )
  spawn_all-tasks fresh (pid ∷ pids) p = elim (zero_or_suc (good_count good p.addresses)) [
    | inl e ↦
        let (rest, all) = spawn_all-tasks fresh pids (after p [] []) in
        (
          rest,
          spawn_all-step (length pids) 0 fresh (forked pid) (map forked pids) p (after p [] []) _
                (spawn-none fresh (forked pid) p e) all
              ∙ rw e (
                  ap (λ (l : List ℕ). some (record p { addresses = rest; tasks = l }))
                    (append-nil (p.tasks ++ []))),
        )
    | inr (k, e) ↦
        let (behind, one, left) = spawn-some fresh pid k p e in
        let (rest, all) = spawn_all-tasks fresh pids (after p behind (pid ∷ [])) in
        (
          rest,
          spawn_all-step (length pids) pid fresh (forked pid) (map forked pids) p
                (after p behind (pid ∷ [])) _ one all
              ∙ rw e (
                  rw left (
                    ap (λ (l : List ℕ). some (record p { addresses = rest; tasks = l }))
                      (append_assoc p.tasks (pid ∷ []) (take k pids)))),
        )
  ]

  -- `spawner`, where every `fork` succeeds and whether a handshake with an address succeeds depends
  -- on the address alone: it starts one child after the other, as many as are to be spawned or, if
  -- these are fewer, as there are addresses of peers that shake hands, and is then done spawning.
  pub spawner-tasks :
      (fresh : TorrentPeer) (pids : List ℕ) (p : Parent)
      → length pids ≡ p.spawn_children_count
      → (rest : List PeerAddress) × (spawner try fresh (map forked pids) p
          ≡ some (record (after p rest (take (good_count good p.addresses) pids)) {
            is_spawning = false;
          }))
  unfolding spawner
  spawner-tasks fresh pids p e =
      let (rest, all) = spawn_all-tasks fresh pids (record p { is_spawning = true }) in
      let started =
        ap (λ (n : ℕ). spawn_all try n fresh (map forked pids) (record p { is_spawning = true }))
          (sym e)
        ∙ all in
      (rest, rw (started, spawner) refl)
