-- ===== src/Multiproc/Holders.antt =====
-- source/multiproc/multiproc.cpp: the one task that holds the semaphore among all tasks.
use torr.Prelude.{
  ℕ, zero, suc, ◌+◌, ◌≤◌, ◌≢◌, inl, inr, Bool-cases, ==_iff, ◌==◌, Option, none, some, List, [],
  ◌∷◌, ◌≡◌, refl, sym, ap, ◌∙◌, arith, get_elem?, set, get_elem?-set_ne,
}
use torr.Multiproc.System.{Notice, TaskPhase, heading, sending, holds, tasks_hold}
use torr.Multiproc.Exclusion.{tasks_hold-set}

holds_at : Option TaskPhase → ℕ
holds_at none = 0
holds_at (some c) = holds c

one_holds :
    (cs : List TaskPhase) (i : ℕ) (c : TaskPhase)
    → get_elem? cs i ≡ some c
    → holds c ≤ tasks_hold cs
unfolding holds_at
one_holds [] i c e = cc
one_holds (x ∷ cs) zero c e = let same : holds x ≡ holds c = ap holds_at e in omega (arith, same)
one_holds (x ∷ cs) (suc i) c e = omega (arith, one_holds cs i c e)

two_hold :
    (cs : List TaskPhase) (i j : ℕ) (c d : TaskPhase)
    → get_elem? cs i ≡ some c
    → get_elem? cs j ≡ some d
    → i ≢ j
    → holds c + holds d ≤ tasks_hold cs
unfolding holds_at
two_hold [] i j c d e f h = cc
two_hold (x ∷ cs) zero zero c d e f h = absurd (h refl)
two_hold (x ∷ cs) zero (suc j) c d e f h =
    let same : holds x ≡ holds c = ap holds_at e in omega (arith, same, one_holds cs j d f)
two_hold (x ∷ cs) (suc i) zero c d e f h =
    let same : holds x ≡ holds d = ap holds_at f in omega (arith, same, one_holds cs i c e)
two_hold (x ∷ cs) (suc i) (suc j) c d e f h =
    omega (arith, two_hold cs i j c d e f (λ k. h (ap suc k)))

module _ (cs : List TaskPhase) (i j : ℕ) (c : TaskPhase) (ys : List ℕ) (one : tasks_hold cs ≡ 1)
    (at_i : get_elem? cs i ≡ some (sending ys)) (at_j : get_elem? cs j ≡ some c) where
  pub same_phase : j ≡ i → some c ≡ some (sending ys)
  same_phase e = sym at_j ∙ ap (λ (k : ℕ). get_elem? cs k) e ∙ at_i

  -- A task that does not hold the semaphore is another one.
  other_task : holds c ≡ 0 → j ≢ i
  unfolding holds_at
  other_task h e = let equal : holds c ≡ 1 = ap holds_at (same_phase e) in omega (arith, h, equal)

  pub other_move :
      (d : TaskPhase)
      → holds c ≡ 0
      → holds d ≡ 0
      → (tasks_hold (set cs j d) ≡ 1) × (get_elem? (set cs j d) i ≡ some (sending ys))
  other_move d h k = (
    omega (arith, one, h, k, tasks_hold-set cs j c d at_j),
    get_elem?-set_ne cs j i d (other_task h) ∙ at_i,
  )

  -- A task that holds the semaphore is this one.
  pub same_task : holds c ≡ 1 → j ≡ i
  same_task h = elim (Bool-cases (j == i)) [
    | inl e ↦ (==_iff j i).0 e
    | inr e ↦
        let apart : j ≢ i = ground (arith, e) in
        absurd (omega (arith, one, h, two_hold cs j i c (sending ys) at_j at_i apart))
  ]

abbrev pub left_at : Option TaskPhase → List ℕ
left_at (some (sending ys)) = ys
left_at _ = []

pub heading_sending : {n : Notice} {ys : List ℕ} → ¬ (some (heading n) ≡ some (sending ys))
heading_sending e = cc
