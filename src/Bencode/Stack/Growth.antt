-- ===== src/Bencode/Stack/Growth.antt =====
-- source/generic/bencode_map.hpp: what a byte leaves of the containers to which the queue leads, after
-- any bytes.
use torr.Prelude.{
  ℕ, ◌≡◌, refl, true, false, Bool, List, [], ◌∷◌, ◌++◌, ap, subst, sym, ◌∙◌, ok, All, drop_last,
  drop_last-append,
}
use torr.Bencode.Target.{Target, Pointer, Step, append_raw}
use torr.Bencode.Parser.{
  Bencode, new_bencode, push_raw_bencode, dispatch, noted, consume_byte, feed,
}
use torr.Bencode.Stack.{
  Stack, closed, opened, add, root_of, pointer_of, queue_of, stack_root, stack_queue, place,
  child_step, append_raws,
}
use torr.Bencode.Stack.Operations.{push_raw_bencode-place}
use torr.Bencode.Stack.Held.{IsHeld, IsHeld-IsOpen, append_raws-IsHeld}
use torr.Bencode.Stack.Pointers.{
  IsPlaced, eq_place, feed-IsPlaced, LeadsToContainer, placed-LeadsToContainer,
}
use torr.Bencode.Stack.Steady.{
  AsLong, size-add, size-add-append_raw, queue-steady, raw_queue-steady, IsAround, EndsAround,
  dispatch-EndsAround,
}

-- From a pointer on, each goes on from the one before it by one step.
abbrev pub IsTrail : Pointer → List Pointer → Type 0
IsTrail p [] = Unit {0}
IsTrail p (q ∷ qs) = ((s : Step) × (q ≡ p ++ s ∷ [])) × IsTrail q qs

-- The queue is empty, or begins at the root and goes on so.
abbrev pub IsDescent : List Pointer → Type 0
IsDescent [] = Unit {0}
IsDescent (p ∷ ps) = (p ≡ []) × IsTrail p ps

end_of : Pointer → List Pointer → Pointer
end_of p [] = p
end_of p (q ∷ qs) = end_of q qs

end_of-snoc : (p : Pointer) (ps : List Pointer) (q : Pointer) → end_of p (ps ++ q ∷ []) ≡ q
unfolding end_of
end_of-snoc p [] q = refl
end_of-snoc p (r ∷ ps) q = end_of-snoc r ps q

IsTrail-snoc :
    (p : Pointer) (ps : List Pointer) (q : Pointer) (s : Step)
    → q ≡ end_of p ps ++ s ∷ []
    → IsTrail p ps
    → IsTrail p (ps ++ q ∷ [])
unfolding end_of
IsTrail-snoc p [] q s e h = ((s, e), tt)
IsTrail-snoc p (r ∷ ps) q s e (h, hs) = (h, IsTrail-snoc r ps q s e hs)

queue_of-IsTrail :
    (fs : List Target)
    → (ps : List Pointer) × (queue_of fs ≡ [] ∷ ps) × (end_of [] ps ≡ pointer_of fs) × IsTrail [] ps
unfolding queue_of pointer_of end_of
queue_of-IsTrail [] = ([], refl, refl, tt)
queue_of-IsTrail (f ∷ fs) =
    let (ps, e, l, h) = queue_of-IsTrail fs in
    let q = pointer_of (f ∷ fs) in
    (
      ps ++ q ∷ [],
      ap (λ (v : List Pointer). v ++ q ∷ []) e,
      end_of-snoc [] ps q,
      IsTrail-snoc [] ps q (child_step f) (ap (λ (v : Pointer). v ++ child_step f ∷ []) (sym l)) h,
    )

stack-IsDescent : (s : Stack) → IsDescent (stack_queue s)
unfolding stack_queue
stack-IsDescent (closed t) = tt
stack-IsDescent (opened t fs) =
    let (ps, e, l, h) = queue_of-IsTrail fs in subst IsDescent (sym e) (refl, h)

around-AsLong :
    (s : Stack) (r : Target)
    → IsHeld s
    → IsAround s r
    → All (AsLong (stack_root s) r) (drop_last (stack_queue s))
unfolding stack_root stack_queue root_of queue_of
around-AsLong (closed t) r h a = tt
around-AsLong (opened t []) r h a = tt
around-AsLong (opened t (f ∷ fs)) r h (z, e) =
    rw (drop_last-append (queue_of fs) (pointer_of (f ∷ fs)), e)
      (queue-steady fs (add t f) (add z f) h.1.1 (size-add f z t h.1.0))

around_raws-AsLong :
    (x : ℕ) (s : Stack) (r : Target)
    → IsHeld s
    → IsAround (append_raws x s) r
    → All (AsLong (stack_root s) r) (drop_last (stack_queue s))
unfolding stack_root stack_queue root_of queue_of
around_raws-AsLong x (closed t) r h a = tt
around_raws-AsLong x (opened t []) r h a = tt
around_raws-AsLong x (opened t (f ∷ fs)) r h (z, e) =
    rw (drop_last-append (queue_of fs) (pointer_of (f ∷ fs)), e)
      (raw_queue-steady x fs (add t f) (add z (append_raw x f)) h.1.1
        (size-add-append_raw x f z t h.1.0))

-- The outer vectors behind a byte.
abbrev AllAsLong : Bencode → Bencode → Type 0
AllAsLong b next = All (AsLong b.root next.root) (drop_last b.target_queue)

raw_place :
    (s : Stack) (b : Bencode) (c : ℕ)
    → IsHeld s
    → b.root ≡ stack_root s
    → b.target_queue ≡ stack_queue s
    → push_raw_bencode b c ≡ place (append_raws c s) b
raw_place s b c h p q =
    ap (λ (x : Bencode). push_raw_bencode x c) (eq_place s b p q)
    ∙ push_raw_bencode-place s c b (IsHeld-IsOpen s h)

noted-AllAsLong :
    (store : Bool) (b next : Bencode) (c : ℕ)
    → IsPlaced b
    → dispatch b.state (noted store b c) c ≡ ok next
    → AllAsLong b next
unfolding place
noted-AllAsLong false b next c (s, h, p, q) e =
    rw (p, q)
      (around-AsLong s next.root h
        (subst (EndsAround s) e (dispatch-EndsAround s h b.state b c (p, q))))
noted-AllAsLong true b next c (s, h, p, q) e =
    let raw = raw_place s b c h p q in
    rw (p, q)
      (around_raws-AsLong c s next.root h (
        subst (EndsAround (append_raws c s)) e (
          dispatch-EndsAround (append_raws c s) (append_raws-IsHeld s c h) b.state
            (push_raw_bencode b c) c
            (ap (λ (x : Bencode). x.root) raw, ap (λ (x : Bencode). x.target_queue) raw))))

-- After any bytes, however malformed, each pointer of the queue leads to a target that can have
-- children, the first of them to the root and each of the others to a child of the one before; and
-- whatever the next byte, where it is consumed without a fault it leaves the vector of each target to
-- which a pointer of the queue but the last leads as long as it is. So no pointer of the queue leads
-- through a vector to which the byte appends.
pub feed-IsSteady :
    (store : Bool) (bytes : List ℕ) (c : ℕ) {b next : Bencode}
    → feed (new_bencode store) bytes ≡ ok b
    → consume_byte b c ≡ ok next
    → All (LeadsToContainer b.root) b.target_queue
      × IsDescent b.target_queue
      × All (AsLong b.root next.root) (drop_last b.target_queue)
unfolding consume_byte
feed-IsSteady store bytes c {b} {next} e f =
    let placed = feed-IsPlaced store bytes e in
    let (s, h, p, q) = placed in
    (
      placed-LeadsToContainer b placed,
      subst IsDescent (sym q) (stack-IsDescent s),
      noted-AllAsLong b.store_raw_bencode b next c placed f,
    )
