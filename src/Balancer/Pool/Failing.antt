-- ===== src/Balancer/Pool/Failing.antt =====
-- About what a failure does to the ready instances, and how long it keeps an instance away.
use native.Mathlib.Nat.{pow-le-pow_right}
use ambergreen.Common.{
  ℕ, ◌+◌, ◌-◌, ◌*◌, ◌^◌, ◌≤◌, ◌<◌, ◌≡◌, ◌≢◌, refl, sym, ap, ◌∙◌, some, List, ok, >>=-eq-ok,
  ok-injective, length, get_elem?, set, arith, subst,
}
use ambergreen.Balancer.Pool.{
  Heap, Pool, add_duration, but_last, delay, last, queue_push, reschedule, retry_interval_base,
  set_index, take_ready, write,
}
use ambergreen.Balancer.Pool.Calls.{fail, heap_push}
use ambergreen.Balancer.Pool.Slices.{
  get_elem?-append, get_elem?-but_last, get_elem?-last, get_elem?-set, length-set,
}
use ambergreen.Balancer.Pool.Indices.{Absent, ReadyIndexed, RetryIndexed, reset_timer-fields}
use ambergreen.Balancer.Pool.Retries.{ready-Absent, heap_push-Swapped}

-- An instance with up to 33 failures in a row before this one is to wait for two to that power of
-- seconds, with no overflow of the 64 bits of the delay.
pub reschedule-retry_time :
    (now ref : ℕ) (p : Pool)
    → (p.insts ref).failures ≤ 33
    → ((reschedule now ref p).insts ref).retry_time
      ≡ some (now + 2 ^ (p.insts ref).failures * retry_interval_base)
unfolding reschedule write delay add_duration
reschedule-retry_time now ref p h =
    let bound : 2 ^ (p.insts ref).failures ≤ 2 ^ 33 = pow-le-pow_right (omega arith) h in
    ground (arith, bound)

taken-eq :
    (i l : ℕ) (ready rest : List ℕ)
    → take_ready i ready (some l) ≡ ok rest
    → rest ≡ but_last (set ready i l)
unfolding take_ready
taken-eq i l ready rest e = ground (arith, e)

-- A ready instance other than the failing one keeps its index.
reschedule-others :
    (now ref l : ℕ) (p : Pool)
    → ref ≢ l
    → ((queue_push ref (reschedule now ref p)).insts l).index ≡ (p.insts l).index
unfolding queue_push reschedule set_index write
reschedule-others now ref l p other = ground arith

pushed-Absent :
    (now ref l : ℕ) (p : Pool)
    → ref ≢ l
    → Absent l p
    → Absent l (queue_push ref (reschedule now ref p))
unfolding queue_push reschedule set_index write
pushed-Absent now ref l p other away k e =
    ground (arith, e, other, away k, get_elem?-append p.retry ref k)

pushed-ready : (now ref : ℕ) (p : Pool) → (queue_push ref (reschedule now ref p)).ready ≡ p.ready
unfolding queue_push reschedule set_index write
pushed-ready now ref p = refl

module _ (heap : Heap) where
  -- A failure of a ready instance that is not the last one, in a pool whose indices are right: the
  -- instance that was last takes its place in the slice and keeps its old index, which is wrong there.
  pub fail-misindexes :
      (now i ref l : ℕ) (p q : Pool)
      → RetryIndexed p
      → ReadyIndexed p
      → get_elem? p.ready i ≡ some ref
      → get_elem? p.ready (length p.ready - 1) ≡ some l
      → i + 1 < length p.ready
      → fail heap now ref p ≡ ok q
      → (get_elem? q.ready i ≡ some l) × ((q.insts l).index ≢ i)
  unfolding fail
  fail-misindexes now i ref l p q waiting indexed at_i at_end inside e =
      let (ready, taken, e₁) =
        >>=-eq-ok (take_ready (p.insts ref).index p.ready (last p.ready)) _ e in
      let shrunk : Pool = record p { ready = ready } in
      let (u, pushed, e₂) = >>=-eq-ok (heap_push heap ref (reschedule now ref shrunk)) _ e₁ in
      let is_ref = indexed i ref at_i in
      let is_l = indexed (length p.ready - 1) l at_end in
      let other : ref ≢ l = λ same. ground (arith, same, is_ref, is_l, inside) in
      let s = heap_push-Swapped heap ref (reschedule now ref shrunk) u pushed in
      let (kept, _) =
        s.others l (pushed-Absent now ref l shrunk other (ready-Absent p l waiting is_l.1)) in
      let shape : ready ≡ but_last (set p.ready i l) = taken-eq i l p.ready ready (
        ap (λ o. take_ready i p.ready o) (sym (get_elem?-last p.ready ∙ at_end))
        ∙ ap (λ j. take_ready j p.ready (last p.ready)) (sym is_ref.0)
        ∙ taken) in
      let (retry, insts, rdy) = reset_timer-fields now u in
      subst (λ (q : Pool). (get_elem? q.ready i ≡ some l) × ((q.insts l).index ≢ i))
        (ok-injective e₂)
        (
          ap (λ r. get_elem? r i) (rdy ∙ s.ready ∙ pushed-ready now ref shrunk ∙ shape)
              ∙ ground (
                arith,
                inside,
                at_i,
                get_elem?-but_last (set p.ready i l) i,
                get_elem?-set p.ready i l i,
                length-set p.ready i l,
              ),
          λ wrong. ground (
            arith,
            ap (λ f. (f l).index) insts,
            wrong,
            kept,
            reschedule-others now ref l shrunk other,
            is_l,
            inside,
          ),
        )
