-- ===== src/Balancer/Pool/Removal.antt =====
-- About removals from the retry queue.
use ambergreen.Common.{
  ℕ, ◌+◌, ◌-◌, ◌≡◌, refl, sym, ◌∙◌, Option, none, some, ok, >>=-eq-ok, ok-injective, length,
  get_elem?, arith, subst,
}
use ambergreen.Balancer.Pool.{Heap, Pool, but_last, last, queue_pop, queue_popped, swap_all}
use ambergreen.Balancer.Pool.Calls.{heap_remove}
use ambergreen.Balancer.Pool.Slices.{get_elem?-but_last, get_elem?-last, length-but_last}
use ambergreen.Balancer.Pool.Indices.{Absent, RetryIndexed, swap_all-Swapped}

queue_pop-eq-ok :
    (p q : Pool)
    → queue_pop p ≡ ok q
    → (l : ℕ) × (last p.retry ≡ some l) × (record p { retry = but_last p.retry } ≡ q)
unfolding queue_pop
queue_pop-eq-ok p q e = popped (last p.retry) refl e
  where
    popped :
        (o : Option ℕ)
        → last p.retry ≡ o
        → queue_popped p o ≡ ok q
        → (l : ℕ) × (last p.retry ≡ some l) × (record p { retry = but_last p.retry } ≡ q)
    popped none h e = absurd (ground (arith, e))
    popped (some l) h e = (l, h, ok-injective e)

-- What heap.Remove promises: it removes the element at the index.
abbrev pub Removes : Heap → Type 0
Removes heap =
    (i : ℕ) (p q : Pool)
    → swap_all (heap.remove_swaps i p) p ≡ ok q
    → last q.retry ≡ get_elem? p.retry i

-- What is left in the queue by a removal of `ref`.
pub record Removed (ref : ℕ) (p q : Pool) : Type 0 where
  pub ready : q.ready ≡ p.ready
  pub size : length q.retry + 1 ≡ length p.retry
  pub times : (r : ℕ) → (q.insts r).retry_time ≡ (p.insts r).retry_time
  pub indexed : RetryIndexed q
  pub absent : Absent ref q
  pub others : (r : ℕ) → Absent r p → ((q.insts r).index ≡ (p.insts r).index) × Absent r q

pub heap_remove-Removed :
    (heap : Heap) (law : Removes heap) (i ref : ℕ) (p q : Pool)
    → get_elem? p.retry i ≡ some ref
    → RetryIndexed p
    → heap_remove heap i p ≡ ok q
    → Removed ref p q
unfolding heap_remove
heap_remove-Removed heap law i ref p q at_i h e =
    let (u, swaps, pop) = >>=-eq-ok (swap_all (heap.remove_swaps i p) p) queue_pop e in
    let s = swap_all-Swapped (heap.remove_swaps i p) p u swaps in
    let (l, at_end, same) = queue_pop-eq-ok u q pop in
    let is_ref : last u.retry ≡ some ref = law i p u swaps ∙ at_i in
    let indexed = s.indexed h in
    let placed = indexed (length u.retry - 1) ref (sym (get_elem?-last u.retry) ∙ is_ref) in
    subst (Removed ref p) same (record {
      ready = s.ready;
      size = length-but_last u.retry l at_end ∙ s.size;
      times = s.times;
      indexed = λ k r f. indexed k r (ground (arith, f, get_elem?-but_last u.retry k));
      absent = λ k f. ground (arith, f, get_elem?-but_last u.retry k, indexed k ref, placed);
      others = λ r away.
          let (kept, away') = s.others r away in
          (kept, λ k. ground (arith, away' k, get_elem?-but_last u.retry k));
    })
