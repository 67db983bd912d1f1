-- ===== src/Balancer/Pool/Indices.antt =====
-- About the indices that the instances of a pool hold of their own place in a slice.
use ambergreen.Common.{
  ℕ, ◌≡◌, ◌≢◌, refl, sym, ap, ◌∙◌, true, false, Option, none, some, List, [], ◌∷◌, ok, >>=-eq-ok,
  ok-injective, length, get_elem?, set, is_some, arith, subst,
}
use ambergreen.Balancer.Pool.{
  Pool, PooledInstance, queue_push, reset_timer, set_index, swap, swap_all, swap_found, swapped,
  write,
}
use ambergreen.Balancer.Pool.Slices.{get_elem?-append, get_elem?-set, length-set}

-- Every instance of the retry queue has a retry time, and holds its place in the queue.
abbrev pub RetryIndexed : Pool → Type 0
RetryIndexed p =
    (k r : ℕ)
    → get_elem? p.retry k ≡ some r
    → ((p.insts r).index ≡ k) × (is_some (p.insts r).retry_time ≡ true)

-- Every ready instance has none, and holds its place in the slice.
abbrev pub ReadyIndexed : Pool → Type 0
ReadyIndexed p =
    (k r : ℕ)
    → get_elem? p.ready k ≡ some r
    → ((p.insts r).index ≡ k) × (is_some (p.insts r).retry_time ≡ false)

swapped-RetryIndexed :
    (i j a b : ℕ) (p : Pool)
    → get_elem? p.retry i ≡ some a
    → get_elem? p.retry j ≡ some b
    → RetryIndexed p
    → RetryIndexed (swapped i j a b p)
unfolding swapped set_index write
swapped-RetryIndexed i j a b p ha hb h k r e = ground (
  arith,
  e,
  h i a ha,
  h j b hb,
  h k r,
  get_elem?-set p.retry i b k,
  get_elem?-set (set p.retry i b) j a k,
)

-- The instance is not in the retry queue.
abbrev pub Absent : ℕ → Pool → Type 0
Absent ref p = (k : ℕ) → get_elem? p.retry k ≢ some ref

-- What no swap of the queue changes.
pub record Swapped (p q : Pool) : Type 0 where
  pub ready : q.ready ≡ p.ready
  pub size : length q.retry ≡ length p.retry
  pub times : (r : ℕ) → (q.insts r).retry_time ≡ (p.insts r).retry_time
  pub indexed : RetryIndexed p → RetryIndexed q
  pub others : (r : ℕ) → Absent r p → ((q.insts r).index ≡ (p.insts r).index) × Absent r q

swapped-Swapped :
    (i j a b : ℕ) (p : Pool)
    → get_elem? p.retry i ≡ some a
    → get_elem? p.retry j ≡ some b
    → Swapped p (swapped i j a b p)
unfolding swapped set_index write
swapped-Swapped i j a b p ha hb = record {
  ready = refl;
  size = length-set (set p.retry i b) j a ∙ length-set p.retry i b;
  times = λ r. ground arith;
  indexed = swapped-RetryIndexed i j a b p ha hb;
  others = λ r away. (
    ground (arith, ha, hb, away i, away j),
    λ k. ground (
      arith,
      ha,
      hb,
      away i,
      away j,
      away k,
      get_elem?-set p.retry i b k,
      get_elem?-set (set p.retry i b) j a k,
    ),
  );
}

swap-Swapped : (i j : ℕ) (p q : Pool) → swap i j p ≡ ok q → Swapped p q
unfolding swap
swap-Swapped i j p q e = found (get_elem? p.retry i) (get_elem? p.retry j) refl refl e
  where
    found :
        (a b : Option ℕ)
        → get_elem? p.retry i ≡ a
        → get_elem? p.retry j ≡ b
        → swap_found i j p a b ≡ ok q
        → Swapped p q
    found none b ha hb e = absurd (ground (arith, e))
    found (some a) none ha hb e = absurd (ground (arith, e))
    found (some a) (some b) ha hb e =
        subst (Swapped p) (ok-injective e) (swapped-Swapped i j a b p ha hb)

pub swap_all-Swapped : (swaps : List (ℕ × ℕ)) (p q : Pool) → swap_all swaps p ≡ ok q → Swapped p q
unfolding swap_all
swap_all-Swapped [] p q e = subst (Swapped p) (ok-injective e) (record {
  ready = refl;
  size = refl;
  times = λ r. refl;
  indexed = λ h. h;
  others = λ r away. (refl, away);
})
swap_all-Swapped ((i, j) ∷ swaps) p q e =
    let (u, first, rest) = >>=-eq-ok (swap i j p) (swap_all swaps) e in
    let a = swap-Swapped i j p u first in
    let b = swap_all-Swapped swaps u q rest in
    record {
      ready = b.ready ∙ a.ready;
      size = b.size ∙ a.size;
      times = λ r. b.times r ∙ a.times r;
      indexed = λ h. b.indexed (a.indexed h);
      others = λ r away.
          let (same, away') = a.others r away in
          let (same', away'') = b.others r away' in (same' ∙ same, away'');
    }

-- An instance that has a retry time and is not in the queue is put at the queue's end.
pub queue_push-RetryIndexed :
    (ref : ℕ) (p : Pool)
    → is_some (p.insts ref).retry_time ≡ true
    → ((k : ℕ) → get_elem? p.retry k ≢ some ref)
    → RetryIndexed p
    → RetryIndexed (queue_push ref p)
unfolding queue_push set_index write
queue_push-RetryIndexed ref p timed absent h k r e =
    ground (arith, e, timed, absent k, h k r, get_elem?-append p.retry ref k)

pub reset_timer-fields :
    (now : ℕ) (p : Pool)
    → ((reset_timer now p).retry ≡ p.retry)
      × ((reset_timer now p).insts ≡ p.insts)
      × ((reset_timer now p).ready ≡ p.ready)
unfolding reset_timer
reset_timer-fields now p = (ground arith, ground arith, ground arith)

pub reset_timer-RetryIndexed :
    (now : ℕ) (p : Pool) → RetryIndexed p → RetryIndexed (reset_timer now p)
reset_timer-RetryIndexed now p h k r e =
    let (retry, insts, ready) = reset_timer-fields now p in
    subst (λ (f : ℕ → PooledInstance). ((f r).index ≡ k) × (is_some (f r).retry_time ≡ true))
      (sym insts) (h k r (ap (λ l. get_elem? l k) (sym retry) ∙ e))

pub reset_timer-ReadyIndexed :
    (now : ℕ) (p : Pool) → ReadyIndexed p → ReadyIndexed (reset_timer now p)
reset_timer-ReadyIndexed now p h k r e =
    let (retry, insts, ready) = reset_timer-fields now p in
    subst (λ (f : ℕ → PooledInstance). ((f r).index ≡ k) × (is_some (f r).retry_time ≡ false))
      (sym insts) (h k r (ap (λ l. get_elem? l k) (sym ready) ∙ e))
