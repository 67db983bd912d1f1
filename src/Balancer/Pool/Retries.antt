-- ===== src/Balancer/Pool/Retries.antt =====
-- About failures, successes and retries, and the retry queue that they leave.
use ambergreen.Common.{
  ℕ, zero, suc, ◌≤◌, ◌≡◌, refl, sym, ap, ◌∙◌, Bool, true, false, some, List, [], ◌∷◌, ok, ◌>>=◌,
  >>=-eq-ok, ok-injective, length, get_elem?, is_some, arith, subst, inl, inr, Bool-cases,
}
use ambergreen.Balancer.Pool.{
  Heap, Pool, PooledInstance, last, make_ready, queue_push, reschedule, reset_timer, take_ready,
  write,
}
use ambergreen.Balancer.Pool.Calls.{
  due, fail, failed, heap_push, heap_remove, process_retries, restored, retries_loop, succeeded,
}
use ambergreen.Balancer.Pool.Slices.{get_elem?-lt_length}
use ambergreen.Balancer.Pool.Indices.{
  Absent, RetryIndexed, Swapped, queue_push-RetryIndexed, reset_timer-RetryIndexed,
  reset_timer-fields, swap_all-Swapped,
}
use ambergreen.Balancer.Pool.Removal.{Removes, heap_remove-Removed}

-- An instance without a retry time is not in the queue.
pub ready-Absent :
    (p : Pool) (ref : ℕ) → RetryIndexed p → is_some (p.insts ref).retry_time ≡ false → Absent ref p
ready-Absent p ref h untimed k e = ground (arith, untimed, h k ref e)

reschedule-RetryIndexed :
    (now ref : ℕ) (p : Pool) → Absent ref p → RetryIndexed p → RetryIndexed (reschedule now ref p)
unfolding reschedule write
reschedule-RetryIndexed now ref p away h k r e = ground (arith, e, away k, h k r)

rescheduled :
    (now ref : ℕ) (p : Pool) → is_some ((reschedule now ref p).insts ref).retry_time ≡ true
unfolding reschedule write
rescheduled now ref p = ground arith

make_ready-RetryIndexed :
    (ref : ℕ) (p : Pool) → Absent ref p → RetryIndexed p → RetryIndexed (make_ready ref p)
unfolding make_ready write
make_ready-RetryIndexed ref p away h k r e = ground (arith, e, away k, h k r)

make_ready-retry : (ref : ℕ) (p : Pool) → (make_ready ref p).retry ≡ p.retry
unfolding make_ready write
make_ready-retry ref p = refl

make_ready-untimed :
    (ref : ℕ) (p : Pool) → is_some ((make_ready ref p).insts ref).retry_time ≡ false
unfolding make_ready write
make_ready-untimed ref p = ground arith

module _ (heap : Heap) where
  pub heap_push-Swapped :
      (ref : ℕ) (p q : Pool) → heap_push heap ref p ≡ ok q → Swapped (queue_push ref p) q
  unfolding heap_push
  heap_push-Swapped ref p q e =
      swap_all-Swapped (heap.push_swaps (queue_push ref p)) (queue_push ref p) q e

  fail-RetryIndexed :
      (now ref : ℕ) (p q : Pool)
      → is_some (p.insts ref).retry_time ≡ false
      → fail heap now ref p ≡ ok q
      → RetryIndexed p
      → RetryIndexed q
  unfolding fail
  fail-RetryIndexed now ref p q untimed e h =
      let (ready, taken, e₁) =
        >>=-eq-ok (take_ready (p.insts ref).index p.ready (last p.ready)) _ e in
      let shrunk : Pool = record p { ready = ready } in
      let (u, pushed, e₂) = >>=-eq-ok (heap_push heap ref (reschedule now ref shrunk)) _ e₁ in
      let away = ready-Absent p ref h untimed in
      subst RetryIndexed (ok-injective e₂) (
        reset_timer-RetryIndexed now u (
          (heap_push-Swapped ref (reschedule now ref shrunk) u pushed).indexed (
            queue_push-RetryIndexed ref (reschedule now ref shrunk) (rescheduled now ref shrunk)
              away (reschedule-RetryIndexed now ref shrunk away h))))

  -- A failure that is reported for any instance of the pool, and does not panic, leaves every
  -- instance of the retry queue with a retry time and with its own place in the queue as its index.
  pub failed-RetryIndexed :
      (now ref : ℕ) (p q : Pool) → RetryIndexed p → failed heap now ref p ≡ ok q → RetryIndexed q
  unfolding failed
  failed-RetryIndexed now ref p q h e = elim (Bool-cases (is_some (p.insts ref).retry_time)) [
    | inl waits ↦ subst RetryIndexed (ok-injective (rw (waits, failed) at e)) h
    | inr ready ↦ fail-RetryIndexed now ref p q ready (rw (ready, failed) at e) h
  ]

  module _ (law : Removes heap) where
    restored-RetryIndexed :
        (now ref : ℕ) (p q : Pool) (waits : Bool)
        → is_some (p.insts ref).retry_time ≡ waits
        → RetryIndexed p
        → (waits ≡ true → get_elem? p.retry (p.insts ref).index ≡ some ref)
        → restored heap now ref p waits ≡ ok q
        → RetryIndexed q × (is_some (q.insts ref).retry_time ≡ false)
    unfolding restored
    restored-RetryIndexed now ref p q false ready h queued e =
        subst (λ (q : Pool). RetryIndexed q × (is_some (q.insts ref).retry_time ≡ false))
          (ok-injective e) (h, ready)
    restored-RetryIndexed now ref p q true waits h queued e =
        let (u, removed, last_) = >>=-eq-ok (heap_remove heap (p.insts ref).index p) _ e in
        let r = heap_remove-Removed heap law (p.insts ref).index ref p u (queued refl) h removed in
        let (retry, insts, ready) = reset_timer-fields now u in
        subst (λ (q : Pool). RetryIndexed q × (is_some (q.insts ref).retry_time ≡ false))
          (ok-injective last_)
          (
            make_ready-RetryIndexed ref (reset_timer now u)
                (λ k f. r.absent k (ap (λ l. get_elem? l k) (sym retry) ∙ f))
                (reset_timer-RetryIndexed now u r.indexed),
            make_ready-untimed ref (reset_timer now u),
          )

    -- A success that is reported for an instance that is ready, or that stands in the queue at its
    -- index, leaves every instance of the retry queue with a retry time and with its own place in the
    -- queue as its index, and the instance itself without a retry time.
    pub succeeded-RetryIndexed :
        (now ref : ℕ) (p q : Pool)
        → RetryIndexed p
        → (is_some (p.insts ref).retry_time ≡ true
            → get_elem? p.retry (p.insts ref).index ≡ some ref)
        → succeeded heap now ref p ≡ ok q
        → RetryIndexed q × (is_some (q.insts ref).retry_time ≡ false)
    unfolding succeeded write
    succeeded-RetryIndexed now ref p q h queued e =
        restored-RetryIndexed now ref (write ref (record (p.insts ref) { failures = 0 }) p) q _ refl
          (λ k r f. ground (arith, h k r f)) (λ waits. ground (arith, queued, waits)) e

    -- No instance at the head of the queue is due.
    abbrev pub IsServed : ℕ → Pool → Type 0
    IsServed now p =
        (ref : ℕ) → get_elem? p.retry 0 ≡ some ref → due heap now (p.insts ref).retry_time ≡ false

    retries_loop-IsServed :
        (rounds now : ℕ) (p q : Pool)
        → RetryIndexed p
        → length p.retry ≤ rounds
        → retries_loop heap rounds now p ≡ ok q
        → RetryIndexed q × IsServed now q
    unfolding retries_loop
    retries_loop-IsServed zero now p q h short e =
        subst (λ (q : Pool). RetryIndexed q × IsServed now q) (ok-injective e)
          (h, λ ref f. absurd (omega (arith, get_elem?-lt_length p.retry 0 ref f)))
    retries_loop-IsServed (suc rounds) now p q h short e =
        by_head p.retry refl e (retries_loop-IsServed rounds now)
      where
        by_due :
            (ref : ℕ) (b : Bool)
            → get_elem? p.retry 0 ≡ some ref
            → due heap now (p.insts ref).retry_time ≡ b
            → (elim b [
              | false ↦ ok p
              | true ↦ heap_remove heap 0 p >>= λ q. retries_loop heap rounds now (make_ready ref q)
            ])
              ≡ ok q
            → ((p q : Pool)
                → RetryIndexed p
                → length p.retry ≤ rounds
                → retries_loop heap rounds now p ≡ ok q
                → RetryIndexed q × IsServed now q)
            → RetryIndexed q × IsServed now q
        by_due ref false head waits e again =
            subst (λ (q : Pool). RetryIndexed q × IsServed now q) (ok-injective e)
              (h, λ r f. ground (arith, head, f, waits))
        by_due ref true head is_due e again =
            let (u, removed, rest) = >>=-eq-ok (heap_remove heap 0 p) _ e in
            let r = heap_remove-Removed heap law 0 ref p u head h removed in
            again (make_ready ref u) q (make_ready-RetryIndexed ref u r.absent r.indexed)
              (ground (arith, r.size, short, make_ready-retry ref u)) rest

        by_head :
            (l : List ℕ)
            → p.retry ≡ l
            → (elim l [
              | [] ↦ ok p
              | ref ∷ refs ↦ elim (due heap now (p.insts ref).retry_time) [
                | false ↦ ok p
                | true ↦
                    heap_remove heap 0 p >>= λ q. retries_loop heap rounds now (make_ready ref q)
              ]
            ])
              ≡ ok q
            → ((p q : Pool)
                → RetryIndexed p
                → length p.retry ≤ rounds
                → retries_loop heap rounds now p ≡ ok q
                → RetryIndexed q × IsServed now q)
            → RetryIndexed q × IsServed now q
        by_head [] empty e again =
            subst (λ (q : Pool). RetryIndexed q × IsServed now q) (ok-injective e)
              (h, λ r f. ground (arith, empty, f))
        by_head (ref ∷ refs) at_head e again =
            by_due ref (due heap now (p.insts ref).retry_time) (ap (λ l. get_elem? l 0) at_head)
              refl e again

    -- The loop of processRetries, which has as many rounds as the queue is long, ends by its own test:
    -- afterwards the instance at the head of the queue is not due, and every instance of the queue has
    -- a retry time and its own place as its index.
    pub process_retries-IsServed :
        (now : ℕ) (p q : Pool)
        → RetryIndexed p
        → process_retries heap now p ≡ ok q
        → RetryIndexed q × IsServed now q
    unfolding process_retries
    process_retries-IsServed now p q h e =
        let (u, looped, last_) = >>=-eq-ok (retries_loop heap (length p.retry) now p) _ e in
        let (indexed, served) =
          retries_loop-IsServed (length p.retry) now p u h (omega arith) looped in
        let (retry, insts, ready) = reset_timer-fields now u in
        subst (λ (q : Pool). RetryIndexed q × IsServed now q) (ok-injective last_)
          (
            reset_timer-RetryIndexed now u indexed,
            λ ref f.
                subst (λ (g : ℕ → PooledInstance). due heap now (g ref).retry_time ≡ false)
                  (sym insts) (served ref (ap (λ l. get_elem? l 0) (sym retry) ∙ f)),
          )
