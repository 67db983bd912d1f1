-- ===== src/Balancer/Pool/Calls.antt =====
-- balancer/forwarder/pool.go: the calls that pick an instance, report on one, and retry those that are
-- due.
use ambergreen.Common.{
  ℕ, zero, suc, Bool, true, false, Option, none, some, List, [], ◌∷◌, Run, ok, panic, ◌>>=◌, length,
  get_elem?, leb, nat_eq, string_eq, is_some, if◌then◌else◌,
}
use ambergreen.Balancer.Pool.{
  Pool, Heap, write, last, swap_all, queue_push, queue_pop, reschedule, reset_timer, take_ready,
  make_ready,
}

module _ (heap : Heap) where
  unfoldable pub heap_push : ℕ → Pool → Run Pool
  unfolding queue_push swap_all
  heap_push ref p = let q = queue_push ref p in swap_all (heap.push_swaps q) q

  unfoldable pub heap_remove : ℕ → Pool → Run Pool
  unfolding swap_all queue_pop
  heap_remove i p = swap_all (heap.remove_swaps i p) p >>= queue_pop

  unfoldable pub fail : ℕ → ℕ → Pool → Run Pool
  unfolding take_ready last reschedule heap_push reset_timer
  fail now ref p = take_ready (p.insts ref).index p.ready (last p.ready) >>= λ ready.
      heap_push ref (reschedule now ref (record p { ready = ready })) >>= λ q.
      ok (reset_timer now q)

  -- `l[p.rng.Intn(len(l))]`
  abbrev choose : (ℕ → ℕ) → List ℕ → Run ℕ
  choose intn l = elim (get_elem? l (intn (length l))) [ none ↦ panic | some ref ↦ ok ref ]

  unfoldable pub pick_instance : (ℕ → ℕ) → ℕ → Pool → Run (Pool × Option ℕ)
  unfolding fail
  pick_instance intn now p = elim p.ready [
    | [] ↦ elim p.retry [
      | [] ↦ ok (p, none)
      | r ∷ rs ↦ choose intn p.retry >>= λ ref. ok (p, some ref)
    ]
    | r ∷ rs ↦ choose intn p.ready >>= λ ref.
        if nat_eq (p.insts ref).failures 0
        then ok (p, some ref)
        else (fail now ref p >>= λ q. ok (q, some ref))
  ]

  -- The end of Succeeded, given whether the instance has a retry time.
  unfoldable pub restored : ℕ → ℕ → Pool → Bool → Run Pool
  restored now ref p false = ok p
  restored now ref p true =
      heap_remove (p.insts ref).index p >>= λ q. ok (make_ready ref (reset_timer now q))

  unfoldable pub succeeded : ℕ → ℕ → Pool → Run Pool
  unfolding write restored heap_remove reset_timer make_ready
  succeeded now ref p =
      let q = write ref (record (p.insts ref) { failures = 0 }) p in
      restored now ref q (is_some (q.insts ref).retry_time)

  unfoldable pub failed : ℕ → ℕ → Pool → Run Pool
  unfolding fail
  failed now ref p = if is_some (p.insts ref).retry_time then ok p else fail now ref p

  -- `!now.Before(p.retry[0].retryTime)`
  abbrev pub due : ℕ → Option ℕ → Bool
  due now none = true
  due now (some t) = leb t now

  -- The loop of processRetries; each round takes one from the queue.
  unfoldable pub retries_loop : ℕ → ℕ → Pool → Run Pool
  unfolding heap_remove make_ready
  retries_loop zero now p = ok p
  retries_loop (suc rounds) now p = elim p.retry [
    | [] ↦ ok p
    | ref ∷ refs ↦ elim (due now (p.insts ref).retry_time) [
      | false ↦ ok p
      | true ↦ heap_remove 0 p >>= λ q. retries_loop rounds now (make_ready ref q)
    ]
  ]

  unfoldable pub process_retries : ℕ → Pool → Run Pool
  unfolding retries_loop reset_timer
  process_retries now p = retries_loop (length p.retry) now p >>= λ q. ok (reset_timer now q)
