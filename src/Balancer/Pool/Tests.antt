-- ===== src/Balancer/Pool/Tests.antt =====
-- Runs of a pool with two instances, and of one whose only instance waits.
use ambergreen.Common.{
  ℕ, zero, suc, ◌+◌, ◌-◌, ◌*◌, ◌^◌, ◌≤◌, ◌<◌, ◌≡◌, ◌≢◌, refl, sym, ◌∙◌, false, Option, none, some,
  [], ◌∷◌, Run, ok, panic, length, get_elem?, set, is_some, arith, subst, ◌>>=◌, ok-injective,
}
use ambergreen.Balancer.Pool.{
  Heap, Pool, PooledInstance, add_duration, but_last, delay, last, make_ready, no_timer, queue_pop,
  queue_push, reschedule, reset_timer, retry_interval_base, set_index, swap, swap_all, swap_found,
  swapped, take_ready, write,
}
use ambergreen.Balancer.Pool.Calls.{
  fail, failed, heap_push, heap_remove, process_retries, restored, retries_loop, succeeded,
}
use ambergreen.Balancer.Pool.Updating.{add_insts, keep_inst, keep_insts, update_instances, updated}
use ambergreen.Balancer.Pool.Slices.{get_elem?-last, get_elem?-lt_length, get_elem?-set, length-set}
use ambergreen.Balancer.Pool.Indices.{ReadyIndexed, RetryIndexed}
use ambergreen.Balancer.Pool.Removal.{Removes}
use ambergreen.Balancer.Pool.Retries.{
  failed-RetryIndexed, succeeded-RetryIndexed, process_retries-IsServed, IsServed,
}
use ambergreen.Balancer.Pool.Failing.{reschedule-retry_time, fail-misindexes}
use ambergreen.Balancer.Pool.Updates.{update_instances-Indexed}

abbrev fresh : ℕ → PooledInstance
fresh i = record {
  name = "web";
  address = record { ip = "10.0.0.1"; port = 80 };
  index = i;
  failures = 0;
  retry_time = none;
}

abbrev two_ready : Pool
two_ready = record { insts = fresh; next = 2; ready = 0 ∷ 1 ∷ []; retry = []; timer = no_timer }

-- The element that is removed is swapped with the last one.
abbrev to_the_end : Heap
to_the_end = record {
  init_swaps = λ p. [];
  push_swaps = λ p. [];
  remove_swaps = λ i p. (i, length p.retry - 1) ∷ [];
}

swapped-last :
    (i a b : ℕ) (p q : Pool)
    → get_elem? p.retry i ≡ some a
    → get_elem? p.retry (length p.retry - 1) ≡ some b
    → swapped i (length p.retry - 1) a b p ≡ q
    → last q.retry ≡ some a
unfolding swapped set_index write
swapped-last i a b p q at_i at_end e =
    subst (λ (q : Pool). last q.retry ≡ some a) e
      (get_elem?-last (set (set p.retry i b) (length p.retry - 1) a)
        ∙ ground (
          arith,
          at_end,
          get_elem?-lt_length p.retry (length p.retry - 1) b at_end,
          length-set (set p.retry i b) (length p.retry - 1) a,
          length-set p.retry i b,
          get_elem?-set (set p.retry i b) (length p.retry - 1) a (length p.retry - 1),
          get_elem?-set p.retry i b (length p.retry - 1),
        ))

law : Removes to_the_end
unfolding swap_all swap
law i p q e = found (get_elem? p.retry i) (get_elem? p.retry (length p.retry - 1)) refl refl e
  where
    found :
        (a b : Option ℕ)
        → get_elem? p.retry i ≡ a
        → get_elem? p.retry (length p.retry - 1) ≡ b
        → (swap_found i (length p.retry - 1) p a b >>= swap_all []) ≡ ok q
        → last q.retry ≡ get_elem? p.retry i
    found none b ha hb e = absurd (ground (arith, e))
    found (some a) none ha hb e = absurd (ground (arith, e))
    found (some a) (some b) ha hb e = swapped-last i a b p q ha hb (ok-injective e) ∙ sym ha

none_waits : RetryIndexed two_ready
none_waits k r e = cc

both_ready : ReadyIndexed two_ready
both_ready zero r e = ground (arith, e)
both_ready (suc zero) r e = ground (arith, e)
both_ready (suc (suc k)) r e = cc

abbrev one_failed : Pool
one_failed = reset_timer 5 (queue_push 0 (reschedule 5 0 (record two_ready { ready = 1 ∷ [] })))

fails : failed to_the_end 5 0 two_ready ≡ ok one_failed
unfolding failed fail take_ready heap_push last but_last swap_all
fails = refl

failed-RetryIndexed_example : RetryIndexed one_failed
failed-RetryIndexed_example =
    failed-RetryIndexed to_the_end 5 0 two_ready one_failed none_waits fails

abbrev the_success : Run Pool
the_success = succeeded to_the_end 9 0 one_failed

abbrev pool_of : Run Pool → Pool
pool_of (ok p) = p
pool_of panic = two_ready

succeeds : the_success ≡ ok (pool_of the_success)
unfolding succeeded restored heap_remove write reset_timer make_ready swap_all swap swapped
    queue_pop last but_last set_index queue_push reschedule
succeeds = refl

queued : get_elem? one_failed.retry (one_failed.insts 0).index ≡ some 0
unfolding reset_timer queue_push set_index write reschedule
queued = refl

succeeded-RetryIndexed_example :
    RetryIndexed (pool_of the_success)
    × (is_some ((pool_of the_success).insts 0).retry_time ≡ false)
succeeded-RetryIndexed_example =
    succeeded-RetryIndexed to_the_end law 9 0 one_failed (pool_of the_success)
      failed-RetryIndexed_example (λ waits. queued) succeeds

-- At the time 2 000 000 000 the failed instance is due.
abbrev the_round : Run Pool
the_round = process_retries to_the_end 2000000000 one_failed

rounds : the_round ≡ ok (pool_of the_round)
unfolding process_retries retries_loop heap_remove write reset_timer make_ready swap_all swap
    swapped queue_pop last but_last set_index queue_push reschedule delay add_duration
rounds = refl

process_retries-IsServed_example :
    RetryIndexed (pool_of the_round) × IsServed to_the_end law 2000000000 (pool_of the_round)
process_retries-IsServed_example =
    process_retries-IsServed to_the_end law 2000000000 one_failed (pool_of the_round)
      failed-RetryIndexed_example rounds

few : (two_ready.insts 0).failures ≤ 33
few = omega arith

reschedule-retry_time_example :
    ((reschedule 5 0 two_ready).insts 0).retry_time
    ≡ some (5 + 2 ^ (two_ready.insts 0).failures * retry_interval_base)
reschedule-retry_time_example = reschedule-retry_time 5 0 two_ready few

fails_directly : fail to_the_end 5 0 two_ready ≡ ok one_failed
unfolding fail take_ready heap_push last but_last swap_all
fails_directly = refl

inside : 0 + 1 < length two_ready.ready
inside = omega arith

fail-misindexes_example : (get_elem? one_failed.ready 0 ≡ some 1) × ((one_failed.insts 1).index ≢ 0)
fail-misindexes_example =
    fail-misindexes to_the_end 5 0 0 1 two_ready one_failed none_waits both_ready refl refl inside
      fails_directly

abbrev the_update : Run Pool
the_update =
    update_instances to_the_end 7 (("db", record { ip = "10.0.0.2"; port = 81 }) ∷ []) two_ready

updates : the_update ≡ ok (pool_of the_update)
unfolding update_instances updated keep_insts keep_inst add_insts swap_all reset_timer
updates = refl

both_known : (k r : ℕ) → get_elem? two_ready.ready k ≡ some r → r < two_ready.next
both_known zero r e = ground (arith, e)
both_known (suc zero) r e = ground (arith, e)
both_known (suc (suc k)) r e = cc

none_known : (k r : ℕ) → get_elem? two_ready.retry k ≡ some r → r < two_ready.next
none_known k r e = cc

update_instances-Indexed_example :
    RetryIndexed (pool_of the_update) × ReadyIndexed (pool_of the_update)
update_instances-Indexed_example =
    update_instances-Indexed to_the_end 7 (("db", record { ip = "10.0.0.2"; port = 81 }) ∷ [])
      two_ready (pool_of the_update) both_known none_known updates
