-- ===== src/Balancer/Pool.antt =====
-- balancer/forwarder/pool.go: the instances of a forwarder, those that are ready for connections and
-- those that wait to be retried. An instance is a pointer in Go: here a number, under which the pool
-- holds the struct. The package container/heap is known by the swaps that it makes; rng.Intn and the
-- clock are arguments. Times are in nanoseconds.
pub mod Calls
pub mod Updating
pub mod Slices
pub mod Indices
pub mod Removal
pub mod Retries
pub mod Failing
pub mod Updates
mod Tests
use ambergreen.Common.{
  ℕ, zero, suc, ◌+◌, ◌-◌, ◌*◌, ◌^◌, ◌%◌, String, Bool, true, false, not, ◌&&◌, Option, none, some,
  List, [], ◌∷◌, ◌++◌, Run, ok, panic, ◌>>=◌, length, get_elem?, set, ltb, leb, nat_eq, ◌==◌,
  string_eq, is_some, if◌then◌else◌,
}
use ambergreen.GoMap
use ambergreen.GoMap.{Map}
use ambergreen.Net.{IpPort}

abbrev pub retry_interval_base : ℕ
retry_interval_base = 1000000000

-- `none` is the zero time.
pub record PooledInstance : Type 0 where
  pub name : String
  pub address : IpPort
  pub index : ℕ
  pub failures : ℕ
  pub retry_time : Option ℕ

pub data Timer : Type 0 where
  no_timer : Timer
  fires_at : ℕ → Timer
  -- after 24 hours
  idle : Timer

pub record Pool : Type 0 where
  pub insts : ℕ → PooledInstance
  pub next : ℕ
  pub ready : List ℕ
  pub retry : List ℕ
  pub timer : Timer

-- The swaps of retryQueue that heap.Init makes, heap.Push after its Push, and heap.Remove before its
-- Pop; heap.Pop is heap.Remove at 0.
pub record Heap : Type 0 where
  pub init_swaps : Pool → List (ℕ × ℕ)
  pub push_swaps : Pool → List (ℕ × ℕ)
  pub remove_swaps : ℕ → Pool → List (ℕ × ℕ)

unfoldable pub write : ℕ → PooledInstance → Pool → Pool
write ref inst p = record p { insts = λ r. if nat_eq ref r then inst else p.insts r }

unfoldable pub set_index : ℕ → ℕ → Pool → Pool
unfolding write
set_index ref i p = write ref (record (p.insts ref) { index = i }) p

-- `l[len(l)-1]` and `l[:len(l)-1]`
unfoldable pub last : List ℕ → Option ℕ
last [] = none
last (r ∷ rs) = elim (last rs) [ none ↦ some r | some l ↦ some l ]

unfoldable pub but_last : List ℕ → List ℕ
but_last [] = []
but_last (r ∷ []) = []
but_last (r ∷ q ∷ rs) = r ∷ but_last (q ∷ rs)

-- retryQueue.Less; the zero time is before every other.
abbrev pub before : Option ℕ → Option ℕ → Bool
before none none = false
before none (some t) = true
before (some t) none = false
before (some s) (some t) = ltb s t

unfoldable pub less : ℕ → ℕ → Pool → Run Bool
less i j p = elim (get_elem? p.retry i) [
  | none ↦ panic
  | some a ↦ elim (get_elem? p.retry j) [
    | none ↦ panic
    | some b ↦ ok (before (p.insts a).retry_time (p.insts b).retry_time)
  ]
]

-- retryQueue.Swap, given the two elements.
unfoldable pub swapped : ℕ → ℕ → ℕ → ℕ → Pool → Pool
unfolding set_index write
swapped i j a b p = set_index b i (set_index a j (record p { retry = set (set p.retry i b) j a }))

abbrev swap_found : ℕ → ℕ → Pool → Option ℕ → Option ℕ → Run Pool
swap_found i j p none b = panic
swap_found i j p (some a) none = panic
swap_found i j p (some a) (some b) = ok (swapped i j a b p)

unfoldable pub swap : ℕ → ℕ → Pool → Run Pool
unfolding swapped
swap i j p = swap_found i j p (get_elem? p.retry i) (get_elem? p.retry j)

unfoldable pub swap_all : List (ℕ × ℕ) → Pool → Run Pool
unfolding swap
swap_all [] p = ok p
swap_all ((i, j) ∷ swaps) p = swap i j p >>= swap_all swaps

-- retryQueue.Push and retryQueue.Pop
unfoldable pub queue_push : ℕ → Pool → Pool
unfolding set_index write
queue_push ref p =
    let q = set_index ref (length p.retry) p in record q { retry = q.retry ++ ref ∷ [] }

abbrev queue_popped : Pool → Option ℕ → Run Pool
queue_popped p none = panic
queue_popped p (some ref) = ok (record p { retry = but_last p.retry })

unfoldable pub queue_pop : Pool → Run Pool
unfolding but_last last
queue_pop p = queue_popped p (last p.retry)

-- `delay := (1 << inst.failures) * retry_interval_base`, of 64 bits.
unfoldable pub delay : ℕ → ℕ
delay failures = (2 ^ failures * retry_interval_base) % 2 ^ 64

-- `now.Add(d)` for a duration of 64 bits with its sign.
unfoldable pub add_duration : ℕ → ℕ → ℕ
add_duration now d = if ltb d (2 ^ 63) then now + d else now + d - 2 ^ 64

unfoldable pub reschedule : ℕ → ℕ → Pool → Pool
unfolding write delay add_duration
reschedule now ref p =
    let inst = p.insts ref in
    write ref
      (record inst {
        failures = inst.failures + 1;
        retry_time = some (add_duration now (delay inst.failures));
      })
      p

unfoldable pub reset_timer : ℕ → Pool → Pool
reset_timer now p = elim p.retry [
  | [] ↦ elim p.timer [
    | no_timer ↦ p
    | fires_at t ↦ record p { timer = idle }
    | idle ↦ record p { timer = idle }
  ]
  | ref ∷ refs ↦ elim (p.insts ref).retry_time [
    | none ↦ record p { timer = fires_at 0 }
    | some t ↦ record p { timer = fires_at t }
  ]
]

-- `p.ready[inst.index] = p.ready[len(p.ready)-1]`, and the slice without its last element.
unfoldable pub take_ready : ℕ → List ℕ → Option ℕ → Run (List ℕ)
unfolding but_last
take_ready i ready none = panic
take_ready i ready (some l) = if ltb i (length ready) then ok (but_last (set ready i l)) else panic

-- The instance is ready again.
unfoldable pub make_ready : ℕ → Pool → Pool
unfolding write
make_ready ref p =
    let q = write ref (record (p.insts ref) { retry_time = none; index = length p.ready }) p in
    record q { ready = q.ready ++ ref ∷ [] }
