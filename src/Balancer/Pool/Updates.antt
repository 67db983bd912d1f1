-- ===== src/Balancer/Pool/Updates.antt =====
-- About the slices that UpdateInstances makes.
use ambergreen.Common.{
  ℕ, suc, ◌+◌, ◌<◌, String, ◌≡◌, refl, sym, ap, ◌∙◌, Bool, true, false, not, Option, none, some,
  List, [], ◌∷◌, ◌++◌, ok, >>=-eq-ok, ok-injective, length, get_elem?, nat_eq, string_eq, is_some,
  if◌then◌else◌, arith, subst, inl, inr, Bool-cases,
}
use ambergreen.GoMap
use ambergreen.GoMap.{Map, Unique}
use ambergreen.Net.{IpPort}
use ambergreen.Balancer.Pool.{Heap, Pool, PooledInstance, set_index, swap_all, write}
use ambergreen.Balancer.Pool.Updating.{
  Updating, add_insts, keep_inst, keep_insts, update_instances, updated,
}
use ambergreen.Balancer.Pool.Slices.{get_elem?-append}
use ambergreen.Balancer.Pool.Indices.{
  ReadyIndexed, RetryIndexed, reset_timer-ReadyIndexed, reset_timer-RetryIndexed, swap_all-Swapped,
}
use ambergreen.Balancer.Pool.Retries.{ready-Absent}

-- The instance holds the place, and is wanted no longer.
record Held (p : Pool) (m : Map String IpPort) (timed : Bool) (k r : ℕ) : Type 0 where
  index : (p.insts r).index ≡ k
  times : is_some (p.insts r).retry_time ≡ timed
  unwanted : GoMap.has (p.insts r).name m ≡ false
  low : r < p.next

-- Each instance of the slice holds its place in it.
abbrev AllHeld : Pool → Map String IpPort → Bool → List ℕ → Type 0
AllHeld p m timed l = (k r : ℕ) → get_elem? l k ≡ some r → Held p m timed k r

-- An instance that was taken over before keeps its place.
set_index-AllHeld :
    (ref i : ℕ) (p : Pool) (m : Map String IpPort) (timed : Bool) (l : List ℕ)
    → GoMap.has (p.insts ref).name m ≡ true
    → AllHeld p m timed l
    → AllHeld (set_index ref i p) (GoMap.delete (p.insts ref).name m) timed l
unfolding set_index write
set_index-AllHeld ref i p m timed l wanted all k r e =
    let h = all k r e in
    record {
      index = ground (arith, h.index, h.unwanted, wanted);
      times = ground (arith, h.times);
      unwanted = ground (arith, h.unwanted, GoMap.has-delete (p.insts ref).name (p.insts r).name m);
      low = h.low;
    }

set_index-Held :
    (ref i : ℕ) (p : Pool) (m : Map String IpPort) (timed : Bool)
    → ref < p.next
    → is_some (p.insts ref).retry_time ≡ timed
    → Held (set_index ref i p) (GoMap.delete (p.insts ref).name m) timed i ref
unfolding set_index write
set_index-Held ref i p m timed low times = record {
  index = ground arith;
  times = ground (arith, times);
  unwanted = ground (
    arith,
    GoMap.has-delete (p.insts ref).name (p.insts ref).name m,
    string_eq.beq_iff (p.insts ref).name (p.insts ref).name,
  );
  low = low;
}

append-AllHeld :
    (p : Pool) (m : Map String IpPort) (timed : Bool) (l : List ℕ) (ref : ℕ)
    → AllHeld p m timed l
    → Held p m timed (length l) ref
    → AllHeld p m timed (l ++ ref ∷ [])
append-AllHeld p m timed l ref all h k r e = elim (Bool-cases (nat_eq k (length l))) [
  | inl same ↦
      let k_last : length l ≡ k = ground (arith, same) in
      let is_ref : ref ≡ r = ground (arith, e, same, get_elem?-append l ref k) in
      subst (Held p m timed k) is_ref (subst (λ k. Held p m timed k ref) k_last h)
  | inr other ↦ all k r (ground (arith, e, other, get_elem?-append l ref k))
]

module _ (heap : Heap) where
  record Taken (u : Updating heap) : Type 0 where
    ready : AllHeld u.pool u.wanted false u.new_ready
    retry : AllHeld u.pool u.wanted true u.new_retry

  keep_inst-Taken :
      (ref : ℕ) (u : Updating heap) → ref < u.pool.next → Taken u → Taken (keep_inst heap ref u)
  unfolding keep_inst
  keep_inst-Taken ref u low t =
      by_name (GoMap.has (u.pool.insts ref).name u.wanted) (u.pool.insts ref).retry_time refl refl
    where
      kept : Bool → Option ℕ → Updating heap
      kept wanted time = if not wanted then u else elim time [
        | none ↦ record u {
          pool = set_index ref (length u.new_ready) u.pool;
          wanted = GoMap.delete (u.pool.insts ref).name u.wanted;
          new_ready = u.new_ready ++ ref ∷ [];
        }
        | some t ↦ record u {
          pool = set_index ref (length u.new_retry) u.pool;
          wanted = GoMap.delete (u.pool.insts ref).name u.wanted;
          new_retry = u.new_retry ++ ref ∷ [];
        }
      ]

      by_name :
          (wanted : Bool) (time : Option ℕ)
          → GoMap.has (u.pool.insts ref).name u.wanted ≡ wanted
          → (u.pool.insts ref).retry_time ≡ time
          → Taken (kept wanted time)
      by_name false time has at = t
      by_name true none has at = record {
        ready =
            append-AllHeld _ _ false u.new_ready ref
              (set_index-AllHeld ref _ u.pool u.wanted false u.new_ready has t.ready)
              (set_index-Held ref (length u.new_ready) u.pool u.wanted false low (ap is_some at));
        retry = set_index-AllHeld ref _ u.pool u.wanted true u.new_retry has t.retry;
      }
      by_name true (some x) has at = record {
        ready = set_index-AllHeld ref _ u.pool u.wanted false u.new_ready has t.ready;
        retry =
            append-AllHeld _ _ true u.new_retry ref
              (set_index-AllHeld ref _ u.pool u.wanted true u.new_retry has t.retry)
              (set_index-Held ref (length u.new_retry) u.pool u.wanted true low (ap is_some at));
      }

  keep_inst-next : (ref : ℕ) (u : Updating heap) → (keep_inst heap ref u).pool.next ≡ u.pool.next
  unfolding keep_inst set_index write
  keep_inst-next ref u = ground arith

  -- Every reference of the slice is to an instance of the pool.
  abbrev AllKnown : List ℕ → ℕ → Type 0
  AllKnown refs next = (k r : ℕ) → get_elem? refs k ≡ some r → r < next

  keep_insts-Taken :
      (refs : List ℕ) (u : Updating heap)
      → AllKnown refs u.pool.next
      → Taken u
      → Taken (keep_insts heap refs u) × ((keep_insts heap refs u).pool.next ≡ u.pool.next)
  unfolding keep_insts
  keep_insts-Taken [] u known t = (t, refl)
  keep_insts-Taken (ref ∷ refs) u known t =
      let same = keep_inst-next ref u in
      let (taken, next) =
        keep_insts-Taken refs (keep_inst heap ref u)
          (λ k r e. subst (λ n. r < n) (sym same) (known (suc k) r e))
          (keep_inst-Taken ref u (known 0 ref refl) t) in
      (taken, next ∙ same)

  -- An instance at a fresh reference changes no other.
  write-AllHeld :
      (inst : PooledInstance) (p : Pool) (m : Map String IpPort) (timed : Bool) (l : List ℕ)
      → AllHeld p m timed l
      → AllHeld (write p.next inst (record p { next = p.next + 1 })) [] timed l
  unfolding write
  write-AllHeld inst p m timed l all k r e =
      let h = all k r e in
      record {
        index = ground (arith, h.index, h.low);
        times = ground (arith, h.times, h.low);
        unwanted = GoMap.has_nil IpPort _;
        low = ground (arith, h.low);
      }

  added-Held :
      (inst : PooledInstance) (p : Pool)
      → inst.retry_time ≡ none
      → Held (write p.next inst (record p { next = p.next + 1 })) [] false inst.index p.next
  unfolding write
  added-Held inst p untimed = record {
    index = ground arith;
    times = ground (arith, untimed);
    unwanted = GoMap.has_nil IpPort _;
    low = ground arith;
  }

  -- The two slices are in order, and every reference of theirs is to an instance of the pool.
  record Placed (u : Updating heap) : Type 0 where
    ready : AllHeld u.pool [] false u.new_ready
    retry : AllHeld u.pool [] true u.new_retry

  add_insts-Placed :
      (m : Map String IpPort) (u : Updating heap) → Placed u → Placed (add_insts heap m u)
  unfolding add_insts
  add_insts-Placed [] u h = h
  add_insts-Placed ((name, addr) ∷ m) u h =
      let inst : PooledInstance = record {
        name = name;
        address = addr;
        index = length u.new_ready;
        failures = 0;
        retry_time = none;
      } in
      add_insts-Placed m _ (record {
        ready =
            append-AllHeld _ [] false u.new_ready u.pool.next
              (write-AllHeld inst u.pool [] false u.new_ready h.ready)
              (added-Held inst u.pool refl);
        retry = write-AllHeld inst u.pool [] true u.new_retry h.retry;
      })

  forget_wanted :
      (p : Pool) (m : Map String IpPort) (timed : Bool) (l : List ℕ)
      → AllHeld p m timed l
      → AllHeld p [] timed l
  forget_wanted p m timed l all k r e =
      let h = all k r e in
      record { index = h.index; times = h.times; unwanted = GoMap.has_nil IpPort _; low = h.low }

  updated-Placed :
      (instances : Map String IpPort) (p : Pool)
      → AllKnown p.ready p.next
      → AllKnown p.retry p.next
      → Placed (updated heap instances p)
  unfolding updated
  updated-Placed instances p ready retry =
      let u : Updating heap = record {
        pool = p;
        wanted = instances;
        new_ready = [];
        new_retry = [];
      } in
      let (t, next) =
        keep_insts-Taken p.ready u ready (record { ready = λ k r e. cc; retry = λ k r e. cc }) in
      let (t', next') =
        keep_insts-Taken p.retry (keep_insts heap p.ready u)
          (λ k r e. subst (λ n. r < n) (sym next) (retry k r e)) t in
      let kept = keep_insts heap p.retry (keep_insts heap p.ready u) in
      add_insts-Placed kept.wanted kept (record {
        ready = forget_wanted _ _ false _ t'.ready;
        retry = forget_wanted _ _ true _ t'.retry;
      })

  -- An update of the instances that does not panic, of a pool whose slices hold references to its own
  -- instances, leaves every instance of the retry queue with a retry time, every ready instance
  -- without one, and each with its own place as its index; so too when the two slices held some
  -- instance twice, or indices that were wrong.
  pub update_instances-Indexed :
      (now : ℕ) (instances : Map String IpPort) (p q : Pool)
      → AllKnown p.ready p.next
      → AllKnown p.retry p.next
      → update_instances heap now instances p ≡ ok q
      → RetryIndexed q × ReadyIndexed q
  unfolding update_instances
  update_instances-Indexed now instances p q ready retry e =
      let h = updated-Placed instances p ready retry in
      let u = updated heap instances p in
      let v : Pool = record (u.pool) { ready = u.new_ready; retry = u.new_retry } in
      let (w, swaps, end) = >>=-eq-ok (swap_all (heap.init_swaps v) v) _ e in
      let s = swap_all-Swapped (heap.init_swaps v) v w swaps in
      let indexed : RetryIndexed v = λ k r f. ((h.retry k r f).index, (h.retry k r f).times) in
      let ready_too : ReadyIndexed w = λ k r f.
        let held = h.ready k r (ap (λ l. get_elem? l k) (sym s.ready) ∙ f) in
        (
          (s.others r (ready-Absent v r indexed held.times)).0 ∙ held.index,
          ap is_some (s.times r) ∙ held.times,
        ) in
      subst (λ (q : Pool). RetryIndexed q × ReadyIndexed q) (ok-injective end)
        (
          reset_timer-RetryIndexed now w (s.indexed indexed),
          reset_timer-ReadyIndexed now w ready_too,
        )
