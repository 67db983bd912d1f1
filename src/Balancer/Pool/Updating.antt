-- ===== src/Balancer/Pool/Updating.antt =====
-- balancer/forwarder/pool.go: UpdateInstances, which keeps instances that are still wanted and adds
-- new ones.
use ambergreen.Common.{
  ℕ, ◌+◌, String, not, none, some, List, [], ◌∷◌, ◌++◌, Run, ok, ◌>>=◌, length, string_eq,
  if◌then◌else◌,
}
use ambergreen.GoMap
use ambergreen.GoMap.{Map}
use ambergreen.Net.{IpPort}
use ambergreen.Balancer.Pool.{Pool, Heap, write, set_index, swap_all, reset_timer}

module _ (heap : Heap) where
  -- The state of UpdateInstances: what is still wanted, and the new slices.
  pub record Updating : Type 0 where
    pub pool : Pool
    pub wanted : Map String IpPort
    pub new_ready : List ℕ
    pub new_retry : List ℕ

  -- keepInsts
  unfoldable pub keep_inst : ℕ → Updating → Updating
  unfolding set_index write
  keep_inst ref u =
      let inst = u.pool.insts ref in
      if not (GoMap.has inst.name u.wanted) then u else elim inst.retry_time [
        | none ↦ record u {
          pool = set_index ref (length u.new_ready) u.pool;
          wanted = GoMap.delete inst.name u.wanted;
          new_ready = u.new_ready ++ ref ∷ [];
        }
        | some t ↦ record u {
          pool = set_index ref (length u.new_retry) u.pool;
          wanted = GoMap.delete inst.name u.wanted;
          new_retry = u.new_retry ++ ref ∷ [];
        }
      ]

  unfoldable pub keep_insts : List ℕ → Updating → Updating
  unfolding keep_inst
  keep_insts [] u = u
  keep_insts (ref ∷ refs) u = keep_insts refs (keep_inst ref u)

  -- The loop that adds new instances.
  unfoldable pub add_insts : Map String IpPort → Updating → Updating
  unfolding write
  add_insts [] u = u
  add_insts ((name, addr) ∷ m) u = add_insts m (record u {
    pool =
        write u.pool.next
          (record {
            name = name;
            address = addr;
            index = length u.new_ready;
            failures = 0;
            retry_time = none;
          })
          (record (u.pool) { next = u.pool.next + 1 });
    new_ready = u.new_ready ++ u.pool.next ∷ [];
  })

  -- The slices before heap.Init.
  unfoldable pub updated : Map String IpPort → Pool → Updating
  unfolding keep_insts add_insts
  updated instances p =
      let kept = keep_insts p.retry (
        keep_insts p.ready
          (record { pool = p; wanted = instances; new_ready = []; new_retry = [] })) in
      add_insts kept.wanted kept

  unfoldable pub update_instances : ℕ → Map String IpPort → Pool → Run Pool
  unfolding updated swap_all reset_timer
  update_instances now instances p =
      let u = updated instances p in
      let q : Pool = record (u.pool) { ready = u.new_ready; retry = u.new_retry } in
      swap_all (heap.init_swaps q) q >>= λ r. ok (reset_timer now r)
