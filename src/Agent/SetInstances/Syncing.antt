-- ===== src/Agent/SetInstances/Syncing.antt =====
-- About the instances that an update leaves in the store.
use ambergreen.Common.{
  String, ◌≡◌, ap, sym, ◌∙◌, true, Option, none, ok, for_each, string_eq, if◌then◌else◌, arith,
}
use ambergreen.GoMap
use ambergreen.GoMap.{Map, Unique, AllEntries}
use ambergreen.Net.{Ip, Platform}
use ambergreen.Store.Data.{Instance}
use ambergreen.Store.InMemState.{InMem}
use ambergreen.Store.InMem.{map_at, make_service_info, infos, get_all_services}
use ambergreen.Store.InMem.Calls.{IsAligned}
use ambergreen.Store.InMem.Ending.{instance_at}
use ambergreen.Store.InMem.Reads.{lookup-details_of}
use ambergreen.Store.InMem.Listing.{infos-lookup, infos-Unique, infos-AllEntries, no_instances}
use ambergreen.Agent.SyncState.{InstanceKey, instance_key_eq, InstanceUpdate}
use ambergreen.Agent.SetInstances.{
  SetInstances, only_instances, process_reset, set_change, process_update,
}
use ambergreen.Agent.SetInstances.Pruning.{
  key_of, written, kept, for_each-written, stale_in, prune_services-at,
}

module _ (p : Platform) (host_ip : Ip) where
  stale_in-infos :
      (updates : Map InstanceKey (Option Instance)) (s : InMem) (n i : String)
      → IsAligned s
      → (if stale_in p host_ip updates n i
            (GoMap.lookup n (infos (only_instances p host_ip) s s.services))
          then none
          else instance_at s n i)
        ≡ kept p host_ip (GoMap.lookup (key_of n i) updates) (instance_at s n i)
  unfolding make_service_info
  stale_in-infos updates s n i aligned = ground (
    arith,
    infos-lookup (only_instances p host_ip) s s.services n,
    lookup-details_of i (map_at n s.instances),
    no_instances s n i aligned,
  )

  process_reset-at :
      (update : InstanceUpdate) (si : SetInstances) (n i : String)
      → si.store.injected_error ≡ none
      → IsAligned si.store
      → Unique si.store.services
      → ((name : String) → Unique (map_at name si.store.instances))
      → instance_at (process_reset p host_ip update si).store n i
        ≡ kept p host_ip (GoMap.lookup (key_of n i) update.instances) (instance_at si.store n i)
  unfolding process_reset get_all_services
  process_reset-at update si n i fine aligned u us =
      let svcs = infos (only_instances p host_ip) si.store si.store.services in
      rw (fine, process_reset)
        (prune_services-at p host_ip update.instances svcs si n i
            (infos-Unique (only_instances p host_ip) si.store si.store.services u)
            (infos-AllEntries (only_instances p host_ip) si.store si.store.services us)
          ∙ stale_in-infos update.instances si.store n i aligned)

  -- After an update with a reset that does not panic, on a store without an injected error whose four
  -- maps agree on the services, and where no key of a map stands twice: an instance that the update
  -- sets is in the store under the agent's session, one that it names as gone is not there, and of the
  -- others exactly those of this host are gone.
  pub process_update-written :
      (session : String) (update : InstanceUpdate) (si t : SetInstances)
      → update.reset ≡ true
      → si.store.injected_error ≡ none
      → IsAligned si.store
      → Unique si.store.services
      → ((name : String) → Unique (map_at name si.store.instances))
      → Unique update.instances
      → process_update p host_ip session update si ≡ ok t
      → (n i : String)
      → instance_at t.store n i
        ≡ written session
            (GoMap.lookup (key_of n i) update.instances)
            (kept p host_ip (GoMap.lookup (key_of n i) update.instances) (instance_at si.store n i))
  unfolding process_update
  process_update-written session update si t reset fine aligned u us v e n i =
      for_each-written p host_ip session n i update.instances (process_reset p host_ip update si) t
        v
        (ap
            (λ b.
              for_each (set_change p host_ip session) update.instances
                (if b then process_reset p host_ip update si else si))
            (sym reset)
          ∙ e)
      ∙ ap (written session (GoMap.lookup (key_of n i) update.instances))
          (process_reset-at update si n i fine aligned u us)
