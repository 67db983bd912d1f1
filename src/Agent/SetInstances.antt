-- ===== src/Agent/SetInstances.antt =====
-- agent/set_instances.go: writes the agent's instances into the store. The store is the in-memory
-- store with the agent's session, and the error sink is what has been posted to it. Logging is left
-- out.
pub mod Pruning
pub mod Syncing
mod Tests
use ambergreen.Common.{
  String, Bool, true, false, not, ◌||◌, Option, none, some, List, [], ◌∷◌, ◌++◌, Run, ok, ◌>>=◌,
  for_each, string_eq, is_some, if◌then◌else◌,
}
use ambergreen.GoMap
use ambergreen.GoMap.{Map}
use ambergreen.Net.{Ip, Platform}
use ambergreen.Store.Data.{Instance, ServiceInfo, QueryServiceOptions}
use ambergreen.Store.InMemState.{StoreError, InMem}
use ambergreen.Store.InMem
use ambergreen.Store.InMem.{Reply}
use ambergreen.Store.InMem.Session
use ambergreen.Agent.SyncState.{InstanceKey, instance_key_eq, InstanceUpdate}

pub record SetInstances : Type 0 where
  pub store : InMem
  pub errors : List StoreError

-- A nil error is not posted.
abbrev post : Option StoreError → List StoreError → List StoreError
post none errors = errors
post (some err) errors = errors ++ err ∷ []

abbrev posted : List StoreError → Reply → SetInstances
posted errors (s, err) = record { store = s; errors = post err errors }

unfoldable pub remove_instance : InstanceKey → SetInstances → SetInstances
remove_instance key si =
    posted si.errors (InMem.remove_instance key.service key.instance_name si.store)

-- `update.Instances[key] == nil` fails.
abbrev is_set : Option (Option Instance) → Bool
is_set none = false
is_set (some inst) = is_some inst

module _ (p : Platform) (host_ip : Ip) where
  -- The inner loop of processReset, over the instances of a service.
  unfoldable pub prune_instances :
      Map InstanceKey (Option Instance) → String → Map String Instance → SetInstances → SetInstances
  prune_instances updates svc_name [] si = si
  prune_instances updates svc_name ((inst_name, inst) ∷ m) si =
      let key : InstanceKey = record { service = svc_name; instance_name = inst_name } in
      prune_instances updates svc_name m (
        if not (p.ip_equal host_ip inst.host.ip) || is_set (GoMap.lookup key updates)
        then si
        else remove_instance key si)

  unfoldable pub prune_services :
      Map InstanceKey (Option Instance) → Map String ServiceInfo → SetInstances → SetInstances
  prune_services updates [] si = si
  prune_services updates ((svc_name, svc) ∷ svcs) si =
      prune_services updates svcs (prune_instances updates svc_name svc.instances si)

  abbrev only_instances : QueryServiceOptions
  only_instances = record {
    with_instances = true;
    with_container_rules = false;
    with_ingress_instances = false;
  }

  unfoldable pub process_reset : InstanceUpdate → SetInstances → SetInstances
  process_reset update si =
      let (svcs, err) = InMem.get_all_services only_instances si.store in
      elim err [
        | none ↦ prune_services update.instances svcs si
        | some e ↦ posted si.errors (si.store, some e)
      ]

  -- One round of the loop of processUpdate.
  unfoldable pub set_change :
      String → InstanceKey × Option Instance → SetInstances → Run SetInstances
  set_change session (key, none) si = ok (remove_instance key si)
  set_change session (key, some inst) si =
      InMem.add_instance session key.service key.instance_name inst si.store >>= λ reply.
      ok (posted si.errors reply)

  unfoldable pub process_update : String → InstanceUpdate → SetInstances → Run SetInstances
  process_update session update si =
      for_each (set_change session) update.instances
        (if update.reset then process_reset update si else si)

  -- What the component does before its loop, but for the request of a reset.
  unfoldable pub announce : String → SetInstances → SetInstances
  announce session si = record si {
    store = Session.register_host session (p.ip_string host_ip) (record { ip = host_ip }) si.store;
  }

  -- The component, over the updates that it receives until it is stopped.
  unfoldable pub run : String → List InstanceUpdate → SetInstances → Run SetInstances
  unfolding process_update announce
  run session updates si = for_each (process_update session) updates (announce session si)
