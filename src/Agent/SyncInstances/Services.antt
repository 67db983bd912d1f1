-- ===== src/Agent/SyncInstances/Services.antt =====
-- What removeService keeps.
use ambergreen.Common.{
  String, ◌≡◌, refl, sym, ◌∙◌, Bool, true, false, Option, none, some, string_eq, is_some, arith,
  inl, inr, Bool-cases,
}
use ambergreen.GoMap
use ambergreen.GoMap.{Map, AllEntries, keys, values, contains}
use ambergreen.Store.Data.{Instance}
use ambergreen.Agent.SyncState.{
  InstanceKey, instance_key_eq, SyncService, SyncInstances, entries, on_entries,
}
use ambergreen.Agent.SyncInstances.{
  set_services, drop_from_containers, instances_of, remove_service, remove_service_found,
}
use ambergreen.Agent.SyncInstances.Views.{Synced, IsNamed}
use ambergreen.Agent.SyncInstances.Keeping.{Running}
use ambergreen.Agent.SyncInstances.Dropping.{
  drop_from_containers-Written, consume-drop_from_containers, view-delete, view-instances_of,
  view-Written,
}

module _ (v : InstanceKey → Option Instance) (r bs bc : Bool) where
  abbrev gone : String → SyncInstances → SyncInstances
  gone name = set_services (GoMap.delete name)

  gone-IsNamed :
      (name : String) (s : SyncInstances) → IsNamed s.services → IsNamed (gone name s).services
  unfolding set_services
  gone-IsNamed name s h = by_map s.services h
    where
      by_map :
          (m : Option (Map String SyncService))
          → IsNamed m
          → IsNamed (on_entries (GoMap.delete name) m)
      by_map none h = tt
      by_map (some m) h = GoMap.AllEntries-delete (λ n s. s.name ≡ n) name m h

  -- Where no containers are known the service held no instance.
  gone-Running :
      (name : String) (s : SyncInstances)
      → bc ≡ false
      → Running v r bs bc s
      → Running v r bs bc (gone name s)
  unfolding set_services
  gone-Running name s b run = record {
    synced = λ key. ground (arith, run.synced key, run.idle b key, view-delete name s key);
    named = gone-IsNamed name s run.named;
    idle = λ q key. ground (arith, run.idle b key, view-delete name s key);
    reset = run.reset;
    services = ground (arith, run.services);
    containers = run.containers;
  }

  dropped-Synced :
      (name : String) (s : SyncInstances) (svc : SyncService)
      → GoMap.lookup name (entries s.services) ≡ some svc
      → Synced v s
      → Synced v (drop_from_containers name (keys svc.instances) (gone name s))
  unfolding set_services instances_of
  dropped-Synced name s svc q synced key = ground (
    arith,
    consume-drop_from_containers v name key (keys svc.instances) (gone name s),
    view-Written (gone name s) (drop_from_containers name (keys svc.instances) (gone name s)) key
        (drop_from_containers-Written name (keys svc.instances) (gone name s)),
    view-delete name s key,
    view-instances_of name s key,
    GoMap.contains-keys key.instance_name svc.instances,
    synced key,
  )

  dropped-Running :
      (name : String) (s : SyncInstances) (svc : SyncService)
      → GoMap.lookup name (entries s.services) ≡ some svc
      → is_some s.containers ≡ true
      → Running v r bs bc s
      → Running v r bs bc (drop_from_containers name (keys svc.instances) (gone name s))
  unfolding set_services
  dropped-Running name s svc q c run =
      let w = drop_from_containers-Written name (keys svc.instances) (gone name s) in
      record {
        synced = dropped-Synced name s svc q run.synced;
        named = rw w.services (gone-IsNamed name s run.named);
        idle = λ b. cc (sym run.containers ∙ c);
        reset = w.reset ∙ run.reset;
        services = ground (arith, w.services, run.services);
        containers = w.containers ∙ run.containers;
      }

  pub remove_service-Running :
      (name : String) (s : SyncInstances)
      → Running v r bs bc s
      → Running v r bs bc (remove_service name s)
  unfolding remove_service
  remove_service-Running name s run = found (GoMap.lookup name (entries s.services)) refl
    where
      found :
          (c : Option SyncService)
          → GoMap.lookup name (entries s.services) ≡ c
          → Running v r bs bc (remove_service_found name s c)
      found none q = run
      found (some svc) q = elim (Bool-cases (is_some s.containers)) [
        | inl c ↦ rw c (dropped-Running name s svc q c run)
        | inr c ↦ rw c (gone-Running name s (sym run.containers ∙ c) run)
      ]
