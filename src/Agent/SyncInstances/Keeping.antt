-- ===== src/Agent/SyncInstances/Keeping.antt =====
-- What each handler of a single container or service keeps.
use ambergreen.Common.{
  String, ◌≡◌, refl, ◌∙◌, Bool, true, false, Option, none, some, List, [], ◌∷◌, ok, ok-injective,
  string_eq, is_some, arith, inl, inr, Bool-cases, subst,
}
use ambergreen.GoMap
use ambergreen.GoMap.{Map, AllEntries, keys, values, contains}
use ambergreen.Store.Data.{Instance}
use ambergreen.Agent.Container.{Container, SyncConfig}
use ambergreen.Agent.SyncState.{InstanceKey, instance_key_eq, SyncContainer, SyncInstances, entries}
use ambergreen.Agent.SyncInstances.{
  set_containers, drop_from_services, remove_container, remove_container_found, add_container,
  add_container_in,
}
use ambergreen.Agent.SyncInstances.Views.{
  view, Synced, IsNamed, IsNamed-modify, values-Known, drop, drop-Synced, view-drop,
}
use ambergreen.Agent.SyncInstances.Adding.{Added, Added-refl, add_to_services-Added}

-- The state while one event is handled, for a consumer that held `v`: `r` is the reset flag, `bs`
-- and `bc` say whether the services and the containers are known.
pub record Running (v : InstanceKey → Option Instance) (r bs bc : Bool) (si : SyncInstances)
    : Type 0 where
  pub synced : Synced v si
  pub named : IsNamed si.services
  pub idle : bc ≡ false → (key : InstanceKey) → view si key ≡ none
  pub reset : si.update.reset ≡ r
  pub services : is_some si.services ≡ bs
  pub containers : is_some si.containers ≡ bc

module _ (v : InstanceKey → Option Instance) (r bs bc : Bool) where
  Added-Running :
      (s t : SyncInstances) → bc ≡ true → Running v r bs bc s → Added v s t → Running v r bs bc t
  Added-Running s t b run a = record {
    synced = λ key. ground (arith, run.synced key, a.overlay key);
    named = a.named run.named;
    idle = λ q. cc;
    reset = a.reset ∙ run.reset;
    services = a.services ∙ run.services;
    containers = a.containers ∙ run.containers;
  }

  pub add_container-Running :
      (cf : SyncConfig) (cont : Container) (s t : SyncInstances)
      → Running v r bs bc s
      → add_container cf cont s ≡ ok t
      → Running v r bs bc t
  unfolding add_container view
  add_container-Running cf cont s t run e = by_map s.containers refl e
    where
      by_map :
          (cs : Option (Map String SyncContainer))
          → s.containers ≡ cs
          → add_container_in cf cont s cs ≡ ok t
          → Running v r bs bc t
      by_map none q e = subst (Running v r bs bc) (ok-injective e) run
      by_map (some cs) q e = elim (Bool-cases (GoMap.has cont.id cs)) [
        | inl found ↦ subst (Running v r bs bc) (ok-injective (rw found at e)) run
        | inr new ↦ Added-Running s' t (ground (arith, q, run.containers)) s'-run (
            add_to_services-Added cf v s' cont (values (entries s.services)) s' t
              (values-Known s.services run.named) (Added-refl v s') (rw new at e))
      ]
        where
          s' : SyncInstances
          s' = record s {
            containers =
                some (GoMap.insert cont.id (record { container = cont; instances = [] }) cs);
          }

          s'-run : Running v r bs bc s'
          s'-run = record {
            synced = run.synced;
            named = run.named;
            idle = run.idle;
            reset = run.reset;
            services = run.services;
            containers = ground (arith, q, run.containers);
          }

  set_containers-Running :
      (f : Map String SyncContainer → Map String SyncContainer) (s : SyncInstances)
      → Running v r bs bc s
      → Running v r bs bc (set_containers f s)
  unfolding set_containers view
  set_containers-Running f s run = record {
    synced = run.synced;
    named = run.named;
    idle = run.idle;
    reset = run.reset;
    services = run.services;
    containers = ground (arith, run.containers);
  }

  drop-Running :
      (name id : String) (s : SyncInstances)
      → Running v r bs bc s
      → Running v r bs bc (drop name id s)
  unfolding drop
  drop-Running name id s run = record {
    synced = drop-Synced name id v s run.synced;
    named = IsNamed-modify name (GoMap.delete id) s.services run.named;
    idle = λ q key. ground (arith, view-drop name id s key, run.idle q key);
    reset = run.reset;
    services = ground (arith, run.services);
    containers = run.containers;
  }

  drop_from_services-Running :
      (id : String) (names : List String) (s : SyncInstances)
      → Running v r bs bc s
      → Running v r bs bc (drop_from_services id names s)
  unfolding drop_from_services drop
  drop_from_services-Running id [] s run = run
  drop_from_services-Running id (name ∷ names) s run =
      drop_from_services-Running id names (drop name id s) (drop-Running name id s run)

  pub remove_container-Running :
      (id : String) (s : SyncInstances)
      → Running v r bs bc s
      → Running v r bs bc (remove_container id s)
  unfolding remove_container
  remove_container-Running id s run = found (GoMap.lookup id (entries s.containers))
    where
      found : (c : Option SyncContainer) → Running v r bs bc (remove_container_found id s c)
      found none = run
      found (some c) =
          let gone = set_containers-Running (GoMap.delete id) s run in
          elim (Bool-cases (is_some s.services)) [
            | inl known ↦ rw known (drop_from_services-Running id (keys c.instances) _ gone)
            | inr unknown ↦ rw unknown gone
          ]
