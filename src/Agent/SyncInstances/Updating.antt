-- ===== src/Agent/SyncInstances/Updating.antt =====
-- What updateService keeps.
use ambergreen.Common.{
  String, ◌≡◌, refl, ◌∙◌, Bool, false, Option, none, some, List, [], ok, >>=-eq-ok, ok-injective,
  for_each, ◌==◌, string_eq, is_some, if◌then◌else◌, arith, subst,
}
use ambergreen.GoMap
use ambergreen.GoMap.{Map, AllEntries, keys, values, contains}
use ambergreen.Store.Data.{Instance, ServiceInfo}
use ambergreen.Agent.Container.{SyncConfig}
use ambergreen.Agent.SyncState.{
  InstanceKey, instance_key_eq, SyncService, SyncContainer, SyncInstances, entries,
}
use ambergreen.Agent.SyncInstances.{
  drop_missing, instances_of, update_service, update_service_in, add_instances,
}
use ambergreen.Agent.SyncInstances.Views.{view, Synced}
use ambergreen.Agent.SyncInstances.Adding.{Added, Added-refl, add_containers-Added}
use ambergreen.Agent.SyncInstances.Keeping.{Running}
use ambergreen.Agent.SyncInstances.Dropping.{
  drop_missing-Written, consume-drop_missing, view-instances_of, view-Written,
}

module _ (v : InstanceKey → Option Instance) (r bs bc : Bool) where
  -- The state of updateService before its loops.
  abbrev renewed : String → ServiceInfo → SyncInstances → Map String SyncService → SyncInstances
  renewed name info s ss = record s {
    services = some (GoMap.insert name (record { name = name; info = info; instances = [] }) ss);
  }

  view-renewed :
      (name : String) (info : ServiceInfo) (s : SyncInstances) (ss : Map String SyncService)
      (key : InstanceKey)
      → s.services ≡ some ss
      → view (renewed name info s ss) key ≡ (if name == key.service then none else view s key)
  unfolding view instances_of
  view-renewed name info s ss key q = ground (
    arith,
    q,
    GoMap.lookup-insert name key.service (record { name = name; info = info; instances = [] }) ss,
    GoMap.lookup_empty {V = Instance} key.instance_name,
  )

  module _ (name : String) (info : ServiceInfo) (s t : SyncInstances) (ss : Map String SyncService)
      (q : s.services ≡ some ss) (run : Running v r bs bc s)
      (a : Added v (renewed name info s ss) t) where
    abbrev old_names : List String
    old_names = keys (instances_of name s.services)

    updated-Synced : Synced v (drop_missing name old_names t)
    unfolding GoMap.has
    updated-Synced key = ground (
      arith,
      consume-drop_missing v name key old_names t,
      view-Written t (drop_missing name old_names t) key (drop_missing-Written name old_names t),
      a.overlay key,
      view-renewed name info s ss key q,
      view-instances_of name t key,
      view-instances_of name s key,
      GoMap.contains-keys key.instance_name (instances_of name s.services),
      run.synced key,
    )

    updated-Running :
        (bc ≡ false → (key : InstanceKey) → view t key ≡ none)
        → Running v r bs bc (drop_missing name old_names t)
    updated-Running idle =
        let w = drop_missing-Written name old_names t in
        record {
          synced = updated-Synced;
          named = rw w.services (
              a.named (
                GoMap.AllEntries-insert (λ n s. s.name ≡ n) name
                  (record { name = name; info = info; instances = [] }) ss refl
                  (rw q at run.named)));
          idle = λ b key. view-Written t (drop_missing name old_names t) key w ∙ idle b key;
          reset = w.reset ∙ a.reset ∙ run.reset;
          services = ground (arith, w.services, a.services, q, run.services);
          containers = w.containers ∙ a.containers ∙ run.containers;
        }

  -- Without containers the loop of updateService has nothing to do.
  renewed-idle :
      (cf : SyncConfig) (name : String) (info : ServiceInfo) (s t : SyncInstances)
      (ss : Map String SyncService) (cs : Option (Map String SyncContainer))
      → s.services ≡ some ss
      → ((key : InstanceKey) → view s key ≡ none)
      → is_some cs ≡ false
      → for_each
          (λ cont. add_instances cf name info cont.container)
          (values (entries cs))
          (renewed name info s ss)
        ≡ ok t
      → (key : InstanceKey) → view t key ≡ none
  unfolding for_each
  renewed-idle cf name info s t ss none q idle c loop key =
      rw (← (ok-injective loop)) (ground (arith, view-renewed name info s ss key q, idle key))
  renewed-idle cf name info s t ss (some cs) q idle c loop key = cc

  update_service_in-Running :
      (cf : SyncConfig) (name : String) (info : ServiceInfo) (s t : SyncInstances)
      → Running v r bs bc s
      → (ss : Option (Map String SyncService)) → s.services ≡ ss
      → update_service_in cf name info s ss ≡ ok t
      → Running v r bs bc t
  unfolding update_service_in
  update_service_in-Running cf name info s t run none q e =
      subst (Running v r bs bc) (ok-injective e) run
  update_service_in-Running cf name info s t run (some ss) q e =
      let s' = renewed name info s ss in
      let (u, loop, rest) =
        >>=-eq-ok
          (for_each (λ cont. add_instances cf name info cont.container)
            (values (entries s.containers)) s')
          _ e in
      let a : Added v s' u =
        add_containers-Added cf v s' name info (values (entries s.containers)) s' u
          (GoMap.has-insert_self name (record { name = name; info = info; instances = [] }) ss)
          (Added-refl v s') loop in
      subst (Running v r bs bc) (ok-injective rest) (
        updated-Running name info s u ss q run a (λ b.
          renewed-idle cf name info s u ss s.containers q (run.idle b) (run.containers ∙ b) loop))

  pub update_service-Running :
      (cf : SyncConfig) (name : String) (info : ServiceInfo) (s t : SyncInstances)
      → Running v r bs bc s
      → update_service cf name info s ≡ ok t
      → Running v r bs bc t
  unfolding update_service
  update_service-Running cf name info s t run e =
      update_service_in-Running cf name info s t run s.services refl e
