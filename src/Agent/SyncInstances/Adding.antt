-- ===== src/Agent/SyncInstances/Adding.antt =====
-- The loops that add instances.
use ambergreen.Common.{
  String, ◌≡◌, refl, true, Option, none, some, List, ok, >>=-eq-ok, ok-injective, for_each,
  for_each-inv, for_each-inv_all, All, string_eq, is_some, arith, ◌⊎◌, inl, subst,
}
use ambergreen.GoMap
use ambergreen.GoMap.{Map, AllEntries, values}
use ambergreen.Store.Data.{ContainerRule, Instance, ServiceInfo}
use ambergreen.Agent.Container.{Container, SyncConfig, extract_instance}
use ambergreen.Agent.SyncState.{
  InstanceKey, instance_key_eq, SyncService, SyncContainer, SyncInstances,
}
use ambergreen.Agent.SyncInstances.{set_instance, add_rule, add_instances}
use ambergreen.Agent.SyncInstances.Views.{
  view, consume, Known, key_of, IsNamed, IsNamed-modify, write, view-set_instance, consume-insert,
  lookup-modify-entries,
}

-- `t` comes from `s` by added instances only: at each key nothing has changed, or the update and
-- the component agree on an instance.
pub record Added (v : InstanceKey → Option Instance) (s t : SyncInstances) : Type 0 where
  pub overlay :
      (key : InstanceKey)
      → ((consume t.update.instances v key ≡ consume s.update.instances v key)
          × (view t key ≡ view s key))
        ⊎ ((consume t.update.instances v key ≡ view t key) × (is_some (view t key) ≡ true))
  pub known : (n : String) → Known n s.services → Known n t.services
  pub named : IsNamed s.services → IsNamed t.services
  pub reset : t.update.reset ≡ s.update.reset
  pub services : is_some t.services ≡ is_some s.services
  pub containers : is_some t.containers ≡ is_some s.containers

pub Added-refl : (v : InstanceKey → Option Instance) (s : SyncInstances) → Added v s s
Added-refl v s = record {
  overlay = λ key. inl (refl, refl);
  known = λ n h. h;
  named = λ h. h;
  reset = refl;
  services = refl;
  containers = refl;
}

module _ (name id : String) (inst : Instance) (v : InstanceKey → Option Instance)
    (s t : SyncInstances) (k : Known name s.services) (a : Added v s t) where
  set_instance-overlay :
      (key : InstanceKey)
      → ((consume (set_instance name id inst t).update.instances v key
            ≡ consume s.update.instances v key)
          × (view (set_instance name id inst t) key ≡ view s key))
        ⊎ ((consume (set_instance name id inst t).update.instances v key
              ≡ view (set_instance name id inst t) key)
            × (is_some (view (set_instance name id inst t) key) ≡ true))
  unfolding set_instance
  set_instance-overlay key = ground (
    arith,
    a.overlay key,
    view-set_instance name id inst t key (a.known name k),
    consume-insert (key_of name id) key (some inst) t.update.instances v,
  )

  set_instance-Added : Added v s (set_instance name id inst t)
  unfolding set_instance GoMap.has
  set_instance-Added = record {
    overlay = set_instance-overlay;
    known = λ n h. ground (
      arith,
      a.known n h,
      lookup-modify-entries name n (write (GoMap.insert id inst)) t.services,
    );
    named = λ h. IsNamed-modify name (GoMap.insert id inst) t.services (a.named h);
    reset = a.reset;
    services = ground (arith, a.services);
    containers = ground (arith, a.containers);
  }

module _ (cf : SyncConfig) (v : InstanceKey → Option Instance) (s : SyncInstances) where
  add_rule-Added :
      (name : String) (info : ServiceInfo) (cont : Container) (rule : ContainerRule)
      (t u : SyncInstances)
      → Known name s.services
      → Added v s t
      → add_rule cf name info cont rule t ≡ ok u
      → Added v s u
  unfolding add_rule
  add_rule-Added name info cont rule t u k a e =
      let (inst, _, r) = >>=-eq-ok (extract_instance cf cont info.service rule) _ e in after inst r
    where
      after :
          (inst : Option Instance)
          → (elim inst [ none ↦ ok t | some inst ↦ ok (set_instance name cont.id inst t) ]) ≡ ok u
          → Added v s u
      after none r = subst (Added v s) (ok-injective r) a
      after (some inst) r =
          subst (Added v s) (ok-injective r) (set_instance-Added name cont.id inst v s t k a)

  pub add_instances-Added :
      (name : String) (info : ServiceInfo) (cont : Container) (t u : SyncInstances)
      → Known name s.services
      → Added v s t
      → add_instances cf name info cont t ≡ ok u
      → Added v s u
  unfolding add_instances
  add_instances-Added name info cont t u k =
      for_each-inv (Added v s) (add_rule cf name info cont)
        (λ rule t u a e. add_rule-Added name info cont rule t u k a e) (values info.container_rules)
        t u

  -- The loop of addContainer over known services.
  pub add_to_services-Added :
      (cont : Container) (svcs : List SyncService) (t u : SyncInstances)
      → All (λ svc. Known svc.name s.services) svcs
      → Added v s t
      → for_each (λ svc. add_instances cf svc.name svc.info cont) svcs t ≡ ok u
      → Added v s u
  add_to_services-Added cont =
      for_each-inv_all (λ svc. Known svc.name s.services) (Added v s)
        (λ svc. add_instances cf svc.name svc.info cont)
        (λ svc t u k a e. add_instances-Added svc.name svc.info cont t u k a e)

  -- The loop of updateService over the containers.
  pub add_containers-Added :
      (name : String) (info : ServiceInfo) (conts : List SyncContainer) (t u : SyncInstances)
      → Known name s.services
      → Added v s t
      → for_each (λ cont. add_instances cf name info cont.container) conts t ≡ ok u
      → Added v s u
  add_containers-Added name info conts t u k =
      for_each-inv (Added v s) (λ cont. add_instances cf name info cont.container)
        (λ cont t u a e. add_instances-Added name info cont.container t u k a e) conts t u
