-- ===== src/Agent/SyncInstances.antt =====
-- agent/sync_instances.go, lines 63-246: the component that joins the containers of the host with
-- the selection rules of the services. Its maps are references in Go; a write through `svc` or
-- `cont` is a write to the entry of that name here. Logging is left out.
pub mod Views
pub mod Adding
pub mod Keeping
pub mod Dropping
pub mod Services
pub mod Updating
pub mod Consumer
pub mod Loop
use ambergreen.Common.{
  String, ◌≡◌, refl, ◌↔◌, Bool, true, false, ◌&&◌, ◌||◌, not, Option, none, some, List, [], ◌∷◌,
  Run, ok, ◌>>=◌, for_each, Eq, ◌==◌, string_eq, is_some, if◌then◌else◌, arith,
}
use ambergreen.GoMap
use ambergreen.GoMap.{Map, keys, values}
use ambergreen.Store.Data.{ContainerRule, Instance, ServiceInfo, ServiceUpdate}
use ambergreen.Agent.Container.{Container, SyncConfig, extract_instance}
use ambergreen.Agent.SyncState.{
  InstanceKey, instance_key_eq, InstanceUpdate, ContainerUpdate, SyncService, SyncContainer,
  SyncInstances, entries, on_entries, SyncEvent, container_update, service_update,
  instance_updates_reset, no_update,
}

unfoldable pub set_services :
    (Map String SyncService → Map String SyncService) → SyncInstances → SyncInstances
set_services f si = record si { services = on_entries f si.services }

unfoldable pub set_containers :
    (Map String SyncContainer → Map String SyncContainer) → SyncInstances → SyncInstances
set_containers f si = record si { containers = on_entries f si.containers }

unfoldable pub update_instance : String → String → Option Instance → SyncInstances → SyncInstances
update_instance svc_name inst_name inst si = record si {
  update = record {
    instances =
        GoMap.insert (record { service = svc_name; instance_name = inst_name }) inst
          si.update.instances;
    reset = si.update.reset;
  };
}

-- `svc.instances[id] = inst; cont.instances[svc.name] = struct{}{}; updateInstance(...)`
unfoldable pub set_instance : String → String → Instance → SyncInstances → SyncInstances
unfolding set_services set_containers update_instance
set_instance svc_name id inst si = update_instance svc_name id (some inst) (
    set_containers
      (GoMap.modify id λ c. record c { instances = GoMap.insert svc_name tt c.instances })
      (set_services
        (GoMap.modify svc_name λ s. record s { instances = GoMap.insert id inst s.instances }) si))

unfoldable pub clear_instances : SyncInstances → SyncInstances
unfolding set_services set_containers
clear_instances si =
    set_containers (GoMap.map_values λ c. record c { instances = [] })
      (set_services (GoMap.map_values λ s. record s { instances = [] }) si)

-- The loop over the services of a container that goes.
unfoldable pub drop_from_services : String → List String → SyncInstances → SyncInstances
unfolding set_services update_instance
drop_from_services id [] si = si
drop_from_services id (svc_name ∷ names) si = drop_from_services id names (
    update_instance svc_name id none (
      set_services (GoMap.modify svc_name λ s. record s { instances = GoMap.delete id s.instances })
        si))

-- removeContainer, given the container found.
unfoldable pub remove_container_found :
    String → SyncInstances → Option SyncContainer → SyncInstances
unfolding set_containers drop_from_services
remove_container_found id si none = si
remove_container_found id si (some cont) =
    let gone = set_containers (GoMap.delete id) si in
    if is_some si.services then drop_from_services id (keys cont.instances) gone else gone

unfoldable pub remove_container : String → SyncInstances → SyncInstances
unfolding remove_container_found
remove_container id si = remove_container_found id si (GoMap.lookup id (entries si.containers))

-- The loop over the containers of a service that goes.
unfoldable pub drop_from_containers : String → List String → SyncInstances → SyncInstances
unfolding set_containers update_instance
drop_from_containers svc_name [] si = si
drop_from_containers svc_name (id ∷ ids) si = drop_from_containers svc_name ids (
    update_instance svc_name id none (
      set_containers
        (GoMap.modify id λ c. record c { instances = GoMap.delete svc_name c.instances }) si))

-- removeService, given the service found.
unfoldable pub remove_service_found : String → SyncInstances → Option SyncService → SyncInstances
unfolding set_services drop_from_containers
remove_service_found svc_name si none = si
remove_service_found svc_name si (some svc) =
    let gone = set_services (GoMap.delete svc_name) si in
    if is_some si.containers then drop_from_containers svc_name (keys svc.instances) gone else gone

unfoldable pub remove_service : String → SyncInstances → SyncInstances
unfolding remove_service_found
remove_service svc_name si =
    remove_service_found svc_name si (GoMap.lookup svc_name (entries si.services))

-- `si.services[svcName].instances`, empty for a missing service.
unfoldable pub instances_of : String → Option (Map String SyncService) → Map String Instance
instances_of svc_name services = elim (GoMap.lookup svc_name (entries services)) [
  | none ↦ []
  | some svc ↦ svc.instances
]

-- The last loop of updateService, over the instances that the service had before.
unfoldable pub drop_missing : String → List String → SyncInstances → SyncInstances
unfolding update_instance instances_of
drop_missing svc_name [] si = si
drop_missing svc_name (inst_name ∷ names) si = drop_missing svc_name names (
    if GoMap.has inst_name (instances_of svc_name si.services)
    then si
    else update_instance svc_name inst_name none si)

unfoldable pub request_reset : SyncInstances → SyncInstances
request_reset si = record si { containers_reset_sent = true; services_reset_sent = true }

module _ (cf : SyncConfig) where
  -- One round of the loop of addInstances.
  unfoldable pub add_rule :
      String → ServiceInfo → Container → ContainerRule → SyncInstances → Run SyncInstances
  add_rule name info cont rule si = extract_instance cf cont info.service rule >>= λ inst.
      elim inst [ none ↦ ok si | some inst ↦ ok (set_instance name cont.id inst si) ]

  unfoldable pub add_instances :
      String → ServiceInfo → Container → SyncInstances → Run SyncInstances
  add_instances name info cont = for_each (add_rule name info cont) (values info.container_rules)

  -- addContainer, given the map of containers.
  unfoldable pub add_container_in :
      Container → SyncInstances → Option (Map String SyncContainer) → Run SyncInstances
  add_container_in cont si none = ok si
  add_container_in cont si (some containers) =
      if GoMap.has cont.id containers
      then ok si
      else for_each (λ svc. add_instances svc.name svc.info cont) (values (entries si.services))
          (record si {
            containers =
                some
                  (GoMap.insert cont.id (record { container = cont; instances = [] }) containers);
          })

  unfoldable pub add_container : Container → SyncInstances → Run SyncInstances
  unfolding add_container_in
  add_container cont si = add_container_in cont si si.containers

  -- updateService, given the map of services.
  unfoldable pub update_service_in :
      String → ServiceInfo → SyncInstances → Option (Map String SyncService) → Run SyncInstances
  update_service_in svc_name info si none = ok si
  update_service_in svc_name info si (some services) =
      for_each (λ cont. add_instances svc_name info cont.container) (values (entries si.containers))
        (record si {
          services = some (
              GoMap.insert svc_name (record { name = svc_name; info = info; instances = [] })
                services);
        })
      >>= λ si'. ok (drop_missing svc_name (keys (instances_of svc_name si.services)) si')

  unfoldable pub update_service : String → ServiceInfo → SyncInstances → Run SyncInstances
  unfolding update_service_in
  update_service svc_name info si = update_service_in svc_name info si si.services

  unfoldable pub container_change : String × Option Container → SyncInstances → Run SyncInstances
  container_change (id, none) si = ok (remove_container id si)
  container_change (id, some cont) si = add_container cont si

  unfoldable pub process_container_update : ContainerUpdate → SyncInstances → Run SyncInstances
  process_container_update update si =
      let cleared = clear_instances (record si { containers = some [] }) in
      for_each container_change update.containers (
        if update.reset
        then record cleared {
          update = record { instances = cleared.update.instances; reset = is_some si.services };
        }
        else si)

  unfoldable pub service_change : String × Option ServiceInfo → SyncInstances → Run SyncInstances
  service_change (svc_name, none) si = ok (remove_service svc_name si)
  service_change (svc_name, some info) si = update_service svc_name info si

  unfoldable pub process_service_update : ServiceUpdate → SyncInstances → Run SyncInstances
  process_service_update update si =
      let cleared = clear_instances (record si { services = some [] }) in
      for_each service_change update.services (
        if update.reset
        then record cleared {
          update = record { instances = cleared.update.instances; reset = is_some si.containers };
        }
        else si)

  unfoldable pub handle : SyncEvent → SyncInstances → Run SyncInstances
  handle (container_update u) si = process_container_update u si
  handle (service_update u) si = process_service_update u si
  handle instance_updates_reset si =
      ok (request_reset (record si { services = none; containers = none }))

unfoldable pub is_empty {ℓ} : {A : Type ℓ} → List A → Bool
is_empty [] = true
is_empty (x ∷ xs) = false

-- One round of the main loop: the new state, and the update that is sent, if one is.
unfoldable pub step :
    (cf : SyncConfig) → SyncEvent → SyncInstances → Run (SyncInstances × Option InstanceUpdate)
step cf ev si = handle cf ev (record si { update = no_update }) >>= λ si'.
    ok (
      si',
      if not (is_empty si'.update.instances) || si'.update.reset then some si'.update else none,
    )

-- The state in which the loop begins.
unfoldable pub start : SyncInstances
start = request_reset (record {
  services = none;
  containers = none;
  update = no_update;
  containers_reset_sent = false;
  services_reset_sent = false;
})

-- The main loop over the events that arrive: the last state, and what each round sends.
unfoldable pub run :
    SyncConfig → List SyncEvent → SyncInstances → Run (SyncInstances × List (Option InstanceUpdate))
run cf [] si = ok (si, [])
run cf (ev ∷ evs) si =
    step cf ev si >>= λ (t, out). run cf evs t >>= λ (u, outs). ok (u, out ∷ outs)
