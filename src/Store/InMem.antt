-- ===== src/Store/InMem.antt =====
-- common/store/inmem/inmem.go: the in-memory store. The methods of InMem and of inmemStore, which
-- adds a session, are functions on one state. Logging is left out.
pub mod Session
pub mod Ending
pub mod Calls
pub mod Aligned
pub mod Listing
pub mod Reads
pub mod Notifies
use ambergreen.Common.{
  ℕ, suc, ◌+◌, String, Bool, true, false, Option, none, some, List, [], ◌∷◌, ◌++◌, Run, ok, panic,
  ◌>>=◌, ◌==◌, nat_eq, string_eq, is_some, if◌then◌else◌,
}
use ambergreen.GoMap
use ambergreen.GoMap.{Map, keys, values}
use ambergreen.Net.{IpPort, ip_port_eq}
use ambergreen.Store.Data.{
  Host, HostChange, ContainerRule, Service, Instance, IngressInstance, ServiceInfo, ServiceChange,
  QueryServiceOptions,
}
use ambergreen.Store.InMemState.{
  Sessioned, StoreError, not_found, no_instance, no_ingress_instance, no_heartbeats, injected,
  Watcher, service_watcher, host_watcher, Notice, service_notice, host_notice, error_notice, InMem,
  fire_service_change, fire_host_change, every_watcher, with_instance_changes, with_rule_changes,
  with_ingress_instance_changes,
}

-- A method that writes: the new state, and the error that it returns.
abbrev pub Reply : Type 0
Reply = InMem × Option StoreError

unfoldable pub check_registered_service : String → InMem → Option StoreError
check_registered_service name s =
    if GoMap.has name s.services then s.injected_error else some (not_found name)

unfoldable pub add_service : String → Service → InMem → Reply
unfolding fire_service_change
add_service name svc s = (
  fire_service_change name false every_watcher (record s {
    services = GoMap.insert name svc s.services;
    group_specs = GoMap.insert name [] s.group_specs;
    instances = GoMap.insert name [] s.instances;
    ingress_instances = GoMap.insert name [] s.ingress_instances;
  }),
  s.injected_error,
)

unfoldable pub remove_service : String → InMem → Reply
unfolding fire_service_change
remove_service name s = (
  fire_service_change name true every_watcher (record s {
    services = GoMap.delete name s.services;
    group_specs = GoMap.delete name s.group_specs;
    instances = GoMap.delete name s.instances;
    ingress_instances = GoMap.delete name s.ingress_instances;
  }),
  s.injected_error,
)

unfoldable pub remove_services : List String → InMem → InMem
unfolding remove_service
remove_services [] s = s
remove_services (name ∷ names) s = remove_services names (remove_service name s).0

unfoldable pub remove_all_services : InMem → Reply
unfolding remove_services
remove_all_services s = (remove_services (keys s.services) s, s.injected_error)

-- The copies that makeServiceInfo makes without the sessions.
unfoldable pub details_of {ℓ} : {K : Type ℓ} {V : Type 0} → Map K (Sessioned V) → Map K V
details_of [] = []
details_of ((k, v) ∷ m) = (k, v.details) ∷ details_of m

-- `m[name]` for a map of maps: the nil map for a missing key.
abbrev pub map_at {ℓ} : {V : Type ℓ} → String → Map String (List V) → List V
map_at name m = elim (GoMap.lookup name m) [ none ↦ [] | some inner ↦ inner ]

unfoldable pub make_service_info : String → Service → QueryServiceOptions → InMem → ServiceInfo
unfolding details_of
make_service_info name svc opts s = record {
  service = svc;
  instances = if opts.with_instances then details_of (map_at name s.instances) else [];
  container_rules = if opts.with_container_rules then map_at name s.group_specs else [];
  ingress_instances =
      if opts.with_ingress_instances then details_of (map_at name s.ingress_instances) else [];
}

unfoldable pub get_service :
    String → QueryServiceOptions → InMem → Option ServiceInfo × Option StoreError
unfolding make_service_info
get_service name opts s = elim (GoMap.lookup name s.services) [
  | none ↦ (none, some (not_found name))
  | some svc ↦ (some (make_service_info name svc opts s), s.injected_error)
]

unfoldable pub infos : QueryServiceOptions → InMem → Map String Service → Map String ServiceInfo
infos opts s [] = []
infos opts s ((name, svc) ∷ m) = (name, make_service_info name svc opts s) ∷ infos opts s m

unfoldable pub get_all_services :
    QueryServiceOptions → InMem → Map String ServiceInfo × Option StoreError
unfolding infos make_service_info
get_all_services opts s = (infos opts s s.services, s.injected_error)

-- The write panics on the nil map of a service that is not there.
unfoldable pub add_instance : String → String → String → Instance → InMem → Run Reply
unfolding fire_service_change
add_instance session service_name instance_name inst s =
    elim (GoMap.lookup service_name s.instances) [
      | none ↦ panic
      | some insts ↦ ok (
        fire_service_change service_name false with_instance_changes (record s {
          instances =
              GoMap.insert service_name
                (GoMap.insert instance_name (record { details = inst; session = session }) insts)
                s.instances;
        }),
        s.injected_error,
      )
    ]

unfoldable pub remove_instance : String → String → InMem → Reply
unfolding fire_service_change
remove_instance service_name instance_name s =
    if GoMap.has instance_name (map_at service_name s.instances)
    then (
      fire_service_change service_name false with_instance_changes (record s {
        instances = GoMap.modify service_name (GoMap.delete instance_name) s.instances;
      }),
      s.injected_error,
    )
    else (s, some (no_instance service_name instance_name))

unfoldable pub set_container_rule : String → String → ContainerRule → InMem → Reply
unfolding fire_service_change
set_container_rule service_name group_name spec s =
    if GoMap.has service_name s.group_specs
    then (
      fire_service_change service_name false with_rule_changes (record s {
        group_specs = GoMap.modify service_name (GoMap.insert group_name spec) s.group_specs;
      }),
      s.injected_error,
    )
    else (s, some (not_found service_name))

unfoldable pub remove_container_rule : String → String → InMem → Reply
unfolding fire_service_change
remove_container_rule service_name group_name s =
    if GoMap.has service_name s.group_specs
    then (
      fire_service_change service_name false with_rule_changes (record s {
        group_specs = GoMap.modify service_name (GoMap.delete group_name) s.group_specs;
      }),
      s.injected_error,
    )
    else (s, some (not_found service_name))

unfoldable pub add_ingress_instance : String → String → IpPort → IngressInstance → InMem → Run Reply
unfolding fire_service_change
add_ingress_instance session service_name addr details s =
    elim (GoMap.lookup service_name s.ingress_instances) [
      | none ↦ panic
      | some insts ↦ ok (
        fire_service_change service_name false with_ingress_instance_changes (record s {
          ingress_instances =
              GoMap.insert service_name
                (GoMap.insert addr (record { details = details; session = session }) insts)
                s.ingress_instances;
        }),
        s.injected_error,
      )
    ]

unfoldable pub remove_ingress_instance : String → IpPort → InMem → Reply
unfolding fire_service_change
remove_ingress_instance service_name addr s =
    if GoMap.has addr (map_at service_name s.ingress_instances)
    then (
      fire_service_change service_name false with_ingress_instance_changes (record s {
        ingress_instances = GoMap.modify service_name (GoMap.delete addr) s.ingress_instances;
      }),
      s.injected_error,
    )
    else (s, some (no_ingress_instance service_name addr))
