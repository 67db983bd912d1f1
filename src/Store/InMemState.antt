-- ===== src/Store/InMemState.antt =====
-- common/store/inmem/inmem.go: the state of the in-memory store, and how it tells its watchers of a
-- change. Channels are modelled by what has been sent on them.
use ambergreen.Common.{
  ℕ, String, Bool, true, Option, none, List, [], ◌∷◌, ◌++◌, string_eq, if◌then◌else◌,
}
use ambergreen.GoMap.{Map}
use ambergreen.Net.{IpPort, ip_port_eq}
use ambergreen.Store.Data.{
  Host, HostChange, ContainerRule, Service, Instance, IngressInstance, ServiceChange,
  QueryServiceOptions,
}

-- sessionHost, sessionInstance and sessionIngressInstance: a value, and the session it belongs to.
pub record Sessioned (V : Type 0) : Type 0 where
  pub details : V
  pub session : String

pub data StoreError : Type 0 where
  not_found : String → StoreError
  no_instance : String → String → StoreError
  no_ingress_instance : String → IpPort → StoreError
  no_heartbeats : String → StoreError
  injected : ℕ → StoreError

-- A watcher is known by a number.
pub data Watcher : Type 0 where
  service_watcher : ℕ → QueryServiceOptions → Watcher
  host_watcher : ℕ → Watcher

-- What a watcher is sent on its channel, or on its error sink.
pub data Notice : Type 0 where
  service_notice : ℕ → ServiceChange → Notice
  host_notice : ℕ → HostChange → Notice
  error_notice : ℕ → StoreError → Notice

-- A heartbeat record is its updateCount; a timer is the time-to-live that it was last set to.
pub record InMem : Type 0 where
  pub services : Map String Service
  pub group_specs : Map String (Map String ContainerRule)
  pub instances : Map String (Map String (Sessioned Instance))
  pub ingress_instances : Map String (Map IpPort (Sessioned IngressInstance))
  pub hosts : Map String (Sessioned Host)
  pub heartbeats : Map String ℕ
  pub heartbeat_timers : Map String ℕ
  pub watchers : List Watcher
  pub injected_error : Option StoreError
  pub sent : List Notice

abbrev pub new_in_mem : InMem
new_in_mem = record {
  services = [];
  group_specs = [];
  instances = [];
  ingress_instances = [];
  hosts = [];
  heartbeats = [];
  heartbeat_timers = [];
  watchers = [];
  injected_error = none;
  sent = [];
}

-- The loop of fireServiceChange over the watchers.
unfoldable pub service_notices :
    ServiceChange → (QueryServiceOptions → Bool) → List Watcher → List Notice
service_notices ev filter [] = []
service_notices ev filter (service_watcher w opts ∷ ws) =
    let rest = service_notices ev filter ws in
    if filter opts then service_notice w ev ∷ rest else rest
service_notices ev filter (host_watcher w ∷ ws) = service_notices ev filter ws

unfoldable pub host_notices : HostChange → List Watcher → List Notice
host_notices ev [] = []
host_notices ev (service_watcher w opts ∷ ws) = host_notices ev ws
host_notices ev (host_watcher w ∷ ws) = host_notice w ev ∷ host_notices ev ws

unfoldable pub fire_service_change : String → Bool → (QueryServiceOptions → Bool) → InMem → InMem
fire_service_change name deleted filter s = record s {
  sent =
      s.sent
      ++ service_notices (record { name = name; service_deleted = deleted }) filter s.watchers;
}

unfoldable pub fire_host_change : String → Bool → InMem → InMem
fire_host_change identity deleted s = record s {
  sent = s.sent ++ host_notices (record { name = identity; host_departed = deleted }) s.watchers;
}

-- A nil filter.
abbrev pub every_watcher : QueryServiceOptions → Bool
every_watcher opts = true

abbrev pub with_instance_changes : QueryServiceOptions → Bool
with_instance_changes opts = opts.with_instances

abbrev pub with_rule_changes : QueryServiceOptions → Bool
with_rule_changes opts = opts.with_container_rules

abbrev pub with_ingress_instance_changes : QueryServiceOptions → Bool
with_ingress_instance_changes opts = opts.with_ingress_instances
