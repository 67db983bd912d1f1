-- ===== src/Store/InMem/Calls.antt =====
-- The calls of the store that write, as one type, and the predicate that the
-- four maps that are keyed by services have the same keys.
use ambergreen.Common.{ℕ, String, ◌≡◌, Bool, false, not, Run, ok, ◌>>=◌, string_eq}
use ambergreen.GoMap
use ambergreen.GoMap.{Map, keys}
use ambergreen.Net.{IpPort, ip_port_eq}
use ambergreen.Store.Data.{Host, ContainerRule, Service, Instance, IngressInstance}
use ambergreen.Store.InMemState.{InMem}
use ambergreen.Store.InMem
use ambergreen.Store.InMem.{Reply}
use ambergreen.Store.InMem.Session

pub data Call : Type 0 where
  add_service : String → Service → Call
  remove_service : String → Call
  remove_all_services : Call
  set_container_rule : String → String → ContainerRule → Call
  remove_container_rule : String → String → Call
  add_instance : String → String → String → Instance → Call
  remove_instance : String → String → Call
  add_ingress_instance : String → String → IpPort → IngressInstance → Call
  remove_ingress_instance : String → IpPort → Call
  register_host : String → String → Host → Call
  deregister_host : String → Call
  heartbeat : String → ℕ → Call
  end_session : String → Call

-- The state after a call; it panics where the method does.
unfoldable pub perform : Call → InMem → Run InMem
perform (add_service name svc) s = ok (InMem.add_service name svc s).0
perform (remove_service name) s = ok (InMem.remove_service name s).0
perform remove_all_services s = ok (InMem.remove_all_services s).0
perform (set_container_rule name rule spec) s = ok (InMem.set_container_rule name rule spec s).0
perform (remove_container_rule name rule) s = ok (InMem.remove_container_rule name rule s).0
perform (add_instance session name inst details) s =
    InMem.add_instance session name inst details s >>= λ (t, err). ok t
perform (remove_instance name inst) s = ok (InMem.remove_instance name inst s).0
perform (add_ingress_instance session name addr details) s =
    InMem.add_ingress_instance session name addr details s >>= λ (t, err). ok t
perform (remove_ingress_instance name addr) s = ok (InMem.remove_ingress_instance name addr s).0
perform (register_host session identity details) s =
    ok (Session.register_host session identity details s)
perform (deregister_host identity) s = ok (Session.deregister_host identity s)
perform (heartbeat session ttl) s = ok (Session.heartbeat session ttl s)
perform (end_session session) s = ok (Session.end_session session s)

-- At every name the four maps agree on whether there is such a service.
pub record IsAlignedAt (s : InMem) (name : String) : Type 0 where
  pub rules : GoMap.has name s.group_specs ≡ GoMap.has name s.services
  pub instances : GoMap.has name s.instances ≡ GoMap.has name s.services
  pub ingress_instances : GoMap.has name s.ingress_instances ≡ GoMap.has name s.services

abbrev pub IsAligned : InMem → Type 0
IsAligned s = (name : String) → IsAlignedAt s name

-- The calls that write into the instances of a service that is not there.
unfoldable pub adds_to_missing : Call → InMem → Bool
adds_to_missing (add_instance session name inst details) s = not (GoMap.has name s.services)
adds_to_missing (add_ingress_instance session name addr details) s = not (GoMap.has name s.services)
adds_to_missing c s = false
