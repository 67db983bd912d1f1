-- ===== src/Store/Etcd/Agreement.antt =====
-- The two stores, seen by a watcher of the services: what the in-memory store sends it on a call,
-- and what the etcd store makes of the responses that etcd gives to the call's requests.
pub mod Told
pub mod EachCall
use mathlib.Core.List.{append_assoc, append-nil}
use ambergreen.Common.{
  ℕ, String, ◌≡◌, ◌≢◌, refl, sym, ap, ◌∙◌, Bool, true, false, not, Option, none, some, List, [],
  ◌∷◌, ◌++◌, map, Run, ok, panic, ◌>>=◌, >>=-eq-ok, ok-injective, ◌==◌, string_eq, is_some,
  if◌then◌else◌, arith, subst, inl, inr, Bool-cases,
}
use ambergreen.GoMap
use ambergreen.GoMap.{Map, keys}
use ambergreen.Net.{IpPort, ip_port_eq}
use ambergreen.Store.Data.{
  HostChange, Service, Instance, IngressInstance, ContainerRule, ServiceChange, QueryServiceOptions,
}
use ambergreen.Store.InMemState.{
  InMem, Sessioned, every_watcher, with_rule_changes, with_instance_changes,
  with_ingress_instance_changes, Watcher, service_watcher, Notice, service_notice,
  fire_service_change, service_notices, fire_host_change, host_notices,
}
use ambergreen.Store.InMem
use ambergreen.Store.InMem.{Reply, map_at}
use ambergreen.Store.InMem.Session
use ambergreen.Store.InMem.Calls.{
  Call, add_service, remove_service, remove_all_services, set_container_rule, remove_container_rule,
  add_instance, remove_instance, add_ingress_instance, remove_ingress_instance, register_host,
  deregister_host, heartbeat, end_session, perform,
}
use ambergreen.Store.Etcd.Keys.{
  Entry, IsPlainEntry, IsPlain, key_of, parsed_of, parse_key, relevant_to, service_entry,
  rule_entry, instance_entry, ingress_entry, service_key, rule_key, instance_key,
  ingress_instance_key, service_root_key, service_root,
}
use ambergreen.Store.Etcd.KeyRoundTrip.{
  parse_key-key_of, parse_key-service_root_key, parse_key-service_root,
}
use ambergreen.Store.Etcd.Client.{Etcd, Json, Codec, refused, key_not_found}
use ambergreen.Store.Etcd.Requests
use ambergreen.Store.Etcd.Requests.{Written, Waiting}
use ambergreen.Store.Etcd.Watch.{
  Response, Watched, gone, changed, handle_set, handle_delete, handle_response, handle_responses,
}

abbrev pub did : String → String → Response
did action key = record { action = action; key = key }

-- What etcd documents of its watches, given the responses that it has sent to those who watch all keys: a
-- Set and a Delete that return no error send one response, about their key.
pub record Documented {W : Type 0} (etcd : Etcd W) (sent : W → List Response) : Type 0 where
  pub sets :
      (key text : String) (w : W)
      → (etcd.set key text w).1 ≡ none
      → sent (etcd.set key text w).0 ≡ sent w ++ did "set" key ∷ []
  pub deletes :
      (key : String) (recursive : Bool) (w : W)
      → (etcd.delete key recursive w).1 ≡ none
      → sent (etcd.delete key recursive w).0 ≡ sent w ++ did "delete" key ∷ []

abbrev when_ready : {W : Type 0} → W → Waiting W → Written W
when_ready w none = (w, none)
when_ready w (some written) = written

module _ (codec : Codec) (address : IpPort → String) where
  module _ {W : Type 0} (etcd : Etcd W) where
    -- A call on the etcd store that may write below SERVICE_ROOT, of the session that it names.
    unfoldable pub requested : Call → W → Written W
    requested (add_service name svc) w = Requests.add_service etcd codec address name svc w
    requested (remove_service name) w = Requests.remove_service etcd codec address name w
    requested remove_all_services w = Requests.remove_all_services etcd codec address w
    requested (set_container_rule name rule spec) w =
        Requests.set_container_rule etcd codec address name rule spec w
    requested (remove_container_rule name rule) w =
        Requests.remove_container_rule etcd codec address name rule w
    requested (add_instance session name inst details) w =
        when_ready w (Requests.add_instance etcd codec address (some session) name inst details w)
    requested (remove_instance name inst) w =
        Requests.remove_instance etcd codec address name inst w
    requested (add_ingress_instance session name addr details) w =
        when_ready w
          (Requests.add_ingress_instance etcd codec address (some session) name addr details w)
    requested (remove_ingress_instance name addr) w =
        Requests.remove_ingress_instance etcd codec address name addr w
    requested c w = (w, none)

  -- Names without a slash, and no empty name for a service that is removed.
  abbrev pub IsPlainCall : Call → Type 0
  IsPlainCall (add_service name svc) = IsPlain name
  IsPlainCall (remove_service name) = IsPlain name × (name ≢ "")
  IsPlainCall (set_container_rule name rule spec) = IsPlain name × IsPlain rule
  IsPlainCall (remove_container_rule name rule) = IsPlain name × IsPlain rule
  IsPlainCall (add_instance session name inst details) = IsPlain name × IsPlain inst
  IsPlainCall (remove_instance name inst) = IsPlain name × IsPlain inst
  IsPlainCall (add_ingress_instance session name addr details) =
      IsPlain name × IsPlain (address addr)
  IsPlainCall (remove_ingress_instance name addr) = IsPlain name × IsPlain (address addr)
  IsPlainCall c = Unit

  -- What the in-memory store does not refuse.
  abbrev pub is_accepted : Call → InMem → Bool
  is_accepted (set_container_rule name rule spec) s = GoMap.has name s.group_specs
  is_accepted (remove_container_rule name rule) s = GoMap.has name s.group_specs
  is_accepted (remove_instance name inst) s = GoMap.has inst (map_at name s.instances)
  is_accepted (remove_ingress_instance name addr) s =
      GoMap.has addr (map_at name s.ingress_instances)
  is_accepted (end_session session) s = false
  is_accepted c s = true

module _ (opts : QueryServiceOptions) (w : ℕ) where
  -- What the watcher is sent for responses, when the services `svcs` are known.
  unfoldable pub told : Map String (Unit {0}) → List Response → List Notice
  told svcs rs = map (service_notice w) (handle_responses opts rs svcs).1
