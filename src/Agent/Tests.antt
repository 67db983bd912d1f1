-- ===== src/Agent/Tests.antt =====
-- Runs of the agent's parts on one container and one service.
use ambergreen.Common.{
  ◌≡◌, refl, true, false, Option, none, some, List, [], ◌∷◌, Run, ok, panic, if◌then◌else◌,
  for_each, ◌==◌, string_eq, String,
}
use ambergreen.GoMap
use ambergreen.GoMap.{Map, contains}
use ambergreen.GoStrings.{split, split_2, cut_last, cut_prefix, has_char}
use ambergreen.Net.{IpPort, new_ip_port, Platform}
use ambergreen.Store.Data
use ambergreen.Store.Data.{ContainerRule, Instance, ServiceInfo, ServiceUpdate}
use ambergreen.Agent.Container
use ambergreen.Agent.Container.{Container, SyncConfig}
use ambergreen.Agent.DockerListener
use ambergreen.Agent.DockerListener.{DockerEvent}
use ambergreen.Agent.DockerListener.Listing.{
  last_status, first_ids-lookup, inspect_round-knows, knows,
}
use ambergreen.Agent.SyncState.{
  InstanceKey, instance_key_eq, InstanceUpdate, SyncInstances, SyncEvent, container_update,
  service_update,
}
use ambergreen.Agent.SyncInstances
use ambergreen.Agent.SyncInstances.{start, step, run}
use ambergreen.Agent.SyncInstances.Views.{view}
use ambergreen.Agent.SyncInstances.Consumer.{Follows, receive, is_full}
use ambergreen.Agent.SyncInstances.Loop.{receive_all, run-receive_all, step-Follows, start-Follows}

abbrev platform : Platform
platform = record {
  parse_ip = λ text. if text == "" then none else some text;
  ip_equal = λ a b. a == b;
  ip_string = λ ip. ip;
  atoi = λ text. if text == "8080" then some 8080 else none;
  tcp_port = λ port. "80/tcp";
}

abbrev config : SyncConfig
config = record { platform = platform; host_ip = "10.0.0.1"; network = "local" }

abbrev web_container : Container
web_container = record {
  id = "c1";
  image = "web:1.2";
  labels = ("app", "web") ∷ [];
  env = "ZONE=a" ∷ [];
  network_mode = "bridge";
  ports = ("80/tcp", (record { host_ip = ""; host_port = "8080" }) ∷ []) ∷ [];
  ip_address = "172.17.0.2";
}

abbrev web_service : ServiceInfo
web_service = record {
  service = record { address = none; instance_port = 80; protocol = "http" };
  instances = [];
  container_rules = ("default", record { selector = ("app", "web") ∷ []; instance_port = 0 }) ∷ [];
  ingress_instances = [];
}

abbrev containers_known : SyncEvent
containers_known =
    container_update (record { containers = ("c1", some web_container) ∷ []; reset = true })

abbrev services_known : SyncEvent
services_known = service_update (record { services = ("web", some web_service) ∷ []; reset = true })

abbrev container_gone : SyncEvent
container_gone = container_update (record { containers = ("c1", none) ∷ []; reset = false })

abbrev last_of {ℓ} : {A : Type ℓ} → A → Run A → A
last_of d (ok a) = a
last_of d panic = d

abbrev after_events : List SyncEvent → SyncInstances × List (Option InstanceUpdate)
after_events evs = last_of (start, []) (run config evs start)

abbrev web_key : InstanceKey
web_key = record { service = "web"; instance_name = "c1" }

-- The address that the selected container is given.
abbrev address_at : InstanceKey → SyncInstances → Option IpPort
address_at key t = elim (view t key) [ none ↦ none | some inst ↦ inst.address ]

runs :
    run config (containers_known ∷ services_known ∷ []) start
    ≡ ok (after_events (containers_known ∷ services_known ∷ []))
unfolding run step SyncInstances.handle start SyncInstances.request_reset
    SyncInstances.process_container_update SyncInstances.process_service_update
    SyncInstances.container_change SyncInstances.service_change SyncInstances.add_container
    SyncInstances.update_service SyncInstances.add_instances SyncInstances.add_rule
    SyncInstances.set_instance SyncInstances.clear_instances SyncInstances.drop_missing
    SyncInstances.remove_container SyncInstances.is_empty view Container.extract_instance
    Container.extract_address Container.mapped_port_address Container.bindings_address
    Container.binding_matches Container.fixed_port_address Container.copy_labels
    Container.env_labels Container.container_label Container.env_value Container.image_name
    Container.image_tag Data.rule_includes Data.includes new_ip_port split split_2 cut_last
    cut_prefix has_char GoMap.insert GoMap.lookup GoMap.delete GoMap.modify GoMap.map_values
    GoMap.has for_each
runs = refl

selected :
    address_at web_key (after_events (containers_known ∷ services_known ∷ [])).0
    ≡ some (record { ip = "10.0.0.1"; port = 8080 })
unfolding run step SyncInstances.handle start SyncInstances.request_reset
    SyncInstances.process_container_update SyncInstances.process_service_update
    SyncInstances.container_change SyncInstances.service_change SyncInstances.add_container
    SyncInstances.update_service SyncInstances.add_instances SyncInstances.add_rule
    SyncInstances.set_instance SyncInstances.clear_instances SyncInstances.drop_missing
    SyncInstances.remove_container SyncInstances.is_empty view Container.extract_instance
    Container.extract_address Container.mapped_port_address Container.bindings_address
    Container.binding_matches Container.fixed_port_address Container.copy_labels
    Container.env_labels Container.container_label Container.env_value Container.image_name
    Container.image_tag Data.rule_includes Data.includes new_ip_port split split_2 cut_last
    cut_prefix has_char GoMap.insert GoMap.lookup GoMap.delete GoMap.modify GoMap.map_values
    GoMap.has for_each
selected = refl

abbrev first_round : SyncInstances × Option InstanceUpdate
first_round = last_of (start, none) (step config containers_known start)

first_steps : step config containers_known start ≡ ok first_round
unfolding run step SyncInstances.handle start SyncInstances.request_reset
    SyncInstances.process_container_update SyncInstances.process_service_update
    SyncInstances.container_change SyncInstances.service_change SyncInstances.add_container
    SyncInstances.update_service SyncInstances.add_instances SyncInstances.add_rule
    SyncInstances.set_instance SyncInstances.clear_instances SyncInstances.drop_missing
    SyncInstances.remove_container SyncInstances.is_empty view Container.extract_instance
    Container.extract_address Container.mapped_port_address Container.bindings_address
    Container.binding_matches Container.fixed_port_address Container.copy_labels
    Container.env_labels Container.container_label Container.env_value Container.image_name
    Container.image_tag Data.rule_includes Data.includes new_ip_port split split_2 cut_last
    cut_prefix has_char GoMap.insert GoMap.lookup GoMap.delete GoMap.modify GoMap.map_values
    GoMap.has for_each
first_steps = refl

known : is_full (after_events (containers_known ∷ services_known ∷ [])).0 ≡ true
unfolding run step SyncInstances.handle start SyncInstances.request_reset
    SyncInstances.process_container_update SyncInstances.process_service_update
    SyncInstances.container_change SyncInstances.service_change SyncInstances.add_container
    SyncInstances.update_service SyncInstances.add_instances SyncInstances.add_rule
    SyncInstances.set_instance SyncInstances.clear_instances SyncInstances.drop_missing
    SyncInstances.remove_container SyncInstances.is_empty view Container.extract_instance
    Container.extract_address Container.mapped_port_address Container.bindings_address
    Container.binding_matches Container.fixed_port_address Container.copy_labels
    Container.env_labels Container.container_label Container.env_value Container.image_name
    Container.image_tag Data.rule_includes Data.includes new_ip_port split split_2 cut_last
    cut_prefix has_char GoMap.insert GoMap.lookup GoMap.delete GoMap.modify GoMap.map_values
    GoMap.has for_each
known = refl

run-receive_all_example :
    receive_all (after_events (containers_known ∷ services_known ∷ [])).1 (λ _. none) web_key
    ≡ view (after_events (containers_known ∷ services_known ∷ [])).0 web_key
run-receive_all_example =
    run-receive_all config (containers_known ∷ services_known ∷ []) (λ _. none)
      (after_events (containers_known ∷ services_known ∷ [])).0
      (after_events (containers_known ∷ services_known ∷ [])).1 runs known web_key

step-Follows_example : Follows (receive first_round.1 (λ _. none)) first_round.0
step-Follows_example =
    step-Follows config containers_known (λ _. none) start first_round.0 first_round.1
      (start-Follows (λ _. none)) first_steps

abbrev died : List DockerEvent
died = (record { status = "start"; id = "c2" }) ∷ (record { status = "die"; id = "c1" }) ∷ []

first_ids-lookup_example :
    GoMap.lookup "c1" (DockerListener.first_ids died ("c1" ∷ [])).containers
    ≡ (elim (last_status "c1" died) [
      | none ↦ if contains {K = String} "c1" ("c1" ∷ []) then some true else none
      | some b ↦ if b then some true else none
    ])
first_ids-lookup_example = first_ids-lookup "c1" died ("c1" ∷ [])

-- One container is there, and no other.
abbrev only_web : String → DockerListener.Inspected
only_web id =
    if id == "c1" then DockerListener.details web_container else DockerListener.no_such_container

abbrev two_started : DockerListener.ContainerIds
two_started = record { containers = ("c1", true) ∷ ("c2", true) ∷ []; reset = true }

abbrev web_announced : Map String (Unit {0})
web_announced = ("c1", tt) ∷ []

inspects :
    DockerListener.inspect_round only_web two_started []
    ≡ some (
      ("c1", tt) ∷ [],
      some (record { containers = ("c1", some web_container) ∷ []; reset = true }),
    )
unfolding DockerListener.inspect_round DockerListener.inspect_ids DockerListener.inspect_id
    GoMap.insert GoMap.has GoMap.lookup
inspects = refl

inspect_round-knows_example :
    GoMap.has {K = String} "c2" web_announced
    ≡ knows [] (some (record { containers = ("c1", some web_container) ∷ []; reset = true })) "c2"
inspect_round-knows_example =
    inspect_round-knows only_web two_started [] web_announced
      (some (record { containers = ("c1", some web_container) ∷ []; reset = true })) "c2" inspects
