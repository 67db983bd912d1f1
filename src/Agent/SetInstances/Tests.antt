-- ===== src/Agent/SetInstances/Tests.antt =====
-- A run of the instance setter on a store with one instance of the host, which an update replaces.
use ambergreen.Common.{
  String, ◌≡◌, refl, Bool, true, false, none, some, [], ◌∷◌, Run, ok, panic, ◌==◌, string_eq,
  if◌then◌else◌, for_each, arith,
}
use ambergreen.GoMap
use ambergreen.GoMap.{Map, Unique}
use ambergreen.Net.{Ip, Platform}
use ambergreen.Store.Data.{Service, Instance}
use ambergreen.Store.InMemState.{InMem, Sessioned, new_in_mem, fire_service_change}
use ambergreen.Store.InMem
use ambergreen.Store.InMem.{map_at}
use ambergreen.Store.InMem.Calls.{IsAligned}
use ambergreen.Store.InMem.Ending.{instance_at}
use ambergreen.Agent.SyncState.{instance_key_eq, InstanceUpdate}
use ambergreen.Agent.SetInstances.{
  SetInstances, process_update, process_reset, prune_services, prune_instances, remove_instance,
  set_change,
}
use ambergreen.Agent.SetInstances.Pruning.{key_of, written, kept}
use ambergreen.Agent.SetInstances.Syncing.{process_update-written}

abbrev platform : Platform
platform = record {
  parse_ip = λ s. some s;
  ip_equal = λ a b. a == b;
  ip_string = λ s. s;
  atoi = λ s. none;
  tcp_port = λ n. "80/tcp";
}

abbrev here : Ip
here = "10.0.0.1"

abbrev web : Service
web = record { address = none; instance_port = 80; protocol = "http" }

abbrev web_instance : Instance
web_instance = record {
  host = record { ip = here };
  container_rule = "default";
  address = none;
  labels = [];
}

abbrev web_name : String
web_name = "web"

abbrev web_instances : Map String (Sessioned Instance)
web_instances = ("c1", record { details = web_instance; session = "s1" }) ∷ []

abbrev one_instance : InMem
one_instance = record new_in_mem {
  services = ("web", web) ∷ [];
  group_specs = ("web", []) ∷ [];
  instances = ("web", web_instances) ∷ [];
  ingress_instances = ("web", []) ∷ [];
}

abbrev before : SetInstances
before = record { store = one_instance; errors = [] }

abbrev update : InstanceUpdate
update = record { instances = (key_of "web" "c2", some web_instance) ∷ []; reset = true }

abbrev result_of : Run SetInstances → SetInstances
result_of (ok s) = s
result_of panic = before

abbrev after : SetInstances
after = result_of (process_update platform here "s1" update before)

runs : process_update platform here "s1" update before ≡ ok after
unfolding process_update process_reset prune_services prune_instances remove_instance set_change
    for_each InMem.add_instance InMem.get_all_services InMem.remove_instance fire_service_change
    GoMap.lookup GoMap.insert GoMap.has GoMap.modify GoMap.delete
runs = refl

aligned : IsAligned one_instance
unfolding GoMap.has GoMap.lookup
aligned name = record {
  rules = ground arith;
  instances = ground arith;
  ingress_instances = ground arith;
}

services-Unique : Unique one_instance.services
unfolding GoMap.has GoMap.lookup
services-Unique = (refl, tt)

instances-Unique : (name : String) → Unique (map_at name one_instance.instances)
unfolding GoMap.has GoMap.lookup
instances-Unique name = by_name (web_name == name)
  where
    by_name :
        (b : Bool)
        → Unique
            (elim (if b then some web_instances else none)
              as (λ _. Map String (Sessioned Instance)) [ none ↦ [] | some inner ↦ inner ])
    by_name true = (refl, tt)
    by_name false = tt

update-Unique : Unique update.instances
unfolding GoMap.has GoMap.lookup
update-Unique = (refl, tt)

abbrev c1 : String
c1 = "c1"

process_update-written_example :
    instance_at after.store web_name c1
    ≡ written "s1" (GoMap.lookup (key_of web_name c1) update.instances) (
        kept platform here
          (GoMap.lookup (key_of web_name c1) update.instances)
          (instance_at one_instance web_name c1))
process_update-written_example =
    process_update-written platform here "s1" update before after refl refl aligned services-Unique
      instances-Unique update-Unique runs web_name c1
