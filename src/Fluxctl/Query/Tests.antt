-- ===== src/Fluxctl/Query/Tests.antt =====
-- A query of a store with two instances of a service, of which one has the label asked for.
use ambergreen.Common.{
  String, ◌≡◌, refl, Bool, true, none, some, [], ◌∷◌, ok, ◌==◌, string_eq, arith,
}
use ambergreen.GoMap
use ambergreen.GoMap.{Map, Unique}
use ambergreen.GoStrings.{split}
use ambergreen.Net.{Platform}
use ambergreen.Store.Data.{Instance, label, includes}
use ambergreen.Store.InMemState.{InMem, Sessioned, new_in_mem}
use ambergreen.Store.InMem.{map_at, get_all_services, make_service_info, details_of, infos}
use ambergreen.Store.InMem.Calls.{IsAligned}
use ambergreen.Fluxctl.Selectors.{
  QueryOpts, query_selector, make_selector, selectorise, add_pairs, add_pair,
}
use ambergreen.Fluxctl.Query.{Row, query_run, fetch, visit_services, visit_instances}
use ambergreen.Fluxctl.Query.Reported.{IsReported, query_run-IsReported}

abbrev platform : Platform
platform = record {
  parse_ip = λ s. some s;
  ip_equal = λ a b. a == b;
  ip_string = λ s. s;
  atoi = λ s. none;
  tcp_port = λ n. "80/tcp";
}

abbrev prints_all : Row → Bool
prints_all row = true

abbrev instance_of : String → Sessioned Instance
instance_of tag = record {
  details = record {
    host = record { ip = "10.0.0.1" };
    container_rule = "default";
    address = none;
    labels = ("tag", tag) ∷ [];
  };
  session = "s1";
}

abbrev two_instances : InMem
two_instances = record new_in_mem {
  services = ("web", record { address = none; instance_port = 80; protocol = "http" }) ∷ [];
  group_specs = ("web", []) ∷ [];
  instances = ("web", ("c1", instance_of "v1") ∷ ("c2", instance_of "v2") ∷ []) ∷ [];
  ingress_instances = ("web", []) ∷ [];
}

abbrev tagged : QueryOpts
tagged = record {
  selector = record { env = ""; labels = ""; image = ""; tag = "v2" };
  host = "";
  state = "";
  rule = "default";
  service = "";
}

query_run-tagged :
    query_run platform prints_all tagged two_instances
    ≡ ok (record { service = "web"; name = "c2"; inst = (instance_of "v2").details } ∷ [], none)
unfolding query_run fetch visit_services visit_instances includes label query_selector make_selector
    selectorise add_pairs add_pair split get_all_services infos make_service_info details_of
    GoMap.lookup GoMap.insert
query_run-tagged = refl

two_instances-IsAligned : IsAligned two_instances
unfolding GoMap.has GoMap.lookup
two_instances-IsAligned name = record {
  rules = ground arith;
  instances = ground arith;
  ingress_instances = ground arith;
}

services-Unique : Unique two_instances.services
unfolding GoMap.has GoMap.lookup
services-Unique = (refl, tt)

instances-Unique : (n : String) → Unique (map_at n two_instances.instances)
unfolding GoMap.has GoMap.lookup
instances-Unique n = ground arith

query_run-IsReported_example : IsReported platform prints_all tagged two_instances
query_run-IsReported_example =
    query_run-IsReported platform prints_all tagged two_instances two_instances-IsAligned
      services-Unique instances-Unique
