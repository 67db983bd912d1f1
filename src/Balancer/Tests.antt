-- ===== src/Balancer/Tests.antt =====
-- Runs of the balancer's services on one service.
use ambergreen.Common.{
  ℕ, zero, suc, ◌<◌, String, ◌≡◌, refl, true, false, Option, none, some, List, [], ◌∷◌, Run, ok,
  panic, string_eq, for_each, is_some, arith,
}
use ambergreen.GoMap
use ambergreen.Balancer.Model
use ambergreen.Balancer.Model.{Service, ServiceUpdate, equal_sound}
use ambergreen.Balancer.IpTables
use ambergreen.Balancer.IpTables.{
  Args, Outcome, succeeded, command_failed, delete_args, do_ip_tables, delete_chain_rule,
  delete_chain_rule-returns,
}
use ambergreen.Balancer.ServerSide
use ambergreen.Balancer.ServerSide.{ServerSide, process_service_update, take_instances}
use ambergreen.Balancer.ServerSide.Tidy.{
  IsTidy, process_service_update-IsTidy, take_instances-IsTidy,
}
use ambergreen.Agent.SyncState.{instance_key_eq, InstanceUpdate}
use ambergreen.Store.Data
use ambergreen.Balancer.Services
use ambergreen.Balancer.Services.{Environment, Services, World, do_update}
use ambergreen.Balancer.Services.Resources.{count, held}
use ambergreen.Balancer.Services.Balance.{Balanced, do_update-Balanced}

abbrev all_granted : Environment
all_granted = record {
  no_bridge = λ w. false;
  no_listener = λ w. false;
  no_rule = λ r w. false;
  no_delete = λ r w. false;
}

abbrev none_yet : Services
none_yet = record {
  services = [];
  world = record { opened = []; closed = []; left = []; next = 0; forwarders = [] };
}

none_yet-Balanced : Balanced none_yet
unfolding count held
none_yet-Balanced = record { unique = tt; even = λ r. refl; left = λ n. refl }

abbrev web : Service
web = record {
  name = "web";
  protocol = "http";
  address = some (record { ip = "10.254.0.1"; port = 80 });
  instances = ("c1", record { ip = "10.0.0.1"; port = 8080 }) ∷ [];
}

abbrev first_update : ServiceUpdate
first_update = record { updates = ("web", some web) ∷ []; reset = true }

abbrev services_of : Run Services → Services
services_of (ok svcs) = svcs
services_of panic = none_yet

abbrev with_web : Services
with_web = services_of (do_update all_granted first_update none_yet)

updates : do_update all_granted first_update none_yet ≡ ok with_web
unfolding do_update Services.do_change Services.update_state Services.start_forwarding
    Services.start_rejecting Services.is_nil_map Services.prune for_each GoMap.lookup GoMap.insert
updates = refl

do_update-Balanced_example : Balanced with_web
do_update-Balanced_example =
    do_update-Balanced all_granted first_update none_yet with_web none_yet-Balanced updates

web-equal : Model.equal web web ≡ ok true
unfolding Model.equal Model.all_in Model.no_more GoMap.lookup GoMap.has
web-equal = refl

equal_sound_example :
    (web.name ≡ web.name)
    × (web.protocol ≡ web.protocol)
    × (web.address ≡ web.address)
    × ((name : String) → GoMap.lookup name web.instances ≡ GoMap.lookup name web.instances)
equal_sound_example = equal_sound web web web-equal

-- A system that holds a number of copies of the rule.
abbrev copies : List String → ℕ → ℕ × Outcome
copies args zero = (0, command_failed)
copies args (suc n) = (n, succeeded)

abbrev no_rule : Args
no_rule = IpTables.nil

fewer_copies :
    (w u : ℕ)
    → do_ip_tables copies "FLUX" "br" (delete_args copies "FLUX" "br" "nat" "OUTPUT" no_rule) w
      ≡ (u, succeeded)
    → u < w
unfolding do_ip_tables
fewer_copies zero u e = ground (arith, e)
fewer_copies (suc n) u e = ground (arith, e)

delete_chain_rule-returns_example :
    is_some (delete_chain_rule copies "FLUX" "br" 4 "nat" "OUTPUT" no_rule 3) ≡ true
delete_chain_rule-returns_example =
    delete_chain_rule-returns copies "FLUX" "br" (λ w. w) "nat" "OUTPUT" no_rule fewer_copies 4 3
      (omega arith)

abbrev idle : ServerSide
idle = record { services = []; next = 0; effects = [] }

abbrev any_port : ServerSide → Option ℕ
any_port ss = some 4000

abbrev spec_update : Data.ServiceUpdate
spec_update = record {
  services =
      (
        "web",
        some (record {
          service = record { address = none; instance_port = 80; protocol = "http" };
          instances = [];
          container_rules = [];
          ingress_instances = [];
        }),
      )
      ∷ [];
  reset = true;
}

process_service_update-IsTidy_example :
    IsTidy (process_service_update "10.0.0.1" any_port spec_update idle)
process_service_update-IsTidy_example =
    process_service_update-IsTidy "10.0.0.1" any_port spec_update idle tt

known-IsTidy : IsTidy (process_service_update "10.0.0.1" any_port spec_update idle)
known-IsTidy = process_service_update-IsTidy "10.0.0.1" any_port spec_update idle tt

abbrev instances_update : InstanceUpdate
instances_update = record {
  instances =
      (
        record { service = "web"; instance_name = "c1" },
        some (record {
          host = record { ip = "10.0.0.1" };
          container_rule = "";
          address = some (record { ip = "10.0.0.1"; port = 8080 });
          labels = [];
        }),
      )
      ∷ [];
  reset = true;
}

abbrev side_of : Run ServerSide → ServerSide
side_of (ok ss) = ss
side_of panic = idle

abbrev serving : ServerSide
serving = side_of (
    take_instances "10.0.0.1" any_port instances_update
      (process_service_update "10.0.0.1" any_port spec_update idle))

serves :
    take_instances "10.0.0.1" any_port instances_update
      (process_service_update "10.0.0.1" any_port spec_update idle)
    ≡ ok serving
unfolding take_instances ServerSide.process_instance_reset ServerSide.group_instances GoMap.insert
    GoMap.lookup
serves = refl

take_instances-IsTidy_example : IsTidy serving
take_instances-IsTidy_example =
    take_instances-IsTidy "10.0.0.1" any_port instances_update
      (process_service_update "10.0.0.1" any_port spec_update idle) serving known-IsTidy serves
