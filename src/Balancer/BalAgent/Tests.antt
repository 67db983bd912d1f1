-- ===== src/Balancer/BalAgent/Tests.antt =====
-- Runs of the balancer agent on the in-memory store.
use ambergreen.Common.{◌≡◌, refl, true, none, some, List, [], ◌∷◌, Run, ok, panic, string_eq}
use ambergreen.GoMap
use ambergreen.GoMap.{Unique}
use ambergreen.Store.Data.{ContainerRule, Service, ServiceInfo, ServiceChange, QueryServiceOptions}
use ambergreen.Store.InMemState.{
  InMem, new_in_mem, service_watcher, fire_service_change, service_notices,
}
use ambergreen.Store.InMem
use ambergreen.Store.InMem.Calls
use ambergreen.Store.InMem.Calls.{perform}
use ambergreen.Store.WatchServices
use ambergreen.Store.WatchServices.{
  Reply, got, failed, Reader, first_update, change_update, change_info, watch_changes, all_present,
}
use ambergreen.Balancer.BalAgent.{Round, update_comes, generator_receives, start, run}
use ambergreen.Balancer.BalAgent.Snapshots.{newest, newest-run}
use ambergreen.Balancer.BalAgent.Interleaving.{
  in_mem, take_updates, Step, calls, receives, Waiting, play, serve,
}
use ambergreen.Balancer.BalAgent.Known.{shown}
use ambergreen.Balancer.BalAgent.Following.{run-Follows}

abbrev web : Service
web = record { address = none; instance_port = 80; protocol = "http" }

abbrev everything : QueryServiceOptions
everything = record {
  with_instances = true;
  with_container_rules = true;
  with_ingress_instances = true;
}

abbrev no_info : ServiceInfo
no_info = record { service = web; instances = []; container_rules = []; ingress_instances = [] }

abbrev some_rounds : List Round
some_rounds =
    update_comes (first_update (("web", no_info) ∷ []))
    ∷ generator_receives
    ∷ update_comes (change_update "web" none)
    ∷ []

newest-run_example :
    newest (run some_rounds (start, [])) ≡ some (run some_rounds (start, [])).0.services
newest-run_example = newest-run some_rounds (start, []) refl

-- A store with the watch, to which a service is added and then a rule, before the watch receives either.
abbrev watched : InMem
watched = record new_in_mem { watchers = service_watcher 7 everything ∷ [] }

abbrev web_rule : ContainerRule
web_rule = record { selector = []; instance_port = 80 }

abbrev two_calls : List Step
two_calls =
    calls (Calls.add_service "web" web)
    ∷ calls (Calls.set_container_rule "web" "default" web_rule)
    ∷ receives
    ∷ receives
    ∷ []

abbrev quiet : Run (List (ServiceChange × InMem) × Waiting) → List (ServiceChange × InMem) × Waiting
quiet (ok r) = r
quiet panic = ([], (watched, []))

abbrev played : List (ServiceChange × InMem) × Waiting
played = quiet (play two_calls (watched, []))

plays : play two_calls (watched, []) ≡ ok (played.0, (played.1.0, []))
unfolding play perform InMem.add_service InMem.set_container_rule fire_service_change
    service_notices GoMap.has GoMap.lookup GoMap.insert GoMap.modify
plays = refl

no_error : (WatchServices.run in_mem everything watched played.0).1 ≡ none
unfolding WatchServices.run watch_changes change_info InMem.get_all_services InMem.get_service play
    perform InMem.add_service InMem.set_container_rule fire_service_change service_notices GoMap.has
    GoMap.lookup GoMap.insert GoMap.modify
no_error = refl

serves : serve [] (watched, []) ≡ ok (watched, [])
unfolding serve
serves = refl

run-Follows_example :
    GoMap.lookup "web" (take_updates (WatchServices.run in_mem everything watched played.0).0 [])
    ≡ shown 7 everything "web" played.1.0
run-Follows_example =
    run-Follows 7 everything [] two_calls watched watched played.1.0 [] played.0 [] refl tt
      (refl, (refl, tt)) serves tt plays no_error "web"
