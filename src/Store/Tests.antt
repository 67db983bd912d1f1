-- ===== src/Store/Tests.antt =====
-- Runs of the in-memory store on one service with one instance.
use ambergreen.Common.{
  String, ◌≡◌, refl, true, false, ◌∷◌, none, some, [], Run, ok, panic, ◌==◌, string_eq, is_some,
  if◌then◌else◌, ◌&&◌,
}
use ambergreen.GoMap
use ambergreen.Store.Data.{Service, Instance, QueryServiceOptions}
use ambergreen.Store.InMemState.{
  no_instance, InMem, new_in_mem, fire_service_change, service_watcher, service_notices,
}
use ambergreen.Store.InMem
use ambergreen.Store.InMem.{Reply}
use ambergreen.Store.InMem.Session
use ambergreen.Store.InMem.Calls
use ambergreen.Store.InMem.Calls.{perform, IsAligned}
use ambergreen.Store.InMem.Aligned.{perform-IsAligned, perform-panics, panics}
use ambergreen.Store.InMem.Ending.{instance_at, Ended, end_session-Ended}
use ambergreen.Store.InMem.Notifies.{mentions}
use ambergreen.Store.InMem.Notifies.EachCall.{perform-keeps}
use ambergreen.Store.InMem.Reads.{
  Answers, get_service-Answers, instance_at-add_instance, instance_at-remove_instance,
}

abbrev web : Service
web = record { address = none; instance_port = 80; protocol = "http" }

abbrev web_instance : Instance
web_instance = record {
  host = record { ip = "10.0.0.1" };
  container_rule = "default";
  address = none;
  labels = [];
}

abbrev with_web : InMem
with_web = (InMem.add_service "web" web new_in_mem).0

abbrev reply_of : Run Reply → Reply
reply_of (ok r) = r
reply_of panic = (new_in_mem, none)

abbrev added : Reply
added = reply_of (InMem.add_instance "s1" "web" "c1" web_instance with_web)

adds : InMem.add_instance "s1" "web" "c1" web_instance with_web ≡ ok added
unfolding InMem.add_instance InMem.add_service fire_service_change GoMap.lookup GoMap.insert
adds = refl

new_in_mem-IsAligned : IsAligned new_in_mem
unfolding GoMap.has GoMap.lookup
new_in_mem-IsAligned name = record { rules = refl; instances = refl; ingress_instances = refl }

web-IsAligned : IsAligned with_web
unfolding perform
web-IsAligned =
    perform-IsAligned (Calls.add_service "web" web) new_in_mem with_web new_in_mem-IsAligned refl

add_performs : perform (Calls.add_instance "s1" "web" "c1" web_instance) with_web ≡ ok added.0
unfolding perform InMem.add_instance InMem.add_service fire_service_change GoMap.lookup GoMap.insert
add_performs = refl

perform-IsAligned_example : IsAligned added.0
perform-IsAligned_example =
    perform-IsAligned (Calls.add_instance "s1" "web" "c1" web_instance) with_web added.0
      web-IsAligned add_performs

perform-panics_example :
    panics (perform (Calls.add_instance "s1" "db" "c1" web_instance) with_web)
    ≡ Calls.adds_to_missing (Calls.add_instance "s1" "db" "c1" web_instance) with_web
perform-panics_example =
    perform-panics (Calls.add_instance "s1" "db" "c1" web_instance) with_web web-IsAligned

missing : Calls.adds_to_missing (Calls.add_instance "s1" "db" "c1" web_instance) with_web ≡ true
unfolding Calls.adds_to_missing InMem.add_service fire_service_change GoMap.has GoMap.lookup
    GoMap.insert
missing = refl

end_session-Ended_example : Ended "s1" added.0 (Session.end_session "s1" added.0)
end_session-Ended_example = end_session-Ended "s1" added.0

abbrev everything : QueryServiceOptions
everything = record {
  with_instances = true;
  with_container_rules = true;
  with_ingress_instances = true;
}

get_service-Answers_example :
    Answers "web" everything added.0 (InMem.get_service "web" everything added.0)
get_service-Answers_example = get_service-Answers "web" everything added.0

abbrev web_name : String
web_name = "web"

abbrev c1 : String
c1 = "c1"

instance_at-add_instance_example : instance_at added.0 web_name c1 ≡ (
    if (web_name == web_name) && (c1 == c1)
    then some (record { details = web_instance; session = "s1" })
    else instance_at with_web web_name c1)
instance_at-add_instance_example =
    instance_at-add_instance "s1" web_name c1 web_instance with_web added web_name c1 adds

instance_at-remove_instance_example :
    (instance_at (InMem.remove_instance web_name c1 added.0).0 web_name c1
      ≡ (if (web_name == web_name) && (c1 == c1) then none else instance_at added.0 web_name c1))
    × ((InMem.remove_instance web_name c1 added.0).1 ≡ (
        if is_some (instance_at added.0 web_name c1)
        then added.0.injected_error
        else some (no_instance web_name c1)))
instance_at-remove_instance_example = instance_at-remove_instance web_name c1 added.0 web_name c1

abbrev watched_web : InMem
watched_web = record with_web { watchers = service_watcher 7 everything ∷ []; sent = [] }

abbrev with_db : InMem
with_db = (InMem.add_service "db" web watched_web).0

adds_db : perform (Calls.add_service "db" web) watched_web ≡ ok with_db
unfolding perform
adds_db = refl

only_db : mentions "web" with_db.sent ≡ false
unfolding mentions InMem.add_service fire_service_change service_notices
only_db = refl

perform-keeps_example :
    InMem.get_service "web" everything with_db ≡ InMem.get_service "web" everything watched_web
perform-keeps_example =
    perform-keeps 7 everything "web" (Calls.add_service "db" web) watched_web with_db adds_db refl
      refl only_db
