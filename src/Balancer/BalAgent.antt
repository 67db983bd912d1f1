-- ===== src/Balancer/BalAgent.antt =====
-- balancer/balagent/balagent.go: the updater, which aggregates the updates of the services and sends
-- snapshots to the generator, on a channel that holds one.
pub mod Snapshots
pub mod Interleaving
pub mod Known
pub mod Following
mod Tests
use ambergreen.Common.{
  String, Bool, true, false, Option, none, some, List, [], ◌∷◌, if◌then◌else◌, ◌==◌, string_eq,
}
use ambergreen.GoMap
use ambergreen.GoMap.{Map}
use ambergreen.Store.Data.{ServiceInfo, ServiceUpdate}

abbrev pub Services : Type 0
Services = Map String ServiceInfo

-- The loop over the services of an update.
unfoldable pub take_services : Map String (Option ServiceInfo) → Services → Services
take_services [] services = services
take_services ((name, none) ∷ m) services = take_services m (GoMap.delete name services)
take_services ((name, some svc) ∷ m) services = take_services m (GoMap.insert name svc services)

unfoldable pub take_update : ServiceUpdate → Services → Services
unfolding take_services
take_update u services = take_services u.services (if u.reset then [] else services)

-- The updater's services, and what the channel holds.
pub record Updater : Type 0 where
  pub services : Services
  pub pending : Option Services

abbrev pub start : Updater
start = record { services = []; pending = none }

pub data Round : Type 0 where
  update_comes : ServiceUpdate → Round
  -- The generator receives, when the channel holds a snapshot.
  generator_receives : Round

-- A round of run, or of the generator, with the snapshots that the generator has received so far.
unfoldable pub step : Round → Updater × List Services → Updater × List Services
unfolding take_update
step (update_comes u) (up, received) =
    let services = take_update u up.services in
    (record { services = services; pending = some services }, received)
step generator_receives (up, received) = elim up.pending [
  | none ↦ (up, received)
  | some s ↦ (record up { pending = none }, s ∷ received)
]

unfoldable pub run : List Round → Updater × List Services → Updater × List Services
unfolding step
run [] s = s
run (r ∷ rs) s = run rs (step r s)
