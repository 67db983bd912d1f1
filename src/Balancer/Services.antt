-- ===== src/Balancer/Services.antt =====
-- balancer/services.go: for each service either a rule that rejects its packets, or a forwarder and
-- a rule that sends them to it. What the operating system holds for the balancer is the World: the
-- rules and the listening forwarders, as they were opened and closed. Whether it refuses a rule, the
-- deletion of a rule or a listener is the environment's choice. Logging is left out.
pub mod Resources
pub mod Balance
use ambergreen.Common.{
  ℕ, suc, ◌+◌, String, ◌≡◌, refl, ◌↔◌, Bool, true, false, not, ◌&&◌, ◌||◌, Option, none, some, List,
  [], ◌∷◌, ◌++◌, Run, ok, panic, ◌>>=◌, Eq, ◌==◌, nat_eq, string_eq, ℕ_eq, is_some, if◌then◌else◌,
  arith, for_each,
}
use ambergreen.GoMap
use ambergreen.GoMap.{Map, keys}
use ambergreen.Net.{Ip, IpPort, ip_port_eq, equal}
use ambergreen.Balancer.Model
use ambergreen.Balancer.Model.{Service, ServiceUpdate}

-- A rule of the table "filter" that rejects packets to an address, a rule of the table "nat" that
-- sends them to a forwarder, or a forwarder's listener.
pub data Resource : Type 0 where
  reject_rule : IpPort → Resource
  forward_rule : IpPort → ℕ → Resource
  listener : ℕ → Resource

-- A forwarder: the protocol and the instances that it was last given.
pub record Forwarder : Type 0 where
  pub protocol : String
  pub instances : Map String IpPort

-- Forwarders are known by numbers, in the order in which they are made. The rules that are left behind
-- are those whose deletion the environment refused.
pub record World : Type 0 where
  pub opened : List Resource
  pub closed : List Resource
  pub left : List Resource
  pub next : ℕ
  pub forwarders : Map ℕ Forwarder

pub record Environment : Type 0 where
  -- bridgeIP fails
  pub no_bridge : World → Bool
  -- forwarder.Config.New fails
  pub no_listener : World → Bool
  -- iptables -A fails
  pub no_rule : Resource → World → Bool
  -- iptables -D fails
  pub no_delete : Resource → World → Bool

pub data ServiceState : Type 0 where
  rejecting : IpPort → ServiceState
  forwarding : Service → IpPort → ℕ → ServiceState

pub record Services : Type 0 where
  pub services : Map String ServiceState
  pub world : World

unfoldable pub open_resource : Resource → World → World
open_resource r w = record w { opened = r ∷ w.opened }

unfoldable pub close_resource : Resource → World → World
close_resource r w = record w { closed = r ∷ w.closed }

-- SetProtocol and SetInstances
unfoldable pub set_forwarder : ℕ → Service → World → World
set_forwarder fwd s w = record w {
  forwarders =
      GoMap.insert fwd (record { protocol = s.protocol; instances = s.instances }) w.forwarders;
}

-- `none` is a nil state, with which comes an error.
abbrev pub Started : Type 0
Started = Option ServiceState × World

-- `s.Address.IP()` panics on a nil address.
abbrev with_address : Option IpPort → (IpPort → Started) → Run Started
with_address none f = panic
with_address (some addr) f = ok (f addr)

unfoldable pub is_nil_map {ℓ} : {A : Type ℓ} → List A → Bool
is_nil_map [] = true
is_nil_map (x ∷ xs) = false

-- `s.Address == nil || !s.Address.Equal(*fwd.service.Address)`
abbrev address_changed : Option IpPort → IpPort → Bool
address_changed none old = true
address_changed (some addr) old = not (addr == old)

-- The method update of a state: true to keep it.
unfoldable pub update_kept : ServiceState → Service → World → Run (Bool × World)
unfolding is_nil_map set_forwarder
update_kept (rejecting addr) s w = ok (is_nil_map s.instances, w)
update_kept (forwarding old addr fwd) s w =
    if is_nil_map s.instances
    then ok (false, w)
    else Model.equal s old >>= λ same.
        if same
        then ok (true, w)
        else if address_changed s.address addr
        then ok (false, w)
        else ok (true, set_forwarder fwd s w)

abbrev put_state : String → Map String ServiceState → Started → Services
put_state name m (none, w) = record { services = m; world = w }
put_state name m (some state, w) = record { services = GoMap.insert name state m; world = w }

abbrev pub is_live : Option (Option Service) → Bool
is_live none = false
is_live (some s) = is_some s

module _ (env : Environment) where
  -- ipTables.deleteRule, whose error is not looked at: a rule whose deletion is refused is left behind.
  unfoldable pub delete_rule : Resource → World → World
  unfolding close_resource
  delete_rule r w = if env.no_delete r w then record w { left = r ∷ w.left } else close_resource r w

  unfoldable pub stop_rejecting : IpPort → World → World
  unfolding delete_rule
  stop_rejecting addr w = delete_rule (reject_rule addr) w

  unfoldable pub stop_forwarding : IpPort → ℕ → World → World
  unfolding delete_rule
  stop_forwarding addr fwd w = delete_rule (forward_rule addr fwd) (close_resource (listener fwd) w)

  unfoldable pub stop_state : ServiceState → World → World
  unfolding stop_rejecting stop_forwarding
  stop_state (rejecting addr) w = stop_rejecting addr w
  stop_state (forwarding s addr fwd) w = stop_forwarding addr fwd w

  -- The old state is stopped once the new one has started; without a new one it stays.
  abbrev replace_state : Option ServiceState → Started → Started
  replace_state old (none, w) = (old, w)
  replace_state none (some new, w) = (some new, w)
  replace_state (some old) (some new, w) = (some new, stop_state old w)

  -- The end of a round of the loop that runs on a reset, given what `svcs.services[name]` is.
  abbrev pub prune_found : String → Services → Option ServiceState → Services
  prune_found name svcs none = svcs
  prune_found name svcs (some state) = record {
    services = GoMap.delete name svcs.services;
    world = stop_state state svcs.world;
  }

  unfoldable pub prune : Map String (Option Service) → List String → Services → Services
  prune updates [] svcs = svcs
  prune updates (name ∷ names) svcs = prune updates names (
      if is_live (GoMap.lookup name updates)
      then svcs
      else prune_found name svcs (GoMap.lookup name svcs.services))

  -- The loop of stop over the services.
  unfoldable pub stop_all : Map String ServiceState → World → World
  unfolding stop_state
  stop_all [] w = w
  stop_all ((name, state) ∷ m) w = stop_all m (stop_state state w)

  reject_at : World → IpPort → Started
  reject_at w addr =
      if env.no_rule (reject_rule addr) w
      then (none, w)
      else (some (rejecting addr), open_resource (reject_rule addr) w)

  unfoldable pub start_rejecting : Service → World → Run Started
  unfolding reject_at open_resource
  start_rejecting s w = with_address s.address (reject_at w)

  -- The rule for the forwarder `fwd`, which is stopped if the rule is refused.
  forward_at : Service → ℕ → World → IpPort → Started
  forward_at s fwd w addr =
      if env.no_rule (forward_rule addr fwd) w
      then (none, close_resource (listener fwd) w)
      else (some (forwarding s addr fwd), open_resource (forward_rule addr fwd) w)

  unfoldable pub start_forwarding : Service → World → Run Started
  unfolding forward_at open_resource close_resource set_forwarder
  start_forwarding s w =
      let fwd = w.next in
      let listening =
        set_forwarder fwd s (open_resource (listener fwd) (record w { next = fwd + 1 })) in
      if env.no_bridge w
      then ok (none, w)
      else if env.no_listener w
      then ok (none, w)
      else with_address s.address (forward_at s fwd listening)

  -- `len(update.Instances) == 0` chooses the new state.
  start_state : Service → World → Run Started
  start_state s w =
      let reject = start_rejecting s w in
      let forward = start_forwarding s w in if is_nil_map s.instances then reject else forward

  restart : Option ServiceState → Service → World → Run Started
  restart old s w = start_state s w >>= λ started. ok (replace_state old started)

  -- updateState: the state that the service has afterwards.
  unfoldable pub update_state : Option ServiceState → Service → World → Run Started
  unfolding restart start_state
  update_state none s w = restart none s w
  update_state (some state) s w = update_kept state s w >>= λ (kept, w').
      if kept then ok (some state, w') else restart (some state) s w'

  -- One round of the first loop of doUpdate, given what `svcs.services[name]` is.
  do_change_found : String → Option Service → Services → Option ServiceState → Run Services
  do_change_found name none svcs none = ok svcs
  do_change_found name none svcs (some state) =
      ok
        (record { services = GoMap.delete name svcs.services; world = stop_state state svcs.world })
  do_change_found name (some s) svcs old =
      update_state old s svcs.world >>= λ started. ok (put_state name svcs.services started)

  unfoldable pub do_change : String × Option Service → Services → Run Services
  unfolding do_change_found
  do_change (name, s) svcs = do_change_found name s svcs (GoMap.lookup name svcs.services)

  unfoldable pub do_update : ServiceUpdate → Services → Run Services
  unfolding do_change prune
  do_update update svcs = for_each do_change update.updates svcs >>= λ svcs'.
      ok (if update.reset then prune update.updates (keys svcs'.services) svcs' else svcs')
