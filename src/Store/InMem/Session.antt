-- ===== src/Store/InMem/Session.antt =====
-- common/store/inmem/inmem.go: hosts, heartbeats, the end of a session, watchers and errors.
use ambergreen.Common.{
  ℕ, ◌+◌, String, Bool, true, false, ◌||◌, Option, none, some, List, [], ◌∷◌, ◌++◌, ◌==◌, nat_eq,
  string_eq, if◌then◌else◌, Eq, map,
}
use ambergreen.GoMap
use ambergreen.GoMap.{Map, keys, values}
use ambergreen.Net.{IpPort, ip_port_eq}
use ambergreen.Store.Data.{Host, Instance, IngressInstance, QueryServiceOptions}
use ambergreen.Store.InMemState.{
  Sessioned, StoreError, no_heartbeats, Watcher, service_watcher, host_watcher, Notice,
  error_notice, InMem, fire_service_change, fire_host_change, with_instance_changes,
  with_ingress_instance_changes,
}

unfoldable pub register_host : String → String → Host → InMem → InMem
unfolding fire_host_change
register_host session identity details s = fire_host_change identity false (record s {
  hosts = GoMap.insert identity (record { details = details; session = session }) s.hosts;
})

-- DeregisterHost, and deleteHost
unfoldable pub deregister_host : String → InMem → InMem
unfolding fire_host_change
deregister_host identity s =
    fire_host_change identity true (record s { hosts = GoMap.delete identity s.hosts })

unfoldable pub get_hosts : InMem → List Host
get_hosts s = map (λ h. h.details) (values s.hosts)

unfoldable pub get_heartbeat : String → InMem → Option ℕ × Option StoreError
get_heartbeat identity s = elim (GoMap.lookup identity s.heartbeats) [
  | none ↦ (none, some (no_heartbeats identity))
  | some count ↦ (some count, none)
]

-- The timer is reset, or made, to fire after `ttl`.
unfoldable pub heartbeat : String → ℕ → InMem → InMem
heartbeat identity ttl s = record s {
  heartbeats = elim (GoMap.lookup identity s.heartbeats) [
    | none ↦ GoMap.insert identity 0 s.heartbeats
    | some count ↦ GoMap.insert identity (count + 1) s.heartbeats
  ];
  heartbeat_timers = GoMap.insert identity ttl s.heartbeat_timers;
}

abbrev pub is_of : {V : Type 0} → String → Option (Sessioned V) → Bool
is_of session none = false
is_of session (some v) = v.session == session

module _ {ℓ} {K : Type ℓ} ⦃e : Eq K⦄ {V : Type 0} where
  -- The inner loop of EndSession: the entries of the session are deleted.
  unfoldable pub cull_names : String → List K → Map K (Sessioned V) → Map K (Sessioned V)
  cull_names session [] m = m
  cull_names session (k ∷ ks) m =
      cull_names session ks (if is_of session (GoMap.lookup k m) then GoMap.delete k m else m)

  unfoldable pub cull : String → Map K (Sessioned V) → Map K (Sessioned V)
  unfolding cull_names
  cull session m = cull_names session (keys m) m

  -- The flag `changed`.
  unfoldable pub any_of : String → Map K (Sessioned V) → Bool
  any_of session [] = false
  any_of session ((k, v) ∷ m) = v.session == session || any_of session m

-- The three loops of EndSession.
unfoldable pub end_hosts : String → List String → InMem → InMem
unfolding fire_host_change
end_hosts session [] s = s
end_hosts session (name ∷ names) s = end_hosts session names (
    if is_of session (GoMap.lookup name s.hosts)
    then fire_host_change name true (record s { hosts = GoMap.delete name s.hosts })
    else s)

unfoldable pub end_instances : String → Map String (Map String (Sessioned Instance)) → InMem → InMem
unfolding cull any_of fire_service_change
end_instances session [] s = s
end_instances session ((name, insts) ∷ m) s =
    let culled : InMem = record s { instances = GoMap.modify name (cull session) s.instances } in
    end_instances session m (
      if any_of session insts
      then fire_service_change name false with_instance_changes culled
      else culled)

unfoldable pub end_ingress_instances :
    String → Map String (Map IpPort (Sessioned IngressInstance)) → InMem → InMem
unfolding cull any_of fire_service_change
end_ingress_instances session [] s = s
end_ingress_instances session ((name, insts) ∷ m) s =
    let culled : InMem = record s {
      ingress_instances = GoMap.modify name (cull session) s.ingress_instances;
    } in
    end_ingress_instances session m (
      if any_of session insts
      then fire_service_change name false with_ingress_instance_changes culled
      else culled)

unfoldable pub end_session : String → InMem → InMem
unfolding end_hosts end_instances end_ingress_instances
end_session session s =
    let s₁ : InMem = record s { heartbeat_timers = GoMap.delete session s.heartbeat_timers } in
    let s₂ = end_hosts session (keys s₁.hosts) s₁ in
    let s₃ = end_instances session s₂.instances s₂ in
    end_ingress_instances session s₃.ingress_instances s₃

-- The function that the timer of a session calls.
unfoldable pub timer_fires : String → InMem → InMem
unfolding end_session
timer_fires session s = if GoMap.has session s.heartbeat_timers then end_session session s else s

unfoldable pub error_notices : StoreError → List Watcher → List Notice
error_notices err [] = []
error_notices err (service_watcher w opts ∷ ws) = error_notice w err ∷ error_notices err ws
error_notices err (host_watcher w ∷ ws) = error_notice w err ∷ error_notices err ws

unfoldable pub inject_error : Option StoreError → InMem → InMem
unfolding error_notices
inject_error none s = record s { injected_error = none }
inject_error (some err) s = record s {
  injected_error = some err;
  sent = s.sent ++ error_notices err s.watchers;
}

-- With an injected error the watcher is not added, and the error is posted to its sink.
unfoldable pub watch_services : ℕ → QueryServiceOptions → InMem → InMem
watch_services w opts s = elim s.injected_error [
  | none ↦ record s { watchers = s.watchers ++ service_watcher w opts ∷ [] }
  | some err ↦ record s { sent = s.sent ++ error_notice w err ∷ [] }
]

unfoldable pub watch_hosts : ℕ → InMem → InMem
watch_hosts w s = record s { watchers = s.watchers ++ host_watcher w ∷ [] }

abbrev watcher_id : Watcher → ℕ
watcher_id (service_watcher w opts) = w
watcher_id (host_watcher w) = w

-- The loop of the goroutine that addWatcher starts: the first such watcher goes.
unfoldable pub discard_watcher : ℕ → List Watcher → List Watcher
discard_watcher w [] = []
discard_watcher w (x ∷ ws) =
    let rest = discard_watcher w ws in if nat_eq (watcher_id x) w then ws else x ∷ rest
