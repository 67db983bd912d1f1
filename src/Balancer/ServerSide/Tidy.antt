-- ===== src/Balancer/ServerSide/Tidy.antt =====
-- The services that have a forwarder.
use ambergreen.Common.{
  ℕ, String, ◌≡◌, refl, Bool, true, false, Option, none, some, List, [], ◌∷◌, ok, >>=-eq-ok,
  ok-injective, ◌==◌, string_eq, is_some, inl, inr, Bool-cases, Option-cases, subst, ap,
}
use mathlib.Core.Bool.{false≢true}
use ambergreen.GoMap
use ambergreen.GoMap.{Map, keys, AllEntries}
use ambergreen.Net.{Ip, IpPort}
use ambergreen.Store.Data
use ambergreen.Store.Data.{Instance, ServiceInfo}
use ambergreen.Agent.SyncState.{InstanceKey, InstanceUpdate}
use ambergreen.Balancer.ServerSide.{
  Service, ServerSide, new_service, get_service, put_service, emit, is_nil_map, serve,
  start_serving, stop_serving, forget, update_known, update_service, service_change,
  service_changes, drop_services, is_live, process_service_update, group_instances, set_groups,
  clear_others, process_instance_reset, instance_change, process_instance_update, take_instances,
}

-- A service with a forwarder is known and has instances.
abbrev pub Tidy : String → Service → Type 0
Tidy name svc =
    is_some svc.forwarder ≡ true → (is_some svc.service ≡ true) × (is_nil_map svc.instances ≡ false)

abbrev pub IsTidy : ServerSide → Type 0
IsTidy ss = AllEntries Tidy ss.services

get_service-Tidy : (name : String) (ss : ServerSide) → IsTidy ss → Tidy name (get_service name ss)
unfolding get_service GoMap.lookup
get_service-Tidy name ss h = by_entries ss.services h
  where
    by_entries :
        (m : Map String Service)
        → AllEntries Tidy m
        → Tidy name (elim (GoMap.lookup name m) [ none ↦ new_service | some svc ↦ svc ])
    by_entries [] h = λ e. absurd (false≢true e)
    by_entries ((j, svc) ∷ m) h = elim (Bool-cases (j == name)) [
      | inl same ↦ rw same h.0
      | inr other ↦ rw other (by_entries m h.1)
    ]

module _ (host_ip : Ip) (new_forwarder : ServerSide → Option ℕ) where
  start_serving-IsTidy :
      (name : String) (svc : Service) (spec : Data.Service) (ss : ServerSide) (fwd made : Option ℕ)
      → is_some svc.service ≡ true
      → is_nil_map svc.instances ≡ false
      → IsTidy ss
      → IsTidy (start_serving host_ip new_forwarder name svc spec ss fwd made)
  unfolding start_serving serve put_service emit
  start_serving-IsTidy name svc spec ss (some fwd) made known full h =
      GoMap.AllEntries-insert Tidy name svc ss.services (λ _. (known, full)) h
  start_serving-IsTidy name svc spec ss none none known full h =
      GoMap.AllEntries-insert Tidy name svc ss.services (λ _. (known, full)) h
  start_serving-IsTidy name svc spec ss none (some port) known full h =
      GoMap.AllEntries-insert Tidy name _ ss.services (λ _. (known, full)) h

  stop_serving-IsTidy :
      (name : String) (svc : Service) (ss : ServerSide) (fwd : Option ℕ)
      → IsTidy ss
      → IsTidy (stop_serving host_ip new_forwarder name svc ss fwd)
  unfolding stop_serving put_service emit
  stop_serving-IsTidy name svc ss none h =
      GoMap.AllEntries-insert Tidy name _ ss.services (λ e. absurd (false≢true e)) h
  stop_serving-IsTidy name svc ss (some fwd) h =
      GoMap.AllEntries-insert Tidy name _ ss.services (λ e. absurd (false≢true e)) h

  update_known-IsTidy :
      (name : String) (svc : Service) (ss : ServerSide) (spec : Option Data.Service) (empty : Bool)
      → svc.service ≡ spec
      → is_nil_map svc.instances ≡ empty
      → IsTidy ss
      → IsTidy (update_known host_ip new_forwarder name svc ss spec empty)
  unfolding update_known forget
  update_known-IsTidy name svc ss (some spec) false known full h =
      start_serving-IsTidy name svc spec ss svc.forwarder (new_forwarder ss) (ap is_some known) full
        h
  update_known-IsTidy name svc ss (some spec) true known empty h =
      stop_serving-IsTidy name svc ss svc.forwarder h
  update_known-IsTidy name svc ss none false gone full h =
      stop_serving-IsTidy name svc ss svc.forwarder h
  update_known-IsTidy name svc ss none true gone empty h =
      GoMap.AllEntries-delete Tidy name _ (stop_serving-IsTidy name svc ss svc.forwarder h)

  update_service-IsTidy :
      (name : String) (svc : Service) (ss : ServerSide)
      → IsTidy ss
      → IsTidy (update_service host_ip new_forwarder name svc ss)
  unfolding update_service
  update_service-IsTidy name svc ss h = update_known-IsTidy name svc ss _ _ refl refl h

  service_changes-IsTidy :
      (cs : Map String (Option ServiceInfo)) (ss : ServerSide)
      → IsTidy ss
      → IsTidy (service_changes host_ip new_forwarder cs ss)
  unfolding service_changes service_change
  service_changes-IsTidy [] ss h = h
  service_changes-IsTidy ((name, usvc) ∷ cs) ss h =
      service_changes-IsTidy cs _ (update_service-IsTidy name _ ss h)

  drop_services-IsTidy :
      (updates : Map String (Option ServiceInfo)) (names : List String) (ss : ServerSide)
      → IsTidy ss
      → IsTidy (drop_services host_ip new_forwarder updates names ss)
  unfolding drop_services
  drop_services-IsTidy updates [] ss h = h
  drop_services-IsTidy updates (name ∷ names) ss h =
      elim (Bool-cases (is_live (GoMap.lookup name updates))) [
        | inl live ↦ rw (live, drop_services) (drop_services-IsTidy updates names ss h)
        | inr gone ↦
            rw (gone, drop_services)
              (drop_services-IsTidy updates names _ (update_service-IsTidy name _ ss h))
      ]

  -- An update of the services leaves a forwarder only at services that are known and have instances.
  pub process_service_update-IsTidy :
      (update : Data.ServiceUpdate) (ss : ServerSide)
      → IsTidy ss
      → IsTidy (process_service_update host_ip new_forwarder update ss)
  unfolding process_service_update
  process_service_update-IsTidy update ss h =
      let changed = service_changes-IsTidy update.services ss h in
      elim (Bool-cases update.reset) [
        | inl reset ↦ rw reset (drop_services-IsTidy update.services _ _ changed)
        | inr change ↦ rw change changed
      ]

  set_groups-IsTidy :
      (svcs : Map String (Map String IpPort)) (ss : ServerSide)
      → IsTidy ss
      → IsTidy (set_groups host_ip new_forwarder svcs ss)
  unfolding set_groups
  set_groups-IsTidy [] ss h = h
  set_groups-IsTidy ((name, insts) ∷ svcs) ss h =
      set_groups-IsTidy svcs _ (update_service-IsTidy name _ ss h)

  clear_others-IsTidy :
      (svcs : Map String (Map String IpPort)) (names : List String) (ss : ServerSide)
      → IsTidy ss
      → IsTidy (clear_others host_ip new_forwarder svcs names ss)
  unfolding clear_others
  clear_others-IsTidy svcs [] ss h = h
  clear_others-IsTidy svcs (name ∷ names) ss h = elim (Bool-cases (GoMap.has name svcs)) [
    | inl there ↦ rw (there, clear_others) (clear_others-IsTidy svcs names ss h)
    | inr gone ↦
        rw (gone, clear_others)
          (clear_others-IsTidy svcs names _ (update_service-IsTidy name _ ss h))
  ]

  instance_change-IsTidy :
      (c : InstanceKey × Option Instance) (ss : ServerSide)
      → IsTidy ss
      → IsTidy (instance_change host_ip new_forwarder c ss)
  unfolding instance_change put_service
  instance_change-IsTidy (key, none) ss h = update_service-IsTidy key.service _ ss h
  instance_change-IsTidy (key, some inst) ss h = elim (Option-cases inst.address) [
    | inl unknown ↦ rw unknown (
        GoMap.AllEntries-insert Tidy key.service _ ss.services (get_service-Tidy key.service ss h)
          h)
    | inr (addr, known) ↦ rw known (update_service-IsTidy key.service _ ss h)
  ]

  process_instance_update-IsTidy :
      (cs : Map InstanceKey (Option Instance)) (ss : ServerSide)
      → IsTidy ss
      → IsTidy (process_instance_update host_ip new_forwarder cs ss)
  unfolding process_instance_update
  process_instance_update-IsTidy [] ss h = h
  process_instance_update-IsTidy (c ∷ cs) ss h =
      process_instance_update-IsTidy cs _ (instance_change-IsTidy c ss h)

  -- An update of the instances that does not panic, with a reset or without, leaves a forwarder only
  -- at services that are known and have instances.
  pub take_instances-IsTidy :
      (update : InstanceUpdate) (ss t : ServerSide)
      → IsTidy ss
      → take_instances host_ip new_forwarder update ss ≡ ok t
      → IsTidy t
  unfolding take_instances process_instance_reset
  take_instances-IsTidy update ss t h e = elim (Bool-cases update.reset) [
    | inl reset ↦
        let (svcs, grouped, last) =
          >>=-eq-ok (group_instances host_ip new_forwarder update.instances []) _ (rw reset at e) in
        subst IsTidy (ok-injective last)
          (clear_others-IsTidy svcs _ _ (set_groups-IsTidy svcs ss h))
    | inr change ↦
        subst IsTidy (ok-injective (rw change at e))
          (process_instance_update-IsTidy update.instances ss h)
  ]
