-- ===== src/Balancer/ServerSide.antt =====
-- balancer/serverside/serverside.go: a forwarder on the host of the instances, for each service that
-- is known and has instances here. What it asks of the forwarders and of the store is a list of
-- effects. Whether a forwarder can be made, and its port, is the environment's choice. What the
-- store answers goes to the error sink and is left out.
pub mod Tidy
use ambergreen.Common.{
  ℕ, suc, ◌+◌, String, Bool, true, false, not, ◌&&◌, Option, none, some, List, [], ◌∷◌, ◌++◌, Run,
  ok, panic, ◌>>=◌, for_each, length, ◌==◌, string_eq, is_some, if◌then◌else◌,
}
use ambergreen.GoMap
use ambergreen.GoMap.{Map, keys}
use ambergreen.Net.{Ip, IpPort, new_ip_port}
use ambergreen.Store.Data
use ambergreen.Store.Data.{Instance, ServiceInfo, IngressInstance}
use ambergreen.Agent.SyncState.{InstanceKey, InstanceUpdate}

-- The struct `service`; a forwarder is known by a number.
pub record Service : Type 0 where
  pub service : Option Data.Service
  pub forwarder : Option ℕ
  pub addr : IpPort
  pub instances : Map String IpPort

pub data Effect : Type 0 where
  set_protocol : ℕ → String → Effect
  set_instances : ℕ → Map String IpPort → Effect
  stop_forwarder : ℕ → Effect
  add_ingress_instance : String → IpPort → IngressInstance → Effect
  remove_ingress_instance : String → IpPort → Effect
  post_error : String → Effect

pub record ServerSide : Type 0 where
  pub services : Map String Service
  pub next : ℕ
  pub effects : List Effect

abbrev pub new_service : Service
new_service = record {
  service = none;
  forwarder = none;
  addr = record { ip = ""; port = 0 };
  instances = [];
}

-- getService; the new entry of a missing service is written where the callers write it back.
unfoldable pub get_service : String → ServerSide → Service
get_service svc_name ss = elim (GoMap.lookup svc_name ss.services) [
  | none ↦ new_service
  | some svc ↦ svc
]

unfoldable pub put_service : String → Service → ServerSide → ServerSide
put_service svc_name svc ss = record ss { services = GoMap.insert svc_name svc ss.services }

unfoldable pub emit : List Effect → ServerSide → ServerSide
emit effects ss = record ss { effects = ss.effects ++ effects }

abbrev pub is_nil_map {ℓ} : {A : Type ℓ} → List A → Bool
is_nil_map [] = true
is_nil_map (x ∷ xs) = false

abbrev spec_of : Option ServiceInfo → Option Data.Service
spec_of none = none
spec_of (some info) = some info.service

-- `update.Services[svcName] == nil` fails.
abbrev pub is_live : Option (Option ServiceInfo) → Bool
is_live none = false
is_live (some info) = is_some info

module _ (host_ip : Ip) (new_forwarder : ServerSide → Option ℕ) where
  -- The end of the first branch of updateService, for a forwarder that runs.
  unfoldable pub serve : String → Service → ℕ → ServerSide → ServerSide
  unfolding put_service emit
  serve svc_name svc fwd ss =
      emit
        (set_instances fwd svc.instances
          ∷ add_ingress_instance svc_name svc.addr (record { weight = length svc.instances })
          ∷ [])
        (put_service svc_name svc ss)

  -- The first branch of updateService, given the forwarder that runs and the one that can be made.
  unfoldable pub start_serving :
      String → Service → Data.Service → ServerSide → Option ℕ → Option ℕ → ServerSide
  unfolding serve put_service emit
  start_serving svc_name svc spec ss (some fwd) made = serve svc_name svc fwd ss
  start_serving svc_name svc spec ss none none =
      emit (post_error svc_name ∷ []) (put_service svc_name svc ss)
  start_serving svc_name svc spec ss none (some port) =
      serve svc_name (record svc { forwarder = some ss.next; addr = new_ip_port host_ip port })
        ss.next (emit (set_protocol ss.next spec.protocol ∷ []) (record ss { next = ss.next + 1 }))

  -- The second branch of updateService, up to the last `if`, given the forwarder.
  unfoldable pub stop_serving : String → Service → ServerSide → Option ℕ → ServerSide
  unfolding put_service emit
  stop_serving svc_name svc ss none = put_service svc_name (record svc { forwarder = none }) ss
  stop_serving svc_name svc ss (some fwd) =
      emit (stop_forwarder fwd ∷ remove_ingress_instance svc_name svc.addr ∷ [])
        (put_service svc_name (record svc { forwarder = none }) ss)

  unfoldable pub forget : String → ServerSide → ServerSide
  forget svc_name ss = record ss { services = GoMap.delete svc_name ss.services }

  update_known : String → Service → ServerSide → Option Data.Service → Bool → ServerSide
  update_known svc_name svc ss (some spec) false =
      start_serving svc_name svc spec ss svc.forwarder (new_forwarder ss)
  update_known svc_name svc ss (some spec) true = stop_serving svc_name svc ss svc.forwarder
  update_known svc_name svc ss none false = stop_serving svc_name svc ss svc.forwarder
  update_known svc_name svc ss none true =
      forget svc_name (stop_serving svc_name svc ss svc.forwarder)

  -- updateService, for the entry `svc` as its caller has written it.
  unfoldable pub update_service : String → Service → ServerSide → ServerSide
  unfolding update_known start_serving stop_serving forget
  update_service svc_name svc ss =
      update_known svc_name svc ss svc.service (is_nil_map svc.instances)

  unfoldable pub service_change : String × Option ServiceInfo → ServerSide → ServerSide
  service_change (svc_name, usvc) ss =
      let svc = get_service svc_name ss in
      update_service svc_name (record svc { service = spec_of usvc }) ss

  unfoldable pub service_changes : Map String (Option ServiceInfo) → ServerSide → ServerSide
  service_changes [] ss = ss
  service_changes (c ∷ cs) ss = service_changes cs (service_change c ss)

  -- The loop of a reset over the services that are there.
  unfoldable pub drop_services :
      Map String (Option ServiceInfo) → List String → ServerSide → ServerSide
  drop_services updates [] ss = ss
  drop_services updates (svc_name ∷ names) ss = drop_services updates names (
      if is_live (GoMap.lookup svc_name updates)
      then ss
      else update_service svc_name (record (get_service svc_name ss) { service = none }) ss)

  unfoldable pub process_service_update : Data.ServiceUpdate → ServerSide → ServerSide
  process_service_update update ss =
      let changed = service_changes update.services ss in
      if update.reset
      then drop_services update.services (keys changed.services) changed
      else changed

  -- The first loop of processInstanceReset; `inst.Address` panics on a nil instance.
  unfoldable pub group_instances :
      Map InstanceKey (Option Instance)
      → Map String (Map String IpPort)
      → Run (Map String (Map String IpPort))
  group_instances [] svcs = ok svcs
  group_instances ((key, none) ∷ insts) svcs = panic
  group_instances ((key, some inst) ∷ insts) svcs = elim inst.address [
    | none ↦ group_instances insts svcs
    | some addr ↦ group_instances insts (elim (GoMap.lookup key.service svcs) [
      | none ↦ GoMap.insert key.service ((key.instance_name, addr) ∷ []) svcs
      | some m ↦ GoMap.insert key.service (GoMap.insert key.instance_name addr m) svcs
    ])
  ]

  -- The second loop.
  unfoldable pub set_groups : Map String (Map String IpPort) → ServerSide → ServerSide
  set_groups [] ss = ss
  set_groups ((svc_name, insts) ∷ svcs) ss =
      set_groups svcs
        (update_service svc_name (record (get_service svc_name ss) { instances = insts }) ss)

  -- The third loop, over the services that are there.
  unfoldable pub clear_others :
      Map String (Map String IpPort) → List String → ServerSide → ServerSide
  clear_others svcs [] ss = ss
  clear_others svcs (svc_name ∷ names) ss = clear_others svcs names (
      if GoMap.has svc_name svcs
      then ss
      else update_service svc_name (record (get_service svc_name ss) { instances = [] }) ss)

  unfoldable pub process_instance_reset : InstanceUpdate → ServerSide → Run ServerSide
  process_instance_reset update ss = group_instances update.instances [] >>= λ svcs.
      let set = set_groups svcs ss in ok (clear_others svcs (keys set.services) set)

  -- One round of the loop of processInstanceUpdate. Without an address only getService is left.
  unfoldable pub instance_change : InstanceKey × Option Instance → ServerSide → ServerSide
  instance_change (key, inst) ss =
      let svc = get_service key.service ss in
      elim inst [
        | none ↦
            update_service key.service
              (record svc { instances = GoMap.delete key.instance_name svc.instances }) ss
        | some details ↦ elim details.address [
          | none ↦ put_service key.service svc ss
          | some addr ↦
              update_service key.service
                (record svc { instances = GoMap.insert key.instance_name addr svc.instances }) ss
        ]
      ]

  unfoldable pub process_instance_update :
      Map InstanceKey (Option Instance) → ServerSide → ServerSide
  process_instance_update [] ss = ss
  process_instance_update (c ∷ cs) ss = process_instance_update cs (instance_change c ss)

  -- What a round of the loop of run does with an update of the instances.
  unfoldable pub take_instances : InstanceUpdate → ServerSide → Run ServerSide
  take_instances update ss =
      if update.reset
      then process_instance_reset update ss
      else ok (process_instance_update update.instances ss)
