-- ===== src/Store/InMem/Notifies.antt =====
-- About the watchers of the services that the in-memory store tells of a call.
pub mod Parts
pub mod EachCall
pub mod Deletes
use ambergreen.Common.{
  ℕ, String, ◌≡◌, ◌≢◌, refl, sym, ap, ◌∙◌, subst, Bool, true, false, ◌||◌, ◌&&◌, Option, none, some,
  List, [], ◌∷◌, ◌++◌, Run, ok, panic, ◌>>=◌, >>=-eq-ok, ok-injective, ◌==◌, string_eq, is_some,
  if◌then◌else◌, arith, inl, inr, Bool-cases,
}
use ambergreen.GoMap
use ambergreen.GoMap.{Map, keys}
use ambergreen.Net.{IpPort, ip_port_eq}
use ambergreen.Store.Data.{
  Service, Instance, IngressInstance, ContainerRule, ServiceInfo, QueryServiceOptions,
}
use ambergreen.Store.InMemState.{
  InMem, StoreError, Sessioned, every_watcher, with_rule_changes, with_instance_changes, not_found,
  with_ingress_instance_changes, Watcher, service_watcher, host_watcher, Notice, service_notice,
  host_notice, error_notice, fire_service_change, service_notices, fire_host_change, host_notices,
}
use ambergreen.Store.InMem
use ambergreen.Store.InMem.{map_at, get_service, make_service_info, details_of}
use ambergreen.Store.InMem.Session
use ambergreen.Store.InMem.Calls.{
  Call, add_service, remove_service, remove_all_services, set_container_rule, remove_container_rule,
  add_instance, remove_instance, add_ingress_instance, remove_ingress_instance, register_host,
  deregister_host, heartbeat, end_session, perform,
}

-- Whether a notice is about the service.
unfoldable pub mentions : String → List Notice → Bool
mentions name [] = false
mentions name (service_notice w c ∷ ns) = (c.name == name) || mentions name ns
mentions name (host_notice w c ∷ ns) = mentions name ns
mentions name (error_notice w x ∷ ns) = mentions name ns

pub mentions-append :
    (name : String) (xs ys : List Notice)
    → mentions name (xs ++ ys) ≡ (mentions name xs || mentions name ys)
unfolding mentions
mentions-append name [] ys = refl
mentions-append name (service_notice w c ∷ ns) ys = ground (arith, mentions-append name ns ys)
mentions-append name (host_notice w c ∷ ns) ys = mentions-append name ns ys
mentions-append name (error_notice w x ∷ ns) ys = mentions-append name ns ys

as_asked :
    {A : Type 0} {B : Type 0} (b : Bool) (f : A → List B) (x y : A)
    → (b ≡ true → x ≡ y)
    → (if b then f x else []) ≡ (if b then f y else [])
as_asked true f x y h = ap f (h refl)
as_asked false f x y h = refl

module _ (w : ℕ) (opts : QueryServiceOptions) (name : String) where
  pub not_mentioned :
      (n : String) (deleted : Bool) (filter : QueryServiceOptions → Bool) (s : InMem)
      → s.watchers ≡ service_watcher w opts ∷ []
      → mentions name (
          s.sent
          ++ service_notices (record { name = n; service_deleted = deleted }) filter s.watchers)
        ≡ false
      → (filter opts && (n == name)) ≡ false
  unfolding service_notices mentions
  not_mentioned n deleted filter s h silent =
      let parts = sym (mentions-append name s.sent _) ∙ silent in ground (arith, rw h at parts)

  answer :
      Option Service
      → Map String Instance
      → Map String ContainerRule
      → Map IpPort IngressInstance
      → Option StoreError
      → Option ServiceInfo × Option StoreError
  answer none i r g err = (none, some (not_found name))
  answer (some svc) i r g err = (
    some (record { service = svc; instances = i; container_rules = r; ingress_instances = g }),
    err,
  )

  get_service-answer :
      (s : InMem)
      → get_service name opts s
        ≡ answer
            (GoMap.lookup name s.services)
            (if opts.with_instances then details_of (map_at name s.instances) else [])
            (if opts.with_container_rules then map_at name s.group_specs else [])
            (if opts.with_ingress_instances
              then details_of (map_at name s.ingress_instances)
              else [])
            s.injected_error
  unfolding get_service make_service_info answer
  get_service-answer s = ground arith

  pub get_service-same :
      (s t : InMem)
      → GoMap.lookup name t.services ≡ GoMap.lookup name s.services
      → (opts.with_instances ≡ true → map_at name t.instances ≡ map_at name s.instances)
      → (opts.with_container_rules ≡ true → map_at name t.group_specs ≡ map_at name s.group_specs)
      → (opts.with_ingress_instances ≡ true
          → map_at name t.ingress_instances ≡ map_at name s.ingress_instances)
      → t.injected_error ≡ s.injected_error
      → get_service name opts t ≡ get_service name opts s
  get_service-same s t services insts rules ingress err =
      let i =
        as_asked opts.with_instances details_of (map_at name t.instances) (map_at name s.instances)
          insts in
      let r =
        as_asked opts.with_container_rules (λ m. m) (map_at name t.group_specs)
          (map_at name s.group_specs) rules in
      let g =
        as_asked opts.with_ingress_instances details_of (map_at name t.ingress_instances)
          (map_at name s.ingress_instances) ingress in
      let after = get_service-answer t in let before = get_service-answer s in cc

  -- No notice about the service, no other answer for it.
  abbrev pub Silent : InMem → InMem → Type 0
  Silent s t =
      s.watchers ≡ service_watcher w opts ∷ []
      → mentions name t.sent ≡ false
      → get_service name opts t ≡ get_service name opts s
