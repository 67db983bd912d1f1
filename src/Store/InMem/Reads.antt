-- ===== src/Store/InMem/Reads.antt =====
-- What is read from the store after a write.
use ambergreen.Common.{
  String, ◌≡◌, refl, ap, false, ◌&&◌, Option, none, some, [], ◌∷◌, ok, ◌==◌, string_eq, Eq, is_some,
  if◌then◌else◌, arith,
}
use ambergreen.GoMap
use ambergreen.GoMap.{Map, keys}
use ambergreen.Net.{IpPort, ip_port_eq}
use ambergreen.Store.Data.{
  ContainerRule, Service, Instance, IngressInstance, ServiceInfo, QueryServiceOptions,
}
use ambergreen.Store.InMemState.{Sessioned, StoreError, not_found, InMem, fire_service_change}
use ambergreen.Store.InMem
use ambergreen.Store.InMem.{Reply, map_at, details_of, get_service, make_service_info}
use ambergreen.Store.InMem.Ending.{map_at-modify, instance_at, ingress_at}

abbrev pub details_at : {V : Type 0} → Option (Sessioned V) → Option V
details_at none = none
details_at (some v) = some v.details

pub lookup-details_of {ℓ} :
    {K : Type ℓ} ⦃e : Eq K⦄ {V : Type 0} (k : K) (m : Map K (Sessioned V))
    → GoMap.lookup k (details_of m) ≡ details_at (GoMap.lookup k m)
unfolding GoMap.lookup details_of
lookup-details_of k [] = refl
lookup-details_of k ((j, v) ∷ m) = ground (arith, lookup-details_of k m)

-- A reply of GetService shows exactly what the options ask for.
pub record Shows (name : String) (opts : QueryServiceOptions) (s : InMem) (info : ServiceInfo)
    : Type 0 where
  pub service : GoMap.lookup name s.services ≡ some info.service
  pub instances :
      (inst : String)
      → GoMap.lookup inst info.instances
        ≡ (if opts.with_instances then details_at (instance_at s name inst) else none)
  pub rules :
      (rule : String)
      → GoMap.lookup rule info.container_rules ≡ (
          if opts.with_container_rules then GoMap.lookup rule (map_at name s.group_specs) else none)
  pub ingress_instances :
      (addr : IpPort)
      → GoMap.lookup addr info.ingress_instances
        ≡ (if opts.with_ingress_instances then details_at (ingress_at s name addr) else none)

make_service_info-Shows :
    (name : String) (svc : Service) (opts : QueryServiceOptions) (s : InMem)
    → GoMap.lookup name s.services ≡ some svc
    → Shows name opts s (make_service_info name svc opts s)
unfolding make_service_info
make_service_info-Shows name svc opts s e = record {
  service = e;
  instances = λ inst. ground (
    arith,
    lookup-details_of inst (map_at name s.instances),
    GoMap.lookup_empty {V = Instance} inst,
  );
  rules = λ rule. ground (arith, GoMap.lookup_empty {V = ContainerRule} rule);
  ingress_instances = λ addr. ground (
    arith,
    lookup-details_of addr (map_at name s.ingress_instances),
    GoMap.lookup_empty {V = IngressInstance} addr,
  );
}

-- What GetService says of a store: a service that is there is shown, with the injected error; for
-- any other name there is nothing but the error that it was not found.
abbrev pub Answers :
    String → QueryServiceOptions → InMem → Option ServiceInfo × Option StoreError → Type 0
Answers name opts s (none, err) =
    (GoMap.has name s.services ≡ false) × (err ≡ some (not_found name))
Answers name opts s (some info, err) = Shows name opts s info × (err ≡ s.injected_error)

-- GetService answers for every name: with the service's own data, its instances, rules and ingress
-- instances as the options ask, or with the error that it was not found.
pub get_service-Answers :
    (name : String) (opts : QueryServiceOptions) (s : InMem)
    → Answers name opts s (get_service name opts s)
unfolding get_service GoMap.has
get_service-Answers name opts s = found (GoMap.lookup name s.services) refl
  where
    found :
        (o : Option Service)
        → GoMap.lookup name s.services ≡ o
        → Answers name opts s (elim o [
          | none ↦ (none, some (not_found name))
          | some svc ↦ (some (make_service_info name svc opts s), s.injected_error)
        ])
    found none q = (ap is_some q, refl)
    found (some svc) q = (make_service_info-Shows name svc opts s q, refl)

-- AddInstance on a service that is there: the instance is found under its name with the session of
-- the caller, and every other instance of every service is as before.
pub instance_at-add_instance :
    (session name inst : String) (details : Instance) (s : InMem) (r : Reply) (j i : String)
    → InMem.add_instance session name inst details s ≡ ok r
    → instance_at r.0 j i ≡ (
        if (name == j) && (inst == i)
        then some (record { details = details; session = session })
        else instance_at s j i)
unfolding InMem.add_instance fire_service_change
instance_at-add_instance session name inst details s r j i e =
    found (GoMap.lookup name s.instances) refl
  where
    found :
        (o : Option (Map String (Sessioned Instance)))
        → GoMap.lookup name s.instances ≡ o
        → instance_at r.0 j i ≡ (
            if (name == j) && (inst == i)
            then some (record { details = details; session = session })
            else instance_at s j i)
    found none q = absurd (ground (arith, q, e))
    found (some insts) q =
        let new : Sessioned Instance = record { details = details; session = session } in
        ground (
          arith,
          q,
          e,
          GoMap.lookup-insert name j (GoMap.insert inst new insts) s.instances,
          GoMap.lookup-insert inst i new insts,
          string_eq.beq_iff name j,
        )

-- RemoveInstance: the instance is gone if it was there, every other instance is as before, and an
-- error is returned for an instance that was not there.
pub instance_at-remove_instance :
    (name inst : String) (s : InMem) (j i : String)
    → (instance_at (InMem.remove_instance name inst s).0 j i
        ≡ (if (name == j) && (inst == i) then none else instance_at s j i))
      × ((InMem.remove_instance name inst s).1 ≡ (
          if is_some (instance_at s name inst)
          then s.injected_error
          else some (InMem.no_instance name inst)))
unfolding InMem.remove_instance fire_service_change GoMap.has
instance_at-remove_instance name inst s j i = (
  ground (
    arith,
    map_at-modify name j (GoMap.delete inst) s.instances (GoMap.delete_empty inst),
    GoMap.lookup-delete inst i (map_at name s.instances),
    string_eq.beq_iff name j,
    string_eq.beq_iff inst i,
  ),
  ground arith,
)
